-- ===== src/Reservations/Known.antt =====
-- packages/core/src/reconciliation/ReservationReconciliationHelper.ts: the ids that either side knows.
use mathlib.Core.Path.{subst}
use Prim.Native.String.{String}
use zk_payroll_sdk.Prelude.{
  Bool, true, not, Bool-cases, none, some, Option-cases, List, [], ◌∷◌, ◌++◌, map, select, is_some,
  All, All-mono, All-append, ◌≡◌, ◌↔◌, ◌⊎◌, inl, inr, refl, sym, ap, arith, true≢false,
}
use zk_payroll_sdk.Prelude.Text.{Dict, lookup, str_eq, str_eq→≡, str_eq_refl}
use zk_payroll_sdk.Reservations.Reconcile.{
  ExpectedReservationState, ObservedReservationState, known_ids,
}

All-split {κ} : (P : String → Type κ) (xs ys : List String) → All P (xs ++ ys) → All P xs × All P ys
All-split P [] ys h = (tt, h)
All-split P (x ∷ xs) ys h = let (hx, hy) = All-split P xs ys h.1 in ((h.0, hx), hy)

-- What holds of the chosen keys holds of a key that is found and chosen.
All-lookup_key {ℓ κ} :
    {V : Type ℓ} (P : String → Type κ) (chosen : String → Bool) (k : String) {v : V} (d : Dict V)
    → All P (map (λ (e : String × V). e.0) (select (λ (e : String × V). chosen e.0) d))
    → lookup k d ≡ some v
    → chosen k ≡ true
    → P k
All-lookup_key P chosen k [] h e c = absurd cc
All-lookup_key P chosen k {v} ((j, w) ∷ d) h e c = elim (Bool-cases (str_eq j k)) [
  | inl same ↦
      let here = str_eq→≡ j k same in
      let there : chosen j ≡ true = rw here c in subst P here ((rw there at h).0)
  | inr other ↦
      let later : lookup k d ≡ some v = ground (arith, e, other) in
      elim (Bool-cases (chosen j)) [
        | inl there ↦ All-lookup_key P chosen k d ((rw there at h).1) later c
        | inr left_out ↦ All-lookup_key P chosen k d (rw left_out at h) later c
      ]
]

found-later {ℓ} :
    {V : Type ℓ} (j : String) (w : V) (id : String) (d : Dict V)
    → is_some (lookup id d) ≡ true
    → is_some (lookup id ((j, w) ∷ d)) ≡ true
found-later j w id d h = ground (arith, h)

-- A chosen key is a key that is found.
All-found {ℓ} :
    {V : Type ℓ} (chosen : String → Bool) (d : Dict V)
    → All
        (λ id. is_some (lookup id d) ≡ true)
        (map (λ (e : String × V). e.0) (select (λ (e : String × V). chosen e.0) d))
All-found chosen [] = tt
All-found {V} chosen ((j, w) ∷ d) =
    let rest =
      All-mono (λ id h. found-later j w id d h)
        (map (λ (e : String × V). e.0) (select (λ (e : String × V). chosen e.0) d))
        (All-found chosen d) in
    elim (Bool-cases (chosen j)) [
      | inl there ↦ rw there (rw (str_eq_refl j) refl, rest)
      | inr left_out ↦ rw left_out rest
    ]

keys_all {ℓ} :
    {V : Type ℓ} (d : Dict V)
    → map (λ (e : String × V). e.0) (select (λ (e : String × V). true) d)
      ≡ map (λ (e : String × V). e.0) d
keys_all [] = refl
keys_all ((j, w) ∷ d) = ap (λ ks. j ∷ ks) (keys_all d)

-- Neither side knows the id.
abbrev pub IsUnknown :
    Dict ExpectedReservationState → Dict ObservedReservationState → String → Type 0
IsUnknown expected observed id = (lookup id expected ≡ none) × (lookup id observed ≡ none)

-- The ids that are gone through are those that one of the sides knows.
pub known_ids_iff {κ} :
    (P : String → Type κ) (expected : Dict ExpectedReservationState)
    (observed : Dict ObservedReservationState)
    → All P (known_ids expected observed) ↔ ((id : String) → IsUnknown expected observed id ⊎ P id)
known_ids_iff P expected observed =
    let extra = λ (id : String). not (is_some (lookup id expected)) in
    let own = map (λ (e : String × ExpectedReservationState). e.0) expected in
    let others =
      map (λ (o : String × ObservedReservationState). o.0)
        (select (λ (o : String × ObservedReservationState). extra o.0) observed) in
    (
      λ h id.
          let (first, second) = All-split P own others h in
          elim (Option-cases (lookup id expected)) [
            | inr (e, there) ↦ inr (
                All-lookup_key P (λ _. true) id expected
                  (subst (All P) (sym (keys_all expected)) first) there refl)
            | inl absent ↦ elim (Option-cases (lookup id observed)) [
              | inl nowhere ↦ inl (absent, nowhere)
              | inr (o, seen) ↦
                  inr (All-lookup_key P extra id observed second seen (rw absent refl))
            ]
          ],
      λ h.
          All-append P own others
            (All-mono
              (λ id k. elim (h id) [
                | inl (absent, _) ↦ absurd (true≢false (sym (rw absent at k)))
                | inr p ↦ p
              ])
              own
              (subst (All (λ id. is_some (lookup id expected) ≡ true)) (keys_all expected)
                (All-found (λ _. true) expected)))
            (All-mono
              (λ id k. elim (h id) [
                | inl (_, absent) ↦ absurd (true≢false (sym (rw absent at k)))
                | inr p ↦ p
              ])
              others (All-found extra observed)),
    )
