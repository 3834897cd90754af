-- ===== src/Reservations/Releases.antt =====
-- packages/core/src/reconciliation/ReservationReconciliationHelper.ts: when detectDuplicateReleases finds
-- nothing.
use zk_payroll_sdk.Prelude.{
  true, Bool-cases, &&-true, List, [], ◌∷◌, ◌++◌, All, ◌≡◌, ◌↔◌, inl, inr, refl, sym, ◌∙◌, arith,
  true≢false,
}
use zk_payroll_sdk.Prelude.Int.{eqb_ℤ, eq_of_parts}
use zk_payroll_sdk.Prelude.Text.{str_eq→≡, ≡→str_eq}
use zk_payroll_sdk.Reservations.{
  released, status_event, EventType, ReservationEvent, same_event_type, of_type, same_release,
}
use zk_payroll_sdk.Reservations.Reconcile.{pairs_with, duplicate_pairs}

-- Both events are releases, of one amount for one employer.
abbrev pub IsRepeat : ReservationEvent → ReservationEvent → Type 0
IsRepeat d e =
    (d.event_type ≡ status_event released)
    × (e.event_type ≡ status_event released)
    × (d.amount ≡ e.amount)
    × (d.employer ≡ e.employer)

-- No event repeats the release of an earlier one.
abbrev pub AreReleasedOnce : List ReservationEvent → Type 0
AreReleasedOnce [] = Unit
AreReleasedOnce (e ∷ es) = All (λ f. ¬ IsRepeat e f) es × AreReleasedOnce es

append-nil_iff {ℓ} : {A : Type ℓ} (xs ys : List A) → (xs ++ ys ≡ []) ↔ ((xs ≡ []) × (ys ≡ []))
append-nil_iff [] ys = ((λ h. (refl, h)), (λ (_, h). h))
append-nil_iff (x ∷ xs) ys = ((λ h. absurd cc), (λ (h, _). absurd cc))

-- What is no release repeats none.
never :
    (e : ReservationEvent)
    → ¬ (e.event_type ≡ status_event released)
    → (es : List ReservationEvent) → All (λ f. ¬ IsRepeat e f) es
never e h [] = tt
never e h (f ∷ fs) = ((λ (is, _, _, _). h is), never e h fs)

same_event_type→≡ :
    (t : EventType) → same_event_type t (status_event released) ≡ true → t ≡ status_event released
same_event_type→≡ t h = ground (arith, h)

same_release_iff :
    (d e : ReservationEvent)
    → (same_release d e ≡ true) ↔ ((d.amount ≡ e.amount) × (d.employer ≡ e.employer))
same_release_iff d e = (
  λ h.
      let (amount, employer) = &&-true (eqb_ℤ d.amount e.amount) _ h in
      (
        eq_of_parts d.amount e.amount (ground (arith, amount)),
        str_eq→≡ d.employer e.employer employer,
      ),
  λ (amount, employer). rw (amount, ≡→str_eq d.employer e.employer employer) (ground arith),
)

pairs_with_iff :
    (d : ReservationEvent)
    → d.event_type ≡ status_event released
    → (es : List ReservationEvent)
    → (pairs_with d (of_type (status_event released) es) ≡ []) ↔ All (λ e. ¬ IsRepeat d e) es
pairs_with_iff d h [] = ((λ _. tt), (λ _. refl))
pairs_with_iff d h (e ∷ es) =
    let (to_rest, from_rest) = pairs_with_iff d h es in
    let (to_same, from_same) = same_release_iff d e in
    elim (Bool-cases (same_event_type e.event_type (status_event released))) [
      | inl release ↦
          let is = same_event_type→≡ e.event_type release in
          elim (Bool-cases (same_release d e)) [
            | inl same ↦
                rw (release, same)
                  (
                    (λ k. absurd cc),
                    (λ (k, _). absurd (k (h, is, (to_same same).0, (to_same same).1))),
                  )
            | inr differ ↦
                rw (release, differ)
                  (
                    (λ k. (
                      λ (_, _, amount, employer).
                          absurd (true≢false (sym (from_same (amount, employer)) ∙ differ)),
                      to_rest k,
                    )),
                    (λ (_, k). from_rest k),
                  )
          ]
      | inr other ↦ rw other (
        (λ k. ((λ (_, is, _, _). absurd (true≢false (sym (rw is refl) ∙ other))), to_rest k)),
        (λ (_, k). from_rest k),
      )
    ]

-- The two loops find nothing exactly when no release is repeated.
pub duplicate_pairs-AreReleasedOnce :
    (es : List ReservationEvent)
    → (duplicate_pairs (of_type (status_event released) es) ≡ []) ↔ AreReleasedOnce es
duplicate_pairs-AreReleasedOnce [] = ((λ _. tt), (λ _. refl))
duplicate_pairs-AreReleasedOnce (e ∷ es) =
    let (to_rest, from_rest) = duplicate_pairs-AreReleasedOnce es in
    let releases = of_type (status_event released) es in
    elim (Bool-cases (same_event_type e.event_type (status_event released))) [
      | inl release ↦
          let (to_pairs, from_pairs) =
            pairs_with_iff e (same_event_type→≡ e.event_type release) es in
          let (split, join) = append-nil_iff (pairs_with e releases) (duplicate_pairs releases) in
          rw release (
            (λ k. let (here, later) = split k in (to_pairs here, to_rest later)),
            (λ (here, later). join (from_pairs here, from_rest later)),
          )
      | inr other ↦
          let no_release : ¬ (e.event_type ≡ status_event released) =
            λ is. true≢false (sym (rw is refl) ∙ other) in
          rw other ((λ k. (never e no_release es, to_rest k)), (λ (_, k). from_rest k))
    ]
