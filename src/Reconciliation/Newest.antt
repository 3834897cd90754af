-- ===== src/Reconciliation/Newest.antt =====
-- packages/core/src/reconciliation/ReconciliationDiffGenerator.ts: the map of the first loop holds
-- the newest observation of each key.
use Prim.Native.String.{String}
use mathlib.Core.Path.{subst}
use mathlib.Core.List.{
  Mem, mem-append_left, mem-append_right, mem-cons_self, append_assoc, append-nil,
}
use zk_payroll_sdk.Prelude.{
  ◌≤◌, Bool, true, false, Option, none, some, List, [], ◌∷◌, ◌++◌, ◌≡◌, refl, sym, ◌⊎◌, inl, inr,
  ltb, ltb→lt, not_ltb→le, if◌then◌else◌, Bool-cases, All, All-mono, arith, All-append,
}
use zk_payroll_sdk.Prelude.Text.{Dict, lookup, lookup-insert, str_eq, str_eq→≡}
use zk_payroll_sdk.Reconciliation.{
  ObservedPaymentState, key_of_observed, index_under, index_one, index_observed,
}

abbrev pub is_key : String → Option String → Bool
is_key k none = false
is_key k (some j) = str_eq j k

abbrev pub has_key : String → ObservedPaymentState → Bool
has_key k o = is_key k (key_of_observed o)

-- What is found for a key is an observation of that key, and no other one of the key is newer;
-- nothing is found when there is none.
abbrev pub IsNewest : String → List ObservedPaymentState → Option ObservedPaymentState → Type 0
IsNewest k seen none = All (λ o. has_key k o ≡ false) seen
IsNewest k seen (some e) =
    (has_key k e ≡ true)
    × Mem e seen
    × All (λ o. (has_key k o ≡ false) ⊎ (o.observed_at ≤ e.observed_at)) seen

abbrev newer : Option ObservedPaymentState → ObservedPaymentState → Option ObservedPaymentState
newer none o = some o
newer (some e) o = if ltb e.observed_at o.observed_at then some o else some e

lookup-index_under :
    (k : String) (key : Option String) (d : Dict ObservedPaymentState) (o : ObservedPaymentState)
    → lookup k (index_under key o d) ≡ (if is_key k key then newer (lookup k d) o else lookup k d)
lookup-index_under k none d o = refl
lookup-index_under k (some j) d o = ground (arith, lookup-insert j k o d, str_eq→≡ j k)

replaced-IsNewest :
    (k : String) (past : List ObservedPaymentState) (found : Option ObservedPaymentState)
    (o : ObservedPaymentState)
    → has_key k o ≡ true
    → IsNewest k past found
    → IsNewest k (past ++ (o ∷ [])) (newer found o)
replaced-IsNewest k past none o mine h = (
  mine,
  mem-append_right past mem-cons_self,
  All-append _ past _ (All-mono (λ p. inl) past h) (inr (omega arith), tt),
)
replaced-IsNewest k past (some e) o mine (of_key, present, newest) =
    elim (Bool-cases (ltb e.observed_at o.observed_at)) [
      | inl later ↦ rw later (
        mine,
        mem-append_right past mem-cons_self,
        All-append _ past _
            (All-mono
              (λ p bound. elim bound [
                | inl apart ↦ inl apart
                | inr older ↦ inr (omega (arith, ltb→lt e.observed_at o.observed_at later))
              ])
              past newest)
            (inr (omega arith), tt),
      )
      | inr earlier ↦ rw earlier (
        of_key,
        mem-append_left (o ∷ []) present,
        All-append _ past _ newest (inr (not_ltb→le e.observed_at o.observed_at earlier), tt),
      )
    ]

other-IsNewest :
    (k : String) (past : List ObservedPaymentState) (found : Option ObservedPaymentState)
    (o : ObservedPaymentState)
    → has_key k o ≡ false
    → IsNewest k past found
    → IsNewest k (past ++ (o ∷ [])) found
other-IsNewest k past none o other h = All-append _ past _ h (other, tt)
other-IsNewest k past (some e) o other (of_key, present, newest) =
    (of_key, mem-append_left (o ∷ []) present, All-append _ past _ newest (inl other, tt))

newer-IsNewest :
    (k : String) (past : List ObservedPaymentState) (found : Option ObservedPaymentState)
    (o : ObservedPaymentState)
    → IsNewest k past found
    → IsNewest k (past ++ (o ∷ [])) (if has_key k o then newer found o else found)
newer-IsNewest k past found o h = elim (Bool-cases (has_key k o)) [
  | inl mine ↦ rw mine (replaced-IsNewest k past found o mine h)
  | inr other ↦ rw other (other-IsNewest k past found o other h)
]

index_observed-IsNewest :
    (k : String) (past : List ObservedPaymentState) (d : Dict ObservedPaymentState)
    (os : List ObservedPaymentState)
    → IsNewest k past (lookup k d)
    → IsNewest k (past ++ os) (lookup k (index_observed d os))
unfolding index_observed
index_observed-IsNewest k past d [] h =
    subst (λ seen. IsNewest k seen (lookup k d)) (sym (append-nil past)) h
index_observed-IsNewest k past d (o ∷ os) h =
    subst (λ seen. IsNewest k seen (lookup k (index_observed (index_one d o) os)))
      (append_assoc past (o ∷ []) os)
      (index_observed-IsNewest k (past ++ (o ∷ [])) (index_one d o) os (
        subst (λ found. IsNewest k (past ++ (o ∷ [])) found)
          (sym (lookup-index_under k (key_of_observed o) d o))
          (newer-IsNewest k past (lookup k d) o h)))

-- The map of the first loop gives for each key the newest observation of it.
pub IsNewest-found :
    (k : String) (os : List ObservedPaymentState) → IsNewest k os (lookup k (index_observed [] os))
IsNewest-found k os = index_observed-IsNewest k [] [] os tt
