-- ===== src/Reconciliation/Duplicates.antt =====
-- packages/core/src/reconciliation/ReconciliationDiffGenerator.ts: a second observation of a payment
-- that is expected, which the comment of generateReconciliationDiff says is caught.
use Prim.Native.String.{String}
use zk_payroll_sdk.Prelude.{
  ℕ, ◌≤◌, true, Option, none, some, List, [], ◌∷◌, ◌++◌, map, ◌≡◌, refl, ap, ◌∙◌, is_some, arith,
}
use zk_payroll_sdk.Prelude.Text.{Dict, lookup, includes, str_eq→≡}
use zk_payroll_sdk.Reconciliation.{
  ObservedPaymentState, PaymentExecutionOutcome, key_of_outcome, key_of_observed, index_under,
  index_one, index_observed, matched_keys, is_among, was_matched, unexpected_entries,
  generate_reconciliation_diff,
}

index-append :
    (d : Dict ObservedPaymentState) (os : List ObservedPaymentState) (o : ObservedPaymentState)
    → index_observed d (os ++ (o ∷ [])) ≡ index_one (index_observed d os) o
unfolding index_observed
index-append d [] o = refl
index-append d (p ∷ os) o = index-append (index_one d p) os o

older_ignored :
    (key : Option String) (k : String) (d : Dict ObservedPaymentState) (o e : ObservedPaymentState)
    → key ≡ some k
    → lookup k d ≡ some e
    → o.observed_at ≤ e.observed_at
    → index_under key o d ≡ d
older_ignored none k d o e same found older = ground arith
older_ignored (some j) k d o e same found older = ground arith

unexpected-append :
    (matched : List String) (os : List ObservedPaymentState) (o : ObservedPaymentState)
    → was_matched matched o ≡ true
    → unexpected_entries matched (os ++ (o ∷ [])) ≡ unexpected_entries matched os
unfolding unexpected_entries
unexpected-append matched [] o known = rw known refl
unexpected-append matched (p ∷ os) o known = rw (unexpected-append matched os o known) refl

-- The key of an outcome with an observation is matched.
key_matched :
    (k : String) (d : Dict ObservedPaymentState) (outcomes : List PaymentExecutionOutcome)
    → includes (map key_of_outcome outcomes) k ≡ true
    → is_some (lookup k d) ≡ true
    → includes (matched_keys d outcomes) k ≡ true
unfolding matched_keys
key_matched k d [] has found = has
key_matched k d (o ∷ os) has found =
    ground (arith, key_matched k d os, str_eq→≡ (key_of_outcome o) k)

is_among-some :
    (keys : List String) (key : Option String) (k : String)
    → key ≡ some k
    → includes keys k ≡ true
    → is_among keys key ≡ true
is_among-some keys none k same has = ground arith
is_among-some keys (some j) k same has = ground arith

-- When an outcome has the key of an observation and the first loop has found another observation
-- of the key that is at least as new, the observation makes no difference: the comparison with it
-- at the end and the one without it are equal, also when both observations are confirmed payments.
duplicate_unseen :
    (expected : List PaymentExecutionOutcome) (observed : List ObservedPaymentState)
    (duplicate e : ObservedPaymentState) (k : String) (now : ℕ)
    → key_of_observed duplicate ≡ some k
    → includes (map key_of_outcome expected) k ≡ true
    → lookup k (index_observed [] observed) ≡ some e
    → duplicate.observed_at ≤ e.observed_at
    → generate_reconciliation_diff expected (observed ++ (duplicate ∷ [])) now
      ≡ generate_reconciliation_diff expected observed now
unfolding generate_reconciliation_diff
duplicate_unseen expected observed duplicate e k now key has found older =
    let d = index_observed [] observed in
    let same =
      index-append [] observed duplicate
      ∙ older_ignored (key_of_observed duplicate) k d duplicate e key found older in
    let known =
      is_among-some (matched_keys d expected) (key_of_observed duplicate) k key
        (key_matched k d expected has (ap is_some found)) in
    simp (same, unexpected-append (matched_keys d expected) observed duplicate known)
