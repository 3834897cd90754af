-- ===== src/Reconciliation/Verdicts.antt =====
-- packages/core/src/reconciliation/ReconciliationDiffGenerator.ts: what it means that nothing needs
-- attention.
use Prim.Native.String.{String}
use zk_payroll_sdk.Prelude.{
  ℕ, true, false, ◌||◌, Option, none, some, List, [], ◌∷◌, ◌++◌, map, ◌≡◌, refl, sym, ap, ◌⊎◌, inl,
  inr, Bool-cases, All, arith, &&-true, true≢false,
}
use zk_payroll_sdk.Prelude.Int.{ℤ, eq_of_parts}
use zk_payroll_sdk.Prelude.Text.{Dict, lookup, includes}
use zk_payroll_sdk.Reconciliation.{
  OnChainStatus, confirmed, failed, not_found, ObservedPaymentState, OutcomeStatus, success,
  failure, pending, PaymentExecutionOutcome, ReconciliationDiffEntry, key_of_outcome,
  key_of_observed, amounts_differ, diff_category, terminal_category, diff_one, index_observed,
  matched_keys, diff_outcomes, is_among, was_matched, is_not_found, unexpected_entries, is_settled,
  every_settled, generate_reconciliation_diff,
}
use zk_payroll_sdk.Reconciliation.Newest.{IsNewest, IsNewest-found}

-- The amount of an observation is unknown, or it is the expected one.
abbrev pub IsSameAmount : Option ℤ → ℤ → Type 0
IsSameAmount observed expected = (observed ≡ none) ⊎ (observed ≡ some expected)

-- A status and an amount on the chain show what a run recorded.
abbrev pub IsShown : OutcomeStatus → ℤ → OnChainStatus → Option ℤ → Type 0
IsShown pending amount status observed = Unit
IsShown success amount status observed = (status ≡ confirmed) × IsSameAmount observed amount
IsShown failure amount status observed = status ≡ failed

-- An outcome is still pending, or the newest observation of its key shows it.
abbrev pub IsAgreed : List ObservedPaymentState → PaymentExecutionOutcome → Type 0
IsAgreed observed outcome =
    (outcome.status ≡ pending)
    ⊎ ((o : ObservedPaymentState) × IsNewest (key_of_outcome outcome) observed (some o)
        × IsShown outcome.status outcome.amount o.on_chain_status o.amount)

-- An observation shows nothing, or some outcome has its key.
abbrev pub IsExpected : List PaymentExecutionOutcome → ObservedPaymentState → Type 0
IsExpected expected o =
    (o.on_chain_status ≡ not_found) ⊎ (was_matched (map key_of_outcome expected) o ≡ true)

every_settled-append :
    (es fs : List ReconciliationDiffEntry)
    → every_settled (es ++ fs) ≡ true
    → (every_settled es ≡ true) × (every_settled fs ≡ true)
every_settled-append [] fs h = (refl, h)
every_settled-append (e ∷ es) fs h =
    let (now, later) = &&-true (is_settled e.category) (every_settled (es ++ fs)) h in
    let (left, right) = every_settled-append es fs later in (rw (now, left) refl, right)

not_differing :
    (observed : Option ℤ) (expected : ℤ)
    → amounts_differ observed expected ≡ false
    → IsSameAmount observed expected
not_differing none expected h = inl refl
not_differing (some a) expected h = inr (ap some (eq_of_parts a expected (ground arith)))

succeeded-IsShown :
    (amount : ℤ) (status : OnChainStatus) (observed : Option ℤ)
    → is_settled (terminal_category true amount status observed) ≡ true
    → IsShown success amount status observed
succeeded-IsShown amount not_found observed h = absurd (true≢false (sym h))
succeeded-IsShown amount failed observed h = absurd (true≢false (sym h))
succeeded-IsShown amount confirmed observed h = (
  refl,
  elim (Bool-cases (amounts_differ observed amount)) [
    | inl apart ↦ absurd (ground arith)
    | inr same ↦ not_differing observed amount same
  ],
)

failed-IsShown :
    (amount : ℤ) (status : OnChainStatus) (observed : Option ℤ)
    → is_settled (terminal_category false amount status observed) ≡ true
    → IsShown failure amount status observed
failed-IsShown amount not_found observed h = absurd (true≢false (sym h))
failed-IsShown amount failed observed h = refl
failed-IsShown amount confirmed observed h = absurd (true≢false (sym h))

settled-IsAgreed :
    (key : String) (observed : List ObservedPaymentState) (status : OutcomeStatus) (amount : ℤ)
    (found : Option ObservedPaymentState)
    → IsNewest key observed found
    → is_settled (diff_category status amount found) ≡ true
    → (status ≡ pending)
      ⊎ ((o : ObservedPaymentState) × IsNewest key observed (some o)
          × IsShown status amount o.on_chain_status o.amount)
settled-IsAgreed key observed pending amount found newest h = inl refl
settled-IsAgreed key observed success amount none newest h = absurd (true≢false (sym h))
settled-IsAgreed key observed failure amount none newest h = absurd (true≢false (sym h))
settled-IsAgreed key observed success amount (some o) newest h =
    inr (o, newest, succeeded-IsShown amount o.on_chain_status o.amount h)
settled-IsAgreed key observed failure amount (some o) newest h =
    inr (o, newest, failed-IsShown amount o.on_chain_status o.amount h)

outcomes-IsAgreed :
    (observed : List ObservedPaymentState) (outcomes : List PaymentExecutionOutcome)
    → every_settled (diff_outcomes (index_observed [] observed) outcomes) ≡ true
    → All (IsAgreed observed) outcomes
unfolding diff_outcomes diff_one
outcomes-IsAgreed observed [] h = tt
outcomes-IsAgreed observed (o ∷ os) h =
    let found = lookup (key_of_outcome o) (index_observed [] observed) in
    let (now, later) =
      &&-true (is_settled (diff_category o.status o.amount found))
        (every_settled (diff_outcomes (index_observed [] observed) os)) h in
    (
      settled-IsAgreed (key_of_outcome o) observed o.status o.amount found
          (IsNewest-found (key_of_outcome o) observed) now,
      outcomes-IsAgreed observed os later,
    )

-- A key that is matched is the key of an outcome.
matched_key_of_outcome :
    (d : Dict ObservedPaymentState) (outcomes : List PaymentExecutionOutcome) (k : String)
    → includes (matched_keys d outcomes) k ≡ true
    → includes (map key_of_outcome outcomes) k ≡ true
unfolding matched_keys
matched_key_of_outcome d [] k h = h
matched_key_of_outcome d (o ∷ os) k h = ground (arith, matched_key_of_outcome d os k)

matched_of_outcome :
    (d : Dict ObservedPaymentState) (outcomes : List PaymentExecutionOutcome) (key : Option String)
    → is_among (matched_keys d outcomes) key ≡ true
    → is_among (map key_of_outcome outcomes) key ≡ true
matched_of_outcome d outcomes none h = h
matched_of_outcome d outcomes (some k) h = matched_key_of_outcome d outcomes k h

is_not_found→≡ : (s : OnChainStatus) → is_not_found s ≡ true → s ≡ not_found
is_not_found→≡ not_found h = refl
is_not_found→≡ confirmed h = absurd (true≢false (sym h))
is_not_found→≡ failed h = absurd (true≢false (sym h))

-- An observation that is reported as unexpected needs attention.
every_settled-unexpected :
    (matched : List String) (o : ObservedPaymentState) (os : List ObservedPaymentState)
    → every_settled (unexpected_entries matched (o ∷ os)) ≡ true
    → ((was_matched matched o || is_not_found o.on_chain_status) ≡ true)
      × (every_settled (unexpected_entries matched os) ≡ true)
unfolding unexpected_entries
every_settled-unexpected matched o os h =
    elim (Bool-cases (was_matched matched o || is_not_found o.on_chain_status)) [
      | inl skipped ↦ (skipped, rw skipped at h)
      | inr reported ↦ absurd (true≢false (sym (rw reported at h)))
    ]

observations-IsExpected :
    (d : Dict ObservedPaymentState) (outcomes : List PaymentExecutionOutcome)
    (observed : List ObservedPaymentState)
    → every_settled (unexpected_entries (matched_keys d outcomes) observed) ≡ true
    → All (IsExpected outcomes) observed
unfolding unexpected_entries
observations-IsExpected d outcomes [] h = tt
observations-IsExpected d outcomes (o ∷ os) h =
    let matched = matched_keys d outcomes in
    let (skipped, rest) = every_settled-unexpected matched o os h in
    let later = observations-IsExpected d outcomes os rest in
    elim (Bool-cases (was_matched matched o)) [
      | inl known ↦ (inr (matched_of_outcome d outcomes (key_of_observed o) known), later)
      | inr unknown ↦ (inl (is_not_found→≡ o.on_chain_status (ground arith)), later)
    ]

-- When a comparison is fully reconciled, every outcome of the run is still pending or the newest
-- observation of its recipient and asset shows it: confirmed and not with another amount for a
-- success, failed for a failure. And every observation that found something has the recipient and
-- asset of some outcome.
pub fully_reconciled-IsAgreed :
    (expected : List PaymentExecutionOutcome) (observed : List ObservedPaymentState) (now : ℕ)
    → (generate_reconciliation_diff expected observed now).is_fully_reconciled ≡ true
    → All (IsAgreed observed) expected × All (IsExpected expected) observed
unfolding generate_reconciliation_diff
fully_reconciled-IsAgreed expected observed now h =
    let d = index_observed [] observed in
    let (outcomes, rest) =
      every_settled-append (diff_outcomes d expected)
        (unexpected_entries (matched_keys d expected) observed) h in
    (outcomes-IsAgreed observed expected outcomes, observations-IsExpected d expected observed rest)
