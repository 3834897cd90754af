-- ===== src/Reconciliation.antt =====
-- packages/core/src/reconciliation/ReconciliationDiffGenerator.ts and reconciliation/types.ts: what a
-- run recorded, compared with what the chain shows.
use Prim.Native.String.{String, ◌++◌ as join}
use zk_payroll_sdk.Prelude.{
  ℕ, zero, suc, ◌+◌, Bool, true, false, not, ◌&&◌, ◌||◌, Option, none, some, List, [], ◌∷◌, ◌++◌,
  map, ltb, leb, ◌==◌, if◌then◌else◌, is_some,
}
use zk_payroll_sdk.Prelude.Int.{ℤ, eqb_ℤ}
use zk_payroll_sdk.Prelude.Text.{Dict, lookup, insert, includes, str_eq}
pub mod Newest
pub mod Verdicts
pub mod Counts
pub mod Duplicates
mod Tests

pub data OnChainStatus : Type 0 where
  confirmed failed not_found : OnChainStatus

-- An amount is a `bigint`, a time a number of milliseconds.
pub record ObservedPaymentState : Type 0 where
  pub recipient : String
  pub amount : Option ℤ
  pub asset : Option String
  pub tx_hash : Option String
  pub on_chain_status : OnChainStatus
  pub observed_at : ℕ

pub data OutcomeStatus : Type 0 where
  success failure pending : OutcomeStatus

-- A PaymentExecutionOutcome, as far as the comparison reads it.
pub record PaymentExecutionOutcome : Type 0 where
  pub recipient : String
  pub amount : ℤ
  pub asset : String
  pub status : OutcomeStatus
  pub tx_hash : Option String

pub data ReconciliationDiffCategory : Type 0 where
  match_found missing failed_mismatch amount_mismatch still_pending unexpected :
      ReconciliationDiffCategory

-- The text of the reason is left out.
pub record ReconciliationDiffEntry : Type 0 where
  pub recipient : String
  pub category : ReconciliationDiffCategory
  pub expected : Option PaymentExecutionOutcome
  pub observed : Option ObservedPaymentState

pub record ReconciliationDiffResult : Type 0 where
  pub entries : List ReconciliationDiffEntry
  pub counts : ReconciliationDiffCategory → ℕ
  pub is_fully_reconciled : Bool
  pub generated_at : ℕ

abbrev pub match_key : String → String → String
match_key recipient asset = join recipient (join ":" asset)

abbrev pub key_of_outcome : PaymentExecutionOutcome → String
key_of_outcome o = match_key o.recipient o.asset

abbrev pub key_of_observed : ObservedPaymentState → Option String
key_of_observed o = elim o.asset [ none ↦ none | some asset ↦ some (match_key o.recipient asset) ]

-- `observed.amount !== undefined && observed.amount !== outcome.amount`
abbrev pub amounts_differ : Option ℤ → ℤ → Bool
amounts_differ none expected = false
amounts_differ (some a) expected = not (eqb_ℤ a expected)

-- The category of a terminal outcome, a success or not, whose observation has a status and an
-- amount.
abbrev pub terminal_category : Bool → ℤ → OnChainStatus → Option ℤ → ReconciliationDiffCategory
terminal_category expected_succeeded amount not_found observed = missing
terminal_category true amount failed observed = failed_mismatch
terminal_category false amount failed observed = match_found
terminal_category true amount confirmed observed =
    if amounts_differ observed amount then amount_mismatch else match_found
terminal_category false amount confirmed observed = failed_mismatch

abbrev pub diff_category :
    OutcomeStatus → ℤ → Option ObservedPaymentState → ReconciliationDiffCategory
diff_category pending amount observed = still_pending
diff_category success amount none = missing
diff_category failure amount none = missing
diff_category success amount (some o) = terminal_category true amount o.on_chain_status o.amount
diff_category failure amount (some o) = terminal_category false amount o.on_chain_status o.amount

unfoldable pub diff_one :
    PaymentExecutionOutcome → Option ObservedPaymentState → ReconciliationDiffEntry
diff_one outcome observed = record {
  recipient = outcome.recipient;
  category = diff_category outcome.status outcome.amount observed;
  expected = some outcome;
  observed = observed;
}

-- A later observation of a key replaces an earlier one; one without an asset has no key.
abbrev pub index_under :
    Option String → ObservedPaymentState → Dict ObservedPaymentState → Dict ObservedPaymentState
index_under none o by_key = by_key
index_under (some key) o by_key = elim (lookup key by_key) [
  | none ↦ insert key o by_key
  | some existing ↦ if ltb existing.observed_at o.observed_at then insert key o by_key else by_key
]

-- A round of the first loop.
abbrev pub index_one : Dict ObservedPaymentState → ObservedPaymentState → Dict ObservedPaymentState
index_one by_key o = index_under (key_of_observed o) o by_key

unfoldable pub index_observed :
    Dict ObservedPaymentState → List ObservedPaymentState → Dict ObservedPaymentState
index_observed by_key [] = by_key
index_observed by_key (o ∷ os) = index_observed (index_one by_key o) os

-- The keys of outcomes for which there is an observation.
unfoldable pub matched_keys : Dict ObservedPaymentState → List PaymentExecutionOutcome → List String
matched_keys by_key [] = []
matched_keys by_key (o ∷ os) =
    let rest = matched_keys by_key os in
    if is_some (lookup (key_of_outcome o) by_key) then key_of_outcome o ∷ rest else rest

unfoldable pub diff_outcomes :
    Dict ObservedPaymentState → List PaymentExecutionOutcome → List ReconciliationDiffEntry
unfolding diff_one
diff_outcomes by_key outcomes = map (λ o. diff_one o (lookup (key_of_outcome o) by_key)) outcomes

abbrev pub is_among : List String → Option String → Bool
is_among keys none = false
is_among keys (some key) = includes keys key

abbrev pub was_matched : List String → ObservedPaymentState → Bool
was_matched matched o = is_among matched (key_of_observed o)

abbrev pub is_not_found : OnChainStatus → Bool
is_not_found not_found = true
is_not_found _ = false

-- The second loop.
unfoldable pub unexpected_entries :
    List String → List ObservedPaymentState → List ReconciliationDiffEntry
unexpected_entries matched [] = []
unexpected_entries matched (o ∷ os) =
    let rest = unexpected_entries matched os in
    if was_matched matched o || is_not_found o.on_chain_status
    then rest
    else record {
      recipient = o.recipient;
      category = unexpected;
      expected = none;
      observed = some o;
    }
      ∷ rest

abbrev pub same_category : ReconciliationDiffCategory → ReconciliationDiffCategory → Bool
same_category match_found match_found = true
same_category missing missing = true
same_category failed_mismatch failed_mismatch = true
same_category amount_mismatch amount_mismatch = true
same_category still_pending still_pending = true
same_category unexpected unexpected = true
same_category _ _ = false

-- `counts[e.category]++` for every entry.
abbrev pub count_category : List ReconciliationDiffEntry → ReconciliationDiffCategory → ℕ
count_category [] c = 0
count_category (e ∷ es) c =
    let rest = count_category es c in if same_category e.category c then suc rest else rest

abbrev pub is_settled : ReconciliationDiffCategory → Bool
is_settled c = same_category c match_found || same_category c still_pending

-- `entries.every((e) => e.category === "match" || e.category === "still_pending")`
abbrev pub every_settled : List ReconciliationDiffEntry → Bool
every_settled [] = true
every_settled (e ∷ es) = is_settled e.category && every_settled es

unfoldable pub generate_reconciliation_diff :
    List PaymentExecutionOutcome → List ObservedPaymentState → ℕ → ReconciliationDiffResult
unfolding index_observed matched_keys diff_outcomes unexpected_entries
generate_reconciliation_diff expected observed now =
    let by_key = index_observed [] observed in
    let entries =
      diff_outcomes by_key expected ++ unexpected_entries (matched_keys by_key expected) observed in
    record {
      entries = entries;
      counts = count_category entries;
      is_fully_reconciled = every_settled entries;
      generated_at = now;
    }
