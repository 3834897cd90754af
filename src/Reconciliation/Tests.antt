-- ===== src/Reconciliation/Tests.antt =====
-- Comparisons of a run of three payments with what the chain shows.
use Prim.Native.String.{String}
use zk_payroll_sdk.Prelude.{ℕ, true, none, some, List, [], ◌∷◌, map, ◌≡◌, refl, All}
use zk_payroll_sdk.Prelude.Int.{pos}
use zk_payroll_sdk.Reconciliation.{
  OnChainStatus, confirmed, failed, not_found, ObservedPaymentState, OutcomeStatus, success,
  failure, pending, PaymentExecutionOutcome, match_found, failed_mismatch, amount_mismatch,
  still_pending, unexpected, ReconciliationDiffEntry, generate_reconciliation_diff, index_observed,
  matched_keys, diff_outcomes, diff_one, unexpected_entries,
}
use zk_payroll_sdk.Reconciliation.Verdicts.{IsAgreed, IsExpected, fully_reconciled-IsAgreed}

abbrev outcome : String → ℕ → OutcomeStatus → PaymentExecutionOutcome
outcome recipient amount status = record {
  recipient = recipient;
  amount = pos amount;
  asset = "native";
  status = status;
  tx_hash = none;
}

abbrev observation : String → ℕ → OnChainStatus → ℕ → ObservedPaymentState
observation recipient amount status at = record {
  recipient = recipient;
  amount = some (pos amount);
  asset = some "native";
  tx_hash = none;
  on_chain_status = status;
  observed_at = at;
}

abbrev a_run : List PaymentExecutionOutcome
a_run = outcome "ann" 70 success ∷ outcome "bob" 50 failure ∷ outcome "eve" 90 pending ∷ []

abbrev the_chain : List ObservedPaymentState
the_chain =
    observation "ann" 70 not_found 1
    ∷ observation "ann" 70 confirmed 3
    ∷ observation "bob" 50 failed 2
    ∷ []

abbrev another_chain : List ObservedPaymentState
another_chain =
    observation "ann" 71 confirmed 1
    ∷ observation "bob" 50 confirmed 1
    ∷ observation "joe" 50 failed 1
    ∷ []

abbrev duplicate : ObservedPaymentState
duplicate = observation "ann" 70 confirmed 2

a_run-categories :
    map
      (λ (e : ReconciliationDiffEntry). e.category)
      (generate_reconciliation_diff a_run the_chain 9).entries
    ≡ match_found ∷ match_found ∷ still_pending ∷ []
unfolding generate_reconciliation_diff index_observed matched_keys diff_outcomes diff_one
    unexpected_entries
a_run-categories = refl

other-categories :
    map
      (λ (e : ReconciliationDiffEntry). e.category)
      (generate_reconciliation_diff a_run another_chain 9).entries
    ≡ amount_mismatch ∷ failed_mismatch ∷ still_pending ∷ unexpected ∷ []
unfolding generate_reconciliation_diff index_observed matched_keys diff_outcomes diff_one
    unexpected_entries
other-categories = refl

a_run-settled : (generate_reconciliation_diff a_run the_chain 9).is_fully_reconciled ≡ true
unfolding generate_reconciliation_diff index_observed matched_keys diff_outcomes diff_one
    unexpected_entries
a_run-settled = refl

fully_reconciled-IsAgreed_example :
    All (IsAgreed the_chain) a_run × All (IsExpected a_run) the_chain
fully_reconciled-IsAgreed_example = fully_reconciled-IsAgreed a_run the_chain 9 a_run-settled

ann-newest :
    index_observed [] the_chain
    ≡ ("ann:native", observation "ann" 70 confirmed 3)
      ∷ ("bob:native", observation "bob" 50 failed 2)
      ∷ []
unfolding index_observed
ann-newest = refl
