-- ===== src/Retry/Tests.antt =====
-- Runs of the retry loop against a scripted operation, clock and signal.
use zk_payroll_sdk.Prelude.{
  ℕ, ◌-◌, ◌≤◌, ◌≡◌, refl, true, false, none, some, [], ◌∷◌, All, ◌==◌, if◌then◌else◌,
}
use zk_payroll_sdk.Prelude.Action.{ok, err}
use zk_payroll_sdk.Prelude.Text.{str_eq, is_blank}
use zk_payroll_sdk.Retry.Classify.{ErrorKind, network_error, Thrown, classify_error}
use zk_payroll_sdk.Retry.Budget.{
  RetryOperationType, read, write, PartialBudget, WithRetryBudgetOptions, AttemptResult, returned,
  timed_out, threw, slept, Around, exhausted, called, announced, backed_off, resolve_retry_budget,
  compute_backoff_delay, budget_of, is_retry_refused, effective_max_attempts, is_past,
  with_retry_budget,
}
use zk_payroll_sdk.Retry.Ending.{calls, Reports, IsJustified}
use zk_payroll_sdk.Retry.Attempts.{with_retry_budget-IsJustified, with_retry_budget-Reports}

abbrev no_jitter : ℕ → ℕ → ℕ
no_jitter n k = k - 1

abbrev no_override : PartialBudget
no_override = record {
  max_attempts = none;
  initial_delay_ms = none;
  backoff_factor = none;
  max_delay_ms = none;
  jitter_ms = none;
  timeout_ms = none;
  idempotency_required = none;
}

abbrev options_for : RetryOperationType → WithRetryBudgetOptions
options_for op = record {
  operation_type = op;
  budget = no_override;
  budgets = λ o. no_override;
  idempotency_key = some "  ";
}

abbrev thrown_with : ErrorKind → Thrown
thrown_with kind = record { kind = kind; name = "Error"; message = "timeout" }

abbrev calm : AttemptResult ℕ → Around ℕ
calm o = record {
  aborted_before = false;
  now_before = 5;
  outcome = o;
  aborted_after = false;
  now_after = 6;
  sleep = slept;
  aborted_in_sleep = false;
}

-- The first attempt loses its connection, the second times out, the third returns 7.
abbrev flaky : ℕ → Around ℕ
flaky n =
    if n == 1
    then calm (threw (thrown_with (network_error none)))
    else if n == 2
    then calm timed_out
    else calm (returned 7)

flaky_read : with_retry_budget str_eq no_jitter flaky (options_for read) 5 false ≡ (
  ok 7,
  called 1
      ∷ announced 1
      ∷ backed_off 1 100
      ∷ called 2
      ∷ announced 2
      ∷ backed_off 2 200
      ∷ called 3
      ∷ [],
)
unfolding with_retry_budget effective_max_attempts is_retry_refused budget_of resolve_retry_budget
    is_past compute_backoff_delay classify_error
flaky_read = refl

flaky_write :
    with_retry_budget str_eq no_jitter flaky (options_for write) 5 false
    ≡ (err (exhausted 1 1 true false (some (thrown_with (network_error none)))), called 1 ∷ [])
unfolding with_retry_budget effective_max_attempts is_retry_refused budget_of resolve_retry_budget
    is_past compute_backoff_delay classify_error is_blank
flaky_write = refl

with_retry_budget-IsJustified_example :
    let events = (with_retry_budget str_eq no_jitter flaky (options_for read) 5 false).1 in
    (calls events ≤ effective_max_attempts (options_for read))
    × All (IsJustified str_eq no_jitter flaky (options_for read) 5) events
with_retry_budget-IsJustified_example =
    with_retry_budget-IsJustified str_eq no_jitter flaky (options_for read) 5 false

with_retry_budget-Reports_example :
    let run = with_retry_budget str_eq no_jitter flaky (options_for read) 5 false in
    Reports str_eq no_jitter flaky (options_for read) 5 run.0 (calls run.1)
with_retry_budget-Reports_example =
    with_retry_budget-Reports str_eq no_jitter flaky (options_for read) 5
