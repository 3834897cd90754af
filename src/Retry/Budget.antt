-- ===== src/Retry/Budget.antt =====
-- packages/core/src/core/retry-budget.ts: running an operation under a retry budget. Times, counts
-- and the backoff factor are natural numbers. What the operation, the clock, the abort signal and
-- the sleep answer around attempt n is `world n`; `random_below n k` stands for
-- `Math.floor(random() * k)` there. The registry of idempotent operations is part of the operation.
use Prim.Native.String.{String}
use zk_payroll_sdk.Prelude.{
  ℕ, zero, suc, ◌+◌, ◌-◌, ◌*◌, ◌^◌, Bool, true, false, not, ◌&&◌, Option, none, some, List, [], ◌∷◌,
  ◌++◌, min, max, ltb, leb, ◌==◌, if◌then◌else◌, default,
}
use zk_payroll_sdk.Prelude.Text.{is_blank}
use zk_payroll_sdk.Prelude.Action.{Result, ok, err}
use zk_payroll_sdk.Retry.Classify.{Thrown, generic_error, classify_error, is_non_retryable}

pub data RetryOperationType : Type 0 where
  read write poll : RetryOperationType

pub record RetryBudgetConfig : Type 0 where
  pub max_attempts : ℕ
  pub initial_delay_ms : ℕ
  pub backoff_factor : ℕ
  pub max_delay_ms : ℕ
  pub jitter_ms : ℕ
  pub timeout_ms : Option ℕ
  pub idempotency_required : Bool

-- `Partial<RetryBudgetConfig>`; a field that is absent is none.
pub record PartialBudget : Type 0 where
  pub max_attempts : Option ℕ
  pub initial_delay_ms : Option ℕ
  pub backoff_factor : Option ℕ
  pub max_delay_ms : Option ℕ
  pub jitter_ms : Option ℕ
  pub timeout_ms : Option ℕ
  pub idempotency_required : Option Bool

-- `{ ...budget, ...overrides }`
abbrev pub override : RetryBudgetConfig → PartialBudget → RetryBudgetConfig
override budget o = record {
  max_attempts = default o.max_attempts budget.max_attempts;
  initial_delay_ms = default o.initial_delay_ms budget.initial_delay_ms;
  backoff_factor = default o.backoff_factor budget.backoff_factor;
  max_delay_ms = default o.max_delay_ms budget.max_delay_ms;
  jitter_ms = default o.jitter_ms budget.jitter_ms;
  timeout_ms = elim o.timeout_ms [ none ↦ budget.timeout_ms | some t ↦ some t ];
  idempotency_required = default o.idempotency_required budget.idempotency_required;
}

abbrev pub default_retry_budget : RetryOperationType → RetryBudgetConfig
default_retry_budget op = record {
  max_attempts = elim op [ read ↦ 3 | write ↦ 1 | poll ↦ 3 ];
  initial_delay_ms = 100;
  backoff_factor = 2;
  max_delay_ms = 1600;
  jitter_ms = 0;
  timeout_ms = none;
  idempotency_required = elim op [ read ↦ false | write ↦ true | poll ↦ false ];
}

-- `budgets` are the caller's budgets by operation type, `overrides` those of the call.
unfoldable pub resolve_retry_budget :
    RetryOperationType → (RetryOperationType → PartialBudget) → PartialBudget → RetryBudgetConfig
resolve_retry_budget op budgets overrides =
    override (override (default_retry_budget op) (budgets op)) overrides

unfoldable pub compute_backoff_delay : (ℕ → ℕ) → ℕ → RetryBudgetConfig → ℕ
compute_backoff_delay random_below attempt budget =
    let exponential = budget.initial_delay_ms * budget.backoff_factor ^ (max 1 attempt - 1) in
    min exponential budget.max_delay_ms
    + (if ltb 0 budget.jitter_ms then random_below (budget.jitter_ms + 1) else 0)

pub record WithRetryBudgetOptions : Type 0 where
  pub operation_type : RetryOperationType
  pub budget : PartialBudget
  pub budgets : RetryOperationType → PartialBudget
  pub idempotency_key : Option String

unfoldable pub budget_of : WithRetryBudgetOptions → RetryBudgetConfig
budget_of o = resolve_retry_budget o.operation_type o.budgets o.budget

abbrev pub has_idempotency_key : Option String → Bool
has_idempotency_key none = false
has_idempotency_key (some key) = not (is_blank key)

unfoldable pub is_retry_refused : WithRetryBudgetOptions → Bool
is_retry_refused o =
    (budget_of o).idempotency_required && not (has_idempotency_key o.idempotency_key)

unfoldable pub effective_max_attempts : WithRetryBudgetOptions → ℕ
effective_max_attempts o = if is_retry_refused o then 1 else max 1 (budget_of o).max_attempts

pub data AttemptResult (A : Type 0) : Type 0 where
  returned : A → AttemptResult A
  timed_out : AttemptResult A
  threw : Thrown → AttemptResult A

pub data SleepResult : Type 0 where
  slept : SleepResult
  sleep_threw : Thrown → SleepResult

-- What is found around one attempt, in the order in which it is asked for.
pub record Around (A : Type 0) : Type 0 where
  pub aborted_before : Bool
  pub now_before : ℕ
  pub outcome : AttemptResult A
  pub aborted_after : Bool
  pub now_after : ℕ
  pub sleep : SleepResult
  pub aborted_in_sleep : Bool

pub data RetryError : Type 0 where
  cancelled : RetryError
  exhausted : ℕ → ℕ → Bool → Bool → Option Thrown → RetryError
  rethrown : Thrown → RetryError

-- The calls of the operation, the calls of `onRetry` and the delays asked of the sleep.
pub data RetryEvent : Type 0 where
  called : ℕ → RetryEvent
  announced : ℕ → RetryEvent
  backed_off : ℕ → ℕ → RetryEvent

abbrev pub Run : Type 0 → Type 0
Run A = Result RetryError A × List RetryEvent

-- The error of an attempt that took too long, without its message.
abbrev pub timeout_error : Thrown
timeout_error = record { kind = generic_error; name = "RetryAttemptTimeoutError"; message = "" }

-- `budget.timeoutMs !== undefined && time - startedAt >= budget.timeoutMs`
unfoldable pub is_past : Option ℕ → ℕ → ℕ → Bool
is_past none started_at time = false
is_past (some timeout) started_at time = leb (started_at + timeout) time

module _ {A : Type 0} where
  abbrev pub before : List RetryEvent → Run A → Run A
  before events (r, later) = (r, events ++ later)

module _ {A : Type 0} (matches : String → String → Bool) (random_below : ℕ → ℕ → ℕ)
    (world : ℕ → Around A) (options : WithRetryBudgetOptions) (started_at : ℕ) where
  abbrev pub give_up : ℕ → Bool → Option Thrown → Run A
  give_up attempts deadline cause = (
    err (
        exhausted attempts (effective_max_attempts options) (is_retry_refused options) deadline
          cause),
    [],
  )

  -- From `onRetry` to the end of the sleep; `rest` are the attempts that follow.
  abbrev pub back_off : ℕ → Thrown → Run A → Run A
  back_off attempt e rest =
      let delay = compute_backoff_delay (random_below attempt) attempt (budget_of options) in
      if is_past (budget_of options).timeout_ms started_at ((world attempt).now_after + delay)
      then before (announced attempt ∷ []) (give_up attempt true (some e))
      else before (announced attempt ∷ backed_off attempt delay ∷ []) (elim (world attempt).sleep [
        | slept ↦ rest
        | sleep_threw e' ↦
            if (world attempt).aborted_in_sleep
            then (err cancelled, [])
            else (err (rethrown e'), [])
      ])

  -- One round of the loop; `rest` are the rounds that follow.
  abbrev pub attempt_once : ℕ → Option Thrown → (Thrown → Run A) → Run A
  attempt_once attempt last rest =
      if (world attempt).aborted_before
      then (err cancelled, [])
      else if is_past (budget_of options).timeout_ms started_at (world attempt).now_before
      then give_up (attempt - 1) true last
      else before (called attempt ∷ []) (elim (world attempt).outcome [
        | returned a ↦ (ok a, [])
        | timed_out ↦
            if attempt == effective_max_attempts options
            then give_up (effective_max_attempts options) false (some timeout_error)
            else back_off attempt timeout_error (rest timeout_error)
        | threw e ↦
            if (world attempt).aborted_after
            then (err cancelled, [])
            else if attempt == effective_max_attempts options
            then give_up (effective_max_attempts options) false (some e)
            else if is_non_retryable (classify_error matches e)
            then (err (rethrown e), [])
            else back_off attempt e (rest e)
      ])

  -- The loop, with the number of rounds left; the last round leaves it by itself.
  unfoldable pub attempts_from : ℕ → ℕ → Option Thrown → Run A
  attempts_from zero attempt last = give_up (effective_max_attempts options) false last
  attempts_from (suc left) attempt last =
      attempt_once attempt last (λ e. attempts_from left (attempt + 1) (some e))

  -- `aborted` is the abort signal before the first attempt.
  unfoldable pub with_retry_budget : Bool → Run A
  unfolding attempts_from
  with_retry_budget aborted =
      if aborted then (err cancelled, []) else attempts_from (effective_max_attempts options) 1 none
