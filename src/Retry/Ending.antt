-- ===== src/Retry/Ending.antt =====
-- packages/core/src/core/retry-budget.ts: what is said of the events and of the end of a run.
use Prim.Native.String.{String}
use mathlib.Core.Path.{subst}
use zk_payroll_sdk.Prelude.{
  ℕ, suc, ◌+◌, ◌-◌, ◌≤◌, ◌<◌, ◌≡◌, refl, Bool, true, false, not, ◌&&◌, Option, none, some, List, [],
  ◌∷◌, ◌⊎◌, inl, inr,
}
use zk_payroll_sdk.Prelude.Action.{Result, ok, err}
use zk_payroll_sdk.Retry.Classify.{Thrown, classify_error, is_non_retryable}
use zk_payroll_sdk.Retry.Budget.{
  WithRetryBudgetOptions, returned, timed_out, threw, sleep_threw, Around, RetryError, cancelled,
  exhausted, rethrown, RetryEvent, called, announced, backed_off, is_past, effective_max_attempts,
  is_retry_refused, budget_of, compute_backoff_delay, timeout_error,
}

-- The number of calls of the operation.
abbrev pub calls : List RetryEvent → ℕ
calls [] = 0
calls (called n ∷ events) = suc (calls events)
calls (announced n ∷ events) = calls events
calls (backed_off n d ∷ events) = calls events

module _ {A : Type 0} (matches : String → String → Bool) (random_below : ℕ → ℕ → ℕ)
    (world : ℕ → Around A) (options : WithRetryBudgetOptions) (started_at : ℕ) where
  -- The error is what the n-th call ended with: none before the first call, the timeout error for a
  -- call that took too long, or what the call threw.
  pub IsCause : ℕ → Option Thrown → Type 0
  IsCause n cause =
      ((n ≡ 0) × (cause ≡ none))
      ⊎ ((((world n).outcome ≡ timed_out) × (cause ≡ some timeout_error))
          ⊎ ((e : Thrown) × ((world n).outcome ≡ threw e) × (cause ≡ some e)))

  pub none-IsCause : IsCause 0 none
  unfolding IsCause
  none-IsCause = inl (refl, refl)

  pub timed_out-IsCause : (n : ℕ) → (world n).outcome ≡ timed_out → IsCause n (some timeout_error)
  unfolding IsCause
  timed_out-IsCause n late = inr (inl (late, refl))

  pub threw-IsCause : (n : ℕ) (e : Thrown) → (world n).outcome ≡ threw e → IsCause n (some e)
  unfolding IsCause
  threw-IsCause n e thrown = inr (inr (e, thrown, refl))

  -- There is a timeout, and the clock was past it before the call after the n-th, or would have been
  -- after the backoff of the n-th.
  abbrev pub IsTooLate : ℕ → Type 0
  IsTooLate n =
      (timeout : ℕ) × ((budget_of options).timeout_ms ≡ some timeout)
      × ((started_at + timeout ≤ (world (suc n)).now_before)
          ⊎ (started_at + timeout
              ≤ (world n).now_after + compute_backoff_delay (random_below n) n (budget_of options)))

  -- What the end of a run says, given how often the operation was called.
  abbrev pub Reports : Result RetryError A → ℕ → Type 0
  Reports (ok a) n = (world n).outcome ≡ returned a
  Reports (err cancelled) n =
      ((world (suc n)).aborted_before ≡ true)
      ⊎ (((world n).aborted_after ≡ true) ⊎ ((world n).aborted_in_sleep ≡ true))
  Reports (err (exhausted k m refused deadline cause)) n =
      (k ≡ n)
      × (m ≡ effective_max_attempts options)
      × (refused ≡ is_retry_refused options)
      × IsCause n cause
      × (((deadline ≡ true) × IsTooLate n) ⊎ ((deadline ≡ false) × (k ≡ m)))
  Reports (err (rethrown e)) n =
      (((world n).outcome ≡ threw e) × (is_non_retryable (classify_error matches e) ≡ true))
      ⊎ ((world n).sleep ≡ sleep_threw e)

  pub Reports-at : (r : Result RetryError A) (m n : ℕ) → m ≡ n → Reports r m → Reports r n
  Reports-at r m n e h = subst (Reports r) e h

  -- A failure after which another attempt is allowed.
  abbrev pub is_retryable_failure : Around A → Bool
  is_retryable_failure around = elim around.outcome [
    | returned a ↦ false
    | timed_out ↦ true
    | threw e ↦ not around.aborted_after && not (is_non_retryable (classify_error matches e))
  ]

  -- Attempt `n` is the first one, or the failure of the one before it allows it.
  abbrev pub IsAllowed : ℕ → Type 0
  IsAllowed n = (n ≡ 1) ⊎ (is_retryable_failure (world (n - 1)) ≡ true)

  -- A call is within the budget and allowed; a sleep is the backoff of its attempt, and it ends
  -- before the deadline.
  abbrev pub IsJustified : RetryEvent → Type 0
  IsJustified (called n) =
      (0 < n)
      × (n ≤ effective_max_attempts options)
      × ((n ≡ 1) ⊎ (is_retryable_failure (world (n - 1)) ≡ true))
  IsJustified (announced n) = is_retryable_failure (world n) ≡ true
  IsJustified (backed_off n delay) =
      (delay ≡ compute_backoff_delay (random_below n) n (budget_of options))
      × (is_past (budget_of options).timeout_ms started_at ((world n).now_after + delay) ≡ false)
