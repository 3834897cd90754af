-- ===== src/Retry/Attempts.antt =====
-- How often a retried operation is called, and what the end of the run says about it.
use Prim.Native.String.{String}
use mathlib.Core.Path.{subst}
use zk_payroll_sdk.Prelude.{
  ℕ, zero, suc, ◌+◌, ◌-◌, ◌≤◌, ◌<◌, ◌≡◌, refl, sym, Bool, true, false, Option, none, some, All, inl,
  inr, arith,
}
use zk_payroll_sdk.Prelude.Action.{err}
use zk_payroll_sdk.Retry.Classify.{Thrown}
use zk_payroll_sdk.Retry.Budget.{
  WithRetryBudgetOptions, Around, exhausted, called, Run, attempts_from, with_retry_budget,
  effective_max_attempts, is_retry_refused, budget_of, has_idempotency_key,
}
use zk_payroll_sdk.Retry.Ending.{
  calls, IsCause, none-IsCause, Reports-at, Reports, is_retryable_failure, IsAllowed, IsJustified,
}
use zk_payroll_sdk.Retry.Rounds.{GoesOn, attempt_once-cases}

one_attempt :
    (options : WithRetryBudgetOptions)
    → (budget_of options).idempotency_required ≡ true
    → has_idempotency_key options.idempotency_key ≡ false
    → effective_max_attempts options ≡ 1
unfolding effective_max_attempts is_retry_refused
one_attempt options required keyless = rw (required, keyless) refl

module _ {A : Type 0} (matches : String → String → Bool) (random_below : ℕ → ℕ → ℕ)
    (world : ℕ → Around A) (options : WithRetryBudgetOptions) (started_at : ℕ) where
  -- What holds of the rounds from `attempt` on, of which `left` are left.
  abbrev IsSound : ℕ → ℕ → Run A → Type 0
  IsSound attempt left run =
      Reports matches random_below world options started_at run.0 (attempt - 1 + calls run.1)
      × (calls run.1 ≤ left)
      × All (IsJustified matches random_below world options started_at) run.1

  GoesOn-IsSound :
      (attempt left : ℕ) (rest : Thrown → Run A) (run : Run A)
      → 0 < attempt
      → IsJustified matches random_below world options started_at (called attempt)
      → ((e : Thrown)
          → IsCause matches random_below world options started_at attempt (some e)
          → is_retryable_failure matches random_below world options started_at (world attempt)
            ≡ true
          → IsSound (attempt + 1) left (rest e))
      → GoesOn matches random_below world options started_at attempt rest run
      → IsSound attempt (suc left) run
  GoesOn-IsSound attempt left rest run h call later (e, cause, may, in_time, eq) =
      subst (IsSound attempt (suc left)) (sym eq) (
        Reports-at matches random_below world options started_at (rest e).0
            (attempt + 1 - 1 + calls (rest e).1) (attempt - 1 + suc (calls (rest e).1))
            (omega arith) ((later e cause may).0),
        omega (arith, (later e cause may).1),
        (call, (may, ((refl, in_time), (later e cause may).2))),
      )

  again_at :
      (attempt : ℕ)
      → is_retryable_failure matches random_below world options started_at (world attempt) ≡ true
      → is_retryable_failure matches random_below world options started_at (world (attempt + 1 - 1))
        ≡ true
  again_at attempt again =
      subst
        (λ k. is_retryable_failure matches random_below world options started_at (world k) ≡ true)
        (let e : attempt ≡ attempt + 1 - 1 = omega arith in e) again

  attempts_from-IsSound :
      (left attempt : ℕ) (last : Option Thrown)
      → attempt + left ≡ effective_max_attempts options + 1
      → IsAllowed matches random_below world options started_at attempt
      → 0 < attempt
      → IsCause matches random_below world options started_at (attempt - 1) last
      → IsSound attempt left
          (attempts_from matches random_below world options started_at left attempt last)
  unfolding attempts_from
  attempts_from-IsSound zero attempt last e may h before_it = (
    Reports-at matches random_below world options started_at
        (err (
          exhausted (effective_max_attempts options) (effective_max_attempts options)
            (is_retry_refused options) false last))
        (attempt - 1) (attempt - 1 + 0) (omega arith)
        (omega arith, refl, refl, before_it, inr (refl, refl)),
    omega arith,
    tt,
  )
  attempts_from-IsSound (suc left) attempt last e may h before_it =
      let rest = λ (e' : Thrown).
        attempts_from matches random_below world options started_at left (attempt + 1) (some e') in
      let call : IsJustified matches random_below world options started_at (called attempt) =
        (h, omega arith, may) in
      elim (attempt_once-cases matches random_below world options started_at attempt last rest h
        before_it call) [
          | inl (reports, one, justified) ↦ (reports, omega arith, justified)
          | inr more ↦
              GoesOn-IsSound attempt left rest _ h call
                (λ e' cause again.
                  attempts_from-IsSound left (attempt + 1) (some e') (omega arith)
                    (inr (again_at attempt again)) (omega arith)
                    (subst (λ k. IsCause matches random_below world options started_at k (some e'))
                      (let same : attempt ≡ attempt + 1 - 1 = omega arith in same) cause))
                more
        ]

  max_attempts-positive : 0 < effective_max_attempts options
  unfolding effective_max_attempts
  max_attempts-positive = ground arith

  run-IsSound : IsSound 1 (effective_max_attempts options) (
      attempts_from matches random_below world options started_at
        (effective_max_attempts options)
        1
        none)
  run-IsSound =
      attempts_from-IsSound (effective_max_attempts options) 1 none (omega arith) (inl refl)
        (omega arith) (none-IsCause matches random_below world options started_at)

  -- A run calls the operation at most as often as its budget allows, every call but the first
  -- follows a failure that may be retried (a timeout, or a thrown error that is not classified as
  -- non-retryable while the signal is not aborted), and every sleep lasts for the backoff of its
  -- attempt and ends before the deadline.
  pub with_retry_budget-IsJustified :
      (aborted : Bool)
      → let events = (with_retry_budget matches random_below world options started_at aborted).1 in
        (calls events ≤ effective_max_attempts options)
        × All (IsJustified matches random_below world options started_at) events
  unfolding with_retry_budget
  with_retry_budget-IsJustified true = (omega arith, tt)
  with_retry_budget-IsJustified false = (run-IsSound.1, run-IsSound.2)

  -- The end of a run that is not aborted at the start reports what happened: a value is what the
  -- last call returned; an exhausted budget carries the number of calls that were made, the limit on
  -- them, whether retrying was refused, and what the last call ended with, if there was one, and
  -- either its flag for the deadline is set and the clock was past the deadline before a further
  -- call or would have been after the next backoff, or the flag is not set and the limit was used up;
  -- an error that is thrown on is the one of the last call, not retryable, or one of the sleep; a
  -- cancellation comes from an aborted signal.
  pub with_retry_budget-Reports :
      let run = with_retry_budget matches random_below world options started_at false in
      Reports matches random_below world options started_at run.0 (calls run.1)
  unfolding with_retry_budget
  with_retry_budget-Reports =
      Reports-at matches random_below world options started_at _ _ _ (omega arith) run-IsSound.0

  -- An operation that needs an idempotency key and has none, or a blank one, is called at most once.
  pub refused_runs_once :
      (aborted : Bool)
      → (budget_of options).idempotency_required ≡ true
      → has_idempotency_key options.idempotency_key ≡ false
      → calls (with_retry_budget matches random_below world options started_at aborted).1 ≤ 1
  refused_runs_once aborted required keyless =
      omega (arith, (with_retry_budget-IsJustified aborted).0, one_attempt options required keyless)
