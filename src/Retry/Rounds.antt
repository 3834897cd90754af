-- ===== src/Retry/Rounds.antt =====
-- packages/core/src/core/retry-budget.ts: one round of the loop of withRetryBudget.
use Prim.Native.String.{String}
use mathlib.Core.Path.{subst}
use zk_payroll_sdk.Prelude.{
  ℕ, suc, ◌+◌, ◌-◌, ◌≤◌, ◌<◌, ◌≡◌, refl, sym, Bool, true, false, Option, some, [], ◌∷◌, ◌==◌, All,
  ◌⊎◌, inl, inr, Bool-cases, Option-cases, true≢false, leb, ◌∙◌, arith,
}
use zk_payroll_sdk.Prelude.Action.{ok, err}
use zk_payroll_sdk.Retry.Classify.{Thrown, classify_error, is_non_retryable}
use zk_payroll_sdk.Retry.Budget.{
  WithRetryBudgetOptions, AttemptResult, returned, timed_out, threw, SleepResult, slept,
  sleep_threw, Around, cancelled, exhausted, rethrown, called, announced, backed_off, Run, is_past,
  give_up, back_off, attempt_once, effective_max_attempts, is_retry_refused, budget_of,
  compute_backoff_delay, timeout_error, before,
}
use zk_payroll_sdk.Retry.Ending.{
  calls, IsCause, timed_out-IsCause, threw-IsCause, IsTooLate, Reports-at, Reports,
  is_retryable_failure, IsJustified,
}

AttemptResult-cases :
    {A : Type 0} (o : AttemptResult A)
    → ((a : A) × (o ≡ returned a)) ⊎ ((o ≡ timed_out) ⊎ ((e : Thrown) × (o ≡ threw e)))
AttemptResult-cases (returned a) = inl (a, refl)
AttemptResult-cases timed_out = inr (inl refl)
AttemptResult-cases (threw e) = inr (inr (e, refl))

SleepResult-cases : (o : SleepResult) → (o ≡ slept) ⊎ ((e : Thrown) × (o ≡ sleep_threw e))
SleepResult-cases slept = inl refl
SleepResult-cases (sleep_threw e) = inr (e, refl)

module _ {A : Type 0} (matches : String → String → Bool) (random_below : ℕ → ℕ → ℕ)
    (world : ℕ → Around A) (options : WithRetryBudgetOptions) (started_at : ℕ) where
  -- The run ends in this round.
  abbrev pub Ends : ℕ → Run A → Type 0
  Ends attempt run =
      Reports matches random_below world options started_at run.0 (attempt - 1 + calls run.1)
      × (calls run.1 ≤ 1)
      × All (IsJustified matches random_below world options started_at) run.1

  -- The round fails and another one follows.
  abbrev pub GoesOn : ℕ → (Thrown → Run A) → Run A → Type 0
  GoesOn attempt rest run =
      (e : Thrown) × IsCause matches random_below world options started_at attempt (some e)
      × (is_retryable_failure matches random_below world options started_at (world attempt) ≡ true)
      × (is_past (budget_of options).timeout_ms started_at (
            (world attempt).now_after
            + compute_backoff_delay (random_below attempt) attempt (budget_of options))
          ≡ false)
      × (run
          ≡ before
              (called attempt
                ∷ announced attempt
                ∷ backed_off attempt
                    (compute_backoff_delay (random_below attempt) attempt (budget_of options))
                ∷ [])
              (rest e))

  past_at :
      (time : ℕ)
      → is_past (budget_of options).timeout_ms started_at time ≡ true
      → (timeout : ℕ) × ((budget_of options).timeout_ms ≡ some timeout)
        × (started_at + timeout ≤ time)
  unfolding is_past
  past_at time h = elim (Option-cases (budget_of options).timeout_ms) [
    | inl nothing ↦ absurd (true≢false (sym h ∙ rw nothing refl))
    | inr (timeout, there) ↦
        let past : leb (started_at + timeout) time ≡ true = rw there at h in
        (timeout, there, ground (arith, past))
  ]

  late_sleep :
      (n : ℕ)
      → is_past
          (budget_of options).timeout_ms
          started_at
          ((world n).now_after + compute_backoff_delay (random_below n) n (budget_of options))
        ≡ true
      → IsTooLate matches random_below world options started_at n
  late_sleep n h = let (timeout, there, past) = past_at _ h in (timeout, there, inr past)

  -- A run that gives up because of the deadline, before attempt `n + 1` or its backoff.
  Reports-late :
      (n m : ℕ) (cause : Option Thrown)
      → n ≡ m
      → IsCause matches random_below world options started_at n cause
      → IsTooLate matches random_below world options started_at n
      → Reports matches random_below world options started_at
          (err (exhausted n (effective_max_attempts options) (is_retry_refused options) true cause))
          m
  Reports-late n m cause e h late =
      Reports-at matches random_below world options started_at
        (err (exhausted n (effective_max_attempts options) (is_retry_refused options) true cause)) n
        m e (refl, refl, refl, h, inl (refl, late))

  back_off-cases :
      (attempt : ℕ) (e : Thrown) (rest : Thrown → Run A)
      → 0 < attempt
      → IsCause matches random_below world options started_at attempt (some e)
      → IsJustified matches random_below world options started_at (called attempt)
      → is_retryable_failure matches random_below world options started_at (world attempt) ≡ true
      → let run =
          before
            (called attempt ∷ [])
            (back_off matches random_below world options started_at attempt e (rest e)) in
        Ends attempt run ⊎ GoesOn attempt rest run
  back_off-cases attempt e rest h cause call may =
      let delay = compute_backoff_delay (random_below attempt) attempt (budget_of options) in
      elim (Bool-cases
        (is_past (budget_of options).timeout_ms started_at ((world attempt).now_after + delay))) [
          | inl past ↦ rw past (
              inl (
                Reports-late attempt (attempt - 1 + 1) (some e) (omega arith) cause
                    (late_sleep attempt past),
                omega arith,
                (call, (may, tt)),
              ))
          | inr in_time ↦ rw in_time (elim (SleepResult-cases (world attempt).sleep) [
            | inl ended ↦ rw ended (inr (e, cause, may, refl, refl))
            | inr (e', thrown) ↦ rw thrown (elim (Bool-cases (world attempt).aborted_in_sleep) [
              | inl aborted ↦ rw aborted (
                  inl (
                    Reports-at matches random_below world options started_at (err cancelled) attempt
                        (attempt - 1 + 1) (omega arith) (inr (inr aborted)),
                    omega arith,
                    (call, (may, ((refl, in_time), tt))),
                  ))
              | inr going ↦ rw going (
                  inl (
                    Reports-at matches random_below world options started_at (err (rethrown e'))
                        attempt (attempt - 1 + 1) (omega arith) (inr thrown),
                    omega arith,
                    (call, (may, ((refl, in_time), tt))),
                  ))
            ])
          ])
        ]

  late_attempt :
      (attempt : ℕ)
      → 0 < attempt
      → is_past (budget_of options).timeout_ms started_at (world attempt).now_before ≡ true
      → IsTooLate matches random_below world options started_at (attempt - 1)
  late_attempt attempt h past =
      let same : attempt ≡ suc (attempt - 1) = omega arith in
      let (timeout, there, over) = past_at _ past in
      (timeout, there, inl (subst (λ k. started_at + timeout ≤ (world k).now_before) same over))

  cancelled_before :
      (attempt : ℕ)
      → 0 < attempt
      → (world attempt).aborted_before ≡ true
      → Reports matches random_below world options started_at (err cancelled) (attempt - 1 + 0)
  cancelled_before attempt h aborted = inl (
      subst (λ k. (world k).aborted_before ≡ true)
        (sym (let e : suc (attempt - 1 + 0) ≡ attempt = omega arith in e)) aborted)

  Reports-final :
      (attempt : ℕ) (deadline : Bool) (cause : Option Thrown)
      → (attempt == effective_max_attempts options) ≡ true
      → 0 < attempt
      → deadline ≡ false
      → IsCause matches random_below world options started_at attempt cause
      → Reports matches random_below world options started_at
          (give_up matches random_below world options started_at
            (effective_max_attempts options)
            deadline
            cause).0
          (attempt - 1 + 1)
  Reports-final attempt deadline cause final h early failed =
      Reports-at matches random_below world options started_at
        (give_up matches random_below world options started_at (effective_max_attempts options)
          deadline cause).0
        attempt (attempt - 1 + 1) (omega arith)
        (ground (arith, final), refl, refl, failed, inr (early, refl))

  timed_out-retryable :
      (around : Around A)
      → around.outcome ≡ timed_out
      → is_retryable_failure matches random_below world options started_at around ≡ true
  timed_out-retryable around late = rw late refl

  threw-retryable :
      (around : Around A) (e : Thrown)
      → around.outcome ≡ threw e
      → around.aborted_after ≡ false
      → is_non_retryable (classify_error matches e) ≡ false
      → is_retryable_failure matches random_below world options started_at around ≡ true
  threw-retryable around e thrown alive may = rw (thrown, alive, may) refl

  pub attempt_once-cases :
      (attempt : ℕ) (last : Option Thrown) (rest : Thrown → Run A)
      → 0 < attempt
      → IsCause matches random_below world options started_at (attempt - 1) last
      → IsJustified matches random_below world options started_at (called attempt)
      → let run = attempt_once matches random_below world options started_at attempt last rest in
        Ends attempt run ⊎ GoesOn attempt rest run
  attempt_once-cases attempt last rest h before_it call =
      elim (Bool-cases (world attempt).aborted_before) [
        | inl aborted ↦ rw aborted (inl (cancelled_before attempt h aborted, omega arith, tt))
        | inr alive ↦
            simp alive
              (elim (Bool-cases
                (is_past (budget_of options).timeout_ms started_at (world attempt).now_before)) [
                  | inl past ↦ rw past (
                      inl (
                        Reports-late (attempt - 1) (attempt - 1 + 0) last (omega arith) before_it
                            (late_attempt attempt h past),
                        omega arith,
                        tt,
                      ))
                  | inr in_time ↦ rw in_time (elim (AttemptResult-cases (world attempt).outcome) [
                    | inl (a, done) ↦ simp done (
                        inl (
                          Reports-at matches random_below world options started_at (ok a) attempt
                              (attempt - 1 + 1) (omega arith) done,
                          omega arith,
                          (call, tt),
                        ))
                    | inr (inl late) ↦
                        simp late (elim (Bool-cases (attempt == effective_max_attempts options)) [
                          | inl final ↦ rw final (
                              inl (
                                Reports-final attempt false (some timeout_error) final h refl (
                                    timed_out-IsCause matches random_below world options started_at
                                      attempt late),
                                omega arith,
                                (call, tt),
                              ))
                          | inr early ↦ rw early (
                              back_off-cases attempt timeout_error rest h
                                (timed_out-IsCause matches random_below world options started_at
                                  attempt late)
                                call (timed_out-retryable (world attempt) late))
                        ])
                    | inr (inr (e, thrown)) ↦
                        simp thrown (elim (Bool-cases (world attempt).aborted_after) [
                          | inl aborted ↦ simp aborted (
                              inl (
                                Reports-at matches random_below world options started_at
                                    (err cancelled) attempt (attempt - 1 + 1) (omega arith)
                                    (inr (inl aborted)),
                                omega arith,
                                (call, tt),
                              ))
                          | inr going ↦
                              simp going
                                (elim (Bool-cases (attempt == effective_max_attempts options)) [
                                  | inl final ↦ rw final (
                                      inl (
                                        Reports-final attempt false (some e) final h refl (
                                            threw-IsCause matches random_below world options
                                              started_at attempt e thrown),
                                        omega arith,
                                        (call, tt),
                                      ))
                                  | inr early ↦
                                      rw early
                                        (elim (Bool-cases
                                          (is_non_retryable (classify_error matches e))) [
                                            | inl fatal ↦ rw fatal (
                                                inl (
                                                  Reports-at matches random_below world options
                                                      started_at (err (rethrown e)) attempt
                                                      (attempt - 1 + 1) (omega arith)
                                                      (inl (thrown, fatal)),
                                                  omega arith,
                                                  (call, tt),
                                                ))
                                            | inr transient ↦ simp transient (
                                                back_off-cases attempt e rest h
                                                  (threw-IsCause matches random_below world options
                                                    started_at attempt e thrown)
                                                  call
                                                  (threw-retryable (world attempt) e thrown going
                                                    transient))
                                          ])
                                ])
                        ])
                  ])
                ])
      ]
