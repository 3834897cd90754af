-- ===== src/Batch/Attempts.antt =====
-- The attempts at one batch.
use Prim.Native.String.{String}
use mathlib.Core.Path.{subst}
use zk_payroll_sdk.Prelude.{
  ℕ, zero, suc, ◌+◌, ◌-◌, ◌≤◌, ◌<◌, ◌≡◌, refl, Bool, true, false, Bool-cases, Option, none, some,
  List, [], ◌∷◌, inl, inr, ◌⊎◌, arith,
}
use zk_payroll_sdk.Retry.Classify.{Thrown}
use zk_payroll_sdk.Batch.Submitter.{
  SafeBatchSubmissionOptions, SubmitResult, delivered, failed, AroundSubmit, SubmitEvent,
  submitting, batch_error, retrying, checkpointed, submit_attempts, submit_batch, will_retry,
  max_attempts,
}

-- How often the submission handler is called.
abbrev pub submissions : List SubmitEvent → ℕ
submissions [] = 0
submissions (submitting b n ∷ events) = suc (submissions events)
submissions (batch_error b w ∷ events) = submissions events
submissions (retrying b n d ∷ events) = submissions events
submissions (checkpointed c ∷ events) = submissions events

SubmitResult-cases :
    {R : Type 0} (o : SubmitResult R)
    → ((results : List R) × (o ≡ delivered results)) ⊎ ((e : Thrown) × (o ≡ failed e))
SubmitResult-cases (delivered results) = inl (results, refl)
SubmitResult-cases (failed e) = inr (e, refl)

module _ {R : Type 0} (matches : String → String → Bool) (world : ℕ → ℕ → AroundSubmit R)
    (options : SafeBatchSubmissionOptions) where
  -- How the attempts at a batch ended, given their number: the handler delivered the results in the
  -- last one, or the signal was aborted, or the handler failed and the failure is not repeated, or
  -- the sleep was cut short.
  abbrev pub Settles : ℕ → Option (List R) → ℕ → Type 0
  Settles batch (some results) n = (world batch n).outcome ≡ delivered results
  Settles batch none n =
      ((world batch (suc n)).aborted_before ≡ true)
      ⊎ (((world batch n).sleep_fails ≡ true)
          ⊎ ((e : Thrown) × ((world batch n).outcome ≡ failed e)
              × (will_retry matches world options batch n e ≡ false)))

  Settles-at :
      (batch : ℕ) (o : Option (List R)) (m n : ℕ) → m ≡ n → Settles batch o m → Settles batch o n
  Settles-at batch o m n e h = subst (Settles batch o) e h

  repeated_early :
      (batch n : ℕ) (e : Thrown)
      → will_retry matches world options batch n e ≡ true
      → n < max_attempts options
  repeated_early batch n e again = ground arith

  aborted_at :
      (batch n : ℕ) → 0 < n → (world batch n).aborted_before ≡ true → Settles batch none (n - 1 + 0)
  aborted_at batch n h aborted =
      let e : n ≡ suc (n - 1 + 0) = omega arith in
      inl (subst (λ k. (world batch k).aborted_before ≡ true) e aborted)

  go_on :
      (left batch attempt : ℕ)
      → 0 < attempt
      → let run = submit_attempts matches world options left batch (attempt + 1) in
        Settles batch run.0 (attempt + 1 - 1 + submissions run.1) × (submissions run.1 ≤ left)
        → Settles batch run.0 (attempt - 1 + suc (submissions run.1))
          × (suc (submissions run.1) ≤ suc left)
  go_on left batch attempt h (settled, few) =
      let run = submit_attempts matches world options left batch (attempt + 1) in
      (
        Settles-at batch run.0 (attempt + 1 - 1 + submissions run.1)
            (attempt - 1 + suc (submissions run.1)) (omega arith) settled,
        omega arith,
      )

  submit_attempts-Settles :
      (left batch attempt : ℕ)
      → 0 < attempt
      → attempt + left ≡ max_attempts options + 1
      → attempt ≤ max_attempts options
      → let run = submit_attempts matches world options left batch attempt in
        Settles batch run.0 (attempt - 1 + submissions run.1) × (submissions run.1 ≤ left)
  unfolding submit_attempts
  submit_attempts-Settles zero batch attempt h e le = absurd (omega arith)
  submit_attempts-Settles (suc left) batch attempt h e le =
      elim (Bool-cases (world batch attempt).aborted_before) [
        | inl aborted ↦ simp aborted (aborted_at batch attempt h aborted, omega arith)
        | inr alive ↦ simp alive (elim (SubmitResult-cases (world batch attempt).outcome) [
          | inl (results, done) ↦ simp done (
            Settles-at batch (some results) attempt (attempt - 1 + 1) (omega arith) done,
            omega arith,
          )
          | inr (err, thrown) ↦
              simp thrown (elim (Bool-cases (will_retry matches world options batch attempt err)) [
                | inl again ↦ simp again (elim (Bool-cases (world batch attempt).sleep_fails) [
                  | inl cut ↦ simp cut (
                    Settles-at batch none attempt (attempt - 1 + 1) (omega arith) (inr (inl cut)),
                    omega arith,
                  )
                  | inr slept ↦ simp slept (
                      go_on left batch attempt h (
                        submit_attempts-Settles left batch (attempt + 1) (omega arith) (omega arith)
                          (omega (arith, repeated_early batch attempt err again))))
                ])
                | inr final ↦ simp final (
                  Settles-at batch none attempt (attempt - 1 + 1) (omega arith)
                      (inr (inr (err, thrown, final))),
                  omega arith,
                )
              ])
        ])
      ]

  -- At one batch the handler is called at most once more than there are retries. When results come
  -- back they are what the last call delivered; otherwise the signal was aborted before another
  -- attempt, or the sleep was cut short, or the last failure is one that is not repeated.
  pub submit_batch-Settles :
      (batch : ℕ)
      → let run = submit_batch matches world options batch in
        Settles batch run.0 (submissions run.1) × (submissions run.1 ≤ max_attempts options)
  unfolding submit_batch
  submit_batch-Settles batch =
      let run = submit_attempts matches world options (max_attempts options) batch 1 in
      let sound =
        submit_attempts-Settles (max_attempts options) batch 1 (omega arith) (omega arith)
          (omega arith) in
      (
        Settles-at batch run.0 (1 - 1 + submissions run.1) (submissions run.1) (omega arith)
            sound.0,
        sound.1,
      )
