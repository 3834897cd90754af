-- ===== src/Batch/Delivered.antt =====
-- packages/core/src/payroll/safeBatchSubmitter.ts: what the handler delivered for the batches of a run.
use Prim.Native.String.{String}
use mathlib.Core.Path.{subst}
use mathlib.Core.List.{append-nil, append_assoc}
use zk_payroll_sdk.Prelude.{
  ℕ, zero, suc, ◌+◌, ◌≤◌, ◌<◌, ◌≡◌, refl, sym, ◌∙◌, Bool, true, Bool-cases, Option-cases, none,
  some, none≢some, List, [], ◌++◌, inl, inr, ◌⊎◌, arith, default,
}
use zk_payroll_sdk.Batch.Pages.{page_at, pages_from}
use zk_payroll_sdk.Batch.Attempts.{submissions, Settles, submit_batch-Settles}
use zk_payroll_sdk.Batch.Submitter.{
  SafeBatchSubmissionOptions, SafeBatchSubmissionResult, SafeBatchErrorDetail, AroundSubmit,
  delivered, Progress, submit_attempts, submit_batch, submit_pages, max_attempts, advance,
  failure_of, submission_cancelled, submission_failed,
}

module _ {R : Type 0} (matches : String → String → Bool) (world : ℕ → ℕ → AroundSubmit R)
    (options : SafeBatchSubmissionOptions) where
  -- The handler delivered the results of so many batches from the given one on, each of them in an
  -- attempt that is allowed.
  abbrev pub AreDelivered : ℕ → ℕ → List R → Type 0
  AreDelivered batch zero results = results ≡ []
  AreDelivered batch (suc count) results =
      (front : List R) × (rest : List R) × (attempt : ℕ) × (0 < attempt)
      × (attempt ≤ max_attempts options)
      × ((world batch attempt).outcome ≡ delivered front)
      × (results ≡ front ++ rest)
      × AreDelivered (batch + 1) count rest

  submit_attempts-called :
      (left batch attempt : ℕ) (results : List R)
      → (submit_attempts matches world options left batch attempt).0 ≡ some results
      → 0 < submissions (submit_attempts matches world options left batch attempt).1
  unfolding submit_attempts
  submit_attempts-called zero batch attempt results h = absurd (none≢some h)
  submit_attempts-called (suc left) batch attempt results h = ground (arith, h)

  batch_delivers :
      (batch : ℕ) (results : List R)
      → (submit_batch matches world options batch).0 ≡ some results
      → (attempt : ℕ) × (0 < attempt)
        × (attempt ≤ max_attempts options)
        × ((world batch attempt).outcome ≡ delivered results)
  unfolding submit_batch
  batch_delivers batch results h =
      let n = submissions (submit_batch matches world options batch).1 in
      let (settled, few) = submit_batch-Settles matches world options batch in
      (
        n,
        submit_attempts-called (max_attempts options) batch 1 results h,
        few,
        subst (λ o. Settles matches world options batch o n) h settled,
      )

  batch_fails :
      (batch : ℕ)
      → (submit_batch matches world options batch).0 ≡ none
      → (n : ℕ) × Settles matches world options batch none n
  batch_fails batch h =
      let n = submissions (submit_batch matches world options batch).1 in
      (
        n,
        subst (λ o. Settles matches world options batch o n) h
            (submit_batch-Settles matches world options batch).0,
      )

  module _ (stopped : ℕ → Bool) where
    -- A run ended without an error, or at a batch before which the signal was aborted, or at one of
    -- which the attempts failed.
    abbrev pub IsExplained : SafeBatchSubmissionResult R → Type 0
    IsExplained r =
        (r.error ≡ none)
        ⊎ ((batch : ℕ) × (d : SafeBatchErrorDetail) × (r.failed_batch_index ≡ some batch)
            × (r.error ≡ some d)
            × (((d.code ≡ submission_cancelled) × (stopped batch ≡ true))
                ⊎ ((d.code ≡ submission_failed)
                    × (n : ℕ) × Settles matches world options batch none n)))

    -- The batches done after `start` are those whose results came back, and their results follow
    -- the earlier ones in the order of the batches.
    abbrev pub Delivers : ℕ → List R → SafeBatchSubmissionResult R → Type 0
    Delivers start earlier r =
        (count : ℕ) × (results : List R) × (r.batches_processed ≡ start + count)
        × (r.results ≡ earlier ++ results)
        × AreDelivered start count results
        × IsExplained r

    pub submit_pages-Delivers :
        {T : Type 0}
        → default options.stop_on_first_failure true ≡ true
        → (entries : List T) (size total items left : ℕ) (done : Progress R)
        → Delivers done.succeeded done.results
            (submit_pages matches world stopped options total items done
              (pages_from entries size done.succeeded left)).0
    unfolding submit_pages pages_from
    submit_pages-Delivers stop entries size total items zero done =
        (0, [], omega arith, sym (append-nil done.results), refl, inl refl)
    submit_pages-Delivers stop entries size total items (suc left) done =
        let batch = done.succeeded in
        elim (Bool-cases (stopped batch)) [
          | inl aborted ↦ simp aborted (
            0,
            [],
            omega arith,
            sym (append-nil done.results),
            refl,
            inr (
              batch,
              failure_of submission_cancelled batch done,
              refl,
              refl,
              inl (refl, aborted),
            ),
          )
          | inr going ↦
              simp going (elim (Option-cases (submit_batch matches world options batch).0) [
                | inl failure ↦
                    simp (failure, stop)
                      (
                        0,
                        [],
                        omega arith,
                        sym (append-nil done.results),
                        refl,
                        inr (
                          batch,
                          failure_of submission_failed batch done,
                          refl,
                          refl,
                          inr (refl, (batch_fails batch failure).0, (batch_fails batch failure).1),
                        ),
                      )
                | inr (front, success) ↦
                    let (attempt, some_call, few, outcome) = batch_delivers batch front success in
                    let (count, rest, batches, all, later, why) =
                      submit_pages-Delivers stop entries size total items left
                        (advance done (page_at entries size batch) front) in
                    simp success (
                      suc count,
                      front ++ rest,
                      omega (arith, batches),
                      all ∙ append_assoc done.results front rest,
                      (front, rest, attempt, some_call, few, outcome, refl, later),
                      why,
                    )
              ])
        ]
