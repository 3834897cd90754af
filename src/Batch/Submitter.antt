-- ===== src/Batch/Submitter.antt =====
-- packages/core/src/payroll/safeBatchSubmitter.ts: submitting the batches one after another with
-- guarded retries. Times, counts and the backoff factor are natural numbers. What the submission
-- handler, the abort signal and the sleep answer is `world batch attempt`, and `stopped batch` is
-- the signal before a batch. The texts of messages and the progress percentages are left out.
use Prim.Native.String.{String}
use zk_payroll_sdk.Prelude.{
  ℕ, zero, suc, ◌+◌, ◌-◌, ◌*◌, ◌^◌, Bool, true, false, not, ◌&&◌, ◌||◌, Option, none, some, List,
  [], ◌∷◌, ◌++◌, min, max, ltb, leb, ◌==◌, if◌then◌else◌, default, length, drop,
}
use zk_payroll_sdk.Prelude.Action.{Result, ok, err}
use zk_payroll_sdk.Retry.Classify.{
  Thrown, network_error, contract_error, proof_generation_error, validation_error,
  batch_validation_error, sdk_error, generic_error, not_an_error, classify_error, is_non_retryable,
}
use zk_payroll_sdk.Batch.Pages.{BatchPage, PageError, iterate_batches}

pub record SafeBatchSubmissionOptions : Type 0 where
  pub batch_size : Option ℕ
  pub max_retries : Option ℕ
  pub initial_delay_ms : Option ℕ
  pub max_delay_ms : Option ℕ
  pub backoff_factor : Option ℕ
  pub stop_on_first_failure : Option Bool

pub data SubmitResult (R : Type 0) : Type 0 where
  delivered : List R → SubmitResult R
  failed : Thrown → SubmitResult R

pub record AroundSubmit (R : Type 0) : Type 0 where
  pub aborted_before : Bool
  pub outcome : SubmitResult R
  pub aborted_after : Bool
  pub sleep_fails : Bool

-- What a resume token carries of the progress.
pub record Checkpoint : Type 0 where
  pub next_batch_index : ℕ
  pub items_processed : ℕ

pub data SubmitEvent : Type 0 where
  submitting : ℕ → ℕ → SubmitEvent
  batch_error : ℕ → Bool → SubmitEvent
  retrying : ℕ → ℕ → ℕ → SubmitEvent
  checkpointed : Checkpoint → SubmitEvent

pub data BatchErrorCode : Type 0 where
  submission_cancelled submission_failed : BatchErrorCode

pub record SafeBatchErrorDetail : Type 0 where
  pub code : BatchErrorCode
  pub failed_batch_index : ℕ
  pub batches_succeeded : ℕ
  pub items_succeeded : ℕ
  pub resume_token : Option Checkpoint

pub record SafeBatchSubmissionResult (R : Type 0) : Type 0 where
  pub success : Bool
  pub batches_processed : ℕ
  pub total_batches : ℕ
  pub items_processed : ℕ
  pub total_items : ℕ
  pub results : List R
  pub failed_batch_index : Option ℕ
  pub error : Option SafeBatchErrorDetail

pub record Progress (R : Type 0) : Type 0 where
  pub succeeded : ℕ
  pub items : ℕ
  pub results : List R

-- `err instanceof Error ? err : new Error(String(err))`
abbrev pub as_error : Thrown → Thrown
as_error e = elim e.kind [
  | network_error s ↦ e
  | contract_error c ↦ e
  | proof_generation_error ↦ e
  | validation_error ↦ e
  | batch_validation_error ↦ e
  | sdk_error ↦ e
  | generic_error ↦ e
  | not_an_error ↦ record e { kind = generic_error; name = "Error" }
]

abbrev pub fatal_pattern : String
fatal_pattern = "validation|invalid|unauthorized|forbidden|signature.*fail|schema"

module _ (matches : String → String → Bool) where
  unfoldable pub is_fatal : Thrown → Bool
  is_fatal e =
      is_non_retryable (classify_error matches (as_error e))
      || matches fatal_pattern (as_error e).message

abbrev pub max_attempts : SafeBatchSubmissionOptions → ℕ
max_attempts o = max 1 (default o.max_retries 3 + 1)

abbrev pub retry_delay : SafeBatchSubmissionOptions → ℕ → ℕ
retry_delay o attempt =
    min (default o.initial_delay_ms 100 * default o.backoff_factor 2 ^ (attempt - 1))
      (default o.max_delay_ms 2000)

module _ {R : Type 0} (matches : String → String → Bool) (world : ℕ → ℕ → AroundSubmit R)
    (options : SafeBatchSubmissionOptions) where
  abbrev pub will_retry : ℕ → ℕ → Thrown → Bool
  will_retry batch attempt e =
      not (is_fatal matches e)
      && ltb attempt (max_attempts options)
      && not (world batch attempt).aborted_after

  -- The attempts of one batch, with the number of rounds left; `none` is a batch that failed.
  unfoldable pub submit_attempts : ℕ → ℕ → ℕ → Option (List R) × List SubmitEvent
  submit_attempts zero batch attempt = (none, [])
  submit_attempts (suc left) batch attempt =
      let rest = submit_attempts left batch (attempt + 1) in
      if (world batch attempt).aborted_before
      then (none, [])
      else elim (world batch attempt).outcome [
        | delivered results ↦ (some results, submitting batch attempt ∷ [])
        | failed e ↦
            if not (will_retry batch attempt e)
            then (none, submitting batch attempt ∷ batch_error batch false ∷ [])
            else if (world batch attempt).sleep_fails
            then (
              none,
              submitting batch attempt
                  ∷ batch_error batch true
                  ∷ retrying batch attempt (retry_delay options attempt)
                  ∷ [],
            )
            else (
              rest.0,
              submitting batch attempt
                  ∷ batch_error batch true
                  ∷ retrying batch attempt (retry_delay options attempt)
                  ∷ rest.1,
            )
      ]

  unfoldable pub submit_batch : ℕ → Option (List R) × List SubmitEvent
  unfolding submit_attempts
  submit_batch batch = submit_attempts (max_attempts options) batch 1

module _ {R : Type 0} where
  abbrev pub failure_of : BatchErrorCode → ℕ → Progress R → SafeBatchErrorDetail
  failure_of code batch done = record {
    code = code;
    failed_batch_index = batch;
    batches_succeeded = done.succeeded;
    items_succeeded = done.items;
    resume_token =
        if ltb 0 done.succeeded
        then some (record { next_batch_index = batch; items_processed = done.items })
        else none;
  }

  abbrev pub give_back :
      ℕ → ℕ → Progress R → Option (BatchErrorCode × ℕ) → SafeBatchSubmissionResult R
  give_back total_batches total_items done failure = record {
    success = elim failure [ none ↦ true | some f ↦ false ];
    batches_processed = done.succeeded;
    total_batches = total_batches;
    items_processed = done.items;
    total_items = total_items;
    results = done.results;
    failed_batch_index = elim failure [ none ↦ none | some f ↦ some f.1 ];
    error = elim failure [ none ↦ none | some f ↦ some (failure_of f.0 f.1 done) ];
  }

module _ {T R : Type 0} where
  abbrev pub advance : Progress R → BatchPage T → List R → Progress R
  advance done page results = record {
    succeeded = done.succeeded + 1;
    items = done.items + page.count;
    results = done.results ++ results;
  }

-- Where a run starts, and the records that are done by then.
abbrev pub checkpoint_index : Option Checkpoint → ℕ
checkpoint_index none = 0
checkpoint_index (some c) = c.next_batch_index

abbrev pub checkpoint_items : Option Checkpoint → ℕ
checkpoint_items none = 0
checkpoint_items (some c) = c.items_processed

module _ {T R : Type 0} (matches : String → String → Bool) (world : ℕ → ℕ → AroundSubmit R)
    (stopped : ℕ → Bool) (options : SafeBatchSubmissionOptions) where
  -- The loop over the batches that are left.
  unfoldable pub submit_pages :
      ℕ → ℕ → Progress R → List (BatchPage T) → SafeBatchSubmissionResult R × List SubmitEvent
  unfolding submit_batch
  submit_pages total_batches total_items done [] =
      (give_back total_batches total_items done none, [])
  submit_pages total_batches total_items done (page ∷ pages) =
      if stopped page.index
      then (give_back total_batches total_items done (some (submission_cancelled, page.index)), [])
      else (let attempts = submit_batch matches world options page.index in
          elim attempts.0 [
            | some results ↦
                let done' = advance done page results in
                let rest = submit_pages total_batches total_items done' pages in
                (
                  rest.0,
                  attempts.1
                      ++ (checkpointed (record {
                        next_batch_index = page.index + 1;
                        items_processed = done'.items;
                      })
                          ∷ rest.1),
                )
            | none ↦
                let rest = submit_pages total_batches total_items done pages in
                if default options.stop_on_first_failure true
                then (
                  give_back total_batches total_items done (some (submission_failed, page.index)),
                  attempts.1,
                )
                else (rest.0, attempts.1 ++ rest.1)
          ])

  -- `submitSequentialPayrollBatches` with the checkpoint of a resume token that was accepted.
  unfoldable pub submit_sequential_payroll_batches :
      List T → Option Checkpoint → Result PageError (SafeBatchSubmissionResult R × List SubmitEvent)
  unfolding submit_pages
  submit_sequential_payroll_batches entries resume =
      let start = checkpoint_index resume in
      let processed = checkpoint_items resume in
      elim (iterate_batches entries (some (default options.batch_size 50))) [
        | err e ↦ err e
        | ok pages ↦
            if length entries == 0
            then ok (give_back 0 0 (record { succeeded = 0; items = 0; results = [] }) none, [])
            else if leb (length pages) start
            then ok (
              give_back (length pages) (length entries)
                  (record { succeeded = length pages; items = processed; results = [] }) none,
              [],
            )
            else ok (
                submit_pages (length pages) (length entries)
                  (record { succeeded = start; items = processed; results = [] })
                  (drop start pages))
      ]
