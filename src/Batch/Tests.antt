-- ===== src/Batch/Tests.antt =====
-- Runs of the batch division on concrete collections.
use zk_payroll_sdk.Prelude.{ℕ, ◌≡◌, refl, false, List, [], ◌∷◌, some, length, All, arith}
use zk_payroll_sdk.Prelude.Action.{ok, err}
use zk_payroll_sdk.Batch.Pages.{
  BatchPage, get_batch_page, iterate_batches, page_count, page_at, invalid_page_size,
}
use zk_payroll_sdk.Batch.Cover.{concat_items, IsRequested, iterate_batches-covers}
use zk_payroll_sdk.Prelude.{none, Bool, true, ◌≤◌, ◌&&◌, ◌==◌, if◌then◌else◌}
use zk_payroll_sdk.Prelude.Text.{str_eq}
use zk_payroll_sdk.Retry.Classify.{
  ErrorKind, validation_error, network_error, Thrown, classify_error,
}
use zk_payroll_sdk.Batch.Submitter.{
  SafeBatchSubmissionOptions, SubmitResult, delivered, failed, AroundSubmit,
  SafeBatchSubmissionResult, submission_failed, SubmitEvent, submitting, batch_error, retrying,
  checkpointed, max_attempts, is_fatal, submit_attempts, submit_batch, submit_pages,
  submit_sequential_payroll_batches,
}
use zk_payroll_sdk.Batch.Attempts.{submissions, Settles, submit_batch-Settles}
use zk_payroll_sdk.Batch.Delivered.{Delivers}
use zk_payroll_sdk.Batch.Runs.{IsStretch, submit_sequential-IsStretch}

abbrev entries : List ℕ
entries = 10 ∷ 20 ∷ 30 ∷ 40 ∷ 50 ∷ []

three_pages :
    iterate_batches entries (some 2)
    ≡ ok (page_at entries 2 0 ∷ page_at entries 2 1 ∷ page_at entries 2 2 ∷ [])
unfolding iterate_batches
three_pages = refl

beyond_the_end :
    get_batch_page entries (some 2) 7
    ≡ ok (record {
      items = [];
      index = 7;
      offset = 5;
      count = 0;
      total_items = 5;
      total_pages = 3;
      has_next = false;
    })
unfolding get_batch_page
beyond_the_end = refl

zero_size : iterate_batches entries (some 0) ≡ err invalid_page_size
unfolding iterate_batches
zero_size = refl

iterate_batches-covers_example :
    (pages : List (BatchPage ℕ)) × (iterate_batches entries (some 2) ≡ ok pages)
    × (concat_items pages ≡ entries)
    × (length pages ≡ page_count 5 2)
    × All (IsRequested entries 2) pages
iterate_batches-covers_example = iterate_batches-covers entries 2 (omega arith)

abbrev two_by_two : SafeBatchSubmissionOptions
two_by_two = record {
  batch_size = some 2;
  max_retries = some 1;
  initial_delay_ms = none;
  max_delay_ms = none;
  backoff_factor = none;
  stop_on_first_failure = none;
}

abbrev thrown_with : ErrorKind → Thrown
thrown_with kind = record { kind = kind; name = "Error"; message = "refused" }

abbrev around : SubmitResult ℕ → AroundSubmit ℕ
around o = record {
  aborted_before = false;
  outcome = o;
  aborted_after = false;
  sleep_fails = false;
}

-- The second batch is delivered at the second attempt, the third is refused.
abbrev handler : ℕ → ℕ → AroundSubmit ℕ
handler batch attempt =
    if batch == 2
    then around (failed (thrown_with validation_error))
    else if batch == 1 && attempt == 1
    then around (failed (thrown_with (network_error none)))
    else around (delivered (batch ∷ []))

abbrev never : ℕ → Bool
never batch = false

abbrev failed_run : SafeBatchSubmissionResult ℕ
failed_run = record {
  success = false;
  batches_processed = 2;
  total_batches = 3;
  items_processed = 4;
  total_items = 5;
  results = 0 ∷ 1 ∷ [];
  failed_batch_index = some 2;
  error = some (record {
    code = submission_failed;
    failed_batch_index = 2;
    batches_succeeded = 2;
    items_succeeded = 4;
    resume_token = some (record { next_batch_index = 2; items_processed = 4 });
  });
}

third_batch_fails :
    submit_sequential_payroll_batches str_eq handler never two_by_two entries none
    ≡ ok (
      failed_run,
      submitting 0 1
          ∷ checkpointed (record { next_batch_index = 1; items_processed = 2 })
          ∷ submitting 1 1
          ∷ batch_error 1 true
          ∷ retrying 1 1 100
          ∷ submitting 1 2
          ∷ checkpointed (record { next_batch_index = 2; items_processed = 4 })
          ∷ submitting 2 1
          ∷ batch_error 2 false
          ∷ [],
    )
unfolding submit_sequential_payroll_batches submit_pages submit_batch submit_attempts
    iterate_batches is_fatal classify_error
third_batch_fails = refl

submit_sequential-IsStretch_example :
    (r : SafeBatchSubmissionResult ℕ) × (events : List SubmitEvent)
    × (submit_sequential_payroll_batches str_eq handler never two_by_two entries none
        ≡ ok (r, events))
    × IsStretch 2 (page_count 5 2) 5 r
    × Delivers str_eq handler two_by_two never 0 [] r
submit_sequential-IsStretch_example =
    submit_sequential-IsStretch str_eq handler never two_by_two entries 2 none (omega arith)
      (omega arith) refl refl (omega arith) refl

submit_batch-Settles_example :
    let run = submit_batch str_eq handler two_by_two 1 in
    Settles str_eq handler two_by_two 1 run.0 (submissions run.1)
    × (submissions run.1 ≤ max_attempts two_by_two)
submit_batch-Settles_example = submit_batch-Settles str_eq handler two_by_two 1

abbrev going_on : SafeBatchSubmissionOptions
going_on = record two_by_two { stop_on_first_failure = some false }
