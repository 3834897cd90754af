-- ===== src/Batch/Runs.antt =====
-- What a run over the batches achieves.
use Prim.Native.String.{String}
use zk_payroll_sdk.Prelude.{
  ℕ, zero, suc, ◌+◌, ◌-◌, ◌*◌, ◌≤◌, ◌<◌, ◌≡◌, refl, sym, ◌∙◌, Bool, true, false, ltb, leb, ◌==◌,
  lt→ltb, leb→le, Bool-cases, Option-cases, Option, none, some, List, [], ◌∷◌, inl, inr, ◌⊎◌, arith,
  min, default, length, take, drop, if◌then◌else◌, length-take, length-drop,
}
use zk_payroll_sdk.Prelude.Action.{ok}
use zk_payroll_sdk.Batch.Pages.{BatchPage, page_at, page_count, pages_from, iterate_batches}
use zk_payroll_sdk.Batch.Cover.{page_count-covers, pages_from-length}
use zk_payroll_sdk.Batch.Delivered.{Delivers, submit_pages-Delivers}
use zk_payroll_sdk.Batch.Submitter.{
  SafeBatchSubmissionOptions, SafeBatchSubmissionResult, SafeBatchErrorDetail, SubmitEvent,
  Checkpoint, AroundSubmit, Progress, submit_batch, submit_pages, submit_sequential_payroll_batches,
  checkpoint_index, checkpoint_items, advance, failure_of, give_back, submission_cancelled,
  submission_failed,
}

finished_at : (start n : ℕ) → start ≤ n → leb n start ≡ true → start ≡ n
finished_at start n h over = omega (arith, leb→le n start over)

nonempty : (n : ℕ) → 0 < n → (n == 0) ≡ false
nonempty n h = ground arith

all_done : (n total size len : ℕ) → n ≡ total → len ≤ total * size → min (n * size) len ≡ len
all_done n total size len e covers = rw e (omega arith)

module _ {R : Type 0} where
  -- The batches that are done are an initial stretch of the division, and the records done are
  -- exactly theirs: all of them on success; otherwise the batch after them failed, and the token to
  -- resume from, if a batch is done, points at it.
  abbrev pub IsStretch : ℕ → ℕ → ℕ → SafeBatchSubmissionResult R → Type 0
  IsStretch size total_batches total_items r =
      (r.items_processed ≡ min (r.batches_processed * size) total_items)
      × (((r.success ≡ true)
            × (r.batches_processed ≡ total_batches)
            × (r.items_processed ≡ total_items))
          ⊎ ((r.success ≡ false)
              × (r.batches_processed < total_batches)
              × (r.failed_batch_index ≡ some r.batches_processed)
              × (d : SafeBatchErrorDetail) × (r.error ≡ some d)
              × (d.resume_token ≡ (
                  if ltb 0 r.batches_processed
                  then some (record {
                    next_batch_index = r.batches_processed;
                    items_processed = r.items_processed;
                  })
                  else none))))

  -- A checkpoint after the last batch.
  finished-IsStretch :
      (results : List R) (size n start len items : ℕ)
      → start ≤ n
      → leb n start ≡ true
      → items ≡ min (start * size) len
      → len ≤ n * size
      → IsStretch size n len
          (give_back n len (record { succeeded = n; items = items; results = results }) none)
  finished-IsStretch results size n start len items inside over counted covers =
      let same : start ≡ n = finished_at start n inside over in
      let full = counted ∙ all_done start n size len same covers in
      (full ∙ sym (all_done n n size len refl covers), inl (refl, refl, full))

module _ {T : Type 0} where
  next_items :
      (entries : List T) (size n done : ℕ)
      → done ≡ min (n * size) (length entries)
      → done + length (take size (drop (n * size) entries)) ≡ min ((n + 1) * size) (length entries)
  next_items entries size n done items =
      omega (arith, length-take size (drop (n * size) entries), length-drop (n * size) entries)

module _ {T R : Type 0} (matches : String → String → Bool) (world : ℕ → ℕ → AroundSubmit R)
    (stopped : ℕ → Bool) (options : SafeBatchSubmissionOptions) where
  submit_pages-IsStretch :
      default options.stop_on_first_failure true ≡ true
      → (entries : List T) (size total left : ℕ) (done : Progress R)
      → done.items ≡ min (done.succeeded * size) (length entries)
      → total ≡ done.succeeded + left
      → length entries ≤ total * size
      → IsStretch size total
          (length entries)
          (submit_pages matches world stopped options total
            (length entries)
            done
            (pages_from entries size done.succeeded left)).0
  unfolding submit_pages pages_from
  submit_pages-IsStretch stop entries size total zero done items last covers = (
    items,
    inl (
      refl,
      omega arith,
      items ∙ all_done done.succeeded total size (length entries) (omega arith) covers,
    ),
  )
  submit_pages-IsStretch stop entries size total (suc left) done items last covers =
      elim (Bool-cases (stopped done.succeeded)) [
        | inl aborted ↦ simp aborted (
          items,
          inr (
            refl,
            omega arith,
            refl,
            failure_of submission_cancelled done.succeeded done,
            refl,
            refl,
          ),
        )
        | inr going ↦
            simp going (elim (Option-cases (submit_batch matches world options done.succeeded).0) [
              | inl failure ↦
                  simp (failure, stop)
                    (
                      items,
                      inr (
                        refl,
                        omega arith,
                        refl,
                        failure_of submission_failed done.succeeded done,
                        refl,
                        refl,
                      ),
                    )
              | inr (results, success) ↦ simp success (
                  submit_pages-IsStretch stop entries size total left
                    (advance done (page_at entries size done.succeeded) results)
                    (next_items entries size done.succeeded done.items items) (omega arith) covers)
            ])
      ]

  -- When the run does not stop at the first failure and the signal is not aborted before a batch,
  -- the result is marked as a success, whatever batches failed.
  pub submit_pages-success :
      default options.stop_on_first_failure true ≡ false
      → ((batch : ℕ) → stopped batch ≡ false)
      → (total_batches total_items : ℕ) (done : Progress R) (pages : List (BatchPage T))
      → (submit_pages matches world stopped options total_batches total_items done pages).0.success
        ≡ true
  unfolding submit_pages
  submit_pages-success on calm total_batches total_items done [] = refl
  submit_pages-success on calm total_batches total_items done (page ∷ pages) =
      simp (calm page.index)
        (elim (Option-cases (submit_batch matches world options page.index).0) [
          | inl failure ↦
              simp (failure, on) (submit_pages-success on calm total_batches total_items done pages)
          | inr (results, success) ↦ simp success (
              submit_pages-success on calm total_batches total_items (advance done page results)
                pages)
        ])

module _ {T : Type 0} where
  drop-pages_from :
      (items : List T) (size k total left index start : ℕ)
      → total ≡ k + left
      → start ≡ index + k
      → drop k (pages_from items size index total) ≡ pages_from items size start left
  unfolding pages_from
  drop-pages_from items size zero total left index start e at =
      let rounds : total ≡ left = omega arith in
      let here : start ≡ index = omega arith in rw (rounds, here) refl
  drop-pages_from items size (suc k) zero left index start e at = absurd (omega arith)
  drop-pages_from items size (suc k) (suc total) left index start e at =
      drop-pages_from items size k total left (index + 1) start (omega arith) (omega arith)

  division :
      (items : List T) (size : ℕ)
      → 0 < size
      → iterate_batches items (some size)
        ≡ ok (pages_from items size 0 (page_count (length items) size))
  unfolding iterate_batches
  division items size h = rw (lt→ltb 0 size h) refl

  division_of :
      (items : List T) (given size : ℕ)
      → given ≡ size
      → 0 < size
      → iterate_batches items (some given)
        ≡ ok (pages_from items size 0 (page_count (length items) size))
  division_of items given size e h = rw e (division items size h)

module _ {T R : Type 0} (matches : String → String → Bool) (world : ℕ → ℕ → AroundSubmit R)
    (stopped : ℕ → Bool) (options : SafeBatchSubmissionOptions) where
  -- A run that stops at the first failure, over a collection that is not empty and with a positive
  -- batch size, from the start or from a checkpoint that is inside the division and counts the
  -- records of the batches before it, always returns a result. In it the batches that are done are
  -- an initial stretch of the division and the records done are exactly theirs. On success they are
  -- all batches and all records; otherwise the batch after them failed, and the token to resume
  -- from, present when a batch is done, is a checkpoint of the same kind. For each batch done in the
  -- run the handler delivered results in an attempt that is allowed, and those results in the order
  -- of the batches are the results of the run. At the failed batch the signal was aborted before it,
  -- or its attempts settled without results.
  pub submit_sequential-IsStretch :
      (entries : List T) (size : ℕ) (resume : Option Checkpoint)
      → 0 < size
      → 0 < length entries
      → default options.batch_size 50 ≡ size
      → default options.stop_on_first_failure true ≡ true
      → checkpoint_index resume ≤ page_count (length entries) size
      → checkpoint_items resume ≡ min (checkpoint_index resume * size) (length entries)
      → (r : SafeBatchSubmissionResult R) × (events : List SubmitEvent)
        × (submit_sequential_payroll_batches matches world stopped options entries resume
            ≡ ok (r, events))
        × IsStretch size (page_count (length entries) size) (length entries) r
        × Delivers matches world options stopped (checkpoint_index resume) [] r
  unfolding submit_sequential_payroll_batches
  submit_sequential-IsStretch entries size resume h some_entry sized stop inside counted =
      let n = page_count (length entries) size in
      let start = checkpoint_index resume in
      let counts = pages_from-length entries size 0 n in
      let divided = division_of entries (default options.batch_size 50) size sized h in
      let some_left = nonempty (length entries) some_entry in
      let from : Progress R = record {
        succeeded = start;
        items = checkpoint_items resume;
        results = [];
      } in
      let run =
        submit_pages matches world stopped options n (length entries) from
          (pages_from entries size start (n - start)) in
      elim (Bool-cases (leb n start)) [
        | inl over ↦ (
          give_back n (length entries)
              (record { succeeded = n; items = checkpoint_items resume; results = [] }) none,
          [],
          rw (submit_sequential_payroll_batches, divided, counts, over, some_left) refl,
          finished-IsStretch {R = R} [] size n start (length entries) (checkpoint_items resume)
              inside over counted (page_count-covers (length entries) size h),
          (0, [], omega (arith, finished_at start n inside over), refl, refl, inl refl),
        )
        | inr more ↦ (
          run.0,
          run.1,
          rw
              (
                submit_sequential_payroll_batches,
                divided,
                counts,
                more,
                drop-pages_from entries size start n (n - start) 0 start (omega arith)
                    (omega arith),
                some_left,
              )
              refl,
          submit_pages-IsStretch matches world stopped options stop entries size n (n - start) from
              counted (omega arith) (page_count-covers (length entries) size h),
          submit_pages-Delivers matches world options stopped stop entries size n (length entries)
              (n - start) from,
        )
      ]
