-- ===== src/Lib.antt =====
-- Verification of the core of the ZK Payroll SDK (packages/core/src).
--
-- The SDK prepares payroll runs for a ledger that keeps amounts private. Before a run is submitted
-- its signers endorse it in a session (sessions/), other operations are approved by several signers
-- and the roles they hold are handed over by role transfers (authorization/), the amounts that people
-- write are parsed and rounded to the precision of their asset (assets/), funds are reserved
-- (reservations/), entries are divided into batches (batch/), and the calls to the network are retried
-- under a budget, limited in number by a semaphore and kept from running twice by an idempotency
-- registry (core/). Lists of records come in pages. What the chain shows after a run is compared with
-- what the run recorded (reconciliation/), and the events of the contract are processed once and in
-- order (indexer/). Rows of employees that are imported are searched for duplicates (import/).
--
-- Which file models which part:
--
--   Quorum, Quorum/Types, Quorum/Hashing: packages/core/src/sessions/QuorumSessionManager.ts and
--     sessions/types.ts, with the roles of authorization/types.ts. The manager's fields are the
--     record `Manager`; each method is an action on it that returns a result and the state after,
--     so that what was written before a throw stays written. createSession is `create_session`,
--     applySignature `apply_signature`, addSignature `add_signature`, replaceSignature
--     `replace_signature`, rejectSession `reject_session`, getSummary `get_summary`,
--     prepareSubmissionPackage `prepare_submission_package`, markConsumed `mark_consumed`,
--     expireSessions `expire_sessions`, computePayloadHash `compute_payload_hash`. Quorum/Trace
--     has the histories of calls. The other children of Quorum hold the proofs.
--   RoleTransfer: packages/core/src/authorization/roleTransfer.ts, with proposeRoleTransfer,
--     acceptRoleTransfer, finalizeRoleTransfer, cancelRoleTransfer and resolveTransferStatus under
--     these names in small letters. RoleTransfer/Lifecycle and RoleTransfer/History hold the proofs.
--   Amounts: packages/core/src/assets/amountRounding.ts and decimals.ts; roundAmount is
--     `round_amount`, roundToIncrement `round_to_increment`, canRepresentExactly
--     `can_represent_exactly`. Amounts/Rounding and Amounts/Precision hold the proofs.
--     Amounts/Parsing is assets/amountParsing.ts on texts as lists of code units, whose numbers are
--     Amounts/Digits: parsePayrollAmount is `parse_payroll_amount`, its steps 1 to 7 on the sanitized
--     text `parse_cleaned`, checkAmountBounds `check_amount_bounds`. Amounts/Carry, Amounts/Reading,
--     Amounts/Parsed and Amounts/Checked hold the proofs on it.
--   Approvals: packages/core/src/authorization/MultiSignerCoordinator.ts and its part of
--     authorization/types.ts, which is Approvals/Types. The coordinator is the record `Coordinator`;
--     createAuthorizationRequest is `create_authorization_request`, addSigner `add_signer`,
--     recordSignature `record_signature`, recordRejection `record_rejection`, revokeSignature
--     `revoke_signature`, getAuthorizationStatus `get_authorization_status`, evaluatePolicy
--     `evaluate_policy`. The roles are those of Quorum. Approvals/Calls has the histories of calls, the
--     other children hold the proofs.
--   Batch/Pages: packages/core/src/batch/paginate.ts; getBatchPage is `get_batch_page` and
--     iterateBatches `iterate_batches`. Batch/Cover holds the proofs.
--   Batch/Submitter: packages/core/src/payroll/safeBatchSubmitter.ts and the checkpoints of
--     payroll/batchResumeToken.ts; submitSequentialPayrollBatches is
--     `submit_sequential_payroll_batches`. It uses the division of Batch/Pages and the
--     classification of Retry/Classify. Batch/Attempts, Batch/Delivered and Batch/Runs hold the proofs.
--   Retry/Classify, Retry/Budget: packages/core/src/core/retry.ts and retry-budget.ts; classifyError
--     is `classify_error`, resolveRetryBudget `resolve_retry_budget`, computeBackoffDelay
--     `compute_backoff_delay`, withRetryBudget `with_retry_budget`. Retry/Ending says what is
--     told of a run, Retry/Rounds, Retry/Attempts and Retry/Delays hold the proofs.
--   Concurrency: packages/core/src/core/concurrency.ts; the class Semaphore is the record
--     `Semaphore`, its methods `acquire` and `release`, its constructor `new_semaphore`. `Usage` adds
--     what has happened so far, which the code does not keep. Concurrency/Fairness holds the proofs.
--   Idempotency: packages/core/src/core/idempotency.ts; IdempotencyRegistry is `Registry`. The method
--     execute is `execute` up to the point where it waits and `settle` from there on, and the calls
--     that wait are the field `flights`; pruneExpired is `prune_expired`. The operation is taken to
--     return its promise before it calls the registry, and not to throw before that.
--     Idempotency/Flights and Idempotency/Expiry hold the proofs.
--   Nonces: packages/core/src/core/executionConfirmationNonce.ts; generateExecutionNonce is
--     `generate_execution_nonce` and validateExecutionNonce `validate_execution_nonce`, with its checks
--     from the timestamp on as `validate_parts`. Nonces/Generated holds the proofs.
--   Paging: packages/core/src/pagination.ts; paginate is `paginate`, paginateIterator
--     `paginate_iterator`, encodeCursor `encode_cursor`, decodeCursor `decode_cursor`. Its child
--     Paging/Guardrails is packages/core/src/pagination-guardrails.ts, where iterateGuardedPages is
--     `iterate_guarded_pages`. Paging/Coverage, Paging/Cursors and Paging/Limits hold the proofs.
--   Reconciliation: packages/core/src/reconciliation/ReconciliationDiffGenerator.ts and
--     reconciliation/types.ts; generateReconciliationDiff is `generate_reconciliation_diff` and
--     diffOne `diff_one`. The other children of Reconciliation hold the proofs.
--   Reservations: packages/core/src/reservations/helpers.ts, with the data of treasury/types.ts in
--     Reservations/Types; the functions have their names in small letters. Reservations/Reconcile is
--     reconciliation/ReservationReconciliationHelper.ts, with reconcileSingleReservation as
--     `reconcile_single_reservation` and reconcileMultipleReservations as
--     `reconcile_multiple_reservations`. Reservations/Releases, Reservations/Comparison,
--     Reservations/Known and Reservations/Agreement hold the proofs.
--   Indexer: packages/core/src/indexer/IdempotentEventProcessor.ts is Indexer/Processor, where
--     processEvent is `process_event`, processEventStream `process_event_stream` and resetCursor
--     `reset_cursor`; InMemoryReplayDetector is its `ReplayDetector`. Indexer/Cursor is
--     EventCursor.ts with the two storages, MemoryCursorStorage.ts and LocalStorageCursorStorage.ts;
--     the processor uses a storage through the record `EventCursorStorage` and the promise
--     `IsCursorStorage`, which Indexer/Storages fills for both. Indexer/Order and Indexer/Lost hold
--     the other proofs on events. ContractStateIndexer.ts is Indexer/Contract (readPages is
--     `read_pages`), Indexer/Company (indexCompany is `index_company`) and Indexer/Index (index is
--     `index`, resumeActiveCompany `resume_active_company`) and Indexer/Consistency
--     (addConsistencyDiagnostics is `add_consistency_diagnostics`, validateEvent `validate_event`);
--     Indexer/Contents, Indexer/Complete, Indexer/Unread, Indexer/Lookups, Indexer/Events and
--     Indexer/References hold the proofs on it, and Indexer/Soundness says what consistent records are.
--   Import: packages/core/src/import/. Import/UnionFind is the class UnionFind of
--     ImportDuplicateClusterDetector.ts (`find`, `union`), Import/Evidence and Import/Collection are
--     its collectors collectIdentityEvidence and collectFuzzyNameEvidence, which return the calls of
--     the sink in their order, and Import/Detector has buildClusters (`build_clusters`) and
--     detectDuplicateClusters (`detect_duplicate_clusters`). Import/Fuzzy is fuzzyMatch.ts, where
--     levenshteinDistance is `levenshtein_distance`. The other children hold the proofs.
--   Prelude and its children: no code of the repository, only what the other files share.
--
-- Numbers: a `bigint` is an integer. Counts, times in milliseconds, sizes and the backoff factor are
-- JavaScript numbers and are modelled as natural numbers; the checks that refuse other numbers are
-- left out where they say nothing about natural ones. The 32-bit wrap-around of the fallback hash
-- is written out.
--
-- Parameters: JSON printing and SHA-256 of the platform, the engine of regular expressions (also where
-- it removes an asset's symbol from a text), the change of a text to small letters, numbers in base 36, random numbers, the
-- clock, the abort signal, the sleep, base64, the browser's localStorage, the reader of the contract,
-- the function that fetches a page and the operation that is retried or submits a batch. Loops are
-- structural, or they count the rounds left: the batches by the number of pages, the attempts by the
-- limit of the budget, the guarded traversal by its limit on pages, after which the loop leaves by
-- itself; paginateIterator has one round more than there are records, and the indexer one for each page
-- of a list, which are proved to be enough, and so is the index of a node for the steps to its root.
--
-- Not modelled: the texts of messages, free-form metadata, JSON itself, and the parts of the SDK
-- that talk to the network and to wallets. Periods of a payroll and the caches are not modelled either.
pub mod Prelude
pub mod Quorum
pub mod Reconciliation
pub mod RoleTransfer
pub mod Reservations
pub mod Nonces
pub mod Amounts
pub mod Approvals
pub mod Batch
pub mod Retry
pub mod Concurrency
pub mod Idempotency
pub mod Paging
pub mod Indexer
pub mod Import
