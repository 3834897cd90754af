-- ===== src/Indexer/Order.antt =====
-- packages/core/src/indexer/IdempotentEventProcessor.ts: which events of a stream are processed.
use Prim.Native.String.{String}
use mathlib.Core.Path.{subst}
use zk_payroll_sdk.Prelude.{
  ℕ, ◌≤◌, ◌<◌, Bool, true, false, Option, none, some, List, [], ◌∷◌, ◌≡◌, refl, sym, ap, ◌∙◌, ◌⊎◌,
  inl, inr, if◌then◌else◌, All, All-mono, Bool-cases, arith,
}
use zk_payroll_sdk.Prelude.Text.{lookup-insert, str_eq}
use zk_payroll_sdk.Prelude.Action.{ok, err}
use zk_payroll_sdk.Indexer.Cursor.{
  EventCursorState, EventCursor, EventCursorStorage, is_behind, is_cursor_corrupted,
}
use zk_payroll_sdk.Indexer.Processor.{
  EventData, composite_key, detect_replay, ReplayDetector, record_event, create_cursor_state,
  new_cursor, EventProcessingResult, ReconciliationOutput, Processor, process_event,
  process_event_stream,
}

-- One position is at or before another: the ledger decides, then the transaction, the operation
-- and the event.
abbrev pub IsUpTo : EventCursorState → EventCursorState → Type 0
IsUpTo a b =
    (a.ledger_sequence < b.ledger_sequence)
    ⊎ ((a.ledger_sequence ≡ b.ledger_sequence)
        × ((a.transaction_position < b.transaction_position)
            ⊎ ((a.transaction_position ≡ b.transaction_position)
                × ((a.operation_position < b.operation_position)
                    ⊎ ((a.operation_position ≡ b.operation_position)
                        × (a.event_position ≤ b.event_position))))))

not_behind-IsUpTo : (a b : EventCursorState) → is_behind a b ≡ false → IsUpTo a b
unfolding is_behind
not_behind-IsUpTo a b h = ground arith

-- The events of a list come one at or after the other, the first not before a position.
abbrev pub IsFrom : Option EventCursorState → List EventData → Type 0
IsFrom start [] = Unit
IsFrom none (e ∷ es) = IsFrom (some (create_cursor_state e)) es
IsFrom (some start) (e ∷ es) =
    IsUpTo start (create_cursor_state e) × IsFrom (some (create_cursor_state e)) es

-- What a storage promises, whose states hold a cursor or none: loading gives the cursor that is held
-- or fails, and changes nothing; saving holds the new cursor, or fails and keeps the one before.
pub record IsCursorStorage {S : Type 0} (storage : EventCursorStorage S)
    (held : S → Option EventCursor) : Type 0 where
  pub load_law :
      (s : S)
      → (held (storage.load s).1 ≡ held s)
        × (((storage.load s).0 ≡ ok (held s)) ⊎ ((m : String) × ((storage.load s).0 ≡ err m)))
  pub save_law :
      (cursor : EventCursor) (s : S)
      → (((storage.save cursor s).0 ≡ ok tt) × (held (storage.save cursor s).1 ≡ some cursor))
        ⊎ ((m : String) × ((storage.save cursor s).0 ≡ err m)
            × (held (storage.save cursor s).1 ≡ held s))

abbrev pub is_known : EventData → ReplayDetector → Bool
is_known e d = detect_replay e.id e.batch_root d

abbrev pub same_key : EventData → EventData → Bool
same_key e f = str_eq (composite_key e.id e.batch_root) (composite_key f.id f.batch_root)

abbrev pub recorded : EventData → ℕ → ReplayDetector → ReplayDetector
recorded e now d = record_event e.id e.batch_root now d

known-recorded :
    (e f : EventData) (now : ℕ) (d : ReplayDetector)
    → is_known f (recorded e now d) ≡ (if same_key e f then true else is_known f d)
unfolding record_event
known-recorded e f now d = ground (
  arith,
  lookup-insert (composite_key e.id e.batch_root) (composite_key f.id f.batch_root)
      (record { event_id = e.id; batch_root = e.batch_root; recorded_at = now }) d.records,
)

module _ {S : Type 0} (storage : EventCursorStorage S)
    (on_corruption : Option (EventCursor → Option String)) (held : S → Option EventCursor) where
  abbrev IsSkipped : EventData → ℕ → Processor S → EventProcessingResult → Processor S → Type 0
  IsSkipped e now p r q =
      (r.success ≡ false)
      × (held q.storage ≡ held p.storage)
      × ((q.replay_detector ≡ p.replay_detector)
          ⊎ (q.replay_detector ≡ recorded e now p.replay_detector))

  abbrev IsProcessed : EventData → ℕ → Processor S → EventProcessingResult → Processor S → Type 0
  IsProcessed e now p r q =
      (r.success ≡ true)
      × (held q.storage ≡ some (new_cursor e now false))
      × (q.replay_detector ≡ recorded e now p.replay_detector)
      × (is_known e p.replay_detector ≡ false)
      × (is_cursor_corrupted (held p.storage) (create_cursor_state e) ≡ false)

  process_event-cases :
      (e : EventData) (now : ℕ) (p : Processor S)
      → IsCursorStorage storage held
      → let (r, q) = process_event storage on_corruption e now p in
        IsSkipped e now p r q ⊎ IsProcessed e now p r q
  unfolding process_event
  process_event-cases e now p laws = elim (Bool-cases (is_known e p.replay_detector)) [
    | inl known ↦ rw known (inl (refl, refl, inl refl))
    | inr new ↦ rw new (elim (laws.load_law p.storage).1 [
      | inr (m, unreadable) ↦ rw unreadable (inl (refl, (laws.load_law p.storage).0, inl refl))
      | inl loaded ↦
          rw loaded
            (elim (Bool-cases (is_cursor_corrupted (held p.storage) (create_cursor_state e))) [
              | inl behind ↦ rw behind (inl (refl, (laws.load_law p.storage).0, inl refl))
              | inr onward ↦
                  rw onward
                    (elim (laws.save_law (new_cursor e now false) (storage.load p.storage).1) [
                      | inl (saved, holds) ↦ rw saved (inr (refl, holds, refl, refl, refl))
                      | inr (m, unsaved, kept) ↦
                          rw unsaved (inl (refl, kept ∙ (laws.load_law p.storage).0, inr refl))
                    ])
            ])
    ])
  ]

-- The events of a stream whose outputs say that they were processed.
abbrev pub processed_events : List (EventData × ℕ) → List ReconciliationOutput → List EventData
processed_events [] outputs = []
processed_events (e ∷ es) [] = []
processed_events ((e, now) ∷ es) (o ∷ os) =
    let rest = processed_events es os in if o.processed then e ∷ rest else rest

-- No two events have the same key.
abbrev pub IsDistinct : List EventData → Type 0
IsDistinct [] = Unit
IsDistinct (e ∷ es) = All (λ f. same_key e f ≡ false) es × IsDistinct es

abbrev pub start_of : Option EventCursor → Option EventCursorState
start_of none = none
start_of (some cursor) = some cursor.state

-- The events are new to the detector, different, and in order from the cursor.
abbrev pub IsOnce : Option EventCursor → ReplayDetector → List EventData → Type 0
IsOnce cursor d es =
    All (λ f. is_known f d ≡ false) es × IsDistinct es × IsFrom (start_of cursor) es

pub unknown-recorded :
    (e f : EventData) (now : ℕ) (d : ReplayDetector)
    → is_known f (recorded e now d) ≡ false
    → (same_key e f ≡ false) × (is_known f d ≡ false)
unknown-recorded e f now d h = ground (arith, known-recorded e f now d)

onward-IsFrom :
    (cursor : Option EventCursor) (e : EventData) (rest : List EventData)
    → is_cursor_corrupted cursor (create_cursor_state e) ≡ false
    → IsFrom (some (create_cursor_state e)) rest
    → IsFrom (start_of cursor) (e ∷ rest)
unfolding is_cursor_corrupted
onward-IsFrom none e rest onward from = from
onward-IsFrom (some previous) e rest onward from =
    (not_behind-IsUpTo previous.state (create_cursor_state e) onward, from)

processed-IsOnce :
    (cursor : Option EventCursor) (e : EventData) (now : ℕ) (d : ReplayDetector)
    (rest : List EventData)
    → is_known e d ≡ false
    → is_cursor_corrupted cursor (create_cursor_state e) ≡ false
    → IsOnce (some (new_cursor e now false)) (recorded e now d) rest
    → IsOnce cursor d (e ∷ rest)
processed-IsOnce cursor e now d rest new onward (unknown, distinct, from) = (
  (new, All-mono (λ f h. (unknown-recorded e f now d h).1) rest unknown),
  (All-mono (λ f h. (unknown-recorded e f now d h).0) rest unknown, distinct),
  onward-IsFrom cursor e rest onward from,
)

skipped-IsOnce :
    (cursor : Option EventCursor) (e : EventData) (now : ℕ) (d d' : ReplayDetector)
    (rest : List EventData)
    → (d' ≡ d) ⊎ (d' ≡ recorded e now d)
    → IsOnce cursor d' rest
    → IsOnce cursor d rest
skipped-IsOnce cursor e now d d' rest (inl same) h = subst (λ x. IsOnce cursor x rest) same h
skipped-IsOnce cursor e now d d' rest (inr more) (unknown, distinct, from) = (
  All-mono (λ f h. (unknown-recorded e f now d (ap (is_known f) (sym more) ∙ h)).1) rest unknown,
  distinct,
  from,
)

module _ {S : Type 0} (storage : EventCursorStorage S)
    (on_corruption : Option (EventCursor → Option String)) (held : S → Option EventCursor) where
  -- With a storage that keeps its promise, the events of a stream that are processed are new to the
  -- replay detector, have different keys, and each is at or after the one before it on the ledger,
  -- the first at or after the cursor.
  pub process_event_stream-IsOnce :
      (es : List (EventData × ℕ)) (p : Processor S)
      → IsCursorStorage storage held
      → IsOnce
          (held p.storage)
          p.replay_detector
          (processed_events es (process_event_stream storage on_corruption es p).0)
  unfolding process_event_stream
  process_event_stream-IsOnce [] p laws = (tt, tt, tt)
  process_event_stream-IsOnce ((e, now) ∷ es) p laws =
      let q = (process_event storage on_corruption e now p).1 in
      let later = process_event_stream-IsOnce es q laws in
      let rest = processed_events es (process_event_stream storage on_corruption es q).0 in
      elim (process_event-cases storage on_corruption held e now p laws) [
        | inl (skipped, kept, detector) ↦ simp skipped (
            skipped-IsOnce (held p.storage) e now p.replay_detector q.replay_detector rest detector
              (subst (λ c. IsOnce c q.replay_detector rest) kept later))
        | inr (processed, holds, detector, new, onward) ↦ simp processed (
            processed-IsOnce (held p.storage) e now p.replay_detector rest new onward (
              subst (λ c. IsOnce c (recorded e now p.replay_detector) rest) holds
                (subst (λ d. IsOnce (held q.storage) d rest) detector later)))
      ]
