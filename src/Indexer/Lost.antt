-- ===== src/Indexer/Lost.antt =====
-- packages/core/src/indexer/IdempotentEventProcessor.ts: an event whose cursor could not be saved.
use Prim.Native.String.{String}
use zk_payroll_sdk.Prelude.{ℕ, false, Option, some, List, ◌≡◌, refl, sym, ap, ◌∙◌, All, All-mono}
use zk_payroll_sdk.Prelude.Action.{ok, err}
use zk_payroll_sdk.Indexer.Cursor.{EventCursor, EventCursorStorage, is_cursor_corrupted}
use zk_payroll_sdk.Indexer.Processor.{
  EventData, create_cursor_state, new_cursor, Processor, failed, process_event,
  process_event_stream,
}
use zk_payroll_sdk.Indexer.Order.{
  is_known, recorded, same_key, unknown-recorded, IsCursorStorage, processed_events,
  process_event_stream-IsOnce,
}

module _ {S : Type 0} (storage : EventCursorStorage S)
    (on_corruption : Option (EventCursor → Option String)) where
  unsaved-result :
      (e : EventData) (now : ℕ) (p : Processor S) (cursor : Option EventCursor) (m : String)
      → is_known e p.replay_detector ≡ false
      → (storage.load p.storage).0 ≡ ok cursor
      → is_cursor_corrupted cursor (create_cursor_state e) ≡ false
      → (storage.save (new_cursor e now false) (storage.load p.storage).1).0 ≡ err m
      → let (result, q) = process_event storage on_corruption e now p in
        (result ≡ failed (some m)) × (q.replay_detector ≡ recorded e now p.replay_detector)
  unfolding process_event
  unsaved-result e now p cursor m new loaded onward unsaved =
      rw (new, loaded, onward, unsaved) (refl, refl)

  -- When the cursor cannot be saved after an event that is new and not behind, the event fails with
  -- the storage's message, and no later stream processes it or any other event with its key, however
  -- often it is delivered again: the replay detector has recorded it.
  pub unsaved_event_lost :
      (held : S → Option EventCursor) (e : EventData) (now : ℕ) (p : Processor S)
      (cursor : Option EventCursor) (m : String) (es : List (EventData × ℕ))
      → IsCursorStorage storage held
      → is_known e p.replay_detector ≡ false
      → (storage.load p.storage).0 ≡ ok cursor
      → is_cursor_corrupted cursor (create_cursor_state e) ≡ false
      → (storage.save (new_cursor e now false) (storage.load p.storage).1).0 ≡ err m
      → let (result, q) = process_event storage on_corruption e now p in
        (result ≡ failed (some m))
        × All
            (λ f. same_key e f ≡ false)
            (processed_events es (process_event_stream storage on_corruption es q).0)
  unsaved_event_lost held e now p cursor m es laws new loaded onward unsaved =
      let q = (process_event storage on_corruption e now p).1 in
      let (result, detector) = unsaved-result e now p cursor m new loaded onward unsaved in
      (
        result,
        All-mono
            (λ f unknown.
              (unknown-recorded e f now p.replay_detector
                (ap (is_known f) (sym detector) ∙ unknown)).0)
            _ (process_event_stream-IsOnce storage on_corruption held es q laws).0,
      )
