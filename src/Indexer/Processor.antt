-- ===== src/Indexer/Processor.antt =====
-- packages/core/src/indexer/IdempotentEventProcessor.ts over a storage for its cursor and
-- InMemoryReplayDetector.ts.
use Prim.Native.String.{String, ◌++◌ as join}
use zk_payroll_sdk.Prelude.{
  ℕ, Bool, true, false, Option, none, some, List, [], ◌∷◌, is_some, default, if◌then◌else◌,
}
use zk_payroll_sdk.Prelude.Text.{Dict, lookup, insert}
use zk_payroll_sdk.Prelude.Action.{ok, err, Action}
use zk_payroll_sdk.Indexer.Cursor.{
  EventCursorState, EventCursor, EventCursorStorage, is_cursor_corrupted,
}

-- An event without its payload, which is not read.
pub record EventData : Type 0 where
  pub id : String
  pub batch_root : String
  pub ledger_sequence : ℕ
  pub transaction_position : ℕ
  pub operation_position : ℕ
  pub event_position : ℕ

pub record ReplayRecord : Type 0 where
  pub event_id : String
  pub batch_root : String
  pub recorded_at : ℕ

pub record ReplayDetector : Type 0 where
  pub records : Dict ReplayRecord
  pub key_index : Dict String

abbrev pub composite_key : String → String → String
composite_key event_id batch_root = join event_id (join ":" batch_root)

abbrev pub detect_replay : String → String → ReplayDetector → Bool
detect_replay event_id batch_root d = is_some (lookup (composite_key event_id batch_root) d.records)

unfoldable pub record_event : String → String → ℕ → ReplayDetector → ReplayDetector
record_event event_id batch_root now d =
    let key = composite_key event_id batch_root in
    record {
      records =
          insert key (record { event_id = event_id; batch_root = batch_root; recorded_at = now })
            d.records;
      key_index = insert event_id key d.key_index;
    }

abbrev pub create_cursor_state : EventData → EventCursorState
create_cursor_state event = record {
  ledger_sequence = event.ledger_sequence;
  transaction_position = event.transaction_position;
  operation_position = event.operation_position;
  event_position = event.event_position;
}

abbrev pub new_cursor : EventData → ℕ → Bool → EventCursor
new_cursor event now corrupted = record {
  state = create_cursor_state event;
  last_event_id = event.id;
  last_batch_root = event.batch_root;
  captured_at = now;
  is_corrupted = corrupted;
}

pub record EventProcessingResult : Type 0 where
  pub success : Bool
  pub error : Option String
  pub replay_detected : Bool
  pub cursor_advanced : Bool

pub data OutputStatus : Type 0 where
  success duplicate error : OutputStatus

pub record ReconciliationOutput : Type 0 where
  pub event_id : String
  pub processed : Bool
  pub status : OutputStatus
  pub error : Option String
  pub cursor_advanced : Bool

pub record Processor (S : Type 0) : Type 0 where
  pub storage : S
  pub replay_detector : ReplayDetector

abbrev pub failed : Option String → EventProcessingResult
failed message = record {
  success = false;
  error = message;
  replay_detected = false;
  cursor_advanced = false;
}

-- The reason of a replay, a text with the time of the first processing, is left out.
abbrev pub replayed : EventProcessingResult
replayed = record { success = false; error = none; replay_detected = true; cursor_advanced = false }

abbrev pub advanced : EventProcessingResult
advanced = record { success = true; error = none; replay_detected = false; cursor_advanced = true }

-- `on_corruption` is the callback, when there is one; it gives the message with which it rejects.
abbrev pub corruption_message : Option (EventCursor → Option String) → EventCursor → String
corruption_message none cursor = "Cursor corruption detected"
corruption_message (some on_corruption) cursor =
    default (on_corruption cursor) "Cursor corruption detected"

abbrev pub output_of : EventData → EventProcessingResult → ReconciliationOutput
output_of event r = record {
  event_id = event.id;
  processed = r.success;
  status = if r.replay_detected then duplicate else if r.success then success else error;
  error = r.error;
  cursor_advanced = r.cursor_advanced;
}

module _ {S : Type 0} (storage : EventCursorStorage S)
    (on_corruption : Option (EventCursor → Option String)) where
  -- The times of a call are one time.
  unfoldable pub process_event : EventData → ℕ → Processor S → EventProcessingResult × Processor S
  unfolding record_event is_cursor_corrupted
  process_event event now p =
      if detect_replay event.id event.batch_root p.replay_detector
      then (replayed, p)
      else (let (loaded, s) = storage.load p.storage in
          elim loaded [
            | err message ↦ (failed (some message), record p { storage = s })
            | ok cursor ↦
                if is_cursor_corrupted cursor (create_cursor_state event)
                then (
                  failed (some (corruption_message on_corruption (new_cursor event now true))),
                  record p { storage = s },
                )
                else (let (saved, t) = storage.save (new_cursor event now false) s in
                    let after : Processor S = record {
                      storage = t;
                      replay_detector =
                          record_event event.id event.batch_root now p.replay_detector;
                    } in
                    elim saved [
                      | ok _ ↦ (advanced, after)
                      | err message ↦ (failed (some message), after)
                    ])
          ])

  -- The time at which each event is processed is given.
  unfoldable pub process_event_stream :
      List (EventData × ℕ) → Processor S → List ReconciliationOutput × Processor S
  unfolding process_event
  process_event_stream [] p = ([], p)
  process_event_stream ((event, now) ∷ events) p =
      let (result, q) = process_event event now p in
      let (outputs, r) = process_event_stream events q in (output_of event result ∷ outputs, r)

  unfoldable pub reset_cursor : Action (Processor S) String (Unit {0})
  reset_cursor p =
      let (deleted, s) = storage.delete p.storage in
      elim deleted [
        | err message ↦ (err message, record p { storage = s })
        | ok _ ↦ (
          ok tt,
          record { storage = s; replay_detector = record { records = []; key_index = [] } },
        )
      ]
