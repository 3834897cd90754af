-- ===== src/Indexer/Tests.antt =====
-- A stream of four events into a storage in memory, and an event into a storage that is full.
use Prim.Native.String.{String}
use zk_payroll_sdk.Prelude.{
  ℕ, Bool, true, false, Option, none, some, List, [], ◌∷◌, map, ◌≡◌, refl, ◌⊎◌, inl, inr, All,
  if◌then◌else◌,
}
use zk_payroll_sdk.Prelude.Action.{ok, err}
use zk_payroll_sdk.Indexer.Cursor.{
  EventCursor, EventCursorStorage, memory_cursor_storage, is_behind, is_cursor_corrupted,
}
use zk_payroll_sdk.Indexer.Processor.{
  EventData, ReplayDetector, record_event, success, duplicate, error, ReconciliationOutput,
  Processor, failed, process_event, process_event_stream,
}
use zk_payroll_sdk.Indexer.Order.{
  IsCursorStorage, IsOnce, same_key, processed_events, process_event_stream-IsOnce,
}
use zk_payroll_sdk.Indexer.Storages.{memory-IsCursorStorage}
use zk_payroll_sdk.Indexer.Lost.{unsaved_event_lost}

abbrev event : String → ℕ → ℕ → EventData
event id ledger position = record {
  id = id;
  batch_root = "r";
  ledger_sequence = ledger;
  transaction_position = 0;
  operation_position = 0;
  event_position = position;
}

-- The second event is delivered twice, and the last one comes too late.
abbrev deliveries : List (EventData × ℕ)
deliveries =
    (event "a" 1 0, 10) ∷ (event "b" 1 1, 11) ∷ (event "b" 1 1, 12) ∷ (event "c" 1 0, 13) ∷ []

abbrev no_records : ReplayDetector
no_records = record { records = []; key_index = [] }

abbrev fresh : Processor (Option EventCursor)
fresh = record { storage = none; replay_detector = no_records }

abbrev outputs : List ReconciliationOutput
outputs = (process_event_stream memory_cursor_storage none deliveries fresh).0

statuses :
    map (λ (o : ReconciliationOutput). o.status) outputs
    ≡ success ∷ success ∷ duplicate ∷ error ∷ []
unfolding process_event_stream process_event record_event is_cursor_corrupted is_behind
statuses = refl

process_event_stream-IsOnce_example : IsOnce none no_records (processed_events deliveries outputs)
process_event_stream-IsOnce_example =
    process_event_stream-IsOnce memory_cursor_storage none (λ s. s) deliveries fresh
      memory-IsCursorStorage

-- A storage that takes a cursor or is full.
abbrev full_storage : EventCursorStorage (Bool × Option EventCursor)
full_storage = record {
  save = λ cursor s. if s.0 then (err "full", s) else (ok tt, (false, some cursor));
  load = λ s. (ok s.1, s);
  delete = λ s. (ok tt, (false, none));
}

full_storage-save :
    (cursor : EventCursor) (full : Bool) (before : Option EventCursor)
    → let s = full_storage.save cursor (full, before) in
      ((s.0 ≡ ok tt) × (s.1.1 ≡ some cursor)) ⊎ ((m : String) × (s.0 ≡ err m) × (s.1.1 ≡ before))
full_storage-save cursor true before = inr ("full", refl, refl)
full_storage-save cursor false before = inl (refl, refl)

full_storage-IsCursorStorage : IsCursorStorage full_storage (λ s. s.1)
full_storage-IsCursorStorage = record {
  load_law = λ s. (refl, inl refl);
  save_law = λ cursor s. full_storage-save cursor s.0 s.1;
}

abbrev full : Processor (Bool × Option EventCursor)
full = record { storage = (true, none); replay_detector = no_records }

unsaved_event_lost_example :
    let (result, q) = process_event full_storage none (event "a" 1 0) 10 full in
    (result ≡ failed (some "full"))
    × All
        (λ f. same_key (event "a" 1 0) f ≡ false)
        (processed_events deliveries (process_event_stream full_storage none deliveries q).0)
unfolding is_cursor_corrupted
unsaved_event_lost_example =
    unsaved_event_lost full_storage none (λ s. s.1) (event "a" 1 0) 10 full none "full" deliveries
      full_storage-IsCursorStorage refl refl refl refl
