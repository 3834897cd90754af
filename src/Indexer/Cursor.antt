-- ===== src/Indexer/Cursor.antt =====
-- packages/core/src/indexer/EventCursor.ts: where the processing of events stands, and the storages
-- for it, MemoryCursorStorage.ts and LocalStorageCursorStorage.ts. An error that is thrown is its
-- message.
use Prim.Native.String.{String}
use zk_payroll_sdk.Prelude.{
  ℕ, Bool, ◌&&◌, ◌==◌, true, false, Option, none, some, ltb, if◌then◌else◌,
}
use zk_payroll_sdk.Prelude.Text.{str_eq}
use zk_payroll_sdk.Prelude.Action.{ok, err, Action}

pub record EventCursorState : Type 0 where
  pub ledger_sequence : ℕ
  pub transaction_position : ℕ
  pub operation_position : ℕ
  pub event_position : ℕ

pub record EventCursor : Type 0 where
  pub state : EventCursorState
  pub last_event_id : String
  pub last_batch_root : String
  pub captured_at : ℕ
  pub is_corrupted : Bool

-- What the processor asks of a storage with states S.
pub record EventCursorStorage (S : Type 0) : Type 0 where
  pub save : EventCursor → Action S String (Unit {0})
  pub load : Action S String (Option EventCursor)
  pub delete : Action S String (Unit {0})

abbrev pub memory_cursor_storage : EventCursorStorage (Option EventCursor)
memory_cursor_storage = record {
  save = λ cursor s. (ok tt, some cursor);
  load = λ s. (ok s, s);
  delete = λ s. (ok tt, none);
}

-- The platform's localStorage for one key, and its JSON. `set_item` gives none where `setItem`
-- throws, as it does when the storage is full.
pub record LocalStorage (S : Type 0) : Type 0 where
  pub set_item : String → S → Option S
  pub get_item : S → Option String
  pub remove_item : S → S
  pub stringify : EventCursor → String
  pub parse : String → Option EventCursor

abbrev pub local_storage_cursor_storage : {S : Type 0} → LocalStorage S → EventCursorStorage S
local_storage_cursor_storage platform = record {
  save = λ cursor s. elim (platform.set_item (platform.stringify cursor) s) [
    | none ↦ (err "Failed to save cursor", s)
    | some s' ↦ (ok tt, s')
  ];
  load = λ s. elim (platform.get_item s) [
    | none ↦ (ok none, s)
    | some serialized ↦
        if str_eq serialized "" then (ok none, s) else elim (platform.parse serialized) [
          | none ↦ (err "Failed to load cursor", s)
          | some cursor ↦ (ok (some cursor), s)
        ]
  ];
  delete = λ s. (ok tt, platform.remove_item s);
}

-- `isCursorCorrupted`, where there is a previous cursor.
unfoldable pub is_behind : EventCursorState → EventCursorState → Bool
is_behind previous new =
    if ltb new.ledger_sequence previous.ledger_sequence
    then true
    else if (new.ledger_sequence == previous.ledger_sequence)
        && ltb new.transaction_position previous.transaction_position
    then true
    else if (new.ledger_sequence == previous.ledger_sequence)
        && (new.transaction_position == previous.transaction_position)
        && ltb new.operation_position previous.operation_position
    then true
    else if (new.ledger_sequence == previous.ledger_sequence)
        && (new.transaction_position == previous.transaction_position)
        && (new.operation_position == previous.operation_position)
        && ltb new.event_position previous.event_position
    then true
    else false

unfoldable pub is_cursor_corrupted : Option EventCursor → EventCursorState → Bool
unfolding is_behind
is_cursor_corrupted none new = false
is_cursor_corrupted (some previous) new = is_behind previous.state new
