-- ===== src/Indexer/Storages.antt =====
-- packages/core/src/indexer/MemoryCursorStorage.ts and LocalStorageCursorStorage.ts keep what the
-- processor expects of a storage.
use Prim.Native.String.{String}
use zk_payroll_sdk.Prelude.{
  Option, none, some, ◌≡◌, ◌≢◌, refl, inl, inr, if◌then◌else◌, Bool-cases, Option-cases,
}
use zk_payroll_sdk.Prelude.Text.{str_eq, ≢→str_eq}
use zk_payroll_sdk.Indexer.Cursor.{
  EventCursor, memory_cursor_storage, LocalStorage, local_storage_cursor_storage,
}
use zk_payroll_sdk.Indexer.Order.{IsCursorStorage}

pub memory-IsCursorStorage : IsCursorStorage memory_cursor_storage (λ s. s)
memory-IsCursorStorage = record {
  load_law = λ s. (refl, inl refl);
  save_law = λ cursor s. inl (refl, refl);
}

-- What the storage of the platform promises: it gives back what was set, and the text of a cursor is
-- not empty and can be parsed.
pub record IsLocalStorage {S : Type 0} (platform : LocalStorage S) : Type 0 where
  pub get_set :
      (text : String) (s t : S)
      → platform.set_item text s ≡ some t
      → platform.get_item t ≡ some text
  pub parse_stringify :
      (cursor : EventCursor) → platform.parse (platform.stringify cursor) ≡ some cursor
  pub not_empty : (cursor : EventCursor) → platform.stringify cursor ≢ ""

module _ {S : Type 0} (platform : LocalStorage S) where
  abbrev pub held_text : Option String → Option EventCursor
  held_text none = none
  held_text (some text) = if str_eq text "" then none else platform.parse text

  abbrev pub held : S → Option EventCursor
  held s = held_text (platform.get_item s)

  pub local_storage-IsCursorStorage :
      IsLocalStorage platform → IsCursorStorage (local_storage_cursor_storage platform) held
  local_storage-IsCursorStorage laws = record {
    load_law = λ s. elim (Option-cases (platform.get_item s)) [
      | inl nothing ↦ rw nothing (rw nothing refl, inl refl)
      | inr (text, found) ↦ rw found (elim (Bool-cases (str_eq text "")) [
        | inl empty ↦ rw empty (rw (found, empty) refl, inl refl)
        | inr text_full ↦ rw text_full (elim (Option-cases (platform.parse text)) [
          | inl bad ↦ rw bad (rw (found, text_full, bad) refl, inr ("Failed to load cursor", refl))
          | inr (cursor, good) ↦ rw good (rw (found, text_full, good) refl, inl refl)
        ])
      ])
    ];
    save_law = λ cursor s. elim (Option-cases (platform.set_item (platform.stringify cursor) s)) [
      | inl full ↦ rw full (inr ("Failed to save cursor", refl, refl))
      | inr (t, stored) ↦
          rw
            (
              stored,
              laws.get_set (platform.stringify cursor) s t stored,
              ≢→str_eq (platform.stringify cursor) "" (laws.not_empty cursor),
              laws.parse_stringify cursor,
            )
            (inl (refl, refl))
    ];
  }
