-- ===== src/Paging.antt =====
-- packages/core/src/pagination.ts: pages of records in memory, by cursor or by page number. Page
-- numbers, sizes and indexes are natural numbers. Base64 and JSON are the platform's.
use Prim.Native.String.{String}
use zk_payroll_sdk.Prelude.{
  ℕ, zero, suc, ◌+◌, ◌-◌, ◌*◌, ◌/◌, Bool, true, false, not, Option, none, some, List, [], ◌∷◌, min,
  max, ltb, if◌then◌else◌, default, length, take, drop,
}
use zk_payroll_sdk.Prelude.Text.{str_eq}
pub mod Coverage
pub mod Guardrails
pub mod Cursors
pub mod Limits
mod Tests

pub data PaginationDirection : Type 0 where
  forward backward : PaginationDirection

pub record PaginationOptions : Type 0 where
  pub cursor : Option String
  pub page : Option ℕ
  pub page_size : Option ℕ
  pub direction : Option PaginationDirection

pub record CursorPayload : Type 0 where
  pub index : ℕ
  pub direction : PaginationDirection

-- What `JSON.parse` returns, as far as `decodeCursor` looks at it: an object with a number `index`
-- and a `direction`, or anything else.
pub data ParsedCursor : Type 0 where
  shaped : CursorPayload → ParsedCursor
  unshaped : ParsedCursor

-- `Buffer.from(s).toString("base64")` and its inverse, `JSON.stringify` and `JSON.parse`, where
-- none is its error.
pub record Platform : Type 0 where
  pub to_base64 : String → String
  pub of_base64 : String → String
  pub stringify : CursorPayload → String
  pub parse : String → Option ParsedCursor

unfoldable pub encode_cursor : Platform → CursorPayload → String
encode_cursor platform payload = platform.to_base64 (platform.stringify payload)

unfoldable pub decode_cursor : Platform → String → Option CursorPayload
decode_cursor platform cursor = elim (platform.parse (platform.of_base64 cursor)) [
  | none ↦ none
  | some (shaped payload) ↦ some payload
  | some unshaped ↦ none
]

-- DEFAULT_PAGE_SIZE, MIN_PAGE_SIZE and MAX_PAGE_SIZE are 20, 1 and 100.
abbrev pub resolve_page_size : Option ℕ → ℕ
resolve_page_size none = 20
resolve_page_size (some n) = if ltb n 1 then 1 else if ltb 100 n then 100 else n

pub record PaginationMeta : Type 0 where
  pub total : ℕ
  pub count : ℕ
  pub page_size : ℕ
  pub page : ℕ
  pub has_next_page : Bool
  pub has_prev_page : Bool
  pub next_cursor : Option String
  pub prev_cursor : Option String

pub record PaginatedResult (T : Type 0) : Type 0 where
  pub page_data : List T
  pub meta : PaginationMeta

-- Where the page starts when there is no cursor.
abbrev pub uncursored_start : PaginationOptions → ℕ → ℕ
uncursored_start options total =
    let size = resolve_page_size options.page_size in
    elim options.page [
      | some page ↦ (max 1 page - 1) * size
      | none ↦ elim (default options.direction forward) [ backward ↦ total - size | forward ↦ 0 ]
    ]

unfoldable pub start_index : Platform → PaginationOptions → ℕ → ℕ
unfolding decode_cursor
start_index platform options total = elim options.cursor [
  | none ↦ uncursored_start options total
  | some cursor ↦
      if str_eq cursor ""
      then uncursored_start options total
      else elim (decode_cursor platform cursor) [ none ↦ 0 | some payload ↦ payload.index ]
]

module _ {T : Type 0} where
  -- The page from an index that is clamped already.
  abbrev pub page_from : Platform → PaginationDirection → ℕ → ℕ → List T → PaginatedResult T
  page_from platform direction size start records =
      let slice = take size (drop start records) in
      let end = start + length slice in
      record {
        page_data = slice;
        meta = record {
          total = length records;
          count = length slice;
          page_size = size;
          page = if ltb 0 size then start / size + 1 else 1;
          has_next_page = ltb end (length records);
          has_prev_page = ltb 0 start;
          next_cursor =
              if ltb end (length records)
              then some (encode_cursor platform (record { index = end; direction = direction }))
              else none;
          prev_cursor =
              if ltb 0 start
              then some
                  (encode_cursor platform (record { index = start - size; direction = direction }))
              else none;
        };
      }

  unfoldable pub paginate : Platform → List T → PaginationOptions → PaginatedResult T
  unfolding start_index encode_cursor
  paginate platform records options =
      page_from platform (default options.direction forward) (resolve_page_size options.page_size)
        (min (start_index platform options (length records)) (length records)) records

  -- The loop of `paginateIterator`, with the number of rounds it may make; none is running out of
  -- them.
  unfoldable pub pages_after :
      Platform → ℕ → List T → PaginationOptions → Option (List (PaginatedResult T))
  unfolding paginate
  pages_after platform zero records options = none
  pages_after platform (suc fuel) records options =
      let result = paginate platform records options in
      elim result.meta.next_cursor [
        | none ↦ some (result ∷ [])
        | some cursor ↦
            elim (pages_after platform fuel records (record options { cursor = some cursor })) [
              | none ↦ none
              | some pages ↦ some (result ∷ pages)
            ]
      ]

  unfoldable pub paginate_iterator :
      Platform → ℕ → List T → PaginationOptions → Option (List (PaginatedResult T))
  unfolding pages_after
  paginate_iterator platform fuel records options =
      pages_after platform fuel records (record options { cursor = none })
