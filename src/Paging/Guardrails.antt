-- ===== src/Paging/Guardrails.antt =====
-- packages/core/src/pagination-guardrails.ts: a traversal of a paginated source under limits. What
-- the source and the abort signal answer around fetch n is `world n`. A generator is represented by
-- what it yields up to its end. Limits are natural numbers; the tests for integers are left out.
use Prim.Native.String.{String}
use zk_payroll_sdk.Prelude.{
  ℕ, zero, suc, ◌+◌, Bool, true, false, ◌||◌, Option, none, some, List, [], ◌∷◌, ◌++◌, min, max,
  ltb, leb, if◌then◌else◌, default, length,
}
use zk_payroll_sdk.Prelude.Text.{str_eq, includes}
use zk_payroll_sdk.Prelude.Action.{Result, ok, err}

pub record PaginationGuardrailOptions : Type 0 where
  pub max_page_size : Option ℕ
  pub max_pages : Option ℕ
  pub max_records : Option ℕ

pub record ResolvedPaginationGuardrails : Type 0 where
  pub max_page_size : ℕ
  pub max_pages : ℕ
  pub max_records : ℕ

pub data GuardrailRangeError : Type 0 where
  max_pages_not_positive max_pages_too_large max_records_not_positive : GuardrailRangeError

-- DEFAULT_MAX_PAGES, DEFAULT_MAX_RECORDS and ABSOLUTE_MAX_PAGES are 100, 10,000 and 10,000.
abbrev pub resolve_pagination_guardrails :
    PaginationGuardrailOptions → Result GuardrailRangeError ResolvedPaginationGuardrails
resolve_pagination_guardrails options =
    let pages = default options.max_pages 100 in
    let records = default options.max_records 10000 in
    if ltb pages 1
    then err max_pages_not_positive
    else if ltb 10000 pages
    then err max_pages_too_large
    else if ltb records 1
    then err max_records_not_positive
    else ok (record {
      max_page_size = elim options.max_page_size [ none ↦ 100 | some n ↦ max 1 (min 100 n) ];
      max_pages = pages;
      max_records = records;
    })

pub record GuardedPage (T : Type 0) : Type 0 where
  pub items : List T
  pub next_cursor : Option String

-- `malformed` is a value that is no page.
pub data Fetched (T : Type 0) : Type 0 where
  fetched : GuardedPage T → Fetched T
  malformed : Fetched T
  fetch_failed : Fetched T

pub record AroundFetch (T : Type 0) : Type 0 where
  pub aborted_before : Bool
  pub outcome : Fetched T
  pub aborted_after : Bool

pub data GuardedEnd : Type 0 where
  completed aborted invalid_page fetch_rejected : GuardedEnd
  record_limit repeated_cursor page_limit : GuardedEnd

-- What is yielded, the cursors of the requests, and the end.
pub record Traversal (T : Type 0) : Type 0 where
  pub yielded : List T
  pub requests : List (Option String)
  pub end : GuardedEnd

abbrev pub option_eq : Option String → Option String → Bool
option_eq none none = true
option_eq none (some b) = false
option_eq (some a) none = false
option_eq (some a) (some b) = str_eq a b

-- `seenCursors.add(cursor)` of a cursor that is not undefined.
abbrev pub add_seen : Option String → List String → List String
add_seen none seen = seen
add_seen (some c) seen = c ∷ seen

-- `assertGuardedPage` on the cursor of a page.
abbrev pub is_valid_cursor : Option String → Bool
is_valid_cursor none = true
is_valid_cursor (some c) = if str_eq c "" then false else true

module _ {T : Type 0} where
  -- The loop over the items of a page: what it yields, and whether it meets the limit.
  abbrev pub yield_items : ℕ → ℕ → List T → List T × Bool
  yield_items limit yielded [] = ([], false)
  yield_items limit yielded (x ∷ xs) =
      let rest = yield_items limit (yielded + 1) xs in
      if leb limit yielded then ([], true) else (x ∷ rest.0, rest.1)

  abbrev pub ends : List T → Option String → GuardedEnd → Traversal T
  ends items request end = record { yielded = items; requests = request ∷ []; end = end }

  abbrev pub resumes : List T → Option String → Traversal T → Traversal T
  resumes items request rest = record {
    yielded = items ++ rest.yielded;
    requests = request ∷ rest.requests;
    end = rest.end;
  }

  -- A page that passed `assertGuardedPage`; `rest` is the loop after it.
  abbrev pub take_page :
      ℕ → ℕ → Option String → List String → GuardedPage T → (String → ℕ → Traversal T) → Traversal T
  take_page limit yielded cursor seen page rest =
      let (items, over) = yield_items limit yielded page.items in
      if over then ends items cursor record_limit else elim page.next_cursor [
        | none ↦ ends items cursor completed
        | some next ↦
            if option_eq (some next) cursor || includes seen next
            then ends items cursor repeated_cursor
            else resumes items cursor (rest next (length items))
      ]

  -- The loop over the pages, with the number of fetches that are left.
  unfoldable pub guarded_from :
      (ℕ → AroundFetch T) → ℕ → ℕ → ℕ → Option String → List String → ℕ → Traversal T
  guarded_from world limit zero page_number cursor seen yielded = record {
    yielded = [];
    requests = [];
    end = page_limit;
  }
  guarded_from world limit (suc left) page_number cursor seen yielded =
      if (world page_number).aborted_before
      then record { yielded = []; requests = []; end = aborted }
      else if (world page_number).aborted_after
      then ends [] cursor (elim (world page_number).outcome [
        | fetched page ↦ aborted
        | malformed ↦ aborted
        | fetch_failed ↦ fetch_rejected
      ])
      else elim (world page_number).outcome [
        | fetch_failed ↦ ends [] cursor fetch_rejected
        | malformed ↦ ends [] cursor invalid_page
        | fetched page ↦
            if is_valid_cursor page.next_cursor
            then take_page limit yielded cursor seen page (λ next count.
              guarded_from world limit left (page_number + 1) (some next) (add_seen cursor seen)
                (yielded + count))
            else ends [] cursor invalid_page
      ]

  unfoldable pub iterate_guarded_pages :
      (ℕ → AroundFetch T) → PaginationGuardrailOptions → Result GuardrailRangeError (Traversal T)
  unfolding guarded_from
  iterate_guarded_pages world options = elim (resolve_pagination_guardrails options) [
    | err e ↦ err e
    | ok g ↦ ok (guarded_from world g.max_records g.max_pages 1 none [] 0)
  ]
