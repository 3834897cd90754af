-- ===== src/Batch/Pages.antt =====
-- packages/core/src/batch/paginate.ts: dividing a collection into batches. Sizes and indexes are
-- natural numbers; the source refuses all others by a `ValidationError`.
use zk_payroll_sdk.Prelude.{
  ℕ, zero, suc, ◌+◌, ◌-◌, ◌*◌, ◌/◌, Bool, true, Option, none, some, List, [], ◌∷◌, min, ltb, ◌==◌,
  if◌then◌else◌, length, take, drop, default,
}
use zk_payroll_sdk.Prelude.Action.{Result, ok, err}

pub record BatchPage (T : Type 0) : Type 0 where
  pub items : List T
  pub index : ℕ
  pub offset : ℕ
  pub count : ℕ
  pub total_items : ℕ
  pub total_pages : ℕ
  pub has_next : Bool

pub data PageError : Type 0 where
  invalid_page_size : PageError

-- `Math.ceil(totalItems / size)`, and 1 for an empty collection.
abbrev pub page_count : ℕ → ℕ → ℕ
page_count total size = if total == 0 then 1 else (total + size - 1) / size

-- `assertValidPageSize`; no size is a valid size.
abbrev pub is_valid_page_size : Option ℕ → Bool
is_valid_page_size none = true
is_valid_page_size (some n) = ltb 0 n

module _ {T : Type 0} where
  unfoldable pub get_batch_page : List T → Option ℕ → ℕ → Result PageError (BatchPage T)
  get_batch_page items page_size index =
      if is_valid_page_size page_size
      then (let size = default page_size (length items) in
          let offset = min (index * size) (length items) in
          ok (record {
            items = take size (drop offset items);
            index = index;
            offset = offset;
            count = length (take size (drop offset items));
            total_items = length items;
            total_pages = page_count (length items) size;
            has_next = ltb (index + 1) (page_count (length items) size);
          }))
      else err invalid_page_size

  -- The page that `iterateBatches` yields at an index.
  abbrev pub page_at : List T → ℕ → ℕ → BatchPage T
  page_at items size index = record {
    items = take size (drop (index * size) items);
    index = index;
    offset = index * size;
    count = length (take size (drop (index * size) items));
    total_items = length items;
    total_pages = page_count (length items) size;
    has_next = ltb (index + 1) (page_count (length items) size);
  }

  -- The loop of `iterateBatches`, with the number of rounds left.
  unfoldable pub pages_from : List T → ℕ → ℕ → ℕ → List (BatchPage T)
  pages_from items size index zero = []
  pages_from items size index (suc left) =
      page_at items size index ∷ pages_from items size (index + 1) left

  unfoldable pub iterate_batches : List T → Option ℕ → Result PageError (List (BatchPage T))
  unfolding pages_from
  iterate_batches items page_size =
      if is_valid_page_size page_size
      then (let size = default page_size (if ltb 0 (length items) then length items else 1) in
          ok (pages_from items size 0 (page_count (length items) size)))
      else err invalid_page_size
