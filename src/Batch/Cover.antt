-- ===== src/Batch/Cover.antt =====
-- The batches cover the collection: every record is in exactly one batch, in order.
use zk_payroll_sdk.Prelude.{
  ℕ, zero, suc, ◌+◌, ◌-◌, ◌*◌, ◌/◌, ◌%◌, ◌≤◌, ◌<◌, ◌≡◌, refl, some, List, [], ◌∷◌, ◌++◌, arith, min,
  length, drop, All, take-append-drop, drop_at, drop-drop, drop_all, length-take, ◌∙◌, sym, ap,
  lt→ltb,
}
use zk_payroll_sdk.Prelude.Action.{ok}
use zk_payroll_sdk.Batch.Pages.{
  BatchPage, page_at, page_count, pages_from, iterate_batches, get_batch_page,
}

module _ {T : Type 0} where
  -- The records of the batches, one batch after another.
  abbrev pub concat_items : List (BatchPage T) → List T
  concat_items [] = []
  concat_items (p ∷ ps) = p.items ++ concat_items ps

  pages_from-concat :
      (items : List T) (size index left : ℕ)
      → length items ≤ (index + left) * size
      → concat_items (pages_from items size index left) ≡ drop (index * size) items
  unfolding pages_from
  pages_from-concat items size index zero h = sym (drop_all (index * size) items (omega arith))
  pages_from-concat items size index (suc left) h =
      rw
        (
          pages_from-concat items size (index + 1) left (omega arith),
          drop_at ((index + 1) * size) (index * size + size) items (omega arith),
          sym (drop-drop size (index * size) items),
        )
        (take-append-drop size (drop (index * size) items))

  pub pages_from-length :
      (items : List T) (size index left : ℕ) → length (pages_from items size index left) ≡ left
  unfolding pages_from
  pages_from-length items size index zero = refl
  pages_from-length items size index (suc left) =
      ap suc (pages_from-length items size (index + 1) left)

quotient : (n d : ℕ) → 0 < d → (n / d * d + n % d ≡ n) × (n % d < d)
quotient n d h = grind arith

pub page_count-covers : (total size : ℕ) → 0 < size → total ≤ page_count total size * size
page_count-covers total size h = ground (arith, quotient (total + size - 1) size h)

page_count-bound : (total size : ℕ) → 0 < size → page_count total size * size ≤ total + size
page_count-bound total size h = ground (arith, quotient (total + size - 1) size h)

min_left : (a b : ℕ) → a ≤ b → min a b ≡ a
min_left a b h = omega arith

module _ {T : Type 0} where
  -- A page is what a direct request for its index returns, and it holds at most `size` records.
  abbrev pub IsRequested : List T → ℕ → BatchPage T → Type 0
  IsRequested items size p = (p.count ≤ size) × (get_batch_page items (some size) p.index ≡ ok p)

  page_at-IsRequested :
      (items : List T) (size index : ℕ)
      → 0 < size
      → index * size ≤ length items
      → IsRequested items size (page_at items size index)
  unfolding get_batch_page
  page_at-IsRequested items size index h le = (
    omega (arith, length-take size (drop (index * size) items)),
    rw (lt→ltb 0 size h, min_left (index * size) (length items) le) refl,
  )

  pages_from-IsRequested :
      (items : List T) (size index left : ℕ)
      → 0 < size
      → (index + left) * size ≤ length items + size
      → All (IsRequested items size) (pages_from items size index left)
  unfolding pages_from
  pages_from-IsRequested items size index zero h le = tt
  pages_from-IsRequested items size index (suc left) h le = (
    page_at-IsRequested items size index h (omega arith),
    pages_from-IsRequested items size (index + 1) left h (omega arith),
  )

  -- With a positive batch size, iterating returns batches that together hold every record of the
  -- collection exactly once and in order. There are as many as `page_count` says, each has at most
  -- the batch size of records, and each is the batch that `get_batch_page` returns for its index.
  pub iterate_batches-covers :
      (items : List T) (size : ℕ)
      → 0 < size
      → (pages : List (BatchPage T)) × (iterate_batches items (some size) ≡ ok pages)
        × (concat_items pages ≡ items)
        × (length pages ≡ page_count (length items) size)
        × All (IsRequested items size) pages
  unfolding iterate_batches
  iterate_batches-covers items size h = (
    pages_from items size 0 (page_count (length items) size),
    rw (lt→ltb 0 size h) refl,
    pages_from-concat items size 0 (page_count (length items) size)
          (omega (arith, page_count-covers (length items) size h))
        ∙ drop_at (0 * size) 0 items (omega arith),
    pages_from-length items size 0 (page_count (length items) size),
    pages_from-IsRequested items size 0 (page_count (length items) size) h
        (omega (arith, page_count-bound (length items) size h)),
  )
