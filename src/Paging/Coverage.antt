-- ===== src/Paging/Coverage.antt =====
-- The iterator ends, and its pages hold every record from where it starts.
use Prim.Native.String.{String}
use zk_payroll_sdk.Prelude.{
  ℕ, zero, suc, ◌+◌, ◌-◌, ◌≤◌, ◌<◌, ◌≡◌, refl, sym, ap, ◌∙◌, false, Option, none, some, List, [],
  ◌∷◌, ◌++◌, Bool-cases, inl, inr, min, ltb, ltb→lt, not_ltb→le, default, length, take, drop,
  take-append-drop, length-take, length-drop, drop-drop, drop_all, drop-length-take, arith,
}
use zk_payroll_sdk.Prelude.Text.{str_eq}
use zk_payroll_sdk.Paging.{
  PaginationOptions, CursorPayload, Platform, shaped, encode_cursor, decode_cursor,
  resolve_page_size, PaginatedResult, uncursored_start, start_index, page_from, paginate,
  pages_after, paginate_iterator, forward,
}

-- Decoding a base64 text or a JSON text gives back what was encoded, and the text is not empty.
abbrev pub IsLossless : Platform → Type 0
IsLossless platform =
    (payload : CursorPayload)
    → (platform.of_base64 (platform.to_base64 (platform.stringify payload))
        ≡ platform.stringify payload)
      × (platform.parse (platform.stringify payload) ≡ some (shaped payload))
      × (str_eq (platform.to_base64 (platform.stringify payload)) "" ≡ false)

resolve_page_size-positive : (size : Option ℕ) → 0 < resolve_page_size size
resolve_page_size-positive none = omega arith
resolve_page_size-positive (some n) = ground arith

start_index-encode :
    (platform : Platform) (options : PaginationOptions) (total : ℕ) (payload : CursorPayload)
    → IsLossless platform
    → start_index platform (record options { cursor = some (encode_cursor platform payload) }) total
      ≡ payload.index
unfolding start_index encode_cursor decode_cursor
start_index-encode platform options total payload lossless =
    let faithful = lossless payload in rw (start_index, faithful.2, faithful.0, faithful.1) refl

module _ {T : Type 0} where
  abbrev pub concat_data : List (PaginatedResult T) → List T
  concat_data [] = []
  concat_data (p ∷ ps) = p.page_data ++ concat_data ps

  pages_after-last :
      (platform : Platform) (fuel : ℕ) (records : List T) (options : PaginationOptions)
      → (paginate platform records options).meta.next_cursor ≡ none
      → pages_after platform (suc fuel) records options
        ≡ some (paginate platform records options ∷ [])
  unfolding pages_after
  pages_after-last platform fuel records options end = simp (pages_after, end) refl

  pages_after-more :
      (platform : Platform) (fuel : ℕ) (records : List T) (options : PaginationOptions)
      (cursor : String) (pages : List (PaginatedResult T))
      → (paginate platform records options).meta.next_cursor ≡ some cursor
      → pages_after platform fuel records (record options { cursor = some cursor }) ≡ some pages
      → pages_after platform (suc fuel) records options
        ≡ some (paginate platform records options ∷ pages)
  unfolding pages_after
  pages_after-more platform fuel records options cursor pages more rest =
      simp (pages_after, more, rest) refl

  paginate_at :
      (platform : Platform) (records : List T) (options : PaginationOptions) (start : ℕ)
      → min (start_index platform options (length records)) (length records) ≡ start
      → paginate platform records options
        ≡ page_from platform
            (default options.direction forward)
            (resolve_page_size options.page_size)
            start
            records
  unfolding paginate
  paginate_at platform records options start at = rw (paginate, at) refl

  -- A page that does not reach the end is not empty.
  slice-positive :
      (records : List T) (size start : ℕ)
      → 0 < size
      → start + length (take size (drop start records)) < length records
      → 0 < length (take size (drop start records))
  slice-positive records size start h inside =
      omega (arith, length-take size (drop start records), length-drop start records)

  slice-rest :
      (records : List T) (size start : ℕ)
      → take size (drop start records)
          ++ drop (start + length (take size (drop start records))) records
        ≡ drop start records
  slice-rest records size start =
      ap (λ l. take size (drop start records) ++ l)
        (sym (drop-drop (length (take size (drop start records))) start records)
          ∙ drop-length-take size (drop start records))
      ∙ take-append-drop size (drop start records)

  slice-all :
      (records : List T) (size start : ℕ)
      → length records ≤ start + length (take size (drop start records))
      → take size (drop start records) ++ [] ≡ drop start records
  slice-all records size start over =
      ap (λ l. take size (drop start records) ++ l) (sym (drop_all _ records over))
      ∙ slice-rest records size start

  next_start :
      (platform : Platform) (records : List T) (options : PaginationOptions) (end : ℕ)
      → IsLossless platform
      → end ≤ length records
      → min
          (start_index platform
            (record options {
              cursor = some (
                  encode_cursor platform
                    (record { index = end; direction = default options.direction forward }));
            })
            (length records))
          (length records)
        ≡ end
  next_start platform records options end lossless inside = omega (
    arith,
    start_index-encode platform options (length records)
        (record { index = end; direction = default options.direction forward }) lossless,
  )

  pages_after-covers :
      (platform : Platform) (records : List T) (options : PaginationOptions) (fuel start : ℕ)
      → IsLossless platform
      → min (start_index platform options (length records)) (length records) ≡ start
      → length records - start < fuel
      → (pages : List (PaginatedResult T)) × (pages_after platform fuel records options
          ≡ some pages)
        × (concat_data pages ≡ drop start records)
  pages_after-covers platform records options zero start lossless at enough = absurd (omega arith)
  pages_after-covers platform records options (suc fuel) start lossless at enough =
      let size = resolve_page_size options.page_size in
      let slice = take size (drop start records) in
      let end = start + length slice in
      let page = paginate_at platform records options start at in
      let cursor =
        encode_cursor platform
          (record { index = end; direction = default options.direction forward }) in
      elim (Bool-cases (ltb end (length records))) [
        | inl more ↦
            let inside = ltb→lt end (length records) more in
            let rest =
              pages_after-covers platform records (record options { cursor = some cursor }) fuel end
                lossless (next_start platform records options end lossless (omega arith))
                (omega (
                  arith,
                  slice-positive records size start (resolve_page_size-positive options.page_size)
                      inside,
                )) in
            (
              paginate platform records options ∷ rest.0,
              pages_after-more platform fuel records options cursor rest.0 (rw (page, more) refl)
                  rest.1,
              ap (λ r. r.page_data ++ concat_data rest.0) page
                  ∙ (ap (λ l. slice ++ l) rest.2 ∙ slice-rest records size start),
            )
        | inr last ↦ (
          paginate platform records options ∷ [],
          pages_after-last platform fuel records options (rw (page, last) refl),
          ap (λ r. r.page_data ++ []) page
              ∙ slice-all records size start (not_ltb→le end (length records) last),
        )
      ]

  -- Where the texts of cursors can be decoded again, the iterator ends within one round more than
  -- there are records, and its pages together hold, once each and in order, the records from the
  -- index at which it starts: the first one going forward without a page number.
  pub paginate_iterator-covers :
      (platform : Platform) (records : List T) (options : PaginationOptions) (fuel : ℕ)
      → IsLossless platform
      → length records < fuel
      → (pages : List (PaginatedResult T)) × (paginate_iterator platform fuel records options
          ≡ some pages)
        × (concat_data pages
            ≡ drop (min (uncursored_start options (length records)) (length records)) records)
  unfolding paginate_iterator start_index
  paginate_iterator-covers platform records options fuel lossless enough =
      pages_after-covers platform records (record options { cursor = none }) fuel _ lossless refl
        (omega arith)
