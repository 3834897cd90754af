-- ===== src/Paging/Tests.antt =====
-- Pages of a few records, over a platform that writes an index as so many marks.
use Prim.Native.String.{String}
use Prim.Native.Char.{code}
use zk_payroll_sdk.Prelude.{
  ℕ, zero, suc, ◌≤◌, ◌≡◌, ◌⊎◌, refl, ap, false, Option, none, some, List, [], ◌∷◌, length, drop,
  min, ◌==◌, if◌then◌else◌, arith,
}
use zk_payroll_sdk.Prelude.Text.{str_eq, ≢→str_eq}
use zk_payroll_sdk.Prelude.Action.{ok}
use zk_payroll_sdk.Paging.{
  PaginationDirection, forward, backward, PaginationOptions, CursorPayload, ParsedCursor, shaped,
  Platform, encode_cursor, decode_cursor, PaginatedResult, uncursored_start, start_index, paginate,
  pages_after, paginate_iterator,
}
use zk_payroll_sdk.Paging.Coverage.{IsLossless, concat_data, paginate_iterator-covers}
use zk_payroll_sdk.Paging.Guardrails.{
  PaginationGuardrailOptions, ResolvedPaginationGuardrails, fetched, AroundFetch, Traversal,
  repeated_cursor, guarded_from, iterate_guarded_pages,
}
use zk_payroll_sdk.Paging.Cursors.{Distinct, is_completed}
use zk_payroll_sdk.Paging.Limits.{fetched_items, iterate_guarded_pages-bounded}

abbrev marks : ℕ → String
marks zero = ""
marks (suc n) = String.◌∷◌ "x" (marks n)

abbrev count_marks : String → ℕ
count_marks String.[] = 0
count_marks (String.◌∷◌ c s) = suc (count_marks s)

count_marks-marks : (n : ℕ) → count_marks (marks n) ≡ n
count_marks-marks zero = refl
count_marks-marks (suc n) = ap suc (count_marks-marks n)

abbrev write_cursor : CursorPayload → String
write_cursor p = elim p.direction [
  | forward ↦ String.◌∷◌ "f" (marks p.index)
  | backward ↦ String.◌∷◌ "b" (marks p.index)
]

abbrev read_cursor : String → Option ParsedCursor
read_cursor String.[] = none
read_cursor (String.◌∷◌ c s) = some (
    shaped
      (record { index = count_marks s; direction = if code c == b'f' then forward else backward }))

abbrev plain : Platform
plain = record {
  to_base64 = λ s. s;
  of_base64 = λ s. s;
  stringify = write_cursor;
  parse = read_cursor;
}

read-write :
    (n : ℕ) (d : PaginationDirection)
    → read_cursor (write_cursor (record { index = n; direction = d }))
      ≡ some (shaped (record { index = n; direction = d }))
read-write n forward =
    ap (λ k. some (shaped (record { index = k; direction = forward }))) (count_marks-marks n)
read-write n backward =
    ap (λ k. some (shaped (record { index = k; direction = backward }))) (count_marks-marks n)

write_nonempty :
    (n : ℕ) (d : PaginationDirection)
    → str_eq (write_cursor (record { index = n; direction = d })) "" ≡ false
write_nonempty n forward = ≢→str_eq _ "" (λ e. omega (arith, ap count_marks e))
write_nonempty n backward = ≢→str_eq _ "" (λ e. omega (arith, ap count_marks e))

plain-IsLossless : IsLossless plain
plain-IsLossless p = (refl, read-write p.index p.direction, write_nonempty p.index p.direction)

abbrev entries : List ℕ
entries = 10 ∷ 20 ∷ 30 ∷ 40 ∷ 50 ∷ []

abbrev by_two : PaginationDirection → PaginationOptions
by_two d = record { cursor = none; page = none; page_size = some 2; direction = some d }

forward_pages :
    (pages : List (PaginatedResult ℕ)) × (paginate_iterator plain 6 entries (by_two forward)
      ≡ some pages)
    × (concat_data pages ≡ entries)
unfolding paginate_iterator pages_after paginate start_index encode_cursor decode_cursor
forward_pages = (_, refl, refl)

-- Going backward, the iterator returns the last page and ends.
backward_pages :
    (pages : List (PaginatedResult ℕ)) × (paginate_iterator plain 6 entries (by_two backward)
      ≡ some pages)
    × (concat_data pages ≡ 40 ∷ 50 ∷ [])
unfolding paginate_iterator pages_after paginate start_index encode_cursor decode_cursor
backward_pages = (_, refl, refl)

paginate_iterator-covers_example :
    (pages : List (PaginatedResult ℕ)) × (paginate_iterator plain 6 entries (by_two forward)
      ≡ some pages)
    × (concat_data pages ≡ drop (min (uncursored_start (by_two forward) 5) 5) entries)
paginate_iterator-covers_example =
    paginate_iterator-covers plain entries (by_two forward) 6 plain-IsLossless (omega arith)

-- A source that returns the same cursor again and again.
abbrev stalling : ℕ → AroundFetch ℕ
stalling n = record {
  aborted_before = false;
  outcome = fetched (record { items = n ∷ n ∷ []; next_cursor = some "same" });
  aborted_after = false;
}

abbrev limits : PaginationGuardrailOptions
limits = record { max_page_size = none; max_pages = some 9; max_records = some 5 }

abbrev resolved : ResolvedPaginationGuardrails
resolved = record { max_page_size = 100; max_pages = 9; max_records = 5 }

stalling_stops :
    iterate_guarded_pages stalling limits
    ≡ ok (record {
      yielded = 1 ∷ 1 ∷ 2 ∷ 2 ∷ [];
      requests = none ∷ some "same" ∷ [];
      end = repeated_cursor;
    })
unfolding iterate_guarded_pages guarded_from
stalling_stops = refl

iterate_guarded_pages-bounded_example :
    (t : Traversal ℕ) × (iterate_guarded_pages stalling limits ≡ ok t)
    × (length t.requests ≤ 9)
    × (length t.yielded ≤ 5)
    × Distinct t.requests
    × ((is_completed t.end ≡ false) ⊎ (t.yielded ≡ fetched_items stalling 1 (length t.requests)))
iterate_guarded_pages-bounded_example = iterate_guarded_pages-bounded stalling limits resolved refl
