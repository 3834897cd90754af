-- ===== src/Import/Fuzzy.antt =====
-- packages/core/src/import/fuzzyMatch.ts: identifiers without differences of case and white space, and
-- names that differ by a few edits. Texts are lists of code units where the source indexes them;
-- `lower` is the platform's toLowerCase.
use Prim.Native.String.{String}
use Prim.Native.Char.{code}
use zk_payroll_sdk.Prelude.{
  ℕ, ◌+◌, ◌-◌, ◌==◌, leb, ltb, min, max, Bool, true, false, ◌||◌, ◌&&◌, Option, none, some, List,
  [], ◌∷◌, if◌then◌else◌, length,
}
use zk_payroll_sdk.Prelude.Arrays.{get_or, range}
use zk_payroll_sdk.Prelude.Text.{trim, str_eq, is_space}
use zk_payroll_sdk.Quorum.Hashing.{code_units}

-- `s.replace(/\s+/g, " ")`; the flag says that a run has begun.
abbrev pub collapse_spaces : Bool → String → String
collapse_spaces in_run String.[] = String.[]
collapse_spaces in_run (String.◌∷◌ c s) =
    let more = collapse_spaces true s in
    let rest = collapse_spaces false s in
    if is_space (code c) then (if in_run then more else String.◌∷◌ " " more) else String.◌∷◌ c rest

unfoldable pub normalize_identifier : (String → String) → Option String → Option String
normalize_identifier lower none = none
normalize_identifier lower (some value) =
    let normalized = lower (collapse_spaces false (trim value)) in
    if str_eq normalized "" then none else some normalized

abbrev pub substitution_cost : ℕ → ℕ → ℕ
substitution_cost x y = if x == y then 0 else 1

-- The loop over `b`: the cells of the current row after its first one, from the cell to the left and
-- the row before, which begins with `above_left`.
unfoldable pub fill_row : ℕ → ℕ → ℕ → List ℕ → List ℕ → List ℕ
fill_row x left above_left previous [] = []
fill_row x left above_left [] (y ∷ b) = []
fill_row x left above_left (above ∷ previous) (y ∷ b) =
    let cell = min (above + 1) (min (left + 1) (above_left + substitution_cost x y)) in
    cell ∷ fill_row x cell above previous b

-- The loop over `a` from its index i on; the rows swap their names after each round.
unfoldable pub fill_rows : ℕ → List ℕ → List ℕ → ℕ → List ℕ → List ℕ
unfolding fill_row
fill_rows i [] b first previous = first ∷ previous
fill_rows i (x ∷ a) b first previous =
    fill_rows (i + 1) a b (i + 1) (fill_row x (i + 1) first previous b)

abbrev pub texts_equal : List ℕ → List ℕ → Bool
texts_equal [] [] = true
texts_equal [] (y ∷ b) = false
texts_equal (x ∷ a) [] = false
texts_equal (x ∷ a) (y ∷ b) = x == y && texts_equal a b

unfoldable pub levenshtein_distance : List ℕ → List ℕ → ℕ
unfolding fill_rows
levenshtein_distance a b =
    if texts_equal a b
    then 0
    else if length a == 0
    then length b
    else if length b == 0
    then length a
    else get_or (fill_rows 0 a b 0 (range 1 (length b))) (length b) 0

abbrev pub starts_with : List ℕ → List ℕ → Bool
starts_with xs [] = true
starts_with [] (y ∷ ys) = false
starts_with (x ∷ xs) (y ∷ ys) = x == y && starts_with xs ys

-- `xs.includes(ys)` on texts.
abbrev pub contains : List ℕ → List ℕ → Bool
contains [] ys = starts_with [] ys
contains (x ∷ xs) ys = starts_with (x ∷ xs) ys || contains xs ys

abbrev pub texts_are_similar : ℕ → List ℕ → List ℕ → Bool
texts_are_similar threshold a b =
    if ltb threshold (max (length a - length b) (length b - length a))
    then contains a b || contains b a
    else leb (levenshtein_distance a b) threshold

-- The two names are undefined or texts.
unfoldable pub names_are_similar : (String → String) → Option String → Option String → ℕ → Bool
unfolding normalize_identifier levenshtein_distance
names_are_similar lower a b threshold = elim (normalize_identifier lower a) [
  | none ↦ false
  | some na ↦ elim (normalize_identifier lower b) [
    | none ↦ false
    | some nb ↦ str_eq na nb || texts_are_similar threshold (code_units na) (code_units nb)
  ]
]
