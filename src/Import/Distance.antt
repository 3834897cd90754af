-- ===== src/Import/Distance.antt =====
-- packages/core/src/import/fuzzyMatch.ts: the two rows of levenshteinDistance compute the edit distance.
use zk_payroll_sdk.Prelude.{
  ℕ, suc, ◌+◌, ◌==◌, min, true, List, [], ◌∷◌, ◌≡◌, refl, sym, ap, ◌∙◌, inl, inr, Bool-cases,
  if◌then◌else◌, length, arith, ==_iff, &&-true,
}
use zk_payroll_sdk.Prelude.Arrays.{get_or, range}
use zk_payroll_sdk.Import.Fuzzy.{
  substitution_cost, fill_row, fill_rows, texts_equal, levenshtein_distance,
}

-- The edit distance, from the ends of the texts: the least number of insertions, deletions and
-- substitutions.
unfoldable pub edit_distance : List ℕ → List ℕ → ℕ
edit_distance [] ys = length ys
edit_distance (x ∷ xs) [] = length (x ∷ xs)
edit_distance (x ∷ xs) (y ∷ ys) =
    min (edit_distance xs (y ∷ ys) + 1)
      (min (edit_distance (x ∷ xs) ys + 1) (edit_distance xs ys + substitution_cost x y))

-- A text read from its end, in front of another.
abbrev pub reverse_onto : List ℕ → List ℕ → List ℕ
reverse_onto [] ys = ys
reverse_onto (x ∷ xs) ys = reverse_onto xs (x ∷ ys)

-- The row for a text u read so far: its distances to the beginnings of b, after v.
abbrev row_of : List ℕ → List ℕ → List ℕ → List ℕ
row_of u v [] = []
row_of u v (y ∷ b) = edit_distance u (y ∷ v) ∷ row_of u (y ∷ v) b

fill_row-row_of :
    (x : ℕ) (u v b : List ℕ)
    → fill_row x (edit_distance (x ∷ u) v) (edit_distance u v) (row_of u v b) b ≡ row_of (x ∷ u) v b
unfolding fill_row edit_distance
fill_row-row_of x u v [] = refl
fill_row-row_of x u v (y ∷ b) =
    ap (λ cells. edit_distance (x ∷ u) (y ∷ v) ∷ cells) (fill_row-row_of x u (y ∷ v) b)

edit_distance-nil : (u : List ℕ) → edit_distance u [] ≡ length u
unfolding edit_distance
edit_distance-nil [] = refl
edit_distance-nil (x ∷ u) = refl

fill_rows-row_of :
    (i : ℕ) (a u b : List ℕ) (first : ℕ) (previous : List ℕ)
    → i ≡ length u
    → first ≡ edit_distance u []
    → previous ≡ row_of u [] b
    → fill_rows i a b first previous
      ≡ edit_distance (reverse_onto a u) [] ∷ row_of (reverse_onto a u) [] b
unfolding fill_rows edit_distance
fill_rows-row_of i [] u b first previous h e r = rw (e, r) refl
fill_rows-row_of i (x ∷ a) u b first previous h e r =
    let next : i + 1 ≡ edit_distance (x ∷ u) [] = omega arith in
    fill_rows-row_of (i + 1) a (x ∷ u) b (i + 1) (fill_row x (i + 1) first previous b) (omega arith)
      next (rw (next, e, r) (fill_row-row_of x u [] b))

get_or-row_of :
    (u v b : List ℕ) (d : ℕ)
    → get_or (edit_distance u v ∷ row_of u v b) (length b) d ≡ edit_distance u (reverse_onto b v)
get_or-row_of u v [] d = refl
get_or-row_of u v (y ∷ b) d = get_or-row_of u (y ∷ v) b d

range-row_of : (v b : List ℕ) → range (suc (length v)) (length b) ≡ row_of [] v b
unfolding edit_distance
range-row_of v [] = refl
range-row_of v (y ∷ b) = ap (λ cells. suc (length v) ∷ cells) (range-row_of (y ∷ v) b)

edit_distance_self : (xs : List ℕ) → edit_distance xs xs ≡ 0
unfolding edit_distance
edit_distance_self [] = refl
edit_distance_self (x ∷ xs) = ground (arith, edit_distance_self xs)

length-reverse_onto : (xs ys : List ℕ) → length (reverse_onto xs ys) ≡ length xs + length ys
length-reverse_onto [] ys = omega arith
length-reverse_onto (x ∷ xs) ys = omega (arith, length-reverse_onto xs (x ∷ ys))

texts_equal→≡ : (a b : List ℕ) → texts_equal a b ≡ true → a ≡ b
texts_equal→≡ [] [] h = refl
texts_equal→≡ [] (y ∷ b) h = absurd cc
texts_equal→≡ (x ∷ a) [] h = absurd cc
texts_equal→≡ (x ∷ a) (y ∷ b) h =
    let (first, rest) = &&-true (x == y) (texts_equal a b) h in
    ap (λ c. c ∷ a) ((==_iff x y).0 first) ∙ ap (λ t. y ∷ t) (texts_equal→≡ a b rest)

filled_rows :
    (a b : List ℕ)
    → get_or (fill_rows 0 a b 0 (range 1 (length b))) (length b) 0
      ≡ edit_distance (reverse_onto a []) (reverse_onto b [])
filled_rows a b =
    ap (λ row. get_or row (length b) 0)
      (fill_rows-row_of 0 a [] b 0 (range 1 (length b)) refl (sym (edit_distance-nil []))
        (range-row_of [] b))
    ∙ get_or-row_of (reverse_onto a []) [] b 0

shortcuts :
    (a b : List ℕ)
    → (if length a == 0
        then length b
        else if length b == 0
        then length a
        else get_or (fill_rows 0 a b 0 (range 1 (length b))) (length b) 0)
      ≡ edit_distance (reverse_onto a []) (reverse_onto b [])
unfolding edit_distance
shortcuts [] b = omega (arith, length-reverse_onto b [])
shortcuts (x ∷ a) [] =
    ground (arith, length-reverse_onto (x ∷ a) [], edit_distance-nil (reverse_onto (x ∷ a) []))
shortcuts (x ∷ a) (y ∷ b) = ground (arith, filled_rows (x ∷ a) (y ∷ b))

-- The distance that the two rows give, and that of the shortcuts for equal and empty texts, is the
-- edit distance of the texts, read from their ends.
pub levenshtein_distance-edit_distance :
    (a b : List ℕ)
    → levenshtein_distance a b ≡ edit_distance (reverse_onto a []) (reverse_onto b [])
unfolding levenshtein_distance
levenshtein_distance-edit_distance a b = elim (Bool-cases (texts_equal a b)) [
  | inl same ↦ rw same (
      sym (
        ap (λ t. edit_distance (reverse_onto a []) (reverse_onto t []))
          (sym (texts_equal→≡ a b same))
        ∙ edit_distance_self (reverse_onto a [])))
  | inr other ↦ rw other (shortcuts a b)
]
