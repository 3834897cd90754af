-- ===== src/Import/Merging.antt =====
-- packages/core/src/import/ImportDuplicateClusterDetector.ts: what `find` and `union` do to the trees.
use mathlib.Core.Path.{subst}
use zk_payroll_sdk.Prelude.{
  ℕ, zero, suc, ◌≤◌, ◌<◌, ◌==◌, ltb, ltb→lt, min, max, some, ◌≡◌, refl, sym, ap, ◌∙◌, inl, inr,
  Bool-cases, if◌then◌else◌, length, arith, ==_iff,
}
use zk_payroll_sdk.Prelude.Arrays.{set, get_or-set, length-set}
use zk_payroll_sdk.Import.UnionFind.{Parents, parent, find_from, find, attach, union}
use zk_payroll_sdk.Import.Forest.{
  IsForest, root, root-parent, root-fixed, root-top, root-le, root_unique,
}

parent-set :
    (p : Parents) (i j v : ℕ)
    → i < length p
    → parent (set p i v) j ≡ (if i == j then v else parent p j)
parent-set p i j v h = get_or-set p i j v j h

-- Forests of one size with one root for every node.
abbrev pub IsSame : Parents → Parents → Type 0
IsSame p q = IsForest q × (length q ≡ length p) × ((j : ℕ) → root q j ≡ root p j)

root-grandparent :
    (p : Parents) (i j : ℕ)
    → IsForest p
    → root p j ≡ root p (if i == j then parent p (parent p i) else parent p j)
root-grandparent p i j f = elim (Bool-cases (i == j)) [
  | inl same ↦
      let e = (==_iff i j).0 same in
      rw same (ap (root p) (sym e) ∙ root-parent p i f ∙ root-parent p (parent p i) f)
  | inr other ↦ rw other (root-parent p j f)
]

halving-IsSame :
    (p : Parents) (i : ℕ) → IsForest p → i < length p → IsSame p (set p i (parent p (parent p i)))
halving-IsSame p i f h =
    let up = parent p (parent p i) in
    let below : up ≤ i = omega (arith, f i, f (parent p i)) in
    let at = λ (j : ℕ). parent-set p i j up h in
    let forest : IsForest (set p i up) = λ j. ground (arith, at j, f j) in
    (
      forest,
      length-set p i up,
      root_unique (set p i up) (root p) forest
          (λ j. root-grandparent p i j f ∙ ap (root p) (sym (at j)))
          (λ j e. root-top p j (ground (arith, at j, f i, f (parent p i), e))),
    )

find_from-IsSame :
    (rounds i : ℕ) (p : Parents)
    → IsForest p
    → i < length p
    → i < rounds
    → (q : Parents) × (find_from rounds i p ≡ some (root p i, q)) × IsSame p q
unfolding find_from
find_from-IsSame zero i p f h enough = absurd (omega arith)
find_from-IsSame (suc rounds) i p f h enough = elim (Bool-cases (parent p i == i)) [
  | inl top ↦
      let e = (==_iff (parent p i) i).0 top in (p, simp (top, root-top p i e), (f, refl, λ j. refl))
  | inr lower ↦
      let up = parent p (parent p i) in
      let below : up < i = ground (arith, f i, f (parent p i)) in
      let (forest, size, same) = halving-IsSame p i f h in
      let (q, found, (forest', size', same')) =
        find_from-IsSame rounds up (set p i up) forest (omega arith) (omega arith) in
      let up_to : root (set p i up) up ≡ root p i =
        same up ∙ sym (root-parent p i f ∙ root-parent p (parent p i) f) in
      (
        q,
        simp lower (found ∙ ap (λ r. some (r, q)) up_to),
        (forest', size' ∙ size, λ j. same' j ∙ same j),
      )
]

-- For an index in range `find` returns the root of its tree and keeps the root of every node.
pub find-IsSame :
    (i : ℕ) (p : Parents)
    → IsForest p
    → i < length p
    → (q : Parents) × (find i p ≡ some (root p i, q)) × IsSame p q
unfolding find
find-IsSame i p f h = find_from-IsSame (suc i) i p f h (omega arith)

-- The roots after one root is put under another.
abbrev pub merged : ℕ → ℕ → ℕ → ℕ
merged hi lo r = if r == hi then lo else r

hang-root :
    (p : Parents) (hi lo : ℕ)
    → IsForest p
    → hi < length p
    → lo < hi
    → parent p hi ≡ hi
    → parent p lo ≡ lo
    → IsForest (set p hi lo) × ((j : ℕ) → root (set p hi lo) j ≡ merged hi lo (root p j))
hang-root p hi lo f h l top_hi top_lo =
    let at = λ (j : ℕ). parent-set p hi j lo h in
    let forest : IsForest (set p hi lo) = λ j. ground (arith, at j, f j) in
    (
      forest,
      root_unique (set p hi lo) (λ j. merged hi lo (root p j)) forest
          (λ j. constant j ∙ ap (λ k. merged hi lo (root p k)) (sym (at j)))
          (λ j e. ground (arith, at j, root-top p j)),
    )
  where
    constant :
        (j : ℕ)
        → merged hi lo (root p j) ≡ merged hi lo (root p (if hi == j then lo else parent p j))
    constant j = elim (Bool-cases (hi == j)) [
      | inl same ↦
          let e = (==_iff hi j).0 same in
          rw same (ground (arith, root-top p hi top_hi, root-top p lo top_lo, ap (root p) e))
      | inr other ↦ rw other (ap (merged hi lo) (root-parent p j f))
    ]

attach-root :
    (p : Parents) (a b : ℕ)
    → IsForest p
    → a < length p
    → b < length p
    → parent p a ≡ a
    → parent p b ≡ b
    → IsForest (attach a b p)
      × (length (attach a b p) ≡ length p)
      × ((j : ℕ) → root (attach a b p) j ≡ merged (max a b) (min a b) (root p j))
unfolding attach
attach-root p a b f ha hb ta tb = elim (Bool-cases (a == b)) [
  | inl same ↦ rw same (f, refl, λ j. ground (arith, (==_iff a b).0 same))
  | inr apart ↦ elim (Bool-cases (ltb a b)) [
    | inl less ↦
        let (forest, roots) = hang-root p b a f hb (ltb→lt a b less) tb ta in
        rw (apart, less) (forest, length-set p b a, λ j. roots j ∙ ground (arith, ltb→lt a b less))
    | inr more ↦
        let (forest, roots) = hang-root p a b f ha (ground arith) ta tb in
        rw (apart, more) (forest, length-set p a b, λ j. roots j ∙ ground arith)
  ]
]

-- The roots of two nodes that `union` brings together.
abbrev pub joined : Parents → ℕ → ℕ → ℕ → ℕ
joined p a b r = merged (max (root p a) (root p b)) (min (root p a) (root p b)) r

union-found :
    (a b ra rb : ℕ) (p q r : Parents)
    → find a p ≡ some (ra, q)
    → find b q ≡ some (rb, r)
    → union a b p ≡ some (attach ra rb r)
unfolding union
union-found a b ra rb p q r ea eb = rw (union, ea, eb) refl

root-stays : (p q : Parents) (i : ℕ) → IsSame p q → parent q (root p i) ≡ root p i
root-stays p q i (f, _, same) = subst (λ k. parent q k ≡ k) (same i) (root-fixed q i f)

-- For indexes in range `union` replaces the greater of the two roots by the smaller one.
pub union-root :
    (a b : ℕ) (p : Parents)
    → IsForest p
    → a < length p
    → b < length p
    → (q : Parents) × (union a b p ≡ some q)
      × IsForest q
      × (length q ≡ length p)
      × ((j : ℕ) → root q j ≡ joined p a b (root p j))
unfolding union
union-root a b p f ha hb =
    let (q, found_a, (fq, lq, sq)) = find-IsSame a p f ha in
    let (r, found_b, (fr, lr, sr)) = find-IsSame b q fq (omega arith) in
    let both : IsSame p r = (fr, lr ∙ lq, λ j. sr j ∙ sq j) in
    let (forest, size, roots) =
      attach-root r (root p a) (root p b) fr (omega (arith, lr ∙ lq, root-le p a f, ha))
        (omega (arith, lr ∙ lq, root-le p b f, hb)) (root-stays p r a both)
        (root-stays p r b both) in
    (
      attach (root p a) (root p b) r,
      union-found a b (root p a) (root p b) p q r found_a (found_b ∙ ap (λ k. some (k, r)) (sq b)),
      forest,
      size ∙ lr ∙ lq,
      λ j. roots j ∙ ap (joined p a b) (sr j ∙ sq j),
    )
