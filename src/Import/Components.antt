-- ===== src/Import/Components.antt =====
-- packages/core/src/import/ImportDuplicateClusterDetector.ts: after any unions, two nodes have one root
-- exactly when the pairs that were united connect them.
use zk_payroll_sdk.Prelude.{
  ℕ, ◌<◌, ltb, ltb→lt, not_ltb→le, min, max, List, [], ◌∷◌, Option, none, some, ◌≡◌, refl, sym, ap,
  ◌∙◌, ◌⊎◌, ◌↔◌, inl, inr, Bool-cases, length, All, arith,
}
use zk_payroll_sdk.Prelude.Arrays.{range, length-range, get_or-range, get_or_out}
use zk_payroll_sdk.Import.UnionFind.{Parents, singletons, parent, union}
use zk_payroll_sdk.Import.Forest.{IsForest, root, root-top}
use zk_payroll_sdk.Import.Merging.{merged, joined, union-root}

-- The unions of a list of pairs, one after the other.
unfoldable pub union_all : List (ℕ × ℕ) → Parents → Option Parents
unfolding union
union_all [] p = some p
union_all ((a, b) ∷ es) p = elim (union a b p) [ none ↦ none | some q ↦ union_all es q ]

abbrev pub IsPair : List (ℕ × ℕ) → ℕ → ℕ → Type 0
IsPair [] x y = ⊥
IsPair ((a, b) ∷ es) x y = ((x ≡ a) × (y ≡ b)) ⊎ IsPair es x y

-- The equivalence that a relation and the pairs of a list generate.
pub data Joined (R : ℕ → ℕ → Type 0) (es : List (ℕ × ℕ)) : ℕ → ℕ → Type 0 where
  base : (x y : ℕ) → R x y → Joined R es x y
  pair : (x y : ℕ) → IsPair es x y → Joined R es x y
  back : (x y : ℕ) → Joined R es x y → Joined R es y x
  through : (x y z : ℕ) → Joined R es x y → Joined R es y z → Joined R es x z

-- Two nodes are equal, or a walk along pairs leads from one to the other.
abbrev pub IsConnected : List (ℕ × ℕ) → ℕ → ℕ → Type 0
IsConnected es = Joined (λ x y. x ≡ y) es

-- Nodes with one root.
abbrev pub IsSibling : Parents → ℕ → ℕ → Type 0
IsSibling p x y = root p x ≡ root p y

Joined-mono :
    (R S : ℕ → ℕ → Type 0) (es : List (ℕ × ℕ)) {x y : ℕ}
    → ((i j : ℕ) → R i j → S i j)
    → Joined R es x y
    → Joined S es x y
Joined-mono R S es f (base x y r) = base x y (f x y r)
Joined-mono R S es f (pair x y e) = pair x y e
Joined-mono R S es f (back x y j) = back x y (Joined-mono R S es f j)
Joined-mono R S es f (through x y z j k) =
    through x y z (Joined-mono R S es f j) (Joined-mono R S es f k)

Joined-nil : (p : Parents) {x y : ℕ} → Joined (IsSibling p) [] x y → IsSibling p x y
Joined-nil p (base x y r) = r
Joined-nil p (pair x y e) = absurd e
Joined-nil p (back x y j) = sym (Joined-nil p j)
Joined-nil p (through x y z j k) = Joined-nil p j ∙ Joined-nil p k

merged-ends : (ra rb : ℕ) → merged (max ra rb) (min ra rb) ra ≡ merged (max ra rb) (min ra rb) rb
merged-ends ra rb = ground arith

-- Once a pair is united, the trees say what the pair said.
joined-later :
    (p q : Parents) (a b : ℕ) (es : List (ℕ × ℕ)) {x y : ℕ}
    → ((j : ℕ) → root q j ≡ joined p a b (root p j))
    → Joined (IsSibling p) ((a, b) ∷ es) x y
    → Joined (IsSibling q) es x y
joined-later p q a b es roots (base x y r) =
    base x y (roots x ∙ ap (joined p a b) r ∙ sym (roots y))
joined-later p q a b es roots (pair x y (inl (ex, ey))) = base x y (
    roots x
    ∙ ap (λ k. joined p a b (root p k)) ex
    ∙ merged-ends (root p a) (root p b)
    ∙ sym (ap (λ k. joined p a b (root p k)) ey)
    ∙ sym (roots y))
joined-later p q a b es roots (pair x y (inr e)) = pair x y e
joined-later p q a b es roots (back x y j) = back x y (joined-later p q a b es roots j)
joined-later p q a b es roots (through x y z j k) =
    through x y z (joined-later p q a b es roots j) (joined-later p q a b es roots k)

merged-cases :
    (ra rb rx ry : ℕ)
    → merged (max ra rb) (min ra rb) rx ≡ merged (max ra rb) (min ra rb) ry
    → (rx ≡ ry) ⊎ (((rx ≡ ra) × (rb ≡ ry)) ⊎ ((rx ≡ rb) × (ra ≡ ry)))
merged-cases ra rb rx ry h = ground arith

joined-earlier :
    (p q : Parents) (a b : ℕ) (es : List (ℕ × ℕ)) {x y : ℕ}
    → ((j : ℕ) → root q j ≡ joined p a b (root p j))
    → Joined (IsSibling q) es x y
    → Joined (IsSibling p) ((a, b) ∷ es) x y
joined-earlier p q a b es roots (base x y r) =
    let link = pair a b (inl (refl, refl)) in
    elim (merged-cases (root p a) (root p b) (root p x) (root p y) (sym (roots x) ∙ r ∙ roots y)) [
      | inl same ↦ base x y same
      | inr (inl (to_a, of_b)) ↦ through x a y (base x a to_a) (through a b y link (base b y of_b))
      | inr (inr (to_b, of_a)) ↦
          through x b y (base x b to_b) (through b a y (back a b link) (base a y of_a))
    ]
joined-earlier p q a b es roots (pair x y e) = pair x y (inr e)
joined-earlier p q a b es roots (back x y j) = back x y (joined-earlier p q a b es roots j)
joined-earlier p q a b es roots (through x y z j k) =
    through x y z (joined-earlier p q a b es roots j) (joined-earlier p q a b es roots k)

-- The ends of pairs are nodes.
abbrev pub AreInRange : ℕ → List (ℕ × ℕ) → Type 0
AreInRange n es = All (λ (e : ℕ × ℕ). (e.0 < n) × (e.1 < n)) es

union_all-cons :
    (a b : ℕ) (es : List (ℕ × ℕ)) (p q : Parents)
    → union a b p ≡ some q
    → union_all ((a, b) ∷ es) p ≡ union_all es q
unfolding union_all
union_all-cons a b es p q e = rw (union_all, e) refl

union_all-Joined :
    (n : ℕ) (es : List (ℕ × ℕ)) (p : Parents)
    → IsForest p
    → length p ≡ n
    → AreInRange n es
    → (q : Parents) × (union_all es p ≡ some q)
      × IsForest q
      × (length q ≡ n)
      × ((x y : ℕ) → IsSibling q x y ↔ Joined (IsSibling p) es x y)
unfolding union_all
union_all-Joined n [] p f size h = (p, refl, f, size, λ x y. ((λ r. base x y r), Joined-nil p))
union_all-Joined n ((a, b) ∷ es) p f size ((ha, hb), h) =
    let (q, united, fq, sq, roots) = union-root a b p f (omega arith) (omega arith) in
    let (r, done, fr, sr, same) = union_all-Joined n es q fq (sq ∙ size) h in
    (
      r,
      union_all-cons a b es p q united ∙ done,
      fr,
      sr,
      λ x y. (
        λ s. joined-earlier p q a b es roots ((same x y).0 s),
        λ j. (same x y).1 (joined-later p q a b es roots j),
      ),
    )

parent-singletons : (n i : ℕ) → parent (singletons n) i ≡ i
parent-singletons n i = elim (Bool-cases (ltb i n)) [
  | inl inside ↦ omega (arith, get_or-range 0 n i i (ltb→lt i n inside))
  | inr outside ↦
      get_or_out (range 0 n) i i (omega (arith, length-range 0 n, not_ltb→le i n outside))
]

-- After uniting pairs of nodes one after the other, starting from nodes of their own, two nodes have
-- one root exactly when they are equal or a walk along the pairs leads from one to the other.
pub union_all-IsConnected :
    (n : ℕ) (es : List (ℕ × ℕ))
    → AreInRange n es
    → (q : Parents) × (union_all es (singletons n) ≡ some q)
      × IsForest q
      × (length q ≡ n)
      × ((x y : ℕ) → IsSibling q x y ↔ IsConnected es x y)
union_all-IsConnected n es h =
    let top = λ (i : ℕ). root-top (singletons n) i (parent-singletons n i) in
    let (q, united, forest, size, same) =
      union_all-Joined n es (singletons n) (λ i. omega (arith, parent-singletons n i))
        (length-range 0 n) h in
    (
      q,
      united,
      forest,
      size,
      λ x y. (
        λ s. Joined-mono _ _ es (λ i j e. sym (top i) ∙ e ∙ top j) ((same x y).0 s),
        λ c. (same x y).1 (Joined-mono _ _ es (λ i j e. top i ∙ e ∙ sym (top j)) c),
      ),
    )
