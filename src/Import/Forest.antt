-- ===== src/Import/Forest.antt =====
-- packages/core/src/import/ImportDuplicateClusterDetector.ts: the trees of UnionFind.
use mathlib.Core.Path.{subst}
use zk_payroll_sdk.Prelude.{
  ℕ, zero, suc, ◌≤◌, ◌<◌, ◌==◌, ◌≡◌, refl, sym, ◌∙◌, inl, inr, Bool-cases, arith, ==_iff,
}
use zk_payroll_sdk.Import.UnionFind.{Parents, parent}

-- Parents stand before their children, or at the same place.
abbrev pub IsForest : Parents → Type 0
IsForest p = (i : ℕ) → parent p i ≤ i

-- The node that is reached after so many steps up.
abbrev pub climb : ℕ → Parents → ℕ → ℕ
climb zero p i = i
climb (suc n) p i = climb n p (parent p i)

-- The root of a node's tree.
abbrev pub root : Parents → ℕ → ℕ
root p i = climb i p i

climb-root : (n : ℕ) (p : Parents) (i : ℕ) → parent p i ≡ i → climb n p i ≡ i
climb-root zero p i h = refl
climb-root (suc n) p i h = rw h (climb-root n p i h)

-- As many steps as the index are enough.
climb_enough :
    (n m : ℕ) (p : Parents) (i : ℕ) → IsForest p → i ≤ n → i ≤ m → climb n p i ≡ climb m p i
climb_enough zero zero p i f h k = refl
climb_enough zero (suc m) p i f h k = sym (climb-root (suc m) p i (omega (arith, f i)))
climb_enough (suc n) zero p i f h k = climb-root (suc n) p i (omega (arith, f i))
climb_enough (suc n) (suc m) p i f h k = elim (Bool-cases (parent p i == i)) [
  | inl top ↦
      let e = (==_iff (parent p i) i).0 top in
      climb-root (suc n) p i e ∙ sym (climb-root (suc m) p i e)
  | inr lower ↦
      let l : parent p i < i = ground (arith, f i) in
      climb_enough n m p (parent p i) f (omega arith) (omega arith)
]

pub root-parent : (p : Parents) (i : ℕ) → IsForest p → root p i ≡ root p (parent p i)
root-parent p i f =
    climb_enough i (suc i) p i f (omega arith) (omega arith)
    ∙ climb_enough i (parent p i) p (parent p i) f (f i) (omega arith)

climb-fixed :
    (n : ℕ) (p : Parents) (i : ℕ) → IsForest p → i ≤ n → parent p (climb n p i) ≡ climb n p i
climb-fixed zero p i f h = omega (arith, f i)
climb-fixed (suc n) p i f h = elim (Bool-cases (parent p i == i)) [
  | inl top ↦
      let e = (==_iff (parent p i) i).0 top in
      subst (λ r. parent p r ≡ r) (sym (climb-root (suc n) p i e)) e
  | inr lower ↦
      let l : parent p i < i = ground (arith, f i) in climb-fixed n p (parent p i) f (omega arith)
]

-- The root of a tree is its own parent.
pub root-fixed : (p : Parents) (i : ℕ) → IsForest p → parent p (root p i) ≡ root p i
root-fixed p i f = climb-fixed i p i f (omega arith)

pub root-top : (p : Parents) (i : ℕ) → parent p i ≡ i → root p i ≡ i
root-top p i h = climb-root i p i h

climb-le : (n : ℕ) (p : Parents) (i : ℕ) → IsForest p → climb n p i ≤ i
climb-le zero p i f = omega arith
climb-le (suc n) p i f = omega (arith, climb-le n p (parent p i) f, f i)

pub root-le : (p : Parents) (i : ℕ) → IsForest p → root p i ≤ i
root-le p i f = climb-le i p i f

climb-constant :
    (n : ℕ) (p : Parents) (g : ℕ → ℕ) (i : ℕ)
    → ((j : ℕ) → g j ≡ g (parent p j))
    → g i ≡ g (climb n p i)
climb-constant zero p g i h = refl
climb-constant (suc n) p g i h = h i ∙ climb-constant n p g (parent p i) h

-- The root is the only function that is constant along the trees and keeps their roots.
pub root_unique :
    (p : Parents) (g : ℕ → ℕ)
    → IsForest p
    → ((j : ℕ) → g j ≡ g (parent p j))
    → ((j : ℕ) → parent p j ≡ j → g j ≡ j)
    → (i : ℕ) → root p i ≡ g i
root_unique p g f constant keeps i =
    sym (climb-constant i p g i constant ∙ keeps (root p i) (root-fixed p i f))
