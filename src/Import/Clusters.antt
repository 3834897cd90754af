-- ===== src/Import/Clusters.antt =====
-- packages/core/src/import/ImportDuplicateClusterDetector.ts: the clusters against the rows that the
-- evidence connects.
use mathlib.Core.Path.{subst}
use zk_payroll_sdk.Prelude.{
  ℕ, zero, suc, ◌+◌, ◌≤◌, ◌<◌, ◌==◌, leb, true, ◌||◌, Bool-cases, some, Option-cases, List, [], ◌∷◌,
  map, length, All, ◌≡◌, ◌↔◌, refl, sym, ap, ◌∙◌, inl, inr, arith,
}
use zk_payroll_sdk.Prelude.Arrays.{insert_with, sort_with, length-sort_with}
use zk_payroll_sdk.Import.UnionFind.{Parents, union, find}
use zk_payroll_sdk.Import.Forest.{IsForest, root}
use zk_payroll_sdk.Import.Merging.{find-IsSame}
use zk_payroll_sdk.Import.Components.{union_all, IsConnected, IsSibling, AreInRange}
use zk_payroll_sdk.Import.Evidence.{DuplicateMatchEvidence, Groups, push_to_group}
use zk_payroll_sdk.Import.Detector.{
  DuplicateCluster, has, unite, group_by_root, large_enough, clusters_from,
}
use zk_payroll_sdk.Import.Ranges.{AreRows}
use zk_payroll_sdk.Import.Grouping.{IsClass, AreClasses, AreGroupsOf, push-AreGroupsOf}

-- The pairs of rows of the evidence.
abbrev pub ends : List DuplicateMatchEvidence → List (ℕ × ℕ)
ends es = map (λ (e : DuplicateMatchEvidence). (e.left_index, e.right_index)) es

pub unite_lem :
    (es : List DuplicateMatchEvidence) (p : Parents) → unite es p ≡ union_all (ends es) p
unfolding unite union_all
unite_lem [] p = refl
unite_lem (e ∷ es) p = elim (Option-cases (union (e.left_index) (e.right_index) p)) [
  | inl stuck ↦ rw (unite, union_all, stuck) refl
  | inr (q, united) ↦ rw (unite, union_all, united) (unite_lem es q)
]

pub ends-AreInRange :
    (n : ℕ) (es : List DuplicateMatchEvidence) → AreRows n es → AreInRange n (ends es)
ends-AreInRange n [] h = tt
ends-AreInRange n (e ∷ es) (h, hs) = (h, ends-AreInRange n es hs)

group_by_root-step :
    (left i r : ℕ) (p q : Parents) (groups : Groups ℕ)
    → find i p ≡ some (r, q)
    → group_by_root (suc left) i p groups
      ≡ group_by_root left (suc i) q (push_to_group ◌==◌ r i groups)
unfolding group_by_root
group_by_root-step left i r p q groups e = rw (group_by_root, e) refl

-- The loop returns the rows grouped by their roots, which `find` keeps.
pub group_by_root-AreGroupsOf :
    (f : ℕ → ℕ) (left i : ℕ) (p : Parents) (groups : Groups ℕ)
    → IsForest p
    → ((j : ℕ) → root p j ≡ f j)
    → i + left ≤ length p
    → AreGroupsOf f i groups
    → (out : Groups ℕ) × (group_by_root left i p groups ≡ some out) × AreGroupsOf f (i + left) out
unfolding group_by_root
group_by_root-AreGroupsOf f zero i p groups forest roots size h =
    (groups, refl, subst (λ n. AreGroupsOf f n groups) (omega arith) h)
group_by_root-AreGroupsOf f (suc left) i p groups forest roots size h =
    let (q, found, (forest', size', same)) = find-IsSame i p forest (omega arith) in
    let at : find i p ≡ some (f i, q) = found ∙ ap (λ r. some (r, q)) (roots i) in
    let (out, done, groups') =
      group_by_root-AreGroupsOf f left (suc i) q (push_to_group ◌==◌ (f i) i groups) forest'
        (λ j. same j ∙ roots j) (omega arith) (push-AreGroupsOf f i groups h) in
    (
      out,
      group_by_root-step left i (f i) p q groups at ∙ done,
      subst (λ n. AreGroupsOf f n out) (omega arith) groups',
    )

-- The rows of a list are those that are connected with one of them.
abbrev pub IsComponent : ℕ → List (ℕ × ℕ) → List ℕ → Type 0
IsComponent n es is = (r : ℕ) × ((y : ℕ) → (has is y ≡ true) ↔ ((y < n) × IsConnected es r y))

abbrev pub IsReported : ℕ → List (ℕ × ℕ) → ℕ → List ℕ → Type 0
IsReported n es min_size is = IsComponent n es is × (min_size ≤ length is)

-- A class of a forest is what the pairs connect with its first row.
IsClass-IsComponent :
    (n k : ℕ) (p : Parents) (es : List (ℕ × ℕ)) (is : List ℕ)
    → ((x y : ℕ) → IsSibling p x y ↔ IsConnected es x y)
    → IsClass (root p) n k is
    → 1 ≤ length is
    → IsComponent n es is
IsClass-IsComponent n k p es [] same h size = absurd (omega arith)
IsClass-IsComponent n k p es (x ∷ is) same h size =
    let here : root p x ≡ k = ground (arith, h x) in
    (
      x,
      λ y. (
        λ member.
            (ground (arith, h y, member), (same x y).0 (here ∙ sym (ground (arith, h y, member)))),
        λ (below, walk).
            let e : root p y ≡ k = sym ((same x y).1 walk) ∙ here in ground (arith, h y, e, below),
      ),
    )

pub large_enough-IsReported :
    (n min_size : ℕ) (p : Parents) (es : List (ℕ × ℕ)) (groups : Groups ℕ)
    → 1 ≤ min_size
    → ((x y : ℕ) → IsSibling p x y ↔ IsConnected es x y)
    → AreClasses (root p) n groups
    → All (IsReported n es min_size) (large_enough min_size (map (λ g. g.1) groups))
large_enough-IsReported n min_size p es [] one same h = tt
large_enough-IsReported n min_size p es ((k, is) ∷ groups) one same (c, _, h) =
    let rest = large_enough-IsReported n min_size p es groups one same h in
    elim (Bool-cases (leb min_size (length is))) [
      | inl large ↦
          let size : min_size ≤ length is = ground (arith, large) in
          rw large ((IsClass-IsComponent n k p es is same c (omega arith), size), rest)
      | inr small ↦ rw small rest
    ]

has-insert_with :
    (x : ℕ) (xs : List ℕ) (y : ℕ) → has (insert_with leb x xs) y ≡ ((x == y) || has xs y)
has-insert_with x [] y = refl
has-insert_with x (z ∷ xs) y = ground (arith, has-insert_with x xs y)

pub has-sort_with : (xs : List ℕ) (y : ℕ) → has (sort_with leb xs) y ≡ has xs y
has-sort_with [] y = refl
has-sort_with (x ∷ xs) y =
    has-insert_with x (sort_with leb xs) y ∙ ap (λ b. (x == y) || b) (has-sort_with xs y)

IsReported-sort :
    (n min_size : ℕ) (es : List (ℕ × ℕ)) (is : List ℕ)
    → IsReported n es min_size is
    → IsReported n es min_size (sort_with leb is)
IsReported-sort n min_size es is ((r, h), size) = (
  (r, λ y. (λ m. (h y).0 (sym (has-sort_with is y) ∙ m), λ c. has-sort_with is y ∙ (h y).1 c)),
  omega (arith, length-sort_with leb is),
)

pub clusters_from-IsReported :
    (n min_size : ℕ) (es : List (ℕ × ℕ)) (kept : List DuplicateMatchEvidence) (ordinal : ℕ)
    (groups : List (List ℕ))
    → All (IsReported n es min_size) groups
    → All
        (λ (c : DuplicateCluster). IsReported n es min_size (c.member_indices))
        (clusters_from kept ordinal groups)
clusters_from-IsReported n min_size es kept ordinal [] h = tt
clusters_from-IsReported n min_size es kept ordinal (is ∷ groups) (h, hs) = (
  IsReported-sort n min_size es is h,
  clusters_from-IsReported n min_size es kept (suc ordinal) groups hs,
)
