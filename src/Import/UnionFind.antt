-- ===== src/Import/UnionFind.antt =====
-- packages/core/src/import/ImportDuplicateClusterDetector.ts: the class UnionFind. Its field `parent`
-- is the list of parents; the indexes that it is asked for are below its length.
use zk_payroll_sdk.Prelude.{ℕ, zero, suc, ◌==◌, ltb, List, Option, none, some, if◌then◌else◌}
use zk_payroll_sdk.Prelude.Arrays.{get_or, set, range}

abbrev pub Parents : Type 0
Parents = List ℕ

-- The constructor.
abbrev pub singletons : ℕ → Parents
singletons size = range 0 size

abbrev pub parent : Parents → ℕ → ℕ
parent p i = get_or p i i

-- The loop of `find`, with the number of rounds it may make; none is running out of them. A round
-- sets the parent of a node to its grandparent and goes there.
unfoldable pub find_from : ℕ → ℕ → Parents → Option (ℕ × Parents)
find_from zero current p = none
find_from (suc rounds) current p =
    let grandparent = parent p (parent p current) in
    let rest = find_from rounds grandparent (set p current grandparent) in
    if parent p current == current then some (current, p) else rest

-- A node has at most as many ancestors as its index.
unfoldable pub find : ℕ → Parents → Option (ℕ × Parents)
unfolding find_from
find i p = find_from (suc i) i p

unfoldable pub attach : ℕ → ℕ → Parents → Parents
attach root_a root_b p =
    if root_a == root_b
    then p
    else if ltb root_a root_b
    then set p root_b root_a
    else set p root_a root_b

unfoldable pub union : ℕ → ℕ → Parents → Option Parents
unfolding find attach
union a b p = elim (find a p) [
  | none ↦ none
  | some (root_a, q) ↦ elim (find b q) [
    | none ↦ none
    | some (root_b, r) ↦ some (attach root_a root_b r)
  ]
]
