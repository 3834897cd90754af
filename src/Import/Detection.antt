-- ===== src/Import/Detection.antt =====
-- packages/core/src/import/ImportDuplicateClusterDetector.ts: `detectDuplicateClusters` as a whole.
use mathlib.Core.Path.{subst}
use zk_payroll_sdk.Prelude.{
  ℕ, suc, ◌≤◌, ◌<◌, leb, true, Bool-cases, some, List, [], ◌∷◌, map, length, All, ◌≡◌, ◌≢◌, ◌↔◌,
  refl, sym, ◌∙◌, inl, inr, arith, le→leb,
}
use zk_payroll_sdk.Prelude.Arrays.{sort_with-All, sort_with-Any, Any}
use zk_payroll_sdk.Import.UnionFind.{Parents, singletons}
use zk_payroll_sdk.Import.Forest.{root}
use zk_payroll_sdk.Import.Components.{IsConnected, IsSibling, union_all-IsConnected}
use zk_payroll_sdk.Import.Evidence.{ImportEmployeeRecord, DuplicateMatchEvidence, Platform, Groups}
use zk_payroll_sdk.Import.Detector.{
  DuplicateClusterOptions, DuplicateCluster, ImportDuplicateAnalysis, has, keep_first, large_enough,
  pending, clusters_from, build_clusters, all_evidence, analysis_of, smallest_cluster,
  detect_duplicate_clusters,
}
use zk_payroll_sdk.Import.Ranges.{all_evidence-AreRows}
use zk_payroll_sdk.Import.Grouping.{AreClasses, HasKey, AreGroupsOf}
use zk_payroll_sdk.Import.Clusters.{
  ends, unite_lem, ends-AreInRange, group_by_root-AreGroupsOf, IsReported, large_enough-IsReported,
  has-sort_with, clusters_from-IsReported,
}

-- Two rows of one class of two rows or more.
abbrev pub HasBoth : ℕ → ℕ → List ℕ → Type 0
HasBoth x y is = (has is x ≡ true) × (has is y ≡ true)

length-HasBoth : (x y : ℕ) (is : List ℕ) → x ≢ y → HasBoth x y is → 2 ≤ length is
length-HasBoth x y [] apart (hx, hy) = absurd (ground (arith, hx))
length-HasBoth x y (z ∷ []) apart (hx, hy) = absurd (apart (ground (arith, hx, hy)))
length-HasBoth x y (z ∷ w ∷ is) apart h = omega arith

large_enough-HasBoth :
    (n x y : ℕ) (p : Parents) (groups : Groups ℕ)
    → x ≢ y
    → x < n
    → y < n
    → IsSibling p x y
    → AreClasses (root p) n groups
    → HasKey (root p x) groups
    → Any (HasBoth x y) (large_enough 2 (map (λ g. g.1) groups))
large_enough-HasBoth n x y p [] apart lx ly same h key = absurd key
large_enough-HasBoth n x y p ((k, is) ∷ groups) apart lx ly same (c, _, h) (inl e) =
    let both : HasBoth x y is = (ground (arith, c x, e, lx), ground (arith, c y, e, ly, same)) in
    rw (le→leb 2 (length is) (length-HasBoth x y is apart both)) (inl both)
large_enough-HasBoth n x y p ((k, is) ∷ groups) apart lx ly same (c, _, h) (inr key) =
    let rest = large_enough-HasBoth n x y p groups apart lx ly same h key in
    elim (Bool-cases (leb 2 (length is))) [
      | inl large ↦ rw large (inr rest)
      | inr small ↦ rw small rest
    ]

clusters_from-HasBoth :
    (x y : ℕ) (kept : List DuplicateMatchEvidence) (ordinal : ℕ) (groups : List (List ℕ))
    → Any (HasBoth x y) groups
    → Any
        (λ (c : DuplicateCluster). HasBoth x y (c.member_indices))
        (clusters_from kept ordinal groups)
clusters_from-HasBoth x y kept ordinal [] h = h
clusters_from-HasBoth x y kept ordinal (is ∷ groups) (inl (hx, hy)) =
    inl (has-sort_with is x ∙ hx, has-sort_with is y ∙ hy)
clusters_from-HasBoth x y kept ordinal (is ∷ groups) (inr h) =
    inr (clusters_from-HasBoth x y kept (suc ordinal) groups h)

detect-found :
    (platform : Platform) (options : DuplicateClusterOptions) (records : List ImportEmployeeRecord)
    → (p : Parents) × (groups : Groups ℕ) × (detect_duplicate_clusters platform options records
        ≡ some (
            analysis_of (length records) (
              clusters_from
                (keep_first [] (all_evidence platform options records))
                0
                (pending (smallest_cluster options) groups))))
      × AreGroupsOf (root p) (length records) groups
      × ((x y : ℕ)
          → IsSibling p x y ↔ IsConnected (ends (all_evidence platform options records)) x y)
unfolding detect_duplicate_clusters build_clusters
detect-found platform options records =
    let n = length records in
    let found = all_evidence platform options records in
    let (p, united, forest, size, same) =
      union_all-IsConnected n (ends found)
        (ends-AreInRange n found (all_evidence-AreRows platform options records)) in
    let (groups, grouped, classes) =
      group_by_root-AreGroupsOf (root p) n 0 p [] forest (λ j. refl) (omega (arith, size))
        (tt, λ y l. absurd (omega arith)) in
    (
      p,
      groups,
      rw (detect_duplicate_clusters, unite_lem found (singletons n) ∙ united)
          (rw (build_clusters, grouped) refl),
      subst (λ k. AreGroupsOf (root p) k groups) (omega arith) classes,
      same,
    )

-- The detection ends. The rows of every cluster are as many as the option says, two at least, and
-- they are exactly the rows of the input that the evidence connects with one row.
pub detect_duplicate_clusters-IsComponent :
    (platform : Platform) (options : DuplicateClusterOptions) (records : List ImportEmployeeRecord)
    → (a : ImportDuplicateAnalysis) × (detect_duplicate_clusters platform options records ≡ some a)
      × All
          (λ (c : DuplicateCluster).
            IsReported
              (length records)
              (ends (all_evidence platform options records))
              (smallest_cluster options)
              (c.member_indices))
          (a.clusters)
detect_duplicate_clusters-IsComponent platform options records =
    let (p, groups, done, (classes, cover), same) = detect-found platform options records in
    (
      _,
      done,
      clusters_from-IsReported _ _ _ _ 0 _ (
          sort_with-All _ _ _ (
            large_enough-IsReported (length records) (smallest_cluster options) p _ groups
              (ground arith) same classes)),
    )

-- Two different rows of the input that the evidence connects are in one cluster, when no option asks
-- for clusters of more than two rows.
pub detect_duplicate_clusters_together :
    (platform : Platform) (options : DuplicateClusterOptions) (records : List ImportEmployeeRecord)
    (x y : ℕ)
    → smallest_cluster options ≡ 2
    → x ≢ y
    → x < length records
    → y < length records
    → IsConnected (ends (all_evidence platform options records)) x y
    → (a : ImportDuplicateAnalysis) × (detect_duplicate_clusters platform options records ≡ some a)
      × Any (λ (c : DuplicateCluster). HasBoth x y (c.member_indices)) (a.clusters)
detect_duplicate_clusters_together platform options records x y two apart lx ly walk =
    let (p, groups, done, (classes, cover), same) = detect-found platform options records in
    (
      _,
      done,
      clusters_from-HasBoth x y _ 0 _ (
          sort_with-Any _ _ _ (
            subst (λ m. Any (HasBoth x y) (large_enough m (map (λ g. g.1) groups))) (sym two)
              (large_enough-HasBoth (length records) x y p groups apart lx ly ((same x y).1 walk)
                classes (cover x lx)))),
    )
