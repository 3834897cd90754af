-- ===== src/Import/Tests.antt =====
-- packages/core/src/import/: the detector and the edit distance on small inputs.
use Prim.Native.String.{String}
use mathlib.Core.Path.{subst}
use zk_payroll_sdk.Prelude.{
  ℕ, Option, none, some, List, [], ◌∷◌, map, length, All, ◌≡◌, ◌↔◌, refl, inl, inr, arith,
}
use mathlib.Core.Path.{sym}
use zk_payroll_sdk.Prelude.Arrays.{Any}
use zk_payroll_sdk.Import.UnionFind.{Parents, singletons}
use zk_payroll_sdk.Import.Forest.{IsForest}
use zk_payroll_sdk.Import.Components.{
  union_all, IsSibling, IsConnected, pair, through, union_all-IsConnected,
}
use zk_payroll_sdk.Import.Fuzzy.{levenshtein_distance, normalize_identifier, names_are_similar}
use zk_payroll_sdk.Prelude.Text.{trim}
use zk_payroll_sdk.Import.Collection.{collect_identity_evidence, normalized_groups, name_evidence}
use zk_payroll_sdk.Import.Distance.{edit_distance, reverse_onto, levenshtein_distance-edit_distance}
use zk_payroll_sdk.Import.Evidence.{ImportEmployeeRecord, Platform, DuplicateConfidence, high}
use zk_payroll_sdk.Import.Detector.{
  DuplicateClusterOptions, DuplicateCluster, ImportDuplicateAnalysis, detect_duplicate_clusters,
  all_evidence,
}
use zk_payroll_sdk.Import.Clusters.{ends, IsReported}
use zk_payroll_sdk.Import.Detection.{
  HasBoth, detect_duplicate_clusters-IsComponent, detect_duplicate_clusters_together,
}

-- A platform that lowers one text.
abbrev plain : Platform
plain = record {
  lower =
      λ s. elim (Prim.Native.String.compare s "A1") [ Prim.Native.Nat.Ordering.eq ↦ "a1" | _ ↦ s ];
  print = λ a. "1";
}

abbrev usual : DuplicateClusterOptions
usual = record {
  fuzzy_name_threshold = none;
  treat_normalized_as_exact = none;
  min_cluster_size = none;
}

abbrev worker : Option String → Option String → Option String → ImportEmployeeRecord
worker id wallet name = record {
  employee_id = id;
  wallet_address = wallet;
  email_hash = none;
  external_id = none;
  name = name;
  department = none;
  salary = none;
  asset = none;
}

-- The first and the third row share a wallet, the third and the fourth an employee id.
abbrev rows : List ImportEmployeeRecord
rows =
    worker (some "E1") (some "G1") none
    ∷ worker (some "E2") (some "G2") none
    ∷ worker (some "E3") (some "G1") none
    ∷ worker (some "E3") none none
    ∷ []

abbrev members : Option ImportDuplicateAnalysis → List (List ℕ)
members none = []
members (some a) = map (λ (c : DuplicateCluster). c.member_indices) (a.clusters)

rows_clusters : members (detect_duplicate_clusters plain usual rows) ≡ (0 ∷ 2 ∷ 3 ∷ []) ∷ []
unfolding detect_duplicate_clusters all_evidence collect_identity_evidence trim normalized_groups
    normalize_identifier name_evidence names_are_similar
rows_clusters = refl

rows_evidence : ends (all_evidence plain usual rows) ≡ (2, 3) ∷ (0, 2) ∷ []
unfolding all_evidence collect_identity_evidence trim normalized_groups normalize_identifier
    name_evidence names_are_similar
rows_evidence = refl

detect_duplicate_clusters-IsComponent_example :
    (a : ImportDuplicateAnalysis) × (detect_duplicate_clusters plain usual rows ≡ some a)
    × All
        (λ (c : DuplicateCluster).
          IsReported 4 (ends (all_evidence plain usual rows)) 2 (c.member_indices))
        (a.clusters)
detect_duplicate_clusters-IsComponent_example =
    detect_duplicate_clusters-IsComponent plain usual rows

rows_walk : IsConnected (ends (all_evidence plain usual rows)) 0 3
rows_walk =
    subst (λ es. IsConnected es 0 3) (sym rows_evidence)
      (through 0 2 3 (pair 0 2 (inr (inl (refl, refl)))) (pair 2 3 (inl (refl, refl))))

detect_duplicate_clusters_together_example :
    (a : ImportDuplicateAnalysis) × (detect_duplicate_clusters plain usual rows ≡ some a)
    × Any (λ (c : DuplicateCluster). HasBoth 0 3 (c.member_indices)) (a.clusters)
detect_duplicate_clusters_together_example =
    detect_duplicate_clusters_together plain usual rows 0 3 (omega arith)
      (λ e. absurd (omega arith)) (omega arith) (omega arith) rows_walk

abbrev links : List (ℕ × ℕ)
links = (1, 4) ∷ (2, 3) ∷ (4, 2) ∷ []

union_all-IsConnected_example :
    (q : Parents) × (union_all links (singletons 5) ≡ some q)
    × IsForest q
    × (length q ≡ 5)
    × ((x y : ℕ) → IsSibling q x y ↔ IsConnected links x y)
union_all-IsConnected_example =
    union_all-IsConnected 5 links
      ((omega arith, omega arith), ((omega arith, omega arith), ((omega arith, omega arith), tt)))

links_united : union_all links (singletons 5) ≡ some (0 ∷ 1 ∷ 1 ∷ 2 ∷ 1 ∷ [])
unfolding union_all
links_united = refl

-- "kitten" and "fitting".
abbrev kitten : List ℕ
kitten = 107 ∷ 105 ∷ 116 ∷ 116 ∷ 101 ∷ 110 ∷ []

abbrev fitting : List ℕ
fitting = 102 ∷ 105 ∷ 116 ∷ 116 ∷ 105 ∷ 110 ∷ 103 ∷ []

kitten_distance : levenshtein_distance kitten fitting ≡ 3
unfolding levenshtein_distance
kitten_distance = refl

levenshtein_distance-edit_distance_example :
    levenshtein_distance kitten fitting
    ≡ edit_distance (reverse_onto kitten []) (reverse_onto fitting [])
levenshtein_distance-edit_distance_example = levenshtein_distance-edit_distance kitten fitting

-- Two rows with ids that differ in case and with one wallet: the weaker match of the ids counts.
abbrev close_rows : List ImportEmployeeRecord
close_rows = worker (some "A1") (some "G1") none ∷ worker (some "a1") (some "G1") none ∷ []

abbrev confidences : Option ImportDuplicateAnalysis → List DuplicateConfidence
confidences none = []
confidences (some a) = map (λ (c : DuplicateCluster). c.confidence) (a.clusters)

weaker_evidence_is_kept : confidences (detect_duplicate_clusters plain usual close_rows) ≡ high ∷ []
unfolding detect_duplicate_clusters all_evidence collect_identity_evidence trim normalized_groups
    normalize_identifier name_evidence names_are_similar
weaker_evidence_is_kept = refl
