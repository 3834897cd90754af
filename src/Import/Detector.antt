-- ===== src/Import/Detector.antt =====
-- packages/core/src/import/ImportDuplicateClusterDetector.ts: the sink, the clusters and
-- `detectDuplicateClusters`. A cluster has its number in place of its printed id, and no previews.
use zk_payroll_sdk.Prelude.{
  ℕ, zero, suc, ◌+◌, ◌==◌, leb, ltb, max, Bool, false, ◌||◌, ◌&&◌, Option, none, some, List, [],
  ◌∷◌, ◌++◌, if◌then◌else◌, default, length, select, map,
}
use zk_payroll_sdk.Prelude.Arrays.{sort_with}
use zk_payroll_sdk.Import.UnionFind.{Parents, singletons, find, union}
use zk_payroll_sdk.Import.Evidence.{
  ImportEmployeeRecord, DuplicateConfidence, DuplicateReasonCode, DuplicateMatchEvidence, Platform,
  Groups, push_to_group, exact_confidence, high, medium, low, exact_employee_id,
  exact_wallet_address, exact_email_hash, exact_external_id, case_insensitive_employee_id,
  case_insensitive_wallet_address, case_insensitive_external_id, same_name_department_salary_asset,
  similar_name_same_department, similar_name_same_salary_asset, similar_name_only,
}
use zk_payroll_sdk.Import.Collection.{
  smallest, collect_identity_evidence, collect_fuzzy_name_evidence,
}

pub record DuplicateClusterOptions : Type 0 where
  pub fuzzy_name_threshold : Option ℕ
  pub treat_normalized_as_exact : Option Bool
  pub min_cluster_size : Option ℕ

pub record DuplicateCluster : Type 0 where
  pub id : ℕ
  pub member_indices : List ℕ
  pub confidence : DuplicateConfidence
  pub reasons : List DuplicateReasonCode
  pub evidence : List DuplicateMatchEvidence

pub record ImportDuplicateAnalysis : Type 0 where
  pub clusters : List DuplicateCluster
  pub total_records : ℕ
  pub duplicate_row_count : ℕ
  pub has_duplicates : Bool

abbrev pub confidence_rank : DuplicateConfidence → ℕ
confidence_rank exact_confidence = 3
confidence_rank high = 2
confidence_rank medium = 1
confidence_rank low = 0

-- The place of a reason code in the order of the code units.
abbrev reason_place : DuplicateReasonCode → ℕ
reason_place case_insensitive_employee_id = 0
reason_place case_insensitive_external_id = 1
reason_place case_insensitive_wallet_address = 2
reason_place exact_email_hash = 3
reason_place exact_employee_id = 4
reason_place exact_external_id = 5
reason_place exact_wallet_address = 6
reason_place same_name_department_salary_asset = 7
reason_place similar_name_only = 8
reason_place similar_name_same_department = 9
reason_place similar_name_same_salary_asset = 10

-- `set.has(i)` and `list.includes(i)` on numbers.
abbrev pub has : List ℕ → ℕ → Bool
has [] i = false
has (x ∷ xs) i = (x == i) || has xs i

-- The elements of a list that are not in a set yet, each of them once: `[...new Set(xs)]`.
abbrev pub distinct : List ℕ → List ℕ → List ℕ
distinct seen [] = []
distinct seen (x ∷ xs) =
    let known = distinct seen xs in
    let new = distinct (x ∷ seen) xs in if has seen x then known else x ∷ new

abbrev has_pair : List DuplicateMatchEvidence → ℕ → ℕ → Bool
has_pair [] a b = false
has_pair (e ∷ es) a b = ((e.left_index == a) && (e.right_index == b)) || has_pair es a b

-- The map of the sink, from pairs to their first evidence.
abbrev pub keep_first :
    List DuplicateMatchEvidence → List DuplicateMatchEvidence → List DuplicateMatchEvidence
keep_first kept [] = kept
keep_first kept (e ∷ es) =
    keep_first (if has_pair kept (e.left_index) (e.right_index) then kept else kept ++ (e ∷ [])) es

-- The unions of the sink.
unfoldable pub unite : List DuplicateMatchEvidence → Parents → Option Parents
unfolding union
unite [] p = some p
unite (e ∷ es) p = elim (union (e.left_index) (e.right_index) p) [
  | none ↦ none
  | some q ↦ unite es q
]

-- The first loop of `buildClusters`, over so many rows from an index on.
unfoldable pub group_by_root : ℕ → ℕ → Parents → Groups ℕ → Option (Groups ℕ)
unfolding find
group_by_root zero i p groups = some groups
group_by_root (suc left) i p groups = elim (find i p) [
  | none ↦ none
  | some (root, q) ↦ group_by_root left (suc i) q (push_to_group ◌==◌ root i groups)
]

abbrev pub large_enough : ℕ → List (List ℕ) → List (List ℕ)
large_enough min_size groups = select (λ is. leb min_size (length is)) groups

-- `pending`, in its order.
abbrev pub pending : ℕ → Groups ℕ → List (List ℕ)
pending min_size groups =
    sort_with (λ is js. leb (smallest is) (smallest js))
      (large_enough min_size (map (λ g. g.1) groups))

-- `compareEvidence` is not above 0; two entries of the map have different pairs, so that it does not
-- come to the fields and reasons.
abbrev evidence_before : DuplicateMatchEvidence → DuplicateMatchEvidence → Bool
evidence_before d e =
    if d.left_index == e.left_index
    then leb (d.right_index) (e.right_index)
    else leb (d.left_index) (e.left_index)

abbrev pub strongest : DuplicateConfidence → List DuplicateMatchEvidence → DuplicateConfidence
strongest c [] = c
strongest c (e ∷ es) =
    strongest (if ltb (confidence_rank c) (confidence_rank (e.confidence)) then e.confidence else c)
      es

-- Each reason once, in the order of the codes.
abbrev has_reason : List DuplicateReasonCode → DuplicateReasonCode → Bool
has_reason [] r = false
has_reason (s ∷ ss) r = (reason_place s == reason_place r) || has_reason ss r

abbrev distinct_reasons :
    List DuplicateReasonCode → List DuplicateReasonCode → List DuplicateReasonCode
distinct_reasons seen [] = []
distinct_reasons seen (r ∷ rs) =
    let known = distinct_reasons seen rs in
    let new = distinct_reasons (r ∷ seen) rs in if has_reason seen r then known else r ∷ new

abbrev pub inner_evidence : List ℕ → List DuplicateMatchEvidence → List DuplicateMatchEvidence
inner_evidence members kept =
    select
      (λ (e : DuplicateMatchEvidence). has members (e.left_index) && has members (e.right_index))
      kept

-- The cluster of a group of rows, by its place among the pending ones.
abbrev pub cluster_of : List DuplicateMatchEvidence → ℕ → List ℕ → DuplicateCluster
cluster_of kept ordinal members =
    let found = sort_with evidence_before (inner_evidence members kept) in
    record {
      id = ordinal + 1;
      member_indices = sort_with leb members;
      confidence = strongest low (inner_evidence members kept);
      reasons =
          sort_with (λ r s. leb (reason_place r) (reason_place s))
            (distinct_reasons [] (map (λ (e : DuplicateMatchEvidence). e.reason) found));
      evidence = found;
    }

abbrev pub clusters_from : List DuplicateMatchEvidence → ℕ → List (List ℕ) → List DuplicateCluster
clusters_from kept ordinal [] = []
clusters_from kept ordinal (members ∷ groups) =
    cluster_of kept ordinal members ∷ clusters_from kept (suc ordinal) groups

-- `buildClusters`
unfoldable pub build_clusters :
    ℕ → Parents → List DuplicateMatchEvidence → ℕ → Option (List DuplicateCluster)
unfolding group_by_root
build_clusters n p kept min_size = elim (group_by_root n 0 p []) [
  | none ↦ none
  | some groups ↦ some (clusters_from kept 0 (pending min_size groups))
]

-- The calls of the sink by both collectors.
unfoldable pub all_evidence :
    Platform → DuplicateClusterOptions → List ImportEmployeeRecord → List DuplicateMatchEvidence
all_evidence platform options records =
    collect_identity_evidence platform (default (options.treat_normalized_as_exact) false) records
    ++ collect_fuzzy_name_evidence platform (default (options.fuzzy_name_threshold) 2) records

abbrev all_members : List DuplicateCluster → List ℕ
all_members [] = []
all_members (c ∷ cs) = c.member_indices ++ all_members cs

abbrev pub analysis_of : ℕ → List DuplicateCluster → ImportDuplicateAnalysis
analysis_of n clusters = record {
  clusters = clusters;
  total_records = n;
  duplicate_row_count = length (distinct [] (all_members clusters));
  has_duplicates = ltb 0 (length clusters);
}

-- `Math.max(options.minClusterSize ?? 2, 2)`
abbrev pub smallest_cluster : DuplicateClusterOptions → ℕ
smallest_cluster options = max (default (options.min_cluster_size) 2) 2

-- None is a `find` without an end, which does not occur.
unfoldable pub detect_duplicate_clusters :
    Platform → DuplicateClusterOptions → List ImportEmployeeRecord → Option ImportDuplicateAnalysis
unfolding unite build_clusters
detect_duplicate_clusters platform options records =
    let found = all_evidence platform options records in
    let n = length records in
    elim (unite found (singletons n)) [
      | none ↦ none
      | some p ↦ elim (build_clusters n p (keep_first [] found) (smallest_cluster options)) [
        | none ↦ none
        | some clusters ↦ some (analysis_of n clusters)
      ]
    ]
