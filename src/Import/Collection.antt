-- ===== src/Import/Collection.antt =====
-- packages/core/src/import/ImportDuplicateClusterDetector.ts: what `collectIdentityEvidence` and
-- `collectFuzzyNameEvidence` hand to the sink, in their order.
use Prim.Native.String.{String}
use zk_payroll_sdk.Prelude.{
  ℕ, zero, suc, leb, min, Bool, false, ◌&&◌, Option, none, some, List, [], ◌∷◌, ◌++◌, if◌then◌else◌,
}
use zk_payroll_sdk.Prelude.Arrays.{sort_with}
use zk_payroll_sdk.Prelude.Text.{str_eq}
use zk_payroll_sdk.Import.Fuzzy.{normalize_identifier, names_are_similar}
use zk_payroll_sdk.Import.Evidence.{
  ImportEmployeeRecord, DuplicateConfidence, DuplicateReasonCode, DuplicateMatchEvidence, Platform,
  safe_string, normalize_amount, Groups, push_to_group, Target, targets, raw_groups, evidence_on,
  gather, exact_pass, exact_confidence, high, medium, low, same_name_department_salary_asset,
  similar_name_same_department, similar_name_same_salary_asset, similar_name_only, name_field,
  normalized, fuzzy,
}

-- `Math.min(...is)` of a group, which is never empty.
abbrev pub smallest : List ℕ → ℕ
smallest [] = 0
smallest (i ∷ []) = i
smallest (i ∷ j ∷ is) = min i (smallest (j ∷ is))

abbrev pub push_all_to_group : String → List ℕ → Groups String → Groups String
push_all_to_group key [] groups = groups
push_all_to_group key (i ∷ is) groups = push_all_to_group key is (push_to_group str_eq key i groups)

-- The indexes of a group go under its normalized key, when it has one.
abbrev pub add_normalized : Option String → List ℕ → Groups String → Groups String
add_normalized none is groups = groups
add_normalized (some key) is groups = push_all_to_group key is groups

-- The raw groups under their normalized keys.
unfoldable pub normalized_groups : Platform → Groups String → Groups String → Groups String
normalized_groups platform [] groups = groups
normalized_groups platform ((raw, is) ∷ rest) groups =
    normalized_groups platform rest
      (add_normalized (normalize_identifier (platform.lower) (some raw)) is groups)

-- `sortedNormalizedGroups`
abbrev pub sorted_groups : Groups String → Groups String
sorted_groups groups = sort_with (λ g h. leb (smallest g.1) (smallest h.1)) groups

-- The trimmed text of a row, "" out of range.
abbrev pub text_at : (ImportEmployeeRecord → Option String) → List ImportEmployeeRecord → ℕ → String
text_at value [] i = ""
text_at value (r ∷ rs) zero = safe_string (value r)
text_at value (r ∷ rs) (suc i) = text_at value rs i

-- An index with those of a list whose texts differ from its own.
abbrev pub differing_from : (ℕ → String) → ℕ → List ℕ → List (ℕ × ℕ)
differing_from raw a [] = []
differing_from raw a (b ∷ is) =
    let rest = differing_from raw a is in if str_eq (raw a) (raw b) then rest else (a, b) ∷ rest

-- The two loops over the indexes of a group.
abbrev pub differing_pairs : (ℕ → String) → List ℕ → List (ℕ × ℕ)
differing_pairs raw [] = []
differing_pairs raw (a ∷ is) = differing_from raw a is ++ differing_pairs raw is

-- Pass 2, over the sorted groups.
abbrev pub normalized_pass :
    Target
    → DuplicateReasonCode
    → Bool
    → List ImportEmployeeRecord
    → Groups String
    → List DuplicateMatchEvidence
normalized_pass t reason normalized_as_exact records groups =
    gather
      (λ (g : String × List ℕ).
        evidence_on t.match_field normalized reason
          (if normalized_as_exact then exact_confidence else high)
          (differing_pairs (text_at (t.value) records) g.1))
      groups

-- The passes after the rows are grouped.
abbrev pub both_passes :
    Platform
    → Bool
    → List ImportEmployeeRecord
    → Target
    → Groups String
    → List DuplicateMatchEvidence
both_passes platform normalized_as_exact records t raw =
    exact_pass t raw ++ elim (t.normalized_reason) [
      | none ↦ []
      | some reason ↦
          normalized_pass t reason normalized_as_exact records
            (sorted_groups (normalized_groups platform raw []))
    ]

-- `collectIdentityEvidence`
unfoldable pub collect_identity_evidence :
    Platform → Bool → List ImportEmployeeRecord → List DuplicateMatchEvidence
collect_identity_evidence platform normalized_as_exact records =
    gather
      (λ (t : Target).
        both_passes platform normalized_as_exact records t (raw_groups (t.value) 0 records []))
      targets

-- Both are there and are the same.
abbrev pub agree : Option String → Option String → Bool
agree none _ = false
agree (some a) none = false
agree (some a) (some b) = str_eq a b

-- The reason and the confidence of two similar names, by what else agrees.
abbrev pub name_reason : Bool → Bool → DuplicateReasonCode × DuplicateConfidence
name_reason same_department same_salary_asset =
    if same_department && same_salary_asset
    then (same_name_department_salary_asset, high)
    else if same_department
    then (similar_name_same_department, medium)
    else if same_salary_asset
    then (similar_name_same_salary_asset, medium)
    else (similar_name_only, low)

-- The body of the two loops.
unfoldable pub name_evidence :
    Platform → ℕ → ℕ → ImportEmployeeRecord → ℕ → ImportEmployeeRecord → List DuplicateMatchEvidence
name_evidence platform threshold a left b right =
    let same = λ (v w : Option String).
      agree (normalize_identifier (platform.lower) v) (normalize_identifier (platform.lower) w) in
    let same_department = same (left.department) (right.department) in
    let same_salary_asset =
      agree (normalize_amount platform (left.salary)) (normalize_amount platform (right.salary))
      && same (left.asset) (right.asset) in
    let (reason, confidence) = name_reason same_department same_salary_asset in
    if names_are_similar (platform.lower) (left.name) (right.name) threshold
    then evidence_on name_field fuzzy reason confidence ((a, b) ∷ [])
    else []

abbrev pub names_with :
    Platform
    → ℕ
    → ℕ
    → ImportEmployeeRecord
    → ℕ
    → List ImportEmployeeRecord
    → List DuplicateMatchEvidence
names_with platform threshold a left b [] = []
names_with platform threshold a left b (right ∷ rs) =
    name_evidence platform threshold a left b right
    ++ names_with platform threshold a left (suc b) rs

-- The loops over the rows from an index on.
abbrev pub names_from : Platform → ℕ → ℕ → List ImportEmployeeRecord → List DuplicateMatchEvidence
names_from platform threshold a [] = []
names_from platform threshold a (r ∷ rs) =
    names_with platform threshold a r (suc a) rs ++ names_from platform threshold (suc a) rs

-- `collectFuzzyNameEvidence`
abbrev pub collect_fuzzy_name_evidence :
    Platform → ℕ → List ImportEmployeeRecord → List DuplicateMatchEvidence
collect_fuzzy_name_evidence platform threshold records = names_from platform threshold 0 records
