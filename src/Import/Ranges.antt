-- ===== src/Import/Ranges.antt =====
-- packages/core/src/import/ImportDuplicateClusterDetector.ts: the evidence is about rows of the input.
use Prim.Native.String.{String}
use zk_payroll_sdk.Prelude.{
  ℕ, suc, ◌+◌, ◌≤◌, ◌<◌, Bool, Bool-cases, Option, none, some, List, [], ◌∷◌, length, All,
  All-append, inl, inr, arith,
}
use zk_payroll_sdk.Prelude.Arrays.{sort_with-All}
use zk_payroll_sdk.Prelude.Text.{str_eq}
use zk_payroll_sdk.Import.Fuzzy.{normalize_identifier, names_are_similar}
use zk_payroll_sdk.Import.Evidence.{
  ImportEmployeeRecord, DuplicateConfidence, DuplicateReasonCode, DuplicateMatchEvidence,
  DuplicateMatchField, DuplicateMatchKind, Platform, safe_string, Groups, push_to_group, Target,
  targets, raw_groups, neighbours, evidence_on, gather, exact_pass,
}
use zk_payroll_sdk.Import.Collection.{
  push_all_to_group, add_normalized, normalized_groups, sorted_groups, normalized_pass,
  differing_from, differing_pairs, both_passes, collect_identity_evidence, name_evidence,
  names_with, names_from,
}
use zk_payroll_sdk.Import.Detector.{DuplicateClusterOptions, all_evidence}

abbrev AreBelow : ℕ → List ℕ → Type 0
AreBelow n is = All (λ i. i < n) is

abbrev AreGroups : {K : Type 0} → ℕ → Groups K → Type 0
AreGroups n groups = All (λ g. AreBelow n g.1) groups

abbrev ArePairs : ℕ → List (ℕ × ℕ) → Type 0
ArePairs n ps = All (λ (p : ℕ × ℕ). (p.0 < n) × (p.1 < n)) ps

-- Both rows of every piece of evidence are rows of the input.
abbrev pub AreRows : ℕ → List DuplicateMatchEvidence → Type 0
AreRows n es = All (λ (e : DuplicateMatchEvidence). (e.left_index < n) × (e.right_index < n)) es

push_to_group-AreGroups :
    {K : Type 0} (eq : K → K → Bool) (key : K) (n i : ℕ) (groups : Groups K)
    → i < n
    → AreGroups n groups
    → AreGroups n (push_to_group eq key i groups)
push_to_group-AreGroups eq key n i [] h g = ((h, tt), tt)
push_to_group-AreGroups eq key n i ((k, is) ∷ groups) h (g, gs) = elim (Bool-cases (eq k key)) [
  | inl same ↦ rw same (All-append _ is (i ∷ []) g (h, tt), gs)
  | inr other ↦ rw other (g, push_to_group-AreGroups eq key n i groups h gs)
]

raw_groups-AreGroups :
    (value : ImportEmployeeRecord → Option String) (n i : ℕ) (rs : List ImportEmployeeRecord)
    (groups : Groups String)
    → i + length rs ≤ n
    → AreGroups n groups
    → AreGroups n (raw_groups value i rs groups)
raw_groups-AreGroups value n i [] groups h g = g
raw_groups-AreGroups value n i (r ∷ rs) groups h g =
    let raw = safe_string (value r) in
    let pushed = push_to_group-AreGroups str_eq raw n i groups (omega arith) g in
    elim (Bool-cases (str_eq raw "")) [
      | inl blank ↦ rw blank (raw_groups-AreGroups value n (suc i) rs groups (omega arith) g)
      | inr text ↦ rw text (
          raw_groups-AreGroups value n (suc i) rs (push_to_group str_eq raw i groups) (omega arith)
            pushed)
    ]

push_all-AreGroups :
    (key : String) (n : ℕ) (is : List ℕ) (groups : Groups String)
    → AreBelow n is
    → AreGroups n groups
    → AreGroups n (push_all_to_group key is groups)
push_all-AreGroups key n [] groups h g = g
push_all-AreGroups key n (i ∷ is) groups (h, hs) g =
    push_all-AreGroups key n is _ hs (push_to_group-AreGroups str_eq key n i groups h g)

add_normalized-AreGroups :
    (o : Option String) (n : ℕ) (is : List ℕ) (groups : Groups String)
    → AreBelow n is
    → AreGroups n groups
    → AreGroups n (add_normalized o is groups)
add_normalized-AreGroups none n is groups h g = g
add_normalized-AreGroups (some key) n is groups h g = push_all-AreGroups key n is groups h g

normalized_groups-AreGroups :
    (platform : Platform) (n : ℕ) (raw groups : Groups String)
    → AreGroups n raw
    → AreGroups n groups
    → AreGroups n (normalized_groups platform raw groups)
unfolding normalized_groups
normalized_groups-AreGroups platform n [] groups h g = g
normalized_groups-AreGroups platform n ((raw, is) ∷ rest) groups (h, hs) g =
    normalized_groups-AreGroups platform n rest _ hs
      (add_normalized-AreGroups (normalize_identifier (platform.lower) (some raw)) n is groups h g)

neighbours-ArePairs : (n : ℕ) (is : List ℕ) → AreBelow n is → ArePairs n (neighbours is)
neighbours-ArePairs n [] h = tt
neighbours-ArePairs n (i ∷ []) h = tt
neighbours-ArePairs n (i ∷ j ∷ is) (h, (k, hs)) = ((h, k), neighbours-ArePairs n (j ∷ is) (k, hs))

differing_from-ArePairs :
    (raw : ℕ → String) (n a : ℕ) (is : List ℕ)
    → a < n
    → AreBelow n is
    → ArePairs n (differing_from raw a is)
differing_from-ArePairs raw n a [] h hs = tt
differing_from-ArePairs raw n a (b ∷ is) h (k, hs) =
    let rest = differing_from-ArePairs raw n a is h hs in
    elim (Bool-cases (str_eq (raw a) (raw b))) [
      | inl same ↦ rw same rest
      | inr apart ↦ rw apart ((h, k), rest)
    ]

differing_pairs-ArePairs :
    (raw : ℕ → String) (n : ℕ) (is : List ℕ) → AreBelow n is → ArePairs n (differing_pairs raw is)
differing_pairs-ArePairs raw n [] h = tt
differing_pairs-ArePairs raw n (a ∷ is) (h, hs) =
    All-append _ (differing_from raw a is) _ (differing_from-ArePairs raw n a is h hs)
      (differing_pairs-ArePairs raw n is hs)

evidence_on-AreRows :
    (field : DuplicateMatchField) (kind : DuplicateMatchKind) (reason : DuplicateReasonCode)
    (confidence : DuplicateConfidence) (n : ℕ) (ps : List (ℕ × ℕ))
    → ArePairs n ps
    → AreRows n (evidence_on field kind reason confidence ps)
evidence_on-AreRows field kind reason confidence n [] h = tt
evidence_on-AreRows field kind reason confidence n ((a, b) ∷ ps) (h, hs) =
    (h, evidence_on-AreRows field kind reason confidence n ps hs)

gather-AreRows {ℓ κ} :
    {T : Type ℓ} (P : T → Type κ) (f : T → List DuplicateMatchEvidence) (n : ℕ) (xs : List T)
    → ((x : T) → P x → AreRows n (f x))
    → All P xs
    → AreRows n (gather f xs)
gather-AreRows P f n [] h ps = tt
gather-AreRows P f n (x ∷ xs) h (p, ps) =
    All-append _ (f x) _ (h x p) (gather-AreRows P f n xs h ps)

both_passes-AreRows :
    (platform : Platform) (as_exact : Bool) (n : ℕ) (records : List ImportEmployeeRecord)
    (t : Target) (raw : Groups String)
    → AreGroups n raw
    → AreRows n (both_passes platform as_exact records t raw)
both_passes-AreRows platform as_exact n records t raw h =
    All-append _ (exact_pass t raw) _
      (gather-AreRows _ _ n raw
        (λ g below. evidence_on-AreRows _ _ _ _ n _ (neighbours-ArePairs n (g.1) below)) h)
      (second (t.normalized_reason))
  where
    later : Groups String
    later = sorted_groups (normalized_groups platform raw [])

    in_range : AreGroups n later
    in_range = sort_with-All _ _ _ (normalized_groups-AreGroups platform n raw [] h tt)

    second :
        (o : Option DuplicateReasonCode)
        → AreRows n
            (elim o [ none ↦ [] | some reason ↦ normalized_pass t reason as_exact records later ])
    second none = tt
    second (some reason) =
        gather-AreRows _ _ n later
          (λ g below. evidence_on-AreRows _ _ _ _ n _ (differing_pairs-ArePairs _ n (g.1) below))
          in_range

identity-AreRows :
    (platform : Platform) (as_exact : Bool) (records : List ImportEmployeeRecord)
    → AreRows (length records) (collect_identity_evidence platform as_exact records)
unfolding collect_identity_evidence
identity-AreRows platform as_exact records =
    gather-AreRows {0, 0} (λ (_ : Target). Unit) _ (length records) targets
      (λ t _.
        both_passes-AreRows platform as_exact (length records) records t
          (raw_groups (t.value) 0 records [])
          (raw_groups-AreGroups (t.value) (length records) 0 records [] (omega arith) tt))
      (tt, (tt, (tt, (tt, tt))))

name_evidence-AreRows :
    (platform : Platform) (threshold n a : ℕ) (left : ImportEmployeeRecord) (b : ℕ)
    (right : ImportEmployeeRecord)
    → a < n
    → b < n
    → AreRows n (name_evidence platform threshold a left b right)
unfolding name_evidence
name_evidence-AreRows platform threshold n a left b right h k =
    elim (Bool-cases (names_are_similar (platform.lower) (left.name) (right.name) threshold)) [
      | inl similar ↦ rw similar ((h, k), tt)
      | inr apart ↦ rw apart tt
    ]

names_with-AreRows :
    (platform : Platform) (threshold n a : ℕ) (left : ImportEmployeeRecord) (b : ℕ)
    (rs : List ImportEmployeeRecord)
    → a < n
    → b + length rs ≤ n
    → AreRows n (names_with platform threshold a left b rs)
names_with-AreRows platform threshold n a left b [] h k = tt
names_with-AreRows platform threshold n a left b (right ∷ rs) h k =
    All-append _ (name_evidence platform threshold a left b right) _
      (name_evidence-AreRows platform threshold n a left b right h (omega arith))
      (names_with-AreRows platform threshold n a left (suc b) rs h (omega arith))

names_from-AreRows :
    (platform : Platform) (threshold n a : ℕ) (rs : List ImportEmployeeRecord)
    → a + length rs ≤ n
    → AreRows n (names_from platform threshold a rs)
names_from-AreRows platform threshold n a [] h = tt
names_from-AreRows platform threshold n a (r ∷ rs) h =
    All-append _ (names_with platform threshold a r (suc a) rs) _
      (names_with-AreRows platform threshold n a r (suc a) rs (omega arith) (omega arith))
      (names_from-AreRows platform threshold n (suc a) rs (omega arith))

pub all_evidence-AreRows :
    (platform : Platform) (options : DuplicateClusterOptions) (records : List ImportEmployeeRecord)
    → AreRows (length records) (all_evidence platform options records)
unfolding all_evidence
all_evidence-AreRows platform options records =
    All-append _ (collect_identity_evidence platform _ records) _
      (identity-AreRows platform _ records)
      (names_from-AreRows platform _ (length records) 0 records (omega arith))
