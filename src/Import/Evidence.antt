-- ===== src/Import/Evidence.antt =====
-- packages/core/src/import/ImportDuplicateClusterDetector.ts: the evidence that two imported rows are
-- duplicates, as the list of the calls of the sink, and import/types.ts.
use Prim.Native.String.{String}
use Prim.Native.Char.{code}
use zk_payroll_sdk.Prelude.{
  ℕ, suc, ◌==◌, leb, Bool, true, false, ◌&&◌, Option, none, some, List, [], ◌∷◌, ◌++◌,
  if◌then◌else◌,
}
use zk_payroll_sdk.Prelude.Int.{ℤ}
use zk_payroll_sdk.Prelude.Text.{trim, str_eq}

-- A salary is a bigint, an integer as a number, a number that is not finite, or a text; fractions are
-- left out.
pub data Salary : Type 0 where
  bigint : ℤ → Salary
  number : ℤ → Salary
  not_finite : Salary
  salary_text : String → Salary

pub record ImportEmployeeRecord : Type 0 where
  pub employee_id : Option String
  pub wallet_address : Option String
  pub email_hash : Option String
  pub external_id : Option String
  pub name : Option String
  pub department : Option String
  pub salary : Option Salary
  pub asset : Option String

pub data DuplicateConfidence : Type 0 where
  exact_confidence high medium low : DuplicateConfidence

pub data DuplicateReasonCode : Type 0 where
  exact_employee_id exact_wallet_address exact_email_hash exact_external_id
        case_insensitive_employee_id case_insensitive_wallet_address case_insensitive_external_id
        same_name_department_salary_asset similar_name_same_department
        similar_name_same_salary_asset similar_name_only :
      DuplicateReasonCode

pub data DuplicateMatchField : Type 0 where
  employee_id_field wallet_address_field email_hash_field external_id_field name_field :
      DuplicateMatchField

pub data DuplicateMatchKind : Type 0 where
  exact normalized fuzzy : DuplicateMatchKind

pub record DuplicateMatchEvidence : Type 0 where
  pub left_index : ℕ
  pub right_index : ℕ
  pub field : DuplicateMatchField
  pub kind : DuplicateMatchKind
  pub confidence : DuplicateConfidence
  pub reason : DuplicateReasonCode

-- The platform's toLowerCase and toString.
pub record Platform : Type 0 where
  pub lower : String → String
  pub print : ℤ → String

abbrev pub safe_string : Option String → String
safe_string none = ""
safe_string (some s) = trim s

abbrev is_digit : ℕ → Bool
is_digit c = leb 48 c && leb c 57

-- The digits of a text from its start are all of it, or a point and more digits follow them, where
-- the point is still allowed.
abbrev digits_follow : Bool → Bool → String → Bool
digits_follow some_digit point_allowed String.[] = some_digit
digits_follow some_digit point_allowed (String.◌∷◌ c s) =
    let digit = digits_follow true point_allowed s in
    let fraction = digits_follow false false s in
    if is_digit (code c) then digit else (code c == 46) && some_digit && point_allowed && fraction

-- `/^\d+(\.\d+)?$/`
abbrev pub is_decimal : String → Bool
is_decimal s = digits_follow false true s

unfoldable pub normalize_amount : Platform → Option Salary → Option String
normalize_amount platform none = none
normalize_amount platform (some (bigint a)) = some (platform.print a)
normalize_amount platform (some (number a)) = some (platform.print a)
normalize_amount platform (some not_finite) = none
normalize_amount platform (some (salary_text s)) =
    if is_decimal (trim s) then some (trim s) else none

-- A `Map` from keys to the indexes of a group, in the order of insertion.
abbrev pub Groups : Type 0 → Type 0
Groups K = List (K × List ℕ)

abbrev pub push_to_group : {K : Type 0} → (K → K → Bool) → K → ℕ → Groups K → Groups K
push_to_group eq key index [] = (key, index ∷ []) ∷ []
push_to_group eq key index ((k, is) ∷ groups) =
    let rest = push_to_group eq key index groups in
    if eq k key then (k, is ++ (index ∷ [])) ∷ groups else (k, is) ∷ rest

pub record Target : Type 0 where
  pub match_field : DuplicateMatchField
  pub value : ImportEmployeeRecord → Option String
  pub exact_reason : DuplicateReasonCode
  pub normalized_reason : Option DuplicateReasonCode

abbrev pub targets : List Target
targets =
    record {
      match_field = employee_id_field;
      value = λ r. r.employee_id;
      exact_reason = exact_employee_id;
      normalized_reason = some case_insensitive_employee_id;
    }
    ∷ record {
      match_field = wallet_address_field;
      value = λ r. r.wallet_address;
      exact_reason = exact_wallet_address;
      normalized_reason = some case_insensitive_wallet_address;
    }
    ∷ record {
      match_field = email_hash_field;
      value = λ r. r.email_hash;
      exact_reason = exact_email_hash;
      normalized_reason = none;
    }
    ∷ record {
      match_field = external_id_field;
      value = λ r. r.external_id;
      exact_reason = exact_external_id;
      normalized_reason = some case_insensitive_external_id;
    }
    ∷ []

-- The rows from an index on, grouped by what they have in a field; rows without it are left out.
abbrev pub raw_groups :
    (ImportEmployeeRecord → Option String)
    → ℕ
    → List ImportEmployeeRecord
    → Groups String
    → Groups String
raw_groups value i [] groups = groups
raw_groups value i (r ∷ rs) groups =
    let raw = safe_string (value r) in
    raw_groups value (suc i) rs
      (if str_eq raw "" then groups else push_to_group str_eq raw i groups)

-- Each index of a group with the one before it.
abbrev pub neighbours : List ℕ → List (ℕ × ℕ)
neighbours [] = []
neighbours (i ∷ []) = []
neighbours (i ∷ j ∷ is) = (i, j) ∷ neighbours (j ∷ is)

abbrev pub evidence_on :
    DuplicateMatchField
    → DuplicateMatchKind
    → DuplicateReasonCode
    → DuplicateConfidence
    → List (ℕ × ℕ)
    → List DuplicateMatchEvidence
evidence_on field kind reason confidence [] = []
evidence_on field kind reason confidence ((a, b) ∷ pairs) =
    record {
      left_index = a;
      right_index = b;
      field = field;
      kind = kind;
      confidence = confidence;
      reason = reason;
    }
    ∷ evidence_on field kind reason confidence pairs

abbrev pub gather {ℓ} :
    {T : Type ℓ} → (T → List DuplicateMatchEvidence) → List T → List DuplicateMatchEvidence
gather f [] = []
gather f (x ∷ xs) = f x ++ gather f xs

-- Pass 1.
abbrev pub exact_pass : Target → Groups String → List DuplicateMatchEvidence
exact_pass t groups =
    gather
      (λ (g : String × List ℕ).
        evidence_on t.match_field exact t.exact_reason exact_confidence (neighbours g.1))
      groups
