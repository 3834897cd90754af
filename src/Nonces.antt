-- ===== src/Nonces.antt =====
-- packages/core/src/core/executionConfirmationNonce.ts: nonces that confirm an execution. A text is a list
-- of code units. Base 36 is the platform's, and so are the callbacks that look a nonce up and mark it.
pub mod Generated
mod Tests
use zk_payroll_sdk.Prelude.{
  ℕ, suc, ◌+◌, ◌-◌, ◌*◌, ◌/◌, ◌%◌, ◌==◌, leb, ltb, max, Bool, true, false, not, ◌&&◌, ◌||◌, Option,
  none, some, default, List, [], ◌∷◌, ◌++◌, map, if◌then◌else◌, length,
}
use zk_payroll_sdk.Quorum.Hashing.{code_units}
use zk_payroll_sdk.Amounts.Parsing.{trim_left, trim_right}

pub data NonceValidationCode : Type 0 where
  valid expired already_used invalid_format invalid_signature clock_skew operation_mismatch
        missing_nonce :
      NonceValidationCode

pub data ExecutionOperationType : Type 0 where
  payroll_execution payment_submission batch_confirmation settlement_finalization
        compliance_hold_release :
      ExecutionOperationType

abbrev pub operation_text : ExecutionOperationType → List ℕ
operation_text payroll_execution = code_units "payroll_execution"
operation_text payment_submission = code_units "payment_submission"
operation_text batch_confirmation = code_units "batch_confirmation"
operation_text settlement_finalization = code_units "settlement_finalization"
operation_text compliance_hold_release = code_units "compliance_hold_release"

-- `n.toString(36)`, and `parseInt(s, 36)` with none for NaN.
pub record Base36 : Type 0 where
  pub print : ℕ → List ℕ
  pub parse : List ℕ → Option ℕ

pub record NonceInfo : Type 0 where
  pub nonce : List ℕ
  pub operation_type : ExecutionOperationType
  pub context_id : Option (List ℕ)
  pub generated_at : ℕ
  pub expires_at : ℕ

-- `check_if_used` is the answer of the callback, if there is one.
pub record NonceValidationOptions : Type 0 where
  pub scope_type : ExecutionOperationType
  pub scope_context : Option (List ℕ)
  pub max_clock_skew_ms : Option ℕ
  pub validity_duration_ms : Option ℕ
  pub check_if_used : Option (List ℕ → Bool)

-- The information is given when the nonce is valid, and only then is it marked as used.
pub record NonceValidationResult : Type 0 where
  pub code : NonceValidationCode
  pub nonce_info : Option NonceInfo

abbrev pub default_nonce_validity_ms : ℕ
default_nonce_validity_ms = 60 * 60 * 1000

abbrev undotted : ℕ → ℕ
undotted c = if c == 46 then 45 else c

unfoldable pub create_operation_scope : ExecutionOperationType → Option (List ℕ) → List ℕ
create_operation_scope op none = operation_text op
create_operation_scope op (some []) = operation_text op
create_operation_scope op (some (c ∷ s)) = operation_text op ++ (58 ∷ map undotted (c ∷ s))

abbrev pub hex_digit : ℕ → ℕ
hex_digit d = if ltb d 10 then 48 + d else 87 + d

-- Each byte as two hexadecimal digits.
abbrev pub random_part : List ℕ → List ℕ
random_part [] = []
random_part (b ∷ bs) = hex_digit (b / 16) ∷ hex_digit (b % 16) ∷ random_part bs

-- The bytes are the 16 random numbers below 256.
unfoldable pub generate_execution_nonce :
    Base36 → ℕ → List ℕ → ExecutionOperationType → Option (List ℕ) → Option ℕ → NonceInfo
generate_execution_nonce base36 now bytes op context validity_duration_ms = record {
  nonce =
      (create_operation_scope op context ++ (46 ∷ base36.print now)) ++ (46 ∷ random_part bytes);
  operation_type = op;
  context_id = context;
  generated_at = now;
  expires_at = now + default validity_duration_ms default_nonce_validity_ms;
}

abbrev pub cons_first : ℕ → List (List ℕ) → List (List ℕ)
cons_first c [] = (c ∷ []) ∷ []
cons_first c (p ∷ ps) = (c ∷ p) ∷ ps

-- `s.split(".")`
abbrev pub split_dots : List ℕ → List (List ℕ)
split_dots [] = [] ∷ []
split_dots (c ∷ s) = let parts = split_dots s in if c == 46 then [] ∷ parts else cons_first c parts

abbrev pub scopes_equal : List ℕ → List ℕ → Bool
scopes_equal [] [] = true
scopes_equal [] (d ∷ t) = false
scopes_equal (c ∷ s) [] = false
scopes_equal (c ∷ s) (d ∷ t) = (c == d) && scopes_equal s t

-- `/^[0-9a-f]+$/i`
abbrev is_hex : ℕ → Bool
is_hex c = (leb 48 c && leb c 57) || (leb 97 c && leb c 102) || (leb 65 c && leb c 70)

abbrev are_hex : List ℕ → Bool
are_hex [] = true
are_hex (c ∷ s) = is_hex c && are_hex s

unfoldable pub is_valid_hex_string : List ℕ → ℕ → Bool
is_valid_hex_string s expected_byte_length =
    (length s == expected_byte_length * 2) && not (length s == 0) && are_hex s

abbrev pub failed : NonceValidationCode → NonceValidationResult
failed c = record { code = c; nonce_info = none }

abbrev pub is_used : Option (List ℕ → Bool) → List ℕ → Bool
is_used none nonce = false
is_used (some check) nonce = check nonce

-- The checks from the timestamp on.
unfoldable pub validate_parts :
    ℕ → NonceValidationOptions → List ℕ → ℕ → List ℕ → NonceValidationResult
unfolding is_valid_hex_string
validate_parts now options nonce generated_at random =
    let validity = default options.validity_duration_ms default_nonce_validity_ms in
    if ltb (default options.max_clock_skew_ms 60000) (max (now - generated_at) (generated_at - now))
      && ltb generated_at now
    then failed clock_skew
    else if ltb (generated_at + validity) now
    then failed expired
    else if not (is_valid_hex_string random 32)
    then failed invalid_signature
    else if is_used options.check_if_used nonce
    then failed already_used
    else record {
      code = valid;
      nonce_info = some (record {
        nonce = nonce;
        operation_type = options.scope_type;
        context_id = options.scope_context;
        generated_at = generated_at;
        expires_at = generated_at + validity;
      });
    }

-- The parts of a nonce, of which there are three.
abbrev pub validate_split :
    Base36 → ℕ → NonceValidationOptions → List ℕ → List (List ℕ) → NonceValidationResult
validate_split base36 now options nonce (scope ∷ timestamp ∷ random ∷ []) =
    if not (scopes_equal scope (create_operation_scope options.scope_type options.scope_context))
    then failed operation_mismatch
    else elim (base36.parse timestamp) [
      | none ↦ failed invalid_format
      | some generated_at ↦ validate_parts now options nonce generated_at random
    ]
validate_split base36 now options nonce _ = failed invalid_format

unfoldable pub validate_execution_nonce :
    Base36 → ℕ → NonceValidationOptions → Option (List ℕ) → NonceValidationResult
unfolding validate_parts create_operation_scope
validate_execution_nonce base36 now options none = failed missing_nonce
validate_execution_nonce base36 now options (some nonce) =
    let trimmed = trim_right (trim_left nonce) in
    if length trimmed == 0
    then failed missing_nonce
    else validate_split base36 now options trimmed (split_dots trimmed)
