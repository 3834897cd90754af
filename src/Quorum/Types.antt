-- ===== src/Quorum/Types.antt =====
-- packages/core/src/sessions/types.ts, authorization/types.ts and authorization/roles.ts: roles,
-- sessions and the state of the session manager. Counts and epoch milliseconds are natural numbers;
-- the free-form `metadata` of a session is left out, since no operation reads it.
use Prim.Native.String.{String, ◌++◌}
use zk_payroll_sdk.Prelude.{ℕ, ◌≡◌, Bool, true, false, ◌||◌, Option, List, [], ◌∷◌, ◌==◌, arith}
use zk_payroll_sdk.Prelude.Text.{Dict}
use zk_payroll_sdk.Prelude.Action.{Action}
use zk_payroll_sdk.Quorum.Hashing.{Payload}

pub data SignerRole : Type 0 where
  payroll_admin treasury_operator compliance_reviewer emergency_approver : SignerRole

abbrev pub role_name : SignerRole → String
role_name payroll_admin = "payroll_admin"
role_name treasury_operator = "treasury_operator"
role_name compliance_reviewer = "compliance_reviewer"
role_name emergency_approver = "emergency_approver"

abbrev role_index : SignerRole → ℕ
role_index payroll_admin = 0
role_index treasury_operator = 1
role_index compliance_reviewer = 2
role_index emergency_approver = 3

-- `a === b` on roles.
abbrev pub role_eq : SignerRole → SignerRole → Bool
role_eq a b = role_index a == role_index b

pub role_eq→≡ : (a b : SignerRole) → role_eq a b ≡ true → a ≡ b
role_eq→≡ a b h = ground arith

pub role_eq_refl : (a : SignerRole) → role_eq a a ≡ true
role_eq_refl a = ground arith

-- `requiredRoles.includes(role)`
abbrev pub has_role : List SignerRole → SignerRole → Bool
has_role [] r = false
has_role (q ∷ qs) r = role_eq q r || has_role qs r

pub data SignerStateStatus : Type 0 where
  slot_pending slot_signed slot_rejected : SignerStateStatus

pub record SignatureRecord : Type 0 where
  pub signer_address : String
  pub role : SignerRole
  pub signature_hex : String
  pub signed_at : ℕ
  pub payload_hash : String
  pub nonce : String

pub record RejectionRecord : Type 0 where
  pub signer_address : String
  pub role : SignerRole
  pub rejected_at : ℕ
  pub reason : String

pub record SignerSlot : Type 0 where
  pub address : Option String
  pub role : SignerRole
  pub weight : ℕ
  pub status : SignerStateStatus
  pub signature : Option SignatureRecord
  pub rejection : Option RejectionRecord

pub record SignerSession : Type 0 where
  pub session_id : String
  pub payroll_run_id : String
  pub operation_payload : String
  pub payload_hash : String
  pub required_roles : List SignerRole
  pub threshold : ℕ
  pub signer_slots : List SignerSlot
  pub expires_at : ℕ
  pub created_at : ℕ
  pub is_consumed : Bool
  pub consumed_at : Option ℕ
  pub consumed_tx_hash : Option String
  pub signatures : Dict SignatureRecord
  pub rejections : Dict RejectionRecord

pub record CreateSessionParams : Type 0 where
  pub session_id : Option String
  pub payroll_run_id : String
  pub operation_payload : Payload
  pub required_roles : List SignerRole
  pub threshold : Option ℕ
  pub ttl_ms : Option ℕ
  pub expires_at : Option ℕ
  pub assigned_signers : SignerRole → Option String

pub record AddSignatureParams : Type 0 where
  pub signer_address : String
  pub role : SignerRole
  pub signature_hex : String
  pub operation_payload : Option Payload
  pub nonce : String
  pub timestamp : Option ℕ

-- The codes of `QuorumSessionError`.
pub data SessionError : Type 0 where
  invalid_session_params invalid_threshold invalid_expiry duplicate_session_id : SessionError
  session_not_found session_already_consumed session_expired : SessionError
  invalid_signature_params invalid_rejection_params role_not_required : SessionError
  stale_payload_hash duplicate_nonce duplicate_signature rejected_slot : SessionError
  threshold_not_met : SessionError

-- The fields of the class.
pub record Manager : Type 0 where
  pub sessions : Dict SignerSession
  pub used_nonces : List String
  pub default_ttl_ms : ℕ
  pub max_ttl_ms : ℕ

abbrev pub Method : Type 0 → Type 0
Method A = Action Manager SessionError A

-- `${address}:${role}`
unfoldable pub slot_key : String → SignerRole → String
slot_key address role = address ++ (":" ++ role_name role)

pub data SessionStatus : Type 0 where
  pending ready expired consumed rejected : SessionStatus

pub record SignerStateSummary : Type 0 where
  pub signer_address : Option String
  pub role : SignerRole
  pub status : SignerStateStatus
  pub signed_at : Option ℕ
  pub rejected_at : Option ℕ
  pub rejection_reason : Option String

pub record SessionSummary : Type 0 where
  pub session_id : String
  pub payroll_run_id : String
  pub status : SessionStatus
  pub threshold : ℕ
  pub signed_count : ℕ
  pub pending_count : ℕ
  pub rejection_count : ℕ
  pub is_threshold_met : Bool
  pub is_expired : Bool
  pub is_consumed : Bool
  pub remaining_time_ms : ℕ
  pub signers : List SignerStateSummary
  pub consumed_tx_hash : Option String

pub record SessionSubmissionPackage : Type 0 where
  pub session_id : String
  pub payroll_run_id : String
  pub operation_payload : String
  pub payload_hash : String
  pub signatures : List SignatureRecord
  pub threshold : ℕ
  pub signatures_count : ℕ
  pub submitted_at : ℕ
