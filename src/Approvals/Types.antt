-- ===== src/Approvals/Types.antt =====
-- packages/core/src/authorization/types.ts and MultiSignerCoordinator.ts: the data of the coordinator.
use Prim.Native.String.{String}
use zk_payroll_sdk.Prelude.{ℕ, Bool, Option, List}
use zk_payroll_sdk.Prelude.Text.{Dict}
use zk_payroll_sdk.Quorum.{SignerRole}

pub data SignerState : Type 0 where
  pending signed rejected expired revoked : SignerState

pub data PolicyType : Type 0 where
  unanimous threshold weighted : PolicyType

-- A weight is a natural number; `weights[role] ?? 0` is `weight_of`.
pub record AuthorizationPolicy : Type 0 where
  pub policy_type : PolicyType
  pub required_roles : List SignerRole
  pub least : Option ℕ
  pub weights : Option (SignerRole → Option ℕ)
  pub expiry_ms : Option ℕ

pub record SignerInfo : Type 0 where
  pub address : String
  pub role : SignerRole
  pub state : SignerState
  pub signed_at : Option ℕ
  pub rejected_at : Option ℕ
  pub rejection_reason : Option String

pub record AuthorizationRequest : Type 0 where
  pub id : String
  pub operation_id : String
  pub policy : AuthorizationPolicy
  pub signers : List SignerInfo
  pub created_at : ℕ
  pub expires_at : Option ℕ

pub record AuthorizationStatus : Type 0 where
  pub request_id : String
  pub is_approved : Bool
  pub is_pending : Bool
  pub has_expired : Bool
  pub signed_count : ℕ
  pub required_count : ℕ
  pub rejection_count : ℕ
  pub status_signers : List SignerInfo

pub data CoordinatorError : Type 0 where
  request_not_found role_not_required role_assigned request_expired signer_not_found already_decided
        duplicate_signature :
      CoordinatorError

pub record Coordinator : Type 0 where
  pub requests : Dict AuthorizationRequest
  pub signer_history : Dict (List String)
  pub max_expiry_ms : ℕ
