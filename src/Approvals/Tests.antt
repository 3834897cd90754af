-- ===== src/Approvals/Tests.antt =====
-- packages/core/src/authorization/MultiSignerCoordinator.ts on small histories.
use Prim.Native.String.{String}
use zk_payroll_sdk.Prelude.{
  ℕ, ◌≤◌, ◌<◌, true, false, none, some, List, [], ◌∷◌, length, All, ◌≡◌, ◌↔◌, refl,
}
use zk_payroll_sdk.Prelude.Text.{lookup}
use zk_payroll_sdk.Prelude.Action.{ok}
use zk_payroll_sdk.Quorum.{SignerRole, payroll_admin, treasury_operator}
use zk_payroll_sdk.Approvals.{
  PolicyType, unanimous, threshold, AuthorizationPolicy, SignerInfo, AuthorizationRequest,
  AuthorizationStatus, Coordinator, CoordinatorError, is_expired, signed_of, status_of,
  get_authorization_status, create_authorization_request, add_signer, record_signature,
  record_rejection, new_request,
}
use zk_payroll_sdk.Approvals.Calls.{Call, create, appoint, sign, reject, history}
use zk_payroll_sdk.Approvals.Policies.{IsDecided, unanimous_iff}
use zk_payroll_sdk.Approvals.Signing.{IsSignedFor}
use zk_payroll_sdk.Approvals.Justified.{threshold-IsSignedFor}

abbrev policy_of : PolicyType → AuthorizationPolicy
policy_of t = record {
  policy_type = t;
  required_roles = payroll_admin ∷ [];
  least = some 1;
  weights = none;
  expiry_ms = some 100;
}

abbrev roles : List SignerRole
roles = payroll_admin ∷ treasury_operator ∷ []

-- A request of which the appointed administrator has signed.
abbrev signed_calls : List Call
signed_calls =
    sign 20 21 "r" payroll_admin "n" "GADMIN"
    ∷ appoint "r" "GADMIN" payroll_admin
    ∷ create 10 "r" "run" (policy_of threshold) roles
    ∷ []

abbrev with_signers : AuthorizationRequest → List SignerInfo → AuthorizationRequest
with_signers r ss = record r { signers = ss }

abbrev signed_request : AuthorizationRequest
signed_request = with_signers (new_request 10 "r" "run" (policy_of threshold) roles 100) (
    record {
      address = "GADMIN";
      role = payroll_admin;
      state = zk_payroll_sdk.Approvals.signed;
      signed_at = some 21;
      rejected_at = none;
      rejection_reason = none;
    }
    ∷ zk_payroll_sdk.Approvals.new_signer treasury_operator
    ∷ [])

signed_found : lookup "r" ((history none signed_calls).requests) ≡ some signed_request
unfolding history create_authorization_request add_signer record_signature
signed_found = refl

signed_approved : (status_of 30 "r" signed_request).is_approved ≡ true
unfolding status_of
signed_approved = refl

threshold-IsSignedFor_example :
    (n : ℕ) × (some 1 ≡ some n)
    × (0 < n)
    × (n ≤ length (signed_of (signed_request.signers)))
    × (is_expired 30 signed_request ≡ false)
    × All (IsSignedFor none signed_calls signed_request "r") (signed_of (signed_request.signers))
threshold-IsSignedFor_example =
    threshold-IsSignedFor none signed_calls 30 "r" {r = signed_request} signed_found refl
      signed_approved

-- A unanimous request that both signers have rejected.
abbrev rejected_calls : List Call
rejected_calls =
    reject 20 20 "r" "GTREASURY" "no"
    ∷ reject 20 20 "r" "GADMIN" "no"
    ∷ appoint "r" "GTREASURY" treasury_operator
    ∷ appoint "r" "GADMIN" payroll_admin
    ∷ create 10 "r" "run" (policy_of unanimous) roles
    ∷ []

abbrev refuser : String → SignerRole → SignerInfo
refuser address role = record {
  address = address;
  role = role;
  state = zk_payroll_sdk.Approvals.rejected;
  signed_at = none;
  rejected_at = some 20;
  rejection_reason = some "no";
}

abbrev rejected_request : AuthorizationRequest
rejected_request =
    with_signers (new_request 10 "r" "run" (policy_of unanimous) roles 100)
      (refuser "GADMIN" payroll_admin ∷ refuser "GTREASURY" treasury_operator ∷ [])

rejected_found : lookup "r" ((history none rejected_calls).requests) ≡ some rejected_request
unfolding history create_authorization_request add_signer record_rejection
rejected_found = refl

unanimous_iff_example :
    (s : AuthorizationStatus) × (get_authorization_status 30 "r" (history none rejected_calls)
      ≡ (ok s, history none rejected_calls))
    × ((s.is_approved ≡ true)
        ↔ ((is_expired 30 rejected_request ≡ false) × All IsDecided (rejected_request.signers)))
unanimous_iff_example =
    unanimous_iff 30 "r" (history none rejected_calls) rejected_request rejected_found refl

rejected_by_all_approved : (status_of 30 "r" rejected_request).is_approved ≡ true
unfolding status_of
rejected_by_all_approved = refl

-- Nobody was appointed, and the empty address signs.
nobody_signs :
    (record_signature 20 21 "r" payroll_admin "n" ""
      (history none (create 10 "r" "run" (policy_of threshold) roles ∷ []))).0
    ≡ ok tt
unfolding history create_authorization_request record_signature
nobody_signs = refl
