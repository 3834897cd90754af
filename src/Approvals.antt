-- ===== src/Approvals.antt =====
-- packages/core/src/authorization/MultiSignerCoordinator.ts: requests for the approval of an operation by
-- several signers, and their part of authorization/types.ts. A method takes the readings of the clock
-- that it makes and returns a result and the coordinator after; the id of a request, which the code
-- draws at random, is given. The payloads to sign and the share of approvals in percent are left out.
mod Types
pub mod Policies
pub mod Calls
pub mod Outcomes
pub mod Signing
pub mod Justified
mod Tests
unfoldable pub use Types.*
use Prim.Native.String.{String, ◌++◌ as append}
use zk_payroll_sdk.Prelude.{
  ℕ, ◌+◌, ◌*◌, ◌==◌, leb, ltb, Bool, true, false, not, ◌&&◌, ◌||◌, Option, none, some, List, [],
  ◌∷◌, map, select, if◌then◌else◌, length, default,
}
use zk_payroll_sdk.Prelude.Text.{str_eq, includes, Dict, lookup, insert}
use zk_payroll_sdk.Prelude.Action.{Action, ◌>>=◌, ◌>>◌, pure, get, modify, throw_if, or_throw}
use zk_payroll_sdk.Quorum.{SignerRole, role_eq}

abbrev pub Method : Type 0 → Type 0
Method A = Action Coordinator CoordinatorError A

abbrev pub new_coordinator : Option ℕ → Coordinator
new_coordinator max_expiry_ms = record {
  requests = [];
  signer_history = [];
  max_expiry_ms = default max_expiry_ms 86400000;
}

abbrev pub store_request : String → AuthorizationRequest → Coordinator → Coordinator
store_request id r c = record c { requests = insert id r c.requests }

-- `requests.get(id)`, or the throw; the signers of what is found are changed in place.
abbrev pub get_or_throw_request : String → Method AuthorizationRequest
get_or_throw_request id = do or_throw (lookup id (← get).requests) request_not_found

abbrev pub new_signer : SignerRole → SignerInfo
new_signer r = record {
  address = "";
  role = r;
  state = pending;
  signed_at = none;
  rejected_at = none;
  rejection_reason = none;
}

abbrev pub new_request :
    ℕ → String → String → AuthorizationPolicy → List SignerRole → ℕ → AuthorizationRequest
new_request now id operation_id policy signer_roles lifetime = record {
  id = id;
  operation_id = operation_id;
  policy = policy;
  signers = map new_signer signer_roles;
  created_at = now;
  expires_at = some (now + lifetime);
}

unfoldable pub create_authorization_request :
    ℕ → String → String → AuthorizationPolicy → List SignerRole → Method AuthorizationRequest
create_authorization_request now id operation_id policy signer_roles = do
  c ← get
  let r =
      new_request now id operation_id policy signer_roles (default policy.expiry_ms c.max_expiry_ms)
  modify (store_request id r)
  pure r

-- `signers.find(p)`
abbrev pub find_signer : (SignerInfo → Bool) → List SignerInfo → Option SignerInfo
find_signer p [] = none
find_signer p (s ∷ ss) = let rest = find_signer p ss in if p s then some s else rest

-- The change of the signer that `find` returns.
abbrev pub update_first :
    (SignerInfo → Bool) → (SignerInfo → SignerInfo) → List SignerInfo → List SignerInfo
update_first p change [] = []
update_first p change (s ∷ ss) =
    let rest = update_first p change ss in if p s then change s ∷ ss else s ∷ rest

abbrev pub change_signer :
    String
    → AuthorizationRequest
    → (SignerInfo → Bool)
    → (SignerInfo → SignerInfo)
    → Coordinator
    → Coordinator
change_signer id r p change c =
    store_request id (record r { signers = update_first p change r.signers }) c

abbrev pub has_role : SignerRole → SignerInfo → Bool
has_role r s = role_eq s.role r

abbrev pub has_address : String → SignerInfo → Bool
has_address a s = str_eq s.address a

abbrev pub assign : String → SignerInfo → SignerInfo
assign a s = record s { address = a }

unfoldable pub add_signer : String → String → SignerRole → Method (Unit {0})
add_signer id address r = do
  request ← get_or_throw_request id
  s ← or_throw (find_signer (has_role r) request.signers) role_not_required
  throw_if (not (str_eq s.address "") && not (str_eq s.address address)) role_assigned
  modify (change_signer id request (has_role r) (assign address))

-- `isExpired`; an expiry of 0 is none.
abbrev pub is_expired : ℕ → AuthorizationRequest → Bool
is_expired now r = elim (r.expires_at) [ none ↦ false | some at ↦ not (at == 0) && ltb at now ]

abbrev pub is_pending_state : SignerState → Bool
is_pending_state pending = true
is_pending_state _ = false

abbrev pub is_signed_state : SignerState → Bool
is_signed_state signed = true
is_signed_state _ = false

abbrev pub is_rejected_state : SignerState → Bool
is_rejected_state rejected = true
is_rejected_state _ = false

abbrev pub is_signer : String → SignerRole → SignerInfo → Bool
is_signer a r s = has_address a s && has_role r s

abbrev pub history_key : String → String → String
history_key id address = append id (append ":" address)

abbrev pub used_nonces : String → Coordinator → List String
used_nonces key c = default (lookup key c.signer_history) []

abbrev pub remember : String → String → Coordinator → Coordinator
remember key nonce c = record c {
  signer_history = insert key (nonce ∷ used_nonces key c) c.signer_history;
}

abbrev pub sign_at : ℕ → SignerInfo → SignerInfo
sign_at stamp s = record s { state = signed; signed_at = some stamp }

-- The role and the nonce are those of the signature's payload.
unfoldable pub record_signature : ℕ → ℕ → String → SignerRole → String → String → Method (Unit {0})
record_signature now stamp id r nonce address = do
  request ← get_or_throw_request id
  throw_if (is_expired now request) request_expired
  s ← or_throw (find_signer (is_signer address r) request.signers) signer_not_found
  throw_if (not (is_pending_state s.state)) already_decided
  c ← get
  throw_if (includes (used_nonces (history_key id address) c) nonce) duplicate_signature
  modify (remember (history_key id address) nonce)
  modify (change_signer id request (is_signer address r) (sign_at stamp))

abbrev pub reject_at : ℕ → String → SignerInfo → SignerInfo
reject_at stamp reason s = record s {
  state = rejected;
  rejected_at = some stamp;
  rejection_reason = some reason;
}

unfoldable pub record_rejection : ℕ → ℕ → String → String → String → Method (Unit {0})
record_rejection now stamp id address reason = do
  request ← get_or_throw_request id
  throw_if (is_expired now request) request_expired
  s ← or_throw (find_signer (has_address address) request.signers) signer_not_found
  throw_if (not (is_pending_state s.state)) already_decided
  modify (change_signer id request (has_address address) (reject_at stamp reason))

abbrev pub revoke : SignerInfo → SignerInfo
revoke s = record s { state = revoked }

unfoldable pub revoke_signature : String → String → Method (Unit {0})
revoke_signature id address = do
  request ← get_or_throw_request id
  s ← or_throw (find_signer (has_address address) request.signers) signer_not_found
  modify (change_signer id request (has_address address) revoke)

abbrev pub signed_of : List SignerInfo → List SignerInfo
signed_of ss = select (λ (s : SignerInfo). is_signed_state s.state) ss

abbrev pub weight_of : (SignerRole → Option ℕ) → List SignerInfo → ℕ
weight_of weights [] = 0
weight_of weights (s ∷ ss) = default (weights s.role) 0 + weight_of weights ss

-- `evaluatePolicy`; a threshold of 0 is none, and half of the weight is compared twofold.
unfoldable pub evaluate_policy : AuthorizationPolicy → List SignerInfo → Bool
evaluate_policy policy signers = elim (policy.policy_type) [
  | unanimous ↦
      length (signed_of signers)
      == length (select (λ (s : SignerInfo). not (is_rejected_state s.state)) signers)
  | threshold ↦ elim (policy.least) [
    | none ↦ false
    | some n ↦ not (n == 0) && leb n (length (signed_of signers))
  ]
  | weighted ↦ elim (policy.weights) [
    | none ↦ false
    | some w ↦ leb (weight_of w signers) (2 * weight_of w (signed_of signers))
  ]
]

-- `getRequiredSignatureCount`
abbrev pub required_signatures : AuthorizationRequest → ℕ
required_signatures r = elim (r.policy.policy_type) [
  | unanimous ↦ length r.signers
  | threshold ↦ elim (r.policy.least) [
    | none ↦ length r.signers
    | some n ↦ if n == 0 then length r.signers else n
  ]
  | weighted ↦ length r.signers
]

unfoldable pub status_of : ℕ → String → AuthorizationRequest → AuthorizationStatus
unfolding evaluate_policy
status_of now id r = record {
  request_id = id;
  is_approved = evaluate_policy r.policy r.signers && not (is_expired now r);
  is_pending = not (evaluate_policy r.policy r.signers) && not (is_expired now r);
  has_expired = is_expired now r;
  signed_count = length (signed_of r.signers);
  required_count = required_signatures r;
  rejection_count = length (select (λ (s : SignerInfo). is_rejected_state s.state) r.signers);
  status_signers = r.signers;
}

unfoldable pub get_authorization_status : ℕ → String → Method AuthorizationStatus
unfolding status_of
get_authorization_status now id = do r ← get_or_throw_request id; pure (status_of now id r)

abbrev unexpired : ℕ → Dict AuthorizationRequest → List AuthorizationRequest
unexpired now [] = []
unexpired now ((_, r) ∷ rs) =
    let rest = unexpired now rs in if is_expired now r then rest else r ∷ rest

unfoldable pub get_all_pending_requests : ℕ → Coordinator → List AuthorizationRequest
get_all_pending_requests now c = unexpired now c.requests

abbrev pub get_request : String → Coordinator → Option AuthorizationRequest
get_request id c = lookup id c.requests
