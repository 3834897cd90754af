-- ===== src/Quorum.antt =====
-- packages/core/src/sessions/QuorumSessionManager.ts: multi-signer payroll sessions. A method is a
-- function of the manager's state, of the readings of the clock that it makes (`now` for the test of
-- expiry, `stamp` for a later reading) and of what it takes from its platform. The caller gives the
-- random id of a new session (`generated`).
pub mod Hashing
mod Types
pub mod Summary
pub mod Outcomes
pub mod Trace
pub mod Soundness
pub mod Validity
pub mod Replay
pub mod Quota
pub mod Tampering
mod Tests
unfoldable pub use Hashing.*
unfoldable pub use Types.*
use Prim.Native.String.{String}
use zk_payroll_sdk.Prelude.{
  ℕ, suc, ◌+◌, ◌-◌, Bool, true, false, not, ◌&&◌, ◌||◌, Option, none, some, List, [], ◌∷◌, map, ltb,
  leb, ◌==◌, if◌then◌else◌, length, default, is_some,
}
use zk_payroll_sdk.Prelude.Text.{str_eq, is_blank, includes, lookup, insert, values}
use zk_payroll_sdk.Prelude.Action.{◌>>=◌, ◌>>◌, pure, get, modify, throw_if, or_throw}

pub new_manager : Option ℕ → Option ℕ → Manager
new_manager default_ttl_ms max_ttl_ms = record {
  sessions = [];
  used_nonces = [];
  default_ttl_ms = default default_ttl_ms 86400000;
  max_ttl_ms = default max_ttl_ms 604800000;
}

-- `getOrThrowSession`
abbrev pub get_or_throw_session : String → Method SignerSession
get_or_throw_session id = do or_throw (lookup id (← get).sessions) session_not_found

-- `assertSessionActive`
abbrev pub assert_session_active : ℕ → SignerSession → Method (Unit {0})
assert_session_active now s = do
  throw_if s.is_consumed session_already_consumed
  throw_if (ltb s.expires_at now) session_expired

-- The session object is shared with the map, so a change to it is a change there.
abbrev pub store_session : String → SignerSession → Manager → Manager
store_session id s m = record m { sessions = insert id s m.sessions }

abbrev pub pending_slot : (SignerRole → Option String) → SignerRole → SignerSlot
pending_slot assigned r = record {
  address = assigned r;
  role = r;
  weight = 1;
  status = slot_pending;
  signature = none;
  rejection = none;
}

abbrev pub new_session : Platform → CreateSessionParams → String → ℕ → ℕ → ℕ → SignerSession
new_session platform params id threshold expires_at now = record {
  session_id = id;
  payroll_run_id = params.payroll_run_id;
  operation_payload = raw_payload platform params.operation_payload;
  payload_hash = compute_payload_hash platform params.operation_payload;
  required_roles = params.required_roles;
  threshold = threshold;
  signer_slots = map (pending_slot params.assigned_signers) params.required_roles;
  expires_at = expires_at;
  created_at = now;
  is_consumed = false;
  consumed_at = none;
  consumed_tx_hash = none;
  signatures = [];
  rejections = [];
}

pub create_session : Platform → ℕ → String → CreateSessionParams → Method SignerSession
create_session platform now generated params = do
  throw_if (is_blank params.payroll_run_id) invalid_session_params
  throw_if (length params.required_roles == 0) invalid_session_params
  let threshold = default params.threshold (length params.required_roles)
  throw_if (leb threshold 0 || ltb (length params.required_roles) threshold) invalid_threshold
  m ← get
  let ttl = default params.ttl_ms m.default_ttl_ms
  let capped = if ltb m.max_ttl_ms ttl then m.max_ttl_ms else ttl
  let expires_at = default params.expires_at (now + capped)
  throw_if (leb expires_at now) invalid_expiry
  let id = default params.session_id generated
  throw_if (is_some (lookup id m.sessions)) duplicate_session_id
  let session = new_session platform params id threshold expires_at now
  modify (store_session id session)
  pure session

-- `!slot.address || slot.address === address`
abbrev pub open_to : String → Option String → Bool
open_to address none = true
open_to address (some a) = str_eq a "" || str_eq a address

abbrev pub takes_slot : String → SignerRole → SignerSlot → Bool
takes_slot address r s = role_eq s.role r && open_to address s.address

-- `find` of the first slot that a signer may take, and the assignment to its fields.
pub update_slot :
    String → SignerRole → (SignerSlot → SignerSlot) → List SignerSlot → List SignerSlot
update_slot address r change [] = []
update_slot address r change (s ∷ ss) =
    if takes_slot address r s then change s ∷ ss else s ∷ update_slot address r change ss

abbrev pub is_stale : Platform → SignerSession → Option Payload → Bool
is_stale platform s none = false
is_stale platform s (some payload) =
    not (str_eq (compute_payload_hash platform payload) s.payload_hash)

abbrev sign_slot : SignatureRecord → SignerSlot → SignerSlot
sign_slot r s = record s {
  address = some r.signer_address;
  status = slot_signed;
  signature = some r;
}

abbrev pub with_signature : SignatureRecord → SignerSession → SignerSession
with_signature r s = record s {
  signatures = insert (slot_key r.signer_address r.role) r s.signatures;
  signer_slots = update_slot r.signer_address r.role (sign_slot r) s.signer_slots;
}

abbrev pub signature_of : AddSignatureParams → SignerSession → ℕ → SignatureRecord
signature_of params s stamp = record {
  signer_address = params.signer_address;
  role = params.role;
  signature_hex = params.signature_hex;
  signed_at = default params.timestamp stamp;
  payload_hash = s.payload_hash;
  nonce = params.nonce;
}

-- `applySignature`
pub apply_signature : Platform → ℕ → ℕ → String → AddSignatureParams → Bool → Method SignerSession
apply_signature platform now stamp id params allow_replace = do
  s ← get_or_throw_session id
  assert_session_active now s
  throw_if (is_blank params.signer_address) invalid_signature_params
  throw_if (is_blank params.signature_hex) invalid_signature_params
  throw_if (is_blank params.nonce) invalid_signature_params
  throw_if (not (has_role s.required_roles params.role)) role_not_required
  throw_if (is_stale platform s params.operation_payload) stale_payload_hash
  m ← get
  throw_if (includes m.used_nonces params.nonce) duplicate_nonce
  let key = slot_key params.signer_address params.role
  throw_if (is_some (lookup key s.signatures) && not allow_replace) duplicate_signature
  throw_if (is_some (lookup key s.rejections)) rejected_slot
  modify (store_session id (with_signature (signature_of params s stamp) s))
  modify (λ m'. record m' { used_nonces = params.nonce ∷ m'.used_nonces })
  pure (with_signature (signature_of params s stamp) s)

pub add_signature : Platform → ℕ → ℕ → String → AddSignatureParams → Method SignerSession
unfolding apply_signature
add_signature platform now stamp id params = apply_signature platform now stamp id params false

pub replace_signature : Platform → ℕ → ℕ → String → AddSignatureParams → Method SignerSession
unfolding apply_signature
replace_signature platform now stamp id params = apply_signature platform now stamp id params true

abbrev reject_slot : RejectionRecord → SignerSlot → SignerSlot
reject_slot r s = record s {
  address = some r.signer_address;
  status = slot_rejected;
  rejection = some r;
}

abbrev pub with_rejection : RejectionRecord → SignerSession → SignerSession
with_rejection r s = record s {
  rejections = insert (slot_key r.signer_address r.role) r s.rejections;
  signer_slots = update_slot r.signer_address r.role (reject_slot r) s.signer_slots;
}

abbrev pub rejection_of : String → SignerRole → String → ℕ → RejectionRecord
rejection_of signer_address r reason stamp = record {
  signer_address = signer_address;
  role = r;
  rejected_at = stamp;
  reason = reason;
}

pub reject_session : ℕ → ℕ → String → String → SignerRole → String → Method SignerSession
reject_session now stamp id signer_address r reason = do
  s ← get_or_throw_session id
  assert_session_active now s
  throw_if (is_blank signer_address) invalid_rejection_params
  throw_if (is_blank reason) invalid_rejection_params
  throw_if (not (has_role s.required_roles r)) role_not_required
  modify (store_session id (with_rejection (rejection_of signer_address r reason stamp) s))
  pure (with_rejection (rejection_of signer_address r reason stamp) s)

-- `getSession`; `none` is `null`.
pub get_session : String → Manager → Option SignerSession
get_session id m = lookup id m.sessions

abbrev pub package_of : SignerSession → ℕ → SessionSubmissionPackage
package_of s now = record {
  session_id = s.session_id;
  payroll_run_id = s.payroll_run_id;
  operation_payload = s.operation_payload;
  payload_hash = s.payload_hash;
  signatures = values s.signatures;
  threshold = s.threshold;
  signatures_count = length (values s.signatures);
  submitted_at = now;
}

pub prepare_submission_package : ℕ → String → Method SessionSubmissionPackage
prepare_submission_package now id = do
  s ← get_or_throw_session id
  throw_if s.is_consumed session_already_consumed
  throw_if (ltb s.expires_at now) session_expired
  throw_if (ltb (length (values s.signatures)) s.threshold) threshold_not_met
  pure (package_of s now)

-- `if (txHash) session.consumedTxHash = txHash`
abbrev pub tx_hash_or : Option String → Option String → Option String
tx_hash_or none old = old
tx_hash_or (some h) old = if str_eq h "" then old else some h

abbrev pub with_consumption : ℕ → Option String → SignerSession → SignerSession
with_consumption stamp tx_hash s = record s {
  is_consumed = true;
  consumed_at = some stamp;
  consumed_tx_hash = tx_hash_or tx_hash s.consumed_tx_hash;
}

pub mark_consumed : ℕ → ℕ → String → Option String → Method SignerSession
mark_consumed now stamp id tx_hash = do
  s ← get_or_throw_session id
  throw_if s.is_consumed session_already_consumed
  throw_if (ltb s.expires_at now) session_expired
  modify (store_session id (with_consumption stamp tx_hash s))
  pure (with_consumption stamp tx_hash s)

-- `expireSessions` only counts.
count_expired : ℕ → List SignerSession → ℕ
count_expired now [] = 0
count_expired now (s ∷ ss) =
    (if not s.is_consumed && ltb s.expires_at now then 1 else 0) + count_expired now ss

pub expire_sessions : ℕ → Manager → ℕ
unfolding count_expired
expire_sessions now m = count_expired now (values m.sessions)
