-- ===== src/Quorum/Summary.antt =====
-- packages/core/src/sessions/QuorumSessionManager.ts, `getSummary`.
use Prim.Native.String.{String}
use zk_payroll_sdk.Prelude.{
  ℕ, ◌+◌, ◌-◌, Option, none, some, List, [], ◌∷◌, map, ltb, leb, if◌then◌else◌, length,
}
use zk_payroll_sdk.Prelude.Text.{str_eq, lookup, values}
use zk_payroll_sdk.Prelude.Action.{◌>>=◌, pure}
use zk_payroll_sdk.Quorum.{
  SignerRole, role_eq, SignatureRecord, RejectionRecord, SignerSlot, SignerSession, Method,
  slot_key, SessionStatus, pending, ready, expired, consumed, rejected, SignerStateSummary,
  SessionSummary, get_or_throw_session,
}

find_signature : SignerRole → List SignatureRecord → Option SignatureRecord
find_signature r [] = none
find_signature r (s ∷ ss) = if role_eq s.role r then some s else find_signature r ss

find_rejection : SignerRole → List RejectionRecord → Option RejectionRecord
find_rejection r [] = none
find_rejection r (s ∷ ss) = if role_eq s.role r then some s else find_rejection r ss

-- `slot.address ? key : undefined`, and the record found under the key or by the role.
slot_signature : SignerSession → SignerSlot → Option String → Option SignatureRecord
unfolding find_signature
slot_signature s slot none = find_signature slot.role (values s.signatures)
slot_signature s slot (some a) =
    if str_eq a ""
    then find_signature slot.role (values s.signatures)
    else lookup (slot_key a slot.role) s.signatures

slot_rejection : SignerSession → SignerSlot → Option String → Option RejectionRecord
unfolding find_rejection
slot_rejection s slot none = find_rejection slot.role (values s.rejections)
slot_rejection s slot (some a) =
    if str_eq a ""
    then find_rejection slot.role (values s.rejections)
    else lookup (slot_key a slot.role) s.rejections

abbrev first_address :
    Option String → Option SignatureRecord → Option RejectionRecord → Option String
first_address (some a) sig rej = some a
first_address none (some sig) rej = some sig.signer_address
first_address none none (some rej) = some rej.signer_address
first_address none none none = none

abbrev optional {ℓ κ} : {A : Type ℓ} {B : Type κ} → (A → B) → Option A → Option B
optional f none = none
optional f (some a) = some (f a)

summarize_slot : SignerSession → SignerSlot → SignerStateSummary
unfolding slot_signature slot_rejection
summarize_slot s slot =
    let sig = slot_signature s slot slot.address in
    let rej = slot_rejection s slot slot.address in
    record {
      signer_address = first_address slot.address sig rej;
      role = slot.role;
      status = slot.status;
      signed_at = optional (λ (r : SignatureRecord). r.signed_at) sig;
      rejected_at = optional (λ (r : RejectionRecord). r.rejected_at) rej;
      rejection_reason = optional (λ (r : RejectionRecord). r.reason) rej;
    }

-- `rejectionCount > totalSlots - threshold` is read with the threshold on the left: the source's
-- difference may be negative.
unfoldable pub session_status : ℕ → SignerSession → SessionStatus
session_status now s =
    if s.is_consumed
    then consumed
    else if ltb s.expires_at now
    then expired
    else if ltb (length s.required_roles) (length (values s.rejections) + s.threshold)
    then rejected
    else if leb s.threshold (length (values s.signatures))
    then ready
    else pending

-- The subtractions stop at 0, as `Math.max(0, …)` makes the source's do.
unfoldable pub get_summary : ℕ → String → Method SessionSummary
unfolding session_status summarize_slot
get_summary now id = do
  s ← get_or_throw_session id
  pure (record {
    session_id = s.session_id;
    payroll_run_id = s.payroll_run_id;
    status = session_status now s;
    threshold = s.threshold;
    signed_count = length (values s.signatures);
    pending_count =
        length s.required_roles - length (values s.signatures) - length (values s.rejections);
    rejection_count = length (values s.rejections);
    is_threshold_met = leb s.threshold (length (values s.signatures));
    is_expired = ltb s.expires_at now;
    is_consumed = s.is_consumed;
    remaining_time_ms = s.expires_at - now;
    signers = map (summarize_slot s) s.signer_slots;
    consumed_tx_hash = s.consumed_tx_hash;
  })
