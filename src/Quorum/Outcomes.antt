-- ===== src/Quorum/Outcomes.antt =====
-- What a call of a method of the session manager has done, by how it ended: the inversion lemmas
-- that the other proofs use with the methods shut.
use Prim.Native.String.{String}
use zk_payroll_sdk.Prelude.{
  ℕ, ◌≡◌, ◌≤◌, ◌<◌, Bool, true, false, not, ◌&&◌, Option, none, some, ◌∷◌, arith, is_some, length,
  ltb, default, ◌+◌, if◌then◌else◌,
}
use zk_payroll_sdk.Prelude.Text.{is_blank, includes, lookup}
use zk_payroll_sdk.Prelude.Action.{ok, err, is_ok}
use zk_payroll_sdk.Quorum.{
  Platform, SignerRole, has_role, SignerSession, AddSignatureParams, CreateSessionParams, Manager,
  session_not_found, slot_key, is_stale, signature_of, with_signature, rejection_of, with_rejection,
  with_consumption, store_session, apply_signature, reject_session, mark_consumed, create_session,
  new_session,
}

-- The guards that an accepted signature has passed.
pub record Signs (p : Platform) (now : ℕ) (m : Manager) (s : SignerSession) (q : AddSignatureParams)
    (replace : Bool) : Type 0 where
  pub live : s.is_consumed ≡ false
  pub in_time : now ≤ s.expires_at
  pub signer : is_blank q.signer_address ≡ false
  pub signed : is_blank q.signature_hex ≡ false
  pub has_nonce : is_blank q.nonce ≡ false
  pub required : has_role s.required_roles q.role ≡ true
  pub fresh_payload : is_stale p s q.operation_payload ≡ false
  pub fresh_nonce : includes m.used_nonces q.nonce ≡ false
  pub new_key :
      (is_some (lookup (slot_key q.signer_address q.role) s.signatures) && not replace) ≡ false
  pub not_rejected : is_some (lookup (slot_key q.signer_address q.role) s.rejections) ≡ false

module _ (p : Platform) (now stamp : ℕ) (id : String) (q : AddSignatureParams) (replace : Bool)
    (m : Manager) where
  pub apply_signature_refused :
      is_ok (apply_signature p now stamp id q replace m).0 ≡ false
      → (apply_signature p now stamp id q replace m).1 ≡ m
  unfolding apply_signature
  apply_signature_refused h = ground arith

  pub apply_signature_accepted :
      {s : SignerSession}
      → lookup id m.sessions ≡ some s
      → is_ok (apply_signature p now stamp id q replace m).0 ≡ true
      → Signs p now m s q replace
  unfolding apply_signature
  apply_signature_accepted e h = ground arith

  pub apply_signature_unknown :
      lookup id m.sessions ≡ none
      → apply_signature p now stamp id q replace m ≡ (err session_not_found, m)
  unfolding apply_signature
  apply_signature_unknown e = ground arith

  abbrev pub signed_session : SignerSession → SignerSession
  signed_session s = with_signature (signature_of q s stamp) s

  abbrev pub signed_manager : SignerSession → Manager
  signed_manager s = record (store_session id (signed_session s) m) {
    used_nonces = q.nonce ∷ m.used_nonces;
  }

  -- All guards passed: the call returns the signed session, stores it and records the nonce.
  pub apply_signature_writes :
      {s : SignerSession}
      → lookup id m.sessions ≡ some s
      → Signs p now m s q replace
      → apply_signature p now stamp id q replace m ≡ (ok (signed_session s), signed_manager s)
  unfolding apply_signature
  apply_signature_writes e h = ground arith

module _ (now stamp : ℕ) (id address : String) (r : SignerRole) (reason : String)
    (m : Manager) where
  pub reject_session_refused :
      is_ok (reject_session now stamp id address r reason m).0 ≡ false
      → (reject_session now stamp id address r reason m).1 ≡ m
  unfolding reject_session
  reject_session_refused h = ground arith

  pub reject_session_accepted :
      {s : SignerSession}
      → lookup id m.sessions ≡ some s
      → is_ok (reject_session now stamp id address r reason m).0 ≡ true
      → (s.is_consumed ≡ false)
        × (now ≤ s.expires_at)
        × (has_role s.required_roles r ≡ true)
        × (reject_session now stamp id address r reason m ≡ (
          ok (with_rejection (rejection_of address r reason stamp) s),
          store_session id (with_rejection (rejection_of address r reason stamp) s) m,
        ))
  unfolding reject_session
  reject_session_accepted e h = ground arith

  pub reject_session_unknown :
      lookup id m.sessions ≡ none
      → reject_session now stamp id address r reason m ≡ (err session_not_found, m)
  unfolding reject_session
  reject_session_unknown e = ground arith

module _ (now stamp : ℕ) (id : String) (tx_hash : Option String) (m : Manager) where
  pub mark_consumed_refused :
      is_ok (mark_consumed now stamp id tx_hash m).0 ≡ false
      → (mark_consumed now stamp id tx_hash m).1 ≡ m
  unfolding mark_consumed
  mark_consumed_refused h = ground arith

  pub mark_consumed_accepted :
      {s : SignerSession}
      → lookup id m.sessions ≡ some s
      → is_ok (mark_consumed now stamp id tx_hash m).0 ≡ true
      → (s.is_consumed ≡ false)
        × (now ≤ s.expires_at)
        × (mark_consumed now stamp id tx_hash m ≡ (
          ok (with_consumption stamp tx_hash s),
          store_session id (with_consumption stamp tx_hash s) m,
        ))
  unfolding mark_consumed
  mark_consumed_accepted e h = ground arith

  pub mark_consumed_unknown :
      lookup id m.sessions ≡ none
      → mark_consumed now stamp id tx_hash m ≡ (err session_not_found, m)
  unfolding mark_consumed
  mark_consumed_unknown e = ground arith

module _ (p : Platform) (now : ℕ) (generated : String) (q : CreateSessionParams) (m : Manager) where
  abbrev pub created_id : String
  created_id = default q.session_id generated

  abbrev pub created_threshold : ℕ
  created_threshold = default q.threshold (length q.required_roles)

  abbrev pub created_expiry : ℕ
  created_expiry =
      let ttl = default q.ttl_ms m.default_ttl_ms in
      default q.expires_at (now + (if ltb m.max_ttl_ms ttl then m.max_ttl_ms else ttl))

  abbrev pub created_session : SignerSession
  created_session = new_session p q created_id created_threshold created_expiry now

  pub create_session_refused :
      is_ok (create_session p now generated q m).0 ≡ false
      → (create_session p now generated q m).1 ≡ m
  unfolding create_session
  create_session_refused h = ground arith

  pub create_session_accepted :
      is_ok (create_session p now generated q m).0 ≡ true
      → (is_blank q.payroll_run_id ≡ false)
        × (0 < created_threshold)
        × (created_threshold ≤ length q.required_roles)
        × (now < created_expiry)
        × (lookup created_id m.sessions ≡ none)
        × (create_session p now generated q m
            ≡ (ok created_session, store_session created_id created_session m))
  unfolding create_session
  create_session_accepted h = ground arith
