-- ===== src/Quorum/Quota.antt =====
-- The quorum: what a submission package promises, how it relates to the summary that users see, and
-- how signatures are counted.
use Prim.Native.String.{String}
use zk_payroll_sdk.Prelude.{
  ℕ, suc, ◌≡◌, ◌≤◌, ◌<◌, ◌⊎◌, inl, inr, refl, Bool, true, false, some, List, [], ◌∷◌, arith,
  Option-cases, length, All, All-mono, is_some, if◌then◌else◌,
}
use zk_payroll_sdk.Prelude.Text.{
  includes, lookup, values, length-values, length-insert, All-values, lookup-insert_self,
}
use zk_payroll_sdk.Prelude.Action.{Result, is_ok, ok, err}
use zk_payroll_sdk.Quorum.{
  Platform, SignerRole, has_role, SignatureRecord, SignerSlot, takes_slot, update_slot,
  SignerSession, AddSignatureParams, Manager, SessionError, SessionSubmissionPackage, SessionStatus,
  SessionSummary, ready, slot_key, apply_signature, prepare_submission_package, package_of,
  signature_of,
}
use zk_payroll_sdk.Quorum.Summary.{get_summary}
use zk_payroll_sdk.Quorum.Soundness.{IsValid}
use zk_payroll_sdk.Quorum.Outcomes.{
  apply_signature_accepted, apply_signature_writes, signed_session,
}

-- The statuses that a call of `getSummary` reports.
abbrev pub Reports : SessionStatus → Result SessionError SessionSummary → Type 0
Reports st (ok r) = r.status ≡ st
Reports st (err e) = ⊥

-- A session that the summary reports as ready is submitted: at the same time, preparing its package
-- succeeds, and the package holds the session's signatures, at least as many as the threshold.
pub ready_prepares :
    (now : ℕ) (id : String) (m : Manager)
    → Reports ready (get_summary now id m).0
    → (s : SignerSession) × (pkg : SessionSubmissionPackage) × (lookup id m.sessions ≡ some s)
      × (prepare_submission_package now id m ≡ (ok pkg, m))
      × (pkg.signatures ≡ values s.signatures)
      × (pkg.threshold ≤ length pkg.signatures)
unfolding get_summary prepare_submission_package
ready_prepares now id m h = elim (Option-cases (lookup id m.sessions)) [
  | inl unknown ↦ absurd (ground arith)
  | inr (s, e) ↦ (s, package_of s now, e, ground arith, refl, ground arith)
]

-- What a package in hand says of the session that it was made from.
pub record IsEndorsed (now : ℕ) (m : Manager) (s : SignerSession) (pkg : SessionSubmissionPackage)
    : Type 0 where
  pub live : s.is_consumed ≡ false
  pub in_time : now ≤ s.expires_at
  pub same_payload : pkg.payload_hash ≡ s.payload_hash
  pub some_signed : 0 < length pkg.signatures
  pub quorum : s.threshold ≤ length pkg.signatures
  pub counted : pkg.signatures_count ≡ length pkg.signatures
  pub endorsed :
      All
        (λ (r : SignatureRecord).
          (r.payload_hash ≡ pkg.payload_hash)
          × (has_role s.required_roles r.role ≡ true)
          × (includes m.used_nonces r.nonce ≡ true))
        pkg.signatures

-- In a valid state, a submission package that is handed out is for a stored session that is neither
-- consumed nor expired; it has at least one signature and at least as many as the threshold, and
-- every one of them was given for the package's payload hash, by a role that the session requires,
-- with a nonce that is spent. The state is unchanged.
pub prepare_submission_package-IsEndorsed :
    (now : ℕ) (id : String) (m : Manager)
    → IsValid m
    → is_ok (prepare_submission_package now id m).0 ≡ true
    → (s : SignerSession) × (lookup id m.sessions ≡ some s)
      × (prepare_submission_package now id m ≡ (ok (package_of s now), m))
      × IsEndorsed now m s (package_of s now)
unfolding prepare_submission_package
prepare_submission_package-IsEndorsed now id m v h = elim (Option-cases (lookup id m.sessions)) [
  | inl unknown ↦ absurd (ground arith)
  | inr (s, e) ↦
      let sound = v id s e in
      (
        s,
        e,
        ground arith,
        record {
          live = ground arith;
          in_time = ground arith;
          same_payload = refl;
          some_signed = ground (arith, sound.positive);
          quorum = ground arith;
          counted = refl;
          endorsed =
              All-values _ s.signatures
                (All-mono (λ e b. (b.same_payload, b.required, b.spent)) _ sound.bound);
        },
      )
]

-- An accepted signature raises the count of signatures by one, unless it replaces one by the same
-- signer in the same role; a signature that is not a replacement always raises it.
apply_signature-count :
    (p : Platform) (now stamp : ℕ) (id : String) (q : AddSignatureParams) (replace : Bool)
    (m : Manager) {s : SignerSession}
    → lookup id m.sessions ≡ some s
    → is_ok (apply_signature p now stamp id q replace m).0 ≡ true
    → (t : SignerSession) × (lookup id (apply_signature p now stamp id q replace m).1.sessions
        ≡ some t)
      × (length (values t.signatures) ≡ (
          if is_some (lookup (slot_key q.signer_address q.role) s.signatures)
          then length (values s.signatures)
          else suc (length (values s.signatures))))
      × ((replace ≡ true) ⊎ (length (values t.signatures) ≡ suc (length (values s.signatures))))
apply_signature-count p now stamp id q replace m {s} e done =
    let g = apply_signature_accepted p now stamp id q replace m e done in
    (
      signed_session p now stamp id q replace m s,
      rw (apply_signature_writes p now stamp id q replace m e g)
          (lookup-insert_self id _ m.sessions),
      ground (
        arith,
        length-values s.signatures,
        length-values (signed_session p now stamp id q replace m s).signatures,
        length-insert (slot_key q.signer_address q.role) (signature_of q s stamp) s.signatures,
      ),
      ground (
        arith,
        g.new_key,
        length-values s.signatures,
        length-values (signed_session p now stamp id q replace m s).signatures,
        length-insert (slot_key q.signer_address q.role) (signature_of q s stamp) s.signatures,
      ),
    )

-- No slot of the session is for this signer: each is for another role, or assigned to somebody else.
abbrev pub IsOutsider : SignerSession → AddSignatureParams → Type 0
IsOutsider s q =
    All (λ (x : SignerSlot). takes_slot q.signer_address q.role x ≡ false) s.signer_slots

update_slot_closed :
    (address : String) (r : SignerRole) (change : SignerSlot → SignerSlot) (ss : List SignerSlot)
    → All (λ (x : SignerSlot). takes_slot address r x ≡ false) ss
    → update_slot address r change ss ≡ ss
unfolding update_slot
update_slot_closed address r change [] h = refl
update_slot_closed address r change (s ∷ ss) h =
    rw (h.0, update_slot_closed address r change ss h.1)

-- The slots do not restrict who counts towards the quorum: an accepted new signature raises the
-- count of signatures by one also if every slot of its role is assigned to another address, and
-- then it changes no slot.
pub outsider_counts :
    (p : Platform) (now stamp : ℕ) (id : String) (q : AddSignatureParams) (m : Manager)
    {s : SignerSession}
    → lookup id m.sessions ≡ some s
    → IsOutsider s q
    → is_ok (apply_signature p now stamp id q false m).0 ≡ true
    → (t : SignerSession) × (lookup id (apply_signature p now stamp id q false m).1.sessions
        ≡ some t)
      × (t.signer_slots ≡ s.signer_slots)
      × (length (values t.signatures) ≡ suc (length (values s.signatures)))
outsider_counts p now stamp id q m {s} e outside done =
    let g = apply_signature_accepted p now stamp id q false m e done in
    (
      signed_session p now stamp id q false m s,
      rw (apply_signature_writes p now stamp id q false m e g) (lookup-insert_self id _ m.sessions),
      update_slot_closed _ _ _ s.signer_slots outside,
      ground (
        arith,
        g.new_key,
        length-values s.signatures,
        length-values (signed_session p now stamp id q false m s).signatures,
        length-insert (slot_key q.signer_address q.role) (signature_of q s stamp) s.signatures,
      ),
    )
