-- ===== src/Quorum/Soundness.antt =====
-- The invariant of the session manager, and what keeps it for one session.
use Prim.Native.String.{String}
use zk_payroll_sdk.Prelude.{
  ℕ, ◌≡◌, ◌≤◌, ◌<◌, inl, inr, refl, Bool, true, Option, some, List, [], ◌∷◌, map, arith, length,
  All, All-mono, ◌∙◌,
}
use mathlib.Core.Path.{subst₂}
use zk_payroll_sdk.Prelude.Text.{includes, lookup, lookup-insert_cases, All-insert, str_eq_refl}
use zk_payroll_sdk.Quorum.{
  Platform, SignerRole, has_role, SignatureRecord, SignerSlot, SignerSession, AddSignatureParams,
  Manager, slot_key, signature_of, with_signature, with_rejection, RejectionRecord,
  with_consumption, store_session, update_slot,
}
use zk_payroll_sdk.Quorum.Outcomes.{Signs, signed_session}

-- A stored signature stands under its own key, for a required role, over the session's payload,
-- and its nonce is spent.
pub record IsBound (nonces : List String) (s : SignerSession) (k : String) (r : SignatureRecord)
    : Type 0 where
  pub keyed : k ≡ slot_key r.signer_address r.role
  pub required : has_role s.required_roles r.role ≡ true
  pub same_payload : r.payload_hash ≡ s.payload_hash
  pub spent : includes nonces r.nonce ≡ true

pub record IsSound (nonces : List String) (id : String) (s : SignerSession) : Type 0 where
  pub named : s.session_id ≡ id
  pub positive : 0 < s.threshold
  pub reachable : s.threshold ≤ length s.required_roles
  pub lifetime : s.created_at < s.expires_at
  pub slots : map (λ (x : SignerSlot). x.role) s.signer_slots ≡ s.required_roles
  pub bound : All (λ (e : String × SignatureRecord). IsBound nonces s e.0 e.1) s.signatures

abbrev pub IsValid : Manager → Type 0
IsValid m =
    (id : String) (s : SignerSession) → lookup id m.sessions ≡ some s → IsSound m.used_nonces id s

update_slot-roles :
    (address : String) (r : SignerRole) (change : SignerSlot → SignerSlot)
    → ((x : SignerSlot) → (change x).role ≡ x.role)
    → (ss : List SignerSlot)
    → map (λ (x : SignerSlot). x.role) (update_slot address r change ss)
      ≡ map (λ (x : SignerSlot). x.role) ss
unfolding update_slot
update_slot-roles address r change h [] = refl
update_slot-roles address r change h (s ∷ ss) =
    ground (arith, h s, update_slot-roles address r change h ss)

-- One more spent nonce harms no signature.
IsBound-spend :
    (n : String) {nonces : List String} {s : SignerSession} {k : String} {r : SignatureRecord}
    → IsBound nonces s k r
    → IsBound (n ∷ nonces) s k r
IsBound-spend n b = record {
  keyed = b.keyed;
  required = b.required;
  same_payload = b.same_payload;
  spent = ground (arith, b.spent);
}

pub IsSound-spend :
    (n : String) {nonces : List String} {id : String} {s : SignerSession}
    → IsSound nonces id s
    → IsSound (n ∷ nonces) id s
IsSound-spend n h = record {
  named = h.named;
  positive = h.positive;
  reachable = h.reachable;
  lifetime = h.lifetime;
  slots = h.slots;
  bound = All-mono (λ e b. IsBound-spend n b) _ h.bound;
}

pub store-IsValid :
    (id : String) (s : SignerSession) (m : Manager)
    → IsValid m
    → IsSound m.used_nonces id s
    → IsValid (store_session id s m)
store-IsValid id s m v h j t e = elim (lookup-insert_cases id j s m.sessions e) [
  | inl (p, q) ↦ subst₂ (IsSound m.used_nonces) p q h
  | inr (_, old) ↦ v j t old
]

signature-IsBound :
    (p : Platform) (now stamp : ℕ) (q : AddSignatureParams) (replace : Bool) (m : Manager)
    (s : SignerSession)
    → Signs p now m s q replace
    → IsBound
        (q.nonce ∷ m.used_nonces)
        (with_signature (signature_of q s stamp) s)
        (slot_key q.signer_address q.role)
        (signature_of q s stamp)
signature-IsBound p now stamp q replace m s h = record {
  keyed = refl;
  required = h.required;
  same_payload = refl;
  spent = ground (arith, str_eq_refl q.nonce);
}

IsBound-sign :
    (p : Platform) (now stamp : ℕ) (id : String) (q : AddSignatureParams) (replace : Bool)
    (m : Manager) (s : SignerSession) {k : String} {r : SignatureRecord}
    → IsBound m.used_nonces s k r
    → IsBound (q.nonce ∷ m.used_nonces) (signed_session p now stamp id q replace m s) k r
IsBound-sign p now stamp id q replace m s b = record {
  keyed = b.keyed;
  required = b.required;
  same_payload = b.same_payload;
  spent = (IsBound-spend q.nonce b).spent;
}

pub signed-IsSound :
    (p : Platform) (now stamp : ℕ) (id : String) (q : AddSignatureParams) (replace : Bool)
    (m : Manager) (s : SignerSession)
    → Signs p now m s q replace
    → IsSound m.used_nonces id s
    → IsSound (q.nonce ∷ m.used_nonces) id (signed_session p now stamp id q replace m s)
signed-IsSound p now stamp id q replace m s g h = record {
  named = h.named;
  positive = h.positive;
  reachable = h.reachable;
  lifetime = h.lifetime;
  slots = update_slot-roles _ _ _ (λ x. refl) s.signer_slots ∙ h.slots;
  bound =
      All-insert _ _ _ s.signatures (signature-IsBound p now stamp q replace m s g)
        (All-mono (λ e b. IsBound-sign p now stamp id q replace m s b) _ h.bound);
}

-- A session that keeps the fields the invariant speaks of keeps the invariant.
pub rejected-IsSound :
    (nonces : List String) (id : String) (r : RejectionRecord) (s : SignerSession)
    → IsSound nonces id s
    → IsSound nonces id (with_rejection r s)
rejected-IsSound nonces id r s h = record {
  named = h.named;
  positive = h.positive;
  reachable = h.reachable;
  lifetime = h.lifetime;
  slots = update_slot-roles _ _ _ (λ x. refl) s.signer_slots ∙ h.slots;
  bound =
      All-mono
        (λ e b. record {
          keyed = b.keyed;
          required = b.required;
          same_payload = b.same_payload;
          spent = b.spent;
        })
        _ h.bound;
}

pub consumed-IsSound :
    (nonces : List String) (id : String) (stamp : ℕ) (tx_hash : Option String) (s : SignerSession)
    → IsSound nonces id s
    → IsSound nonces id (with_consumption stamp tx_hash s)
consumed-IsSound nonces id stamp tx_hash s h = record {
  named = h.named;
  positive = h.positive;
  reachable = h.reachable;
  lifetime = h.lifetime;
  slots = h.slots;
  bound =
      All-mono
        (λ e b. record {
          keyed = b.keyed;
          required = b.required;
          same_payload = b.same_payload;
          spent = b.spent;
        })
        _ h.bound;
}
