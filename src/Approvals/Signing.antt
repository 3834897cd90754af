-- ===== src/Approvals/Signing.antt =====
-- packages/core/src/authorization/MultiSignerCoordinator.ts: each call keeps that signatures are signed
-- for.
use mathlib.Core.Path.{subst}
use Prim.Native.String.{String}
use zk_payroll_sdk.Prelude.{
  ℕ, Bool, Option, true, false, Bool-cases, &&-true, some, some_inj, List, [], ◌∷◌, All, All-mono,
  ◌≡◌, ◌⊎◌, inl, inr, refl, sym, ◌∙◌, arith,
}
use zk_payroll_sdk.Prelude.Text.{Dict, lookup, str_eq, str_eq→≡, All-insert}
use zk_payroll_sdk.Quorum.{SignerRole, role_eq→≡}
use zk_payroll_sdk.Approvals.{
  SignerInfo, AuthorizationRequest, Coordinator, is_signed_state, is_expired, find_signer,
  update_first, has_role, has_address, is_signer, assign, sign_at, reject_at, revoke, add_signer,
  record_signature, record_rejection, revoke_signature, history_key, change_signer, remember,
  store_request,
}
use zk_payroll_sdk.Approvals.Calls.{Call, sign, history, IsAccepted, succeeds}
use zk_payroll_sdk.Approvals.Outcomes.{
  record_signature-cases, record_rejection-cases, revoke_signature-cases, IsOpen, add_signer-cases,
}

-- An accepted call has signed for the role before the request expired, with the signer's address or,
-- before one was appointed, with the empty address.
abbrev pub IsSignedFor : Option ℕ → List Call → AuthorizationRequest → String → SignerInfo → Type 0
IsSignedFor max_expiry_ms calls r id s =
    ((now : ℕ) × (stamp : ℕ) × (nonce : String) × (address : String) × IsAccepted max_expiry_ms
        (sign now stamp id (s.role) nonce address) calls
      × (is_expired now r ≡ false)
      × ((address ≡ s.address) ⊎ (address ≡ "")))

-- A signer who counts as signed was signed for.
abbrev pub HasSigned : Option ℕ → List Call → AuthorizationRequest → String → SignerInfo → Type 0
HasSigned max_expiry_ms calls r id s =
    (is_signed_state (s.state) ≡ false) ⊎ IsSignedFor max_expiry_ms calls r id s

HasSigned-later :
    (max_expiry_ms : Option ℕ) (calls : List Call) (c : Call) (r : AuthorizationRequest)
    (id : String) (s : SignerInfo)
    → HasSigned max_expiry_ms calls r id s
    → HasSigned max_expiry_ms (c ∷ calls) r id s
HasSigned-later max_expiry_ms calls c r id s (inl h) = inl h
HasSigned-later max_expiry_ms calls c r id s (inr (now, stamp, nonce, address, call, alive, own)) =
    inr (now, stamp, nonce, address, inr call, alive, own)

abbrev pub AreSigned : Option ℕ → List Call → String × AuthorizationRequest → Type 0
AreSigned max_expiry_ms calls e = All (HasSigned max_expiry_ms calls (e.1) (e.0)) (e.1.signers)

abbrev pub IsJustified : Option ℕ → List Call → Coordinator → Type 0
IsJustified max_expiry_ms calls c = All (AreSigned max_expiry_ms calls) (c.requests)

pub IsJustified-later :
    (max_expiry_ms : Option ℕ) (calls : List Call) (call : Call) (c : Coordinator)
    → IsJustified max_expiry_ms calls c
    → IsJustified max_expiry_ms (call ∷ calls) c
IsJustified-later max_expiry_ms calls call c h =
    All-mono
      (λ e. All-mono (λ s. HasSigned-later max_expiry_ms calls call (e.1) (e.0) s) (e.1.signers))
      (c.requests) h

-- What holds of all entries holds of the one that is found.
pub All-lookup {κ} :
    (P : String × AuthorizationRequest → Type κ) (k : String) {v : AuthorizationRequest}
    (d : Dict AuthorizationRequest)
    → All P d
    → lookup k d ≡ some v
    → P (k, v)
All-lookup P k {v} [] h e = cc
All-lookup P k {v} ((j, w) ∷ d) (p, h) e = elim (Bool-cases (str_eq j k)) [
  | inl same ↦
      let found : some w ≡ some v = rw same at e in
      subst (λ i. P (i, v)) (str_eq→≡ j k same) (subst (λ u. P (j, u)) (some_inj found) p)
  | inr other ↦ All-lookup P k d h (ground (arith, e, other))
]

-- A change of the signer that is found keeps a predicate that it keeps there.
update_first-All {κ} :
    (P : SignerInfo → Type κ) (p : SignerInfo → Bool) (change : SignerInfo → SignerInfo)
    (ss : List SignerInfo)
    → ((s : SignerInfo) → p s ≡ true → find_signer p ss ≡ some s → P s → P (change s))
    → All P ss
    → All P (update_first p change ss)
update_first-All P p change [] step h = tt
update_first-All P p change (s ∷ ss) step (q, h) = elim (Bool-cases (p s)) [
  | inl here ↦ rw here (step s here (rw here refl) q, h)
  | inr later ↦ rw later (q, update_first-All P p change ss (λ t yes e. step t yes (rw later e)) h)
]

pub store-IsJustified :
    (max_expiry_ms : Option ℕ) (calls : List Call) (c : Coordinator) (id : String)
    (r : AuthorizationRequest)
    → All (HasSigned max_expiry_ms calls r id) (r.signers)
    → IsJustified max_expiry_ms calls c
    → IsJustified max_expiry_ms calls (store_request id r c)
store-IsJustified max_expiry_ms calls c id r new h =
    All-insert (AreSigned max_expiry_ms calls) id r (c.requests) new h

-- A change of a signer of a request keeps the invariant when it keeps it for that signer.
change_signer-IsJustified :
    (max_expiry_ms : Option ℕ) (calls : List Call) (c : Coordinator) (id : String)
    (r : AuthorizationRequest) (p : SignerInfo → Bool) (change : SignerInfo → SignerInfo)
    → lookup id (c.requests) ≡ some r
    → ((s : SignerInfo)
        → p s ≡ true
        → find_signer p (r.signers) ≡ some s
        → HasSigned max_expiry_ms calls r id s
        → HasSigned max_expiry_ms calls r id (change s))
    → IsJustified max_expiry_ms calls c
    → IsJustified max_expiry_ms calls (change_signer id r p change c)
change_signer-IsJustified max_expiry_ms calls c id r p change found step h =
    store-IsJustified max_expiry_ms calls c id
      (record r { signers = update_first p change (r.signers) })
      (update_first-All (HasSigned max_expiry_ms calls r id) p change (r.signers) step
        (All-lookup (AreSigned max_expiry_ms calls) id (c.requests) h found))
      h

pub sign-IsJustified :
    (max_expiry_ms : Option ℕ) (calls : List Call) (now stamp : ℕ) (id : String) (r : SignerRole)
    (nonce address : String)
    → IsJustified max_expiry_ms
        (sign now stamp id r nonce address ∷ calls)
        (history max_expiry_ms calls)
    → IsJustified max_expiry_ms
        (sign now stamp id r nonce address ∷ calls)
        ((record_signature now stamp id r nonce address (history max_expiry_ms calls)).1)
unfolding succeeds
sign-IsJustified max_expiry_ms calls now stamp id r nonce address h =
    let call = sign now stamp id r nonce address in
    let c = history max_expiry_ms calls in
    elim (record_signature-cases now stamp id r nonce address c) [
      | inl same ↦ subst (IsJustified max_expiry_ms (call ∷ calls)) (sym same) h
      | inr (request, found, alive, accepted, changed) ↦
          let done : succeeds call c ≡ true = rw (succeeds, accepted) refl in
          subst (IsJustified max_expiry_ms (call ∷ calls)) (sym changed) (
            change_signer-IsJustified max_expiry_ms (call ∷ calls)
              (remember (history_key id address) nonce c) id request (is_signer address r)
              (sign_at stamp) found
              (λ s his _ _.
                let (own, role) = &&-true _ _ his in
                let same_role : r ≡ s.role = sym (role_eq→≡ (s.role) r role) in
                inr (
                  now,
                  stamp,
                  nonce,
                  address,
                  subst
                      (λ q.
                        IsAccepted max_expiry_ms (sign now stamp id q nonce address) (call ∷ calls))
                      same_role (inl (refl, done)),
                  alive,
                  inl (sym (str_eq→≡ (s.address) address own)),
                ))
              h)
    ]

pub reject-IsJustified :
    (max_expiry_ms : Option ℕ) (calls : List Call) (now stamp : ℕ) (id address reason : String)
    (c : Coordinator)
    → IsJustified max_expiry_ms calls c
    → IsJustified max_expiry_ms calls ((record_rejection now stamp id address reason c).1)
reject-IsJustified max_expiry_ms calls now stamp id address reason c h =
    elim (record_rejection-cases now stamp id address reason c) [
      | inl same ↦ subst (IsJustified max_expiry_ms calls) (sym same) h
      | inr (request, found, changed) ↦ subst (IsJustified max_expiry_ms calls) (sym changed) (
          change_signer-IsJustified max_expiry_ms calls c id request (has_address address)
            (reject_at stamp reason) found (λ s _ _ _. inl refl) h)
    ]

pub withdraw-IsJustified :
    (max_expiry_ms : Option ℕ) (calls : List Call) (id address : String) (c : Coordinator)
    → IsJustified max_expiry_ms calls c
    → IsJustified max_expiry_ms calls ((revoke_signature id address c).1)
withdraw-IsJustified max_expiry_ms calls id address c h =
    elim (revoke_signature-cases id address c) [
      | inl same ↦ subst (IsJustified max_expiry_ms calls) (sym same) h
      | inr (request, found, changed) ↦ subst (IsJustified max_expiry_ms calls) (sym changed) (
          change_signer-IsJustified max_expiry_ms calls c id request (has_address address) revoke
            found (λ s _ _ _. inl refl) h)
    ]

-- An address that is set afterwards belongs to who signed, or the signer had no address.
assign-HasSigned :
    (max_expiry_ms : Option ℕ) (calls : List Call) (r : AuthorizationRequest) (id address : String)
    (s : SignerInfo)
    → IsOpen address s
    → HasSigned max_expiry_ms calls r id s
    → HasSigned max_expiry_ms calls r id (assign address s)
assign-HasSigned max_expiry_ms calls r id address s open_slot (inl h) = inl h
assign-HasSigned max_expiry_ms calls r id address s open_slot
      (inr (now, stamp, nonce, a, call, alive, inr blank)) =
    inr (now, stamp, nonce, a, call, alive, inr blank)
assign-HasSigned max_expiry_ms calls r id address s (inl empty)
      (inr (now, stamp, nonce, a, call, alive, inl own)) =
    inr (now, stamp, nonce, a, call, alive, inr (own ∙ str_eq→≡ (s.address) "" empty))
assign-HasSigned max_expiry_ms calls r id address s (inr same)
      (inr (now, stamp, nonce, a, call, alive, inl own)) =
    inr (now, stamp, nonce, a, call, alive, inl (own ∙ str_eq→≡ (s.address) address same))

pub appoint-IsJustified :
    (max_expiry_ms : Option ℕ) (calls : List Call) (id address : String) (r : SignerRole)
    (c : Coordinator)
    → IsJustified max_expiry_ms calls c
    → IsJustified max_expiry_ms calls ((add_signer id address r c).1)
appoint-IsJustified max_expiry_ms calls id address r c h = elim (add_signer-cases id address r c) [
  | inl same ↦ subst (IsJustified max_expiry_ms calls) (sym same) h
  | inr (request, found, s, first, open_slot, changed) ↦
      subst (IsJustified max_expiry_ms calls) (sym changed) (
        change_signer-IsJustified max_expiry_ms calls c id request (has_role r) (assign address)
          found
          (λ t _ it has.
            assign-HasSigned max_expiry_ms calls request id address t
              (subst (IsOpen address) (some_inj (sym first ∙ it)) open_slot) has)
          h)
]
