-- ===== src/Approvals/Justified.antt =====
-- packages/core/src/authorization/MultiSignerCoordinator.ts: who signed for the signers of a request.
use Prim.Native.String.{String}
use zk_payroll_sdk.Prelude.{
  ℕ, ◌≤◌, ◌<◌, length, true, false, Bool-cases, default, Option, some, List, [], ◌∷◌, map, All, ◌≡◌,
  inl, inr, refl, arith,
}
use zk_payroll_sdk.Prelude.Text.{lookup}
use zk_payroll_sdk.Quorum.{SignerRole}
use zk_payroll_sdk.Approvals.{
  SignerInfo, AuthorizationRequest, is_signed_state, is_expired, new_signer,
  create_authorization_request, new_request, signed_of, status_of, evaluate_policy, threshold,
}
use zk_payroll_sdk.Approvals.Calls.{Call, create, appoint, sign, reject, withdraw, after, history}
use zk_payroll_sdk.Approvals.Signing.{
  IsSignedFor, HasSigned, AreSigned, IsJustified, IsJustified-later, All-lookup, store-IsJustified,
  sign-IsJustified, reject-IsJustified, withdraw-IsJustified, appoint-IsJustified,
}

new-HasSigned :
    (max_expiry_ms : Option ℕ) (calls : List Call) (r : AuthorizationRequest) (id : String)
    (roles : List SignerRole)
    → All (HasSigned max_expiry_ms calls r id) (map new_signer roles)
new-HasSigned max_expiry_ms calls r id [] = tt
new-HasSigned max_expiry_ms calls r id (role ∷ roles) =
    (inl refl, new-HasSigned max_expiry_ms calls r id roles)

after-IsJustified :
    (max_expiry_ms : Option ℕ) (calls : List Call) (call : Call)
    → let c = history max_expiry_ms calls in
      IsJustified max_expiry_ms calls c → IsJustified max_expiry_ms (call ∷ calls) (after call c)
unfolding after create_authorization_request
after-IsJustified max_expiry_ms calls (create now id operation_id policy roles) h =
    let call = create now id operation_id policy roles in
    let c = history max_expiry_ms calls in
    let r =
      new_request now id operation_id policy roles (default (policy.expiry_ms) (c.max_expiry_ms)) in
    store-IsJustified max_expiry_ms (call ∷ calls) c id r
      (new-HasSigned max_expiry_ms (call ∷ calls) r id roles)
      (IsJustified-later max_expiry_ms calls call c h)
after-IsJustified max_expiry_ms calls (appoint id address r) h =
    let call = appoint id address r in
    let c = history max_expiry_ms calls in
    appoint-IsJustified max_expiry_ms (call ∷ calls) id address r c
      (IsJustified-later max_expiry_ms calls call c h)
after-IsJustified max_expiry_ms calls (sign now stamp id r nonce address) h =
    let call = sign now stamp id r nonce address in
    sign-IsJustified max_expiry_ms calls now stamp id r nonce address
      (IsJustified-later max_expiry_ms calls call (history max_expiry_ms calls) h)
after-IsJustified max_expiry_ms calls (reject now stamp id address reason) h =
    let call = reject now stamp id address reason in
    let c = history max_expiry_ms calls in
    reject-IsJustified max_expiry_ms (call ∷ calls) now stamp id address reason c
      (IsJustified-later max_expiry_ms calls call c h)
after-IsJustified max_expiry_ms calls (withdraw id address) h =
    let call = withdraw id address in
    let c = history max_expiry_ms calls in
    withdraw-IsJustified max_expiry_ms (call ∷ calls) id address c
      (IsJustified-later max_expiry_ms calls call c h)

history-IsJustified :
    (max_expiry_ms : Option ℕ) (calls : List Call)
    → IsJustified max_expiry_ms calls (history max_expiry_ms calls)
unfolding history
history-IsJustified max_expiry_ms [] = tt
history-IsJustified max_expiry_ms (call ∷ calls) =
    after-IsJustified max_expiry_ms calls call (history-IsJustified max_expiry_ms calls)

-- After any calls, every signer of a request who counts as signed was signed for by a call of
-- recordSignature that returned, with the role of the signer, before the request expired, and with the
-- address of the signer or the empty one.
history-HasSigned :
    (max_expiry_ms : Option ℕ) (calls : List Call) (id : String) {r : AuthorizationRequest}
    → lookup id ((history max_expiry_ms calls).requests) ≡ some r
    → All (HasSigned max_expiry_ms calls r id) (r.signers)
history-HasSigned max_expiry_ms calls id {r} found =
    All-lookup (AreSigned max_expiry_ms calls) id ((history max_expiry_ms calls).requests)
      (history-IsJustified max_expiry_ms calls) found

signed_of-IsSignedFor :
    (max_expiry_ms : Option ℕ) (calls : List Call) (r : AuthorizationRequest) (id : String)
    (ss : List SignerInfo)
    → All (HasSigned max_expiry_ms calls r id) ss
    → All (IsSignedFor max_expiry_ms calls r id) (signed_of ss)
signed_of-IsSignedFor max_expiry_ms calls r id [] h = tt
signed_of-IsSignedFor max_expiry_ms calls r id (s ∷ ss) (inl not_signed, h) =
    rw not_signed (signed_of-IsSignedFor max_expiry_ms calls r id ss h)
signed_of-IsSignedFor max_expiry_ms calls r id (s ∷ ss) (inr call, h) =
    let rest = signed_of-IsSignedFor max_expiry_ms calls r id ss h in
    elim (Bool-cases (is_signed_state (s.state))) [
      | inl signs ↦ rw signs (call, rest)
      | inr waits ↦ rw waits rest
    ]

threshold_parts :
    (now : ℕ) (id : String) (r : AuthorizationRequest)
    → r.policy.policy_type ≡ threshold
    → (status_of now id r).is_approved ≡ true
    → (n : ℕ) × (r.policy.least ≡ some n)
      × (0 < n)
      × (n ≤ length (signed_of (r.signers)))
      × (is_expired now r ≡ false)
unfolding status_of evaluate_policy
threshold_parts now id r policy approved = ground (arith, policy, approved)

-- After any calls, a request with a threshold whose status says approved has not expired, and at least as
-- many of its signers as the threshold says have signed, each of them by a call of recordSignature that
-- returned, with the role of the signer, before the request expired, and with the signer's address or the
-- empty one, which the code accepts for a signer who is not appointed yet.
pub threshold-IsSignedFor :
    (max_expiry_ms : Option ℕ) (calls : List Call) (now : ℕ) (id : String)
    {r : AuthorizationRequest}
    → lookup id ((history max_expiry_ms calls).requests) ≡ some r
    → r.policy.policy_type ≡ threshold
    → (status_of now id r).is_approved ≡ true
    → (n : ℕ) × (r.policy.least ≡ some n)
      × (0 < n)
      × (n ≤ length (signed_of (r.signers)))
      × (is_expired now r ≡ false)
      × All (IsSignedFor max_expiry_ms calls r id) (signed_of (r.signers))
threshold-IsSignedFor max_expiry_ms calls now id {r} found policy approved =
    let (n, least, some_needed, enough, alive) = threshold_parts now id r policy approved in
    (
      n,
      least,
      some_needed,
      enough,
      alive,
      signed_of-IsSignedFor max_expiry_ms calls r id (r.signers)
          (history-HasSigned max_expiry_ms calls id found),
    )
