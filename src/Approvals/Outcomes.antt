-- ===== src/Approvals/Outcomes.antt =====
-- packages/core/src/authorization/MultiSignerCoordinator.ts: what the methods leave behind.
use Prim.Native.String.{String}
use zk_payroll_sdk.Prelude.{ℕ, true, false, some, ◌≡◌, ◌⊎◌, arith}
use zk_payroll_sdk.Prelude.Text.{lookup, str_eq}
use zk_payroll_sdk.Prelude.Action.{ok}
use zk_payroll_sdk.Quorum.{SignerRole}
use zk_payroll_sdk.Approvals.{
  SignerInfo, AuthorizationRequest, Coordinator, is_expired, find_signer, has_role, has_address,
  is_signer, assign, sign_at, reject_at, revoke, add_signer, record_signature, record_rejection,
  revoke_signature, history_key, change_signer, remember,
}

pub record_signature-cases :
    (now stamp : ℕ) (id : String) (r : SignerRole) (nonce address : String) (c : Coordinator)
    → ((record_signature now stamp id r nonce address c).1 ≡ c)
      ⊎ ((request : AuthorizationRequest) × (lookup id (c.requests) ≡ some request)
          × (is_expired now request ≡ false)
          × ((record_signature now stamp id r nonce address c).0 ≡ ok tt)
          × ((record_signature now stamp id r nonce address c).1
              ≡ change_signer id request
                  (is_signer address r)
                  (sign_at stamp)
                  (remember (history_key id address) nonce c)))
unfolding record_signature
record_signature-cases now stamp id r nonce address c = ground arith

pub record_rejection-cases :
    (now stamp : ℕ) (id address reason : String) (c : Coordinator)
    → ((record_rejection now stamp id address reason c).1 ≡ c)
      ⊎ ((request : AuthorizationRequest) × (lookup id (c.requests) ≡ some request)
          × ((record_rejection now stamp id address reason c).1
              ≡ change_signer id request (has_address address) (reject_at stamp reason) c))
unfolding record_rejection
record_rejection-cases now stamp id address reason c = ground arith

pub revoke_signature-cases :
    (id address : String) (c : Coordinator)
    → ((revoke_signature id address c).1 ≡ c)
      ⊎ ((request : AuthorizationRequest) × (lookup id (c.requests) ≡ some request)
          × ((revoke_signature id address c).1
              ≡ change_signer id request (has_address address) revoke c))
unfolding revoke_signature
revoke_signature-cases id address c = ground arith

-- The signer whose address is set had none, or this one.
abbrev pub IsOpen : String → SignerInfo → Type 0
IsOpen address s = (str_eq (s.address) "" ≡ true) ⊎ (str_eq (s.address) address ≡ true)

pub add_signer-cases :
    (id address : String) (r : SignerRole) (c : Coordinator)
    → ((add_signer id address r c).1 ≡ c)
      ⊎ ((request : AuthorizationRequest) × (lookup id (c.requests) ≡ some request)
          × (s : SignerInfo) × (find_signer (has_role r) (request.signers) ≡ some s)
          × IsOpen address s
          × ((add_signer id address r c).1
              ≡ change_signer id request (has_role r) (assign address) c))
unfolding add_signer
add_signer-cases id address r c = ground arith
