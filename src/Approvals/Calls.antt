-- ===== src/Approvals/Calls.antt =====
-- A history of MultiSignerCoordinator: the calls that can change its state, the latest first.
use Prim.Native.String.{String}
use zk_payroll_sdk.Prelude.{ℕ, Bool, true, Option, List, [], ◌∷◌, ◌≡◌, ◌⊎◌}
use zk_payroll_sdk.Prelude.Action.{is_ok}
use zk_payroll_sdk.Quorum.{SignerRole}
use zk_payroll_sdk.Approvals.{
  AuthorizationPolicy, Coordinator, new_coordinator, create_authorization_request, add_signer,
  record_signature, record_rejection, revoke_signature,
}

pub data Call : Type 0 where
  create : ℕ → String → String → AuthorizationPolicy → List SignerRole → Call
  appoint : String → String → SignerRole → Call
  sign : ℕ → ℕ → String → SignerRole → String → String → Call
  reject : ℕ → ℕ → String → String → String → Call
  withdraw : String → String → Call

-- The state after one call, whether it returned or threw.
unfoldable pub after : Call → Coordinator → Coordinator
after (create now id operation_id policy roles) c =
    (create_authorization_request now id operation_id policy roles c).1
after (appoint id address r) c = (add_signer id address r c).1
after (sign now stamp id r nonce address) c = (record_signature now stamp id r nonce address c).1
after (reject now stamp id address reason) c = (record_rejection now stamp id address reason c).1
after (withdraw id address) c = (revoke_signature id address c).1

unfoldable pub history : Option ℕ → List Call → Coordinator
unfolding after
history max_expiry_ms [] = new_coordinator max_expiry_ms
history max_expiry_ms (call ∷ calls) = after call (history max_expiry_ms calls)

-- Whether a call returned, and did not throw.
unfoldable pub succeeds : Call → Coordinator → Bool
succeeds (create now id operation_id policy roles) c =
    is_ok ((create_authorization_request now id operation_id policy roles c).0)
succeeds (appoint id address r) c = is_ok ((add_signer id address r c).0)
succeeds (sign now stamp id r nonce address) c =
    is_ok ((record_signature now stamp id r nonce address c).0)
succeeds (reject now stamp id address reason) c =
    is_ok ((record_rejection now stamp id address reason c).0)
succeeds (withdraw id address) c = is_ok ((revoke_signature id address c).0)

-- The call was made and returned, with the calls before it as the state it met.
abbrev pub IsAccepted : Option ℕ → Call → List Call → Type 0
IsAccepted max_expiry_ms call [] = ⊥
IsAccepted max_expiry_ms call (c ∷ calls) =
    ((call ≡ c) × (succeeds call (history max_expiry_ms calls) ≡ true))
    ⊎ IsAccepted max_expiry_ms call calls
