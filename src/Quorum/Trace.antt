-- ===== src/Quorum/Trace.antt =====
-- A history of the session manager: any sequence of the calls that can change its state, with the
-- arguments and the readings of the clock that each was given.
use Prim.Native.String.{String}
use zk_payroll_sdk.Prelude.{ℕ, Bool, Option, List, [], ◌∷◌}
use zk_payroll_sdk.Quorum.{
  Platform, SignerRole, AddSignatureParams, CreateSessionParams, Manager, apply_signature,
  reject_session, mark_consumed, create_session,
}

pub data Call : Type 0 where
  create : Platform → ℕ → String → CreateSessionParams → Call
  sign : Platform → ℕ → ℕ → String → AddSignatureParams → Bool → Call
  reject : ℕ → ℕ → String → String → SignerRole → String → Call
  consume : ℕ → ℕ → String → Option String → Call

-- The state after one call, whether it returned or threw.
unfoldable pub after : Call → Manager → Manager
after (create p now generated q) m = (create_session p now generated q m).1
after (sign p now stamp id q replace) m = (apply_signature p now stamp id q replace m).1
after (reject now stamp id address r reason) m = (reject_session now stamp id address r reason m).1
after (consume now stamp id tx_hash) m = (mark_consumed now stamp id tx_hash m).1

unfoldable pub history : List Call → Manager → Manager
history [] m = m
history (c ∷ cs) m = history cs (after c m)
