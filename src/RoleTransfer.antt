-- ===== src/RoleTransfer.antt =====
-- packages/core/src/authorization/roleTransfer.ts: the handover of a privileged role. Epoch
-- milliseconds are natural numbers. A role that arrives as a string is an `Option`, `none` where it
-- is none of `SIGNER_ROLE_GROUPS`. The counter behind `generateId` only makes ids differ, so the
-- caller gives the id. Messages and the printed description are left out.
pub mod Lifecycle
pub mod History
mod Tests
use Prim.Native.Char.{code}
use Prim.Native.Nat.{pred}
use Prim.Native.String.{String}
use zk_payroll_sdk.Prelude.{
  ℕ, suc, ◌+◌, ◌*◌, Bool, true, false, not, ◌&&◌, ◌||◌, Option, none, some, ltb, leb, ◌==◌,
  if◌then◌else◌, default, is_some,
}
use zk_payroll_sdk.Prelude.Text.{str_eq}
use zk_payroll_sdk.Prelude.Action.{Result, ok, err}
use zk_payroll_sdk.Quorum.{SignerRole}

abbrev pub default_acceptance_window_ms : ℕ
default_acceptance_window_ms = 48 * 60 * 60 * 1000

abbrev pub min_acceptance_window_ms : ℕ
min_acceptance_window_ms = 5 * 60 * 1000

abbrev pub max_acceptance_window_ms : ℕ
max_acceptance_window_ms = 30 * 24 * 60 * 60 * 1000

pub data RoleTransferStatus : Type 0 where
  pending accepted finalized cancelled expired : RoleTransferStatus

pub record RoleTransferRecord : Type 0 where
  pub id : String
  pub role : SignerRole
  pub from_address : String
  pub to_address : String
  pub status : RoleTransferStatus
  pub proposed_at : ℕ
  pub expires_at : ℕ
  pub accepted_at : Option ℕ
  pub finalized_at : Option ℕ
  pub cancelled_at : Option ℕ
  pub reason : Option String

pub record ProposeRoleTransferInput : Type 0 where
  pub role : Option SignerRole
  pub from_address : String
  pub to_address : String
  pub acceptance_window_ms : Option ℕ
  pub reason : Option String

pub data RoleTransferErrorCode : Type 0 where
  invalid_role same_address invalid_window not_pending not_accepted : RoleTransferErrorCode
  already_finalized is_expired not_current_holder not_nominee invalid_address :
      RoleTransferErrorCode

abbrev pub RoleTransferResult : Type 0
RoleTransferResult = Result RoleTransferErrorCode RoleTransferRecord

-- `[A-Z2-7]`
abbrev is_base32 : ℕ → Bool
is_base32 c = (leb b'A' c && leb c b'Z') || (leb b'2' c && leb c b'7')

base32_tail : ℕ → String → Bool
base32_tail n String.[] = n == 0
base32_tail n (String.◌∷◌ c s) = ltb 0 n && is_base32 (code c) && base32_tail (pred n) s

-- `/^[GC][A-Z2-7]{55}$/`
unfoldable pub is_valid_address : String → Bool
unfolding base32_tail
is_valid_address String.[] = false
is_valid_address (String.◌∷◌ c s) = (code c == b'G' || code c == b'C') && base32_tail 55 s

unfoldable pub propose_role_transfer : String → ProposeRoleTransferInput → ℕ → RoleTransferResult
propose_role_transfer id input now = elim input.role [
  | none ↦ err invalid_role
  | some r ↦
      let window = default input.acceptance_window_ms default_acceptance_window_ms in
      if not (is_valid_address input.from_address)
      then err invalid_address
      else if not (is_valid_address input.to_address)
      then err invalid_address
      else if str_eq input.from_address input.to_address
      then err same_address
      else if ltb window min_acceptance_window_ms || ltb max_acceptance_window_ms window
      then err invalid_window
      else ok (record {
        id = id;
        role = r;
        from_address = input.from_address;
        to_address = input.to_address;
        status = pending;
        proposed_at = now;
        expires_at = now + window;
        accepted_at = none;
        finalized_at = none;
        cancelled_at = none;
        reason = input.reason;
      })
]

abbrev pub status_eq : RoleTransferStatus → RoleTransferStatus → Bool
status_eq pending pending = true
status_eq accepted accepted = true
status_eq finalized finalized = true
status_eq cancelled cancelled = true
status_eq expired expired = true
status_eq _ _ = false

unfoldable pub accept_role_transfer : RoleTransferRecord → String → ℕ → RoleTransferResult
accept_role_transfer t acceptor now =
    if status_eq t.status expired || leb t.expires_at now
    then err is_expired
    else if not (status_eq t.status pending)
    then err not_pending
    else if not (str_eq acceptor t.to_address)
    then err not_nominee
    else ok (record t { status = accepted; accepted_at = some now })

unfoldable pub finalize_role_transfer : RoleTransferRecord → String → ℕ → RoleTransferResult
finalize_role_transfer t finalizer now =
    if status_eq t.status finalized
    then err already_finalized
    else if not (status_eq t.status accepted)
    then err not_accepted
    else if not (str_eq finalizer t.from_address)
    then err not_current_holder
    else ok (record t { status = finalized; finalized_at = some now })

unfoldable pub cancel_role_transfer : RoleTransferRecord → String → ℕ → RoleTransferResult
cancel_role_transfer t canceller now =
    if status_eq t.status finalized
    then err already_finalized
    else if status_eq t.status cancelled
    then err not_pending
    else if not (str_eq canceller t.from_address)
    then err not_current_holder
    else ok (record t { status = cancelled; cancelled_at = some now })

unfoldable pub resolve_transfer_status : RoleTransferRecord → ℕ → RoleTransferStatus
resolve_transfer_status t now =
    if status_eq t.status pending && leb t.expires_at now then expired else t.status
