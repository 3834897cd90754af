-- ===== src/RoleTransfer/Lifecycle.antt =====
-- The life of a role transfer: who may do what and when, over any sequence of attempts.
use Prim.Native.String.{String}
use zk_payroll_sdk.Prelude.{
  ℕ, ◌+◌, ◌≡◌, ◌≢◌, ◌≤◌, ◌<◌, ◌⊎◌, true, false, none, some, List, [], ◌∷◌, arith, ◌↔◌,
}
use zk_payroll_sdk.Prelude.Text.{str_eq→≡, ≡→str_eq}
use zk_payroll_sdk.Prelude.Action.{ok, err, is_ok}
use zk_payroll_sdk.RoleTransfer.{
  pending, accepted, finalized, cancelled, expired, RoleTransferRecord, ProposeRoleTransferInput,
  RoleTransferResult, propose_role_transfer, accept_role_transfer, finalize_role_transfer,
  cancel_role_transfer, resolve_transfer_status, min_acceptance_window_ms, max_acceptance_window_ms,
}

-- A party's attempt at a time; the record that the application keeps is the result of the last
-- attempt that succeeded.
pub data Attempt : Type 0 where
  accept finalize cancel : String → ℕ → Attempt

unfoldable pub attempt : Attempt → RoleTransferRecord → RoleTransferResult
attempt (accept a now) t = accept_role_transfer t a now
attempt (finalize a now) t = finalize_role_transfer t a now
attempt (cancel a now) t = cancel_role_transfer t a now

abbrev pub keep : RoleTransferRecord → RoleTransferResult → RoleTransferRecord
keep t (ok t') = t'
keep t (err e) = t

unfoldable pub attempts : List Attempt → RoleTransferRecord → RoleTransferRecord
attempts [] t = t
attempts (a ∷ as') t = attempts as' (keep t (attempt a t))

abbrev pub AnyOf : (Attempt → Type 0) → List Attempt → Type 0
AnyOf P [] = ⊥
AnyOf P (a ∷ as') = P a ⊎ AnyOf P as'

-- Some attempt satisfies `P`, and a later one `Q`.
abbrev pub InOrder : (Attempt → Type 0) → (Attempt → Type 0) → List Attempt → Type 0
InOrder P Q [] = ⊥
InOrder P Q (a ∷ as') = (P a × AnyOf Q as') ⊎ InOrder P Q as'

abbrev pub IsAcceptance : String → ℕ → Attempt → Type 0
IsAcceptance nominee deadline a = (now : ℕ) × (a ≡ accept nominee now) × (now < deadline)

abbrev pub IsFinalization : String → Attempt → Type 0
IsFinalization holder a = (now : ℕ) × (a ≡ finalize holder now)

-- What holds of a record between two attempts.
pub record IsRegular (t : RoleTransferRecord) : Type 0 where
  pub two_parties : t.from_address ≢ t.to_address
  pub window :
      (t.proposed_at + min_acceptance_window_ms ≤ t.expires_at)
      × (t.expires_at ≤ t.proposed_at + max_acceptance_window_ms)
  pub not_yet :
      t.status ≡ pending
      → (t.accepted_at ≡ none) × (t.finalized_at ≡ none) × (t.cancelled_at ≡ none)
  pub in_window : (at : ℕ) → t.accepted_at ≡ some at → at < t.expires_at
  pub accepted_first : (t.status ≡ accepted) ⊎ (t.status ≡ finalized) → t.accepted_at ≢ none
  pub finalized_once : (t.status ≡ finalized) ↔ (t.finalized_at ≢ none)
  pub cancelled_once : (t.status ≡ cancelled) ↔ (t.cancelled_at ≢ none)
  pub never_expired : t.status ≢ expired

keep-IsRegular :
    (a : Attempt) (t : RoleTransferRecord) → IsRegular t → IsRegular (keep t (attempt a t))
unfolding attempt accept_role_transfer finalize_role_transfer cancel_role_transfer
keep-IsRegular (accept a now) t h = grind arith
keep-IsRegular (finalize a now) t h = grind arith
keep-IsRegular (cancel a now) t h = grind arith

attempts-IsRegular_from :
    (as' : List Attempt) (t : RoleTransferRecord) → IsRegular t → IsRegular (attempts as' t)
unfolding attempts
attempts-IsRegular_from [] t h = h
attempts-IsRegular_from (a ∷ as') t h = attempts-IsRegular_from as' _ (keep-IsRegular a t h)

pub propose-IsRegular :
    (id : String) (input : ProposeRoleTransferInput) (now : ℕ) {t : RoleTransferRecord}
    → propose_role_transfer id input now ≡ ok t
    → (t.status ≡ pending) × IsRegular t
unfolding propose_role_transfer
propose-IsRegular id input now h = grind (arith, ≡→str_eq input.from_address input.to_address)

-- Acceptance succeeds exactly when the effective status is pending and the caller is the nominee.
pub accept_iff :
    (t : RoleTransferRecord) (who : String) (now : ℕ)
    → (is_ok (accept_role_transfer t who now) ≡ true)
      ↔ ((resolve_transfer_status t now ≡ pending) × (who ≡ t.to_address))
unfolding accept_role_transfer resolve_transfer_status
accept_iff t who now = ground (arith, str_eq→≡ who t.to_address, ≡→str_eq who t.to_address)

pub attempt-settled :
    (a : Attempt) (t : RoleTransferRecord)
    → (t.status ≡ finalized) ⊎ (t.status ≡ cancelled)
    → is_ok (attempt a t) ≡ false
unfolding attempt accept_role_transfer finalize_role_transfer cancel_role_transfer
attempt-settled (accept a now) t h = ground arith
attempt-settled (finalize a now) t h = ground arith
attempt-settled (cancel a now) t h = ground arith

-- Whatever is attempted on a transfer that was proposed successfully, its record stays regular: its
-- parties differ; its window is 5 minutes to 30 days long; while pending it has no later times; an
-- acceptance lies before the end of the window; accepted and finalized records have been accepted;
-- a finalization time is there exactly when it is finalized, a cancellation time exactly when it is
-- cancelled; the status `expired` is never written.
pub attempts-IsRegular :
    (id : String) (input : ProposeRoleTransferInput) (proposed : ℕ) {t : RoleTransferRecord}
    → propose_role_transfer id input proposed ≡ ok t
    → (as' : List Attempt) → IsRegular (attempts as' t)
attempts-IsRegular id input proposed e as' =
    attempts-IsRegular_from as' _ (propose-IsRegular id input proposed e).1
