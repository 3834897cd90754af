-- ===== src/RoleTransfer/Tests.antt =====
-- A transfer that is proposed, accepted and finalized.
use Prim.Native.String.{String}
use zk_payroll_sdk.Prelude.{◌≡◌, ◌↔◌, refl, true, none, some, List, [], ◌∷◌}
use zk_payroll_sdk.Prelude.Action.{ok, is_ok}
use zk_payroll_sdk.Quorum.{payroll_admin}
use zk_payroll_sdk.RoleTransfer.{
  RoleTransferRecord, ProposeRoleTransferInput, pending, finalized, is_valid_address,
  propose_role_transfer, accept_role_transfer, finalize_role_transfer, cancel_role_transfer,
  resolve_transfer_status,
}
use zk_payroll_sdk.RoleTransfer.Lifecycle.{
  Attempt, accept, finalize, attempt, attempts, InOrder, IsAcceptance, IsFinalization, IsRegular,
  attempts-IsRegular, accept_iff,
}
use zk_payroll_sdk.RoleTransfer.History.{finalized_by_both}

abbrev alice : String
alice = "GAAAAAAAAAAAAAAAAAAAAAAAAAAAAAAAAAAAAAAAAAAAAAAAAAAAAAAA"

abbrev bob : String
bob = "GBBBBBBBBBBBBBBBBBBBBBBBBBBBBBBBBBBBBBBBBBBBBBBBBBBBBBBB"

abbrev input : ProposeRoleTransferInput
input = record {
  role = some payroll_admin;
  from_address = alice;
  to_address = bob;
  acceptance_window_ms = some 300000;
  reason = none;
}

abbrev proposal : RoleTransferRecord
proposal = record {
  id = "rtx";
  role = payroll_admin;
  from_address = alice;
  to_address = bob;
  status = pending;
  proposed_at = 1000;
  expires_at = 301000;
  accepted_at = none;
  finalized_at = none;
  cancelled_at = none;
  reason = none;
}

proposed : propose_role_transfer "rtx" input 1000 ≡ ok proposal
unfolding propose_role_transfer is_valid_address
proposed = refl

-- Alice cannot accept for Bob, nor finalize before he has accepted.
abbrev course : List Attempt
course = accept alice 2000 ∷ finalize alice 2500 ∷ accept bob 3000 ∷ finalize alice 900000 ∷ []

course_ends : (attempts course proposal).status ≡ finalized
unfolding attempts attempt accept_role_transfer finalize_role_transfer cancel_role_transfer
course_ends = refl

attempts-IsRegular_example : IsRegular (attempts course proposal)
attempts-IsRegular_example = attempts-IsRegular "rtx" input 1000 proposed course

finalized_by_both_example : InOrder (IsAcceptance bob 301000) (IsFinalization alice) course
finalized_by_both_example =
    finalized_by_both "rtx" input 1000 {t = proposal} proposed course course_ends

accept_iff_example :
    (is_ok (accept_role_transfer proposal bob 3000) ≡ true)
    ↔ ((resolve_transfer_status proposal 3000 ≡ pending) × (bob ≡ bob))
accept_iff_example = accept_iff proposal bob 3000
