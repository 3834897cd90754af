-- ===== src/RoleTransfer/History.antt =====
-- The order of events behind a finalized transfer, and the states that nothing leaves.
use Prim.Native.String.{String}
use mathlib.Core.Path.{subst, subst₂}
use zk_payroll_sdk.Prelude.{◌∙◌, ℕ, ◌≡◌, ◌≢◌, ◌⊎◌, inl, inr, refl, List, [], ◌∷◌, arith}
use zk_payroll_sdk.Prelude.Text.{str_eq→≡}
use zk_payroll_sdk.Prelude.Action.{ok}
use zk_payroll_sdk.RoleTransfer.{
  pending, accepted, finalized, cancelled, RoleTransferRecord, ProposeRoleTransferInput,
  propose_role_transfer, accept_role_transfer, finalize_role_transfer, cancel_role_transfer,
}
use zk_payroll_sdk.RoleTransfer.Lifecycle.{
  Attempt, accept, finalize, cancel, attempt, keep, attempts, AnyOf, InOrder, IsAcceptance,
  IsFinalization, propose-IsRegular, attempt-settled,
}

-- What one attempt can do to a record: nothing, or one move of the diagram, by the party that may.
abbrev Moved : RoleTransferRecord → Attempt → RoleTransferRecord → Type 0
Moved t a t' =
    (t' ≡ t)
    ⊎ ((t.status ≡ pending) × (t'.status ≡ accepted) × IsAcceptance t.to_address t.expires_at a)
    ⊎ ((t.status ≡ accepted) × (t'.status ≡ finalized) × IsFinalization t.from_address a)
    ⊎ (t'.status ≡ cancelled)

attempt_moves : (a : Attempt) (t : RoleTransferRecord) → Moved t a (keep t (attempt a t))
unfolding attempt accept_role_transfer finalize_role_transfer cancel_role_transfer
attempt_moves (accept a now) t = ground (arith, str_eq→≡ a t.to_address)
attempt_moves (finalize a now) t = ground (arith, str_eq→≡ a t.from_address)
attempt_moves (cancel a now) t = ground arith

attempt_frame :
    (a : Attempt) (t : RoleTransferRecord)
    → let t' = keep t (attempt a t) in
      (t'.from_address ≡ t.from_address)
      × (t'.to_address ≡ t.to_address)
      × (t'.expires_at ≡ t.expires_at)
unfolding attempt accept_role_transfer finalize_role_transfer cancel_role_transfer
attempt_frame (accept a now) t = ground arith
attempt_frame (finalize a now) t = ground arith
attempt_frame (cancel a now) t = ground arith

IsFinalization-occurs :
    (as' : List Attempt) (t : RoleTransferRecord) (holder : String)
    → t.from_address ≡ holder
    → t.status ≢ finalized
    → (attempts as' t).status ≡ finalized
    → AnyOf (IsFinalization holder) as'
unfolding attempts
IsFinalization-occurs [] t holder f n h = n h
IsFinalization-occurs (a ∷ as') t holder f n h =
    let t' : RoleTransferRecord = keep t (attempt a t) in
    let later : t'.status ≢ finalized → AnyOf (IsFinalization holder) as' =
      λ m. IsFinalization-occurs as' t' holder ((attempt_frame a t).0 ∙ f) m h in
    elim (attempt_moves a t) [
      | inl same ↦ inr (later (λ e. n (cc)))
      | inr (inl (_, now_accepted, _)) ↦ inr (later (λ e. cc))
      | inr (inr (inl (_, _, final))) ↦ inl (subst (λ w. IsFinalization w a) f final)
      | inr (inr (inr gone)) ↦ inr (later (λ e. cc))
    ]

IsAcceptance-first :
    (as' : List Attempt) (t : RoleTransferRecord) (holder nominee : String) (deadline : ℕ)
    → t.from_address ≡ holder
    → t.to_address ≡ nominee
    → t.expires_at ≡ deadline
    → t.status ≢ accepted
    → t.status ≢ finalized
    → (attempts as' t).status ≡ finalized
    → InOrder (IsAcceptance nominee deadline) (IsFinalization holder) as'
unfolding attempts
IsAcceptance-first [] t holder nominee deadline f g d n m h = m h
IsAcceptance-first (a ∷ as') t holder nominee deadline f g d n m h =
    let t' : RoleTransferRecord = keep t (attempt a t) in
    let (f', g', d') = attempt_frame a t in
    let later : t'.status ≢ accepted
        → t'.status ≢ finalized
        → InOrder (IsAcceptance nominee deadline) (IsFinalization holder) as' =
      λ x y. IsAcceptance-first as' t' holder nominee deadline (f' ∙ f) (g' ∙ g) (d' ∙ d) x y h in
    elim (attempt_moves a t) [
      | inl same ↦ inr (later (λ e. n (cc)) (λ e. m (cc)))
      | inr (inl (_, now_accepted, acceptance)) ↦ inl (
        subst₂ (λ w x. IsAcceptance w x a) g d acceptance,
        IsFinalization-occurs as' t' holder (f' ∙ f) (λ e. cc) h,
      )
      | inr (inr (inl (before, _, _))) ↦ absurd (n before)
      | inr (inr (inr gone)) ↦ inr (later (λ e. cc) (λ e. cc))
    ]

-- If attempts by anybody, in any order and at any times, turn a proposed transfer into a finalized
-- one, then among them the nominee accepted before the window closed, and after that the proposer
-- finalized. Nobody else finalizes it, also no admin, of whom the header of the module speaks.
pub finalized_by_both :
    (id : String) (input : ProposeRoleTransferInput) (proposed : ℕ) {t : RoleTransferRecord}
    → propose_role_transfer id input proposed ≡ ok t
    → (as' : List Attempt) → (attempts as' t).status ≡ finalized
    → InOrder (IsAcceptance t.to_address t.expires_at) (IsFinalization t.from_address) as'
finalized_by_both id input proposed {t} e as' h =
    let (fresh, _) = propose-IsRegular id input proposed e in
    IsAcceptance-first as' t t.from_address t.to_address t.expires_at refl refl refl (λ a. cc)
      (λ a. cc) h

-- A finalized or cancelled transfer stays as it is: any further attempts leave the record unchanged.
settled_stays :
    (as' : List Attempt) (t : RoleTransferRecord)
    → (t.status ≡ finalized) ⊎ (t.status ≡ cancelled)
    → attempts as' t ≡ t
unfolding attempts
settled_stays [] t h = refl
settled_stays (a ∷ as') t h =
    let kept : keep t (attempt a t) ≡ t = ground (arith, attempt-settled a t h) in
    rw kept (settled_stays as' t h)
