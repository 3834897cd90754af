-- ===== src/Approvals/Policies.antt =====
-- packages/core/src/authorization/MultiSignerCoordinator.ts: when getAuthorizationStatus approves.
use Prim.Native.String.{String}
use zk_payroll_sdk.Prelude.{
  ℕ, suc, ◌≤◌, ◌==◌, true, false, not, Bool-cases, ==_iff, some, List, [], ◌∷◌, select, length, All,
  ◌≡◌, ◌↔◌, ◌⊎◌, inl, inr, refl, sym, ap, ◌∙◌, arith,
}
use zk_payroll_sdk.Prelude.Text.{lookup}
use zk_payroll_sdk.Prelude.Action.{ok}
use zk_payroll_sdk.Approvals.{
  SignerState, signed, rejected, unanimous, SignerInfo, AuthorizationRequest, AuthorizationStatus,
  Coordinator, is_signed_state, is_rejected_state, is_expired, signed_of, evaluate_policy,
  status_of, get_authorization_status,
}

-- The signer has signed or has rejected.
abbrev pub IsDecided : SignerInfo → Type 0
IsDecided s = (s.state ≡ signed) ⊎ (s.state ≡ rejected)

signed_state : (st : SignerState) → is_signed_state st ≡ true → st ≡ signed
signed_state st h = ground arith

rejected_state : (st : SignerState) → is_rejected_state st ≡ true → st ≡ rejected
rejected_state st h = ground arith

abbrev left_of : List SignerInfo → List SignerInfo
left_of ss = select (λ (s : SignerInfo). not (is_rejected_state s.state)) ss

undecided :
    (s : SignerInfo)
    → is_signed_state (s.state) ≡ false
    → is_rejected_state (s.state) ≡ false
    → IsDecided s
    → ⊥
undecided s a b (inl e) = ground (arith, e)
undecided s a b (inr e) = ground (arith, e)

signed_left : (st : SignerState) → is_signed_state st ≡ true → is_rejected_state st ≡ false
signed_left st h = ground arith

-- Those who have signed are not more than those who have not rejected, and as many exactly if all have
-- signed or rejected.
signed_of-left_of :
    (ss : List SignerInfo)
    → (length (signed_of ss) ≤ length (left_of ss))
      × ((length (signed_of ss) ≡ length (left_of ss)) ↔ All IsDecided ss)
signed_of-left_of [] = (omega arith, (λ e. tt, λ h. refl))
signed_of-left_of (s ∷ ss) =
    let (less, (to_all, from_all)) = signed_of-left_of ss in
    elim (Bool-cases (is_signed_state (s.state))) [
      | inl has_signed ↦
          rw (has_signed, signed_left (s.state) has_signed)
            (
              omega (arith, less),
              (
                λ e. (inl (signed_state (s.state) has_signed), to_all (omega (arith, e))),
                λ (d, h). ap suc (from_all h),
              ),
            )
      | inr has_not ↦ elim (Bool-cases (is_rejected_state (s.state))) [
        | inl refused ↦
            rw (has_not, refused)
              (
                less,
                (λ e. (inr (rejected_state (s.state) refused), to_all e), λ (d, h). from_all h),
              )
        | inr waits ↦
            rw (has_not, waits)
              (
                omega (arith, less),
                (
                  λ e. absurd (omega (arith, e, less)),
                  λ (d, h). absurd (undecided s has_not waits d),
                ),
              )
      ]
    ]

get_status_lem :
    (now : ℕ) (id : String) (c : Coordinator) (r : AuthorizationRequest)
    → lookup id (c.requests) ≡ some r
    → get_authorization_status now id c ≡ (ok (status_of now id r), c)
unfolding get_authorization_status
get_status_lem now id c r e = ground (arith, e)

approved_iff :
    (now : ℕ) (id : String) (r : AuthorizationRequest)
    → (((status_of now id r).is_approved) ≡ true)
      ↔ ((evaluate_policy (r.policy) (r.signers) ≡ true) × (is_expired now r ≡ false))
unfolding status_of
approved_iff now id r = ground arith

-- The status of a unanimous request says approved exactly when the request has not expired and every
-- signer has signed or has rejected, so also when all of them have rejected.
pub unanimous_iff :
    (now : ℕ) (id : String) (c : Coordinator) (r : AuthorizationRequest)
    → lookup id (c.requests) ≡ some r
    → r.policy.policy_type ≡ unanimous
    → (s : AuthorizationStatus) × (get_authorization_status now id c ≡ (ok s, c))
      × ((s.is_approved ≡ true) ↔ ((is_expired now r ≡ false) × All IsDecided (r.signers)))
unfolding evaluate_policy
unanimous_iff now id c r found policy =
    let (_, (to_all, from_all)) = signed_of-left_of (r.signers) in
    let (to_parts, from_parts) = approved_iff now id r in
    let counts : evaluate_policy (r.policy) (r.signers)
        ≡ (length (signed_of (r.signers)) == length (left_of (r.signers))) =
      rw (evaluate_policy, policy) refl in
    (
      status_of now id r,
      get_status_lem now id c r found,
      (
        λ approved.
            let (agreed, alive) = to_parts approved in
            (alive, to_all ((==_iff _ _).0 (sym counts ∙ agreed))),
        λ (alive, all). from_parts (counts ∙ (==_iff _ _).1 (from_all all), alive),
      ),
    )
