-- ===== src/Quorum/Validity.antt =====
-- The invariant of the session manager, kept by every call.
use Prim.Native.String.{String}
use zk_payroll_sdk.Prelude.{
  ℕ, none≢some, ◌≡◌, inl, inr, refl, Bool, Option, List, [], ◌∷◌, map, Bool-cases, Option-cases, ap,
}
use zk_payroll_sdk.Prelude.Text.{lookup}
use zk_payroll_sdk.Prelude.Action.{is_ok}
use zk_payroll_sdk.Quorum.{
  Platform, SignerRole, SignerSlot, AddSignatureParams, CreateSessionParams, Manager,
  apply_signature, reject_session, mark_consumed, create_session, new_manager, pending_slot,
}
use zk_payroll_sdk.Quorum.Outcomes.{
  apply_signature_refused, apply_signature_accepted, apply_signature_unknown,
  apply_signature_writes, signed_session, reject_session_refused, reject_session_accepted,
  reject_session_unknown, mark_consumed_refused, mark_consumed_accepted, mark_consumed_unknown,
  create_session_refused, create_session_accepted,
}
use zk_payroll_sdk.Quorum.Trace.{Call, create, sign, reject, consume, after, history}
use zk_payroll_sdk.Quorum.Soundness.{
  IsValid, IsSound-spend, store-IsValid, signed-IsSound, rejected-IsSound, consumed-IsSound,
}

sign-IsValid :
    (p : Platform) (now stamp : ℕ) (id : String) (q : AddSignatureParams) (replace : Bool)
    (m : Manager)
    → IsValid m
    → IsValid (apply_signature p now stamp id q replace m).1
sign-IsValid p now stamp id q replace m v =
    elim (Bool-cases (is_ok (apply_signature p now stamp id q replace m).0)) [
      | inr failed ↦ rw (apply_signature_refused p now stamp id q replace m failed) v
      | inl done ↦ elim (Option-cases (lookup id m.sessions)) [
        | inl unknown ↦ rw (apply_signature_unknown p now stamp id q replace m unknown) v
        | inr (s, e) ↦
            let g = apply_signature_accepted p now stamp id q replace m e done in
            rw (apply_signature_writes p now stamp id q replace m e g) (
              store-IsValid id (signed_session p now stamp id q replace m s)
                (record m { used_nonces = q.nonce ∷ m.used_nonces })
                (λ j t f. IsSound-spend q.nonce (v j t f))
                (signed-IsSound p now stamp id q replace m s g (v id s e)))
      ]
    ]

reject-IsValid :
    (now stamp : ℕ) (id address : String) (r : SignerRole) (reason : String) (m : Manager)
    → IsValid m
    → IsValid (reject_session now stamp id address r reason m).1
reject-IsValid now stamp id address r reason m v =
    elim (Bool-cases (is_ok (reject_session now stamp id address r reason m).0)) [
      | inr failed ↦ rw (reject_session_refused now stamp id address r reason m failed) v
      | inl done ↦ elim (Option-cases (lookup id m.sessions)) [
        | inl unknown ↦ rw (reject_session_unknown now stamp id address r reason m unknown) v
        | inr (s, e) ↦
            rw (reject_session_accepted now stamp id address r reason m e done).3
              (store-IsValid id _ m v (rejected-IsSound m.used_nonces id _ s (v id s e)))
      ]
    ]

consume-IsValid :
    (now stamp : ℕ) (id : String) (tx_hash : Option String) (m : Manager)
    → IsValid m
    → IsValid (mark_consumed now stamp id tx_hash m).1
consume-IsValid now stamp id tx_hash m v =
    elim (Bool-cases (is_ok (mark_consumed now stamp id tx_hash m).0)) [
      | inr failed ↦ rw (mark_consumed_refused now stamp id tx_hash m failed) v
      | inl done ↦ elim (Option-cases (lookup id m.sessions)) [
        | inl unknown ↦ rw (mark_consumed_unknown now stamp id tx_hash m unknown) v
        | inr (s, e) ↦
            rw (mark_consumed_accepted now stamp id tx_hash m e done).2 (
              store-IsValid id _ m v (consumed-IsSound m.used_nonces id stamp tx_hash s (v id s e)))
      ]
    ]

slots-map :
    (assigned : SignerRole → Option String) (rs : List SignerRole)
    → map (λ (x : SignerSlot). x.role) (map (pending_slot assigned) rs) ≡ rs
slots-map assigned [] = refl
slots-map assigned (r ∷ rs) = ap (λ t. r ∷ t) (slots-map assigned rs)

create-IsValid :
    (p : Platform) (now : ℕ) (generated : String) (q : CreateSessionParams) (m : Manager)
    → IsValid m
    → IsValid (create_session p now generated q m).1
create-IsValid p now generated q m v =
    elim (Bool-cases (is_ok (create_session p now generated q m).0)) [
      | inr failed ↦ rw (create_session_refused p now generated q m failed) v
      | inl done ↦
          let (_, positive, reachable, later, _, writes) =
            create_session_accepted p now generated q m done in
          rw writes (
            store-IsValid _ _ m v (record {
              named = refl;
              positive = positive;
              reachable = reachable;
              lifetime = later;
              slots = slots-map q.assigned_signers q.required_roles;
              bound = tt;
            }))
    ]

pub after-IsValid : (c : Call) (m : Manager) → IsValid m → IsValid (after c m)
unfolding after
after-IsValid (create p now generated q) m v = create-IsValid p now generated q m v
after-IsValid (sign p now stamp id q replace) m v = sign-IsValid p now stamp id q replace m v
after-IsValid (reject now stamp id address r reason) m v =
    reject-IsValid now stamp id address r reason m v
after-IsValid (consume now stamp id tx_hash) m v = consume-IsValid now stamp id tx_hash m v

-- Every state that any calls reach from a valid one is valid: each session is stored under its own
-- id, its threshold lies between 1 and the number of its required roles, it expires after it was
-- created, its slots are for the required roles in order, and each stored signature stands under
-- its own key, for a required role, carries the session's payload hash, and has its nonce spent.
pub history-IsValid : (cs : List Call) (m : Manager) → IsValid m → IsValid (history cs m)
unfolding history
history-IsValid [] m v = v
history-IsValid (c ∷ cs) m v = history-IsValid cs (after c m) (after-IsValid c m v)

-- The invariant holds of a new manager.
pub new_manager-IsValid : (ttl max_ttl : Option ℕ) → IsValid (new_manager ttl max_ttl)
unfolding new_manager
new_manager-IsValid ttl max_ttl id s e = absurd (none≢some e)
