-- ===== src/Quorum/Replay.antt =====
-- What later calls cannot undo: a spent nonce, a consumed session.
use Prim.Native.String.{String}
use zk_payroll_sdk.Prelude.{
  ℕ, ◌≡◌, inl, inr, Bool, true, false, Option, some, List, [], ◌∷◌, arith, Bool-cases, Option-cases,
}
use mathlib.Core.Path.{subst}
use zk_payroll_sdk.Prelude.Text.{
  lookup-insert_new, includes, lookup, lookup-insert, str_eq, str_eq→≡, str_eq_refl, Dict, insert,
}
use zk_payroll_sdk.Prelude.Action.{Result, is_ok, err}
use zk_payroll_sdk.Quorum.{
  Platform, SignerRole, SignerSession, AddSignatureParams, CreateSessionParams, Manager,
  SessionError, session_already_consumed, apply_signature, reject_session, mark_consumed,
  create_session, prepare_submission_package,
}
use zk_payroll_sdk.Quorum.Outcomes.{
  apply_signature_refused, apply_signature_accepted, apply_signature_unknown,
  apply_signature_writes, create_session_refused, create_session_accepted, created_id,
  reject_session_refused, reject_session_accepted, reject_session_unknown, mark_consumed_refused,
  mark_consumed_accepted, mark_consumed_unknown,
}
use zk_payroll_sdk.Quorum.Trace.{Call, create, sign, reject, consume, after, history}

nonce-after :
    (n : String) (c : Call) (m : Manager)
    → includes m.used_nonces n ≡ true
    → includes (after c m).used_nonces n ≡ true
unfolding after
nonce-after n (create p now generated q) m h = unfold create_session in ground arith
nonce-after n (sign p now stamp id q replace) m h = unfold apply_signature in ground arith
nonce-after n (reject now stamp id address r reason) m h = unfold reject_session in ground arith
nonce-after n (consume now stamp id tx_hash) m h = unfold mark_consumed in ground arith

nonce-history :
    (n : String) (cs : List Call) (m : Manager)
    → includes m.used_nonces n ≡ true
    → includes (history cs m).used_nonces n ≡ true
unfolding history
nonce-history n [] m h = h
nonce-history n (c ∷ cs) m h = nonce-history n cs (after c m) (nonce-after n c m h)

apply_signature-spends :
    (p : Platform) (now stamp : ℕ) (id : String) (q : AddSignatureParams) (replace : Bool)
    (m : Manager)
    → is_ok (apply_signature p now stamp id q replace m).0 ≡ true
    → includes (apply_signature p now stamp id q replace m).1.used_nonces q.nonce ≡ true
unfolding apply_signature
apply_signature-spends p now stamp id q replace m h = ground (arith, str_eq_refl q.nonce)

apply_signature-spent :
    (p : Platform) (now stamp : ℕ) (id : String) (q : AddSignatureParams) (replace : Bool)
    (m : Manager)
    → includes m.used_nonces q.nonce ≡ true
    → is_ok (apply_signature p now stamp id q replace m).0 ≡ false
unfolding apply_signature
apply_signature-spent p now stamp id q replace m h = ground arith

-- Once a signature with a nonce was accepted, then whatever calls follow, no signature with that
-- nonce is accepted again: for no session, signer or role, neither as an addition nor as a
-- replacement.
pub nonce_accepted_once :
    (p : Platform) (now stamp : ℕ) (id : String) (q : AddSignatureParams) (replace : Bool)
    (m : Manager)
    → is_ok (apply_signature p now stamp id q replace m).0 ≡ true
    → (cs : List Call)
    → (p' : Platform) (now' stamp' : ℕ) (id' : String) (q' : AddSignatureParams) (replace' : Bool)
    → q'.nonce ≡ q.nonce
    → is_ok
        (apply_signature p' now' stamp' id' q' replace'
          (history cs (apply_signature p now stamp id q replace m).1)).0
      ≡ false
nonce_accepted_once p now stamp id q replace m done cs p' now' stamp' id' q' replace' same =
    apply_signature-spent p' now' stamp' id' q' replace' _ (
      rw same (nonce-history q.nonce cs _ (apply_signature-spends p now stamp id q replace m done)))

-- A write to a live session leaves a consumed one alone.
lookup-insert_live :
    (i id : String) {s t : SignerSession} (t' : SignerSession) (d : Dict SignerSession)
    → lookup id d ≡ some s
    → s.is_consumed ≡ true
    → lookup i d ≡ some t
    → t.is_consumed ≡ false
    → lookup id (insert i t' d) ≡ some s
lookup-insert_live i id {s} {t} t' d e c f live = elim (Bool-cases (str_eq i id)) [
  | inl same ↦ absurd (consumed≢live (subst (λ k. lookup k d ≡ some t) (str_eq→≡ i id same) f))
  | inr other ↦ rw (lookup-insert i id t' d, other) e
]
  where
    consumed≢live : lookup id d ≡ some t → ⊥
    consumed≢live f' = cc

module _ (id : String) {s : SignerSession} (c : s.is_consumed ≡ true) where
  consumed-sign :
      (p : Platform) (now stamp : ℕ) (i : String) (q : AddSignatureParams) (replace : Bool)
      (m : Manager)
      → lookup id m.sessions ≡ some s
      → lookup id (apply_signature p now stamp i q replace m).1.sessions ≡ some s
  consumed-sign p now stamp i q replace m e =
      elim (Bool-cases (is_ok (apply_signature p now stamp i q replace m).0)) [
        | inr failed ↦ rw (apply_signature_refused p now stamp i q replace m failed) e
        | inl done ↦ elim (Option-cases (lookup i m.sessions)) [
          | inl unknown ↦ rw (apply_signature_unknown p now stamp i q replace m unknown) e
          | inr (t, f) ↦
              let g = apply_signature_accepted p now stamp i q replace m f done in
              rw (apply_signature_writes p now stamp i q replace m f g)
                (lookup-insert_live i id _ m.sessions e c f g.live)
        ]
      ]

  consumed-reject :
      (now stamp : ℕ) (i address : String) (r : SignerRole) (reason : String) (m : Manager)
      → lookup id m.sessions ≡ some s
      → lookup id (reject_session now stamp i address r reason m).1.sessions ≡ some s
  consumed-reject now stamp i address r reason m e =
      elim (Bool-cases (is_ok (reject_session now stamp i address r reason m).0)) [
        | inr failed ↦ rw (reject_session_refused now stamp i address r reason m failed) e
        | inl done ↦ elim (Option-cases (lookup i m.sessions)) [
          | inl unknown ↦ rw (reject_session_unknown now stamp i address r reason m unknown) e
          | inr (t, f) ↦
              let (live, _, _, writes) =
                reject_session_accepted now stamp i address r reason m f done in
              rw writes (lookup-insert_live i id _ m.sessions e c f live)
        ]
      ]

  consumed-consume :
      (now stamp : ℕ) (i : String) (tx_hash : Option String) (m : Manager)
      → lookup id m.sessions ≡ some s
      → lookup id (mark_consumed now stamp i tx_hash m).1.sessions ≡ some s
  consumed-consume now stamp i tx_hash m e =
      elim (Bool-cases (is_ok (mark_consumed now stamp i tx_hash m).0)) [
        | inr failed ↦ rw (mark_consumed_refused now stamp i tx_hash m failed) e
        | inl done ↦ elim (Option-cases (lookup i m.sessions)) [
          | inl unknown ↦ rw (mark_consumed_unknown now stamp i tx_hash m unknown) e
          | inr (t, f) ↦
              let (live, _, writes) = mark_consumed_accepted now stamp i tx_hash m f done in
              rw writes (lookup-insert_live i id _ m.sessions e c f live)
        ]
      ]

  consumed-create :
      (p : Platform) (now : ℕ) (generated : String) (q : CreateSessionParams) (m : Manager)
      → lookup id m.sessions ≡ some s
      → lookup id (create_session p now generated q m).1.sessions ≡ some s
  consumed-create p now generated q m e =
      elim (Bool-cases (is_ok (create_session p now generated q m).0)) [
        | inr failed ↦ rw (create_session_refused p now generated q m failed) e
        | inl done ↦
            let (_, _, _, _, new, writes) = create_session_accepted p now generated q m done in
            rw writes (lookup-insert_new (created_id p now generated q m) id _ m.sessions e new)
      ]

  consumed-after :
      (k : Call) (m : Manager)
      → lookup id m.sessions ≡ some s
      → lookup id (after k m).sessions ≡ some s
  unfolding after
  consumed-after (create p now generated q) m e = consumed-create p now generated q m e
  consumed-after (sign p now stamp i q replace) m e = consumed-sign p now stamp i q replace m e
  consumed-after (reject now stamp i address r reason) m e =
      consumed-reject now stamp i address r reason m e
  consumed-after (consume now stamp i tx_hash) m e = consumed-consume now stamp i tx_hash m e

  consumed-history :
      (cs : List Call) (m : Manager)
      → lookup id m.sessions ≡ some s
      → lookup id (history cs m).sessions ≡ some s
  unfolding history
  consumed-history [] m e = e
  consumed-history (k ∷ cs) m e = consumed-history cs (after k m) (consumed-after k m e)

abbrev pub IsRefused :
    {A : Type 0} → SessionError → Manager → Result SessionError A × Manager → Type 0
IsRefused e m r = r ≡ (err e, m)

-- Every method that works on the session throws `SESSION_ALREADY_CONSUMED` and writes nothing.
abbrev pub RefusesAll : String → Manager → Type 0
RefusesAll id m =
    ((p : Platform) (now stamp : ℕ) (q : AddSignatureParams) (replace : Bool)
      → IsRefused session_already_consumed m (apply_signature p now stamp id q replace m))
    × ((now stamp : ℕ) (address : String) (r : SignerRole) (reason : String)
        → IsRefused session_already_consumed m (reject_session now stamp id address r reason m))
    × ((now : ℕ) → IsRefused session_already_consumed m (prepare_submission_package now id m))
    × ((now stamp : ℕ) (tx_hash : Option String)
        → IsRefused session_already_consumed m (mark_consumed now stamp id tx_hash m))

consumed_refuses :
    (id : String) {s : SignerSession} (m : Manager)
    → lookup id m.sessions ≡ some s
    → s.is_consumed ≡ true
    → RefusesAll id m
unfolding apply_signature reject_session prepare_submission_package mark_consumed
consumed_refuses id m e c = (
  λ p now stamp q replace. ground arith,
  λ now stamp address r reason. ground arith,
  λ now. ground arith,
  λ now stamp tx_hash. ground arith,
)

-- A consumed session is final: whatever calls follow, on this session or another, the manager still
-- holds it unchanged, and every signature, replacement, rejection, submission package or second
-- consumption of it is refused with `SESSION_ALREADY_CONSUMED` and writes nothing.
pub consumed_final :
    (id : String) {s : SignerSession} (m : Manager)
    → lookup id m.sessions ≡ some s
    → s.is_consumed ≡ true
    → (cs : List Call) → (lookup id (history cs m).sessions ≡ some s) × RefusesAll id (history cs m)
consumed_final id m e c cs =
    let kept = consumed-history id c cs m e in (kept, consumed_refuses id (history cs m) kept c)
