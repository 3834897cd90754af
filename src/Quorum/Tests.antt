-- ===== src/Quorum/Tests.antt =====
-- Sessions of two signers: the theorems at inputs that meet their hypotheses, and runs.
use Prim.Native.String.{String, ◌++◌}
use zk_payroll_sdk.Prelude.{suc, ◌≡◌, ◌≤◌, refl, true, false, none, some, List, [], ◌∷◌, length}
use zk_payroll_sdk.Prelude.Text.{lookup, values, is_blank}
use zk_payroll_sdk.Prelude.Action.{ok, is_ok}
use zk_payroll_sdk.Quorum.{
  Json, null, boolean, number, text, array, object, Items, nil, cons, Fields, end, field, Platform,
  raw, structured, compute_payload_hash, payroll_admin, treasury_operator, SignerRole, slot_key,
  CreateSessionParams, AddSignatureParams, SignerSession, Manager, SessionSubmissionPackage,
  new_manager, create_session, apply_signature, reject_session, mark_consumed,
  prepare_submission_package, package_of, update_slot,
}
use zk_payroll_sdk.Quorum.Summary.{get_summary}
use zk_payroll_sdk.Quorum.Trace.{Call, create, sign, consume, history, after}
use zk_payroll_sdk.Quorum.Soundness.{IsValid}
use zk_payroll_sdk.Quorum.Validity.{history-IsValid, new_manager-IsValid}
use zk_payroll_sdk.Quorum.Replay.{nonce_accepted_once, consumed_final, RefusesAll}
use zk_payroll_sdk.Quorum.Quota.{
  ready_prepares, IsEndorsed, prepare_submission_package-IsEndorsed, outsider_counts,
}
use zk_payroll_sdk.Quorum.Tampering.{payload_hash_ignores_nested}

-- A plain printer, and a hash that keeps all of its input.
mutual
  print : Json → String
  print null = "null"
  print (boolean true) = "true"
  print (boolean false) = "false"
  print (number n) = n
  print (text s) = "'" ++ (s ++ "'")
  print (array xs) = "[" ++ (print_items xs ++ "]")
  print (object fs) = "{" ++ (print_fields fs ++ "}")

  print_items : Items → String
  print_items nil = ""
  print_items (cons x xs) = print x ++ ("," ++ print_items xs)

  print_fields : Fields → String
  print_fields end = ""
  print_fields (field k v fs) = k ++ (":" ++ (print v ++ ("," ++ print_fields fs)))

abbrev node : Platform
node = record { sha256 = λ s. some s; stringify = print }

abbrev params : CreateSessionParams
params = record {
  session_id = some "s1";
  payroll_run_id = "run-7";
  operation_payload = raw "pay";
  required_roles = payroll_admin ∷ treasury_operator ∷ [];
  threshold = some 2;
  ttl_ms = some 1000;
  expires_at = none;
  assigned_signers = λ r. some "GADMIN";
}

abbrev signing : String → SignerRole → String → AddSignatureParams
signing address r nonce = record {
  signer_address = address;
  role = r;
  signature_hex = "ab12";
  operation_payload = some (raw "pay");
  nonce = nonce;
  timestamp = none;
}

abbrev created : List Call
created = create node 100 "unused" params ∷ []

abbrev half_signed : List Call
half_signed =
    create node 100 "unused" params
    ∷ sign node 110 111 "s1" (signing "GADMIN" payroll_admin "n1") false
    ∷ []

-- The second signature is by an address that no slot is for.
abbrev signed : List Call
signed =
    create node 100 "unused" params
    ∷ sign node 110 111 "s1" (signing "GADMIN" payroll_admin "n1") false
    ∷ sign node 120 121 "s1" (signing "GOTHER" payroll_admin "n2") false
    ∷ []

abbrev used_up : List Call
used_up =
    create node 100 "unused" params
    ∷ sign node 110 111 "s1" (signing "GADMIN" payroll_admin "n1") false
    ∷ sign node 120 121 "s1" (signing "GOTHER" payroll_admin "n2") false
    ∷ consume 130 131 "s1" (some "tx")
    ∷ []

start : Manager
unfolding new_manager
start = new_manager none none

start-IsValid : IsValid start
unfolding start
start-IsValid = new_manager-IsValid none none

at : List Call → Manager
unfolding start history after create_session apply_signature reject_session mark_consumed is_blank
    compute_payload_hash print slot_key update_slot
at cs = history cs start

at-IsValid : (cs : List Call) → IsValid (at cs)
unfolding at
at-IsValid cs = history-IsValid cs start start-IsValid

history-IsValid_example : IsValid (history signed start)
history-IsValid_example = history-IsValid signed start start-IsValid

nonce_accepted_once_example :
    is_ok
      (apply_signature node 140 141 "s1" (signing "GTHIRD" treasury_operator "n1") true (
        history created
          (apply_signature node 110 111 "s1"
            (signing "GADMIN" payroll_admin "n1")
            false
            (at created)).1)).0
    ≡ false
nonce_accepted_once_example =
    nonce_accepted_once node 110 111 "s1" (signing "GADMIN" payroll_admin "n1") false (at created)
      (unfold at in refl) created node 140 141 "s1" (signing "GTHIRD" treasury_operator "n1") true
      refl

-- The one session of a state, with a given value if there is none.
abbrev no_session : SignerSession
no_session = record {
  session_id = "";
  payroll_run_id = "";
  operation_payload = "";
  payload_hash = "";
  required_roles = [];
  threshold = 0;
  signer_slots = [];
  expires_at = 0;
  created_at = 0;
  is_consumed = false;
  consumed_at = none;
  consumed_tx_hash = none;
  signatures = [];
  rejections = [];
}

abbrev session_in : Manager → SignerSession
session_in m = elim (lookup "s1" m.sessions) [ none ↦ no_session | some s ↦ s ]

consumed_final_example :
    (lookup "s1" (history half_signed (at used_up)).sessions ≡ some (session_in (at used_up)))
    × RefusesAll "s1" (history half_signed (at used_up))
unfolding at
consumed_final_example =
    consumed_final "s1" {s = session_in (at used_up)} (at used_up) refl refl half_signed

ready_prepares_example :
    (s : SignerSession) × (pkg : SessionSubmissionPackage) × (lookup "s1" (at signed).sessions
      ≡ some s)
    × (prepare_submission_package 150 "s1" (at signed) ≡ (ok pkg, at signed))
    × (pkg.signatures ≡ values s.signatures)
    × (pkg.threshold ≤ length pkg.signatures)
unfolding at get_summary
ready_prepares_example = ready_prepares 150 "s1" (at signed) refl

prepare_submission_package-IsEndorsed_example :
    (s : SignerSession) × (lookup "s1" (at signed).sessions ≡ some s)
    × (prepare_submission_package 150 "s1" (at signed) ≡ (ok (package_of s 150), at signed))
    × IsEndorsed 150 (at signed) s (package_of s 150)
unfolding at prepare_submission_package
prepare_submission_package-IsEndorsed_example =
    prepare_submission_package-IsEndorsed 150 "s1" (at signed) (at-IsValid signed) refl

abbrev second : AddSignatureParams
second = signing "GOTHER" payroll_admin "n2"

outsider_counts_example :
    let before = session_in (at half_signed) in
    let m = (apply_signature node 120 121 "s1" second false (at half_signed)).1 in
    (t : SignerSession) × (lookup "s1" m.sessions ≡ some t)
    × (t.signer_slots ≡ before.signer_slots)
    × (length (values t.signatures) ≡ suc (length (values before.signatures)))
unfolding at
outsider_counts_example =
    outsider_counts node 120 121 "s1" second (at half_signed) {s = session_in (at half_signed)} refl
      (refl, (refl, tt)) refl

abbrev small_payment : Fields
small_payment = field "to" (text "GBOB") (field "amount" (number "1") end)

abbrev large_payment : Fields
large_payment = field "to" (text "GEVE") (field "amount" (number "1000000") end)

payload_hash_ignores_nested_example :
    compute_payload_hash node (structured (field "payment" (object small_payment) end))
    ≡ compute_payload_hash node (structured (field "payment" (object large_payment) end))
payload_hash_ignores_nested_example =
    payload_hash_ignores_nested node "payment" small_payment large_payment refl refl

-- With no `crypto`, the hash of "ab" is 97 * 31 + 98 in hexadecimal.
fallback_run : compute_payload_hash (record node { sha256 = λ s. none }) (raw "ab") ≡ "00000c21"
unfolding compute_payload_hash
fallback_run = refl

-- The two top-level names are sorted, and the nested one is dropped.
canonical_run :
    compute_payload_hash node
      (structured (field "b" (number "2") (field "a" (object (field "c" null end)) end)))
    ≡ "{a:{},b:2,}"
unfolding compute_payload_hash print
canonical_run = refl
