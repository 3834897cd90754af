-- ===== src/Indexer/References.antt =====
-- packages/core/src/indexer/ContractStateIndexer.ts: what it means that an indexing has no diagnostics.
use Prim.Native.String.{String}
use zk_payroll_sdk.Prelude.{
  ℕ, true, false, not, Option, none, some, List, [], ◌∷◌, ◌++◌, ◌≡◌, refl, sym, ◌∙◌, All, All-mono,
  ||-false, true≢false, arith,
}
use zk_payroll_sdk.Prelude.Text.{includes, str_eq, ≡→str_eq}
use zk_payroll_sdk.Indexer.Contract.{
  IndexedEmployee, IndexedPayrollRun, IndexedCommitmentRecord, IndexedAuditPermission,
  IndexedPayrollDomainView,
}
use zk_payroll_sdk.Indexer.Soundness.{
  HasCompany, HasEmployee, HasRun, IsSoundRun, IsSoundCommitment, IsSame, AreDifferent,
  IsSoundEvent, IsAhead, IsLive,
}
use zk_payroll_sdk.Indexer.Consistency.{
  warning, recoverable_error, missing_company, missing_employee, orphan_payroll_run,
  duplicate_commitment, IndexerDiagnostic, report, key_in, company_ids, employee_keys,
  payroll_run_keys, collect, check_employee, check_run, check_references, duplicate_key,
  check_commitments, validate_event, is_past, check_permission, add_consistency_diagnostics,
}
use zk_payroll_sdk.Indexer.Lookups.{
  append-nil_both, report-nil, present, resolved, has_company, has_employee, has_run,
}
use zk_payroll_sdk.Indexer.Events.{validate_event-IsSound}

collect-nil {ℓ κ} :
    {T : Type ℓ} (P : T → Type κ) (check : T → List IndexerDiagnostic)
    → ((x : T) → check x ≡ [] → P x)
    → (xs : List T) → collect check xs ≡ []
    → All P xs
collect-nil P check sound [] h = tt
collect-nil P check sound (x ∷ xs) h =
    let (here, later) = append-nil_both (check x) (collect check xs) h in
    (sound x here, collect-nil P check sound xs later)

check_run-IsSound :
    (d : IndexedPayrollDomainView) (r : IndexedPayrollRun) → check_run d r ≡ [] → IsSoundRun d r
check_run-IsSound d r h =
    let (company, employees) =
      append-nil_both
        (report (not (includes (company_ids d) r.company_id)) recoverable_error orphan_payroll_run
          r.id)
        _ h in
    (
      has_company d r.company_id (present (includes (company_ids d) r.company_id) _ _ r.id company),
      collect-nil (HasEmployee d r.company_id) _
          (λ id k.
            has_employee d r.company_id id
              (present (includes (employee_keys d) (key_in r.company_id id)) _ _ r.id k))
          r.employee_ids employees,
    )

check_references-IsSound :
    (d : IndexedPayrollDomainView) (c : IndexedCommitmentRecord)
    → check_references d c ≡ []
    → IsSoundCommitment d c
check_references-IsSound d c h =
    let company = includes (company_ids d) c.company_id in
    let employee = includes (employee_keys d) (key_in c.company_id c.employee_id) in
    let (front, run) =
      append-nil_both
        (report (not company) recoverable_error missing_company c.id
          ++ report (not employee) recoverable_error missing_employee c.id)
        _ h in
    let (first, second) =
      append-nil_both (report (not company) recoverable_error missing_company c.id) _ front in
    (
      has_company d c.company_id (present company _ _ c.id first),
      has_employee d c.company_id c.employee_id (present employee _ _ c.id second),
      resolved c.payroll_run_id (HasRun d c.company_id)
          (λ id. includes (payroll_run_keys d) (key_in c.company_id id)) (has_run d c.company_id) _
          _ c.id run,
    )

same_key :
    (b c : IndexedCommitmentRecord) → IsSame b c → str_eq (duplicate_key b) (duplicate_key c) ≡ true
same_key b c (company, employee, run, hash) =
    ≡→str_eq (duplicate_key b) (duplicate_key c) (rw (company, employee, run, hash) refl)

abbrev IsNew : List String → IndexedCommitmentRecord → Type 0
IsNew keys c = includes keys (duplicate_key c) ≡ false

IsNew-rest :
    (keys : List String) (c b : IndexedCommitmentRecord)
    → IsNew (duplicate_key c ∷ keys) b
    → (¬ IsSame c b) × IsNew keys b
IsNew-rest keys c b h =
    let (apart, new) =
      ||-false (str_eq (duplicate_key c) (duplicate_key b)) (includes keys (duplicate_key b)) h in
    ((λ same. true≢false (sym (same_key c b same) ∙ apart)), new)

check_commitments-IsSound :
    (d : IndexedPayrollDomainView) (keys : List String) (cs : List IndexedCommitmentRecord)
    → check_commitments d keys cs ≡ []
    → All (IsSoundCommitment d) cs × AreDifferent cs × All (IsNew keys) cs
unfolding check_commitments
check_commitments-IsSound d keys [] h = (tt, tt, tt)
check_commitments-IsSound d keys (c ∷ cs) h =
    let (front, later) =
      append-nil_both
        (check_references d c
          ++ report (includes keys (duplicate_key c)) warning duplicate_commitment c.id)
        _ h in
    let (references, single) = append-nil_both (check_references d c) _ front in
    let new = report-nil (includes keys (duplicate_key c)) _ _ c.id single in
    let (sound, different, unseen) =
      check_commitments-IsSound d (duplicate_key c ∷ keys) cs (rw new at later) in
    (
      (check_references-IsSound d c references, sound),
      (All-mono (λ b k. (IsNew-rest keys c b k).0) cs unseen, different),
      (new, All-mono (λ b k. (IsNew-rest keys c b k).1) cs unseen),
    )

is_past-IsAhead : (now : ℕ) (at : Option ℕ) → is_past now at ≡ false → IsAhead now at
is_past-IsAhead now none h = tt
is_past-IsAhead now (some at) h = ground (arith, h)

check_permission-IsLive :
    (d : IndexedPayrollDomainView) (now : ℕ) (p : IndexedAuditPermission)
    → check_permission d now p ≡ []
    → IsLive d now p
check_permission-IsLive d now p h =
    let company = includes (company_ids d) p.company_id in
    let (known, live) =
      append-nil_both (report (not company) recoverable_error missing_company p.id) _ h in
    let (expiry, revocation) =
      ||-false (is_past now p.expires_at) (is_past now p.revoked_at) (report-nil _ _ _ p.id live) in
    (
      has_company d p.company_id (present company _ _ p.id known),
      is_past-IsAhead now p.expires_at expiry,
      is_past-IsAhead now p.revoked_at revocation,
    )

-- When there are no diagnostics: every employee, payroll run, commitment and permission is of a company
-- that was read; the employees of runs and the employees and runs of commitments were read, where a record
-- is looked for by its company and its id joined by a colon; no two commitments have the company, the
-- employee, the run and the hash in common; an event has an id and a type, no negative amount, and where it
-- names them a company, an employee and a run of that company that were read; the first run that it names
-- has the employee that it names, if any, and the total that it claims, if it claims one and both have an
-- amount;
-- and no permission is expired or revoked.
pub no_diagnostics-AreSound :
    (d : IndexedPayrollDomainView) (now : ℕ)
    → add_consistency_diagnostics d now ≡ []
    → All (λ (e : IndexedEmployee). HasCompany d e.company_id) d.employees
      × All (IsSoundRun d) d.payroll_runs
      × All (IsSoundCommitment d) d.commitments
      × AreDifferent d.commitments
      × All (IsSoundEvent d) d.events
      × All (IsLive d now) d.audit_permissions
unfolding add_consistency_diagnostics
no_diagnostics-AreSound d now h =
    let es = collect (check_employee d) d.employees in
    let rs = collect (check_run d) d.payroll_runs in
    let cs = check_commitments d [] d.commitments in
    let vs = collect (validate_event d) d.events in
    let (h4, permissions) = append-nil_both (es ++ rs ++ cs ++ vs) _ h in
    let (h3, events) = append-nil_both (es ++ rs ++ cs) vs h4 in
    let (h2, commitments) = append-nil_both (es ++ rs) cs h3 in
    let (employees, runs) = append-nil_both es rs h2 in
    let (sound, different, _) = check_commitments-IsSound d [] d.commitments commitments in
    (
      collect-nil _ (check_employee d)
          (λ e k.
            has_company d e.company_id (present (includes (company_ids d) e.company_id) _ _ e.id k))
          d.employees employees,
      collect-nil (IsSoundRun d) (check_run d) (check_run-IsSound d) d.payroll_runs runs,
      sound,
      different,
      collect-nil (IsSoundEvent d) (validate_event d) (validate_event-IsSound d) d.events events,
      collect-nil (IsLive d now) (check_permission d now) (check_permission-IsLive d now)
          d.audit_permissions permissions,
    )
