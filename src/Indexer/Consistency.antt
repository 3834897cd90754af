-- ===== src/Indexer/Consistency.antt =====
-- packages/core/src/indexer/ContractStateIndexer.ts: `addConsistencyDiagnostics` and `validateEvent`.
-- A diagnostic is its severity, its code and the record or the company that it is about. The times of events are
-- finite.
use Prim.Native.String.{String, ◌++◌ as join}
use zk_payroll_sdk.Prelude.{
  ℕ, Bool, true, false, not, ◌&&◌, ◌||◌, leb, Option, none, some, List, [], ◌∷◌, ◌++◌, map, default,
  if◌then◌else◌,
}
use zk_payroll_sdk.Prelude.Int.{ℤ, pos, ltb_ℤ, eqb_ℤ}
use zk_payroll_sdk.Prelude.Text.{includes, str_eq}
use zk_payroll_sdk.Indexer.Contract.{
  IndexedCompany, IndexedEmployee, IndexedPayrollRun, IndexedContractEvent, IndexedCommitmentRecord,
  IndexedAuditPermission, IndexedPayrollDomainView,
}
use zk_payroll_sdk.Indexer.Company.{is_truthy}

pub data IndexerDiagnosticSeverity : Type 0 where
  warning recoverable_error fatal_error : IndexerDiagnosticSeverity

pub data IndexerDiagnosticCode : Type 0 where
  missing_company missing_employee orphan_payroll_run missing_payroll_run mismatched_event_data
        duplicate_commitment stale_audit_permission corrupted_event_data
        checkpoint_requires_company_lookup :
      IndexerDiagnosticCode

pub record IndexerDiagnostic : Type 0 where
  pub severity : IndexerDiagnosticSeverity
  pub code : IndexerDiagnosticCode
  pub record_id : String

-- A diagnostic where a test says so.
abbrev pub report :
    Bool → IndexerDiagnosticSeverity → IndexerDiagnosticCode → String → List IndexerDiagnostic
report bad severity code id =
    if bad then record { severity = severity; code = code; record_id = id } ∷ [] else []

-- Both `employeeKey` and `payrollRunKey`.
abbrev pub key_in : String → String → String
key_in company_id id = join company_id (join ":" id)

abbrev pub company_ids : IndexedPayrollDomainView → List String
company_ids d = map (λ (c : IndexedCompany). c.id) d.companies

abbrev pub employee_keys : IndexedPayrollDomainView → List String
employee_keys d = map (λ (e : IndexedEmployee). key_in e.company_id e.id) d.employees

abbrev pub payroll_run_keys : IndexedPayrollDomainView → List String
payroll_run_keys d = map (λ (r : IndexedPayrollRun). key_in r.company_id r.id) d.payroll_runs

abbrev pub collect {ℓ} :
    {T : Type ℓ} → (T → List IndexerDiagnostic) → List T → List IndexerDiagnostic
collect check [] = []
collect check (x ∷ xs) = check x ++ collect check xs

abbrev pub check_employee : IndexedPayrollDomainView → IndexedEmployee → List IndexerDiagnostic
check_employee d e =
    report (not (includes (company_ids d) e.company_id)) recoverable_error missing_company e.id

abbrev pub check_run : IndexedPayrollDomainView → IndexedPayrollRun → List IndexerDiagnostic
check_run d r =
    report (not (includes (company_ids d) r.company_id)) recoverable_error orphan_payroll_run r.id
    ++ collect
        (λ id.
          report (not (includes (employee_keys d) (key_in r.company_id id))) warning
            missing_employee r.id)
        r.employee_ids

abbrev pub check_references :
    IndexedPayrollDomainView → IndexedCommitmentRecord → List IndexerDiagnostic
check_references d c =
    report (not (includes (company_ids d) c.company_id)) recoverable_error missing_company c.id
    ++ report (not (includes (employee_keys d) (key_in c.company_id c.employee_id)))
        recoverable_error missing_employee c.id
    ++ report
        (is_truthy c.payroll_run_id
          && not
              (includes (payroll_run_keys d) (key_in c.company_id (default c.payroll_run_id ""))))
        recoverable_error missing_payroll_run c.id

abbrev pub duplicate_key : IndexedCommitmentRecord → String
duplicate_key c = join c.company_id (
    join ":" (
      join c.employee_id
        (join ":" (join (default c.payroll_run_id "") (join ":" c.commitment_hash)))))

-- The loop over the commitments, with the keys that it has seen.
unfoldable pub check_commitments :
    IndexedPayrollDomainView → List String → List IndexedCommitmentRecord → List IndexerDiagnostic
check_commitments d keys [] = []
check_commitments d keys (c ∷ cs) =
    check_references d c
    ++ report (includes keys (duplicate_key c)) warning duplicate_commitment c.id
    ++ check_commitments d
        (if includes keys (duplicate_key c) then keys else duplicate_key c ∷ keys) cs

-- `domain.payrollRuns.find(...)`
abbrev pub find_run :
    Option String → Option String → List IndexedPayrollRun → Option IndexedPayrollRun
find_run none id runs = none
find_run (some company) none runs = none
find_run (some company) (some id) [] = none
find_run (some company) (some id) (r ∷ rs) =
    let rest = find_run (some company) (some id) rs in
    if str_eq r.company_id company && str_eq r.id id then some r else rest

-- `expectedTotal !== payrollRun.totalAmount`, where both amounts are known.
abbrev pub totals_differ : Option ℤ → Option ℤ → Option ℤ → Bool
totals_differ none amount payload = false
totals_differ (some total) none payload = false
totals_differ (some total) (some amount) none = false
totals_differ (some total) (some amount) (some claimed) = not (eqb_ℤ claimed total)

abbrev pub check_event_run :
    IndexedContractEvent → Option IndexedPayrollRun → List IndexerDiagnostic
check_event_run e none = []
check_event_run e (some r) =
    report (is_truthy e.employee_id && not (includes r.employee_ids (default e.employee_id "")))
      warning mismatched_event_data e.id
    ++ report (totals_differ r.total_amount e.amount e.payroll_run_total) warning
        mismatched_event_data e.id

abbrev pub is_negative : Option ℤ → Bool
is_negative none = false
is_negative (some a) = ltb_ℤ a (pos 0)

unfoldable pub validate_event :
    IndexedPayrollDomainView → IndexedContractEvent → List IndexerDiagnostic
validate_event d e =
    let company = default e.company_id "" in
    let run_missing =
      is_truthy e.company_id
      && is_truthy e.payroll_run_id
      && not (includes (payroll_run_keys d) (key_in company (default e.payroll_run_id ""))) in
    if str_eq e.id "" || str_eq e.event_type ""
    then report true fatal_error corrupted_event_data e.id
    else report (is_negative e.amount) fatal_error corrupted_event_data e.id
      ++ report (is_truthy e.company_id && not (includes (company_ids d) company)) recoverable_error
          missing_company e.id
      ++ report
          (is_truthy e.company_id
            && is_truthy e.employee_id
            && not (includes (employee_keys d) (key_in company (default e.employee_id ""))))
          recoverable_error missing_employee e.id
      ++ (if run_missing
          then report true recoverable_error missing_payroll_run e.id
          else check_event_run e (find_run e.company_id e.payroll_run_id d.payroll_runs))

-- `at !== undefined && at <= indexedAt`
abbrev pub is_past : ℕ → Option ℕ → Bool
is_past now none = false
is_past now (some at) = leb at now

abbrev pub check_permission :
    IndexedPayrollDomainView → ℕ → IndexedAuditPermission → List IndexerDiagnostic
check_permission d now p =
    report (not (includes (company_ids d) p.company_id)) recoverable_error missing_company p.id
    ++ report (is_past now p.expires_at || is_past now p.revoked_at) warning stale_audit_permission
        p.id

unfoldable pub add_consistency_diagnostics : IndexedPayrollDomainView → ℕ → List IndexerDiagnostic
unfolding check_commitments validate_event
add_consistency_diagnostics d now =
    collect (check_employee d) d.employees
    ++ collect (check_run d) d.payroll_runs
    ++ check_commitments d [] d.commitments
    ++ collect (validate_event d) d.events
    ++ collect (check_permission d now) d.audit_permissions
