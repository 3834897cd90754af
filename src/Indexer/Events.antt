-- ===== src/Indexer/Events.antt =====
-- packages/core/src/indexer/ContractStateIndexer.ts: what it means that an event has no diagnostics.
use Prim.Native.String.{String}
use zk_payroll_sdk.Prelude.{
  Bool, true, false, not, ◌&&◌, ◌||◌, Option, none, some, List, [], ◌∷◌, ◌++◌, default, ◌≡◌, refl,
  sym, ap, ◌∙◌, ◌⊎◌, inl, inr, Bool-cases, ||-false, true≢false, arith, if◌then◌else◌,
}
use zk_payroll_sdk.Prelude.Int.{ℤ, eqb_ℤ, eq_of_parts}
use zk_payroll_sdk.Prelude.Text.{includes, str_eq, str_eq→≡, ≡→str_eq}
use zk_payroll_sdk.Indexer.Contract.{
  IndexedPayrollRun, IndexedContractEvent, IndexedPayrollDomainView,
}
use zk_payroll_sdk.Indexer.Company.{is_truthy}
use zk_payroll_sdk.Indexer.Soundness.{
  Has, HasCompany, HasEmployee, HasRun, OfFirst, OfRun, Matches, IsNonNegative, IsSoundEvent,
}
use zk_payroll_sdk.Indexer.Consistency.{
  warning, recoverable_error, fatal_error, missing_company, missing_employee, missing_payroll_run,
  mismatched_event_data, corrupted_event_data, IndexerDiagnostic, report, key_in, company_ids,
  employee_keys, payroll_run_keys, is_negative, validate_event, find_run, totals_differ,
  check_event_run,
}
use zk_payroll_sdk.Indexer.Lookups.{
  append-nil_both, report-nil, resolved, resolved_within, has_company, has_employee, has_run,
  includes_member,
}

find_run-OfFirst :
    (company id : String) (P : IndexedPayrollRun → Type 0) (runs : List IndexedPayrollRun)
    → ((r : IndexedPayrollRun) → find_run (some company) (some id) runs ≡ some r → P r)
    → OfFirst company id P runs
find_run-OfFirst company id P [] sound = tt
find_run-OfFirst company id P (r ∷ rs) sound = elim (Bool-cases (str_eq r.company_id company)) [
  | inr differ ↦ inr (
    inl (λ same. true≢false (sym (≡→str_eq r.company_id company same) ∙ differ)),
    find_run-OfFirst company id P rs (λ q found. sound q (rw differ found)),
  )
  | inl same ↦ elim (Bool-cases (str_eq r.id id)) [
    | inr differ ↦ inr (
      inr (λ it. true≢false (sym (≡→str_eq r.id id it) ∙ differ)),
      find_run-OfFirst company id P rs (λ q found. sound q (rw (same, differ) found)),
    )
    | inl it ↦
        inl (str_eq→≡ r.company_id company same, str_eq→≡ r.id id it, sound r (rw (same, it) refl))
  ]
]

totals_agree :
    (total amount payload : Option ℤ)
    → totals_differ total amount payload ≡ false
    → (total ≡ none) ⊎ ((amount ≡ none) ⊎ ((payload ≡ none) ⊎ (payload ≡ total)))
totals_agree none amount payload h = inl refl
totals_agree (some total) none payload h = inr (inl refl)
totals_agree (some total) (some amount) none h = inr (inr (inl refl))
totals_agree (some total) (some amount) (some claimed) h =
    let same : eqb_ℤ claimed total ≡ true = ground (arith, h) in
    inr (inr (inr (ap (λ a. some a) (eq_of_parts claimed total (ground (arith, same))))))

check_event_run-Matches :
    (e : IndexedContractEvent) (r : IndexedPayrollRun)
    → check_event_run e (some r) ≡ []
    → Matches e r
check_event_run-Matches e r h =
    let (employee, total) =
      append-nil_both
        (report
          (is_truthy e.employee_id && not (includes r.employee_ids (default e.employee_id "")))
          warning mismatched_event_data e.id)
        _ h in
    (
      resolved e.employee_id (λ id. Has (λ member. member ≡ id) r.employee_ids)
          (includes r.employee_ids) (λ id. includes_member id r.employee_ids) _ _ e.id employee,
      totals_agree r.total_amount e.amount e.payroll_run_total (report-nil _ _ _ e.id total),
    )

find_run-OfRun :
    (e : IndexedContractEvent) (company id : Option String) (runs : List IndexedPayrollRun)
    → check_event_run e (find_run company id runs) ≡ []
    → OfRun company id (Matches e) runs
find_run-OfRun e none id runs h = tt
find_run-OfRun e (some company) none runs h = tt
find_run-OfRun e (some company) (some id) runs h =
    find_run-OfFirst company id (Matches e) runs
      (λ r found. check_event_run-Matches e r (rw found at h))

is_negative-IsNonNegative : (amount : Option ℤ) → is_negative amount ≡ false → IsNonNegative amount
is_negative-IsNonNegative none h = tt
is_negative-IsNonNegative (some a) h = ground (arith, h)

-- The part of `validateEvent` on the run.
run_part :
    (missing : Bool) (id : String) (found : List IndexerDiagnostic)
    → (if missing then report true recoverable_error missing_payroll_run id else found) ≡ []
    → (report missing recoverable_error missing_payroll_run id ≡ []) × (found ≡ [])
run_part true id found h = absurd (true≢false (report-nil true _ _ id h))
run_part false id found h = (refl, h)

pub validate_event-IsSound :
    (d : IndexedPayrollDomainView) (e : IndexedContractEvent)
    → validate_event d e ≡ []
    → IsSoundEvent d e
unfolding validate_event
validate_event-IsSound d e h = elim (Bool-cases (str_eq e.id "" || str_eq e.event_type "")) [
  | inl corrupted ↦
      absurd
        (true≢false (report-nil true fatal_error corrupted_event_data e.id (rw corrupted at h)))
  | inr stable ↦
      let (named, typed) = ||-false (str_eq e.id "") (str_eq e.event_type "") stable in
      let amount = report (is_negative e.amount) fatal_error corrupted_event_data e.id in
      let known =
        report (is_truthy e.company_id && not (includes (company_ids d) (default e.company_id "")))
          recoverable_error missing_company e.id in
      let member =
        report
          (is_truthy e.company_id
            && is_truthy e.employee_id
            && not (
                includes (employee_keys d)
                  (key_in (default e.company_id "") (default e.employee_id ""))))
          recoverable_error missing_employee e.id in
      let (front, on_run) = append-nil_both (amount ++ known ++ member) _ (rw stable at h) in
      let (start, employee) = append-nil_both (amount ++ known) member front in
      let (sign, company) = append-nil_both amount known start in
      let (there, fits) = run_part _ e.id _ on_run in
      (
        (λ blank. true≢false (sym (≡→str_eq e.id "" blank) ∙ named)),
        (λ blank. true≢false (sym (≡→str_eq e.event_type "" blank) ∙ typed)),
        is_negative-IsNonNegative e.amount
            (report-nil (is_negative e.amount) fatal_error corrupted_event_data e.id sign),
        resolved e.company_id (HasCompany d) (includes (company_ids d)) (has_company d)
            recoverable_error missing_company e.id company,
        resolved_within e.company_id e.employee_id (HasEmployee d)
            (λ c id. includes (employee_keys d) (key_in c id)) (has_employee d) recoverable_error
            missing_employee e.id employee,
        resolved_within e.company_id e.payroll_run_id (HasRun d)
            (λ c id. includes (payroll_run_keys d) (key_in c id)) (has_run d) recoverable_error
            missing_payroll_run e.id there,
        find_run-OfRun e e.company_id e.payroll_run_id d.payroll_runs fits,
      )
]
