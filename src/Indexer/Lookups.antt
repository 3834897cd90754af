-- ===== src/Indexer/Lookups.antt =====
-- packages/core/src/indexer/ContractStateIndexer.ts: what a diagnostic that is not
-- reported says about a reference.
use Prim.Native.String.{String}
use zk_payroll_sdk.Prelude.{
  Bool, true, false, not, ◌&&◌, Option, none, some, List, [], ◌∷◌, ◌++◌, map, default, ◌≡◌, refl,
  sym, inl, inr, Bool-cases, true≢false,
}
use zk_payroll_sdk.Prelude.Text.{includes, str_eq, str_eq→≡}
use zk_payroll_sdk.Indexer.Contract.{
  IndexedCompany, IndexedEmployee, IndexedPayrollRun, IndexedPayrollDomainView,
}
use zk_payroll_sdk.Indexer.Company.{is_truthy}
use zk_payroll_sdk.Indexer.Soundness.{Has, Resolves, HasCompany, HasEmployee, HasRun}
use zk_payroll_sdk.Indexer.Consistency.{
  IndexerDiagnosticSeverity, IndexerDiagnosticCode, IndexerDiagnostic, report, key_in, company_ids,
  employee_keys, payroll_run_keys,
}

pub append-nil_both : (xs ys : List IndexerDiagnostic) → (xs ++ ys) ≡ [] → (xs ≡ []) × (ys ≡ [])
append-nil_both [] ys h = (refl, h)
append-nil_both (x ∷ xs) ys h = absurd cc

pub report-nil :
    (b : Bool) (s : IndexerDiagnosticSeverity) (c : IndexerDiagnosticCode) (id : String)
    → report b s c id ≡ []
    → b ≡ false
report-nil true s c id h = absurd cc
report-nil false s c id h = refl

pub present :
    (known : Bool) (s : IndexerDiagnosticSeverity) (c : IndexerDiagnosticCode) (id : String)
    → report (not known) s c id ≡ []
    → known ≡ true
present true s c id h = refl
present false s c id h = absurd cc

-- A key that is included is the key of one of the records.
includes-Has {ℓ} :
    {T : Type ℓ} (key : T → String) (k : String) (xs : List T)
    → includes (map key xs) k ≡ true
    → Has (λ x. key x ≡ k) xs
includes-Has key k [] h = absurd (true≢false (sym h))
includes-Has key k (x ∷ xs) h = elim (Bool-cases (str_eq (key x) k)) [
  | inl same ↦ inl (str_eq→≡ (key x) k same)
  | inr other ↦ inr (includes-Has key k xs (rw other at h))
]

pub includes_member :
    (k : String) (xs : List String) → includes xs k ≡ true → Has (λ member. member ≡ k) xs
includes_member k [] h = absurd (true≢false (sym h))
includes_member k (x ∷ xs) h = elim (Bool-cases (str_eq x k)) [
  | inl same ↦ inl (str_eq→≡ x k same)
  | inr other ↦ inr (includes_member k xs (rw other at h))
]

pub has_company :
    (d : IndexedPayrollDomainView) (id : String)
    → includes (company_ids d) id ≡ true
    → HasCompany d id
has_company d id = includes-Has (λ (c : IndexedCompany). c.id) id d.companies

pub has_employee :
    (d : IndexedPayrollDomainView) (company id : String)
    → includes (employee_keys d) (key_in company id) ≡ true
    → HasEmployee d company id
has_employee d company id =
    includes-Has (λ (e : IndexedEmployee). key_in e.company_id e.id) (key_in company id) d.employees

pub has_run :
    (d : IndexedPayrollDomainView) (company id : String)
    → includes (payroll_run_keys d) (key_in company id) ≡ true
    → HasRun d company id
has_run d company id =
    includes-Has (λ (r : IndexedPayrollRun). key_in r.company_id r.id) (key_in company id)
      d.payroll_runs

pub resolved :
    (reference : Option String) (P : String → Type 0) (known : String → Bool)
    → ((id : String) → known id ≡ true → P id)
    → (s : IndexerDiagnosticSeverity) (c : IndexerDiagnosticCode) (at : String)
    → report (is_truthy reference && not (known (default reference ""))) s c at ≡ []
    → Resolves reference P
resolved none P known sound s c at h = tt
resolved (some id) P known sound s c at h = elim (Bool-cases (str_eq id "")) [
  | inl blank ↦ inl (str_eq→≡ id "" blank)
  | inr given ↦ inr (sound id (present (known id) s c at (rw given at h)))
]

-- A reference within a company, where both are given.
pub resolved_within :
    (company reference : Option String) (P : String → String → Type 0)
    (known : String → String → Bool)
    → ((c id : String) → known c id ≡ true → P c id)
    → (s : IndexerDiagnosticSeverity) (c : IndexerDiagnosticCode) (at : String)
    → report
        (is_truthy company
          && is_truthy reference
          && not (known (default company "") (default reference "")))
        s
        c
        at
      ≡ []
    → Resolves company (λ id. Resolves reference (P id))
resolved_within none reference P known sound s c at h = tt
resolved_within (some id) reference P known sound s c at h = elim (Bool-cases (str_eq id "")) [
  | inl blank ↦ inl (str_eq→≡ id "" blank)
  | inr given ↦ inr (resolved reference (P id) (known id) (sound id) s c at (rw given at h))
]
