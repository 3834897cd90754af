-- ===== src/Indexer/Soundness.antt =====
-- packages/core/src/indexer/ContractStateIndexer.ts: what it means that the records that were read are
-- consistent with each other.
use Prim.Native.String.{String, ◌++◌ as join}
use zk_payroll_sdk.Prelude.{ℕ, ◌<◌, Option, none, some, List, [], ◌∷◌, default, ◌≡◌, ◌≢◌, ◌⊎◌, All}
use zk_payroll_sdk.Prelude.Int.{ℤ, pos, ◌≤ℤ◌}
use zk_payroll_sdk.Indexer.Contract.{
  IndexedCompany, IndexedEmployee, IndexedPayrollRun, IndexedContractEvent, IndexedCommitmentRecord,
  IndexedAuditPermission, IndexedPayrollDomainView,
}

abbrev pub Has {ℓ} : {T : Type ℓ} → (T → Type 0) → List T → Type 0
Has P [] = ⊥
Has P (x ∷ xs) = P x ⊎ Has P xs

-- A reference that is absent or empty, or that leads to what it should.
abbrev pub Resolves : Option String → (String → Type 0) → Type 0
Resolves none P = Unit
Resolves (some id) P = (id ≡ "") ⊎ P id

abbrev pub HasCompany : IndexedPayrollDomainView → String → Type 0
HasCompany d id = Has (λ (c : IndexedCompany). c.id ≡ id) d.companies

-- A record is looked for by its company and its id, joined by a colon.
abbrev pub IsRecord : String → String → String → String → Type 0
IsRecord company id record_company record_id =
    join record_company (join ":" record_id) ≡ join company (join ":" id)

abbrev pub HasEmployee : IndexedPayrollDomainView → String → String → Type 0
HasEmployee d company id =
    Has (λ (e : IndexedEmployee). IsRecord company id e.company_id e.id) d.employees

abbrev pub HasRun : IndexedPayrollDomainView → String → String → Type 0
HasRun d company id =
    Has (λ (r : IndexedPayrollRun). IsRecord company id r.company_id r.id) d.payroll_runs

abbrev pub IsSoundRun : IndexedPayrollDomainView → IndexedPayrollRun → Type 0
IsSoundRun d r = HasCompany d r.company_id × All (HasEmployee d r.company_id) r.employee_ids

abbrev pub IsSoundCommitment : IndexedPayrollDomainView → IndexedCommitmentRecord → Type 0
IsSoundCommitment d c =
    HasCompany d c.company_id
    × HasEmployee d c.company_id c.employee_id
    × Resolves c.payroll_run_id (HasRun d c.company_id)

-- Two commitments of one hash to one employee of one company and in one run.
abbrev pub IsSame : IndexedCommitmentRecord → IndexedCommitmentRecord → Type 0
IsSame b c =
    (b.company_id ≡ c.company_id)
    × (b.employee_id ≡ c.employee_id)
    × (default b.payroll_run_id "" ≡ default c.payroll_run_id "")
    × (b.commitment_hash ≡ c.commitment_hash)

abbrev pub AreDifferent : List IndexedCommitmentRecord → Type 0
AreDifferent [] = Unit
AreDifferent (c ∷ cs) = All (λ b. ¬ IsSame c b) cs × AreDifferent cs

-- A predicate of the first run with the company and the id, if there is one.
abbrev pub OfFirst :
    String → String → (IndexedPayrollRun → Type 0) → List IndexedPayrollRun → Type 0
OfFirst company id P [] = Unit
OfFirst company id P (r ∷ rs) =
    ((r.company_id ≡ company) × (r.id ≡ id) × P r)
    ⊎ (((r.company_id ≢ company) ⊎ (r.id ≢ id)) × OfFirst company id P rs)

abbrev pub OfRun :
    Option String → Option String → (IndexedPayrollRun → Type 0) → List IndexedPayrollRun → Type 0
OfRun none id P runs = Unit
OfRun (some company) none P runs = Unit
OfRun (some company) (some id) P runs = OfFirst company id P runs

-- An event names an employee of its run, if it names one, and what it claims as the total of the run, if
-- both have an amount, is the total.
abbrev pub Matches : IndexedContractEvent → IndexedPayrollRun → Type 0
Matches e r =
    Resolves e.employee_id (λ id. Has (λ member. member ≡ id) r.employee_ids)
    × ((r.total_amount ≡ none)
        ⊎ ((e.amount ≡ none)
            ⊎ ((e.payroll_run_total ≡ none) ⊎ (e.payroll_run_total ≡ r.total_amount))))

abbrev pub IsNonNegative : Option ℤ → Type 0
IsNonNegative none = Unit
IsNonNegative (some a) = pos 0 ≤ℤ a

abbrev pub IsSoundEvent : IndexedPayrollDomainView → IndexedContractEvent → Type 0
IsSoundEvent d e =
    (e.id ≢ "")
    × (e.event_type ≢ "")
    × IsNonNegative e.amount
    × Resolves e.company_id (HasCompany d)
    × Resolves e.company_id (λ company. Resolves e.employee_id (HasEmployee d company))
    × Resolves e.company_id (λ company. Resolves e.payroll_run_id (HasRun d company))
    × OfRun e.company_id e.payroll_run_id (Matches e) d.payroll_runs

abbrev pub IsAhead : ℕ → Option ℕ → Type 0
IsAhead now none = Unit
IsAhead now (some at) = now < at

abbrev pub IsLive : IndexedPayrollDomainView → ℕ → IndexedAuditPermission → Type 0
IsLive d now p = HasCompany d p.company_id × IsAhead now p.expires_at × IsAhead now p.revoked_at
