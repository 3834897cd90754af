-- ===== src/Indexer/Contract.antt =====
-- packages/core/src/indexer/ContractStateIndexer.ts: reading the state of the contract page by page,
-- company by company, within a budget of pages and from a checkpoint. Records have the fields that
-- the indexer looks at, of indexer/types.ts.
use Prim.Native.String.{String}
use zk_payroll_sdk.Prelude.{
  ℕ, zero, suc, ◌-◌, ◌==◌, Bool, true, false, Option, none, some, List, [], ◌++◌, if◌then◌else◌,
}
use zk_payroll_sdk.Prelude.Int.{ℤ}
use zk_payroll_sdk.Prelude.Text.{Dict}

pub record ContractStatePage (T : Type 0) : Type 0 where
  pub items : List T
  pub next_cursor : Option String

-- A list of the contract, from a cursor and with a limit on the items of a page.
abbrev pub ReadPage : Type 0 → Type 0
ReadPage T = Option String → ℕ → ContractStatePage T

pub record IndexedCompany : Type 0 where
  pub id : String

pub record IndexedEmployee : Type 0 where
  pub id : String
  pub company_id : String

pub record IndexedPayrollRun : Type 0 where
  pub id : String
  pub company_id : String
  pub employee_ids : List String
  pub total_amount : Option ℤ

-- `payroll_run_total` is the property payrollRunTotal of the payload where that is a bigint.
pub record IndexedContractEvent : Type 0 where
  pub id : String
  pub event_type : String
  pub company_id : Option String
  pub employee_id : Option String
  pub payroll_run_id : Option String
  pub amount : Option ℤ
  pub occurred_at : ℕ
  pub payroll_run_total : Option ℤ

pub record IndexedCommitmentRecord : Type 0 where
  pub id : String
  pub company_id : String
  pub employee_id : String
  pub payroll_run_id : Option String
  pub commitment_hash : String

pub record IndexedAuditPermission : Type 0 where
  pub id : String
  pub company_id : String
  pub expires_at : Option ℕ
  pub revoked_at : Option ℕ

pub record CompanyIndexingCheckpoint : Type 0 where
  pub employees_cursor : Option String
  pub payroll_runs_cursor : Option String
  pub events_cursor : Option String
  pub commitments_cursor : Option String
  pub audit_permissions_cursor : Option String
  pub complete : Bool

pub record IndexingCheckpoint : Type 0 where
  pub company_cursor : Option String
  pub active_company_id : Option String
  pub company_cursors : Dict CompanyIndexingCheckpoint
  pub completed_company_ids : List String
  pub complete : Bool

abbrev pub no_cursors : CompanyIndexingCheckpoint
no_cursors = record {
  employees_cursor = none;
  payroll_runs_cursor = none;
  events_cursor = none;
  commitments_cursor = none;
  audit_permissions_cursor = none;
  complete = false;
}

abbrev pub complete_checkpoint : CompanyIndexingCheckpoint
complete_checkpoint = record no_cursors { complete = true }

-- The pages that remain; none is no limit.
abbrev pub ReadBudget : Type 0
ReadBudget = Option ℕ

abbrev pub is_budget_exhausted : ReadBudget → Bool
is_budget_exhausted none = false
is_budget_exhausted (some n) = n == 0

abbrev pub consume_page : ReadBudget → ReadBudget
consume_page none = none
consume_page (some n) = some (n - 1)

pub record ReadPagesResult (T : Type 0) : Type 0 where
  pub items : List T
  pub next_cursor : Option String

abbrev pub put_before :
    {T : Type 0} → List T → ReadPagesResult T × ReadBudget → ReadPagesResult T × ReadBudget
put_before items (r, budget) = (record r { items = items ++ r.items }, budget)

-- The loop of `readPages`, with the number of rounds it may make; none is running out of them.
unfoldable pub read_pages :
    {T : Type 0}
    → ℕ
    → ReadPage T
    → ℕ
    → ReadBudget
    → Option String
    → Option (ReadPagesResult T × ReadBudget)
read_pages zero read limit budget cursor = none
read_pages (suc rounds) read limit budget cursor =
    if is_budget_exhausted budget
    then some (record { items = []; next_cursor = cursor }, budget)
    else (let page = read cursor limit in
        elim page.next_cursor [
          | none ↦ some (record { items = page.items; next_cursor = none }, consume_page budget)
          | some next ↦
              let later = read_pages rounds read limit (consume_page budget) (some next) in
              elim later [ none ↦ none | some r ↦ some (put_before page.items r) ]
        ])

pub record IndexedPayrollDomainView : Type 0 where
  pub companies : List IndexedCompany
  pub employees : List IndexedEmployee
  pub payroll_runs : List IndexedPayrollRun
  pub events : List IndexedContractEvent
  pub commitments : List IndexedCommitmentRecord
  pub audit_permissions : List IndexedAuditPermission

-- The reader of a contract whose state does not change meanwhile.
pub record ContractStateReader : Type 0 where
  pub get_company : Option (String → Option IndexedCompany)
  pub list_companies : ReadPage IndexedCompany
  pub list_employees : String → ReadPage IndexedEmployee
  pub list_payroll_runs : String → ReadPage IndexedPayrollRun
  pub list_contract_events : String → ReadPage IndexedContractEvent
  pub list_commitments : String → ReadPage IndexedCommitmentRecord
  pub list_audit_permissions : String → ReadPage IndexedAuditPermission
