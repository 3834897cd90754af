-- ===== src/Indexer/Company.antt =====
-- packages/core/src/indexer/ContractStateIndexer.ts: `indexCompany`, which reads the five lists of a
-- company one after the other. The checkpoint of the company is the object that the checkpoint holds
-- for it; a run of `index_company` carries it along and `index` writes it back.
use Prim.Native.String.{String}
use zk_payroll_sdk.Prelude.{ℕ, Bool, true, false, not, Option, none, some, ◌++◌, is_some}
use zk_payroll_sdk.Prelude.Text.{str_eq}
use zk_payroll_sdk.Indexer.Contract.{
  ReadPage, CompanyIndexingCheckpoint, ReadBudget, ReadPagesResult, read_pages,
  IndexedPayrollDomainView, IndexedEmployee, IndexedPayrollRun, IndexedContractEvent,
  IndexedCommitmentRecord, IndexedAuditPermission, ContractStateReader,
}

-- `if (cursor)`: the empty string counts as none.
abbrev pub is_truthy : Option String → Bool
is_truthy none = false
is_truthy (some s) = not (str_eq s "")

pub record CompanyRun : Type 0 where
  pub checkpoint : CompanyIndexingCheckpoint
  pub domain : IndexedPayrollDomainView
  pub budget : ReadBudget

-- Whether to go on, and the state.
abbrev pub Step : Type 0
Step = Option (Bool × CompanyRun)

-- Reads a list and puts what was read into the state; it goes on when no pages remain.
unfoldable pub read_list :
    {T : Type 0}
    → ℕ
    → ReadPage T
    → ℕ
    → Option String
    → (ReadPagesResult T → CompanyRun → CompanyRun)
    → CompanyRun
    → Step
read_list rounds read limit cursor put run = elim (read_pages rounds read limit run.budget cursor) [
  | none ↦ none
  | some (r, budget) ↦ some (not (is_truthy r.next_cursor), put r (record run { budget = budget }))
]

abbrev pub and_then : Step → (CompanyRun → Step) → Step
and_then none k = none
and_then (some (false, run)) k = some (false, run)
and_then (some (true, run)) k = k run

abbrev pub put_employees : ReadPagesResult IndexedEmployee → CompanyRun → CompanyRun
put_employees r run = record run {
  domain = record run.domain { employees = run.domain.employees ++ r.items };
  checkpoint = record run.checkpoint { employees_cursor = r.next_cursor };
}

abbrev pub put_payroll_runs : ReadPagesResult IndexedPayrollRun → CompanyRun → CompanyRun
put_payroll_runs r run = record run {
  domain = record run.domain { payroll_runs = run.domain.payroll_runs ++ r.items };
  checkpoint = record run.checkpoint { payroll_runs_cursor = r.next_cursor };
}

abbrev pub put_events : ReadPagesResult IndexedContractEvent → CompanyRun → CompanyRun
put_events r run = record run {
  domain = record run.domain { events = run.domain.events ++ r.items };
  checkpoint = record run.checkpoint { events_cursor = r.next_cursor };
}

abbrev pub put_commitments : ReadPagesResult IndexedCommitmentRecord → CompanyRun → CompanyRun
put_commitments r run = record run {
  domain = record run.domain { commitments = run.domain.commitments ++ r.items };
  checkpoint = record run.checkpoint { commitments_cursor = r.next_cursor };
}

abbrev pub put_audit_permissions : ReadPagesResult IndexedAuditPermission → CompanyRun → CompanyRun
put_audit_permissions r run = record run {
  domain = record run.domain { audit_permissions = run.domain.audit_permissions ++ r.items };
  checkpoint = record run.checkpoint {
    audit_permissions_cursor = r.next_cursor;
    complete = not (is_some r.next_cursor);
  };
}

-- The value is whether the company is complete.
unfoldable pub index_company : ContractStateReader → ℕ → ℕ → String → CompanyRun → Step
unfolding read_list
index_company reader rounds limit id run =
    and_then
      (read_list rounds (reader.list_employees id) limit run.checkpoint.employees_cursor
        put_employees run)
      (λ run.
        and_then
          (read_list rounds (reader.list_payroll_runs id) limit run.checkpoint.payroll_runs_cursor
            put_payroll_runs run)
          (λ run.
            and_then
              (read_list rounds (reader.list_contract_events id) limit run.checkpoint.events_cursor
                put_events run)
              (λ run.
                and_then
                  (read_list rounds (reader.list_commitments id) limit
                    run.checkpoint.commitments_cursor put_commitments run)
                  (λ run.
                    elim (read_list rounds (reader.list_audit_permissions id) limit
                      run.checkpoint.audit_permissions_cursor put_audit_permissions run) [
                        | none ↦ none
                        | some (_, last) ↦ some (last.checkpoint.complete, last)
                      ]))))
