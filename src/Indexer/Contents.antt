-- ===== src/Indexer/Contents.antt =====
-- packages/core/src/indexer/ContractStateIndexer.ts: reading one list, and one company, to the end.
use Prim.Native.String.{String}
use zk_payroll_sdk.Prelude.{
  ℕ, zero, suc, ◌≤◌, true, Option, none, some, List, ◌++◌, ◌≡◌, refl, ◌⊎◌, inl, inr, arith,
}
use zk_payroll_sdk.Indexer.Contract.{
  ReadPage, IndexedCompany, IndexedEmployee, IndexedPayrollRun, IndexedContractEvent,
  IndexedCommitmentRecord, IndexedAuditPermission, IndexedPayrollDomainView, complete_checkpoint,
  no_cursors, ContractStateReader, read_pages,
}
use zk_payroll_sdk.Indexer.Company.{read_list, and_then, index_company}

-- From a cursor, a list is read to its end in at most so many pages, which hold the items.
abbrev pub IsRead : {T : Type 0} → ReadPage T → ℕ → ℕ → Option String → List T → Type 0
IsRead read limit zero cursor items = ⊥
IsRead {T} read limit (suc n) cursor items =
    (((read cursor limit).next_cursor ≡ none) × (items ≡ (read cursor limit).items))
    ⊎ ((next : String) × (rest : List T) × ((read cursor limit).next_cursor ≡ some next)
        × (items ≡ (read cursor limit).items ++ rest)
        × IsRead read limit n (some next) rest)

pub read_pages_all :
    {T : Type 0} (read : ReadPage T) (limit n rounds : ℕ) (cursor : Option String) (items : List T)
    → IsRead read limit n cursor items
    → n ≤ rounds
    → read_pages rounds read limit none cursor
      ≡ some (record { items = items; next_cursor = none }, none)
unfolding read_pages
read_pages_all read limit zero rounds cursor items h enough = absurd h
read_pages_all read limit (suc n) zero cursor items h enough = absurd (omega arith)
read_pages_all read limit (suc n) (suc rounds) cursor items (inl (ends, all)) enough =
    rw (ends, all) refl
read_pages_all read limit (suc n) (suc rounds) cursor items (inr (next, rest, goes_on, all, later))
      enough =
    rw (goes_on, all, read_pages_all read limit n rounds (some next) rest later (omega arith)) refl

-- What the contract holds of a company.
pub record Contents : Type 0 where
  pub employees : List IndexedEmployee
  pub payroll_runs : List IndexedPayrollRun
  pub events : List IndexedContractEvent
  pub commitments : List IndexedCommitmentRecord
  pub audit_permissions : List IndexedAuditPermission

abbrev pub IsCompany : ContractStateReader → ℕ → ℕ → IndexedCompany → Contents → Type 0
IsCompany reader limit n c k =
    IsRead (reader.list_employees c.id) limit n none k.employees
    × IsRead (reader.list_payroll_runs c.id) limit n none k.payroll_runs
    × IsRead (reader.list_contract_events c.id) limit n none k.events
    × IsRead (reader.list_commitments c.id) limit n none k.commitments
    × IsRead (reader.list_audit_permissions c.id) limit n none k.audit_permissions

abbrev pub add_contents : IndexedPayrollDomainView → Contents → IndexedPayrollDomainView
add_contents d k = record {
  companies = d.companies;
  employees = d.employees ++ k.employees;
  payroll_runs = d.payroll_runs ++ k.payroll_runs;
  events = d.events ++ k.events;
  commitments = d.commitments ++ k.commitments;
  audit_permissions = d.audit_permissions ++ k.audit_permissions;
}

pub index_company_all :
    (reader : ContractStateReader) (limit n rounds : ℕ) (c : IndexedCompany) (k : Contents)
    (domain : IndexedPayrollDomainView)
    → IsCompany reader limit n c k
    → n ≤ rounds
    → index_company reader rounds limit c.id
        (record { checkpoint = no_cursors; domain = domain; budget = none })
      ≡ some (
        true,
        record { checkpoint = complete_checkpoint; domain = add_contents domain k; budget = none },
      )
unfolding index_company read_list
index_company_all reader limit n rounds c k domain (es, rs, vs, ks, perms) enough =
    rw
      (
        index_company,
        read_list,
        read_pages_all (reader.list_employees c.id) limit n rounds none k.employees es enough,
        read_pages_all (reader.list_payroll_runs c.id) limit n rounds none k.payroll_runs rs enough,
        read_pages_all (reader.list_contract_events c.id) limit n rounds none k.events vs enough,
        read_pages_all (reader.list_commitments c.id) limit n rounds none k.commitments ks enough,
      )
      (rw
        (
          and_then,
          read_list,
          read_pages_all (reader.list_audit_permissions c.id) limit n rounds none
              k.audit_permissions perms enough,
        )
        refl)
