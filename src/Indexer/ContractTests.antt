-- ===== src/Indexer/ContractTests.antt =====
-- A contract with two companies, one of which has employees on two pages.
use Prim.Native.String.{String}
use zk_payroll_sdk.Prelude.{
  true, none, some, List, [], ◌∷◌, ◌≡◌, refl, inl, inr, All, if◌then◌else◌, arith,
}
use zk_payroll_sdk.Prelude.Int.{pos}
use zk_payroll_sdk.Prelude.Text.{str_eq}
use zk_payroll_sdk.Indexer.Contract.{
  ReadPage, IndexedCompany, IndexedEmployee, IndexedPayrollRun, IndexedPayrollDomainView,
  ContractStateReader, complete_checkpoint,
}
use zk_payroll_sdk.Indexer.Index.{ContractStateIndexResult, empty_domain, index}
use zk_payroll_sdk.Indexer.Consistency.{
  warning, stale_audit_permission, check_commitments, validate_event, add_consistency_diagnostics,
}
use zk_payroll_sdk.Indexer.References.{no_diagnostics-AreSound}
use zk_payroll_sdk.Indexer.Soundness.{
  HasCompany, IsSoundRun, IsSoundCommitment, AreDifferent, IsSoundEvent, IsLive,
}
use zk_payroll_sdk.Indexer.Unread.{one_company, unread_marked_complete}
use zk_payroll_sdk.Indexer.Contents.{Contents}
use zk_payroll_sdk.Indexer.Complete.{add_all, index-IsComplete}

abbrev company : String → IndexedCompany
company id = record { id = id }

abbrev employee : String → IndexedEmployee
employee id = record { id = id; company_id = "acme" }

abbrev payday : IndexedPayrollRun
payday = record { id = "may"; company_id = "acme"; employee_ids = "ann" ∷ []; total_amount = none }

abbrev one_page : {T : Type 0} → List T → ReadPage T
one_page items cursor limit = record { items = items; next_cursor = none }

abbrev two_pages : {T : Type 0} → List T → List T → ReadPage T
two_pages front back cursor limit = elim cursor [
  | none ↦ record { items = front; next_cursor = some "2" }
  | some _ ↦ record { items = back; next_cursor = none }
]

abbrev only_acme : {T : Type 0} → ReadPage T → String → ReadPage T
only_acme read id = if str_eq id "acme" then read else one_page []

abbrev a_reader : ReadPage IndexedCompany → ReadPage IndexedEmployee → ContractStateReader
a_reader companies employees = record {
  get_company = some (λ id. some (company id));
  list_companies = companies;
  list_employees = only_acme employees;
  list_payroll_runs = only_acme (one_page (payday ∷ []));
  list_contract_events = only_acme (one_page []);
  list_commitments = only_acme (one_page []);
  list_audit_permissions = only_acme (one_page []);
}

abbrev two_companies : ContractStateReader
two_companies =
    a_reader (two_pages (company "acme" ∷ []) (company "bolt" ∷ []))
      (two_pages (employee "ann" ∷ []) (employee "bob" ∷ []))

abbrev of_acme : Contents
of_acme = record {
  employees = employee "ann" ∷ employee "bob" ∷ [];
  payroll_runs = payday ∷ [];
  events = [];
  commitments = [];
  audit_permissions = [];
}

abbrev nothing : Contents
nothing = record {
  employees = [];
  payroll_runs = [];
  events = [];
  commitments = [];
  audit_permissions = [];
}

index-IsComplete_example :
    (result : ContractStateIndexResult) × (index two_companies 3
        (record { page_size = some 1; max_pages = none; indexed_at = some 5; checkpoint = none })
        7000
      ≡ some result)
    × (result.domain
        ≡ add_all
            (record empty_domain { companies = company "acme" ∷ company "bolt" ∷ [] })
            (of_acme ∷ nothing ∷ []))
    × (result.checkpoint.complete ≡ true)
    × (result.checkpoint.completed_company_ids ≡ "acme" ∷ "bolt" ∷ [])
    × (result.diagnostics ≡ add_consistency_diagnostics result.domain 5)
index-IsComplete_example =
    index-IsComplete two_companies 1 2 3 5 7000 (company "acme" ∷ company "bolt" ∷ [])
      (of_acme ∷ nothing ∷ []) (inr ("2", company "bolt" ∷ [], refl, refl, inl (refl, refl)))
      (
        (
          inr ("2", employee "bob" ∷ [], refl, refl, inl (refl, refl)),
          inl (refl, refl),
          inl (refl, refl),
          inl (refl, refl),
          inl (refl, refl),
        ),
        (
          (
            inl (refl, refl),
            inl (refl, refl),
            inl (refl, refl),
            inl (refl, refl),
            inl (refl, refl),
          ),
          tt,
        ),
      )
      ((refl, tt), (tt, tt)) (omega arith)

abbrev small : ContractStateReader
small = a_reader (one_page (company "acme" ∷ [])) (one_page (employee "ann" ∷ []))

unread_marked_complete_example :
    index small 1
      (record { page_size = some 9; max_pages = some 2; indexed_at = some 5; checkpoint = none })
      7000
    ≡ some (record {
      domain = record empty_domain {
        companies = company "acme" ∷ [];
        employees = employee "ann" ∷ [];
      };
      checkpoint = record {
        company_cursor = none;
        active_company_id = none;
        company_cursors = ("acme", complete_checkpoint) ∷ [];
        completed_company_ids = "acme" ∷ [];
        complete = true;
      };
      diagnostics =
          add_consistency_diagnostics (one_company (company "acme") (employee "ann" ∷ [])) 5;
      indexed_at = 5;
    })
unread_marked_complete_example =
    unread_marked_complete small 0 9 5 7000 (company "acme") (employee "ann" ∷ []) refl refl

abbrev sound_domain : IndexedPayrollDomainView
sound_domain = record empty_domain {
  companies = company "acme" ∷ [];
  employees = employee "ann" ∷ [];
  payroll_runs = payday ∷ [];
  commitments =
      record {
        id = "k1";
        company_id = "acme";
        employee_id = "ann";
        payroll_run_id = some "may";
        commitment_hash = "h";
      }
      ∷ [];
  events =
      record {
        id = "v1";
        event_type = "paid";
        company_id = some "acme";
        employee_id = some "ann";
        payroll_run_id = some "may";
        amount = some (pos 5);
        occurred_at = 3;
        payroll_run_total = none;
      }
      ∷ [];
  audit_permissions =
      record { id = "p1"; company_id = "acme"; expires_at = some 9; revoked_at = none } ∷ [];
}

-- A second later the permission is stale.
stale :
    add_consistency_diagnostics sound_domain 9
    ≡ record { severity = warning; code = stale_audit_permission; record_id = "p1" } ∷ []
unfolding add_consistency_diagnostics check_commitments validate_event
stale = refl

no_diagnostics-AreSound_example :
    All (λ (e : IndexedEmployee). HasCompany sound_domain e.company_id) sound_domain.employees
    × All (IsSoundRun sound_domain) sound_domain.payroll_runs
    × All (IsSoundCommitment sound_domain) sound_domain.commitments
    × AreDifferent sound_domain.commitments
    × All (IsSoundEvent sound_domain) sound_domain.events
    × All (IsLive sound_domain 8) sound_domain.audit_permissions
unfolding add_consistency_diagnostics check_commitments validate_event
no_diagnostics-AreSound_example = no_diagnostics-AreSound sound_domain 8 refl
