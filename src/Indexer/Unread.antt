-- ===== src/Indexer/Unread.antt =====
-- packages/core/src/indexer/ContractStateIndexer.ts: a budget that runs out between two lists of a
-- company.
use zk_payroll_sdk.Prelude.{ℕ, suc, true, none, some, List, [], ◌∷◌, ◌≡◌, refl}
use zk_payroll_sdk.Prelude.Text.{str_eq_refl}
use zk_payroll_sdk.Indexer.Contract.{
  IndexedCompany, IndexedEmployee, IndexedPayrollDomainView, complete_checkpoint, no_cursors,
  ContractStateReader, read_pages,
}
use zk_payroll_sdk.Indexer.Company.{read_list, index_company}
use zk_payroll_sdk.Indexer.Consistency.{add_consistency_diagnostics}
use zk_payroll_sdk.Indexer.Index.{
  empty_domain, index_one_company, index_companies, index_rest, index,
}

abbrev pub one_company : IndexedCompany → List IndexedEmployee → IndexedPayrollDomainView
one_company c es = record empty_domain { companies = c ∷ []; employees = es }

-- A list that would be read from its start when no pages remain counts as read to its end.
unread_complete :
    (reader : ContractStateReader) (rounds limit : ℕ) (c : IndexedCompany)
    (es : List IndexedEmployee)
    → reader.list_employees c.id none limit ≡ record { items = es; next_cursor = none }
    → index_company reader
        (suc rounds)
        limit
        c.id
        (record { checkpoint = no_cursors; domain = one_company c []; budget = some 1 })
      ≡ some (
        true,
        record { checkpoint = complete_checkpoint; domain = one_company c es; budget = some 0 },
      )
unfolding index_company read_list read_pages
unread_complete reader rounds limit c es h =
    rw (index_company, read_list, read_pages, h) (rw h refl)

-- When the companies fit in one page with a single company and its employees fit in one page, an
-- indexing that may read two pages ends with a complete checkpoint, the company among the completed
-- ones and no payroll runs, events, commitments or audit permissions, whatever the contract holds
-- of these; the diagnostics are those of what was read.
pub unread_marked_complete :
    (reader : ContractStateReader) (rounds limit at now : ℕ) (c : IndexedCompany)
    (es : List IndexedEmployee)
    → reader.list_companies none limit ≡ record { items = c ∷ []; next_cursor = none }
    → reader.list_employees c.id none limit ≡ record { items = es; next_cursor = none }
    → index reader
        (suc rounds)
        (record {
          page_size = some limit;
          max_pages = some 2;
          indexed_at = some at;
          checkpoint = none;
        })
        now
      ≡ some (record {
        domain = record {
          companies = c ∷ [];
          employees = es;
          payroll_runs = [];
          events = [];
          commitments = [];
          audit_permissions = [];
        };
        checkpoint = record {
          company_cursor = none;
          active_company_id = none;
          company_cursors = (c.id, complete_checkpoint) ∷ [];
          completed_company_ids = c.id ∷ [];
          complete = true;
        };
        diagnostics = add_consistency_diagnostics (one_company c es) at;
        indexed_at = at;
      })
unfolding index index_rest index_companies index_one_company read_pages
unread_marked_complete reader rounds limit at now c es companies employees = rw companies (
    rw companies (
      rw
        (
          index_companies,
          index_one_company,
          unread_complete reader rounds limit c es employees,
          str_eq_refl c.id,
        )
        refl))
