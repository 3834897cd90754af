-- ===== src/Indexer/Index.antt =====
-- packages/core/src/indexer/ContractStateIndexer.ts: `index`, over the companies of a contract.
use Prim.Native.String.{String}
use zk_payroll_sdk.Prelude.{
  ℕ, ◌/◌, Bool, true, false, not, Option, none, some, List, [], ◌∷◌, ◌++◌, is_some, default,
  if◌then◌else◌,
}
use zk_payroll_sdk.Prelude.Text.{lookup, insert, includes}
use zk_payroll_sdk.Indexer.Contract.{
  IndexedCompany, IndexingCheckpoint, no_cursors, complete_checkpoint, ReadBudget,
  is_budget_exhausted, read_pages, IndexedPayrollDomainView, ContractStateReader,
}
use zk_payroll_sdk.Indexer.Company.{is_truthy, CompanyRun, index_company}
use zk_payroll_sdk.Indexer.Consistency.{
  IndexerDiagnostic, fatal_error, missing_company, checkpoint_requires_company_lookup, report,
  add_consistency_diagnostics,
}

pub record ContractStateIndexerOptions : Type 0 where
  pub page_size : Option ℕ
  pub max_pages : Option ℕ
  pub indexed_at : Option ℕ
  pub checkpoint : Option IndexingCheckpoint

pub record ContractStateIndexResult : Type 0 where
  pub domain : IndexedPayrollDomainView
  pub checkpoint : IndexingCheckpoint
  pub diagnostics : List IndexerDiagnostic
  pub indexed_at : ℕ

pub record IndexRun : Type 0 where
  pub checkpoint : IndexingCheckpoint
  pub domain : IndexedPayrollDomainView
  pub budget : ReadBudget

-- A copy of the input, without its completion.
abbrev pub create_checkpoint : Option IndexingCheckpoint → IndexingCheckpoint
create_checkpoint none = record {
  company_cursor = none;
  active_company_id = none;
  company_cursors = [];
  completed_company_ids = [];
  complete = false;
}
create_checkpoint (some input) = record input { complete = false }

abbrev pub empty_domain : IndexedPayrollDomainView
empty_domain = record {
  companies = [];
  employees = [];
  payroll_runs = [];
  events = [];
  commitments = [];
  audit_permissions = [];
}

abbrev pub add_companies : List IndexedCompany → IndexRun → IndexRun
add_companies cs run = record run {
  domain = record run.domain { companies = run.domain.companies ++ cs };
}

-- `indexCompany` on the checkpoint of a company.
abbrev pub after_company : String → Option (Bool × CompanyRun) → IndexRun → Option (Bool × IndexRun)
after_company id none run = none
after_company id (some (complete, r)) run = some (
  complete,
  record {
    checkpoint = record run.checkpoint {
      company_cursors = insert id r.checkpoint run.checkpoint.company_cursors;
    };
    domain = r.domain;
    budget = r.budget;
  },
)

unfoldable pub index_one_company :
    ContractStateReader → ℕ → ℕ → String → IndexRun → Option (Bool × IndexRun)
unfolding index_company
index_one_company reader rounds limit id run =
    after_company id
      (index_company reader rounds limit id (record {
        checkpoint = default (lookup id run.checkpoint.company_cursors) no_cursors;
        domain = run.domain;
        budget = run.budget;
      }))
      run

abbrev pub mark_completed : String → IndexRun → IndexRun
mark_completed id run = record run {
  checkpoint = record run.checkpoint {
    completed_company_ids = run.checkpoint.completed_company_ids ++ (id ∷ []);
    company_cursors = insert id complete_checkpoint run.checkpoint.company_cursors;
  };
}

abbrev pub stop_at : String → IndexRun → IndexRun
stop_at id run = record run {
  checkpoint = record run.checkpoint { active_company_id = some id; complete = false };
}

abbrev pub leave_active : IndexRun → IndexRun
leave_active run = record run { checkpoint = record run.checkpoint { active_company_id = none } }

unfoldable pub resume_active_company :
    ContractStateReader
    → ℕ
    → ℕ
    → String
    → IndexRun
    → Option (Bool × IndexRun × List IndexerDiagnostic)
unfolding index_one_company
resume_active_company reader rounds limit id run = elim reader.get_company [
  | none ↦ some (false, run, report true fatal_error checkpoint_requires_company_lookup id)
  | some get_company ↦ elim (get_company id) [
    | none ↦ some (false, run, report true fatal_error missing_company id)
    | some company ↦
        elim (index_one_company reader rounds limit company.id (add_companies (company ∷ []) run)) [
          | none ↦ none
          | some (complete, r) ↦
              some
                (complete, if complete then leave_active (mark_completed company.id r) else r, [])
        ]
  ]
]

-- The loop over the companies that were read; the value is whether it reached the end.
unfoldable pub index_companies :
    ContractStateReader → ℕ → ℕ → List IndexedCompany → IndexRun → Option (Bool × IndexRun)
unfolding index_one_company
index_companies reader rounds limit [] run = some (true, run)
index_companies reader rounds limit (c ∷ cs) run =
    let skipping = index_companies reader rounds limit cs run in
    if is_budget_exhausted run.budget
    then some (false, stop_at c.id run)
    else if includes run.checkpoint.completed_company_ids c.id
    then skipping
    else elim (index_one_company reader rounds limit c.id run) [
      | none ↦ none
      | some (false, r) ↦ some (false, stop_at c.id r)
      | some (true, r) ↦ index_companies reader rounds limit cs (mark_completed c.id r)
    ]

-- The severities are filtered from the diagnostics and are left out.
abbrev pub result_of : IndexRun → List IndexerDiagnostic → ℕ → ContractStateIndexResult
result_of run diagnostics at = record {
  domain = run.domain;
  checkpoint = run.checkpoint;
  diagnostics = diagnostics;
  indexed_at = at;
}

abbrev pub finish : IndexRun → IndexRun
finish run = record run {
  checkpoint = record run.checkpoint {
    active_company_id = none;
    complete = not (is_some run.checkpoint.company_cursor);
  };
}

-- After an active company was resumed, or when there is none.
unfoldable pub index_rest :
    ContractStateReader → ℕ → ℕ → ℕ → IndexRun → Option ContractStateIndexResult
unfolding read_pages index_companies
index_rest reader rounds limit at run =
    elim (read_pages rounds reader.list_companies limit run.budget run.checkpoint.company_cursor) [
      | none ↦ none
      | some (r, budget) ↦
          let before = add_companies r.items (record run {
            checkpoint = record run.checkpoint { company_cursor = r.next_cursor };
            budget = budget;
          }) in
          elim (index_companies reader rounds limit r.items before) [
            | none ↦ none
            | some (false, stopped) ↦ some (result_of stopped [] at)
            | some (true, last) ↦
                some (result_of (finish last) (add_consistency_diagnostics last.domain at) at)
          ]
    ]

-- `now` is the clock, in milliseconds.
unfoldable pub index :
    ContractStateReader → ℕ → ContractStateIndexerOptions → ℕ → Option ContractStateIndexResult
unfolding resume_active_company index_rest
index reader rounds options now =
    let limit = default options.page_size 100 in
    let at = default options.indexed_at (now / 1000) in
    let start : IndexRun = record {
      checkpoint = create_checkpoint options.checkpoint;
      domain = empty_domain;
      budget = options.max_pages;
    } in
    if is_truthy start.checkpoint.active_company_id
    then (elim (resume_active_company reader rounds limit
        (default start.checkpoint.active_company_id "") start) [
          | none ↦ none
          | some (false, run, diagnostics) ↦ some (result_of run diagnostics at)
          | some (true, run, _) ↦ index_rest reader rounds limit at run
        ])
    else index_rest reader rounds limit at start
