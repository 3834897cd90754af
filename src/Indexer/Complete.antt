-- ===== src/Indexer/Complete.antt =====
-- packages/core/src/indexer/ContractStateIndexer.ts: an indexing without a limit on pages reads the
-- whole state.
use Prim.Native.String.{String}
use mathlib.Core.List.{append-nil, append_assoc}
use zk_payroll_sdk.Prelude.{
  ℕ, ◌≤◌, true, false, ◌||◌, none, some, List, [], ◌∷◌, ◌++◌, map, ◌≡◌, refl, sym, ap, ◌∙◌, All,
  All-mono, All-both, not, is_some, arith,
}
use zk_payroll_sdk.Prelude.Text.{Dict, lookup, insert, lookup-insert, includes, str_eq}
use zk_payroll_sdk.Indexer.Contract.{
  IndexedCompany, IndexedPayrollDomainView, IndexingCheckpoint, CompanyIndexingCheckpoint,
  complete_checkpoint, ContractStateReader, is_budget_exhausted,
}
use zk_payroll_sdk.Indexer.Consistency.{add_consistency_diagnostics}
use zk_payroll_sdk.Indexer.Index.{
  ContractStateIndexResult, index_one_company, index_companies, index_rest, index, IndexRun,
  empty_domain, mark_completed, create_checkpoint, result_of, finish,
}
use zk_payroll_sdk.Indexer.Contents.{
  IsRead, read_pages_all, Contents, IsCompany, add_contents, index_company_all,
}

-- What the contract holds of each company of a list.
abbrev pub AreCompanies : ContractStateReader → ℕ → ℕ → List IndexedCompany → List Contents → Type 0
AreCompanies reader limit n [] [] = Unit
AreCompanies reader limit n [] (k ∷ ks) = ⊥
AreCompanies reader limit n (c ∷ cs) [] = ⊥
AreCompanies reader limit n (c ∷ cs) (k ∷ ks) =
    IsCompany reader limit n c k × AreCompanies reader limit n cs ks

abbrev pub add_all : IndexedPayrollDomainView → List Contents → IndexedPayrollDomainView
add_all d [] = d
add_all d (k ∷ ks) = add_all (add_contents d k) ks

abbrev pub IsDistinct : List IndexedCompany → Type 0
IsDistinct [] = Unit
IsDistinct (c ∷ cs) = All (λ (d : IndexedCompany). str_eq c.id d.id ≡ false) cs × IsDistinct cs

-- A company of which a checkpoint has nothing yet.
abbrev IsNew : IndexingCheckpoint → IndexedCompany → Type 0
IsNew checkpoint c =
    (lookup c.id checkpoint.company_cursors ≡ none)
    × (includes checkpoint.completed_company_ids c.id ≡ false)

includes-append :
    (ids : List String) (id k : String)
    → includes (ids ++ (id ∷ [])) k ≡ (includes ids k || str_eq id k)
includes-append [] id k = ground arith
includes-append (i ∷ ids) id k = ground (arith, includes-append ids id k)

lookup-insert_other :
    (id k : String) (v w : CompanyIndexingCheckpoint) (d : Dict CompanyIndexingCheckpoint)
    → str_eq id k ≡ false
    → lookup k d ≡ none
    → lookup k (insert id v (insert id w d)) ≡ none
lookup-insert_other id k v w d apart nothing =
    ground (arith, lookup-insert id k v (insert id w d), lookup-insert id k w d)

index_one_company_all :
    (reader : ContractStateReader) (limit n rounds : ℕ) (c : IndexedCompany) (k : Contents)
    (run : IndexRun)
    → IsCompany reader limit n c k
    → n ≤ rounds
    → run.budget ≡ none
    → lookup c.id run.checkpoint.company_cursors ≡ none
    → index_one_company reader rounds limit c.id run
      ≡ some (
        true,
        record {
          checkpoint = record run.checkpoint {
            company_cursors = insert c.id complete_checkpoint run.checkpoint.company_cursors;
          };
          domain = add_contents run.domain k;
          budget = none;
        },
      )
unfolding index_one_company
index_one_company_all reader limit n rounds c k run holds enough unlimited new =
    rw
      (
        index_one_company,
        unlimited,
        new,
        index_company_all reader limit n rounds c k run.domain holds enough,
      )
      refl

-- The run after a company that was read.
abbrev after : IndexRun → IndexedCompany → Contents → IndexRun
after run c k = mark_completed c.id (record {
  checkpoint = record run.checkpoint {
    company_cursors = insert c.id complete_checkpoint run.checkpoint.company_cursors;
  };
  domain = add_contents run.domain k;
  budget = none;
})

IsNew-after :
    (run : IndexRun) (c d : IndexedCompany) (k : Contents)
    → (str_eq c.id d.id ≡ false) × IsNew run.checkpoint d
    → IsNew (after run c k).checkpoint d
IsNew-after run c d k (apart, (fresh, unread)) = (
  lookup-insert_other c.id d.id complete_checkpoint complete_checkpoint
      run.checkpoint.company_cursors apart fresh,
  rw (includes-append run.checkpoint.completed_company_ids c.id d.id, apart, unread) refl,
)

abbrev id_of : IndexedCompany → String
id_of c = c.id

-- What the loop over the companies ends with.
abbrev IsWhole : IndexRun → List IndexedCompany → List Contents → IndexRun → Type 0
IsWhole run cs ks last =
    (last.domain ≡ add_all run.domain ks)
    × (last.checkpoint.company_cursor ≡ run.checkpoint.company_cursor)
    × (last.checkpoint.completed_company_ids ≡ run.checkpoint.completed_company_ids ++ map id_of cs)

index_companies-cons :
    (reader : ContractStateReader) (limit rounds : ℕ) (c : IndexedCompany)
    (cs : List IndexedCompany) (run r : IndexRun)
    → is_budget_exhausted run.budget ≡ false
    → includes run.checkpoint.completed_company_ids c.id ≡ false
    → index_one_company reader rounds limit c.id run ≡ some (true, r)
    → index_companies reader rounds limit (c ∷ cs) run
      ≡ index_companies reader rounds limit cs (mark_completed c.id r)
unfolding index_companies
index_companies-cons reader limit rounds c cs run r going unread done =
    simp (index_companies, going, unread, done)

index_companies-IsWhole :
    (reader : ContractStateReader) (limit n rounds : ℕ) (cs : List IndexedCompany)
    (ks : List Contents) (run : IndexRun)
    → AreCompanies reader limit n cs ks
    → n ≤ rounds
    → run.budget ≡ none
    → IsDistinct cs
    → All (IsNew run.checkpoint) cs
    → (last : IndexRun) × (index_companies reader rounds limit cs run ≡ some (true, last))
      × IsWhole run cs ks last
unfolding index_companies
index_companies-IsWhole reader limit n rounds [] [] run holds enough unlimited distinct new =
    (run, refl, (refl, refl, sym (append-nil run.checkpoint.completed_company_ids)))
index_companies-IsWhole reader limit n rounds [] (k ∷ ks) run holds enough unlimited distinct new =
    absurd holds
index_companies-IsWhole reader limit n rounds (c ∷ cs) [] run holds enough unlimited distinct new =
    absurd holds
index_companies-IsWhole reader limit n rounds (c ∷ cs) (k ∷ ks) run (here, there) enough unlimited
      (apart, distinct) ((fresh, unread), new) =
    let (last, goes, (domain, cursor, completed)) =
      index_companies-IsWhole reader limit n rounds cs ks (after run c k) there enough refl distinct
        (All-mono (λ d. IsNew-after run c d k) cs
          (All-both (λ d. str_eq c.id d.id ≡ false) (IsNew run.checkpoint) cs apart new)) in
    (
      last,
      index_companies-cons reader limit rounds c cs run _ (ap is_budget_exhausted unlimited) unread
            (index_one_company_all reader limit n rounds c k run here enough unlimited fresh)
          ∙ goes,
      (
        domain,
        cursor,
        completed ∙ append_assoc run.checkpoint.completed_company_ids (c.id ∷ []) (map id_of cs),
      ),
    )

abbrev first_run : List IndexedCompany → IndexRun
first_run cs = record {
  checkpoint = create_checkpoint none;
  domain = record empty_domain { companies = cs };
  budget = none;
}

All-IsNew : (cs : List IndexedCompany) → All (IsNew (create_checkpoint none)) cs
All-IsNew [] = tt
All-IsNew (c ∷ cs) = ((refl, refl), All-IsNew cs)

-- Where the companies and each of their lists end within n pages and no two companies have the same
-- id, an indexing without a limit on pages and without a checkpoint, given n rounds for each list,
-- ends: with all companies, all that the contract holds of each, in order, a complete checkpoint and
-- every company among the completed ones. The diagnostics are those of what was read.
pub index-IsComplete :
    (reader : ContractStateReader) (limit n rounds at now : ℕ) (cs : List IndexedCompany)
    (ks : List Contents)
    → IsRead reader.list_companies limit n none cs
    → AreCompanies reader limit n cs ks
    → IsDistinct cs
    → n ≤ rounds
    → (result : ContractStateIndexResult) × (index reader rounds
          (record {
            page_size = some limit;
            max_pages = none;
            indexed_at = some at;
            checkpoint = none;
          })
          now
        ≡ some result)
      × (result.domain ≡ add_all (record empty_domain { companies = cs }) ks)
      × (result.checkpoint.complete ≡ true)
      × (result.checkpoint.completed_company_ids ≡ map (λ (c : IndexedCompany). c.id) cs)
      × (result.diagnostics ≡ add_consistency_diagnostics result.domain at)
unfolding index index_rest
index-IsComplete reader limit n rounds at now cs ks read holds distinct enough =
    let (last, goes, (domain, cursor, completed)) =
      index_companies-IsWhole reader limit n rounds cs ks (first_run cs) holds enough refl distinct
        (All-IsNew cs) in
    (
      result_of (finish last) (add_consistency_diagnostics last.domain at) at,
      rw (index_rest, read_pages_all reader.list_companies limit n rounds none cs read enough)
          (rw goes refl),
      domain,
      ap (λ k. not (is_some k)) cursor,
      completed,
      refl,
    )
