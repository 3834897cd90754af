-- ===== src/Reconciliation/Counts.antt =====
-- packages/core/src/reconciliation/ReconciliationDiffGenerator.ts: the counts of a comparison beside
-- its entries.
use zk_payroll_sdk.Prelude.{
  ℕ, ◌+◌, true, List, [], ◌∷◌, ◌≡◌, refl, sym, ◌↔◌, ◌==◌, ◌∙◌, inl, inr, if◌then◌else◌, arith,
  length, Bool-cases, ==_iff,
}
use zk_payroll_sdk.Reconciliation.{
  ObservedPaymentState, PaymentExecutionOutcome, ReconciliationDiffCategory, match_found, missing,
  failed_mismatch, amount_mismatch, still_pending, unexpected, ReconciliationDiffEntry,
  same_category, count_category, is_settled, every_settled, generate_reconciliation_diff,
}

-- The entries that need attention.
abbrev pub attention : (ReconciliationDiffCategory → ℕ) → ℕ
attention counts =
    counts missing + counts failed_mismatch + counts amount_mismatch + counts unexpected

abbrev one : ReconciliationDiffCategory → ReconciliationDiffCategory → ℕ
one c d = if same_category c d then 1 else 0

attention-one :
    (c : ReconciliationDiffCategory) → attention (one c) ≡ (if is_settled c then 0 else 1)
attention-one match_found = refl
attention-one missing = refl
attention-one failed_mismatch = refl
attention-one amount_mismatch = refl
attention-one still_pending = refl
attention-one unexpected = refl

total-one :
    (c : ReconciliationDiffCategory)
    → attention (one c) + one c match_found + one c still_pending ≡ 1
total-one match_found = refl
total-one missing = refl
total-one failed_mismatch = refl
total-one amount_mismatch = refl
total-one still_pending = refl
total-one unexpected = refl

count-cons :
    (e : ReconciliationDiffEntry) (es : List ReconciliationDiffEntry)
    (c : ReconciliationDiffCategory)
    → count_category (e ∷ es) c ≡ one e.category c + count_category es c
count-cons e es c = ground arith

attention-cons :
    (e : ReconciliationDiffEntry) (es : List ReconciliationDiffEntry)
    → attention (count_category (e ∷ es))
      ≡ attention (one e.category) + attention (count_category es)
attention-cons e es = omega (
  arith,
  count-cons e es missing,
  count-cons e es failed_mismatch,
  count-cons e es amount_mismatch,
  count-cons e es unexpected,
)

every_settled-attention :
    (es : List ReconciliationDiffEntry) → every_settled es ≡ (attention (count_category es) == 0)
every_settled-attention [] = refl
every_settled-attention (e ∷ es) =
    let here = attention-one e.category in
    rw (attention-cons e es, every_settled-attention es)
      (elim (Bool-cases (is_settled e.category)) [
        | inl settled ↦ ground arith
        | inr unsettled ↦ ground arith
      ])

length-count :
    (es : List ReconciliationDiffEntry)
    → attention (count_category es)
        + count_category es match_found
        + count_category es still_pending
      ≡ length es
length-count [] = refl
length-count (e ∷ es) = omega (
  arith,
  length-count es,
  total-one e.category,
  attention-cons e es,
  count-cons e es match_found,
  count-cons e es still_pending,
)

-- The counts of the six categories add up to the number of entries, and a comparison is fully
-- reconciled exactly when the counts of the four that need attention are 0.
counts_agree :
    (expected : List PaymentExecutionOutcome) (observed : List ObservedPaymentState) (now : ℕ)
    → let r = generate_reconciliation_diff expected observed now in
      (attention r.counts + r.counts match_found + r.counts still_pending ≡ length r.entries)
      × ((r.is_fully_reconciled ≡ true) ↔ (attention r.counts ≡ 0))
unfolding generate_reconciliation_diff
counts_agree expected observed now =
    let es = (generate_reconciliation_diff expected observed now).entries in
    let zero_iff = ==_iff (attention (count_category es)) 0 in
    (
      length-count es,
      (
        λ h. zero_iff.0 (sym (every_settled-attention es) ∙ h),
        λ h. every_settled-attention es ∙ zero_iff.1 h,
      ),
    )
