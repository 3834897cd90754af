-- ===== src/Amounts/Checked.antt =====
-- packages/core/src/assets/amountParsing.ts: the bounds of an amount, and assets without decimals.
use Prim.Native.String.{String}
use zk_payroll_sdk.Prelude.{
  ℕ, suc, ◌+◌, ◌-◌, ◌≤◌, ◌<◌, ltb, true, Option, none, some, default, List, [], ◌∷◌, ◌++◌, length,
  ◌≡◌, refl, ◌∙◌, inl, inr, Bool-cases, arith,
}
use zk_payroll_sdk.Prelude.Int.{pos}
use zk_payroll_sdk.Prelude.Action.{Result, ok, err}
use zk_payroll_sdk.Amounts.{RoundingMode, half_up, AssetMetadata}
use zk_payroll_sdk.Amounts.Digits.{big_int, to_string, AreDigits, big_int-to_string}
use zk_payroll_sdk.Amounts.Parsing.{
  AmountParseErrorCode, AmountBounds, ParsedPayrollAmount, max_safe_integer, sanitize_input,
  is_below, is_above, increment, apply_rounding, round_parts, or_zero, parse_cleaned, check_bounds,
  parse_payroll_amount, check_amount_bounds,
}
use zk_payroll_sdk.Amounts.Carry.{parts_amount}
use zk_payroll_sdk.Amounts.Reading.{point, all_digits, big_int-or_zero, parse_cleaned-text}
use zk_payroll_sdk.Amounts.Parsed.{combined-fits}

-- A parsed amount, or the first of the violations.
abbrev pub unless_violated :
    ParsedPayrollAmount
    → List AmountParseErrorCode
    → Result AmountParseErrorCode ParsedPayrollAmount
unless_violated parsed [] = ok parsed
unless_violated parsed (e ∷ es) = err e

-- The violations of what was parsed, if anything was.
abbrev pub then_checked :
    AmountBounds
    → Result AmountParseErrorCode ParsedPayrollAmount
    → Result AmountParseErrorCode ParsedPayrollAmount
then_checked b (err e) = err e
then_checked b (ok parsed) = unless_violated parsed (check_amount_bounds (parsed.amount) b)

check_bounds-violations :
    (b : AmountBounds) (parsed : ParsedPayrollAmount)
    → check_bounds (some b) parsed ≡ unless_violated parsed (check_amount_bounds (parsed.amount) b)
unfolding check_bounds check_amount_bounds
check_bounds-violations b parsed = elim (Bool-cases (is_below (b.min_amount) (parsed.amount))) [
  | inl below ↦ rw below refl
  | inr enough ↦ elim (Bool-cases (is_above (b.max_amount) (parsed.amount))) [
    | inl above ↦ rw (enough, above) refl
    | inr inside ↦ rw (enough, inside) refl
  ]
]

check_bounds-then_checked :
    (b : AmountBounds) (r : Result AmountParseErrorCode ParsedPayrollAmount)
    → elim r as (λ _. Result AmountParseErrorCode ParsedPayrollAmount) [
      | err e ↦ err e
      | ok parsed ↦ check_bounds (some b) parsed
    ]
      ≡ then_checked b (elim r [ err e ↦ err e | ok parsed ↦ check_bounds none parsed ])
unfolding check_bounds
check_bounds-then_checked b (err e) = refl
check_bounds-then_checked b (ok parsed) = check_bounds-violations b parsed

-- Parsing with bounds is parsing without them, followed by the check of `checkAmountBounds`: the first
-- of the violations that it lists is the error.
pub parse_payroll_amount-check :
    (remove_symbol : String → List ℕ → List ℕ) (input : List ℕ) (metadata : AssetMetadata)
    (mode : Option RoundingMode) (b : AmountBounds)
    → parse_payroll_amount remove_symbol input metadata
        (record { bounds = some b; rounding = mode })
      ≡ then_checked b (
          parse_payroll_amount remove_symbol input metadata
            (record { bounds = none; rounding = mode }))
unfolding parse_payroll_amount
parse_payroll_amount-check remove_symbol input metadata mode b = check_bounds-then_checked b (
    parse_cleaned (metadata.decimals) (default mode half_up)
      (sanitize_input remove_symbol input (metadata.symbol)))

whole_parts :
    (mode : RoundingMode) (w : List ℕ) (c : ℕ) (f : List ℕ)
    → increment mode (c - 48) ≡ 1
    → round_parts 0 mode w (c ∷ f) ≡ (to_string (big_int w + 1), to_string 1, true)
unfolding round_parts apply_rounding to_string
whole_parts mode w c f up =
    let one : 0 + increment mode (c - 48) ≡ 1 = omega (arith, up) in
    let long : ltb 0 (suc (length f)) ≡ true = ground arith in rw (long, one) refl

round_parts-whole :
    (mode : RoundingMode) (w : List ℕ) (c : ℕ) (f : List ℕ)
    → increment mode (c - 48) ≡ 1
    → (parts_amount 0 (round_parts 0 mode w (c ∷ f)) ≡ big_int w + 2)
      × (big_int ((round_parts 0 mode w (c ∷ f)).0) ≤ big_int w + 1)
      × ((round_parts 0 mode w (c ∷ f)).2 ≡ true)
round_parts-whole mode w c f up = rw (whole_parts mode w c f up) (
  omega (arith, big_int-to_string (big_int w + 1), big_int-to_string 1),
  omega (arith, big_int-to_string (big_int w + 1)),
  refl,
)

-- For an asset without decimals an amount that is rounded up comes to two more than its whole part.
pub parse_payroll_amount_whole :
    (remove_symbol : String → List ℕ → List ℕ) (input : List ℕ) (metadata : AssetMetadata)
    (mode : Option RoundingMode) (w : List ℕ) (c : ℕ) (f : List ℕ)
    → sanitize_input remove_symbol input (metadata.symbol) ≡ w ++ point (some (c ∷ f))
    → AreDigits w
    → AreDigits (c ∷ f)
    → 0 < all_digits w (c ∷ f)
    → metadata.decimals ≡ 0
    → increment (default mode half_up) (c - 48) ≡ 1
    → big_int w < max_safe_integer
    → parse_payroll_amount remove_symbol input metadata (record { bounds = none; rounding = mode })
      ≡ ok (record { amount = pos (big_int w + 2); decimals = 0; was_rounded = true })
unfolding parse_payroll_amount check_bounds
parse_payroll_amount_whole remove_symbol input metadata mode w c f text hw hf positive no_decimals
      up safe =
    let m = default mode half_up in
    let parts = round_parts 0 m (or_zero w) (c ∷ f) in
    let (amount, whole, cut) = round_parts-whole m (or_zero w) c f up in
    let parsed =
      parse_cleaned-text 0 m w (some (c ∷ f)) hw hf positive
      ∙ combined-fits 0 parts (omega (arith, whole, safe, big_int-or_zero w)) in
    rw (parse_payroll_amount, no_decimals, text, parsed)
      (rw (check_bounds, amount, cut, big_int-or_zero w) refl)
