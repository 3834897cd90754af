-- ===== src/Amounts/ParsingTests.antt =====
-- packages/core/src/assets/amountParsing.ts on small texts.
use Prim.Native.String.{String}
use zk_payroll_sdk.Prelude.{
  ℕ, ltb, Bool, true, false, Option, none, some, List, [], ◌∷◌, ◌++◌, ◌≡◌, refl, arith,
}
use zk_payroll_sdk.Prelude.Int.{pos}
use zk_payroll_sdk.Prelude.Action.{Result, ok, err}
use zk_payroll_sdk.Amounts.{RoundingMode, half_up, ceil, AssetMetadata}
use zk_payroll_sdk.Amounts.Digits.{to_string}
use zk_payroll_sdk.Amounts.Parsing.{
  AmountParseErrorCode, zero_value, AmountBounds, ParsedPayrollAmount, sanitize_input,
  parse_cleaned, parse_payroll_amount, check_bounds, round_parts, apply_rounding,
}
use zk_payroll_sdk.Amounts.Parsed.{IsAmount, parse_payroll_amount-IsAmount}
use zk_payroll_sdk.Amounts.Checked.{
  then_checked, parse_payroll_amount-check, parse_payroll_amount_whole,
}

abbrev with_decimals : ℕ → AssetMetadata
with_decimals d = record { id = "asset"; symbol = "TKN"; decimals = d }

-- The texts here do not name the symbol.
abbrev no_symbol : String → List ℕ → List ℕ
no_symbol symbol input = input

abbrev parse : ℕ → Option RoundingMode → List ℕ → Result AmountParseErrorCode ParsedPayrollAmount
parse d mode input =
    parse_payroll_amount no_symbol input (with_decimals d)
      (record { bounds = none; rounding = mode })

abbrev parsed : ℕ → ℕ → Bool → Result AmountParseErrorCode ParsedPayrollAmount
parsed d n rounded = ok (record { amount = pos n; decimals = d; was_rounded = rounded })

-- "$12.345 "
abbrev price : List ℕ
price = 36 ∷ 49 ∷ 50 ∷ 46 ∷ 51 ∷ 52 ∷ 53 ∷ 32 ∷ []

price_cents : parse 2 none price ≡ parsed 2 1235 true
unfolding parse_payroll_amount sanitize_input parse_cleaned round_parts apply_rounding to_string
    check_bounds
price_cents = refl

price_cleaned : sanitize_input no_symbol price "TKN" ≡ (49 ∷ 50 ∷ []) ++ (46 ∷ 51 ∷ 52 ∷ 53 ∷ [])
unfolding sanitize_input
price_cleaned = refl

parse_payroll_amount-IsAmount_example :
    (n : ℕ) × (parse 2 none price ≡ parsed 2 n (ltb 2 3))
    × IsAmount 2 half_up (49 ∷ 50 ∷ []) (51 ∷ 52 ∷ 53 ∷ []) n
parse_payroll_amount-IsAmount_example =
    parse_payroll_amount-IsAmount no_symbol price (with_decimals 2) none (49 ∷ 50 ∷ [])
      (some (51 ∷ 52 ∷ 53 ∷ [])) price_cleaned (refl, (refl, tt)) (refl, (refl, (refl, tt)))
      (omega arith) (omega arith) (omega arith)

abbrev at_most_ten : AmountBounds
at_most_ten = record { min_amount = none; max_amount = some (pos 1000) }

parse_payroll_amount-check_example :
    parse_payroll_amount no_symbol price
      (with_decimals 2)
      (record { bounds = some at_most_ten; rounding = none })
    ≡ then_checked at_most_ten (parse 2 none price)
parse_payroll_amount-check_example =
    parse_payroll_amount-check no_symbol price (with_decimals 2) none at_most_ten

-- "1.5"
abbrev one_and_a_half : List ℕ
one_and_a_half = 49 ∷ 46 ∷ 53 ∷ []

half_cleaned : sanitize_input no_symbol one_and_a_half "TKN" ≡ (49 ∷ []) ++ (46 ∷ 53 ∷ [])
unfolding sanitize_input
half_cleaned = refl

parse_payroll_amount_whole_example : parse 0 none one_and_a_half ≡ parsed 0 3 true
parse_payroll_amount_whole_example =
    parse_payroll_amount_whole no_symbol one_and_a_half (with_decimals 0) none (49 ∷ []) 53 []
      half_cleaned (refl, tt) (refl, tt) (omega arith) refl refl (omega arith)

-- "1.201" is not rounded up to one decimal, and "0.001" to two decimals is accepted as nothing.
ceil_misses_later_digits : parse 1 (some ceil) (49 ∷ 46 ∷ 50 ∷ 48 ∷ 49 ∷ []) ≡ parsed 1 12 true
unfolding parse_payroll_amount sanitize_input parse_cleaned round_parts apply_rounding to_string
    check_bounds
ceil_misses_later_digits = refl

accepted_as_nothing : parse 2 none (48 ∷ 46 ∷ 48 ∷ 48 ∷ 49 ∷ []) ≡ parsed 2 0 true
unfolding parse_payroll_amount sanitize_input parse_cleaned round_parts apply_rounding to_string
    check_bounds
accepted_as_nothing = refl

-- "0" is refused and "00" is not.
two_zeros :
    (parse 2 none (48 ∷ []) ≡ err zero_value) × (parse 2 none (48 ∷ 48 ∷ []) ≡ parsed 2 0 false)
unfolding parse_payroll_amount sanitize_input parse_cleaned round_parts apply_rounding to_string
    check_bounds
two_zeros = (refl, refl)
