-- ===== src/Amounts/Parsing.antt =====
-- packages/core/src/assets/amountParsing.ts: amounts that people write. A text is a list of code
-- units; the replacement of the symbol by a regular expression is a parameter. The RoundingMode of the
-- file has the modes of amountRounding.ts, and an error its code only.
use Prim.Native.String.{String}
use zk_payroll_sdk.Prelude.{
  ℕ, ◌+◌, ◌-◌, ◌*◌, ◌^◌, ◌==◌, leb, ltb, Bool, true, false, not, ◌&&◌, ◌||◌, Option, none, some,
  default, List, [], ◌∷◌, ◌++◌, if◌then◌else◌, length, take,
}
use zk_payroll_sdk.Prelude.Arrays.{get_or}
use zk_payroll_sdk.Prelude.Text.{is_space}
use zk_payroll_sdk.Prelude.Int.{ℤ, pos, ltb_ℤ}
use zk_payroll_sdk.Prelude.Action.{Result, ok, err}
use zk_payroll_sdk.Amounts.{RoundingMode, half_up, truncate, ceil, floor, AssetMetadata}
use zk_payroll_sdk.Amounts.Digits.{big_int, to_string, pad_start, pad_end, slice_last, is_digit}

pub data AmountParseErrorCode : Type 0 where
  empty_input invalid_format negative_value zero_value below_minimum exceeds_maximum
        excess_precision overflow :
      AmountParseErrorCode

pub record AmountBounds : Type 0 where
  pub min_amount : Option ℤ
  pub max_amount : Option ℤ

pub record ParsePayrollAmountOptions : Type 0 where
  pub bounds : Option AmountBounds
  pub rounding : Option RoundingMode

pub record ParsedPayrollAmount : Type 0 where
  pub amount : ℤ
  pub decimals : ℕ
  pub was_rounded : Bool

abbrev pub max_safe_integer : ℕ
max_safe_integer = 2 ^ 53 - 1

-- `/[$€£¥,]/`
abbrev is_currency : ℕ → Bool
is_currency c = c == 36 || c == 0x20ac || c == 163 || c == 165 || c == 44

abbrev drop_currency : List ℕ → List ℕ
drop_currency [] = []
drop_currency (c ∷ s) = let rest = drop_currency s in if is_currency c then rest else c ∷ rest

-- `s.trim()`
abbrev pub trim_left : List ℕ → List ℕ
trim_left [] = []
trim_left (c ∷ s) = let rest = trim_left s in if is_space c then rest else c ∷ s

abbrev pub trim_right : List ℕ → List ℕ
trim_right [] = []
trim_right (c ∷ s) =
    let rest = trim_right s in if is_space c && length rest == 0 then [] else c ∷ rest

unfoldable pub sanitize_input : (String → List ℕ → List ℕ) → List ℕ → String → List ℕ
sanitize_input remove_symbol input symbol =
    trim_right (trim_left (drop_currency (remove_symbol symbol input)))

-- `(\d*\.?\d+|\d+\.?\d*)$`: digits, of which there is one at least, with one point at most. The flags
-- say whether the point may come and whether a digit has come.
abbrev pub is_unsigned : Bool → Bool → List ℕ → Bool
is_unsigned point_allowed some_digit [] = some_digit
is_unsigned point_allowed some_digit (c ∷ s) =
    let digits = is_unsigned point_allowed true s in
    let fraction = is_unsigned false some_digit s in
    if is_digit c then digits else (c == 46) && point_allowed && fraction

-- `cleaned.startsWith("-")`
abbrev pub is_negative : List ℕ → Bool
is_negative [] = false
is_negative (c ∷ s) = c == 45

abbrev pub is_numeric : List ℕ → Bool
is_numeric [] = is_unsigned true false []
is_numeric (c ∷ s) = if c == 45 then is_unsigned true false s else is_unsigned true false (c ∷ s)

-- `cleaned.slice(0, dotIndex)`, all of a text without a point.
abbrev pub before_point : List ℕ → List ℕ
before_point [] = []
before_point (c ∷ s) = let rest = before_point s in if c == 46 then [] else c ∷ rest

-- `cleaned.slice(dotIndex + 1)`, "" for a text without a point.
abbrev pub after_point : List ℕ → List ℕ
after_point [] = []
after_point (c ∷ s) = let rest = after_point s in if c == 46 then s else rest

-- `|| "0"`; a text that is not empty and has no point is not empty before it either.
abbrev pub or_zero : List ℕ → List ℕ
or_zero [] = 48 ∷ []
or_zero (c ∷ s) = c ∷ s

abbrev pub are_zeros : List ℕ → Bool
are_zeros [] = true
are_zeros (c ∷ s) = (c == 48) && are_zeros s

-- The part before the point is `"0"`.
abbrev pub is_single_zero : List ℕ → Bool
is_single_zero [] = true
is_single_zero (c ∷ s) = (c == 48) && (length s == 0)

-- What the mode adds for the first digit that is cut off.
abbrev pub increment : RoundingMode → ℕ → ℕ
increment truncate excess_digit = 0
increment half_up excess_digit = if leb 5 excess_digit then 1 else 0
increment ceil excess_digit = if ltb 0 excess_digit then 1 else 0
increment floor excess_digit = 0

unfoldable pub apply_rounding : ℕ → List ℕ → ℕ → RoundingMode → ℕ
apply_rounding excess_digit current_frac decimals mode =
    big_int (pad_end decimals current_frac) + increment mode excess_digit

-- Step 6: the parts before and after the point, and whether digits were cut off.
unfoldable pub round_parts : ℕ → RoundingMode → List ℕ → List ℕ → List ℕ × List ℕ × Bool
unfolding apply_rounding to_string
round_parts decimals mode whole_part frac_part =
    let adjusted =
      apply_rounding (get_or frac_part decimals 48 - 48) (take decimals frac_part) decimals mode in
    let padded = pad_start decimals (to_string adjusted) in
    if ltb decimals (length frac_part)
    then (if leb (10 ^ decimals) adjusted
        then (to_string (big_int whole_part + 1), slice_last decimals padded, true)
        else (whole_part, padded, true))
    else (whole_part, pad_end decimals frac_part, false)

-- Step 7, with the result before the bounds are checked.
abbrev pub combined : ℕ → List ℕ × List ℕ × Bool → Result AmountParseErrorCode ParsedPayrollAmount
combined decimals (whole_part, frac_part, rounded) =
    if ltb max_safe_integer (big_int whole_part)
    then err overflow
    else ok (record {
      amount = pos (big_int whole_part * 10 ^ decimals + big_int frac_part);
      decimals = decimals;
      was_rounded = rounded;
    })

-- Steps 1 to 7 on the text after its sanitization.
unfoldable pub parse_cleaned :
    ℕ → RoundingMode → List ℕ → Result AmountParseErrorCode ParsedPayrollAmount
unfolding round_parts
parse_cleaned decimals mode cleaned =
    if length cleaned == 0
    then err empty_input
    else if not (is_numeric cleaned)
    then err invalid_format
    else if is_negative cleaned
    then err negative_value
    else if is_single_zero (or_zero (before_point cleaned)) && are_zeros (after_point cleaned)
    then err zero_value
    else combined decimals
        (round_parts decimals mode (or_zero (before_point cleaned)) (after_point cleaned))

abbrev pub is_below : Option ℤ → ℤ → Bool
is_below none a = false
is_below (some least) a = ltb_ℤ a least

abbrev pub is_above : Option ℤ → ℤ → Bool
is_above none a = false
is_above (some most) a = ltb_ℤ most a

-- Step 8.
unfoldable pub check_bounds :
    Option AmountBounds → ParsedPayrollAmount → Result AmountParseErrorCode ParsedPayrollAmount
check_bounds none parsed = ok parsed
check_bounds (some b) parsed =
    if is_below b.min_amount parsed.amount
    then err below_minimum
    else if is_above b.max_amount parsed.amount
    then err exceeds_maximum
    else ok parsed

unfoldable pub parse_payroll_amount :
    (String → List ℕ → List ℕ)
    → List ℕ
    → AssetMetadata
    → ParsePayrollAmountOptions
    → Result AmountParseErrorCode ParsedPayrollAmount
unfolding parse_cleaned check_bounds sanitize_input
parse_payroll_amount remove_symbol input metadata options =
    elim (parse_cleaned metadata.decimals (default options.rounding half_up)
      (sanitize_input remove_symbol input metadata.symbol)) [
        | err e ↦ err e
        | ok parsed ↦ check_bounds options.bounds parsed
      ]

unfoldable pub check_amount_bounds : ℤ → AmountBounds → List AmountParseErrorCode
check_amount_bounds amount b =
    (if is_below b.min_amount amount then below_minimum ∷ [] else [])
    ++ (if is_above b.max_amount amount then exceeds_maximum ∷ [] else [])

unfoldable pub make_bounds_from_strings :
    (String → List ℕ → List ℕ)
    → List ℕ
    → List ℕ
    → AssetMetadata
    → Option RoundingMode
    → Result AmountParseErrorCode AmountBounds
unfolding parse_payroll_amount
make_bounds_from_strings remove_symbol min_text max_text metadata rounding =
    let options : ParsePayrollAmountOptions = record { bounds = none; rounding = rounding } in
    elim (parse_payroll_amount remove_symbol min_text metadata options) [
      | err e ↦ err e
      | ok least ↦ elim (parse_payroll_amount remove_symbol max_text metadata options) [
        | err e ↦ err e
        | ok most ↦ ok (record { min_amount = some least.amount; max_amount = some most.amount })
      ]
    ]
