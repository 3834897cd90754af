-- ===== src/Amounts.antt =====
-- packages/core/src/assets/decimals.ts and amountRounding.ts: decimal precisions and the rounding
-- of payroll amounts. An amount is a `bigint`, so a ℤ; a number of decimals is a natural number (the
-- source refuses all others with a `TypeError` or a `RangeError`). The cache of scale factors returns
-- what was computed, and is left out; so are the formatted strings.
pub mod Digits
pub mod Parsing
pub mod Carry
pub mod Reading
pub mod Parsed
pub mod Checked
pub mod Rounding
pub mod Precision
mod Tests
mod ParsingTests
use Prim.Native.String.{String}
use zk_payroll_sdk.Prelude.{
  ℕ, ◌+◌, ◌-◌, ◌*◌, ◌/◌, ◌%◌, ◌^◌, Bool, true, false, not, ◌&&◌, ◌||◌, Option, none, some, ltb, leb,
  ◌==◌, if◌then◌else◌, default,
}
use zk_payroll_sdk.Prelude.Int.{
  ℤ, pos, negsuc, pos_part, ◌+ℤ◌, ◌-ℤ◌, leb_ℤ, ltb_ℤ, eqb_ℤ, quot_ℤ, rem_ℤ, scale_ℤ,
}
use zk_payroll_sdk.Prelude.Action.{Result, ok, err}

abbrev pub default_asset_decimals : ℕ
default_asset_decimals = 7

abbrev pub max_supported_decimals : ℕ
max_supported_decimals = 18

pub data AmountError : Type 0 where
  decimals_out_of_range increment_not_positive : AmountError

-- `isValidDecimals`, and the test of `assertValidDecimals`.
abbrev pub is_valid_decimals : ℕ → Bool
is_valid_decimals d = leb d max_supported_decimals

unfoldable pub get_decimal_scale_factor : ℕ → Result AmountError ℕ
get_decimal_scale_factor d = if is_valid_decimals d then ok (10 ^ d) else err decimals_out_of_range

-- `AssetMetadata | number | undefined`
pub record AssetMetadata : Type 0 where
  pub id : String
  pub symbol : String
  pub decimals : ℕ

pub data AssetOrDecimals : Type 0 where
  undefined : AssetOrDecimals
  number : ℕ → AssetOrDecimals
  asset : AssetMetadata → AssetOrDecimals

unfoldable pub resolve_asset_decimals : AssetOrDecimals → Result AmountError ℕ
resolve_asset_decimals undefined = ok default_asset_decimals
resolve_asset_decimals (number d) = if is_valid_decimals d then ok d else err decimals_out_of_range
resolve_asset_decimals (asset a) =
    if is_valid_decimals a.decimals then ok a.decimals else err decimals_out_of_range

-- `amount < customMin`, where the minimum is 1 if none is given.
unfoldable pub is_amount_below_minimum : ℤ → Option ℤ → Bool
is_amount_below_minimum amount custom_min = ltb_ℤ amount (default custom_min (pos 1))

pub data RoundingMode : Type 0 where
  half_up truncate ceil floor : RoundingMode

pub record RoundedAmount : Type 0 where
  pub amount : ℤ
  pub target_decimals : ℕ
  pub was_rounded : Bool
  pub original_amount : ℤ
  pub source_decimals : ℕ

-- The `switch` on the rounding mode.
unfoldable pub divide : RoundingMode → ℤ → ℕ → ℤ
divide truncate a d = quot_ℤ a d
divide half_up a d = quot_ℤ a d +ℤ (if leb_ℤ (pos (d / 2)) (rem_ℤ a d) then pos 1 else pos 0)
divide ceil a d = quot_ℤ a d +ℤ (if ltb_ℤ (pos 0) (rem_ℤ a d) then pos 1 else pos 0)
divide floor a d = quot_ℤ a d

-- What `roundAmount` returns for valid precisions.
abbrev pub rounded_amount : ℤ → ℕ → ℕ → RoundingMode → RoundedAmount
rounded_amount a source target mode = record {
  amount =
      if source == target
      then a
      else if ltb source target
      then scale_ℤ a (10 ^ (target - source))
      else divide mode a (10 ^ (source - target));
  target_decimals = target;
  was_rounded =
      if leb source target then false else not (eqb_ℤ (rem_ℤ a (10 ^ (source - target))) (pos 0));
  original_amount = a;
  source_decimals = source;
}

unfoldable pub round_amount : ℤ → ℕ → ℕ → Option RoundingMode → Result AmountError RoundedAmount
unfolding divide
round_amount a source target mode =
    if not (is_valid_decimals source)
    then err decimals_out_of_range
    else if not (is_valid_decimals target)
    then err decimals_out_of_range
    else ok (rounded_amount a source target (default mode half_up))

unfoldable pub round_to_asset_precision :
    ℤ → AssetMetadata → Option RoundingMode → Result AmountError RoundedAmount
unfolding round_amount
round_to_asset_precision a m mode = round_amount a m.decimals m.decimals mode

unfoldable pub convert_amount_precision :
    ℤ → AssetMetadata → AssetMetadata → Option RoundingMode → Result AmountError RoundedAmount
unfolding round_amount
convert_amount_precision a source target mode = round_amount a source.decimals target.decimals mode

unfoldable pub round_to_increment : ℤ → ℤ → AssetMetadata → Result AmountError RoundedAmount
round_to_increment a increment m =
    if leb_ℤ increment (pos 0)
    then err increment_not_positive
    else ok (record {
      amount = a -ℤ rem_ℤ a (pos_part increment);
      target_decimals = m.decimals;
      was_rounded = not (eqb_ℤ (rem_ℤ a (pos_part increment)) (pos 0));
      original_amount = a;
      source_decimals = m.decimals;
    })

unfoldable pub can_represent_exactly : ℤ → ℕ → ℕ → Result AmountError Bool
can_represent_exactly a source target =
    if not (is_valid_decimals source)
    then err decimals_out_of_range
    else if not (is_valid_decimals target)
    then err decimals_out_of_range
    else if leb source target
    then ok true
    else ok (eqb_ℤ (rem_ℤ a (10 ^ (source - target))) (pos 0))

unfoldable pub get_minimum_representable_amount : ℕ → Result AmountError ℤ
get_minimum_representable_amount d =
    if is_valid_decimals d then ok (pos 1) else err decimals_out_of_range
