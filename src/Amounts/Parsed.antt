-- ===== src/Amounts/Parsed.antt =====
-- packages/core/src/assets/amountParsing.ts: the amount of a text against its exact value.
use mathlib.Core.Path.{subst}
use native.Mathlib.Nat.{mul-le-mul_right, pow-suc}
use zk_payroll_sdk.Prelude.{
  ℕ, zero, suc, ◌+◌, ◌-◌, ◌*◌, ◌^◌, ◌≤◌, ◌<◌, leb, ltb, Bool, false, Option, none, default, List,
  ◌++◌, length, drop, length-drop, length-take, take, take-append-drop, ◌≡◌, refl, sym, ap, ◌∙◌,
  ◌⊎◌, inl, inr, Bool-cases, not_ltb→le, ltb→lt, leb→le, arith,
}
use zk_payroll_sdk.Prelude.Arrays.{get_or}
use zk_payroll_sdk.Prelude.Int.{pos}
use zk_payroll_sdk.Prelude.Action.{ok}
use Prim.Native.String.{String}
use zk_payroll_sdk.Amounts.{RoundingMode, half_up, truncate, ceil, floor, AssetMetadata}
use zk_payroll_sdk.Amounts.Rounding.{IsRounded}
use zk_payroll_sdk.Amounts.Digits.{
  value, big_int, AreDigits, value_split, value-append, value-bound,
}
use zk_payroll_sdk.Amounts.Parsing.{
  max_safe_integer, sanitize_input, or_zero, increment, round_parts, combined, check_bounds,
  parse_payroll_amount,
}
use zk_payroll_sdk.Amounts.Carry.{
  All-drop, drop-get_or, parts_amount, round_parts-cut, round_parts-exact,
}
use zk_payroll_sdk.Amounts.Reading.{
  point, fraction, all_digits, big_int-or_zero, parse_cleaned-text,
}

-- `r` is `n` divided by `e`, rounded by the mode. CEIL looks at the first digit that is cut off only:
-- less than a tenth of a unit is dropped, and all else is rounded up.
abbrev pub IsClose : RoundingMode → ℕ → ℕ → ℕ → Type 0
IsClose truncate n e r = IsRounded truncate n e r
IsClose floor n e r = IsRounded floor n e r
IsClose half_up n e r = IsRounded half_up n e r
IsClose ceil n e r =
    ((r * e ≤ n) × (10 * n < 10 * (r * e) + e)) ⊎ ((n < r * e) × (10 * (r * e) ≤ 10 * n + 9 * e))

kept_unit : (q t : ℕ) → (q + 0) * (10 * t) ≡ q * (10 * t)
kept_unit q t = grind arith

next_unit : (q t : ℕ) → (q + 1) * (10 * t) ≡ q * (10 * t) + 10 * t
next_unit q t = grind arith

-- `q` is what the digits before the cut stand for, `x` the first digit cut off.
increment-IsClose :
    (mode : RoundingMode) (q x t v : ℕ)
    → x ≤ 9
    → v < t
    → IsClose mode (q * (10 * t) + (x * t + v)) (10 * t) (q + increment mode x)
increment-IsClose truncate q x t v h k = omega (arith, kept_unit q t, mul-le-mul_right t h)
increment-IsClose floor q x t v h k = omega (arith, kept_unit q t, mul-le-mul_right t h)
increment-IsClose half_up q x t v h k = elim (Bool-cases (leb 5 x)) [
  | inl up ↦
      let large : 5 ≤ x = leb→le 5 x up in
      rw up (omega (arith, next_unit q t, mul-le-mul_right t h, mul-le-mul_right t large))
  | inr down ↦
      let small : x ≤ 4 = ground (arith, down) in
      rw down (omega (arith, kept_unit q t, mul-le-mul_right t small))
]
increment-IsClose ceil q x t v h k = elim (Bool-cases (ltb 0 x)) [
  | inl up ↦
      let large : 1 ≤ x = ltb→lt 0 x up in
      rw up (inr (omega (arith, next_unit q t, mul-le-mul_right t h, mul-le-mul_right t large)))
  | inr down ↦
      let small : x ≤ 0 = ground (arith, down) in
      rw down (inl (omega (arith, kept_unit q t, mul-le-mul_right t small)))
]

all_digits-cut :
    (d : ℕ) (w f : List ℕ)
    → d < length f
    → all_digits w f
      ≡ (big_int w * 10 ^ d + big_int (take d f)) * 10 ^ (length f - d) + value 0 (drop d f)
all_digits-cut d w f h =
    let kept : value (big_int w) (take d f) ≡ big_int w * 10 ^ d + big_int (take d f) =
      value_split (big_int w) (take d f)
      ∙ ap (λ l. big_int w * 10 ^ l + big_int (take d f)) (omega (arith, length-take d f)) in
    value-append 0 w f
    ∙ ap (value (big_int w)) (sym (take-append-drop d f))
    ∙ value-append (big_int w) (take d f) (drop d f)
    ∙ value_split (value (big_int w) (take d f)) (drop d f)
    ∙ ap (λ l. value (big_int w) (take d f) * 10 ^ l + value 0 (drop d f)) (length-drop d f)
    ∙ ap (λ n. n * 10 ^ (length f - d) + value 0 (drop d f)) kept

-- The first digit cut off and the digits after it.
cut_digits :
    (d : ℕ) (f : List ℕ)
    → AreDigits f
    → d < length f
    → (t : ℕ) × (v : ℕ) × (10 ^ (length f - d) ≡ 10 * t)
      × (value 0 (drop d f) ≡ (get_or f d 48 - 48) * t + v)
      × (v < t)
      × (get_or f d 48 - 48 ≤ 9)
cut_digits d f digits h =
    let (g, e) = drop-get_or d f h in
    let x = get_or f d 48 - 48 in
    let (first, rest) = subst AreDigits e (All-drop d f digits) in
    let size : length f - d ≡ suc (length g) = sym (length-drop d f) ∙ ap length e in
    (
      10 ^ length g,
      value 0 g,
      ap (λ l. 10 ^ l) size ∙ omega (arith, pow-suc 10 (length g)),
      ap (value 0) e ∙ value_split (0 + x) g ∙ omega arith,
      value-bound g rest,
      ground (arith, first),
    )

-- The amount of digits before and after the point, with digits to cut off.
cut-IsClose :
    (d : ℕ) (mode : RoundingMode) (w f : List ℕ)
    → AreDigits f
    → d < length f
    → IsClose mode
        (all_digits w f)
        (10 ^ (length f - d))
        (big_int w * 10 ^ d + (big_int (take d f) + increment mode (get_or f d 48 - 48)))
cut-IsClose d mode w f digits h =
    let (t, v, unit, cut, small, digit) = cut_digits d f digits h in
    let q = big_int w * 10 ^ d + big_int (take d f) in
    let x = get_or f d 48 - 48 in
    let n : q * (10 * t) + (x * t + v) ≡ all_digits w f = sym (
      all_digits-cut d w f h
      ∙ ap (λ e. q * e + value 0 (drop d f)) unit
      ∙ ap (λ r. q * (10 * t) + r) cut) in
    let r : q + increment mode x ≡ big_int w * 10 ^ d + (big_int (take d f) + increment mode x) =
      omega arith in
    subst (λ a. IsClose mode (all_digits w f) (10 ^ (length f - d)) a) r
      (subst (λ e. IsClose mode (all_digits w f) e (q + increment mode x)) (sym unit)
        (subst (λ m. IsClose mode m (10 * t) (q + increment mode x)) n
          (increment-IsClose mode q x t v digit small)))

pow-split : (a k : ℕ) → 10 ^ (a + k) ≡ 10 ^ a * 10 ^ k
pow-split zero k = let same : 0 + k ≡ k = omega arith in ap (λ l. 10 ^ l) same ∙ omega arith
pow-split (suc a) k =
    let wide : suc a + k ≡ suc (a + k) = omega arith in
    rw (wide, pow-suc 10 (a + k), pow-suc 10 a, pow-split a k) (grind arith)

-- The amount without digits to cut off is the number of all digits, in the smallest unit.
all_digits-exact :
    (d : ℕ) (w f : List ℕ)
    → length f ≤ d
    → big_int w * 10 ^ d + big_int f * 10 ^ (d - length f) ≡ all_digits w f * 10 ^ (d - length f)
all_digits-exact d w f h =
    let g = 10 ^ (d - length f) in
    let wide : 10 ^ d ≡ 10 ^ length f * g =
      ap (λ l. 10 ^ l) (omega arith) ∙ pow-split (length f) (d - length f) in
    rw (wide, value-append 0 w f, value_split (big_int w) f) (grind arith)

-- `n` is the amount that the text with the digits `w` before the point and `f` after it says in an
-- asset with `d` decimals: exactly if there are at most so many digits, or rounded as `IsClose` says.
abbrev pub IsAmount : ℕ → RoundingMode → List ℕ → List ℕ → ℕ → Type 0
IsAmount d mode w f n =
    ((length f ≤ d) × (n ≡ all_digits w f * 10 ^ (d - length f)))
    ⊎ ((d < length f) × IsClose mode (all_digits w f) (10 ^ (length f - d)) n)

pub combined-fits :
    (d : ℕ) (parts : List ℕ × List ℕ × Bool)
    → big_int (parts.0) ≤ max_safe_integer
    → combined d parts
      ≡ ok (record { amount = pos (parts_amount d parts); decimals = d; was_rounded = parts.2 })
combined-fits d (w, f, cut) h =
    let fits : ltb max_safe_integer (big_int w) ≡ false = ground (arith, h) in rw fits refl

-- What the parts come to.
parts-IsAmount :
    (d : ℕ) (mode : RoundingMode) (w f : List ℕ)
    → 0 < d
    → AreDigits f
    → IsAmount d mode w f (parts_amount d (round_parts d mode (or_zero w) f))
      × (big_int ((round_parts d mode (or_zero w) f).0) ≤ big_int w + 1)
      × ((round_parts d mode (or_zero w) f).2 ≡ ltb d (length f))
parts-IsAmount d mode w f h digits = elim (Bool-cases (ltb d (length f))) [
  | inl long ↦
      let l = ltb→lt d (length f) long in
      let (amount, whole, cut) = round_parts-cut d mode (or_zero w) f h digits l in
      (
        inr (
          l,
          subst (λ n. IsClose mode (all_digits w f) (10 ^ (length f - d)) n)
              (sym (
                amount
                ∙ ap (λ a. a * 10 ^ d + (big_int (take d f) + increment mode (get_or f d 48 - 48)))
                    (big_int-or_zero w)))
              (cut-IsClose d mode w f digits l),
        ),
        omega (arith, big_int-or_zero w),
        cut ∙ sym long,
      )
  | inr short ↦
      let l = not_ltb→le d (length f) short in
      let (amount, whole, cut) = round_parts-exact d mode (or_zero w) f l in
      (
        inl (
          l,
          amount
              ∙ ap (λ a. a * 10 ^ d + big_int f * 10 ^ (d - length f)) (big_int-or_zero w)
              ∙ all_digits-exact d w f l,
        ),
        omega (arith, big_int-or_zero w),
        cut ∙ sym short,
      )
]

-- For an asset with decimals, without bounds: a text of digits with at most one point, which is not zero
-- and stands for less than 2^53 - 1 before the point, is parsed. The amount is exact when the text has at
-- most the decimals of the asset. Otherwise it is the value of the text rounded towards 0 for TRUNCATE
-- and FLOOR, to the nearest with a tie rounded up for HALF_UP, and for CEIL rounded up if the digits that
-- are cut off come to a tenth of a unit at least, and towards 0 if they come to less.
pub parse_payroll_amount-IsAmount :
    (remove_symbol : String → List ℕ → List ℕ) (input : List ℕ) (metadata : AssetMetadata)
    (mode : Option RoundingMode) (w : List ℕ) (o : Option (List ℕ))
    → sanitize_input remove_symbol input (metadata.symbol) ≡ w ++ point o
    → AreDigits w
    → AreDigits (fraction o)
    → 0 < all_digits w (fraction o)
    → 0 < metadata.decimals
    → big_int w < max_safe_integer
    → (n : ℕ) × (parse_payroll_amount remove_symbol input metadata
          (record { bounds = none; rounding = mode })
        ≡ ok (record {
          amount = pos n;
          decimals = metadata.decimals;
          was_rounded = ltb (metadata.decimals) (length (fraction o));
        }))
      × IsAmount (metadata.decimals) (default mode half_up) w (fraction o) n
unfolding parse_payroll_amount check_bounds
parse_payroll_amount-IsAmount remove_symbol input metadata mode w o text hw hf positive
      some_decimals safe =
    let d = metadata.decimals in
    let m = default mode half_up in
    let parts = round_parts d m (or_zero w) (fraction o) in
    let (amount, whole, cut) = parts-IsAmount d m w (fraction o) some_decimals hf in
    let parsed =
      parse_cleaned-text d m w o hw hf positive
      ∙ combined-fits d parts (omega (arith, whole, safe)) in
    (
      parts_amount d parts,
      rw (parse_payroll_amount, text, parsed) (rw (check_bounds, cut) refl),
      amount,
    )
