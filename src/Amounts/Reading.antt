-- ===== src/Amounts/Reading.antt =====
-- packages/core/src/assets/amountParsing.ts: the amount that a decimal text is read as.
use zk_payroll_sdk.Prelude.{
  ℕ, ◌+◌, ◌-◌, ◌<◌, ◌==◌, Bool, ◌&&◌, ◌||◌, not, true, false, Option, none, some, default, List, [],
  ◌∷◌, ◌++◌, length, ◌≡◌, refl, ap, ◌∙◌, inl, inr, Bool-cases, arith,
}
use zk_payroll_sdk.Amounts.{RoundingMode}
use zk_payroll_sdk.Amounts.Digits.{value, big_int, AreDigits, value-append}
use zk_payroll_sdk.Amounts.Parsing.{
  is_unsigned, is_negative, is_numeric, before_point, after_point, or_zero, are_zeros,
  is_single_zero, round_parts, combined, parse_cleaned,
}

-- What may follow the digits before the point.
abbrev pub point : Option (List ℕ) → List ℕ
point none = []
point (some f) = 46 ∷ f

abbrev pub fraction : Option (List ℕ) → List ℕ
fraction o = default o []

before_point_lem :
    (w : List ℕ) (o : Option (List ℕ)) → AreDigits w → before_point (w ++ point o) ≡ w
before_point_lem [] none h = refl
before_point_lem [] (some f) h = refl
before_point_lem (c ∷ w) o (h, hs) = ground (arith, before_point_lem w o hs, h)

after_point_lem :
    (w : List ℕ) (o : Option (List ℕ)) → AreDigits w → after_point (w ++ point o) ≡ fraction o
after_point_lem [] none h = refl
after_point_lem [] (some f) h = refl
after_point_lem (c ∷ w) o (h, hs) = ground (arith, after_point_lem w o hs, h)

is_unsigned-digits :
    (allowed some_digit : Bool) (f : List ℕ)
    → AreDigits f
    → is_unsigned allowed some_digit f ≡ (some_digit || not (length f == 0))
is_unsigned-digits allowed some_digit [] h = ground arith
is_unsigned-digits allowed some_digit (c ∷ f) (h, hs) =
    ground (arith, is_unsigned-digits allowed true f hs, h)

is_unsigned-text :
    (some_digit : Bool) (w : List ℕ) (o : Option (List ℕ))
    → AreDigits w
    → AreDigits (fraction o)
    → is_unsigned true some_digit (w ++ point o)
      ≡ (some_digit || not (length w == 0) || not (length (fraction o) == 0))
is_unsigned-text some_digit [] none h k = ground arith
is_unsigned-text some_digit [] (some f) h k =
    ground (arith, is_unsigned-digits false some_digit f k)
is_unsigned-text some_digit (c ∷ w) o (h, hs) k = ground (arith, is_unsigned-text true w o hs k, h)

is_negative-text :
    (w : List ℕ) (o : Option (List ℕ)) → AreDigits w → is_negative (w ++ point o) ≡ false
is_negative-text [] none h = refl
is_negative-text [] (some f) h = refl
is_negative-text (c ∷ w) o (h, hs) = ground (arith, h)

is_numeric-text :
    (w : List ℕ) (o : Option (List ℕ))
    → AreDigits w
    → is_numeric (w ++ point o) ≡ is_unsigned true false (w ++ point o)
is_numeric-text [] none h = refl
is_numeric-text [] (some f) h = refl
is_numeric-text (c ∷ w) o (h, hs) = ground (arith, h)

value-are_zeros : (f : List ℕ) → are_zeros f ≡ true → value 0 f ≡ 0
value-are_zeros [] h = refl
value-are_zeros (c ∷ f) h =
    let zero_digit : 0 + (c - 48) ≡ 0 = ground (arith, h) in
    ap (λ n. value n f) zero_digit ∙ value-are_zeros f (ground (arith, h))

value-is_single_zero : (w : List ℕ) → is_single_zero (or_zero w) ≡ true → big_int w ≡ 0
value-is_single_zero [] h = refl
value-is_single_zero (c ∷ []) h = ground (arith, h)
value-is_single_zero (c ∷ d ∷ w) h = absurd (ground (arith, h))

pub big_int-or_zero : (w : List ℕ) → big_int (or_zero w) ≡ big_int w
big_int-or_zero [] = refl
big_int-or_zero (c ∷ w) = refl

-- All digits of the text as one number.
abbrev pub all_digits : List ℕ → List ℕ → ℕ
all_digits w f = big_int (w ++ f)

not_zero : (w f : List ℕ) → 0 < all_digits w f → (is_single_zero (or_zero w) && are_zeros f) ≡ false
not_zero w f h = elim (Bool-cases (is_single_zero (or_zero w) && are_zeros f)) [
  | inr some_digit ↦ some_digit
  | inl zeros ↦
      let nothing : all_digits w f ≡ 0 =
        value-append 0 w f
        ∙ ap (λ n. value n f) (value-is_single_zero w (ground (arith, zeros)))
        ∙ value-are_zeros f (ground (arith, zeros)) in
      absurd (omega (arith, nothing))
]

length_text :
    (w : List ℕ) (o : Option (List ℕ))
    → 0 < all_digits w (fraction o)
    → ((length w == 0) && (length (fraction o) == 0)) ≡ false
length_text [] none h = absurd (omega arith)
length_text [] (some []) h = absurd (omega arith)
length_text [] (some (c ∷ f)) h = ground arith
length_text (c ∷ w) o h = ground arith

length-text :
    (w : List ℕ) (o : Option (List ℕ))
    → 0 < all_digits w (fraction o)
    → (length (w ++ point o) == 0) ≡ false
length-text [] none h = absurd (omega arith)
length-text [] (some f) h = ground arith
length-text (c ∷ w) o h = ground arith

-- A text of digits that is not zero comes to the last step.
pub parse_cleaned-text :
    (d : ℕ) (mode : RoundingMode) (w : List ℕ) (o : Option (List ℕ))
    → AreDigits w
    → AreDigits (fraction o)
    → 0 < all_digits w (fraction o)
    → parse_cleaned d mode (w ++ point o) ≡ combined d (round_parts d mode (or_zero w) (fraction o))
unfolding parse_cleaned
parse_cleaned-text d mode w o hw hf h =
    let numeric : is_numeric (w ++ point o) ≡ true =
      is_numeric-text w o hw
      ∙ is_unsigned-text false w o hw hf
      ∙ ground (arith, length_text w o h) in
    rw
      (
        parse_cleaned,
        length-text w o h,
        numeric,
        is_negative-text w o hw,
        before_point_lem w o hw,
        after_point_lem w o hw,
        not_zero w (fraction o) h,
      )
      refl
