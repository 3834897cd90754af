-- ===== src/Amounts/Digits.antt =====
-- Decimal numbers as lists of code units: what `BigInt(text)`, `bigint.toString()`, `padStart`, `padEnd`
-- and `slice(-n)` do in packages/core/src/assets/amountParsing.ts.
use native.Mathlib.Nat.{mul-le-mul_right, pow-suc}
use zk_payroll_sdk.Prelude.{
  ℕ, zero, suc, ◌+◌, ◌-◌, ◌*◌, ◌/◌, ◌%◌, ◌^◌, ◌≤◌, ◌<◌, ◌==◌, leb, Bool, ◌&&◌, true, List, [], ◌∷◌,
  ◌++◌, if◌then◌else◌, length, drop, All, ◌≡◌, refl, ap, ◌∙◌, inl, inr, Bool-cases, ==_iff, arith,
}

-- The number that digits spell behind another number; `BigInt("")` is 0.
abbrev pub value : ℕ → List ℕ → ℕ
value n [] = n
value n (c ∷ s) = value (n * 10 + (c - 48)) s

-- `BigInt(text)` of digits.
abbrev pub big_int : List ℕ → ℕ
big_int s = value 0 s

-- The digits of a number before others, in so many rounds at most.
abbrev pub digits_onto : ℕ → ℕ → List ℕ → List ℕ
digits_onto zero n out = out
digits_onto (suc rounds) n out =
    let rest = digits_onto rounds (n / 10) ((48 + n % 10) ∷ out) in if n == 0 then out else rest

-- `n.toString()`; a number has at most as many digits as it counts.
unfoldable pub to_string : ℕ → List ℕ
to_string n = digits_onto n (n / 10) ((48 + n % 10) ∷ [])

abbrev pub zeros : ℕ → List ℕ
zeros zero = []
zeros (suc n) = 48 ∷ zeros n

-- `s.padStart(n, "0")` and `s.padEnd(n, "0")`
abbrev pub pad_start : ℕ → List ℕ → List ℕ
pad_start n s = zeros (n - length s) ++ s

abbrev pub pad_end : ℕ → List ℕ → List ℕ
pad_end n s = s ++ zeros (n - length s)

-- `s.slice(-n)`, where -0 is 0.
abbrev pub slice_last : ℕ → List ℕ → List ℕ
slice_last n s = if n == 0 then s else drop (length s - n) s

abbrev pub is_digit : ℕ → Bool
is_digit c = leb 48 c && leb c 57

abbrev pub AreDigits : List ℕ → Type 0
AreDigits s = All (λ c. is_digit c ≡ true) s

spread : (n d p v : ℕ) → (n * 10 + d) * p + v ≡ n * (10 * p) + ((0 + d) * p + v)
spread n d p v = grind arith

pub value_split : (n : ℕ) (s : List ℕ) → value n s ≡ n * 10 ^ length s + value 0 s
value_split n [] = omega arith
value_split n (c ∷ s) =
    let p = 10 ^ length s in
    let v = value 0 s in
    let wide : 10 ^ suc (length s) ≡ 10 * p = omega (arith, pow-suc 10 (length s)) in
    rw (wide, value_split (n * 10 + (c - 48)) s, value_split (0 + (c - 48)) s)
      (spread n (c - 48) p v)

pub value-append : (n : ℕ) (s t : List ℕ) → value n (s ++ t) ≡ value (value n s) t
value-append n [] t = refl
value-append n (c ∷ s) t = value-append (n * 10 + (c - 48)) s t

pub value-bound : (s : List ℕ) → AreDigits s → value 0 s < 10 ^ length s
value-bound [] h = omega arith
value-bound (c ∷ s) (h, hs) =
    let p = 10 ^ length s in
    let wide : 10 ^ suc (length s) ≡ 10 * p = omega (arith, pow-suc 10 (length s)) in
    let digit : c - 48 ≤ 9 = ground (arith, h) in
    omega (arith, wide, value_split (0 + (c - 48)) s, mul-le-mul_right p digit, value-bound s hs)

pub value-zeros : (k : ℕ) → value 0 (zeros k) ≡ 0
value-zeros zero = refl
value-zeros (suc k) = value-zeros k

value-digits_onto :
    (rounds n : ℕ) (out : List ℕ) → n ≤ rounds → value 0 (digits_onto rounds n out) ≡ value n out
value-digits_onto zero n out h = ground arith
value-digits_onto (suc rounds) n out h = elim (Bool-cases (n == 0)) [
  | inl none_left ↦ ground (arith, none_left, (==_iff n 0).0 none_left)
  | inr some_left ↦ rw some_left (
      value-digits_onto rounds (n / 10) ((48 + n % 10) ∷ out) (omega arith)
      ∙ ap (λ m. value m out) (omega arith))
]

-- A printed number is read back.
pub big_int-to_string : (n : ℕ) → big_int (to_string n) ≡ n
unfolding to_string
big_int-to_string n = value-digits_onto n (n / 10) ((48 + n % 10) ∷ []) (omega arith) ∙ omega arith
