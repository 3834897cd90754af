-- ===== src/Amounts/Rounding.antt =====
-- What each rounding mode computes, for a positive divisor.
use native.Mathlib.Nat.{mul-mod_left}
use zk_payroll_sdk.Prelude.{
  ℕ, suc, ◌+◌, ◌*◌, ◌/◌, ◌%◌, ◌≤◌, ◌<◌, ◌≡◌, ◌↔◌, ap, sym, ◌∙◌, false, arith, if◌then◌else◌, ltb,
  leb, Bool-cases, inl, inr, ltb→lt, leb→le,
}
use zk_payroll_sdk.Prelude.Int.{
  ℤ, pos, negsuc, pos_part, neg_part, ◌+ℤ◌, ◌≤ℤ◌, quot_ℤ, rem_ℤ, scale_ℤ, sub_ℕ, sub_ℕ_zero,
  scale_ℤ, scale-pos, rem-pos, rem-negsuc, scale-sub_ℕ, negsuc_sub_ℕ, scale_parts, rem_parts,
  eq_of_parts,
}
use zk_payroll_sdk.Amounts.{RoundingMode, half_up, truncate, ceil, floor, divide}

-- `r` is the amount `n` divided by `d`, rounded by the mode: towards 0, up, or to the nearest with
-- a tie rounded up.
abbrev pub IsRounded : RoundingMode → ℕ → ℕ → ℕ → Type 0
IsRounded truncate n d r = (r * d ≤ n) × (n < r * d + d)
IsRounded floor n d r = (r * d ≤ n) × (n < r * d + d)
IsRounded ceil n d r = (n ≤ r * d) × (r * d < n + d)
IsRounded half_up n d r = (2 * (r * d) ≤ 2 * n + d) × (2 * n < 2 * (r * d) + d)

quotient : (n d : ℕ) → 0 < d → (n / d * d + n % d ≡ n) × (n % d < d)
quotient n d h = grind arith

-- The rounded quotient of a natural number, by quotient and remainder.
abbrev rounded_ℕ : RoundingMode → ℕ → ℕ → ℕ
rounded_ℕ truncate n d = n / d
rounded_ℕ floor n d = n / d
rounded_ℕ ceil n d = n / d + (if ltb 0 (n % d) then 1 else 0)
rounded_ℕ half_up n d = n / d + (if leb (d / 2) (n % d) then 1 else 0)

rounded_ℕ-IsRounded :
    (mode : RoundingMode) (n d : ℕ) → 0 < d → d % 2 ≡ 0 → IsRounded mode n d (rounded_ℕ mode n d)
rounded_ℕ-IsRounded truncate n d h even = grind (arith, quotient n d h)
rounded_ℕ-IsRounded floor n d h even = grind (arith, quotient n d h)
rounded_ℕ-IsRounded ceil n d h even = elim (Bool-cases (ltb 0 (n % d))) [
  | inl some_left ↦ rw some_left (omega (arith, quotient n d h, ltb→lt 0 (n % d) some_left))
  | inr exact ↦ rw exact (grind (arith, quotient n d h))
]
rounded_ℕ-IsRounded half_up n d h even = elim (Bool-cases (leb (d / 2) (n % d))) [
  | inl up ↦ rw up (omega (arith, quotient n d h, leb→le (d / 2) (n % d) up))
  | inr down ↦ rw down (grind (arith, quotient n d h))
]

divide-pos :
    (mode : RoundingMode) (n d : ℕ) → 0 < d → divide mode (pos n) d ≡ pos (rounded_ℕ mode n d)
unfolding divide quot_ℤ rem_ℤ ◌+ℤ◌
divide-pos truncate n d h = ground arith
divide-pos floor n d h = ground arith
divide-pos ceil n d h = ground arith
divide-pos half_up n d h = ground arith

-- A negative amount is rounded towards 0 by every mode.
pub divide-negsuc :
    (mode : RoundingMode) (n d : ℕ) → 1 < d → divide mode (negsuc n) d ≡ sub_ℕ 0 (suc n / d)
unfolding divide quot_ℤ rem_ℤ ◌+ℤ◌
divide-negsuc truncate n d h = ground arith
divide-negsuc floor n d h = ground arith
divide-negsuc ceil n d h = ground arith
divide-negsuc half_up n d h = ground arith

lt_of_mul-lt : (a b d : ℕ) → a * d < b * d → a < b
lt_of_mul-lt a b d h = grind arith

-- Rounding keeps the order.
IsRounded-le :
    (mode : RoundingMode) (m n d r s : ℕ)
    → 0 < d
    → m ≤ n
    → IsRounded mode m d r
    → IsRounded mode n d s
    → r ≤ s
IsRounded-le truncate m n d r s h le x y = omega (arith, lt_of_mul-lt r (s + 1) d (omega arith))
IsRounded-le floor m n d r s h le x y = omega (arith, lt_of_mul-lt r (s + 1) d (omega arith))
IsRounded-le ceil m n d r s h le x y = omega (arith, lt_of_mul-lt r (s + 1) d (omega arith))
IsRounded-le half_up m n d r s h le x y = omega (arith, lt_of_mul-lt r (s + 1) d (omega arith))

pub divide-IsRounded :
    (mode : RoundingMode) (n d : ℕ)
    → 0 < d
    → d % 2 ≡ 0
    → (r : ℕ) × (divide mode (pos n) d ≡ pos r) × IsRounded mode n d r
divide-IsRounded mode n d h even =
    (rounded_ℕ mode n d, divide-pos mode n d h, rounded_ℕ-IsRounded mode n d h even)

div_mono : (m n d : ℕ) → 0 < d → m ≤ n → m / d ≤ n / d
div_mono m n d h le =
    IsRounded-le truncate m n d (m / d) (n / d) h le (grind (arith, quotient m d h))
      (grind (arith, quotient n d h))

pub divide_mono :
    (mode : RoundingMode) (a b : ℤ) (d : ℕ)
    → 1 < d
    → d % 2 ≡ 0
    → a ≤ℤ b
    → divide mode a d ≤ℤ divide mode b d
divide_mono mode (pos m) (pos n) d h even le =
    rw (divide-pos mode m d (omega arith), divide-pos mode n d (omega arith))
      (omega (
        arith,
        IsRounded-le mode m n d (rounded_ℕ mode m d) (rounded_ℕ mode n d) (omega arith)
            (omega arith) (rounded_ℕ-IsRounded mode m d (omega arith) even)
            (rounded_ℕ-IsRounded mode n d (omega arith) even),
      ))
divide_mono mode (pos m) (negsuc n) d h even le = absurd (omega arith)
divide_mono mode (negsuc m) (pos n) d h even le =
    rw (divide-negsuc mode m d h, divide-pos mode n d (omega arith)) (ground arith)
divide_mono mode (negsuc m) (negsuc n) d h even le =
    rw (divide-negsuc mode m d h, divide-negsuc mode n d h)
      (omega (
        arith,
        sub_ℕ_zero (suc m / d),
        sub_ℕ_zero (suc n / d),
        div_mono (suc n) (suc m) d (omega arith) (omega arith),
      ))

exact_rem : (q m r d : ℕ) → q * d + m ≡ r * d → m < d → m ≡ 0
exact_rem q m r d e h = grind (arith, lt_of_mul-lt q (r + 1) d, lt_of_mul-lt r (q + 1) d)

mul_cancel : (a b d : ℕ) → 0 < d → a * d ≡ b * d → a ≡ b
mul_cancel a b d h e = grind (arith, lt_of_mul-lt a (b + 1) d, lt_of_mul-lt b (a + 1) d)

-- Without a remainder every mode gives the quotient, and only then does it scale back.
rounded_ℕ_exact : (mode : RoundingMode) (n d : ℕ) → 1 < d → n % d ≡ 0 → rounded_ℕ mode n d * d ≡ n
rounded_ℕ_exact truncate n d h e = grind (arith, quotient n d (omega arith))
rounded_ℕ_exact floor n d h e = grind (arith, quotient n d (omega arith))
rounded_ℕ_exact ceil n d h e = rw e (grind (arith, quotient n d (omega arith)))
rounded_ℕ_exact half_up n d h e =
    let short : leb (d / 2) 0 ≡ false = ground arith in
    rw (e, short) (grind (arith, quotient n d (omega arith)))

exact_ℕ : (r n d : ℕ) → 0 < d → r * d ≡ n → n % d ≡ 0
exact_ℕ r n d h e = exact_rem (n / d) (n % d) r d (grind (arith, quotient n d h)) (quotient n d h).1

-- Scaling the rounded quotient back gives the amount exactly when there is no remainder.
pub scale-divide :
    (mode : RoundingMode) (a : ℤ) (d : ℕ)
    → 1 < d
    → (rem_ℤ a d ≡ pos 0) ↔ (scale_ℤ (divide mode a d) d ≡ a)
scale-divide mode (pos n) d h =
    rw (divide-pos mode n d (omega arith), scale-pos, rem-pos)
      (
        λ e. ap pos (rounded_ℕ_exact mode n d h (omega (arith, ap pos_part e))),
        λ e. ap pos (exact_ℕ (rounded_ℕ mode n d) n d (omega arith) (ap pos_part e)),
      )
scale-divide mode (negsuc n) d h =
    rw (divide-negsuc mode n d h, scale-sub_ℕ, rem-negsuc)
      (
        λ e.
            ap (sub_ℕ 0) (
              rounded_ℕ_exact truncate (suc n) d h
                (omega (arith, sub_ℕ_zero (suc n % d), ap neg_part e)))
            ∙ sym (negsuc_sub_ℕ n),
        λ e. ap (sub_ℕ 0) (
            exact_ℕ (suc n / d) (suc n) d (omega arith)
              (omega (arith, sub_ℕ_zero (suc n / d * d), ap neg_part e))),
      )

scale_injective : (a b : ℤ) (d : ℕ) → 0 < d → scale_ℤ a d ≡ scale_ℤ b d → a ≡ b
scale_injective a b d h e = eq_of_parts a b (
    omega (
      arith,
      mul_cancel (pos_part a) (pos_part b) d h
          ((sym (scale_parts a d).0) ∙ ap pos_part e ∙ (scale_parts b d).0),
      mul_cancel (neg_part a) (neg_part b) d h
          ((sym (scale_parts a d).1) ∙ ap neg_part e ∙ (scale_parts b d).1),
    ))

-- Dividing a multiple of the divisor gives it back, with no remainder.
pub divide-scale :
    (mode : RoundingMode) (a : ℤ) (d : ℕ)
    → 1 < d
    → (divide mode (scale_ℤ a d) d ≡ a) × (rem_ℤ (scale_ℤ a d) d ≡ pos 0)
divide-scale mode a d h =
    let no_rest : rem_ℤ (scale_ℤ a d) d ≡ pos 0 = eq_of_parts _ _ (
      rw (
        (rem_parts (scale_ℤ a d) d).0,
        (rem_parts (scale_ℤ a d) d).1,
        (scale_parts a d).0,
        (scale_parts a d).1,
        mul-mod_left,
        mul-mod_left,
      )) in
    (scale_injective _ a d (omega arith) ((scale-divide mode (scale_ℤ a d) d h).0 no_rest), no_rest)
