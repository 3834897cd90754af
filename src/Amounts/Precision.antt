-- ===== src/Amounts/Precision.antt =====
-- Rounding between two decimal precisions: when it succeeds, what it computes, when it loses digits.
use native.Mathlib.Nat.{mul-le-mul_right, pow-suc, one-le-pow}
use zk_payroll_sdk.Prelude.{
  ℕ, suc, ◌+◌, ◌-◌, ◌*◌, ◌/◌, ◌%◌, ◌^◌, ◌≤◌, ◌<◌, ◌≡◌, ◌↔◌, inl, inr, refl, true, false, not,
  Option, arith, ltb, leb, ◌==◌, default, ap, sym, ==_iff, Bool-cases,
}
use zk_payroll_sdk.Prelude.Action.{Result, ok, err}
use zk_payroll_sdk.Prelude.Int.{
  ℤ, scale_parts, rem_parts, not-eqb_zero_iff, eq_of_parts, pos, negsuc, pos_part, neg_part, ◌-ℤ◌,
  ◌≤ℤ◌, rem_ℤ, scale_ℤ, sub_ℕ, leb_ℤ, eqb_ℤ,
}
use zk_payroll_sdk.Amounts.{
  RoundingMode, half_up, divide, AssetMetadata, rounded_amount, round_amount, can_represent_exactly,
  round_to_increment,
}
use zk_payroll_sdk.Amounts.Rounding.{
  scale-divide, divide-scale, IsRounded, divide-IsRounded, divide-negsuc, divide_mono,
}

-- The divisor between two precisions is an even number above 1.
scale_facts : (k : ℕ) → (1 < 10 ^ suc k) × (10 ^ suc k % 2 ≡ 0)
scale_facts k = rw (pow-suc 10 k) (omega (arith, one-le-pow k 10 (omega arith)), omega arith)

gap_facts : (s t : ℕ) → t < s → (1 < 10 ^ (s - t)) × (10 ^ (s - t) % 2 ≡ 0)
gap_facts s t h = let e : s - t ≡ suc (s - t - 1) = omega arith in rw e (scale_facts (s - t - 1))

-- Rounding succeeds exactly when both precisions are at most 18, and returns `rounded_amount`.
pub round_amount_lem :
    (a : ℤ) (s t : ℕ) (mode : Option RoundingMode)
    → s ≤ 18
    → t ≤ 18
    → round_amount a s t mode ≡ ok (rounded_amount a s t (default mode half_up))
unfolding round_amount
round_amount_lem a s t mode h k = ground arith

-- The same, with the tests on the two precisions decided.
round_amount_narrow :
    (a : ℤ) (s t : ℕ) (mode : Option RoundingMode)
    → s ≤ 18
    → t < s
    → round_amount a s t mode
      ≡ ok (record {
        amount = divide (default mode half_up) a (10 ^ (s - t));
        target_decimals = t;
        was_rounded = not (eqb_ℤ (rem_ℤ a (10 ^ (s - t))) (pos 0));
        original_amount = a;
        source_decimals = s;
      })
round_amount_narrow a s t mode h lt =
    let ne : (s == t) ≡ false = ground arith in
    let down : ltb s t ≡ false = ground arith in
    let lossy : leb s t ≡ false = ground arith in
    rw (round_amount_lem a s t mode h (omega arith)) (rw (ne, down, lossy))

round_amount_widen :
    (a : ℤ) (s t : ℕ) (mode : Option RoundingMode)
    → t ≤ 18
    → s < t
    → round_amount a s t mode
      ≡ ok (record {
        amount = scale_ℤ a (10 ^ (t - s));
        target_decimals = t;
        was_rounded = false;
        original_amount = a;
        source_decimals = s;
      })
round_amount_widen a s t mode h lt =
    let ne : (s == t) ≡ false = ground arith in
    let up : ltb s t ≡ true = ground arith in
    let exact : leb s t ≡ true = ground arith in
    rw (round_amount_lem a s t mode (omega arith) h) (rw (ne, up, exact))

rounded_amount_same :
    (a : ℤ) (s t : ℕ) (mode : RoundingMode)
    → s ≡ t
    → ((rounded_amount a s t mode).amount ≡ a) × ((rounded_amount a s t mode).was_rounded ≡ false)
rounded_amount_same a s t mode e = ground arith

-- The amount that a call returns, if it returns.
abbrev pub Returns : {E A : Type 0} → Result E A → (A → Type 0) → Type 0
Returns (ok v) P = P v
Returns (err e) P = ⊥

-- Going to fewer decimals, a natural amount is divided by the power of ten between the precisions
-- and rounded as the mode says: towards 0 for `TRUNCATE` and `FLOOR`, up for `CEIL`, to the nearest
-- with ties up for `HALF_UP`, which is also the default.
pub round_amount-IsRounded :
    (n s t : ℕ) (mode : Option RoundingMode)
    → s ≤ 18
    → t < s
    → Returns
        (round_amount (pos n) s t mode)
        (λ v. (r : ℕ) × (v.amount ≡ pos r) × IsRounded (default mode half_up) n (10 ^ (s - t)) r)
round_amount-IsRounded n s t mode h lt =
    let (big, even) = gap_facts s t lt in
    let (r, e, rounded) =
      divide-IsRounded (default mode half_up) n (10 ^ (s - t)) (omega (arith, big)) even in
    rw (round_amount_lem (pos n) s t mode h (omega arith)) (r, ground (arith, e), rounded)

-- A negative amount is rounded towards 0 by every mode, `HALF_UP` and `FLOOR` included.
round_amount_negative :
    (n s t : ℕ) (mode : Option RoundingMode)
    → s ≤ 18
    → t < s
    → Returns (round_amount (negsuc n) s t mode) (λ v. v.amount ≡ sub_ℕ 0 (suc n / 10 ^ (s - t)))
round_amount_negative n s t mode h lt =
    rw (round_amount_lem (negsuc n) s t mode h (omega arith))
      (ground (arith, divide-negsuc (default mode half_up) n (10 ^ (s - t)) (gap_facts s t lt).0))

scale_ℤ_mono : (a b : ℤ) (d : ℕ) → a ≤ℤ b → scale_ℤ a d ≤ℤ scale_ℤ b d
scale_ℤ_mono a b d le =
    rw ((scale_parts a d).0, (scale_parts a d).1, (scale_parts b d).0, (scale_parts b d).1)
      (omega (arith, mul-le-mul_right d le))

amount_mono :
    (a b : ℤ) (s t : ℕ) (mode : RoundingMode)
    → a ≤ℤ b
    → (rounded_amount a s t mode).amount ≤ℤ (rounded_amount b s t mode).amount
amount_mono a b s t mode le = elim (Bool-cases (s == t)) [
  | inl same ↦ rw same le
  | inr other ↦ elim (Bool-cases (ltb s t)) [
    | inl up ↦ rw (other, up) (scale_ℤ_mono a b (10 ^ (t - s)) le)
    | inr down ↦
        let (big, even) = gap_facts s t (ground arith) in
        rw (other, down) (divide_mono mode a b (10 ^ (s - t)) big even le)
  ]
]

-- Rounding keeps the order of amounts, negative ones included, between any two precisions and in
-- any mode.
round_amount_mono :
    (a b : ℤ) (s t : ℕ) (mode : Option RoundingMode)
    → s ≤ 18
    → t ≤ 18
    → a ≤ℤ b
    → Returns
        (round_amount a s t mode)
        (λ v. Returns (round_amount b s t mode) (λ w. v.amount ≤ℤ w.amount))
round_amount_mono a b s t mode h k le =
    rw (round_amount_lem a s t mode h k, round_amount_lem b s t mode h k)
      (amount_mono a b s t (default mode half_up) le)

can_represent_narrow :
    (a : ℤ) (s t : ℕ)
    → s ≤ 18
    → t < s
    → can_represent_exactly a s t ≡ ok (not (not (eqb_ℤ (rem_ℤ a (10 ^ (s - t))) (pos 0))))
unfolding can_represent_exactly
can_represent_narrow a s t h lt = ground arith

-- Going to fewer decimals, the flag says whether digits were lost: it is off exactly when the amount
-- can be represented exactly, and exactly when scaling the result back gives the amount.
was_rounded_iff :
    (a : ℤ) (s t : ℕ) (mode : Option RoundingMode)
    → s ≤ 18
    → t < s
    → Returns (round_amount a s t mode) (λ v.
      (can_represent_exactly a s t ≡ ok (not v.was_rounded))
      × ((v.was_rounded ≡ false) ↔ (scale_ℤ v.amount (10 ^ (s - t)) ≡ a)))
was_rounded_iff a s t mode h lt =
    let back = scale-divide (default mode half_up) a (10 ^ (s - t)) (gap_facts s t lt).0 in
    let flag = not-eqb_zero_iff (rem_ℤ a (10 ^ (s - t))) in
    rw (round_amount_narrow a s t mode h lt)
      (can_represent_narrow a s t h lt, (λ f. back.0 (flag.0 f), λ e. flag.1 (back.1 e)))

-- Adding decimals and taking them away again gives the amount back, in any mode, and neither step
-- reports that it rounded.
pub round_amount_roundtrip :
    (a : ℤ) (s t : ℕ) (up down : Option RoundingMode)
    → t ≤ 18
    → s ≤ t
    → Returns (round_amount a s t up) (λ v.
      (v.was_rounded ≡ false)
      × Returns (round_amount v.amount t s down) (λ w. (w.amount ≡ a) × (w.was_rounded ≡ false)))
round_amount_roundtrip a s t up down h le = elim (Bool-cases (s == t)) [
  | inl same ↦
      let e : s ≡ t = (==_iff s t).0 same in
      let (kept, exact) = rounded_amount_same a s t (default up half_up) e in
      rw
        (
          round_amount_lem a s t up (omega arith) h,
          kept,
          exact,
          round_amount_lem a t s down h (omega arith),
        )
        (refl, rounded_amount_same a t s (default down half_up) (sym e))
  | inr other ↦
      let lt : s < t = ground arith in
      let (back, exact) =
        divide-scale (default down half_up) a (10 ^ (t - s)) (gap_facts t s lt).0 in
      rw
        (
          round_amount_widen a s t up h lt,
          round_amount_narrow (scale_ℤ a (10 ^ (t - s))) t s down h lt,
        )
        (refl, (back, (not-eqb_zero_iff _).1 exact))
]

whole : (n i : ℕ) → 0 < i → (n / i * i + n % i ≡ n) × (n % i < i)
whole n i h = grind arith

sub-rem_parts :
    (a : ℤ) (i : ℕ)
    → 0 < i
    → (pos_part (a -ℤ rem_ℤ a i) ≡ pos_part a / i * i)
      × (neg_part (a -ℤ rem_ℤ a i) ≡ neg_part a / i * i)
unfolding ◌-ℤ◌
sub-rem_parts (pos n) i h = ground (arith, rem_parts (pos n) i, whole n i h)
sub-rem_parts (negsuc n) i h = ground (arith, rem_parts (negsuc n) i, whole (suc n) i h)

sub-rem_flag : (a : ℤ) (i : ℕ) → 0 < i → (rem_ℤ a i ≡ pos 0) ↔ (a -ℤ rem_ℤ a i ≡ a)
sub-rem_flag a i h = (
  λ e. eq_of_parts _ a (
      omega (
        arith,
        sub-rem_parts a i h,
        rem_parts a i,
        ap pos_part e,
        ap neg_part e,
        whole (pos_part a) i h,
        whole (neg_part a) i h,
      )),
  λ e. eq_of_parts _ (pos 0) (
      omega (
        arith,
        sub-rem_parts a i h,
        rem_parts a i,
        ap pos_part e,
        ap neg_part e,
        whole (pos_part a) i h,
        whole (neg_part a) i h,
      )),
)

-- Rounding to a positive increment gives the multiple of it that is next to the amount on the side
-- of 0, for negative amounts too, and the flag is off exactly when that is the amount itself.
round_to_increment_lem :
    (a : ℤ) (i : ℕ) (m : AssetMetadata)
    → 0 < i
    → Returns (round_to_increment a (pos i) m) (λ v.
      (pos_part v.amount ≡ pos_part a / i * i)
      × (neg_part v.amount ≡ neg_part a / i * i)
      × ((v.was_rounded ≡ false) ↔ (v.amount ≡ a)))
unfolding round_to_increment
round_to_increment_lem a i m h =
    let positive : leb_ℤ (pos i) (pos 0) ≡ false = ground arith in
    let flag = not-eqb_zero_iff (rem_ℤ a i) in
    let whole_flag = sub-rem_flag a i h in
    rw positive (
      (sub-rem_parts a i h).0,
      (sub-rem_parts a i h).1,
      (λ f. whole_flag.0 (flag.0 f), λ e. flag.1 (whole_flag.1 e)),
    )
