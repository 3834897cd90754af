-- ===== src/Prelude/Int.antt =====
-- `bigint`: signed integers over the native numbers. JavaScript divides towards zero, and a
-- remainder has the sign of the dividend.
use Prim.Native.Nat.{ℕ, suc, ◌+◌, ◌-◌, ◌*◌, ◌/◌, ◌%◌, ◌≤◌}
use mathlib.Core.Path.{◌≡◌}
use mathlib.Core.Bool.{Bool, false, not}
use mathlib.Core.Logic.{◌↔◌}
use native.Mathlib.Omega.{arith}
use native.Mathlib.Nat.{zero-mul}
use zk_payroll_sdk.Prelude.Tests.{ltb, leb, ◌==◌, if◌then◌else◌}

-- `negsuc n` is -(n + 1).
pub data ℤ : Type 0 where
  pos : ℕ → ℤ
  negsuc : ℕ → ℤ

abbrev pub pos_part : ℤ → ℕ
pos_part (pos n) = n
pos_part (negsuc n) = 0

abbrev pub neg_part : ℤ → ℕ
neg_part (pos n) = 0
neg_part (negsuc n) = suc n

-- a - b, as an integer.
abbrev pub sub_ℕ : ℕ → ℕ → ℤ
sub_ℕ a b = if leb b a then pos (a - b) else negsuc (b - a - 1)

infixl 65 ◌+ℤ◌ ◌-ℤ◌
infix 50 ◌≤ℤ◌
unfoldable pub ◌+ℤ◌ : ℤ → ℤ → ℤ
a +ℤ b = sub_ℕ (pos_part a + pos_part b) (neg_part a + neg_part b)

unfoldable pub ◌-ℤ◌ : ℤ → ℤ → ℤ
a -ℤ b = sub_ℕ (pos_part a + neg_part b) (neg_part a + pos_part b)

abbrev pub ◌≤ℤ◌ : ℤ → ℤ → Type 0
a ≤ℤ b = pos_part a + neg_part b ≤ pos_part b + neg_part a

abbrev pub ltb_ℤ : ℤ → ℤ → Bool
ltb_ℤ a b = ltb (pos_part a + neg_part b) (pos_part b + neg_part a)

abbrev pub leb_ℤ : ℤ → ℤ → Bool
leb_ℤ a b = leb (pos_part a + neg_part b) (pos_part b + neg_part a)

abbrev pub eqb_ℤ : ℤ → ℤ → Bool
eqb_ℤ a b = pos_part a + neg_part b == pos_part b + neg_part a

-- Quotient, remainder and product by a natural number.
unfoldable pub quot_ℤ : ℤ → ℕ → ℤ
quot_ℤ a d = sub_ℕ (pos_part a / d) (neg_part a / d)

unfoldable pub rem_ℤ : ℤ → ℕ → ℤ
rem_ℤ a d = sub_ℕ (pos_part a % d) (neg_part a % d)

unfoldable pub scale_ℤ : ℤ → ℕ → ℤ
scale_ℤ a m = sub_ℕ (pos_part a * m) (neg_part a * m)

pub eq_of_parts : (a b : ℤ) → pos_part a + neg_part b ≡ pos_part b + neg_part a → a ≡ b
eq_of_parts a b h = ground arith

pub sub_ℕ_zero : (n : ℕ) → (pos_part (sub_ℕ 0 n) ≡ 0) × (neg_part (sub_ℕ 0 n) ≡ n)
sub_ℕ_zero n = ground arith

pub scale-pos : (n d : ℕ) → scale_ℤ (pos n) d ≡ pos (n * d)
unfolding scale_ℤ
scale-pos n d = rw zero-mul (ground arith)

pub scale-sub_ℕ : (n d : ℕ) → scale_ℤ (sub_ℕ 0 n) d ≡ sub_ℕ 0 (n * d)
unfolding scale_ℤ
scale-sub_ℕ n d = rw ((sub_ℕ_zero n).0, (sub_ℕ_zero n).1, zero-mul)

pub negsuc_sub_ℕ : (n : ℕ) → negsuc n ≡ sub_ℕ 0 (suc n)
negsuc_sub_ℕ n = ground arith

pub rem-pos : (n d : ℕ) → rem_ℤ (pos n) d ≡ pos (n % d)
unfolding rem_ℤ
rem-pos n d = ground arith

pub rem-negsuc : (n d : ℕ) → rem_ℤ (negsuc n) d ≡ sub_ℕ 0 (suc n % d)
unfolding rem_ℤ
rem-negsuc n d = ground arith

pub quot-pos : (n d : ℕ) → quot_ℤ (pos n) d ≡ pos (n / d)
unfolding quot_ℤ
quot-pos n d = ground arith

pub quot-negsuc : (n d : ℕ) → quot_ℤ (negsuc n) d ≡ sub_ℕ 0 (suc n / d)
unfolding quot_ℤ
quot-negsuc n d = ground arith

-- Scaling and the remainder act on the two parts.
pub scale_parts :
    (a : ℤ) (d : ℕ)
    → (pos_part (scale_ℤ a d) ≡ pos_part a * d) × (neg_part (scale_ℤ a d) ≡ neg_part a * d)
unfolding scale_ℤ
scale_parts (pos n) d = rw zero-mul (ground arith)
scale_parts (negsuc n) d = rw zero-mul (sub_ℕ_zero (suc n * d))

pub rem_parts :
    (a : ℤ) (d : ℕ)
    → (pos_part (rem_ℤ a d) ≡ pos_part a % d) × (neg_part (rem_ℤ a d) ≡ neg_part a % d)
unfolding rem_ℤ
rem_parts (pos n) d = ground arith
rem_parts (negsuc n) d = ground arith

pub not-eqb_zero_iff : (a : ℤ) → (not (eqb_ℤ a (pos 0)) ≡ false) ↔ (a ≡ pos 0)
not-eqb_zero_iff a = ground arith
