-- ===== src/Amounts/Carry.antt =====
-- packages/core/src/assets/amountParsing.ts: the text that rounding leaves after the point, and its
-- carry to the part before it.
use mathlib.Core.Path.{subst}
use zk_payroll_sdk.Prelude.{
  ℕ, zero, suc, ◌+◌, ◌-◌, ◌*◌, ◌/◌, ◌%◌, ◌^◌, ◌≤◌, ◌<◌, ◌==◌, leb, ltb, Bool, true, false, List, [],
  ◌∷◌, length, length-append, drop, length-drop, length-take, take, take-append-drop, All-append,
  ◌≡◌, refl, sym, ap, ◌∙◌, inl, inr, Bool-cases, lt→ltb, arith,
}
use zk_payroll_sdk.Prelude.Arrays.{get_or}
use zk_payroll_sdk.Amounts.{RoundingMode, half_up, truncate, ceil, floor}
use zk_payroll_sdk.Amounts.Digits.{
  value, big_int, digits_onto, to_string, zeros, pad_start, pad_end, slice_last, AreDigits,
  value_split, value-append, value-bound, value-zeros, big_int-to_string,
}
use zk_payroll_sdk.Amounts.Parsing.{increment, apply_rounding, round_parts}

length-zeros : (k : ℕ) → length (zeros k) ≡ k
length-zeros zero = refl
length-zeros (suc k) = ap suc (length-zeros k)

zeros-AreDigits : (k : ℕ) → AreDigits (zeros k)
zeros-AreDigits zero = tt
zeros-AreDigits (suc k) = (refl, zeros-AreDigits k)

digits_onto-AreDigits :
    (rounds n : ℕ) (out : List ℕ) → AreDigits out → AreDigits (digits_onto rounds n out)
digits_onto-AreDigits zero n out h = h
digits_onto-AreDigits (suc rounds) n out h = elim (Bool-cases (n == 0)) [
  | inl none_left ↦ rw none_left h
  | inr some_left ↦
      rw some_left (digits_onto-AreDigits rounds (n / 10) ((48 + n % 10) ∷ out) (ground arith, h))
]

to_string-AreDigits : (n : ℕ) → AreDigits (to_string n)
unfolding to_string
to_string-AreDigits n = digits_onto-AreDigits n (n / 10) ((48 + n % 10) ∷ []) (ground arith, tt)

pub All-drop : (k : ℕ) (s : List ℕ) → AreDigits s → AreDigits (drop k s)
All-drop zero s h = h
All-drop (suc k) [] h = tt
All-drop (suc k) (c ∷ s) (h, hs) = All-drop k s hs

pub All-take : (k : ℕ) (s : List ℕ) → AreDigits s → AreDigits (take k s)
All-take zero s h = tt
All-take (suc k) [] h = tt
All-take (suc k) (c ∷ s) (h, hs) = (h, All-take k s hs)

-- Padding does not change a number.
pub big_int-pad_start : (d : ℕ) (s : List ℕ) → big_int (pad_start d s) ≡ big_int s
big_int-pad_start d s =
    value-append 0 (zeros (d - length s)) s ∙ ap (λ n. value n s) (value-zeros (d - length s))

length-pad_start : (d : ℕ) (s : List ℕ) → d ≤ length (pad_start d s)
length-pad_start d s =
    omega (arith, length-append (zeros (d - length s)) s, length-zeros (d - length s))

-- A text is what stands before its last digits and these.
pub value-drop :
    (k : ℕ) (s : List ℕ) → value 0 s ≡ value 0 (take k s) * 10 ^ (length s - k) + value 0 (drop k s)
value-drop k s =
    ap (value 0) (sym (take-append-drop k s))
    ∙ value-append 0 (take k s) (drop k s)
    ∙ value_split (value 0 (take k s)) (drop k s)
    ∙ ap (λ l. value 0 (take k s) * 10 ^ l + value 0 (drop k s)) (length-drop k s)

leftover : (a p v : ℕ) → a * p + v ≡ p → v < p → v ≡ 0
leftover zero p v e h = absurd (omega (arith, e))
leftover (suc zero) p v e h = omega (arith, e)
leftover (suc (suc a)) p v e h = absurd (grind (arith, e))

slice_last-drop : (d : ℕ) (s : List ℕ) → 0 < d → slice_last d s ≡ drop (length s - d) s
slice_last-drop d s h = ground arith

-- When the digits overflow to the power of ten, the last ones are zeros.
carried : (d n : ℕ) → 0 < d → n ≡ 10 ^ d → big_int (slice_last d (pad_start d (to_string n))) ≡ 0
carried d n h e =
    let t = pad_start (d) (to_string n) in
    let k = length t - d in
    let read : big_int t ≡ n = big_int-pad_start (d) (to_string n) ∙ big_int-to_string n in
    let tail : length t - k ≡ d = omega (arith, length-pad_start (d) (to_string n)) in
    let digits : AreDigits (drop k t) = All-drop k t (
      All-append _ (zeros (d - length (to_string n))) (to_string n) (zeros-AreDigits _)
        (to_string-AreDigits n)) in
    let split : value 0 t ≡ value 0 (take k t) * 10 ^ d + value 0 (drop k t) =
      value-drop k t ∙ ap (λ l. value 0 (take k t) * 10 ^ l + value 0 (drop k t)) tail in
    let small : value 0 (drop k t) < 10 ^ d =
      subst (λ l. value 0 (drop k t) < 10 ^ l) (length-drop k t ∙ tail)
        (value-bound (drop k t) digits) in
    ap big_int (slice_last-drop d t h)
    ∙ leftover (value 0 (take k t)) (10 ^ d) (value 0 (drop k t)) (sym split ∙ read ∙ e) small

-- The digits that are cut off begin with the first digit beyond the precision.
pub drop-get_or :
    (d : ℕ) (f : List ℕ) → d < length f → (g : List ℕ) × (drop d f ≡ get_or f d 48 ∷ g)
drop-get_or d [] h = absurd (omega arith)
drop-get_or zero (c ∷ f) h = (f, refl)
drop-get_or (suc d) (c ∷ f) h = drop-get_or d f (omega arith)

pub big_int-pad_end : (d : ℕ) (s : List ℕ) → big_int (pad_end d s) ≡ big_int s * 10 ^ (d - length s)
big_int-pad_end d s =
    value-append 0 s (zeros (d - length s))
    ∙ value_split (big_int s) (zeros (d - length s))
    ∙ omega (
      arith,
      value-zeros (d - length s),
      ap (λ l. big_int s * 10 ^ l) (length-zeros (d - length s)),
    )

length-take_short : (d : ℕ) (f : List ℕ) → d < length f → length (take d f) ≡ d
length-take_short d f h = omega (arith, length-take d f)

apply_rounding_lem :
    (d : ℕ) (mode : RoundingMode) (f : List ℕ)
    → d < length f
    → apply_rounding (get_or f d 48 - 48) (take d f) d mode
      ≡ big_int (take d f) + increment mode (get_or f d 48 - 48)
unfolding apply_rounding
apply_rounding_lem d mode f h =
    let full : d - length (take d f) ≡ 0 = omega (arith, length-take_short d f h) in
    ap (λ n. n + increment mode (get_or f d 48 - 48))
      (big_int-pad_end d (take d f) ∙ ap (λ k. big_int (take d f) * 10 ^ k) full ∙ omega arith)

-- What the two parts stand for, in the smallest unit.
abbrev pub parts_amount : ℕ → List ℕ × List ℕ × Bool → ℕ
parts_amount d (whole, frac, _) = big_int whole * 10 ^ d + big_int frac

increment_small : (mode : RoundingMode) (c : ℕ) → increment mode c ≤ 1
increment_small truncate c = omega arith
increment_small half_up c = ground arith
increment_small ceil c = ground arith
increment_small floor c = omega arith

take-bound : (d : ℕ) (f : List ℕ) → AreDigits f → d < length f → big_int (take d f) < 10 ^ d
take-bound d f digits h =
    subst (λ l. big_int (take d f) < 10 ^ l) (length-take_short d f h)
      (value-bound (take d f) (All-take d f digits))

-- Cutting digits off leaves the amount of the digits kept, and what the mode adds, in the smallest
-- unit, whether it is carried or not.
pub round_parts-cut :
    (d : ℕ) (mode : RoundingMode) (w f : List ℕ)
    → 0 < d
    → AreDigits f
    → d < length f
    → (parts_amount d (round_parts d mode w f)
        ≡ big_int w * 10 ^ d + (big_int (take d f) + increment mode (get_or f d 48 - 48)))
      × (big_int ((round_parts d mode w f).0) ≤ big_int w + 1)
      × ((round_parts d mode w f).2 ≡ true)
unfolding round_parts
round_parts-cut d mode w f h digits long =
    let a = apply_rounding (get_or f d 48 - 48) (take d f) d mode in
    let at = apply_rounding_lem d mode f long in
    elim (Bool-cases (leb (10 ^ d) a)) [
      | inl over ↦
          let full : a ≡ 10 ^ d = ground (
            arith,
            at,
            take-bound d f digits long,
            increment_small mode (get_or f d 48 - 48),
            over,
          ) in
          rw (lt→ltb d (length f) long, over)
            (
              rw (big_int-to_string (big_int w + 1), carried d a h full) (grind (arith, at, full)),
              omega (arith, big_int-to_string (big_int w + 1)),
              refl,
            )
      | inr fits ↦
          rw (lt→ltb d (length f) long, fits)
            (
              rw (big_int-pad_start d (to_string a), big_int-to_string a) (omega (arith, at)),
              omega arith,
              refl,
            )
    ]

-- Without digits to cut off the amount is exact.
pub round_parts-exact :
    (d : ℕ) (mode : RoundingMode) (w f : List ℕ)
    → length f ≤ d
    → (parts_amount d (round_parts d mode w f)
        ≡ big_int w * 10 ^ d + big_int f * 10 ^ (d - length f))
      × (big_int ((round_parts d mode w f).0) ≤ big_int w + 1)
      × ((round_parts d mode w f).2 ≡ false)
unfolding round_parts
round_parts-exact d mode w f short =
    let same : ltb d (length f) ≡ false = ground arith in
    rw same (omega (arith, big_int-pad_end d f), omega arith, refl)
