-- ===== src/Nonces/Generated.antt =====
-- packages/core/src/core/executionConfirmationNonce.ts: the nonces that are generated do not validate.
use zk_payroll_sdk.Prelude.{
  ℕ, ◌*◌, ◌/◌, ◌%◌, ◌≤◌, ◌<◌, ◌==◌, false, Bool-cases, Option, some, Option-cases, List, [], ◌∷◌,
  ◌++◌, length, All, ◌≡◌, ◌≢◌, refl, sym, ap, ◌∙◌, inl, inr, arith,
}
use zk_payroll_sdk.Prelude.Text.{is_space}
use zk_payroll_sdk.Amounts.Parsing.{trim_left, trim_right}
use zk_payroll_sdk.Nonces.{
  valid, invalid_format, operation_mismatch, failed, scopes_equal, ExecutionOperationType, Base36,
  NonceValidationOptions, NonceValidationResult, create_operation_scope, hex_digit, random_part,
  generate_execution_nonce, cons_first, split_dots, is_valid_hex_string, validate_parts,
  validate_split, validate_execution_nonce,
}

-- Neither white space nor a point.
abbrev IsPlain : ℕ → Type 0
IsPlain c = (is_space c ≡ false) × ((c == 46) ≡ false)

code_range : (c : ℕ) → 48 ≤ c → c ≤ 102 → IsPlain c
code_range c low high = (ground arith, ground arith)

hex_digit-IsPlain : (d : ℕ) → d < 16 → IsPlain (hex_digit d)
hex_digit-IsPlain d h = code_range (hex_digit d) (ground arith) (ground arith)

random_part-IsPlain : (bs : List ℕ) → All (λ b. b < 256) bs → All IsPlain (random_part bs)
random_part-IsPlain [] h = tt
random_part-IsPlain (b ∷ bs) (h, hs) = (
  hex_digit-IsPlain (b / 16) (omega arith),
  (hex_digit-IsPlain (b % 16) (omega arith), random_part-IsPlain bs hs),
)

length-random_part : (bs : List ℕ) → length (random_part bs) ≡ 2 * length bs
length-random_part [] = refl
length-random_part (b ∷ bs) = omega (arith, length-random_part bs)

trim_right-plain : (s : List ℕ) → All IsPlain s → trim_right s ≡ s
trim_right-plain [] h = refl
trim_right-plain (c ∷ s) ((solid, _), hs) = rw solid (ap (λ t. c ∷ t) (trim_right-plain s hs))

trim_left-append : (x r : List ℕ) → trim_left (x ++ (46 ∷ r)) ≡ trim_left x ++ (46 ∷ r)
trim_left-append [] r = refl
trim_left-append (c ∷ x) r = elim (Bool-cases (is_space c)) [
  | inl space ↦ rw space (trim_left-append x r)
  | inr solid ↦ rw solid refl
]

length-dotted : (y r : List ℕ) → (length (y ++ (46 ∷ r)) == 0) ≡ false
length-dotted [] r = ground arith
length-dotted (c ∷ y) r = ground arith

trim_right-append : (y r : List ℕ) → All IsPlain r → trim_right (y ++ (46 ∷ r)) ≡ y ++ (46 ∷ r)
trim_right-append [] r h = ap (λ t. 46 ∷ t) (trim_right-plain r h)
trim_right-append (c ∷ y) r h = rw (trim_right-append y r h) (ground (arith, length-dotted y r))

split_dots-plain : (s : List ℕ) → All IsPlain s → split_dots s ≡ s ∷ []
split_dots-plain [] h = refl
split_dots-plain (c ∷ s) ((_, other), hs) = rw (other, split_dots-plain s hs) refl

cons_first-append :
    (c : ℕ) (ps : List (List ℕ)) (r : List ℕ)
    → length ps ≢ 0
    → cons_first c (ps ++ (r ∷ [])) ≡ cons_first c ps ++ (r ∷ [])
cons_first-append c [] r h = absurd (h refl)
cons_first-append c (p ∷ ps) r h = refl

length-cons_first : (c : ℕ) (ps : List (List ℕ)) → length (cons_first c ps) ≢ 0
length-cons_first c [] e = absurd (omega (arith, e))
length-cons_first c (p ∷ ps) e = absurd (omega (arith, e))

length-split_dots : (s : List ℕ) → length (split_dots s) ≢ 0
length-split_dots [] e = absurd (omega (arith, e))
length-split_dots (c ∷ s) e = elim (Bool-cases (c == 46)) [
  | inl dot ↦
      let size : length ([] ∷ split_dots s) ≡ 0 = rw dot at e in absurd (omega (arith, size))
  | inr other ↦
      let size : length (cons_first c (split_dots s)) ≡ 0 = rw other at e in
      length-cons_first c (split_dots s) size
]

split_dots-append :
    (y r : List ℕ) → All IsPlain r → split_dots (y ++ (46 ∷ r)) ≡ split_dots y ++ (r ∷ [])
split_dots-append [] r h = ap (λ ps. [] ∷ ps) (split_dots-plain r h)
split_dots-append (c ∷ y) r h = elim (Bool-cases (c == 46)) [
  | inl dot ↦ rw dot (ap (λ ps. [] ∷ ps) (split_dots-append y r h))
  | inr other ↦
      rw (other, split_dots-append y r h)
        (cons_first-append c (split_dots y) r (length-split_dots y))
]

short_hex : (random : List ℕ) → length random ≡ 32 → is_valid_hex_string random 32 ≡ false
unfolding is_valid_hex_string
short_hex random h = ground (arith, h)

validate_parts-short :
    (now : ℕ) (options : NonceValidationOptions) (nonce : List ℕ) (generated_at : ℕ)
    (random : List ℕ)
    → length random ≡ 32
    → (validate_parts now options nonce generated_at random).code ≢ valid
unfolding validate_parts
validate_parts-short now options nonce generated_at random h e =
    ground (arith, e, short_hex random h)

validate_split-short :
    (base36 : Base36) (now : ℕ) (options : NonceValidationOptions) (nonce : List ℕ)
    (ps : List (List ℕ)) (r : List ℕ)
    → length r ≡ 32
    → (validate_split base36 now options nonce (ps ++ (r ∷ []))).code ≢ valid
validate_split-short base36 now options nonce [] r h e = cc
validate_split-short base36 now options nonce (a ∷ []) r h e = cc
validate_split-short base36 now options nonce (a ∷ b ∷ []) r h e =
    elim (Bool-cases
      (scopes_equal a (create_operation_scope (options.scope_type) (options.scope_context)))) [
        | inl same ↦ elim (Option-cases (base36.parse b)) [
          | inl no_number ↦
              let code : (failed invalid_format).code ≡ valid = rw (same, no_number) at e in cc
          | inr (generated_at, number) ↦
              validate_parts-short now options nonce generated_at r h (rw (same, number) at e)
        ]
        | inr other ↦ let code : (failed operation_mismatch).code ≡ valid = rw other at e in cc
      ]
validate_split-short base36 now options nonce (a ∷ b ∷ c ∷ []) r h e = cc
validate_split-short base36 now options nonce (a ∷ b ∷ c ∷ d ∷ ps) r h e = cc

-- A nonce that is generated from 16 bytes never validates, at whatever time and for whatever operation,
-- since the check asks for twice as many hexadecimal digits as are generated.
pub generated_never_valid :
    (base36 : Base36) (now later : ℕ) (bytes : List ℕ) (op : ExecutionOperationType)
    (context : Option (List ℕ)) (validity_duration_ms : Option ℕ) (options : NonceValidationOptions)
    → length bytes ≡ 16
    → All (λ b. b < 256) bytes
    → (validate_execution_nonce base36 later options (
        some
          ((generate_execution_nonce base36 now bytes op context validity_duration_ms).nonce))).code
      ≢ valid
unfolding validate_execution_nonce generate_execution_nonce
generated_never_valid base36 now later bytes op context validity_duration_ms options size small e =
    let x = create_operation_scope op context ++ (46 ∷ base36.print now) in
    let r = random_part bytes in
    let plain = random_part-IsPlain bytes small in
    let trimmed : trim_right (trim_left (x ++ (46 ∷ r))) ≡ trim_left x ++ (46 ∷ r) =
      ap trim_right (trim_left-append x r) ∙ trim_right-append (trim_left x) r plain in
    let run : validate_execution_nonce base36 later options (some (x ++ (46 ∷ r)))
        ≡ validate_split base36 later options (trim_left x ++ (46 ∷ r))
            (split_dots (trim_left x) ++ (r ∷ [])) =
      rw
        (
          validate_execution_nonce,
          trimmed,
          length-dotted (trim_left x) r,
          split_dots-append (trim_left x) r plain,
        )
        refl in
    validate_split-short base36 later options (trim_left x ++ (46 ∷ r)) (split_dots (trim_left x)) r
      (omega (arith, length-random_part bytes, size))
      (ap (λ (v : NonceValidationResult). v.code) (sym run) ∙ e)
