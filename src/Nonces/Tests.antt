-- ===== src/Nonces/Tests.antt =====
-- packages/core/src/core/executionConfirmationNonce.ts on a small nonce.
use zk_payroll_sdk.Prelude.{ℕ, none, some, List, [], ◌∷◌, ◌≡◌, ◌≢◌, refl, arith}
use zk_payroll_sdk.Nonces.{
  valid, clock_skew, invalid_signature, payroll_execution, Base36, NonceValidationOptions,
  generate_execution_nonce, validate_execution_nonce,
}
use zk_payroll_sdk.Quorum.Hashing.{code_units}
use zk_payroll_sdk.Nonces.Generated.{generated_never_valid}

-- Every number is printed as "0" and every text is read as 0.
abbrev zero_only : Base36
zero_only = record { print = λ n. 48 ∷ []; parse = λ s. some 0 }

abbrev payroll : NonceValidationOptions
payroll = record {
  scope_type = payroll_execution;
  scope_context = none;
  max_clock_skew_ms = none;
  validity_duration_ms = none;
  check_if_used = none;
}

abbrev bytes : List ℕ
bytes = 0 ∷ 17 ∷ 34 ∷ 51 ∷ 68 ∷ 85 ∷ 102 ∷ 119 ∷ 136 ∷ 153 ∷ 170 ∷ 187 ∷ 204 ∷ 221 ∷ 238 ∷ 255 ∷ []

abbrev fresh : List ℕ
fresh = (generate_execution_nonce zero_only 0 bytes payroll_execution none none).nonce

refused_at_once :
    (validate_execution_nonce zero_only 0 payroll (some fresh)).code ≡ invalid_signature
unfolding validate_execution_nonce generate_execution_nonce code_units
refused_at_once = refl

generated_never_valid_example :
    (validate_execution_nonce zero_only 5 payroll (some fresh)).code ≢ valid
generated_never_valid_example =
    generated_never_valid zero_only 0 5 bytes payroll_execution none none payroll refl (
      omega arith,
      (
        omega arith,
        (
          omega arith,
          (
            omega arith,
            (
              omega arith,
              (
                omega arith,
                (
                  omega arith,
                  (
                    omega arith,
                    (
                      omega arith,
                      (
                        omega arith,
                        (
                          omega arith,
                          (
                            omega arith,
                            (omega arith, (omega arith, (omega arith, (omega arith, tt)))),
                          ),
                        ),
                      ),
                    ),
                  ),
                ),
              ),
            ),
          ),
        ),
      ),
    )

-- Nothing is used up: after one minute of an hour the nonce is refused for the clock.
refused_after_a_minute :
    (validate_execution_nonce zero_only 60001 payroll (some fresh)).code ≡ clock_skew
unfolding validate_execution_nonce generate_execution_nonce code_units
refused_after_a_minute = refl
