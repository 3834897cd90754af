-- ===== src/Amounts/Tests.antt =====
-- Amounts between the 7 decimals of XLM, the 6 of a bridged token and the 2 of cents.
use zk_payroll_sdk.Prelude.{ℕ, ◌^◌, ◌≡◌, refl, false, none, some, arith}
use zk_payroll_sdk.Prelude.Action.{err}
use zk_payroll_sdk.Prelude.Int.{pos, negsuc, quot_ℤ, rem_ℤ, ◌+ℤ◌}
use zk_payroll_sdk.Amounts.{half_up, ceil, AssetMetadata, decimals_out_of_range, round_amount}
use zk_payroll_sdk.Amounts.Rounding.{IsRounded}
use zk_payroll_sdk.Amounts.Precision.{Returns, round_amount-IsRounded, round_amount_roundtrip}

-- 1.9990500 to cents is 2.00.
round_amount-IsRounded_example :
    Returns
      (round_amount (pos 19990500) 7 2 none)
      (λ v. (r : ℕ) × (v.amount ≡ pos r) × IsRounded half_up 19990500 (10 ^ 5) r)
round_amount-IsRounded_example =
    round_amount-IsRounded 19990500 7 2 none (omega arith) (omega arith)

round_amount_roundtrip_example : Returns (round_amount (negsuc 41) 2 7 none) (λ v.
    (v.was_rounded ≡ false)
    × Returns
        (round_amount v.amount 7 2 (some ceil))
        (λ w. (w.amount ≡ negsuc 41) × (w.was_rounded ≡ false)))
round_amount_roundtrip_example =
    round_amount_roundtrip (negsuc 41) 2 7 none (some ceil) (omega arith) (omega arith)

abbrev xlm : AssetMetadata
xlm = record { id = "native"; symbol = "XLM"; decimals = 7 }

-- -1.50 at one decimal less is -1.5, and -0.95 is -0.9 by `HALF_UP`, not the -1.0 of a rounding away from 0.
half_up_negative_run :
    Returns (round_amount (negsuc 94) 2 1 (some half_up)) (λ v. v.amount ≡ negsuc 8)
unfolding round_amount quot_ℤ rem_ℤ ◌+ℤ◌
half_up_negative_run = refl

too_many_decimals_run : round_amount (pos 1) 19 2 none ≡ err decimals_out_of_range
unfolding round_amount
too_many_decimals_run = refl
