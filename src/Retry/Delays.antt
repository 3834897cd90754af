-- ===== src/Retry/Delays.antt =====
-- The delays between the attempts.
use mathlib.Core.Path.{subst}
use native.Mathlib.Numerals.{unary_clauses}
use zk_payroll_sdk.Prelude.{
  ℕ, zero, suc, max, ◌+◌, ◌-◌, ◌*◌, ◌^◌, ◌≤◌, ◌<◌, ◌≡◌, min, max, ltb, Bool-cases, inl, inr, arith,
  if◌then◌else◌,
}
use zk_payroll_sdk.Retry.Budget.{RetryBudgetConfig, compute_backoff_delay}

le_mul : (a c b : ℕ) → 0 < b → a ≤ c → a ≤ c * b
le_mul a c b h le = grind arith

pow_step : (b m k : ℕ) → 0 < b → b ^ m ≤ b ^ (m + k)
pow_step b m zero h = simp unary_clauses (omega arith)
pow_step b m (suc k) h = simp unary_clauses (le_mul (b ^ m) (b ^ (m + k)) b h (pow_step b m k h))

pow_mono : (b m n : ℕ) → 0 < b → m ≤ n → b ^ m ≤ b ^ n
pow_mono b m n h le =
    subst (λ k. b ^ m ≤ b ^ k) (let e : m + (n - m) ≡ n = omega arith in e) (pow_step b m (n - m) h)

mul_min_mono : (a b c d : ℕ) → b ≤ c → min (a * b) d ≤ min (a * c) d
mul_min_mono a b c d le = grind arith

jitter_bound :
    (random_below : ℕ → ℕ)
    → ((n : ℕ) → 0 < n → random_below n < n)
    → (j : ℕ) → (if ltb 0 j then random_below (j + 1) else 0) ≤ j
jitter_bound random_below below j = elim (Bool-cases (ltb 0 j)) [
  | inl some_jitter ↦ rw some_jitter (omega (arith, below (j + 1) (omega arith)))
  | inr none ↦ rw none (omega arith)
]

last_index : (n : ℕ) → max 1 n - 1 ≡ n - 1
last_index n = omega arith

-- Where the random source stays below its bound, a backoff delay is at most the cap plus the
-- jitter, and at least the delay without jitter.
compute_backoff_delay-bounds :
    (random_below : ℕ → ℕ) (attempt : ℕ) (budget : RetryBudgetConfig)
    → ((k : ℕ) → 0 < k → random_below k < k)
    → let delay = compute_backoff_delay random_below attempt budget in
      (delay ≤ budget.max_delay_ms + budget.jitter_ms)
      × (min (budget.initial_delay_ms * budget.backoff_factor ^ (attempt - 1)) budget.max_delay_ms
          ≤ delay)
unfolding compute_backoff_delay
compute_backoff_delay-bounds random_below attempt budget below = (
  omega (arith, jitter_bound random_below below budget.jitter_ms),
  rw (last_index attempt) (omega arith),
)

-- Without jitter and with a factor of at least 1, the delay never falls from one attempt to a later
-- one.
compute_backoff_delay_mono :
    (random_below : ℕ → ℕ) (m n : ℕ) (budget : RetryBudgetConfig)
    → 0 < budget.backoff_factor
    → budget.jitter_ms ≡ 0
    → m ≤ n
    → compute_backoff_delay random_below m budget ≤ compute_backoff_delay random_below n budget
unfolding compute_backoff_delay
compute_backoff_delay_mono random_below m n budget h none le =
    let factor = pow_mono budget.backoff_factor (max 1 m - 1) (max 1 n - 1) h (omega arith) in
    let capped =
      mul_min_mono budget.initial_delay_ms (budget.backoff_factor ^ (max 1 m - 1))
        (budget.backoff_factor ^ (max 1 n - 1)) budget.max_delay_ms factor in
    rw none (omega (arith, capped))
