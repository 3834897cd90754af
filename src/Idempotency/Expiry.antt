-- ===== src/Idempotency/Expiry.antt =====
-- An entry with a time to live counts from the start of its operation, not from its end.
use Prim.Native.String.{String}
use zk_payroll_sdk.Prelude.{ℕ, ◌+◌, ◌≤◌, ◌<◌, ◌≡◌, refl, false, none, some, [], ◌∷◌, lt→ltb, le→leb}
use zk_payroll_sdk.Prelude.Text.{trim, str_eq}
use zk_payroll_sdk.Prelude.Action.{ok}
use zk_payroll_sdk.Idempotency.{IdempotencyExecuteOptions, Flight, Registry, started, execute}
use zk_payroll_sdk.Idempotency.Flights.{empty_registry}

abbrev pub lasting : ℕ → IdempotencyExecuteOptions
lasting ttl = record { ttl_ms = some ttl; cache_errors = none }

abbrev waiting : String → ℕ → ℕ → Flight
waiting key p ttl = record { key = key; promise = p; ttl_ms = ttl; cache_errors = false }

abbrev after_first : String → ℕ → ℕ → ℕ → ℕ → Registry
after_first key default_ttl p now ttl = record {
  default_ttl_ms = default_ttl;
  entries = (key, record { promise = p; expires_at = some (now + ttl) }) ∷ [];
  flights = waiting key p ttl ∷ [];
}

first_starts :
    (key : String) (default_ttl p now ttl : ℕ)
    → str_eq (trim key) "" ≡ false
    → 0 < ttl
    → execute key p (lasting ttl) now (empty_registry default_ttl)
      ≡ (ok (started p), after_first (trim key) default_ttl p now ttl)
unfolding execute
first_starts key default_ttl p now ttl named positive =
    rw (execute, named, lt→ltb 0 ttl positive) refl

second_starts :
    (key : String) (default_ttl p q now later ttl : ℕ)
    → str_eq (trim key) "" ≡ false
    → now + ttl ≤ later
    → let second =
        execute key q (lasting ttl) later (after_first (trim key) default_ttl p now ttl) in
      (second.0 ≡ ok (started q))
      × (second.1.flights ≡ waiting (trim key) q ttl ∷ waiting (trim key) p ttl ∷ [])
unfolding execute
second_starts key default_ttl p q now later ttl named late =
    rw (execute, named, le→leb (now + ttl) later late) (refl, refl)

-- When the time to live of a key has run out while its operation is still in flight, a second call
-- with the key starts the operation again, and both are in flight under one key.
pub expired_runs_twice :
    (key : String) (default_ttl p q now later ttl : ℕ)
    → str_eq (trim key) "" ≡ false
    → 0 < ttl
    → now + ttl ≤ later
    → let first = execute key p (lasting ttl) now (empty_registry default_ttl) in
      let second = execute key q (lasting ttl) later first.1 in
      (first.0 ≡ ok (started p))
      × (second.0 ≡ ok (started q))
      × (second.1.flights
          ≡ record { key = trim key; promise = q; ttl_ms = ttl; cache_errors = false }
            ∷ record { key = trim key; promise = p; ttl_ms = ttl; cache_errors = false }
            ∷ [])
expired_runs_twice key default_ttl p q now later ttl named positive late =
    rw (first_starts key default_ttl p now ttl named positive) (
      let again = second_starts key default_ttl p q now later ttl named late in
      (refl, again.0, again.1))
