-- ===== src/Idempotency/Tests.antt =====
-- Runs of the registry.
use zk_payroll_sdk.Prelude.{◌≡◌, refl, false, none, some, [], ◌∷◌, arith}
use zk_payroll_sdk.Prelude.Text.{trim}
use zk_payroll_sdk.Prelude.Action.{ok, err}
use zk_payroll_sdk.Idempotency.{
  IdempotencyExecuteOptions, Registry, empty_key, started, joined, execute, settle,
}
use zk_payroll_sdk.Idempotency.Flights.{
  here, next, executes, empty_registry, Distinct, in_flight_joins,
}
use zk_payroll_sdk.Idempotency.Expiry.{lasting, expired_runs_twice}

trim_blanks : trim "  pay 1 " ≡ "pay 1"
unfolding trim
trim_blanks = refl

abbrev in_flight_only : IdempotencyExecuteOptions
in_flight_only = record { ttl_ms = some 0; cache_errors = none }

blank_key : (execute " " 1 in_flight_only 5 (empty_registry 300)).0 ≡ err empty_key
unfolding execute trim
blank_key = refl

abbrev one_waits : Registry
one_waits = (execute "a" 1 in_flight_only 5 (empty_registry 300)).1

abbrev both_wait : Registry
both_wait = (execute "b" 2 in_flight_only 6 one_waits).1

freed :
    (settle 1 false both_wait).flights
    ≡ record { key = "b"; promise = 2; ttl_ms = 0; cache_errors = false } ∷ []
unfolding execute trim settle
freed = refl

in_flight_joins_example :
    Distinct both_wait.flights
    × ((execute " a" 3 in_flight_only 900 both_wait).0 ≡ ok (joined 1))
    × ((execute " a" 3 in_flight_only 900 both_wait).1.flights ≡ both_wait.flights)
unfolding execute trim
in_flight_joins_example =
    in_flight_joins 300 both_wait
      (record { key = "b"; promise = 2; ttl_ms = 0; cache_errors = false } ∷ []) []
      (record { key = "a"; promise = 1; ttl_ms = 0; cache_errors = false }) " a" 3 900
      in_flight_only (next (next here (executes _ "a" 1 5 none)) (executes _ "b" 2 6 none)) refl
      refl refl

expired_runs_twice_example :
    let first = execute "a" 1 (lasting 10) 100 (empty_registry 300) in
    let second = execute "a" 2 (lasting 10) 110 first.1 in
    (first.0 ≡ ok (started 1))
    × (second.0 ≡ ok (started 2))
    × (second.1.flights
        ≡ record { key = trim "a"; promise = 2; ttl_ms = 10; cache_errors = false }
          ∷ record { key = trim "a"; promise = 1; ttl_ms = 10; cache_errors = false }
          ∷ [])
unfolding trim
expired_runs_twice_example =
    expired_runs_twice "a" 300 1 2 100 110 10 refl (omega arith) (omega arith)
