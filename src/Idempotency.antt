-- ===== src/Idempotency.antt =====
-- packages/core/src/core/idempotency.ts: the registry of idempotent operations. A promise is a
-- number; the operation that `execute` is given has started once its promise is in flight, and
-- `settle` is the moment at which the promise is fulfilled or rejected and the rest of `execute`
-- runs. The operation is called before its entry is set: it is taken to return a promise at once,
-- so that it neither throws before nor calls the registry itself until then.
use Prim.Native.String.{String}
use zk_payroll_sdk.Prelude.{
  ℕ, ◌+◌, ◌==◌, Bool, true, false, not, ◌&&◌, ◌||◌, Option, none, some, List, [], ◌∷◌, ltb, leb,
  default, select, if◌then◌else◌,
}
use zk_payroll_sdk.Prelude.Text.{Dict, lookup, insert, remove, trim, str_eq}
use zk_payroll_sdk.Prelude.Action.{Result, ok, err}
pub mod Flights
pub mod Expiry
mod Tests

pub record IdempotencyExecuteOptions : Type 0 where
  pub ttl_ms : Option ℕ
  pub cache_errors : Option Bool

pub record IdempotencyEntry : Type 0 where
  pub promise : ℕ
  pub expires_at : Option ℕ

-- A call of `execute` that waits for its operation.
pub record Flight : Type 0 where
  pub key : String
  pub promise : ℕ
  pub ttl_ms : ℕ
  pub cache_errors : Bool

-- The entries of the registry, and the calls that wait.
pub record Registry : Type 0 where
  pub default_ttl_ms : ℕ
  pub entries : Dict IdempotencyEntry
  pub flights : List Flight

pub data ExecuteError : Type 0 where
  empty_key : ExecuteError

-- The promise that `execute` waits for: its operation's own, or that of an earlier call.
pub data Execution : Type 0 where
  started : ℕ → Execution
  joined : ℕ → Execution

abbrev pub is_expired : ℕ → IdempotencyEntry → Bool
is_expired now e = elim e.expires_at [ none ↦ false | some t ↦ leb t now ]

abbrev pub prune_expired : ℕ → Dict IdempotencyEntry → Dict IdempotencyEntry
prune_expired now entries =
    select (λ (e : String × IdempotencyEntry). not (is_expired now e.1)) entries

-- `promise` is the one that the operation returns.
abbrev pub start : String → ℕ → IdempotencyExecuteOptions → ℕ → Registry → Registry
start key promise options now r =
    let ttl = default options.ttl_ms r.default_ttl_ms in
    record r {
      entries =
          insert key
            (record {
              promise = promise;
              expires_at = if ltb 0 ttl then some (now + ttl) else none;
            })
            r.entries;
      flights =
          record {
            key = key;
            promise = promise;
            ttl_ms = ttl;
            cache_errors = default options.cache_errors false;
          }
          ∷ r.flights;
    }

unfoldable pub execute :
    String → ℕ → IdempotencyExecuteOptions → ℕ → Registry → Result ExecuteError Execution × Registry
execute key promise options now r =
    if str_eq (trim key) ""
    then (err empty_key, r)
    else (let pruned = record r { entries = prune_expired now r.entries } in
        elim (lookup (trim key) pruned.entries) [
          | some existing ↦ (ok (joined existing.promise), pruned)
          | none ↦ (ok (started promise), start (trim key) promise options now pruned)
        ])

-- The call that waits for a promise, and the others.
abbrev pub take_flight : ℕ → List Flight → Option (Flight × List Flight)
take_flight p [] = none
take_flight p (f ∷ fs) =
    let rest = take_flight p fs in
    if f.promise == p
    then some (f, fs)
    else elim rest [ none ↦ none | some (g, gs) ↦ some (g, f ∷ gs) ]

-- The `catch` and the `finally` of `execute`.
unfoldable pub settle : ℕ → Bool → Registry → Registry
settle promise rejected r = elim (take_flight promise r.flights) [
  | none ↦ r
  | some (f, others) ↦ record r {
    entries =
        if (rejected && not f.cache_errors) || f.ttl_ms == 0
        then remove f.key r.entries
        else r.entries;
    flights = others;
  }
]

abbrev pub clear : Registry → Registry
clear r = record r { entries = [] }
