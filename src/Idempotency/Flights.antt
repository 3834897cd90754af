-- ===== src/Idempotency/Flights.antt =====
-- With a time to live of 0, as the retry loop calls it, one execution is in flight per key.
use Prim.Native.String.{String}
use mathlib.Core.Path.{subst}
use zk_payroll_sdk.Prelude.{
  ℕ, ◌≡◌, ◌≢◌, refl, sym, ap, ◌∙◌, Bool, true, false, not, ◌&&◌, ◌||◌, Option, none, some, List, [],
  ◌∷◌, ◌++◌, Bool-cases, Option-cases, none≢some, inl, inr, ◌==◌, All, All-mono, All-both, some_inj,
  arith,
}
use zk_payroll_sdk.Prelude.Text.{
  Dict, lookup, remove, trim, str_eq, ≢→str_eq, lookup-insert_self, lookup-insert_new,
  lookup-remove,
}
use zk_payroll_sdk.Prelude.Action.{ok}
use zk_payroll_sdk.Idempotency.{
  IdempotencyExecuteOptions, IdempotencyEntry, Flight, Registry, joined, prune_expired, execute,
  take_flight, settle, clear,
}

-- The steps of a program that always passes a time to live of 0 and clears the registry only while
-- no call waits. An operation does not call the registry before it has returned its promise.
pub data Step : Registry → Registry → Type 0 where
  executes :
      (r : Registry) (key : String) (promise now : ℕ) (cache_errors : Option Bool)
      → Step r
          (execute key promise (record { ttl_ms = some 0; cache_errors = cache_errors }) now r).1
  settles : (r : Registry) (promise : ℕ) (rejected : Bool) → Step r (settle promise rejected r)
  clears : (r : Registry) → r.flights ≡ [] → Step r (clear r)

pub data Reach (s : Registry) : Registry → Type 0 where
  here : Reach s s
  next : {t u : Registry} → Reach s t → Step t u → Reach s u

abbrev pub empty_registry : ℕ → Registry
empty_registry default_ttl_ms = record {
  default_ttl_ms = default_ttl_ms;
  entries = [];
  flights = [];
}

-- No two of the calls that wait have the same key.
abbrev pub Distinct : List Flight → Type 0
Distinct [] = Unit
Distinct (f ∷ fs) = All (λ (g : Flight). f.key ≢ g.key) fs × Distinct fs

-- A waiting call that the registry knows, and that no passing of time makes it forget.
abbrev pub IsRegistered : Dict IdempotencyEntry → Flight → Type 0
IsRegistered entries f =
    (f.ttl_ms ≡ 0)
    × (lookup f.key entries ≡ some (record { promise = f.promise; expires_at = none }))

abbrev pub IsSingle : Registry → Type 0
IsSingle r = Distinct r.flights × All (IsRegistered r.entries) r.flights

lookup-prune :
    (now : ℕ) (key : String) (promise : ℕ) (entries : Dict IdempotencyEntry)
    → lookup key entries ≡ some (record { promise = promise; expires_at = none })
    → lookup key (prune_expired now entries)
      ≡ some (record { promise = promise; expires_at = none })
lookup-prune now key promise [] h = absurd (none≢some h)
lookup-prune now key promise ((j, e) ∷ d) h = ground (arith, lookup-prune now key promise d)

-- A call that leaves the list was apart from all others.
abbrev IsTaken : (Flight → Type 0) → Flight × List Flight → Type 0
IsTaken P (f, others) =
    All (λ (g : Flight). f.key ≢ g.key) others × Distinct others × P f × All P others

take_flight-IsTaken :
    (P : Flight → Type 0) (p : ℕ) (fs : List Flight) {taken : Flight × List Flight}
    → take_flight p fs ≡ some taken
    → Distinct fs
    → All P fs
    → IsTaken P taken
take_flight-IsTaken P p [] e d h = absurd (none≢some e)
take_flight-IsTaken P p (x ∷ xs) e d h = elim (Bool-cases (x.promise == p)) [
  | inl found ↦ subst (IsTaken P) (some_inj (rw found at e)) (d.0, d.1, h.0, h.1)
  | inr later ↦ elim (Option-cases (take_flight p xs)) [
    | inl none_left ↦ absurd (none≢some (rw (later, none_left) at e))
    | inr ((g, gs), more) ↦
        let rest =
          take_flight-IsTaken (λ k. P k × (x.key ≢ k.key)) p xs more d.1
            (All-both P (λ k. x.key ≢ k.key) xs h.1 d.0) in
        subst (IsTaken P) (some_inj (rw (later, more) at e)) (
          (λ q. rest.2.1 (sym q), rest.0),
          (All-mono (λ k q. q.1) gs rest.3, rest.1),
          rest.2.0,
          (h.0, All-mono (λ k q. q.0) gs rest.3),
        )
  ]
]

always : (b : Bool) (n : ℕ) → n ≡ 0 → (b || n == 0) ≡ true
always b n e = ground arith

IsRegistered-remove :
    (key : String) (g : Flight) (entries : Dict IdempotencyEntry)
    → key ≢ g.key
    → IsRegistered entries g
    → IsRegistered (remove key entries) g
IsRegistered-remove key g entries apart (free, known) =
    (free, rw (lookup-remove key g.key entries, ≢→str_eq key g.key apart) known)

settle-IsSingle :
    (p : ℕ) (rejected : Bool) (r : Registry) → IsSingle r → IsSingle (settle p rejected r)
unfolding settle
settle-IsSingle p rejected r (distinct, registered) =
    elim (Option-cases (take_flight p r.flights)) [
      | inl nobody ↦ rw (settle, nobody) (distinct, registered)
      | inr ((f, others), taken) ↦
          let apart =
            take_flight-IsTaken (IsRegistered r.entries) p r.flights taken distinct registered in
          rw (settle, taken, always (rejected && not f.cache_errors) f.ttl_ms apart.2.0)
            (
              apart.1,
              All-mono (λ g q. IsRegistered-remove f.key g r.entries q.0 q.1) others
                  (All-both (λ g. f.key ≢ g.key) (IsRegistered r.entries) others apart.0 apart.3),
            )
    ]

All-IsRegistered-prune :
    (now : ℕ) (entries : Dict IdempotencyEntry) (fs : List Flight)
    → All (IsRegistered entries) fs
    → All (IsRegistered (prune_expired now entries)) fs
All-IsRegistered-prune now entries fs h =
    All-mono (λ f q. (q.0, lookup-prune now f.key f.promise entries q.1)) fs h

execute-IsSingle :
    (r : Registry) (key : String) (promise now : ℕ) (cache_errors : Option Bool)
    → IsSingle r
    → IsSingle
        (execute key promise (record { ttl_ms = some 0; cache_errors = cache_errors }) now r).1
unfolding execute
execute-IsSingle r key promise now cache_errors (distinct, registered) =
    let left = prune_expired now r.entries in
    let pruned = All-IsRegistered-prune now r.entries r.flights registered in
    elim (Bool-cases (str_eq (trim key) "")) [
      | inl empty ↦ rw empty (distinct, registered)
      | inr named ↦
          rw named (elim (Option-cases (lookup (trim key) (prune_expired now r.entries))) [
            | inl absent ↦ rw absent (
              (
                All-mono (λ g q e. none≢some (sym absent ∙ (ap (λ k. lookup k left) e ∙ q.1)))
                    r.flights pruned,
                distinct,
              ),
              (
                (refl, lookup-insert_self (trim key) _ left),
                All-mono (λ g q. (q.0, lookup-insert_new (trim key) g.key _ left q.1 absent))
                    r.flights pruned,
              ),
            )
            | inr (e, present) ↦ rw present (distinct, pruned)
          ])
    ]

Step-IsSingle : {r s : Registry} → Step r s → IsSingle r → IsSingle s
Step-IsSingle (executes r key promise now cache_errors) h =
    execute-IsSingle r key promise now cache_errors h
Step-IsSingle (settles r promise rejected) h = settle-IsSingle promise rejected r h
Step-IsSingle (clears r idle) h = rw idle (tt, tt)

Reach-IsSingle : (ttl : ℕ) {r : Registry} → Reach (empty_registry ttl) r → IsSingle r
Reach-IsSingle ttl here = (tt, tt)
Reach-IsSingle ttl (next r st) = Step-IsSingle st (Reach-IsSingle ttl r)

All-middle :
    (P : Flight → Type 0) (before : List Flight) (f : Flight) (after : List Flight)
    → All P (before ++ f ∷ after)
    → P f
All-middle P [] f after h = h.0
All-middle P (x ∷ xs) f after h = All-middle P xs f after h.1

-- In every state that calls of execute with a time to live of 0, the settling of their operations and
-- calls of clear while no call waits can reach from the empty registry, whatever the clock says: no two
-- calls that wait for their operation have the same key, and as long as one waits, a further call with
-- its key, blanks around it aside, starts no operation but joins it. The operations return their promise
-- before the registry is called again.
pub in_flight_joins :
    (ttl : ℕ) (r : Registry) (before after : List Flight) (f : Flight) (key : String)
    (promise now : ℕ) (options : IdempotencyExecuteOptions)
    → Reach (empty_registry ttl) r
    → r.flights ≡ before ++ f ∷ after
    → str_eq (trim key) "" ≡ false
    → trim key ≡ f.key
    → Distinct r.flights
      × ((execute key promise options now r).0 ≡ ok (joined f.promise))
      × ((execute key promise options now r).1.flights ≡ r.flights)
unfolding execute
in_flight_joins ttl r before after f key promise now options reach found named same =
    let single = Reach-IsSingle ttl reach in
    let known = All-middle (IsRegistered r.entries) before f after (rw found at single.1) in
    let present = lookup-prune now f.key f.promise r.entries known.1 in
    let there : lookup (trim key) (prune_expired now r.entries)
        ≡ some (record { promise = f.promise; expires_at = none }) =
      rw same present in
    (single.0, rw (execute, named, there) refl, rw (execute, named, there) refl)
