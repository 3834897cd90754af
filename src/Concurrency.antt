-- ===== src/Concurrency.antt =====
-- packages/core/src/core/concurrency.ts: the FIFO semaphore. A caller that asks for a permit is a
-- number; an operation returns the callers whose `acquire` it resolves. The promise of `acquire`
-- and the function that releases the permit are represented by the caller.
pub mod Fairness
mod Tests
use zk_payroll_sdk.Prelude.{
  ℕ, zero, suc, ◌+◌, ◌-◌, Bool, Option, none, some, List, [], ◌∷◌, ◌++◌, ltb, if◌then◌else◌,
}

pub record Semaphore : Type 0 where
  pub max_permits : ℕ
  pub active : ℕ
  pub waiters : List ℕ

-- The constructor; `none` is its error.
abbrev pub new_semaphore : ℕ → Option Semaphore
new_semaphore permits =
    if ltb permits 1
    then none
    else some (record { max_permits = permits; active = 0; waiters = [] })

unfoldable pub acquire : ℕ → Semaphore → Semaphore × List ℕ
acquire caller s =
    if ltb s.active s.max_permits
    then (record s { active = s.active + 1 }, caller ∷ [])
    else (record s { waiters = s.waiters ++ (caller ∷ []) }, [])

-- `this.active = Math.max(0, this.active - 1)` when nobody waits.
unfoldable pub release : Semaphore → Semaphore × List ℕ
release s = elim s.waiters [
  | [] ↦ (record s { active = s.active - 1 }, [])
  | next ∷ later ↦ (record s { waiters = later }, next ∷ [])
]

-- A semaphore with what happened so far: who asked, who was granted a permit, and how many permits
-- were given back.
pub record Usage : Type 0 where
  pub semaphore : Semaphore
  pub requested : List ℕ
  pub granted : List ℕ
  pub released : ℕ

abbrev pub ask : ℕ → Usage → Usage
ask caller u =
    let (s, now) = acquire caller u.semaphore in
    record u { semaphore = s; requested = u.requested ++ (caller ∷ []); granted = u.granted ++ now }

abbrev pub give_back : Usage → Usage
give_back u =
    let (s, now) = release u.semaphore in
    record u { semaphore = s; granted = u.granted ++ now; released = u.released + 1 }
