-- ===== src/Concurrency/Fairness.antt =====
-- Permits are bounded and granted in the order of the requests, and every waiter gets one.
use mathlib.Core.List.{append-nil, append_assoc}
use zk_payroll_sdk.Prelude.{
  ℕ, zero, suc, ◌+◌, ◌≤◌, ◌<◌, ◌≡◌, refl, sym, ap, ◌∙◌, Bool-cases, true, false, List, [], ◌∷◌,
  ◌++◌, inl, inr, ◌⊎◌, ltb, length, take, length-append, arith, ltb→lt, not_ltb→le, List-cases,
}
use zk_payroll_sdk.Concurrency.{acquire, release, Usage, ask, give_back}

-- The steps of a program that gives each granted permit back at most once.
pub data Step : Usage → Usage → Type 0 where
  asks : (u : Usage) (caller : ℕ) → Step u (ask caller u)
  gives_back : (u : Usage) → u.released < length u.granted → Step u (give_back u)

pub data Reach (s : Usage) : Usage → Type 0 where
  here : Reach s s
  then : {t u : Usage} → Reach s t → Step t u → Reach s u

abbrev pub fresh : ℕ → Usage
fresh permits = record {
  semaphore = record { max_permits = permits; active = 0; waiters = [] };
  requested = [];
  granted = [];
  released = 0;
}

-- The count of permits is the number of callers that hold one and is within the limit, somebody
-- waits only when it is at the limit, and those granted so far, followed by those who wait, are
-- those who asked, in the order in which they asked.
abbrev pub IsFair : ℕ → Usage → Type 0
IsFair permits u =
    (u.semaphore.max_permits ≡ permits)
    × (u.semaphore.active + u.released ≡ length u.granted)
    × (u.semaphore.active ≤ permits)
    × ((u.semaphore.waiters ≡ []) ⊎ (u.semaphore.active ≡ permits))
    × (u.granted ++ u.semaphore.waiters ≡ u.requested)

asked_all :
    (u : Usage)
    → u.semaphore.waiters ≡ []
    → u.granted ++ u.semaphore.waiters ≡ u.requested
    → u.granted ≡ u.requested
asked_all u idle order = sym (append-nil u.granted) ∙ (ap (λ l. u.granted ++ l) (sym idle) ∙ order)

-- A permit is free: nobody waits.
ask_free :
    (permits : ℕ) (caller : ℕ) (u : Usage)
    → ltb u.semaphore.active u.semaphore.max_permits ≡ true
    → IsFair permits u
    → IsFair permits (ask caller u)
unfolding acquire
ask_free permits caller u free (limit, held, bound, inl idle, order) =
    rw (free, idle)
      (
        limit,
        omega (arith, length-append u.granted (caller ∷ [])),
        omega (arith, ltb→lt u.semaphore.active u.semaphore.max_permits free),
        inl refl,
        append-nil (u.granted ++ caller ∷ []) ∙ ap (λ l. l ++ caller ∷ []) (asked_all u idle order),
      )
ask_free permits caller u free (limit, held, bound, inr full, order) =
    absurd (omega (arith, ltb→lt u.semaphore.active u.semaphore.max_permits free))

ask_full :
    (permits : ℕ) (caller : ℕ) (u : Usage)
    → ltb u.semaphore.active u.semaphore.max_permits ≡ false
    → IsFair permits u
    → IsFair permits (ask caller u)
unfolding acquire
ask_full permits caller u full (limit, held, bound, idle, order) = rw full (
  limit,
  omega (arith, length-append u.granted []),
  bound,
  inr (omega (arith, not_ltb→le u.semaphore.active u.semaphore.max_permits full)),
  ap (λ l. l ++ (u.semaphore.waiters ++ caller ∷ [])) (append-nil u.granted)
      ∙ (sym (append_assoc u.granted u.semaphore.waiters (caller ∷ []))
          ∙ ap (λ l. l ++ caller ∷ []) order),
)

busy :
    (permits : ℕ) (u : Usage) (caller : ℕ) (later : List ℕ)
    → u.semaphore.waiters ≡ caller ∷ later
    → (u.semaphore.waiters ≡ []) ⊎ (u.semaphore.active ≡ permits)
    → u.semaphore.active ≡ permits
busy permits u caller later queued (inl idle) =
    absurd (omega (arith, ap length queued, ap length idle))
busy permits u caller later queued (inr full) = full

give_back-IsFair :
    (permits : ℕ) (u : Usage)
    → u.released < length u.granted
    → 0 < permits
    → IsFair permits u
    → IsFair permits (give_back u)
unfolding release
give_back-IsFair permits u owed h (limit, held, bound, idle_or, order) =
    elim (List-cases u.semaphore.waiters) [
      | inl idle ↦ rw idle (
        limit,
        omega (arith, length-append u.granted []),
        omega arith,
        inl refl,
        append-nil (u.granted ++ []) ∙ (append-nil u.granted ∙ asked_all u idle order),
      )
      | inr (caller, later, queued) ↦ rw queued (
        limit,
        omega (arith, length-append u.granted (caller ∷ [])),
        bound,
        inr (busy permits u caller later queued idle_or),
        append_assoc u.granted (caller ∷ []) later
            ∙ (ap (λ l. u.granted ++ l) (sym queued) ∙ order),
      )
    ]

Step-IsFair :
    (permits : ℕ) {u v : Usage} → Step u v → 0 < permits → IsFair permits u → IsFair permits v
Step-IsFair permits (asks u caller) h fair =
    elim (Bool-cases (ltb u.semaphore.active u.semaphore.max_permits)) [
      | inl free ↦ ask_free permits caller u free fair
      | inr full ↦ ask_full permits caller u full fair
    ]
Step-IsFair permits (gives_back u held) h fair = give_back-IsFair permits u held h fair

-- In every state that the steps of a program reach which gives each granted permit back at most
-- once: the semaphore counts the permits that are held and they are within its limit, somebody
-- waits only when the limit is reached, and the permits were granted in the order of the requests,
-- to all callers but those who still wait.
pub Reach-IsFair :
    (permits : ℕ) {u : Usage} → 0 < permits → Reach (fresh permits) u → IsFair permits u
Reach-IsFair permits h here = (refl, refl, omega arith, inl refl, refl)
Reach-IsFair permits h (then r st) = Step-IsFair permits st h (Reach-IsFair permits h r)

-- A number of permits given back, one after another.
abbrev pub releases : ℕ → Usage → Usage
releases zero u = u
releases (suc n) u = releases n (give_back u)

give_back-waiters :
    (u : Usage) (caller : ℕ) (later : List ℕ)
    → u.semaphore.waiters ≡ caller ∷ later
    → ((give_back u).semaphore.waiters ≡ later) × ((give_back u).granted ≡ u.granted ++ caller ∷ [])
unfolding release
give_back-waiters u caller later queued = rw queued (refl, refl)

owed :
    (permits : ℕ) (u : Usage) (caller : ℕ) (later : List ℕ)
    → 0 < permits
    → u.semaphore.waiters ≡ caller ∷ later
    → IsFair permits u
    → u.released < length u.granted
owed permits u caller later h queued (limit, held, bound, idle, order) =
    omega (arith, busy permits u caller later queued idle)

-- When a program that is in a state it can reach gives back as many permits as there are waiters or
-- fewer, these are permits that are held, and they go to the first waiters, one each, in the order
-- in which they wait.
pub releases-grant :
    (permits n : ℕ) (u : Usage)
    → 0 < permits
    → Reach (fresh permits) u
    → n ≤ length u.semaphore.waiters
    → Reach (fresh permits) (releases n u)
      × ((releases n u).granted ≡ u.granted ++ take n u.semaphore.waiters)
releases-grant permits zero u h r le = (r, sym (append-nil u.granted))
releases-grant permits (suc n) u h r le = elim (List-cases u.semaphore.waiters) [
  | inl idle ↦ absurd (omega (arith, ap length idle))
  | inr (caller, later, queued) ↦
      let now = give_back-waiters u caller later queued in
      let more =
        releases-grant permits n (give_back u) h
          (then r (gives_back u (owed permits u caller later h queued (Reach-IsFair permits h r))))
          (omega (arith, ap length queued, ap length now.0)) in
      (
        more.0,
        more.1 ∙ rw (now.0, now.1, queued) (append_assoc u.granted (caller ∷ []) (take n later)),
      )
]
