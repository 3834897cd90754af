-- ===== src/Concurrency/Tests.antt =====
-- A semaphore with one permit and three callers.
use zk_payroll_sdk.Prelude.{◌≡◌, refl, [], ◌∷◌, ◌++◌, take, none, arith}
use zk_payroll_sdk.Concurrency.{Usage, new_semaphore, acquire, release, ask, give_back}
use zk_payroll_sdk.Concurrency.Fairness.{
  Reach, here, then, asks, gives_back, fresh, IsFair, Reach-IsFair, releases, releases-grant,
}

no_permits : new_semaphore 0 ≡ none
no_permits = refl

abbrev three_asked : Usage
three_asked = ask 12 (ask 11 (ask 10 (fresh 1)))

first_only : three_asked.granted ≡ 10 ∷ []
unfolding acquire
first_only = refl

three_asked-Reach : Reach (fresh 1) three_asked
three_asked-Reach = then (then (then here (asks _ 10)) (asks _ 11)) (asks _ 12)

abbrev handed_on : Usage
handed_on = give_back three_asked

second_next : handed_on.granted ≡ 10 ∷ 11 ∷ []
unfolding acquire release
second_next = refl

Reach-IsFair_example : IsFair 1 handed_on
unfolding acquire
Reach-IsFair_example =
    Reach-IsFair 1 (omega arith) (then three_asked-Reach (gives_back three_asked (omega arith)))

releases-grant_example :
    Reach (fresh 1) (releases 2 three_asked)
    × ((releases 2 three_asked).granted
        ≡ three_asked.granted ++ take 2 three_asked.semaphore.waiters)
unfolding acquire
releases-grant_example =
    releases-grant 1 2 three_asked (omega arith) three_asked-Reach (omega arith)
