-- ===== src/Paging/Limits.antt =====
-- A guarded traversal stays within its limits and requests no cursor twice.
use Prim.Native.String.{String}
use mathlib.Core.Path.{subst}
use mathlib.Core.List.{append-nil}
use zk_payroll_sdk.Prelude.{
  ℕ, zero, suc, ◌+◌, ◌≤◌, ◌≡◌, refl, sym, ap, ◌∙◌, false, ◌||◌, Option, none, some, List, [], ◌∷◌,
  ◌++◌, Bool-cases, Option-cases, inl, inr, ◌⊎◌, length, length-append, arith,
}
use zk_payroll_sdk.Prelude.Text.{includes}
use zk_payroll_sdk.Prelude.Action.{ok}
use zk_payroll_sdk.Paging.Guardrails.{
  PaginationGuardrailOptions, ResolvedPaginationGuardrails, resolve_pagination_guardrails,
  GuardedPage, Fetched, fetched, malformed, fetch_failed, AroundFetch, GuardedEnd, aborted,
  invalid_page, fetch_rejected, record_limit, repeated_cursor, Traversal, option_eq, add_seen,
  is_valid_cursor, yield_items, ends, resumes, take_page, guarded_from, iterate_guarded_pages,
}
use zk_payroll_sdk.Paging.Cursors.{
  Distinct, IsNew, AreNew, is_completed, cursor-IsNew, AreNew-Distinct, AreNew-cons,
}

module _ {T : Type 0} where
  yield_items-bound :
      (limit y : ℕ) (xs : List T) → y ≤ limit → y + length (yield_items limit y xs).0 ≤ limit
  yield_items-bound limit y [] h = omega arith
  yield_items-bound limit y (x ∷ xs) h = ground (arith, yield_items-bound limit (y + 1) xs)

  yield_items-all :
      (limit y : ℕ) (xs : List T)
      → (yield_items limit y xs).1 ≡ false
      → (yield_items limit y xs).0 ≡ xs
  yield_items-all limit y [] h = refl
  yield_items-all limit y (x ∷ xs) h = ground (arith, yield_items-all limit (y + 1) xs)

  -- The items of a number of pages, from the fetch with a number on.
  abbrev pub items_of : Fetched T → List T
  items_of (fetched page) = page.items
  items_of malformed = []
  items_of fetch_failed = []

  abbrev pub fetched_items : (ℕ → AroundFetch T) → ℕ → ℕ → List T
  fetched_items world n zero = []
  fetched_items world n (suc k) = items_of (world n).outcome ++ fetched_items world (n + 1) k

  abbrev IsGuarded :
      (ℕ → AroundFetch T) → ℕ → ℕ → ℕ → Option String → List String → ℕ → Traversal T → Type 0
  IsGuarded world limit left n cursor seen y t =
      (length t.requests ≤ left)
      × (y + length t.yielded ≤ limit)
      × AreNew cursor seen t.requests
      × ((is_completed t.end ≡ false) ⊎ (t.yielded ≡ fetched_items world n (length t.requests)))

  Fetched-cases :
      (o : Fetched T)
      → ((page : GuardedPage T) × (o ≡ fetched page)) ⊎ ((o ≡ malformed) ⊎ (o ≡ fetch_failed))
  Fetched-cases (fetched page) = inl (page, refl)
  Fetched-cases malformed = inr (inl refl)
  Fetched-cases fetch_failed = inr (inr refl)

  -- A round that ends the traversal before it is complete.
  ends-IsGuarded :
      (world : ℕ → AroundFetch T) (limit left n y : ℕ) (cursor : Option String) (seen : List String)
      (items : List T) (end : GuardedEnd)
      → y + length items ≤ limit
      → is_completed end ≡ false
      → IsGuarded world limit (suc left) n cursor seen y (ends items cursor end)
  ends-IsGuarded world limit left n y cursor seen items end h unfinished =
      (omega arith, h, (refl, tt, tt), inl unfinished)

  resumes-IsGuarded :
      (world : ℕ → AroundFetch T) (limit left n y : ℕ) (cursor : Option String) (seen : List String)
      (page : GuardedPage T) (rest : String → ℕ → Traversal T) (next : String)
      → (world n).outcome ≡ fetched page
      → (yield_items limit y page.items).1 ≡ false
      → y + length (yield_items limit y page.items).0 ≤ limit
      → IsNew cursor seen (some next)
      → let items = (yield_items limit y page.items).0 in
        IsGuarded world limit left
          (n + 1)
          (some next)
          (add_seen cursor seen)
          (y + length items)
          (rest next (length items))
        → IsGuarded world limit
            (suc left)
            n
            cursor
            seen
            y
            (resumes items cursor (rest next (length items)))
  resumes-IsGuarded world limit left n y cursor seen page rest next found within bound new
        (few, short, fresh, whole) =
      let items = (yield_items limit y page.items).0 in
      let t = rest next (length items) in
      (
        omega (arith, few),
        omega (arith, short, length-append items t.yielded),
        AreNew-cons cursor seen next t.requests new fresh,
        elim whole [
          | inl unfinished ↦ inl unfinished
          | inr all ↦ inr (
              ap (λ l. l ++ t.yielded) (yield_items-all limit y page.items within)
              ∙ (ap (λ o. items_of o ++ t.yielded) (sym found)
                  ∙ ap (λ l. items_of (world n).outcome ++ l) all))
        ],
      )

  take_page-IsGuarded :
      (world : ℕ → AroundFetch T) (limit left n y : ℕ) (cursor : Option String) (seen : List String)
      (page : GuardedPage T) (rest : String → ℕ → Traversal T)
      → (world n).outcome ≡ fetched page
      → y ≤ limit
      → ((next : String) (count : ℕ)
          → y + count ≤ limit
          → IsGuarded world limit left
              (n + 1)
              (some next)
              (add_seen cursor seen)
              (y + count)
              (rest next count))
      → IsGuarded world limit (suc left) n cursor seen y (take_page limit y cursor seen page rest)
  take_page-IsGuarded world limit left n y cursor seen page rest found h later =
      let bound = yield_items-bound limit y page.items h in
      elim (Bool-cases (yield_items limit y page.items).1) [
        | inl over ↦
            rw over (ends-IsGuarded world limit left n y cursor seen _ record_limit bound refl)
        | inr within ↦ rw within (elim (Option-cases page.next_cursor) [
          | inl last ↦ simp last (
            omega arith,
            bound,
            (refl, tt, tt),
            inr (
                yield_items-all limit y page.items within
                ∙ (sym (append-nil page.items) ∙ ap (λ o. items_of o ++ []) (sym found))),
          )
          | inr (next, more) ↦
              simp more (elim (Bool-cases (option_eq (some next) cursor || includes seen next)) [
                | inl again ↦
                    rw again
                      (ends-IsGuarded world limit left n y cursor seen _ repeated_cursor bound refl)
                | inr new ↦ rw new (
                    resumes-IsGuarded world limit left n y cursor seen page rest next found within
                      bound (cursor-IsNew cursor seen next new)
                      (later next (length (yield_items limit y page.items).0) bound))
              ])
        ])
      ]

  carry : (P : Traversal T → Type 0) (t u : Traversal T) → P u → t ≡ u → P t
  carry P t u g e = subst P (sym e) g

  guarded_from-IsGuarded :
      (world : ℕ → AroundFetch T) (limit left n : ℕ) (cursor : Option String) (seen : List String)
      (y : ℕ)
      → y ≤ limit
      → IsGuarded world limit left n cursor seen y (guarded_from world limit left n cursor seen y)
  unfolding guarded_from
  guarded_from-IsGuarded world limit zero n cursor seen y h =
      (omega arith, omega arith, tt, inl refl)
  guarded_from-IsGuarded world limit (suc left) n cursor seen y h =
      let stop = ends-IsGuarded world limit left n y cursor seen [] in
      let goal = IsGuarded world limit (suc left) n cursor seen y in
      let t = guarded_from world limit (suc left) n cursor seen y in
      let next_round = λ (next : String) (count : ℕ).
        guarded_from world limit left (n + 1) (some next) (add_seen cursor seen) (y + count) in
      elim (Bool-cases (world n).aborted_before) [
        | inl early ↦ simp early (omega arith, omega arith, tt, inl refl)
        | inr alive ↦ elim (Bool-cases (world n).aborted_after) [
          | inl late ↦ elim (Fetched-cases (world n).outcome) [
            | inl (page, found) ↦
                carry goal t (ends [] cursor aborted) (stop aborted (omega arith) refl)
                  (simp (guarded_from, alive, late, found) refl)
            | inr (inl bad) ↦
                carry goal t (ends [] cursor aborted) (stop aborted (omega arith) refl)
                  (simp (guarded_from, alive, late, bad) refl)
            | inr (inr lost) ↦
                carry goal t (ends [] cursor fetch_rejected)
                  (stop fetch_rejected (omega arith) refl)
                  (simp (guarded_from, alive, late, lost) refl)
          ]
          | inr going ↦ elim (Fetched-cases (world n).outcome) [
            | inl (page, found) ↦ elim (Bool-cases (is_valid_cursor page.next_cursor)) [
              | inl valid ↦
                  carry goal t (take_page limit y cursor seen page next_round)
                    (take_page-IsGuarded world limit left n y cursor seen page next_round found h
                      (λ next count within.
                        guarded_from-IsGuarded world limit left (n + 1) (some next)
                          (add_seen cursor seen) (y + count) within))
                    (simp (guarded_from, alive, going, found, valid) refl)
              | inr bad ↦
                  carry goal t (ends [] cursor invalid_page) (stop invalid_page (omega arith) refl)
                    (simp (guarded_from, alive, going, found, bad) refl)
            ]
            | inr (inl bad) ↦
                carry goal t (ends [] cursor invalid_page) (stop invalid_page (omega arith) refl)
                  (simp (guarded_from, alive, going, bad) refl)
            | inr (inr lost) ↦
                carry goal t (ends [] cursor fetch_rejected)
                  (stop fetch_rejected (omega arith) refl)
                  (simp (guarded_from, alive, going, lost) refl)
          ]
        ]
      ]

  -- Whatever the source and the signal answer, a traversal under guardrails that are accepted ends
  -- after at most `max_pages` fetches, yields at most `max_records` records and requests no cursor
  -- twice; when it completes, it has yielded all records of the pages that were fetched, in order.
  pub iterate_guarded_pages-bounded :
      (world : ℕ → AroundFetch T) (options : PaginationGuardrailOptions)
      (g : ResolvedPaginationGuardrails)
      → resolve_pagination_guardrails options ≡ ok g
      → (t : Traversal T) × (iterate_guarded_pages world options ≡ ok t)
        × (length t.requests ≤ g.max_pages)
        × (length t.yielded ≤ g.max_records)
        × Distinct t.requests
        × ((is_completed t.end ≡ false) ⊎ (t.yielded ≡ fetched_items world 1 (length t.requests)))
  unfolding iterate_guarded_pages
  iterate_guarded_pages-bounded world options g accepted =
      let t = guarded_from world g.max_records g.max_pages 1 none [] 0 in
      let (few, short, fresh, whole) =
        guarded_from-IsGuarded world g.max_records g.max_pages 1 none [] 0 (omega arith) in
      (
        t,
        rw (iterate_guarded_pages, accepted) refl,
        few,
        omega (arith, short),
        AreNew-Distinct none [] t.requests fresh,
        whole,
      )
