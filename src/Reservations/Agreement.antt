-- ===== src/Reservations/Agreement.antt =====
-- packages/core/src/reconciliation/ReservationReconciliationHelper.ts: when everything is reconciled.
use mathlib.Core.Path.{subst}
use Prim.Native.String.{String}
use zk_payroll_sdk.Prelude.{
  ℕ, true, false, Bool-cases, &&-true, Option, none, some, Option-cases, ◌⊎◌, List, [], ◌∷◌, map,
  All, ◌≡◌, ◌↔◌, inl, inr, refl, sym, ap, ◌∙◌, arith, if◌then◌else◌, none≢some, true≢false,
  some_inj,
}
use zk_payroll_sdk.Prelude.Text.{str_eq, Dict, lookup}
use zk_payroll_sdk.Reservations.{FundingReservation, ReservationEvent}
use zk_payroll_sdk.Reservations.Comparison.{
  IsAsExpected, IsNamed, id_of-IsNamed, compare-IsAsExpected,
}
use zk_payroll_sdk.Reservations.Known.{IsUnknown, known_ids_iff}
use zk_payroll_sdk.Reservations.Reconcile.{
  ExpectedReservationState, ObservedReservationState, ReservationReconciliationEntry, id_of,
  reconcile_known, reconcile_single_reservation, known_ids, observed_or_none, entry_for, entry,
  unexpected_on_chain, is_match, all_match, reconcile_multiple_reservations,
}

-- Both sides know the id, the observation has a reservation, and it is as expected.
abbrev pub Agrees :
    ℕ → Dict ExpectedReservationState → Dict ObservedReservationState → String → Type 0
Agrees now expected observed id =
    (e : ExpectedReservationState) × (o : ObservedReservationState) × (r : FundingReservation)
    × (lookup id expected ≡ some e)
    × (lookup id observed ≡ some o)
    × (o.reservation ≡ some r)
    × IsNamed e r
    × IsAsExpected now e r o.events

-- The entry of a reservation by what either side knows.
abbrev single :
    ℕ
    → Option ExpectedReservationState
    → Option FundingReservation
    → List ReservationEvent
    → ReservationReconciliationEntry
single now x o events =
    if str_eq (id_of x o) ""
    then entry "unknown" unexpected_on_chain []
    else reconcile_known now (id_of x o) x o events

abbrev AgreesOn :
    ℕ → Option ExpectedReservationState → Option FundingReservation → List ReservationEvent → Type 0
AgreesOn now x o events =
    (e : ExpectedReservationState) × (r : FundingReservation) × (x ≡ some e)
    × (o ≡ some r)
    × (str_eq (id_of (some e) (some r)) "" ≡ false)
    × IsAsExpected now e r events

single-Agrees :
    (now : ℕ) (x : Option ExpectedReservationState) (o : Option FundingReservation)
    (events : List ReservationEvent)
    → (is_match ((single now x o events).category) ≡ true) ↔ AgreesOn now x o events
single-Agrees now none none events =
    ((λ h. absurd (ground (arith, h))), (λ (e, r, x, _, _, _). absurd (none≢some x)))
single-Agrees now none (some r) events =
    ((λ h. absurd (ground (arith, h))), (λ (e, r, x, _, _, _). absurd (none≢some x)))
single-Agrees now (some e) none events =
    ((λ h. absurd (ground (arith, h))), (λ (e, r, _, o, _, _). absurd (none≢some o)))
single-Agrees now (some e) (some r) events =
    let (to_spec, from_spec) = compare-IsAsExpected now e r events in
    elim (Bool-cases (str_eq (id_of (some e) (some r)) "")) [
      | inl blank ↦ rw blank (
        (λ h. absurd (true≢false (sym h))),
        (λ (d, q, ex, ox, named, spec). absurd (
            true≢false (
              sym blank
              ∙ ap (λ u. str_eq (id_of (some u) (some r)) "") (some_inj ex)
              ∙ ap (λ v. str_eq (id_of (some d) (some v)) "") (some_inj ox)
              ∙ named))),
      )
      | inr named ↦ rw named (
        (λ h. (e, r, refl, refl, named, to_spec h)),
        (λ (d, q, ex, ox, n, spec). from_spec (
            subst (λ u. IsAsExpected now u r events) (sym (some_inj ex))
              (subst (λ v. IsAsExpected now d v events) (sym (some_inj ox)) spec))),
      )
    ]

entry_for-AgreesOn :
    (now : ℕ) (x : Option ExpectedReservationState) (o : ObservedReservationState)
    → (is_match ((reconcile_single_reservation now x o).category) ≡ true)
      ↔ AgreesOn now x (o.reservation) (o.events)
unfolding reconcile_single_reservation
entry_for-AgreesOn now x o = single-Agrees now x (o.reservation) (o.events)

AgreesOn-Agrees :
    (now : ℕ) (expected : Dict ExpectedReservationState) (observed : Dict ObservedReservationState)
    (id : String)
    → let o = observed_or_none (lookup id observed) in
      AgreesOn now (lookup id expected) (o.reservation) (o.events) ↔ Agrees now expected observed id
AgreesOn-Agrees now expected observed id = elim (Option-cases (lookup id observed)) [
  | inl unseen ↦ rw unseen (
    (λ (e, r, _, held, _, _). absurd (none≢some held)),
    (λ (e, o, r, _, seen, _, _, _). absurd (none≢some seen)),
  )
  | inr (o, seen) ↦ rw seen (
    (λ (e, r, wanted, held, named, spec).
        (e, o, r, wanted, refl, held, (id_of-IsNamed e r).0 named, spec)),
    (λ (e, p, r, wanted, same, held, named, spec).
        let is = some_inj same in
        (
          e,
          r,
          wanted,
          rw is held,
          (id_of-IsNamed e r).1 named,
          subst (λ (q : ObservedReservationState). IsAsExpected now e r q.events) (sym is) spec,
        )),
  )
]

all_match-Agrees :
    (now : ℕ) (expected : Dict ExpectedReservationState) (observed : Dict ObservedReservationState)
    (ids : List String)
    → (all_match (map (entry_for now expected observed) ids) ≡ true)
      ↔ All (Agrees now expected observed) ids
all_match-Agrees now expected observed [] = ((λ h. tt), (λ h. refl))
all_match-Agrees now expected observed (id ∷ ids) =
    let (to_rest, from_rest) = all_match-Agrees now expected observed ids in
    let (to_on, from_on) =
      entry_for-AgreesOn now (lookup id expected) (observed_or_none (lookup id observed)) in
    let (to_spec, from_spec) = AgreesOn-Agrees now expected observed id in
    (
      λ h.
          let (here, rest) =
            &&-true (is_match ((entry_for now expected observed id).category)) _ h in
          (to_spec (to_on here), to_rest rest),
      λ (here, rest). rw (from_on (from_spec here), from_rest rest) refl,
    )

-- The reconciliation of several reservations says that everything is reconciled exactly when every id is
-- either unknown to both sides, or expected by the client and observed with a reservation that has the
-- status and the amount expected, does not still say reserved after its expiry, has no two releases of one
-- amount for one employer among its events, and is named by one of the sides with an id that is not empty.
pub reconcile_multiple_reservations-Agrees :
    (now : ℕ) (expected : Dict ExpectedReservationState) (observed : Dict ObservedReservationState)
    → ((reconcile_multiple_reservations now expected observed).is_fully_reconciled ≡ true)
      ↔ ((id : String) → IsUnknown expected observed id ⊎ Agrees now expected observed id)
unfolding reconcile_multiple_reservations
reconcile_multiple_reservations-Agrees now expected observed =
    let (to_each, from_each) =
      all_match-Agrees now expected observed (known_ids expected observed) in
    let (to_ids, from_ids) = known_ids_iff (Agrees now expected observed) expected observed in
    ((λ h. to_ids (to_each h)), (λ h. from_each (from_ids h)))
