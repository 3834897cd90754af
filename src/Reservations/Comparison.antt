-- ===== src/Reservations/Comparison.antt =====
-- packages/core/src/reconciliation/ReservationReconciliationHelper.ts: when one reservation is as expected.
use zk_payroll_sdk.Prelude.{
  ℕ, ◌≤◌, ◌==◌, ltb, true, false, not, ◌&&◌, Bool-cases, &&-true, some, ◌≢◌, ◌⊎◌, List, [], ◌∷◌,
  length, ◌≡◌, ◌↔◌, inl, inr, refl, sym, ◌∙◌, arith, true≢false,
}
use zk_payroll_sdk.Prelude.Int.{eqb_ℤ, eq_of_parts}
use zk_payroll_sdk.Prelude.Text.{str_eq, str_eq→≡, ≡→str_eq, ≢→str_eq}
use zk_payroll_sdk.Reservations.{
  ReservationStatus, reserved, released, finalized, expired, cancelled, status_code, status_name,
  FundingReservation, ReservationEvent,
}
use zk_payroll_sdk.Reservations.Releases.{AreReleasedOnce, duplicate_pairs-AreReleasedOnce}
use zk_payroll_sdk.Reservations.Reconcile.{
  ExpectedReservationState, detect_duplicate_releases, is_expired_not_marked,
  compare_reservation_states, id_of, is_match,
}

-- A reservation is as the client expects it: released at most once with one amount for one employer, not
-- expired while its status still says reserved, and with the status and the amount expected.
abbrev pub IsAsExpected :
    ℕ → ExpectedReservationState → FundingReservation → List ReservationEvent → Type 0
IsAsExpected now e r events =
    AreReleasedOnce events
    × ((r.status ≢ reserved) ⊎ (now ≤ r.expires_at))
    × (e.status ≡ status_name r.status)
    × (e.amount ≡ r.reserved_amount)

-- One of the sides gives its record an id that is not empty.
abbrev pub IsNamed : ExpectedReservationState → FundingReservation → Type 0
IsNamed e r = (e.reservation_id ≢ "") ⊎ (r.reservation_id ≢ "")

reserved_iff : (s : ReservationStatus) → ((status_code s == 0) ≡ false) ↔ (s ≢ reserved)
reserved_iff reserved = ((λ h. absurd cc), (λ h. absurd (h refl)))
reserved_iff released = ((λ h e. cc), (λ h. refl))
reserved_iff finalized = ((λ h e. cc), (λ h. refl))
reserved_iff expired = ((λ h e. cc), (λ h. refl))
reserved_iff cancelled = ((λ h e. cc), (λ h. refl))

unmarked_iff :
    (r : FundingReservation) (now : ℕ)
    → (is_expired_not_marked r now ≡ false) ↔ ((r.status ≢ reserved) ⊎ (now ≤ r.expires_at))
unmarked_iff r now =
    let (to_other, from_other) = reserved_iff r.status in
    (
      λ h. elim (Bool-cases (status_code r.status == 0)) [
        | inl held ↦ inr (ground (arith, rw held at h))
        | inr other ↦ inl (to_other other)
      ],
      λ h. elim h [
        | inl other ↦ rw (from_other other) refl
        | inr live ↦
            let in_time : ltb r.expires_at now ≡ false = ground (arith, live) in
            rw in_time (ground arith)
      ],
    )

pub id_of-IsNamed :
    (e : ExpectedReservationState) (r : FundingReservation)
    → (str_eq (id_of (some e) (some r)) "" ≡ false) ↔ IsNamed e r
id_of-IsNamed e r = elim (Bool-cases (str_eq e.reservation_id "")) [
  | inl blank ↦
      let nothing = str_eq→≡ e.reservation_id "" blank in
      rw blank (
        (λ h. inr (λ same. true≢false (sym (≡→str_eq r.reservation_id "" same) ∙ h))),
        (λ h. elim h [
          | inl named ↦ absurd (named nothing)
          | inr named ↦ ≢→str_eq r.reservation_id "" named
        ]),
      )
  | inr named ↦ rw named (
    (λ _. inl (λ same. true≢false (sym (≡→str_eq e.reservation_id "" same) ∙ named))),
    (λ _. named),
  )
]

none_found {ℓ} : {A : Type ℓ} (xs : List A) → ltb 0 (length xs) ≡ false → xs ≡ []
none_found [] h = refl
none_found (x ∷ xs) h = absurd (ground (arith, h))

compare-tests :
    (now : ℕ) (e : ExpectedReservationState) (r : FundingReservation)
    (events : List ReservationEvent)
    → is_match ((compare_reservation_states now e r events).category) ≡ (
        not (ltb 0 (length (detect_duplicate_releases events)))
        && (not (is_expired_not_marked r now)
            && (str_eq (e.status) (status_name (r.status))
                && eqb_ℤ (e.amount) (r.reserved_amount))))
unfolding compare_reservation_states
compare-tests now e r events = ground arith

pub compare-IsAsExpected :
    (now : ℕ) (e : ExpectedReservationState) (r : FundingReservation)
    (events : List ReservationEvent)
    → (is_match ((compare_reservation_states now e r events).category) ≡ true)
      ↔ IsAsExpected now e r events
unfolding detect_duplicate_releases
compare-IsAsExpected now e r events =
    let tests = compare-tests now e r events in
    (
      λ h.
          let (no_pair, h2) =
            &&-true (not (ltb 0 (length (detect_duplicate_releases events)))) _ (sym tests ∙ h) in
          let (marked, h3) = &&-true (not (is_expired_not_marked r now)) _ h2 in
          let (status, amount) = &&-true _ (eqb_ℤ (e.amount) (r.reserved_amount)) h3 in
          (
            (duplicate_pairs-AreReleasedOnce events).0
                (none_found (detect_duplicate_releases events) (ground (arith, no_pair))),
            (unmarked_iff r now).0 (ground (arith, marked)),
            str_eq→≡ (e.status) (status_name (r.status)) status,
            eq_of_parts (e.amount) (r.reserved_amount) (ground (arith, amount)),
          ),
      λ (once, marked, status, amount).
          let no_pair : detect_duplicate_releases events ≡ [] =
            (duplicate_pairs-AreReleasedOnce events).1 once in
          tests
          ∙ rw
              (
                no_pair,
                (unmarked_iff r now).1 marked,
                ≡→str_eq (e.status) (status_name (r.status)) status,
                amount,
              )
              (ground arith),
    )
