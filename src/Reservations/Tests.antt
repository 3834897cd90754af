-- ===== src/Reservations/Tests.antt =====
-- packages/core/src/reservations/helpers.ts and reconciliation/ReservationReconciliationHelper.ts on small
-- reservations.
use Prim.Native.String.{String}
use zk_payroll_sdk.Prelude.{ℕ, true, Option, none, some, List, [], ◌∷◌, map, ◌≡◌, ◌↔◌, ◌⊎◌, refl}
use zk_payroll_sdk.Prelude.Int.{ℤ, pos, ◌-ℤ◌}
use zk_payroll_sdk.Prelude.Text.{Dict}
use zk_payroll_sdk.Reservations.{
  ReservationStatus, released, finalized, status_event, FundingReservation, ReservationEvent,
  ReservationIssue, multiple_releases, finalized_and_released, detect_reservation_issues,
  calculate_reservation_remaining,
}
use zk_payroll_sdk.Reservations.Reconcile.{
  ExpectedReservationState, ObservedReservationState, reconcile_multiple_reservations,
}
use zk_payroll_sdk.Reservations.Known.{IsUnknown}
use zk_payroll_sdk.Reservations.Agreement.{Agrees, reconcile_multiple_reservations-Agrees}

abbrev reservation : ReservationStatus → Option ℤ → FundingReservation
reservation status used = record {
  reservation_id = "r1";
  employer = "GEMPLOYER";
  reserved_amount = pos 500;
  asset = "native";
  status = status;
  created_at = 1;
  expires_at = 100;
  used_amount = used;
  released_amount = none;
}

abbrev release : String → ℕ → ReservationEvent
release id amount = record {
  event_id = id;
  reservation_id = "r1";
  event_type = status_event released;
  employer = "GEMPLOYER";
  amount = pos amount;
  asset = "native";
  timestamp = 5;
  tx_hash = "h";
  conflicting_event_id = none;
}

abbrev expected : Dict ExpectedReservationState
expected =
    (
      "r1",
      record { reservation_id = "r1"; status = "released"; amount = pos 500; expires_at = 100 },
    )
    ∷ []

abbrev observed : Dict ObservedReservationState
observed =
    (
      "r1",
      record {
        reservation = some (reservation released none);
        events = release "e1" 200 ∷ release "e2" 300 ∷ [];
      },
    )
    ∷ []

reconciled : (reconcile_multiple_reservations 50 expected observed).is_fully_reconciled ≡ true
unfolding reconcile_multiple_reservations
reconciled = refl

reconcile_multiple_reservations-Agrees_example :
    ((reconcile_multiple_reservations 50 expected observed).is_fully_reconciled ≡ true)
    ↔ ((id : String) → IsUnknown expected observed id ⊎ Agrees 50 expected observed id)
reconcile_multiple_reservations-Agrees_example =
    reconcile_multiple_reservations-Agrees 50 expected observed

-- Two releases of parts are reported as a conflict with a finalization that there is not.
released_in_parts :
    map
      (λ (i : ReservationIssue × List String). i.0)
      (detect_reservation_issues (release "e1" 200 ∷ release "e2" 300 ∷ []))
    ≡ multiple_releases ∷ finalized_and_released ∷ []
unfolding detect_reservation_issues
released_in_parts = refl

-- Nothing was used of 500, and nothing remains.
unused_remainder :
    (calculate_reservation_remaining (reservation finalized (some (pos 0))) ≡ pos 0)
    × (calculate_reservation_remaining (reservation finalized (some (pos 1))) ≡ pos 499)
unfolding calculate_reservation_remaining ◌-ℤ◌
unused_remainder = (refl, refl)
