-- ===== src/Reservations/Reconcile.antt =====
-- packages/core/src/reconciliation/ReservationReconciliationHelper.ts: what the client expects of its
-- reservations against what is observed. The copies of both sides in an entry and the texts of the
-- reasons are left out; every entry of one run is made at one time.
use Prim.Native.String.{String}
use zk_payroll_sdk.Prelude.{
  ℕ, ◌==◌, ltb, Bool, true, false, not, ◌&&◌, Option, none, some, List, [], ◌∷◌, ◌++◌, map, select,
  if◌then◌else◌, length, is_some,
}
use zk_payroll_sdk.Prelude.Int.{ℤ, eqb_ℤ}
use zk_payroll_sdk.Prelude.Text.{str_eq, Dict, lookup}
use zk_payroll_sdk.Reservations.{
  released, status_name, status_code, status_event, FundingReservation, ReservationEvent,
  is_reservation_expired, of_type, same_release,
}

-- The client's status is a text.
pub record ExpectedReservationState : Type 0 where
  pub reservation_id : String
  pub status : String
  pub amount : ℤ
  pub expires_at : ℕ

pub record ObservedReservationState : Type 0 where
  pub reservation : Option FundingReservation
  pub events : List ReservationEvent

pub data ReconciliationCategory : Type 0 where
  match_category status_mismatch amount_mismatch missing_on_chain unexpected_on_chain
        duplicate_release orphaned_events expired_not_marked :
      ReconciliationCategory

pub record ReservationReconciliationEntry : Type 0 where
  pub entry_id : String
  pub category : ReconciliationCategory
  pub related_event_ids : List String

abbrev pub entry : String → ReconciliationCategory → List String → ReservationReconciliationEntry
entry id category ids = record { entry_id = id; category = category; related_event_ids = ids }

abbrev pub pairs_with :
    ReservationEvent → List ReservationEvent → List (ReservationEvent × ReservationEvent)
pairs_with d [] = []
pairs_with d (e ∷ es) =
    let rest = pairs_with d es in if same_release d e then (d, e) ∷ rest else rest

-- The two loops over the releases.
abbrev pub duplicate_pairs : List ReservationEvent → List (ReservationEvent × ReservationEvent)
duplicate_pairs [] = []
duplicate_pairs (e ∷ es) = pairs_with e es ++ duplicate_pairs es

unfoldable pub detect_duplicate_releases :
    List ReservationEvent → List (ReservationEvent × ReservationEvent)
detect_duplicate_releases events = duplicate_pairs (of_type (status_event released) events)

unfoldable pub detect_orphaned_events :
    List ReservationEvent → Dict FundingReservation → List ReservationEvent
detect_orphaned_events events reservations =
    select (λ (e : ReservationEvent). not (is_some (lookup e.reservation_id reservations))) events

abbrev pub is_expired_not_marked : FundingReservation → ℕ → Bool
is_expired_not_marked r now = (status_code r.status == 0) && is_reservation_expired r now

abbrev ids_of : List ReservationEvent → List String
ids_of events = map (λ (e : ReservationEvent). e.event_id) events

abbrev ids_of_pairs : List (ReservationEvent × ReservationEvent) → List String
ids_of_pairs [] = []
ids_of_pairs ((d, e) ∷ pairs) = d.event_id ∷ e.event_id ∷ ids_of_pairs pairs

unfoldable pub compare_reservation_states :
    ℕ
    → ExpectedReservationState
    → FundingReservation
    → List ReservationEvent
    → ReservationReconciliationEntry
unfolding detect_duplicate_releases
compare_reservation_states now expected observed events =
    if ltb 0 (length (detect_duplicate_releases events))
    then entry expected.reservation_id duplicate_release
        (ids_of_pairs (detect_duplicate_releases events))
    else if is_expired_not_marked observed now
    then entry expected.reservation_id expired_not_marked (ids_of events)
    else if not (str_eq expected.status (status_name observed.status))
    then entry expected.reservation_id status_mismatch (ids_of events)
    else if not (eqb_ℤ expected.amount observed.reserved_amount)
    then entry expected.reservation_id amount_mismatch (ids_of events)
    else entry expected.reservation_id match_category (ids_of events)

-- `expected?.reservationId || observed.reservation?.reservationId`, "" for none.
abbrev pub id_of : Option ExpectedReservationState → Option FundingReservation → String
id_of none none = ""
id_of none (some r) = r.reservation_id
id_of (some e) none = e.reservation_id
id_of (some e) (some r) = if str_eq e.reservation_id "" then r.reservation_id else e.reservation_id

abbrev pub reconcile_known :
    ℕ
    → String
    → Option ExpectedReservationState
    → Option FundingReservation
    → List ReservationEvent
    → ReservationReconciliationEntry
reconcile_known now id none none events = entry id unexpected_on_chain []
reconcile_known now id none (some r) events = entry id unexpected_on_chain (ids_of events)
reconcile_known now id (some e) none events = entry id missing_on_chain (ids_of events)
reconcile_known now id (some e) (some r) events = compare_reservation_states now e r events

unfoldable pub reconcile_single_reservation :
    ℕ → Option ExpectedReservationState → ObservedReservationState → ReservationReconciliationEntry
unfolding compare_reservation_states
reconcile_single_reservation now expected observed =
    if str_eq (id_of expected observed.reservation) ""
    then entry "unknown" unexpected_on_chain []
    else reconcile_known now (id_of expected observed.reservation) expected observed.reservation
        observed.events

abbrev pub known_ids : Dict ExpectedReservationState → Dict ObservedReservationState → List String
known_ids expected observed =
    map (λ e. e.0) expected
    ++ map (λ o. o.0)
        (select (λ (o : String × ObservedReservationState). not (is_some (lookup o.0 expected)))
          observed)

abbrev pub observed_or_none : Option ObservedReservationState → ObservedReservationState
observed_or_none none = record { reservation = none; events = [] }
observed_or_none (some o) = o

abbrev pub entry_for :
    ℕ
    → Dict ExpectedReservationState
    → Dict ObservedReservationState
    → String
    → ReservationReconciliationEntry
entry_for now expected observed id =
    reconcile_single_reservation now (lookup id expected) (observed_or_none (lookup id observed))

abbrev pub is_match : ReconciliationCategory → Bool
is_match match_category = true
is_match _ = false

abbrev pub all_match : List ReservationReconciliationEntry → Bool
all_match [] = true
all_match (e ∷ es) = is_match e.category && all_match es

pub record ReservationReconciliationResult : Type 0 where
  pub entries : List ReservationReconciliationEntry
  pub is_fully_reconciled : Bool

-- The counts by category are left out.
unfoldable pub reconcile_multiple_reservations :
    ℕ
    → Dict ExpectedReservationState
    → Dict ObservedReservationState
    → ReservationReconciliationResult
unfolding reconcile_single_reservation
reconcile_multiple_reservations now expected observed =
    let entries = map (entry_for now expected observed) (known_ids expected observed) in
    record { entries = entries; is_fully_reconciled = all_match entries }
