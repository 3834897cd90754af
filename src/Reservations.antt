-- ===== src/Reservations.antt =====
-- packages/core/src/reservations/helpers.ts, with the data of treasury/types.ts: reservations of funds and
-- the events that the contract reports on them. An error is the case that threw; its text is left out.
mod Types
pub mod Reconcile
pub mod Agreement
pub mod Releases
pub mod Known
pub mod Comparison
mod Tests
unfoldable pub use Types.*
use Prim.Native.String.{String}
use zk_payroll_sdk.Prelude.{
  ℕ, suc, ◌+◌, ◌==◌, leb, ltb, Bool, true, false, not, ◌&&◌, ◌||◌, Option, none, some, List, [],
  ◌∷◌, ◌++◌, map, select, if◌then◌else◌, length, default,
}
use zk_payroll_sdk.Prelude.Arrays.{sort_with}
use zk_payroll_sdk.Prelude.Int.{ℤ, pos, ◌-ℤ◌, leb_ℤ, ltb_ℤ, eqb_ℤ}
use zk_payroll_sdk.Prelude.Text.{str_eq}
use zk_payroll_sdk.Prelude.Action.{Result, ok, err}

abbrev pub has_status : List ReservationStatus → ReservationStatus → Bool
has_status [] s = false
has_status (t ∷ ts) s = (status_code t == status_code s) || has_status ts s

-- `assertReservationStatus`: whether it returns.
abbrev pub assert_reservation_status : FundingReservation → List ReservationStatus → Bool
assert_reservation_status r statuses = has_status statuses r.status

-- `Date.now()` and the times of the events are in milliseconds.
abbrev pub is_reservation_expired : FundingReservation → ℕ → Bool
is_reservation_expired r now = ltb r.expires_at now

unfoldable pub get_reservation_time_remaining : FundingReservation → ℕ → ℤ
get_reservation_time_remaining r now = pos r.expires_at -ℤ pos now

abbrev pub is_reservation_terminal : FundingReservation → Bool
is_reservation_terminal r = has_status (finalized ∷ released ∷ expired ∷ cancelled ∷ []) r.status

unfoldable pub create_reserve_request :
    String → ℤ → String → ℕ → Option String → Option String → Result RequestError ReserveRequest
create_reserve_request employer amount asset expiration_unix_seconds memo correlation_id =
    if str_eq employer ""
    then err employer_required
    else if leb_ℤ amount (pos 0)
    then err amount_not_positive
    else if str_eq asset ""
    then err asset_required
    else if expiration_unix_seconds == 0
    then err expiration_not_positive
    else ok (record {
      employer = employer;
      amount = amount;
      asset = asset;
      expiration_unix_seconds = expiration_unix_seconds;
      memo = memo;
      correlation_id = correlation_id;
    })

abbrev pub create_full_release_request : FundingReservation → ReleaseReservationRequest
create_full_release_request r = record {
  reservation_id = r.reservation_id;
  release_amount = r.reserved_amount;
}

unfoldable pub create_partial_release_request :
    FundingReservation → ℤ → Result RequestError ReleaseReservationRequest
create_partial_release_request r amount =
    if ltb_ℤ r.reserved_amount amount
    then err exceeds_reserved
    else ok (record { reservation_id = r.reservation_id; release_amount = amount })

unfoldable pub create_finalize_request :
    FundingReservation → ℤ → Result RequestError FinalizeReservationRequest
create_finalize_request r used =
    if ltb_ℤ r.reserved_amount used
    then err exceeds_reserved
    else ok (record { reservation_id = r.reservation_id; request_used_amount = used })

abbrev is_status_event : EventType → Bool
is_status_event duplicate_release_attempt = false
is_status_event (status_event s) = true

abbrev pub same_event_type : EventType → EventType → Bool
same_event_type s t = event_code s == event_code t

-- The events in their order with the types that each goes from and to, if it changes the status.
abbrev timeline_from :
    Option EventType
    → List ReservationEvent
    → List (ReservationEvent × Option (EventType × EventType))
timeline_from previous [] = []
timeline_from previous (e ∷ es) =
    let transition : Option (EventType × EventType) = elim previous [
      | none ↦ none
      | some p ↦ if same_event_type e.event_type p then none else some (p, e.event_type)
    ] in
    let next = if is_status_event e.event_type then some e.event_type else previous in
    (e, transition) ∷ timeline_from next es

abbrev pub build_reservation_timeline :
    List ReservationEvent → List (ReservationEvent × Option (EventType × EventType))
build_reservation_timeline events =
    timeline_from none (sort_with (λ d e. leb d.timestamp e.timestamp) events)

abbrev pub of_type : EventType → List ReservationEvent → List ReservationEvent
of_type t events = select (λ (e : ReservationEvent). same_event_type e.event_type t) events

abbrev event_ids : List ReservationEvent → List String
event_ids events = map (λ (e : ReservationEvent). e.event_id) events

abbrev is_terminal_event : EventType → Bool
is_terminal_event duplicate_release_attempt = false
is_terminal_event (status_event s) = has_status (finalized ∷ released ∷ expired ∷ cancelled ∷ []) s

-- The events that are not terminal and come after a terminal one.
abbrev after_terminal : Bool → List ReservationEvent → List String
after_terminal found [] = []
after_terminal found (e ∷ es) =
    let after_this = after_terminal true es in
    let rest = after_terminal found es in
    if is_terminal_event e.event_type then after_this else if found then e.event_id ∷ rest else rest

abbrev is_conclusion : EventType → Bool
is_conclusion t =
    same_event_type t (status_event finalized) || same_event_type t (status_event released)

-- The issues in their order, with the ids of the events.
unfoldable pub detect_reservation_issues :
    List ReservationEvent → List (ReservationIssue × List String)
detect_reservation_issues events =
    let releases = of_type (status_event released) events in
    let finalizations = of_type (status_event finalized) events in
    let late = after_terminal false events in
    (if ltb 1 (length releases) then (multiple_releases, event_ids releases) ∷ [] else [])
    ++ (if ltb 1 (length finalizations + length releases)
        then (
          finalized_and_released,
          event_ids (select (λ (e : ReservationEvent). is_conclusion e.event_type) events),
        )
          ∷ []
        else [])
    ++ (if ltb 0 (length late) then (events_after_terminal, late) ∷ [] else [])

-- An amount of 0 is as good as none in the tests.
abbrev or_else : Option ℤ → ℤ → (ℤ → ℤ) → ℤ
or_else none rest f = rest
or_else (some a) rest f = if eqb_ℤ a (pos 0) then rest else f a

unfoldable pub calculate_reservation_remaining : FundingReservation → ℤ
calculate_reservation_remaining r =
    if has_status (released ∷ finalized ∷ []) r.status
    then or_else r.released_amount
        (or_else r.used_amount (pos 0) (λ used. r.reserved_amount -ℤ used)) (λ a. a)
    else r.reserved_amount

abbrev find_event : String → List ReservationEvent → Option ReservationEvent
find_event id [] = none
find_event id (e ∷ es) =
    let rest = find_event id es in if str_eq e.event_id id then some e else rest

abbrev pub same_release : ReservationEvent → ReservationEvent → Bool
same_release d e = eqb_ℤ d.amount e.amount && str_eq d.employer e.employer

-- The classification and the id of the original event.
unfoldable pub classify_duplicate_release :
    ReservationEvent → List ReservationEvent → DuplicateClassification × String
classify_duplicate_release event all_events =
    let id = default event.conflicting_event_id "" in
    if str_eq id "" then (harmless_retry, "") else elim (find_event id all_events) [
      | none ↦ (missing_original, id)
      | some original ↦
          if same_release original event then (duplicate_attempt, id) else (harmless_retry, id)
    ]
