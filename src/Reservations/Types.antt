-- ===== src/Reservations/Types.antt =====
-- packages/core/src/treasury/types.ts: the data of reservations.
use Prim.Native.String.{String}
use zk_payroll_sdk.Prelude.{ℕ, Option}
use zk_payroll_sdk.Prelude.Int.{ℤ}

pub data ReservationStatus : Type 0 where
  reserved released finalized expired cancelled : ReservationStatus

abbrev pub status_code : ReservationStatus → ℕ
status_code reserved = 0
status_code released = 1
status_code finalized = 2
status_code expired = 3
status_code cancelled = 4

abbrev pub status_name : ReservationStatus → String
status_name reserved = "reserved"
status_name released = "released"
status_name finalized = "finalized"
status_name expired = "expired"
status_name cancelled = "cancelled"

-- The types of events are the statuses and one more.
pub data EventType : Type 0 where
  status_event : ReservationStatus → EventType
  duplicate_release_attempt : EventType

abbrev pub event_code : EventType → ℕ
event_code (status_event s) = status_code s
event_code duplicate_release_attempt = 5

-- The fields that are read; hashes and memos are left out.
pub record FundingReservation : Type 0 where
  pub reservation_id : String
  pub employer : String
  pub reserved_amount : ℤ
  pub asset : String
  pub status : ReservationStatus
  pub created_at : ℕ
  pub expires_at : ℕ
  pub used_amount : Option ℤ
  pub released_amount : Option ℤ

pub record ReservationEvent : Type 0 where
  pub event_id : String
  pub reservation_id : String
  pub event_type : EventType
  pub employer : String
  pub amount : ℤ
  pub asset : String
  pub timestamp : ℕ
  pub tx_hash : String
  pub conflicting_event_id : Option String

pub record ReserveRequest : Type 0 where
  pub employer : String
  pub amount : ℤ
  pub asset : String
  pub expiration_unix_seconds : ℕ
  pub memo : Option String
  pub correlation_id : Option String

-- The reason of a release and the summary of an execution are passed on and left out.
pub record ReleaseReservationRequest : Type 0 where
  pub reservation_id : String
  pub release_amount : ℤ

pub record FinalizeReservationRequest : Type 0 where
  pub reservation_id : String
  pub request_used_amount : ℤ

pub data RequestError : Type 0 where
  employer_required amount_not_positive asset_required expiration_not_positive exceeds_reserved :
      RequestError

pub data ReservationIssue : Type 0 where
  multiple_releases finalized_and_released events_after_terminal : ReservationIssue

pub data DuplicateClassification : Type 0 where
  duplicate_attempt harmless_retry missing_original : DuplicateClassification
