-- ===== src/Contracts/Events.antt =====
-- shared/contracts/events: the event names, the payload of each event and the envelope.
-- A Go `string` type (an id, an enum value that comes from outside) is a `String`, an instant is a
-- number of microseconds (the resolution of Postgres) since Go's zero time, and `json.RawMessage` is
-- a parameter `Raw`.
use wakewake.Prelude.{ℕ, String, ◌==◌, Bool, Option, none, some, List, [], ◌∷◌, anyb}
use wakewake.Prelude.Int.{ℤ}

-- Instants; the location that `UTC()` changes is no part of them.
abbrev pub Time : Type 0
Time = ℕ

-- The zero `time.Time`, and `time.Second`.
abbrev pub zero_time : Time
zero_time = 0

abbrev pub second : ℕ
second = 1_000_000

-- A nil-able instant, where Go has `*time.Time`, as the zero value or the instant.
abbrev pub time_or_zero : Option Time → Time
time_or_zero none = zero_time
time_or_zero (some t) = t

abbrev pub booking_held_event : String
booking_held_event = "BookingHeld"

abbrev pub booking_confirmed_event : String
booking_confirmed_event = "BookingConfirmed"

abbrev pub booking_cancelled_event : String
booking_cancelled_event = "BookingCancelled"

abbrev pub payment_succeeded_event : String
payment_succeeded_event = "PaymentSucceeded"

abbrev pub payment_failed_event : String
payment_failed_event = "PaymentFailed"

abbrev pub reservation_created_event : String
reservation_created_event = "ReservationCreated"

abbrev pub reservation_released_event : String
reservation_released_event = "ReservationReleased"

abbrev pub all_events : List String
all_events =
    booking_held_event ∷ booking_confirmed_event ∷ booking_cancelled_event ∷ payment_succeeded_event
    ∷ payment_failed_event ∷ reservation_created_event ∷ reservation_released_event ∷ []

-- The keys of `prototypes` are the names of `All`.
unfoldable pub is_known : String → Bool
is_known event = anyb (λ e. event == e) all_events

abbrev pub schema_version : ℕ
schema_version = 1

abbrev pub max_correlation_id_len : ℕ
max_correlation_id_len = 128

pub record BookingHeldPayload : Type 0 where
  pub booking_id : String
  pub customer_id : String
  pub product_id : String
  pub resource_id : String
  pub reservation_id : String
  pub starts_at : Time
  pub ends_at : Time
  pub hold_expires_at : Time
  pub total_minor : ℤ
  pub currency : String

pub record BookingConfirmedPayload : Type 0 where
  pub booking_id : String
  pub customer_id : String
  pub product_id : String
  pub resource_id : String
  pub reservation_id : String
  pub payment_id : String
  pub starts_at : Time
  pub ends_at : Time
  pub total_minor : ℤ
  pub currency : String

-- The booking state that a cancellation moved away from, and the lifecycle state of a booking.
pub data BookingStatus : Type 0 where
  held confirmed cancelled : BookingStatus

pub record BookingCancelledPayload : Type 0 where
  pub booking_id : String
  pub customer_id : String
  pub resource_id : String
  pub reservation_id : Option String
  pub previous_status : BookingStatus
  pub reason : String

pub record PaymentSucceededPayload : Type 0 where
  pub payment_id : String
  pub booking_id : String
  pub amount_minor : ℤ
  pub currency : String
  pub provider_payment_id : String

pub record PaymentFailedPayload : Type 0 where
  pub payment_id : String
  pub booking_id : String
  pub amount_minor : ℤ
  pub currency : String
  pub failure_code : String

pub record ReservationCreatedPayload : Type 0 where
  pub reservation_id : String
  pub resource_id : String
  pub booking_id : String
  pub starts_at : Time
  pub ends_at : Time
  pub expires_at : Time

pub record ReservationReleasedPayload : Type 0 where
  pub reservation_id : String
  pub resource_id : String
  pub booking_id : String
  pub starts_at : Time
  pub ends_at : Time
  pub reason : String

-- What a producer hands to `json.Marshal`: the `Payload any` of an emission.
pub data Payload : Type 0 where
  held_payload : BookingHeldPayload → Payload
  confirmed_payload : BookingConfirmedPayload → Payload
  cancelled_payload : BookingCancelledPayload → Payload
  succeeded_payload : PaymentSucceededPayload → Payload
  failed_payload : PaymentFailedPayload → Payload
  created_payload : ReservationCreatedPayload → Payload
  released_payload : ReservationReleasedPayload → Payload

-- One event that a transition made true. The services declare this struct alike.
pub record Emission : Type 0 where
  pub event : String
  pub aggregate_id : String
  pub payload : Payload

pub record Envelope (Raw : Type 0) : Type 0 where
  pub event : String
  pub version : ℤ
  pub id : String
  pub occurred_at : Time
  pub correlation_id : String
  pub payload : Raw
