-- ===== src/Booking/Lifecycle.antt =====
-- services/booking/internal/domain/booking.go and errors.go: a booking's lifecycle.
use wakewake.Prelude.{
  ◌+◌, String, ◌==◌, Bool, true, false, not, ◌||◌, Option, none, some, List, [], ◌∷◌, if◌then◌else◌,
  ltb,
}
use wakewake.Prelude.Int.{ℤ, pos, ltb_ℤ}
use wakewake.Contracts.Events.{
  Time, second, time_or_zero, Emission, held_payload, confirmed_payload, cancelled_payload,
  BookingStatus, held, confirmed, cancelled, booking_held_event, booking_confirmed_event,
  booking_cancelled_event,
}
use wakewake.Platform.Session.{domain, Result, ok, err}

pub data BookingError : Type 0 where
  missing_identifier invalid_time_window party_exceeds_capacity : BookingError
  product_not_found not_found forbidden slot_unavailable reservation_not_found : BookingError
  reservation_released idempotency_key_reuse availability_unavailable : BookingError

abbrev pub is_cancelled : BookingStatus → Bool
is_cancelled cancelled = true
is_cancelled _ = false

abbrev pub is_confirmed : BookingStatus → Bool
is_confirmed confirmed = true
is_confirmed _ = false

abbrev pub is_held : BookingStatus → Bool
is_held held = true
is_held _ = false

-- The values of `CancelReason`, a string type.
abbrev pub reason_payment_failed : String
reason_payment_failed = "payment_failed"

abbrev pub reason_hold_expired : String
reason_hold_expired = "hold_expired"

abbrev pub reason_customer_cancelled : String
reason_customer_cancelled = "customer_cancelled"

abbrev pub reason_operator_cancelled : String
reason_operator_cancelled = "operator_cancelled"

unfoldable pub is_valid_reason : String → Bool
is_valid_reason r =
    r == reason_payment_failed
    || r == reason_hold_expired
    || r == reason_customer_cancelled
    || r == reason_operator_cancelled

pub record Product : Type 0 where
  pub resource_id : String
  pub capacity : ℤ
  pub price_minor : ℤ
  pub currency : String

-- What Availability answers of a reservation.
pub record Reservation : Type 0 where
  pub id : String
  pub booking_id : String
  pub expires_at : Time

pub record Booking : Type 0 where
  pub id : String
  pub customer_id : String
  pub product_id : String
  pub resource_id : String
  pub reservation_id : Option String
  pub starts_at : Time
  pub ends_at : Time
  pub party_size : ℤ
  pub status : BookingStatus
  pub hold_expires_at : Option Time
  pub total_minor : ℤ
  pub currency : String
  pub cancel_reason : Option String
  pub cancellation_reason : Option String
  pub created_at : Time
  pub updated_at : Time

abbrev pub Transition : Type 0
Transition = Booking → Result BookingError (Booking × List Emission)

-- The window, the party's size and the product's capacity, in the order of the tests.
unfoldable pub check_request : Time → Time → ℤ → ℤ → Time → Result BookingError (Unit {0})
check_request starts_at ends_at party_size capacity now =
    if not (ltb starts_at ends_at) || not (ltb now (starts_at + second))
    then err (domain invalid_time_window)
    else (if ltb_ℤ party_size (pos 1)
        then err (domain invalid_time_window)
        else (if ltb_ℤ capacity party_size then err (domain party_exceeds_capacity) else ok tt))

unfoldable pub new_booking :
    String
    → String
    → String
    → Product
    → Time
    → Time
    → ℤ
    → Reservation
    → Time
    → Result BookingError Booking
new_booking id customer_id product_id product starts_at ends_at party_size reservation now =
    if id == "" || customer_id == "" || product_id == ""
    then err (domain missing_identifier)
    else elim (check_request starts_at ends_at party_size product.capacity now) [
      | err e ↦ err e
      | ok _ ↦ ok (record {
        id = id;
        customer_id = customer_id;
        product_id = product_id;
        resource_id = product.resource_id;
        reservation_id = some reservation.id;
        starts_at = starts_at;
        ends_at = ends_at;
        party_size = party_size;
        status = held;
        hold_expires_at = some reservation.expires_at;
        total_minor = product.price_minor;
        currency = product.currency;
        cancel_reason = none;
        cancellation_reason = none;
        created_at = now;
        updated_at = now;
      })
    ]

abbrev pub deref : Option String → String
deref none = ""
deref (some s) = s

unfoldable pub held_emission : Booking → Emission
held_emission b = record {
  event = booking_held_event;
  aggregate_id = b.id;
  payload = held_payload (record {
    booking_id = b.id;
    customer_id = b.customer_id;
    product_id = b.product_id;
    resource_id = b.resource_id;
    reservation_id = deref b.reservation_id;
    starts_at = b.starts_at;
    ends_at = b.ends_at;
    hold_expires_at = time_or_zero b.hold_expires_at;
    total_minor = b.total_minor;
    currency = b.currency;
  });
}

abbrev pub confirmed_emission : Booking → String → Emission
confirmed_emission b payment_id = record {
  event = booking_confirmed_event;
  aggregate_id = b.id;
  payload = confirmed_payload (record {
    booking_id = b.id;
    customer_id = b.customer_id;
    product_id = b.product_id;
    resource_id = b.resource_id;
    reservation_id = deref b.reservation_id;
    payment_id = payment_id;
    starts_at = b.starts_at;
    ends_at = b.ends_at;
    total_minor = b.total_minor;
    currency = b.currency;
  });
}

abbrev pub confirm_from : BookingStatus → String → Time → Transition
confirm_from cancelled payment_id now b = err (domain reservation_released)
confirm_from confirmed payment_id now b = ok (b, [])
confirm_from held payment_id now b = ok (
  record b { status = confirmed; hold_expires_at = none; updated_at = now },
  confirmed_emission b payment_id ∷ [],
)

unfoldable pub confirm : String → Time → Transition
confirm payment_id now b = confirm_from b.status payment_id now b

abbrev pub cancelled_emission : Booking → String → Emission
cancelled_emission b reason = record {
  event = booking_cancelled_event;
  aggregate_id = b.id;
  payload = cancelled_payload (record {
    booking_id = b.id;
    customer_id = b.customer_id;
    resource_id = b.resource_id;
    reservation_id = b.reservation_id;
    previous_status = b.status;
    reason = reason;
  });
}

-- A note that is given replaces the one that is there.
abbrev pub note_or : Option String → Option String → Option String
note_or none old = old
note_or (some n) old = some n

unfoldable pub cancel : String → Option String → Time → Transition
cancel reason remark now b =
    if not (is_valid_reason reason)
    then err (domain invalid_time_window)
    else (if is_cancelled b.status
        then ok (b, [])
        else ok (
          record b {
            status = cancelled;
            hold_expires_at = none;
            cancel_reason = some reason;
            cancellation_reason = note_or remark b.cancellation_reason;
            updated_at = now;
          },
          cancelled_emission b reason ∷ [],
        ))
