-- ===== src/Availability/Reservation.antt =====
-- services/availability/internal/domain: reservation.go and errors.go, the reservation's lifecycle.
use wakewake.Prelude.{
  String, ◌==◌, Bool, true, false, not, ◌||◌, ◌&&◌, Option, none, some, List, [], ◌∷◌,
  if◌then◌else◌, ltb,
}
use wakewake.Contracts.Events.{
  Time, time_or_zero, Emission, created_payload, released_payload, reservation_created_event,
  reservation_released_event,
}
use wakewake.Platform.Session.{domain, Result, ok, err}

pub data DomainError : Type 0 where
  invalid_time_window missing_identifier slot_unavailable not_found already_released : DomainError
  idempotency_key_reuse invalid_query_window invalid_release_reason : DomainError

pub data Status : Type 0 where
  held confirmed released : Status

-- `held` and `confirmed` block an overlapping reservation.
abbrev pub is_live : Status → Bool
is_live released = false
is_live _ = true

abbrev pub is_held : Status → Bool
is_held held = true
is_held _ = false

abbrev pub is_released : Status → Bool
is_released released = true
is_released _ = false

-- The values of `ReleaseReason`, a string type.
abbrev pub reason_payment_failed : String
reason_payment_failed = "payment_failed"

abbrev pub reason_booking_cancelled : String
reason_booking_cancelled = "booking_cancelled"

abbrev pub reason_hold_expired : String
reason_hold_expired = "hold_expired"

unfoldable pub is_valid_reason : String → Bool
is_valid_reason r =
    r == reason_payment_failed || r == reason_booking_cancelled || r == reason_hold_expired

pub record Window : Type 0 where
  pub starts_at : Time
  pub ends_at : Time

pub record Reservation : Type 0 where
  pub id : String
  pub resource_id : String
  pub booking_id : String
  pub starts_at : Time
  pub ends_at : Time
  pub status : Status
  pub expires_at : Option Time
  pub released_reason : Option String
  pub created_at : Time
  pub updated_at : Time

-- What a transition gives: the next reservation and what to stage, or an error.
abbrev pub Transition : Type 0
Transition = Reservation → Result DomainError (Reservation × List Emission)

unfoldable pub new_reservation :
    String → String → String → Time → Time → Result DomainError Reservation
new_reservation id resource_id booking_id starts_at ends_at =
    if id == "" || resource_id == "" || booking_id == ""
    then err (domain missing_identifier)
    else (if not (ltb starts_at ends_at)
        then err (domain invalid_time_window)
        else ok (record {
          id = id;
          resource_id = resource_id;
          booking_id = booking_id;
          starts_at = starts_at;
          ends_at = ends_at;
          status = held;
          expires_at = none;
          released_reason = none;
          created_at = 0;
          updated_at = 0;
        }))

abbrev pub confirm_from : Status → Time → Transition
confirm_from released now r = err (domain already_released)
confirm_from confirmed now r = ok (r, [])
confirm_from held now r =
    ok (record r { status = confirmed; expires_at = none; updated_at = now }, [])

unfoldable pub confirm : Time → Transition
confirm now r = confirm_from r.status now r

-- The ReservationReleased fact.
abbrev pub released_emission : Reservation → String → Emission
released_emission r reason = record {
  event = reservation_released_event;
  aggregate_id = r.id;
  payload = released_payload (record {
    reservation_id = r.id;
    resource_id = r.resource_id;
    booking_id = r.booking_id;
    starts_at = r.starts_at;
    ends_at = r.ends_at;
    reason = reason;
  });
}

unfoldable pub release : String → Time → Transition
release reason now r =
    if not (is_valid_reason reason)
    then err (domain invalid_release_reason)
    else (if is_released r.status
        then ok (r, [])
        else ok (
          record r {
            status = released;
            released_reason = some reason;
            expires_at = none;
            updated_at = now;
          },
          released_emission r reason ∷ [],
        ))

-- `now.Before(*r.ExpiresAt)`, where there is an expiry.
abbrev pub is_due : Time → Option Time → Bool
is_due now none = false
is_due now (some t) = not (ltb now t)

unfoldable pub release_if_expired : Time → Transition
release_if_expired now r =
    if is_held r.status && is_due now r.expires_at
    then release reason_hold_expired now r
    else ok (r, [])

unfoldable pub created_emission : Reservation → Emission
created_emission r = record {
  event = reservation_created_event;
  aggregate_id = r.id;
  payload = created_payload (record {
    reservation_id = r.id;
    resource_id = r.resource_id;
    booking_id = r.booking_id;
    starts_at = r.starts_at;
    ends_at = r.ends_at;
    expires_at = time_or_zero r.expires_at;
  });
}
