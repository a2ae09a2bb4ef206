-- ===== src/Examples/Saga.antt =====
-- A booking that is held and paid for, and then cancelled by its customer.
use wakewake.Prelude.{
  ◌+◌, ◌≤◌, ◌≡◌, arith, String, true, false, refl, ◌⊎◌, none, some, List, [], ◌∷◌, All, countb,
}
use wakewake.Prelude.Int.{pos}
use wakewake.Contracts.Events.{
  Envelope, PaymentSucceededPayload, held, confirmed, booking_held_event, booking_confirmed_event,
  booking_cancelled_event, payment_succeeded_event,
}
use wakewake.Platform.Session.{ok, World}
use wakewake.Platform.Atomicity.{Calm}
use wakewake.Platform.Idempotency.{find_key}
use wakewake.Platform.Keyed.{Engine}
use wakewake.Booking.Lifecycle.{
  Booking, confirm, confirmed_emission, is_held, is_confirmed, is_cancelled,
}
use wakewake.Booking.Paid.{confirm_on_payment_lem}
use wakewake.Booking.Service.{Remotes, CreateCommand, confirm_on_payment}
use wakewake.Booking.Requests.{
  Decoders, Request, create_request, succeeded_request, cancel_request, serve_all,
}
use wakewake.Booking.Invariant.{
  IsConsistent, has_id, is_held_id, is_confirmed_id, is_cancelled_id, stated,
}
use wakewake.Booking.Runs.{booking_told_once}
use wakewake.Examples.Worlds.{quiet, start_of}

abbrev pub engine : Engine
engine = record { is_currency = λ c. true; char_length = λ t. 0 }

-- Raw payloads that are the payload of a PaymentSucceeded.
abbrev decoders : Decoders PaymentSucceededPayload
decoders = record { succeeded = some; failed = λ raw. none; released = λ raw. none }

abbrev remotes : Remotes
remotes = record {
  product = λ id. ok (record {
    resource_id = "court";
    capacity = pos 4;
    price_minor = pos 2_500;
    currency = "EUR";
  });
  hold = λ req. ok (record { id = "r-1"; booking_id = req.booking_id; expires_at = 9_000 });
  confirm_reservation = λ id. ok tt;
}

abbrev create_command : CreateCommand
create_command = record {
  customer_id = "ann";
  product_id = "p-1";
  starts_at = 20_000;
  ends_at = 30_000;
  party_size = pos 2;
  idempotency = record { key = "k-1"; fingerprint = "f" };
}

abbrev paid : Envelope PaymentSucceededPayload
paid = record {
  event = payment_succeeded_event;
  version = pos 1;
  id = "e-1";
  occurred_at = 2_000;
  correlation_id = "c-1";
  payload = record {
    payment_id = "pay-1";
    booking_id = "b-1";
    amount_minor = pos 2_500;
    currency = "EUR";
    provider_payment_id = "pi-1";
  };
}

abbrev steps : List (World (List Booking) × Request PaymentSucceededPayload)
steps =
    (quiet, create_request remotes 1_000 1_001 (some "b-1") create_command)
    ∷ (quiet, succeeded_request remotes 2_000 paid)
    ∷ (quiet, cancel_request 3_000 "b-1" "ann" none)
    ∷ []

abbrev alone : Calm (IsConsistent engine) quiet
alone n db h = h

abbrev steps-Calm :
    All
      (λ (step : World (List Booking) × Request PaymentSucceededPayload).
        Calm (IsConsistent engine) step.0)
      steps
steps-Calm = (alone, (alone, (alone, tt)))

empty-IsConsistent : IsConsistent engine (start_of {Own = List Booking} []).db
unfolding find_key
empty-IsConsistent = record {
  passed = tt;
  unique = λ id. omega arith;
  held = λ id. omega arith;
  cancelled = λ id. omega arith;
  confirmed = λ id. omega arith;
  once = λ id. omega arith;
  keys = λ key k e. absurd (ground arith);
}

booking_told_once_example :
    let db = (serve_all engine decoders steps (start_of [])).db in
    (stated booking_held_event "b-1" db ≡ countb (has_id "b-1") db.own)
    × (stated booking_held_event "b-1" db ≤ 1)
    × (stated booking_cancelled_event "b-1" db ≡ countb (is_cancelled_id "b-1") db.own)
    × (countb (is_confirmed_id "b-1") db.own ≤ stated booking_confirmed_event "b-1" db)
    × (stated booking_confirmed_event "b-1" db + countb (is_held_id "b-1") db.own ≤ 1)
booking_told_once_example =
    booking_told_once engine decoders steps (start_of []) "b-1" steps-Calm empty-IsConsistent

abbrev held_booking : Booking
held_booking = record {
  id = "b-1";
  customer_id = "ann";
  product_id = "p-1";
  resource_id = "court";
  reservation_id = some "r-1";
  starts_at = 20_000;
  ends_at = 30_000;
  party_size = pos 2;
  status = held;
  hold_expires_at = some 9_000;
  total_minor = pos 2_500;
  currency = "EUR";
  cancel_reason = none;
  cancellation_reason = none;
  created_at = 1_000;
  updated_at = 1_000;
}

abbrev confirmed_booking : Booking
confirmed_booking = record held_booking {
  status = confirmed;
  hold_expires_at = none;
  updated_at = 2_000;
}

confirms :
    confirm_on_payment remotes "pay-1" 2_000 held_booking
    ≡ ok (confirmed_booking, confirmed_emission held_booking "pay-1" ∷ [])
unfolding confirm_on_payment confirm
confirms = refl

confirm_on_payment_lem_example :
    (is_held confirmed_booking.status ≡ false)
    × (confirmed_booking.id ≡ held_booking.id)
    × (confirmed_booking.customer_id ≡ held_booking.customer_id)
    × (confirmed_booking.total_minor ≡ held_booking.total_minor)
    × (confirmed_booking.currency ≡ held_booking.currency)
    × (confirmed_booking.reservation_id ≡ held_booking.reservation_id)
    × ((is_confirmed held_booking.status ≡ true)
        ⊎ ((is_cancelled confirmed_booking.status ≡ true)
            ⊎ ((id : String) × (held_booking.reservation_id ≡ some id)
                × (remotes.confirm_reservation id ≡ ok tt))))
confirm_on_payment_lem_example =
    confirm_on_payment_lem remotes "pay-1" 2_000 held_booking confirmed_booking
      (confirmed_emission held_booking "pay-1" ∷ []) confirms
