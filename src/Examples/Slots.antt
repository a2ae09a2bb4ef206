-- ===== src/Examples/Slots.antt =====
-- Two reservations of one resource that overlap, a confirmation, a cancelled booking and a sweep.
use wakewake.Prelude.Int.{pos}
use wakewake.Prelude.{
  refl, ◌+◌, Rows, ◌≤◌, ◌≡◌, arith, String, false, some, List, [], ◌∷◌, All, countb,
}
use wakewake.Contracts.Events.{
  Envelope, BookingCancelledPayload, held, reservation_created_event, reservation_released_event,
  booking_cancelled_event,
}
use wakewake.Platform.Session.{World, Session, OutboxRow, fine}
use wakewake.Platform.Atomicity.{Calm}
use wakewake.Platform.Idempotency.{find_key}
use wakewake.Platform.Staging.{is_event_of}
use wakewake.Availability.Reservation.{Reservation, reason_booking_cancelled}
use wakewake.Availability.Rows.{occupancy}
use wakewake.Availability.Service.{ReserveCommand}
use wakewake.Availability.Requests.{
  Request, reserve_request, confirm_request, sweep_request, cancelled_request, serve_all,
}
use wakewake.Availability.Invariant.{IsConsistent, has_id, is_released_id}
use wakewake.Availability.Runs.{no_double_booking}
use wakewake.Availability.Lifetime.{
  Step, ask, prune_outbox, IsShared, untouched, relayed, SameFact, take_steps, events_exactly_once,
}
use wakewake.Platform.Relay.{RelaySettings, publish_at}
use wakewake.Examples.Worlds.{quiet, start_of}

abbrev reserve_command : String → String → ReserveCommand
reserve_command key booking_id = record {
  resource_id = "court";
  booking_id = booking_id;
  starts_at = 5_000;
  ends_at = 6_000;
  idempotency = record { key = key; fingerprint = "f" };
}

abbrev cancelled_envelope : Envelope BookingCancelledPayload
cancelled_envelope = record {
  event = booking_cancelled_event;
  version = pos 1;
  id = "e-1";
  occurred_at = 1_500;
  correlation_id = "c-1";
  payload = record {
    booking_id = "b-1";
    customer_id = "ann";
    resource_id = "court";
    reservation_id = some "r-1";
    previous_status = held;
    reason = reason_booking_cancelled;
  };
}

abbrev steps : List (World (List Reservation) × Request BookingCancelledPayload)
steps =
    (quiet, reserve_request 900 (some "r-1") (reserve_command "k-1" "b-1"))
    ∷ (quiet, reserve_request 900 (some "r-2") (reserve_command "k-2" "b-2"))
    ∷ (quiet, confirm_request 1_200 "r-1")
    ∷ (quiet, cancelled_request 1_600 cancelled_envelope)
    ∷ (quiet, sweep_request (λ i. false) 10)
    ∷ []

abbrev alone : Calm (IsConsistent []) quiet
alone n db h = h

abbrev steps-Calm :
    All
      (λ (step : World (List Reservation) × Request BookingCancelledPayload).
        Calm (IsConsistent []) step.0)
      steps
steps-Calm = (alone, (alone, (alone, (alone, (alone, tt)))))

empty-IsConsistent : IsConsistent [] (start_of {Own = List Reservation} []).db
unfolding find_key
empty-IsConsistent = record {
  sound = tt;
  created = λ id. omega arith;
  released = λ id. omega arith;
  keys = λ key k e. absurd (ground arith);
}

no_double_booking_example : occupancy "court" 5_500 (serve_all some steps (start_of [])).db.own ≤ 1
no_double_booking_example =
    no_double_booking some steps (start_of []) "court" 5_500 steps-Calm empty-IsConsistent

-- Another replica's relay has published everything, long ago.
abbrev publish_all : List OutboxRow → List OutboxRow
publish_all [] = []
publish_all (r ∷ rows) = publish_at 7 r ∷ publish_all rows

abbrev relayed_world : World (List Reservation)
relayed_world = record quiet {
  calls = λ n. record {
    outcome = fine;
    elapsed = 1;
    others = λ db. record db { outbox = publish_all db.outbox };
  };
}

publish_all-SameFact : (rows : List OutboxRow) → Rows SameFact rows (publish_all rows)
publish_all-SameFact [] = tt
publish_all-SameFact (r ∷ rows) = (refl, publish_all-SameFact rows)

quiet-IsShared : IsShared {Raw = BookingCancelledPayload} some quiet
quiet-IsShared n db = untouched

relayed_world-IsShared : IsShared {Raw = BookingCancelledPayload} some relayed_world
relayed_world-IsShared n db =
    relayed db (publish_all db.outbox) (publish_all-SameFact db.outbox) untouched

abbrev settings : RelaySettings
settings = record {
  poll_interval = 10;
  batch_size = 10;
  max_attempts = 3;
  prune_after = 100;
  prune_interval = 10;
}

abbrev first_request : Request BookingCancelledPayload
first_request = reserve_request 900 (some "r-1") (reserve_command "k-1" "b-1")

-- A reservation is made, told, and cancelled when what told of it is gone.
abbrev lifetime : List (World (List Reservation) × Step BookingCancelledPayload)
lifetime =
    (quiet, ask first_request)
    ∷ (relayed_world, prune_outbox settings)
    ∷ (quiet, ask (cancelled_request 1_600 cancelled_envelope))
    ∷ []

abbrev at_end : Session (List Reservation) × List OutboxRow
at_end = take_steps some lifetime (start_of [], [])

events_exactly_once_example :
    (countb (is_event_of reservation_created_event "r-1") at_end.0.db.outbox
        + countb (is_event_of reservation_created_event "r-1") at_end.1
      ≡ countb (has_id "r-1") at_end.0.db.own)
    × (countb (is_event_of reservation_released_event "r-1") at_end.0.db.outbox
          + countb (is_event_of reservation_released_event "r-1") at_end.1
        ≡ countb (is_released_id "r-1") at_end.0.db.own)
events_exactly_once_example =
    events_exactly_once some lifetime (start_of []) "r-1"
      (quiet-IsShared, (relayed_world-IsShared, (quiet-IsShared, tt)))
      (record { own = refl; outbox = refl; keys = refl })
