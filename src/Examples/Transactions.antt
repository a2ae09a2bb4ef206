-- ===== src/Examples/Transactions.antt =====
-- A transaction that inserts a reservation, and a delivery that is repeated.
use wakewake.Prelude.Int.{pos}
use wakewake.Prelude.{◌+◌, ◌≡◌, refl, ◌≢◌, ◌⊎◌, Bool, true, false, Option, some, List, [], ◌∷◌}
use wakewake.Contracts.Events.{Envelope, BookingCancelledPayload, held, booking_cancelled_event}
use wakewake.Platform.Session.{ok, err, driver, Session, resumed}
use wakewake.Platform.Tx.{within_tx}
use wakewake.Platform.Inbox.{Handler, is_processed, process}
use wakewake.Platform.Atomicity.{within_tx_atomic}
use wakewake.Platform.Delivery.{process_atomic, process_duplicate, entered_session}
use wakewake.Availability.Reservation.{Reservation, Status, DomainError}
use wakewake.Availability.Store.{StoreAction, insert_tx}
use wakewake.Availability.Consumer.{handle_cancelled}
use wakewake.Examples.Worlds.{quiet, start_of}

abbrev pub reservation : Reservation
reservation = record {
  id = "r-1";
  resource_id = "court";
  booking_id = "b-1";
  starts_at = 5_000;
  ends_at = 6_000;
  status = Status.held;
  expires_at = some 2_000;
  released_reason = Option.none;
  created_at = 1_000;
  updated_at = 1_000;
}

abbrev body : StoreAction (Reservation × Bool)
body = insert_tx (record { key = "k-1"; fingerprint = "f" }) reservation 900

within_tx_atomic_example :
    ((within_tx body quiet (start_of [])).1.db ≡ (resumed quiet (start_of [])).db)
    ⊎ ((out : Reservation × Bool) × ((body quiet (resumed quiet (start_of []))).0 ≡ ok out)
        × ((within_tx body quiet (start_of [])).1.db
            ≡ (body quiet (resumed quiet (start_of []))).1.db))
within_tx_atomic_example = within_tx_atomic body quiet (start_of [])

abbrev pub envelope : Envelope BookingCancelledPayload
envelope = record {
  event = booking_cancelled_event;
  version = pos 1;
  id = "e-1";
  occurred_at = 1_500;
  correlation_id = "c-1";
  payload = record {
    booking_id = "b-1";
    customer_id = "ann";
    resource_id = "court";
    reservation_id = some "r-1";
    previous_status = held;
    reason = "customer_cancelled";
  };
}

abbrev handler : Envelope BookingCancelledPayload → StoreAction (Unit {0})
handler = handle_cancelled some 1_600

-- One reservation, and the event not handled yet, or handled.
abbrev before : Session (List Reservation)
before = start_of (reservation ∷ [])

abbrev after : Session (List Reservation)
after = record before {
  db = record before.db {
    processed =
        record { consumer = "availability"; event_id = "e-1"; event = booking_cancelled_event }
        ∷ [];
  };
}

process_atomic_example :
    ((process "availability" envelope handler quiet before).1.db ≡ (resumed quiet before).db)
    ⊎ ((is_processed "availability" "e-1" (resumed quiet before).db.processed ≡ false)
        × ((handler envelope quiet (entered_session "availability" envelope handler quiet before)).0
            ≡ ok tt)
        × ((process "availability" envelope handler quiet before).1.db
            ≡ (handler envelope quiet
                (entered_session "availability" envelope handler quiet before)).1.db))
process_atomic_example = process_atomic "availability" envelope handler quiet before

-- A handler that makes ten calls, and fails.
abbrev slow_handler : Handler DomainError (List Reservation) BookingCancelledPayload
slow_handler e w s = (err driver, record s { step = 10 + s.step })

process_duplicate_example :
    ((process "availability" envelope handler quiet after).1.db ≡ (resumed quiet after).db)
    × ((process "availability" envelope handler quiet after).0 ≢ ok true)
    × (process "availability" envelope handler quiet after
        ≡ process "availability" envelope slow_handler quiet after)
process_duplicate_example =
    process_duplicate "availability" envelope handler quiet after slow_handler refl
