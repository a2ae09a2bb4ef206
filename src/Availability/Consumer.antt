-- ===== src/Availability/Consumer.antt =====
-- services/availability/internal/events/bookingcancelled.go: the compensation of a cancelled booking.
-- `decode` is what `events.PayloadOf` (encoding/json) makes of the raw payload.
use wakewake.Prelude.{String, ◌==◌, Bool, not, Option, none, some, if◌then◌else◌}
use wakewake.Contracts.Events.{Time, Envelope, BookingCancelledPayload, booking_cancelled_event}
use wakewake.Platform.Session.{domain, other, Result, ok, err, pure, fail}
use wakewake.Availability.Reservation.{DomainError, not_found, Reservation}
use wakewake.Availability.Store.{StoreAction, apply_tx}
use wakewake.Availability.Service.{compensate_cancelled_booking}

-- After the transition: the reservation must be the cancelled booking's own.
abbrev pub check_owner : String → Reservation × Bool → StoreAction (Unit {0})
check_owner booking_id (r, changed) = if r.booking_id == booking_id then pure tt else fail other

-- A reservation that does not exist owes nothing.
abbrev pub settle_compensation :
    String → Result DomainError (Reservation × Bool) → StoreAction (Unit {0})
settle_compensation booking_id (ok done) = check_owner booking_id done
settle_compensation booking_id (err (domain not_found)) = pure tt
settle_compensation booking_id (err e) = fail e

abbrev pub compensate : Time → String → Option String → StoreAction (Unit {0})
compensate now booking_id none = pure tt
compensate now booking_id (some reservation_id) = if reservation_id == "" then pure tt else λ w s.
    let (r, s') = apply_tx reservation_id (compensate_cancelled_booking now) w s in
    settle_compensation booking_id r w s'

abbrev pub handle_payload : Time → Option BookingCancelledPayload → StoreAction (Unit {0})
handle_payload now none = fail other
handle_payload now (some p) = compensate now p.booking_id p.reservation_id

unfoldable pub handle_cancelled :
    {Raw : Type 0}
    → (Raw → Option BookingCancelledPayload)
    → Time
    → Envelope Raw
    → StoreAction (Unit {0})
handle_cancelled decode now e =
    if not (e.event == booking_cancelled_event)
    then fail other
    else handle_payload now (decode e.payload)
