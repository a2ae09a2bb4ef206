-- ===== src/Booking/Consumers.antt =====
-- services/booking/internal/events: payment.go and reservation.go, the consumers that move the saga.
-- Each `decode` is what `events.PayloadOf` (encoding/json) makes of the raw payload.
use wakewake.Prelude.{String, ◌==◌, Bool, not, Option, none, some, if◌then◌else◌}
use wakewake.Contracts.Events.{
  Time, Envelope, PaymentSucceededPayload, PaymentFailedPayload, ReservationReleasedPayload,
  payment_succeeded_event, payment_failed_event, reservation_released_event,
}
use wakewake.Platform.Session.{domain, other, Result, ok, err, pure, fail}
use wakewake.Platform.Keyed.{Engine}
use wakewake.Booking.Lifecycle.{BookingError, not_found, Booking, Transition, reason_hold_expired}
use wakewake.Booking.Store.{StoreAction, apply_tx}
use wakewake.Booking.Service.{
  Remotes, confirm_on_payment, compensate_on_payment_failure, expire_hold,
}

-- After the transition: an unknown booking is accepted, so that the event's row commits.
abbrev pub settle : Result BookingError (Booking × Bool) → StoreAction (Unit {0})
settle (ok _) = pure tt
settle (err (domain not_found)) = pure tt
settle (err e) = fail e

unfoldable pub move : Engine → String → Transition → StoreAction (Unit {0})
move g id fn w s = let (r, s') = apply_tx g id fn w s in settle r w s'

abbrev pub handle_succeeded_payload :
    Engine → Remotes → Time → Option PaymentSucceededPayload → StoreAction (Unit {0})
handle_succeeded_payload g remotes now none = fail other
handle_succeeded_payload g remotes now (some p) =
    move g p.booking_id (confirm_on_payment remotes p.payment_id now)

abbrev pub handle_failed_payload :
    Engine → Time → Option PaymentFailedPayload → StoreAction (Unit {0})
handle_failed_payload g now none = fail other
handle_failed_payload g now (some p) = move g p.booking_id (compensate_on_payment_failure now)

abbrev pub handle_released_payload :
    Engine → Time → Option ReservationReleasedPayload → StoreAction (Unit {0})
handle_released_payload g now none = fail other
handle_released_payload g now (some p) =
    if not (p.reason == reason_hold_expired) then pure tt else move g p.booking_id (expire_hold now)

module _ {Raw : Type 0} where
  -- `PaymentSucceededHandler.Handle`
  unfoldable pub handle_succeeded :
      Engine
      → Remotes
      → (Raw → Option PaymentSucceededPayload)
      → Time
      → Envelope Raw
      → StoreAction (Unit {0})
  handle_succeeded g remotes decode now e =
      if not (e.event == payment_succeeded_event)
      then fail other
      else handle_succeeded_payload g remotes now (decode e.payload)

  -- `PaymentFailedHandler.Handle`
  unfoldable pub handle_failed :
      Engine → (Raw → Option PaymentFailedPayload) → Time → Envelope Raw → StoreAction (Unit {0})
  handle_failed g decode now e =
      if not (e.event == payment_failed_event)
      then fail other
      else handle_failed_payload g now (decode e.payload)

  -- `ReservationReleasedHandler.Handle`
  unfoldable pub handle_released :
      Engine
      → (Raw → Option ReservationReleasedPayload)
      → Time
      → Envelope Raw
      → StoreAction (Unit {0})
  handle_released g decode now e =
      if not (e.event == reservation_released_event)
      then fail other
      else handle_released_payload g now (decode e.payload)
