-- ===== src/Payment/Consumer.antt =====
-- services/payment/internal/events/bookingheld.go: the context of a booking that is held. `decode` is
-- what `events.PayloadOf` (encoding/json) makes of the raw payload.
use wakewake.Prelude.{◌==◌, not, Option, none, some, if◌then◌else◌}
use wakewake.Contracts.Events.{Envelope, BookingHeldPayload, booking_held_event}
use wakewake.Platform.Session.{other, fail}
use wakewake.Platform.Keyed.{Engine}
use wakewake.Payment.Store.{StoreAction, upsert_booking_context}

abbrev pub handle_payload : Engine → Option BookingHeldPayload → StoreAction (Unit {0})
handle_payload g none = fail other
handle_payload g (some p) = upsert_booking_context g (record {
  booking_id = p.booking_id;
  customer_id = p.customer_id;
  amount_minor = p.total_minor;
  currency = p.currency;
  hold_expires_at = p.hold_expires_at;
})

unfoldable pub handle_held :
    {Raw : Type 0}
    → Engine
    → (Raw → Option BookingHeldPayload)
    → Envelope Raw
    → StoreAction (Unit {0})
handle_held g decode e =
    if not (e.event == booking_held_event) then fail other else handle_payload g (decode e.payload)
