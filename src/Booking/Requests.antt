-- ===== src/Booking/Requests.antt =====
-- Everything that the booking service does to its database, as one type of request: the HTTP
-- operations (services/booking/internal/api) and its three consumers; and a run of requests.
use wakewake.Prelude.{String, Option, List, [], ◌∷◌}
use wakewake.Contracts.Events.{
  Time, Envelope, PaymentSucceededPayload, PaymentFailedPayload, ReservationReleasedPayload,
}
use wakewake.Platform.Session.{World, Session}
use wakewake.Platform.Inbox.{process}
use wakewake.Platform.Keyed.{Engine}
use wakewake.Booking.Lifecycle.{Booking}
use wakewake.Booking.Service.{Remotes, CreateCommand, create_booking, get, cancel_booking}
use wakewake.Booking.Consumers.{handle_succeeded, handle_failed, handle_released}

abbrev pub consumer_name : String
consumer_name = "booking"

-- What `events.PayloadOf` makes of a raw payload, by the type that the handler asks for.
pub record Decoders (Raw : Type 0) : Type 0 where
  pub succeeded : Raw → Option PaymentSucceededPayload
  pub failed : Raw → Option PaymentFailedPayload
  pub released : Raw → Option ReservationReleasedPayload

pub data Request (Raw : Type 0) : Type 0 where
  create_request :
      Remotes → (now now' : Time) → (new_id : Option String) → CreateCommand → Request Raw
  get_request : (id customer_id : String) → Request Raw
  cancel_request : (now : Time) → (id customer_id : String) → (remark : Option String) → Request Raw
  succeeded_request : Remotes → (now : Time) → Envelope Raw → Request Raw
  failed_request : (now : Time) → Envelope Raw → Request Raw
  released_request : (now : Time) → Envelope Raw → Request Raw

module _ {Raw : Type 0} (g : Engine) (decoders : Decoders Raw) where
  unfoldable pub serve :
      Request Raw → World (List Booking) → Session (List Booking) → Session (List Booking)
  serve (create_request remotes now now' new_id cmd) w s =
      (create_booking g remotes now now' new_id cmd w s).1
  serve (get_request id customer_id) w s = (get id customer_id w s).1
  serve (cancel_request now id customer_id remark) w s =
      (cancel_booking g now id customer_id remark w s).1
  serve (succeeded_request remotes now e) w s =
      (process consumer_name e (handle_succeeded g remotes decoders.succeeded now) w s).1
  serve (failed_request now e) w s =
      (process consumer_name e (handle_failed g decoders.failed now) w s).1
  serve (released_request now e) w s =
      (process consumer_name e (handle_released g decoders.released now) w s).1

  -- A run: each request in a world of its own.
  unfoldable pub serve_all :
      List (World (List Booking) × Request Raw) → Session (List Booking) → Session (List Booking)
  serve_all [] s = s
  serve_all ((w, q) ∷ rest) s = serve_all rest (serve q w s)
