-- ===== src/Availability/Requests.antt =====
-- Everything that the availability service does, as one type of request: its HTTP operations
-- (services/availability/internal/api), the sweep of expired holds (internal/sweeper), and the
-- delivery of a BookingCancelled (internal/events); and a run of requests.
use wakewake.Prelude.{ℕ, String, Bool, Option, List, [], ◌∷◌}
use wakewake.Contracts.Events.{Time, Envelope, BookingCancelledPayload}
use wakewake.Platform.Session.{World, Session}
use wakewake.Platform.Inbox.{process}
use wakewake.Availability.Reservation.{Reservation}
use wakewake.Availability.Service.{
  ReserveCommand, reserve, get, confirm_reservation, release_reservation, busy_windows, sweep,
}
use wakewake.Availability.Consumer.{handle_cancelled}

abbrev pub consumer_name : String
consumer_name = "availability"

pub data Request (Raw : Type 0) : Type 0 where
  reserve_request : (hold_ttl : ℕ) → (new_id : Option String) → ReserveCommand → Request Raw
  get_request : (id : String) → Request Raw
  confirm_request : (now : Time) → (id : String) → Request Raw
  release_request : (now : Time) → (id reason : String) → Request Raw
  busy_request : (resource_id : String) → (from to : Time) → Request Raw
  sweep_request : (stopped : ℕ → Bool) → (limit : ℕ) → Request Raw
  cancelled_request : (now : Time) → Envelope Raw → Request Raw

module _ {Raw : Type 0} (decode : Raw → Option BookingCancelledPayload) where
  unfoldable pub serve :
      Request Raw
      → World (List Reservation)
      → Session (List Reservation)
      → Session (List Reservation)
  serve (reserve_request ttl new_id cmd) w s = (reserve ttl new_id cmd w s).1
  serve (get_request id) w s = (get id w s).1
  serve (confirm_request now id) w s = (confirm_reservation now id w s).1
  serve (release_request now id reason) w s = (release_reservation now id reason w s).1
  serve (busy_request resource_id from to) w s = (busy_windows resource_id from to w s).1
  serve (sweep_request stopped limit) w s = (sweep stopped limit w s).1
  serve (cancelled_request now e) w s =
      (process consumer_name e (handle_cancelled decode now) w s).1

  -- A run: each request in a world of its own.
  unfoldable pub serve_all :
      List (World (List Reservation) × Request Raw)
      → Session (List Reservation)
      → Session (List Reservation)
  serve_all [] s = s
  serve_all ((w, q) ∷ rest) s = serve_all rest (serve q w s)
