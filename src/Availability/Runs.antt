-- ===== src/Availability/Runs.antt =====
-- Runs of the availability service's requests, in whatever worlds.
use wakewake.Prelude.{◌≤◌, String, Option, List, [], ◌∷◌, All}
use wakewake.Contracts.Events.{Time, BookingCancelledPayload}
use wakewake.Platform.Session.{OutboxRow, World, Session}
use wakewake.Platform.Atomicity.{Calm}
use wakewake.Availability.Reservation.{Reservation}
use wakewake.Availability.Rows.{occupancy, occupancy-le_one}
use wakewake.Availability.Requests.{
  Request, reserve_request, get_request, confirm_request, release_request, busy_request,
  sweep_request, cancelled_request, serve, serve_all,
}
use wakewake.Availability.Invariant.{IsConsistent}
use wakewake.Availability.Safety.{
  reserve_keeps, get_keeps, confirm_keeps, release_keeps, busy_keeps, sweep_keeps, cancelled_keeps,
}

module _ {gone : List OutboxRow} {Raw : Type 0}
    (decode : Raw → Option BookingCancelledPayload) where
  -- One request, however the driver behaves, keeps a consistent database consistent, if the other
  -- connections do.
  pub serve_keeps :
      (q : Request Raw) (w : World (List Reservation)) (s : Session (List Reservation))
      → Calm (IsConsistent gone) w
      → IsConsistent gone s.db
      → IsConsistent gone (serve decode q w s).db
  unfolding serve
  serve_keeps (reserve_request ttl new_id cmd) w s calm h = reserve_keeps w calm s h ttl new_id cmd
  serve_keeps (get_request id) w s calm h = get_keeps w calm s h id
  serve_keeps (confirm_request now id) w s calm h = confirm_keeps w calm s h now id
  serve_keeps (release_request now id reason) w s calm h = release_keeps w calm s h now id reason
  serve_keeps (busy_request resource_id from to) w s calm h =
      busy_keeps w calm s h resource_id from to
  serve_keeps (sweep_request stopped limit) w s calm h = sweep_keeps w calm stopped limit s h
  serve_keeps (cancelled_request now e) w s calm h = cancelled_keeps w calm decode now e s h

  pub serve_all_keeps :
      (run : List (World (List Reservation) × Request Raw)) (s : Session (List Reservation))
      → All (λ step. Calm (IsConsistent gone) step.0) run
      → IsConsistent gone s.db
      → IsConsistent gone (serve_all decode run s).db
  unfolding serve_all
  serve_all_keeps [] s calm h = h
  serve_all_keeps ((w, q) ∷ rest) s calm h =
      serve_all_keeps rest (serve decode q w s) calm.1 (serve_keeps q w s calm.0 h)

  -- After any run of requests from a consistent database, each in a world whose other connections
  -- keep the database consistent, and however the driver behaves, at most one reservation that is
  -- not released holds a resource at an instant.
  pub no_double_booking :
      (run : List (World (List Reservation) × Request Raw)) (s : Session (List Reservation))
      (resource_id : String) (t : Time)
      → All (λ step. Calm (IsConsistent gone) step.0) run
      → IsConsistent gone s.db
      → occupancy resource_id t (serve_all decode run s).db.own ≤ 1
  no_double_booking run s resource_id t calm h =
      occupancy-le_one resource_id t (serve_all decode run s).db.own
        (serve_all_keeps run s calm h).sound
