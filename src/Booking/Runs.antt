-- ===== src/Booking/Runs.antt =====
-- Runs of the booking service's requests, in whatever worlds.
use wakewake.Prelude.{
  ◌+◌, ◌≤◌, ◌≡◌, inl, inr, arith, String, List, [], ◌∷◌, All, countb, Option-cases,
}
use wakewake.Contracts.Events.{
  Time, Envelope, booking_held_event, booking_confirmed_event, booking_cancelled_event,
}
use wakewake.Platform.Session.{Result, ok, World, Session}
use wakewake.Platform.Atomicity.{Calm}
use wakewake.Platform.Inbox.{process}
use wakewake.Platform.Delivery.{process_keeps}
use wakewake.Platform.Keyed.{Engine}
use wakewake.Booking.Lifecycle.{BookingError, Booking}
use wakewake.Booking.Service.{
  Remotes, confirm_on_payment, compensate_on_payment_failure, expire_hold,
}
use wakewake.Booking.Consumers.{handle_succeeded, handle_failed, handle_released}
use wakewake.Booking.Requests.{
  Decoders, Request, create_request, get_request, cancel_request, succeeded_request, failed_request,
  released_request, serve, serve_all, consumer_name,
}
use wakewake.Booking.Invariant.{
  IsConsistent, has_id, is_held_id, is_confirmed_id, is_cancelled_id, stated,
}
use wakewake.Booking.Safety.{
  create_keeps, get_keeps, cancel_keeps, move_keeps, confirm_on_payment-IsLawful,
  compensate_on_payment_failure-IsLawful, expire_hold-IsLawful,
}

module _ {Raw : Type 0} (g : Engine) (decoders : Decoders Raw) (w : World (List Booking)) where
  succeeded_keeps :
      (remotes : Remotes) (now : Time) (e : Envelope Raw) (s : Session (List Booking))
      → IsConsistent g s.db
      → (handle_succeeded g remotes decoders.succeeded now e w s).0 ≡ ok tt
      → IsConsistent g (handle_succeeded g remotes decoders.succeeded now e w s).1.db
  unfolding handle_succeeded
  succeeded_keeps remotes now e s h r = elim (Option-cases (decoders.succeeded e.payload)) [
    | inl q ↦ absurd (ground (arith, q, r))
    | inr (p, q) ↦
        let law = confirm_on_payment-IsLawful remotes p.payment_id now in
        ground (
          arith,
          h,
          move_keeps g w s h p.booking_id (confirm_on_payment remotes p.payment_id now) law,
        )
  ]

  failed_keeps :
      (now : Time) (e : Envelope Raw) (s : Session (List Booking))
      → IsConsistent g s.db
      → (handle_failed g decoders.failed now e w s).0 ≡ ok tt
      → IsConsistent g (handle_failed g decoders.failed now e w s).1.db
  unfolding handle_failed
  failed_keeps now e s h r = elim (Option-cases (decoders.failed e.payload)) [
    | inl q ↦ absurd (ground (arith, q, r))
    | inr (p, q) ↦
        let law = compensate_on_payment_failure-IsLawful now in
        ground (arith, h, move_keeps g w s h p.booking_id (compensate_on_payment_failure now) law)
  ]

  released_keeps :
      (now : Time) (e : Envelope Raw) (s : Session (List Booking))
      → IsConsistent g s.db
      → (handle_released g decoders.released now e w s).0 ≡ ok tt
      → IsConsistent g (handle_released g decoders.released now e w s).1.db
  unfolding handle_released
  released_keeps now e s h r = elim (Option-cases (decoders.released e.payload)) [
    | inl q ↦ absurd (ground (arith, q, r))
    | inr (p, q) ↦
        ground
          (arith, h, move_keeps g w s h p.booking_id (expire_hold now) (expire_hold-IsLawful now))
  ]

module _ {Raw : Type 0} (g : Engine) (decoders : Decoders Raw) where
  delivered_keeps :
      (w : World (List Booking)) (s : Session (List Booking)) (e : Envelope Raw)
      (handler : Envelope Raw
        → World (List Booking)
        → Session (List Booking)
        → Result BookingError (Unit {0}) × Session (List Booking))
      → Calm (IsConsistent g) w
      → ((s1 : Session (List Booking))
          → IsConsistent g s1.db
          → (handler e w s1).0 ≡ ok tt
          → IsConsistent g (handler e w s1).1.db)
      → IsConsistent g s.db
      → IsConsistent g (process consumer_name e handler w s).1.db
  delivered_keeps w s e handler calm keeps h =
      process_keeps consumer_name e handler w s (IsConsistent g) calm
        (λ db rows p. record {
          passed = p.passed;
          unique = p.unique;
          held = p.held;
          cancelled = p.cancelled;
          confirmed = p.confirmed;
          once = p.once;
          keys = p.keys;
        })
        (λ p r. keeps _ p r) h

  -- One request, however the driver and the other services behave, keeps a consistent database
  -- consistent, if the other connections do.
  pub serve_keeps :
      (q : Request Raw) (w : World (List Booking)) (s : Session (List Booking))
      → Calm (IsConsistent g) w
      → IsConsistent g s.db
      → IsConsistent g (serve g decoders q w s).db
  unfolding serve
  serve_keeps (create_request remotes now now' new_id cmd) w s calm h =
      create_keeps g w calm s h remotes now now' new_id cmd
  serve_keeps (get_request id customer_id) w s calm h = get_keeps g w calm s h id customer_id
  serve_keeps (cancel_request now id customer_id remark) w s calm h =
      cancel_keeps g w calm s h now id customer_id remark
  serve_keeps (succeeded_request remotes now e) w s calm h =
      delivered_keeps w s e (handle_succeeded g remotes decoders.succeeded now) calm
        (λ s1. succeeded_keeps g decoders w remotes now e s1) h
  serve_keeps (failed_request now e) w s calm h =
      delivered_keeps w s e (handle_failed g decoders.failed now) calm
        (λ s1. failed_keeps g decoders w now e s1) h
  serve_keeps (released_request now e) w s calm h =
      delivered_keeps w s e (handle_released g decoders.released now) calm
        (λ s1. released_keeps g decoders w now e s1) h

module _ {Raw : Type 0} (g : Engine) (decoders : Decoders Raw) where
  pub serve_all_keeps :
      (run : List (World (List Booking) × Request Raw)) (s : Session (List Booking))
      → All (λ step. Calm (IsConsistent g) step.0) run
      → IsConsistent g s.db
      → IsConsistent g (serve_all g decoders run s).db
  unfolding serve_all
  serve_all_keeps [] s calm h = h
  serve_all_keeps ((w, q) ∷ rest) s calm h =
      serve_all_keeps rest (serve g decoders q w s) calm.1 (serve_keeps g decoders q w s calm.0 h)

  -- After any run of requests from a consistent database, each in a world whose other connections
  -- keep the database consistent, none of them pruning its outbox, and however the driver and the
  -- other services behave, the outbox states a booking's hold, confirmation and cancellation at most once each; it states the
  -- cancellation exactly for a booking that is cancelled, and the confirmation for one that is
  -- confirmed, and not for one that is still held.
  pub booking_told_once :
      (run : List (World (List Booking) × Request Raw)) (s : Session (List Booking)) (id : String)
      → All (λ step. Calm (IsConsistent g) step.0) run
      → IsConsistent g s.db
      → let db = (serve_all g decoders run s).db in
        (stated booking_held_event id db ≡ countb (has_id id) db.own)
        × (stated booking_held_event id db ≤ 1)
        × (stated booking_cancelled_event id db ≡ countb (is_cancelled_id id) db.own)
        × (countb (is_confirmed_id id) db.own ≤ stated booking_confirmed_event id db)
        × (stated booking_confirmed_event id db + countb (is_held_id id) db.own ≤ 1)
  booking_told_once run s id calm h =
      let kept = serve_all_keeps run s calm h in
      (
        kept.held id,
        ground (arith, kept.held id, kept.unique id),
        kept.cancelled id,
        kept.confirmed id,
        ground (arith, kept.once id, kept.unique id),
      )
