-- ===== src/Availability/Safety.antt =====
-- The operations of the availability service (internal/domain/service.go, internal/infra/store.go and
-- internal/events) and the invariant of its database.
use wakewake.Prelude.{
  Option-cases, ℕ, suc, ◌≡◌, sym, ◌≢◌, inl, inr, arith, String, Bool, Option, List, [], ◌∷◌, subst,
}
use wakewake.Contracts.Events.{Time, Envelope, BookingCancelledPayload}
use wakewake.Platform.Session.{OutboxRow, Error, domain, ok, err, World, Session, resumed, query}
use wakewake.Platform.Atomicity.{Calm, within_tx_keeps}
use wakewake.Platform.Inbox.{process}
use wakewake.Platform.Delivery.{process_keeps}
use wakewake.Platform.Rules.{Result-cases}
use wakewake.Platform.Tx.{within_tx}
use wakewake.Availability.Reservation.{
  Reservation, Transition, confirm, release, release_if_expired, new_reservation,
  reason_booking_cancelled, not_found, DomainError,
}
use wakewake.Availability.Store.{
  StoreAction, Claim, insert_tx, insert, by_id, apply_tx, apply, busy, clock, expired_holds,
}
use wakewake.Availability.Effects.{insert_tx-ok}
use wakewake.Availability.Applied.{apply_tx-ok, apply_tx-not_found}
use wakewake.Availability.Service.{
  ReserveCommand, generated, Swept, tally, reserve, get, confirm_reservation, release_reservation,
  busy_windows, sweep_from, sweep, compensate_cancelled_booking,
}
use wakewake.Availability.Consumer.{handle_cancelled, settle_compensation}
use wakewake.Availability.Requests.{consumer_name}
use wakewake.Availability.Invariant.{
  IsConsistent, IsLawful, confirm-IsLawful, release-IsLawful, release_if_expired-IsLawful,
  InsertEffect-IsConsistent, ApplyEffect-IsConsistent,
}

pub release-not_found :
    (now : Time) (r : Reservation) → release reason_booking_cancelled now r ≢ err (domain not_found)
unfolding release
release-not_found now r h = ground arith

pub settle_not_found :
    (booking_id : String) (x : Error DomainError) (w : World (List Reservation))
    (s : Session (List Reservation))
    → (settle_compensation booking_id (err x) w s).0 ≡ ok tt
    → x ≡ domain not_found
settle_not_found booking_id x w s h = ground arith

-- The compensation of a cancelled booking that names a reservation.
abbrev compensation : Time → String → String → StoreAction (Unit {0})
compensation now id booking_id w s =
    let (r, s') = apply_tx id (compensate_cancelled_booking now) w s in
    settle_compensation booking_id r w s'

module _ {gone : List OutboxRow} (w : World (List Reservation)) (calm : Calm (IsConsistent gone) w)
    (s : Session (List Reservation)) (h : IsConsistent gone s.db) where
  insert-db :
      (c : Claim) (r : Reservation) (ttl : ℕ)
      → (insert c r ttl w s).1.db ≡ (within_tx (insert_tx c r ttl) w s).1.db
  unfolding insert
  insert-db c r ttl = ground arith

  insert_keeps :
      (c : Claim) (r : Reservation) (ttl : ℕ) → IsConsistent gone (insert c r ttl w s).1.db
  insert_keeps c r ttl = subst (IsConsistent gone) (sym (insert-db c r ttl)) (
      within_tx_keeps (insert_tx c r ttl) w s (IsConsistent gone) calm
        (λ out p e.
          InsertEffect-IsConsistent _ _ c r ttl out (insert_tx-ok w (resumed w s) c r ttl out e) p)
        h)

  apply-db :
      (id : String) (fn : Transition)
      → (apply id fn w s).1.db ≡ (within_tx (apply_tx id fn) w s).1.db
  unfolding apply
  apply-db id fn = ground arith

  apply_keeps :
      (id : String) (fn : Transition) → IsLawful fn → IsConsistent gone (apply id fn w s).1.db
  apply_keeps id fn law = subst (IsConsistent gone) (sym (apply-db id fn)) (
      within_tx_keeps (apply_tx id fn) w s (IsConsistent gone) calm
        (λ out p e.
          ApplyEffect-IsConsistent _ _ id fn out law (apply_tx-ok w (resumed w s) id fn out e) p)
        h)

  resumed_keeps : IsConsistent gone (resumed w s).db
  resumed_keeps = calm s.step s.db h

  pub reserve_keeps :
      (ttl : ℕ) (new_id : Option String) (cmd : ReserveCommand)
      → IsConsistent gone (reserve ttl new_id cmd w s).1.db
  unfolding reserve
  reserve_keeps ttl new_id cmd = elim (Result-cases (generated new_id)) [
    | inr (x, e) ↦ ground (arith, h)
    | inl (id, e) ↦
        elim (Result-cases
          (new_reservation id cmd.resource_id cmd.booking_id cmd.starts_at cmd.ends_at)) [
            | inr (x, e') ↦ ground (arith, h)
            | inl (r, e') ↦ ground (arith, insert_keeps cmd.idempotency r ttl)
          ]
  ]

  pub release_keeps :
      (now : Time) (id reason : String)
      → IsConsistent gone (release_reservation now id reason w s).1.db
  unfolding release_reservation
  release_keeps now id reason =
      ground (arith, apply_keeps id (release reason now) (release-IsLawful reason now))

  pub confirm_keeps :
      (now : Time) (id : String) → IsConsistent gone (confirm_reservation now id w s).1.db
  unfolding confirm_reservation
  confirm_keeps now id = ground (arith, apply_keeps id (confirm now) (confirm-IsLawful now))

  pub get_keeps : (id : String) → IsConsistent gone (get id w s).1.db
  unfolding get by_id query
  get_keeps id = ground (arith, resumed_keeps)

  pub busy_keeps :
      (resource_id : String) (from to : Time)
      → IsConsistent gone (busy_windows resource_id from to w s).1.db
  unfolding busy_windows busy query
  busy_keeps resource_id from to = ground (arith, resumed_keeps)

  compensation_keeps :
      (now : Time) (id booking_id : String)
      → (compensation now id booking_id w s).0 ≡ ok tt
      → IsConsistent gone (compensation now id booking_id w s).1.db
  compensation_keeps now id booking_id r =
      let fn = release reason_booking_cancelled now in
      elim (Result-cases (apply_tx id fn w s).0) [
        | inl (out, e) ↦
            let kept =
              ApplyEffect-IsConsistent s _ id fn out (release-IsLawful reason_booking_cancelled now)
                (apply_tx-ok w s id fn out e) h in
            ground (arith, kept)
        | inr (x, e) ↦
            let it =
              settle_not_found booking_id x w (apply_tx id fn w s).1 (ground (arith, r, e)) in
            let (_, same) =
              apply_tx-not_found w s id fn (release-not_found now) (ground (arith, e, it)) in
            ground (arith, e, it, same, h)
      ]

  handled_keeps :
      {Raw : Type 0} (decode : Raw → Option BookingCancelledPayload) (now : Time) (e : Envelope Raw)
      → (handle_cancelled decode now e w s).0 ≡ ok tt
      → IsConsistent gone (handle_cancelled decode now e w s).1.db
  unfolding handle_cancelled
  handled_keeps decode now e r = elim (Option-cases (decode e.payload)) [
    | inl none_ ↦ absurd (ground (arith, none_, r))
    | inr (p, e') ↦ elim (Option-cases p.reservation_id) [
      | inl q ↦ ground (arith, h)
      | inr (id, q) ↦ ground (arith, h, compensation_keeps now id p.booking_id)
    ]
  ]

module _ {gone : List OutboxRow} (w : World (List Reservation))
    (calm : Calm (IsConsistent gone) w) where
  sweep_from_keeps :
      (stopped : ℕ → Bool) (as_of : Time) (i : ℕ) (ids : List String) (t : Swept)
      (s : Session (List Reservation))
      → IsConsistent gone s.db
      → IsConsistent gone (sweep_from stopped as_of i ids t w s).1.db
  unfolding sweep_from
  sweep_from_keeps stopped as_of i [] t s h = h
  sweep_from_keeps stopped as_of i (id ∷ ids) t s h =
      let fn = release_if_expired as_of in
      let (r, s') = apply id fn w s in
      let kept = apply_keeps w calm s h id fn (release_if_expired-IsLawful as_of) in
      ground (arith, h, sweep_from_keeps stopped as_of (suc i) ids (tally r t) s' kept)

  clock-run : (s : Session (List Reservation)) → (clock w s).1 ≡ resumed w s
  unfolding clock query
  clock-run s = ground arith

  holds-run :
      (limit : ℕ) (s : Session (List Reservation)) → (expired_holds limit w s).1 ≡ resumed w s
  unfolding expired_holds query
  holds-run limit s = ground arith

  pub sweep_keeps :
      (stopped : ℕ → Bool) (limit : ℕ) (s : Session (List Reservation))
      → IsConsistent gone s.db
      → IsConsistent gone (sweep stopped limit w s).1.db
  unfolding sweep
  sweep_keeps stopped limit s h =
      let s1 = (clock w s).1 in
      let s2 = (expired_holds limit w s1).1 in
      let h1 : IsConsistent gone s1.db = rw (clock-run s) (resumed_keeps w calm s h) in
      let h2 : IsConsistent gone s2.db = rw (holds-run limit s1) (resumed_keeps w calm s1 h1) in
      elim (Result-cases (clock w s).0) [
        | inr (x, e) ↦ ground (arith, h1)
        | inl (as_of, e) ↦ elim (Result-cases (expired_holds limit w s1).0) [
          | inr (x, e') ↦ ground (arith, h2)
          | inl (ids, e') ↦ ground (
            arith,
            sweep_from_keeps stopped as_of 0 ids (record { released = 0; failures = [] }) s2 h2,
          )
        ]
      ]

  pub cancelled_keeps :
      {Raw : Type 0} (decode : Raw → Option BookingCancelledPayload) (now : Time) (e : Envelope Raw)
      (s : Session (List Reservation))
      → IsConsistent gone s.db
      → IsConsistent gone (process consumer_name e (handle_cancelled decode now) w s).1.db
  cancelled_keeps decode now e s h =
      process_keeps consumer_name e (handle_cancelled decode now) w s (IsConsistent gone) calm
        (λ db rows p. record {
          sound = p.sound;
          created = p.created;
          released = p.released;
          keys = p.keys;
        })
        (λ p r. handled_keeps w calm _ p decode now e r) h
