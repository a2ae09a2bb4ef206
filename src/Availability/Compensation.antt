-- ===== src/Availability/Compensation.antt =====
-- The compensation of a cancelled booking (internal/events/bookingcancelled.go), and the reservations
-- of other bookings.
use wakewake.Prelude.{
  ◌≡◌, ◌≢◌, inl, inr, arith, String, ◌==◌, Bool, Option, some, List, eq_iff, Bool-cases,
}
use wakewake.Contracts.Events.{Time, Envelope, BookingCancelledPayload}
use wakewake.Platform.Session.{ok, World, Session, resumed}
use wakewake.Platform.Rules.{Result-cases}
use wakewake.Platform.Inbox.{process}
use wakewake.Platform.Delivery.{process_atomic, entered_session}
use wakewake.Availability.Reservation.{Reservation, Transition, release, reason_booking_cancelled}
use wakewake.Availability.Table.{find}
use wakewake.Availability.Rows.{find-id}
use wakewake.Availability.Store.{apply_tx}
use wakewake.Availability.Applied.{ApplyEffect, unchanged, written, apply_tx-ok, apply_tx-not_found}
use wakewake.Availability.Invariant.{IsLawful, release-IsLawful}
use wakewake.Availability.Consumer.{handle_cancelled, compensate}
use wakewake.Availability.Safety.{release-not_found, settle_not_found}

module _ (w : World (List Reservation)) (s : Session (List Reservation)) (id : String)
    (r : Reservation) (found : find id s.db.own ≡ some r) where
  applied-booking :
      (fn : Transition) (out : Reservation × Bool) (s' : Session (List Reservation))
      → IsLawful fn
      → ApplyEffect id fn out s s'
      → out.0.booking_id ≡ r.booking_id
  applied-booking fn out s' law (unchanged r' found' es next did same empty o kept) =
      ground (arith, found, found', o)
  applied-booking fn out s' law (written r' found' es next did flag u own keys counts) =
      let rid = find-id id s.db.own found' in
      let nid = law.id r' next es did in ground (arith, found, found', u.found, u.columns, rid, nid)

  compensation-foreign :
      (now : Time) (booking_id : String)
      → r.booking_id ≢ booking_id
      → (compensate now booking_id (some id) w s).0 ≡ ok tt
      → id ≡ ""
  compensation-foreign now booking_id foreign h =
      let fn = release reason_booking_cancelled now in
      elim (Result-cases (apply_tx id fn w s).0) [
        | inl (out, e) ↦
            let mine =
              applied-booking fn out _ (release-IsLawful reason_booking_cancelled now)
                (apply_tx-ok w s id fn out e) in
            ground (arith, e, mine, h, eq_iff id "", eq_iff out.0.booking_id booking_id)
        | inr (x, e) ↦ elim (Bool-cases (id == "")) [
          | inl q ↦ (eq_iff id "").0 q
          | inr q ↦
              let it =
                settle_not_found booking_id x w (apply_tx id fn w s).1 (ground (arith, h, e, q)) in
              let (gone, _) =
                apply_tx-not_found w s id fn (release-not_found now) (ground (arith, e, it)) in
              absurd (ground (arith, gone, found))
        ]
      ]

module _ {Raw : Type 0} (decode : Raw → Option BookingCancelledPayload) (now : Time)
    (e : Envelope Raw) (w : World (List Reservation)) (s : Session (List Reservation)) where
  -- A delivery whose payload names a reservation of another booking changes nothing, however the
  -- driver behaves.
  pub stray_compensation :
      (consumer id : String) (p : BookingCancelledPayload) (r : Reservation)
      → decode e.payload ≡ some p
      → p.reservation_id ≡ some id
      → id ≢ ""
      → find id (resumed w s).db.own ≡ some r
      → r.booking_id ≢ p.booking_id
      → (process consumer e (handle_cancelled decode now) w s).1.db ≡ (resumed w s).db
  unfolding handle_cancelled
  stray_compensation consumer id p r decoded named real found foreign =
      elim (process_atomic consumer e (handle_cancelled decode now) w s) [
        | inl same ↦ same
        | inr (_, done, _) ↦
            let s1 = entered_session consumer e (handle_cancelled decode now) w s in
            absurd (
              real (
                compensation-foreign w s1 id r found now p.booking_id foreign
                  (ground (arith, done, decoded, named))))
      ]
