-- ===== src/Booking/Remote.antt =====
-- services/booking's client against services/availability's API: what a caller reads off the other
-- service's answer.
use wakewake.Prelude.{
  ℕ, ◌+◌, ◌<◌, ◌≡◌, ◌≢◌, refl, subst, arith, String, ◌==◌, Bool, true, false, Option, none, some,
  List,
}
use wakewake.Contracts.Events.{Time}
use wakewake.Platform.Session.{
  domain, pg, no_rows, driver, key_reuse, other, Result, ok, err, World, Session, resumed,
}
use wakewake.Platform.Idempotency.{find_key}
use wakewake.Platform.Http.{Reply, problem, validate_idempotency_key}
use wakewake.Availability.Reservation as Av
use wakewake.Availability.Table.{find, is_excluded, held_row}
use wakewake.Availability.Answers.{IsFine, insert_taken}
use wakewake.Availability.Service.{reserve}
use wakewake.Availability.Store.{Claim}
use wakewake.Availability.Api.{
  ReserveBody, answer, create_problem, confirm_problem, to_api, create_reservation,
}
use wakewake.Booking.Lifecycle.{
  BookingError, slot_unavailable, reservation_not_found, reservation_released,
  idempotency_key_reuse, Reservation,
}
use wakewake.Booking.Clients.{unavailable, to_reservation, read_hold, read_confirm}

-- What a hold should come to, by what Availability's Reserve came to: a hold that has no expiry of
-- its own lasts for the fallback from now.
abbrev pub hold_outcome :
    Time → ℕ → Result Av.DomainError Av.Reservation → Result BookingError Reservation
hold_outcome now fallback (ok r) = ok (record {
  id = r.id;
  booking_id = r.booking_id;
  expires_at = elim r.expires_at [ none ↦ now + fallback | some t ↦ t ];
})
hold_outcome now fallback (err (domain Av.slot_unavailable)) = err (domain slot_unavailable)
hold_outcome now fallback (err (domain Av.idempotency_key_reuse)) =
    err (domain idempotency_key_reuse)
hold_outcome now fallback (err (domain Av.invalid_time_window)) = err other
hold_outcome now fallback (err (domain Av.missing_identifier)) = err other
hold_outcome now fallback (err e) = unavailable

-- What a confirmation should come to, by what Availability's Confirm came to.
abbrev pub confirm_outcome : Result Av.DomainError Av.Reservation → Result BookingError (Unit {0})
confirm_outcome (ok r) = ok tt
confirm_outcome (err (domain Av.not_found)) = err (domain reservation_not_found)
confirm_outcome (err (domain Av.already_released)) = err (domain reservation_released)
confirm_outcome (err e) = unavailable

required : "is required" == "" ≡ false
required = refl

key-ne_empty : (key : String) → validate_idempotency_key key == "" ≡ true → key ≢ ""
unfolding validate_idempotency_key
key-ne_empty key usable empty =
    let u : validate_idempotency_key "" == "" ≡ true =
      subst (λ k. validate_idempotency_key k == "" ≡ true) empty usable in
    absurd (ground (arith, u, required))

-- A reservation that is made has a window that is not empty.
window :
    (id resource_id booking_id : String) (starts_at ends_at : Time) {r : Av.Reservation}
    → Av.new_reservation id resource_id booking_id starts_at ends_at ≡ ok r
    → r.starts_at < r.ends_at
unfolding Av.new_reservation
window id resource_id booking_id starts_at ends_at made = ground (arith, made)

module _ (is_uuid : String → Bool) where
  -- Over the API, for every result of Reserve, if the ids of the row are uuids: a reservation comes
  -- to the caller as the hold of its own id and booking, until its own expiry, or for the fallback
  -- from now where it has none; a slot that is taken and a key that is used again come as such, a
  -- window or an identifier that is refused as an unexpected answer, all else as unavailable.
  pub hold_reads :
      (now : Time) (fallback : ℕ) (out : Result Av.DomainError Av.Reservation)
      → ((r : Av.Reservation) → out ≡ ok r → to_api is_uuid r ≡ some r)
      → read_hold now fallback (some (answer is_uuid 201 create_problem out))
        ≡ hold_outcome now fallback out
  unfolding read_hold to_reservation
  hold_reads now fallback (ok r) valid = rw (valid r refl) refl
  hold_reads now fallback (err (domain Av.invalid_time_window)) valid = refl
  hold_reads now fallback (err (domain Av.missing_identifier)) valid = refl
  hold_reads now fallback (err (domain Av.slot_unavailable)) valid = refl
  hold_reads now fallback (err (domain Av.not_found)) valid = refl
  hold_reads now fallback (err (domain Av.already_released)) valid = refl
  hold_reads now fallback (err (domain Av.idempotency_key_reuse)) valid = refl
  hold_reads now fallback (err (domain Av.invalid_query_window)) valid = refl
  hold_reads now fallback (err (domain Av.invalid_release_reason)) valid = refl
  hold_reads now fallback (err (pg x)) valid = refl
  hold_reads now fallback (err no_rows) valid = refl
  hold_reads now fallback (err driver) valid = refl
  hold_reads now fallback (err key_reuse) valid = refl
  hold_reads now fallback (err other) valid = refl

  -- Over the API, the client's answer to a confirmation is the outcome it should have, for every
  -- result of Confirm, if the ids of the row are uuids.
  pub confirm_reads :
      (out : Result Av.DomainError Av.Reservation)
      → ((r : Av.Reservation) → out ≡ ok r → to_api is_uuid r ≡ some r)
      → read_confirm (some (answer is_uuid 200 confirm_problem out)) ≡ confirm_outcome out
  unfolding read_confirm
  confirm_reads (ok r) valid = rw (valid r refl) refl
  confirm_reads (err (domain Av.invalid_time_window)) valid = refl
  confirm_reads (err (domain Av.missing_identifier)) valid = refl
  confirm_reads (err (domain Av.slot_unavailable)) valid = refl
  confirm_reads (err (domain Av.not_found)) valid = refl
  confirm_reads (err (domain Av.already_released)) valid = refl
  confirm_reads (err (domain Av.idempotency_key_reuse)) valid = refl
  confirm_reads (err (domain Av.invalid_query_window)) valid = refl
  confirm_reads (err (domain Av.invalid_release_reason)) valid = refl
  confirm_reads (err (pg x)) valid = refl
  confirm_reads (err no_rows) valid = refl
  confirm_reads (err driver) valid = refl
  confirm_reads (err key_reuse) valid = refl
  confirm_reads (err other) valid = refl

  -- From end to end: a hold with a usable new key and a well-formed window that a live reservation of
  -- the resource overlaps is answered to booking as an unavailable slot, and leaves Availability's
  -- database as it was, if its driver answers.
  pub taken_hold_refused :
      (now : Time) (fallback ttl : ℕ) (id key print : String) (body : ReserveBody)
      (r : Av.Reservation) (fingerprint : ReserveBody → Option String)
      (w : World (List Av.Reservation)) (s : Session (List Av.Reservation))
      → IsFine w
      → validate_idempotency_key key == "" ≡ true
      → fingerprint body ≡ some print
      → Av.new_reservation id body.resource_id body.booking_id body.starts_at body.ends_at ≡ ok r
      → find_key key (resumed w s).db.keys ≡ none
      → find r.id (resumed w s).db.own ≡ none
      → is_excluded (held_row r ttl (resumed w s).now) (resumed w s).db.own ≡ true
      → (read_hold now fallback
            (some (create_reservation is_uuid ttl (some id) fingerprint key (some body) w s).0)
          ≡ err (domain slot_unavailable))
        × ((create_reservation is_uuid ttl (some id) fingerprint key (some body) w s).1.db
            ≡ (resumed w s).db)
  unfolding create_reservation reserve read_hold
  taken_hold_refused now fallback ttl id key print body r fingerprint w s fine_ usable printed made
        new fresh taken =
      let c : Claim = record { key = key; fingerprint = print } in
      let (refused, same) =
        insert_taken w s c r ttl fine_ (key-ne_empty key usable) new
          (window id body.resource_id body.booking_id body.starts_at body.ends_at made) fresh
          taken in
      let out : Reply Av.Reservation × Session (List Av.Reservation) =
        create_reservation is_uuid ttl (some id) fingerprint key (some body) w s in
      let replied_ : out.0 ≡ problem 409 "reservation_overlap" =
        ground (arith, usable, printed, made, refused) in
      (rw replied_ refl, ground (arith, usable, printed, made, same))
