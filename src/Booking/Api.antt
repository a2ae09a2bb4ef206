-- ===== src/Booking/Api.antt =====
-- services/booking/internal/api/server.go: each operation as a request and its reply, but for
-- ListBookings. `customer` is what `customerID` finds in the request's context.
use wakewake.Prelude.{
  ℕ, String, ◌==◌, Bool, true, not, ◌&&◌, Option, none, some, List, if◌then◌else◌,
}
use wakewake.Prelude.Int.{ℤ, pos, ltb_ℤ}
use wakewake.Contracts.Events.{Time}
use wakewake.Platform.Keyed.{Engine}
use wakewake.Platform.Session.{domain, Result, ok, err, World, Session}
use wakewake.Platform.Http.{
  Reply, replied, problem, internal, validation_failed, unauthenticated, validate_idempotency_key,
}
use wakewake.Booking.Lifecycle.{
  BookingError, missing_identifier, product_not_found, invalid_time_window, party_exceeds_capacity,
  slot_unavailable, idempotency_key_reuse, availability_unavailable, not_found, forbidden, Booking,
}
use wakewake.Booking.Service.{Remotes, create_booking, get, cancel_booking}

pub record BookingBody : Type 0 where
  pub product_id : String
  pub starts_at : Time
  pub ends_at : Time
  pub party_size : ℤ

-- A reply, and what the call leaves.
abbrev pub Handled : Type 0
Handled = Reply Booking × Session (List Booking)

abbrev pub create_problem : Result BookingError Booking → Reply Booking
create_problem (err (domain missing_identifier)) = validation_failed
create_problem (err (domain product_not_found)) = problem 404 "product_not_found"
create_problem (err (domain invalid_time_window)) = problem 422 "invalid_time_window"
create_problem (err (domain party_exceeds_capacity)) = problem 422 "party_exceeds_capacity"
create_problem (err (domain slot_unavailable)) = problem 409 "slot_unavailable"
create_problem (err (domain idempotency_key_reuse)) = problem 409 "idempotency_key_reuse"
create_problem (err (domain availability_unavailable)) = problem 503 "availability_unavailable"
create_problem _ = internal

-- The switch of GetBooking and of CancelBooking.
abbrev pub own_problem : Result BookingError Booking → Reply Booking
own_problem (err (domain not_found)) = problem 404 "booking_not_found"
own_problem (err (domain forbidden)) = problem 403 "unauthorized"
own_problem _ = internal

module _ (is_uuid : String → Bool) where
  abbrev pub is_uuid_or_none : Option String → Bool
  is_uuid_or_none none = true
  is_uuid_or_none (some id) = is_uuid id

  -- `toAPI`: none where an id of the row is no uuid.
  unfoldable pub to_api : Booking → Option Booking
  to_api b =
      if is_uuid b.id
        && (is_uuid b.customer_id
            && (is_uuid b.product_id
                && (is_uuid b.resource_id && is_uuid_or_none b.reservation_id)))
      then some b
      else none

  abbrev pub rendered : ℕ → Option Booking → Reply Booking
  rendered status none = internal
  rendered status (some b) = replied status b

  abbrev pub answer :
      ℕ
      → (Result BookingError Booking → Reply Booking)
      → Result BookingError Booking
      → Reply Booking
  answer status problems (ok b) = rendered status (to_api b)
  answer status problems (err e) = problems (err e)

  -- `CreateBooking`, past its checks: the fingerprint is what `fingerprintOf` makes of the body.
  abbrev pub create_keyed :
      Engine
      → Remotes
      → Time
      → Time
      → Option String
      → String
      → String
      → BookingBody
      → Option String
      → World (List Booking)
      → Session (List Booking)
      → Handled
  create_keyed g remotes now now' new_id customer key body none w s = (internal, s)
  create_keyed g remotes now now' new_id customer key body (some print) w s =
      let out : Result BookingError Booking × Session (List Booking) =
        create_booking g remotes now now' new_id
          (record {
            customer_id = customer;
            product_id = body.product_id;
            starts_at = body.starts_at;
            ends_at = body.ends_at;
            party_size = body.party_size;
            idempotency = record { key = key; fingerprint = print };
          })
          w s in
      (answer 201 create_problem out.0, out.1)

  unfoldable pub create_booking_api :
      Engine
      → Remotes
      → Time
      → Time
      → Option String
      → (BookingBody → Option String)
      → Option String
      → String
      → Option BookingBody
      → World (List Booking)
      → Session (List Booking)
      → Handled
  create_booking_api g remotes now now' new_id fingerprint none key body w s = (unauthenticated, s)
  create_booking_api g remotes now now' new_id fingerprint (some customer) key none w s =
      (validation_failed, s)
  create_booking_api g remotes now now' new_id fingerprint (some customer) key (some body) w s =
      if not (validate_idempotency_key key == "")
      then (validation_failed, s)
      else (if ltb_ℤ body.party_size (pos 1)
          then (validation_failed, s)
          else create_keyed g remotes now now' new_id customer key body (fingerprint body) w s)

  unfoldable pub get_booking :
      Option String → String → World (List Booking) → Session (List Booking) → Handled
  get_booking none id w s = (unauthenticated, s)
  get_booking (some customer) id w s =
      (answer 200 own_problem (get id customer w s).0, (get id customer w s).1)

  unfoldable pub cancel_booking_api :
      Engine
      → Time
      → Option String
      → String
      → Option String
      → World (List Booking)
      → Session (List Booking)
      → Handled
  cancel_booking_api g now none id remark w s = (unauthenticated, s)
  cancel_booking_api g now (some customer) id remark w s =
      let out : Result BookingError Booking × Session (List Booking) =
        cancel_booking g now id customer remark w s in
      (answer 200 own_problem out.0, out.1)
