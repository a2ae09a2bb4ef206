-- ===== src/Booking/Clients.antt =====
-- services/booking/internal/infra/availability.go and catalog.go: the clients of the other services.
-- The reply of a service, or none where the call failed on the way or its retries ran out, is what
-- the generated client hands over.
use wakewake.Prelude.{
  ℕ, ◌+◌, String, ◌==◌, Bool, ◌&&◌, ◌||◌, Option, none, some, if◌then◌else◌, eqb,
}
use wakewake.Contracts.Events.{Time}
use wakewake.Platform.Session.{domain, other, Result, ok, err}
use wakewake.Platform.Http.{Reply, replied, problem}
use wakewake.Booking.Lifecycle.{
  BookingError, product_not_found, slot_unavailable, reservation_not_found, reservation_released,
  idempotency_key_reuse, availability_unavailable, Product, Reservation,
}
use wakewake.Booking.Service.{HoldRequest}

abbrev pub ApiReservation : Type 0
ApiReservation = wakewake.Availability.Reservation.Reservation

abbrev pub unavailable : {A : Type 0} → Result BookingError A
unavailable = err (domain availability_unavailable)

-- 500, 502, 503 and 504.
abbrev pub is_down : ℕ → Bool
is_down status = eqb status 503 || (eqb status 502 || (eqb status 504 || eqb status 500))

-- `toReservation`: the fallback counts from the application's clock.
abbrev pub expiry_or : Time → Option Time → Time
expiry_or fallback none = fallback
expiry_or fallback (some t) = t

unfoldable pub to_reservation : Time → ℕ → ApiReservation → Reservation
to_reservation now fallback r = record {
  id = r.id;
  booking_id = r.booking_id;
  expires_at = expiry_or (now + fallback) r.expires_at;
}

abbrev pub created : Time → ℕ → Reply ApiReservation → Result BookingError Reservation
created now fallback (replied _ r) = ok (to_reservation now fallback r)
created now fallback (problem _ _) = unavailable

abbrev pub status_of : {A : Type 0} → Reply A → ℕ
status_of (replied n _) = n
status_of (problem n _) = n

abbrev pub code_of : {A : Type 0} → Reply A → String
code_of (replied _ _) = ""
code_of (problem _ c) = c

-- The switch of `Hold`.
unfoldable pub read_hold :
    Time → ℕ → Option (Reply ApiReservation) → Result BookingError Reservation
read_hold now fallback none = unavailable
read_hold now fallback (some reply) =
    if eqb (status_of reply) 201
    then created now fallback reply
    else (if eqb (status_of reply) 409
        then (if code_of reply == "idempotency_key_reuse"
            then err (domain idempotency_key_reuse)
            else err (domain slot_unavailable))
        else (if is_down (status_of reply) then unavailable else err other))

-- The switch of `Confirm`.
unfoldable pub read_confirm : Option (Reply ApiReservation) → Result BookingError (Unit {0})
read_confirm none = unavailable
read_confirm (some reply) =
    if eqb (status_of reply) 200
    then ok tt
    else (if eqb (status_of reply) 404
        then err (domain reservation_not_found)
        else (if eqb (status_of reply) 422 then err (domain reservation_released) else unavailable))

abbrev pub product_of : Reply Product → Result BookingError Product
product_of (replied _ p) = ok p
product_of (problem _ _) = unavailable

-- The switch of the catalog client's `Product`.
unfoldable pub read_product : Option (Reply Product) → Result BookingError Product
read_product none = unavailable
read_product (some reply) =
    if eqb (status_of reply) 200
    then product_of reply
    else (if eqb (status_of reply) 404
        then err (domain product_not_found)
        else (if is_down (status_of reply) then unavailable else err other))

module _ (is_uuid : String → Bool) where
  unfoldable pub hold :
      (HoldRequest → Option (Reply ApiReservation))
      → Time
      → ℕ
      → HoldRequest
      → Result BookingError Reservation
  hold call now fallback req =
      if is_uuid req.resource_id && is_uuid req.booking_id
      then read_hold now fallback (call req)
      else err other

  unfoldable pub confirm_remote :
      (String → Option (Reply ApiReservation)) → String → Result BookingError (Unit {0})
  confirm_remote call id = if is_uuid id then read_confirm (call id) else err other

  unfoldable pub fetch_product :
      (String → Option (Reply Product)) → String → Result BookingError Product
  fetch_product call id =
      if is_uuid id then read_product (call id) else err (domain product_not_found)
