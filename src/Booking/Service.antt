-- ===== src/Booking/Service.antt =====
-- services/booking/internal/domain/service.go: the saga. The application's clock, the id generator,
-- and the catalog and availability clients are arguments: what they answer in this call.
use wakewake.Prelude.{String, ◌==◌, not, ◌||◌, Option, none, some, [], if◌then◌else◌}
use wakewake.Prelude.Int.{ℤ}
use wakewake.Contracts.Events.{Time}
use wakewake.Platform.Session.{
  domain, other, KeyRow, Result, ok, err, pure, fail, lift, ◌>>=◌, ◌>>◌,
}
use wakewake.Platform.Keyed.{Engine}
use wakewake.Booking.Lifecycle.{
  BookingError, missing_identifier, forbidden, idempotency_key_reuse, reservation_released, Product,
  Reservation, Booking, Transition, is_held, check_request, new_booking, confirm, cancel,
  reason_payment_failed, reason_hold_expired, reason_customer_cancelled,
}
use wakewake.Booking.Store.{StoreAction, Claim, insert, apply, by_id, find_idempotent}

pub record CreateCommand : Type 0 where
  pub customer_id : String
  pub product_id : String
  pub starts_at : Time
  pub ends_at : Time
  pub party_size : ℤ
  pub idempotency : Claim

pub record HoldRequest : Type 0 where
  pub resource_id : String
  pub booking_id : String
  pub starts_at : Time
  pub ends_at : Time
  pub idempotency_key : String

-- The other services, as this call finds them: `Catalog.Product`, `Reservations.Hold` and
-- `Reservations.Confirm`.
pub record Remotes : Type 0 where
  pub product : String → Result BookingError Product
  pub hold : HoldRequest → Result BookingError Reservation
  pub confirm_reservation : String → Result BookingError (Unit {0})

abbrev pub generated : Option String → Result BookingError String
generated none = err other
generated (some id) = ok id

module _ (g : Engine) (remotes : Remotes) where
  -- A request that is new: reserve, then write.
  unfoldable pub create_new : Time → Option String → CreateCommand → Product → StoreAction Booking
  create_new now new_id cmd product = do
    candidate ← lift (generated new_id)
    reservation ← lift (
        remotes.hold (record {
          resource_id = product.resource_id;
          booking_id = candidate;
          starts_at = cmd.starts_at;
          ends_at = cmd.ends_at;
          idempotency_key = cmd.idempotency.key;
        }))
    b ← lift (
        new_booking reservation.booking_id cmd.customer_id cmd.product_id product cmd.starts_at
          cmd.ends_at cmd.party_size reservation now)
    insert g cmd.idempotency b

  abbrev pub create_or_replay :
      Time → Option String → CreateCommand → Product → Option KeyRow → StoreAction Booking
  create_or_replay now new_id cmd product none = create_new now new_id cmd product
  create_or_replay now new_id cmd product (some k) =
      if k.request_fingerprint == cmd.idempotency.fingerprint
      then by_id k.resource_id
      else fail (domain idempotency_key_reuse)

  -- `CreateBooking`. The clock is read twice by the code: `now` for the tests, `now'` for the row.
  unfoldable pub create_booking : Time → Time → Option String → CreateCommand → StoreAction Booking
  create_booking now now' new_id cmd =
      if cmd.customer_id == "" || cmd.product_id == ""
      then fail (domain missing_identifier)
      else (do
        product ← lift (remotes.product cmd.product_id)
        lift (check_request cmd.starts_at cmd.ends_at cmd.party_size product.capacity now)
        found ← find_idempotent cmd.idempotency.key
        create_or_replay now' new_id cmd product found)

-- What Availability's answer to the confirm makes of the booking.
abbrev pub settle_confirm : String → Time → Result BookingError (Unit {0}) → Transition
settle_confirm payment_id now (ok _) b = confirm payment_id now b
settle_confirm payment_id now (err (domain reservation_released)) b =
    cancel reason_hold_expired none now b
settle_confirm payment_id now (err e) b = err e

module _ (remotes : Remotes) where
  abbrev pub confirm_held : String → Time → Option String → Transition
  confirm_held payment_id now none b = err other
  confirm_held payment_id now (some reservation_id) b =
      settle_confirm payment_id now (remotes.confirm_reservation reservation_id) b

  -- `ConfirmOnPayment`
  unfoldable pub confirm_on_payment : String → Time → Transition
  confirm_on_payment payment_id now b =
      if is_held b.status then confirm_held payment_id now b.reservation_id b else ok (b, [])

-- `CompensateOnPaymentFailure`
unfoldable pub compensate_on_payment_failure : Time → Transition
compensate_on_payment_failure now b =
    if is_held b.status then cancel reason_payment_failed none now b else ok (b, [])

-- `ExpireHold`
unfoldable pub expire_hold : Time → Transition
expire_hold now b =
    if not (is_held b.status) then ok (b, []) else cancel reason_hold_expired none now b

-- `Get`
unfoldable pub get : String → String → StoreAction Booking
get id customer_id = do
  b ← by_id id
  (if b.customer_id == customer_id then pure b else fail (domain forbidden))

-- `Cancel`: the owner is checked before the transition opens.
unfoldable pub cancel_booking :
    Engine → Time → String → String → Option String → StoreAction Booking
cancel_booking g now id customer_id remark = do
  current ← by_id id
  (if current.customer_id == customer_id
      then (do result ← apply g id (cancel reason_customer_cancelled remark now); pure result.0)
      else fail (domain forbidden))
