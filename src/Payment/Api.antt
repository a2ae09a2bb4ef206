-- ===== src/Payment/Api.antt =====
-- services/payment/internal/api/server.go: each operation as a request and its reply. `customer` is
-- what `customerID` finds in the request's context.
use wakewake.Prelude.{String, ◌==◌, Bool, not, ◌&&◌, Option, none, some, if◌then◌else◌}
use wakewake.Contracts.Events.{Time}
use wakewake.Platform.Keyed.{Engine}
use wakewake.Platform.Session.{domain, Result, ok, err, World, Session}
use wakewake.Platform.Http.{
  Reply, replied, problem, internal, validation_failed, unauthenticated, validate_idempotency_key,
}
use wakewake.Payment.Lifecycle.{
  PaymentError, booking_not_found, booking_not_payable, payment_already_exists,
  idempotency_key_reuse, provider_error, payment_not_found, forbidden, Payment,
}
use wakewake.Payment.Table.{Own}
use wakewake.Payment.Service.{Provider, create_payment, get}

-- The 201 body: the payment, with the client secret that is told but once.
pub record CreatedPayment : Type 0 where
  pub payment : Payment
  pub client_secret : String

abbrev pub nil_uuid : String
nil_uuid = "00000000-0000-0000-0000-000000000000"

abbrev pub create_problem : {A : Type 0} → Result PaymentError (Payment × String) → Reply A
create_problem (err (domain booking_not_found)) = problem 404 "booking_not_found"
create_problem (err (domain booking_not_payable)) = problem 422 "booking_not_payable"
create_problem (err (domain payment_already_exists)) = problem 409 "payment_already_exists"
create_problem (err (domain idempotency_key_reuse)) = problem 409 "idempotency_key_reuse"
create_problem (err (domain provider_error)) = problem 502 "provider_error"
create_problem _ = internal

abbrev pub get_problem : Result PaymentError Payment → Reply Payment
get_problem (err (domain payment_not_found)) = problem 404 "payment_not_found"
get_problem (err (domain forbidden)) = problem 403 "unauthorized"
get_problem _ = internal

module _ (is_uuid : String → Bool) where
  -- `paymentUUIDs`: whether both ids of the row are uuids.
  abbrev pub has_uuids : Payment → Bool
  has_uuids p = is_uuid p.id && is_uuid p.booking_id

  -- `toCreateResponse`
  abbrev pub to_create_response : Result PaymentError (Payment × String) → Reply CreatedPayment
  to_create_response (ok (p, secret)) =
      if has_uuids p then replied 201 (record { payment = p; client_secret = secret }) else internal
  to_create_response (err e) = create_problem (err e)

  -- `toPayment`
  abbrev pub to_payment : Result PaymentError Payment → Reply Payment
  to_payment (ok p) = if has_uuids p then replied 200 p else internal
  to_payment (err e) = get_problem (err e)

  abbrev pub create_keyed :
      Engine
      → Provider
      → Time
      → Time
      → Option String
      → String
      → String
      → String
      → Option String
      → World Own
      → Session Own
      → Reply CreatedPayment × Session Own
  create_keyed g provider now now' new_id correlation key booking_id none w s = (internal, s)
  create_keyed g provider now now' new_id correlation key booking_id (some print) w s =
      let out : Result PaymentError (Payment × String) × Session Own =
        create_payment g provider now now' new_id
          (record {
            booking_id = booking_id;
            idempotency = record { key = key; fingerprint = print };
            correlation_id = correlation;
          })
          w s in
      (to_create_response out.0, out.1)

  -- `CreatePayment`: the body is the booking's id, and the fingerprint is what `fingerprintOf` makes
  -- of it. The correlation id is the context's.
  unfoldable pub create_payment_api :
      Engine
      → Provider
      → Time
      → Time
      → Option String
      → (String → Option String)
      → Option String
      → String
      → Option String
      → World Own
      → Session Own
      → Reply CreatedPayment × Session Own
  create_payment_api g provider now now' new_id fingerprint none key body w s = (unauthenticated, s)
  create_payment_api g provider now now' new_id fingerprint (some customer) key none w s =
      (validation_failed, s)
  create_payment_api g provider now now' new_id fingerprint (some customer) key (some id) w s =
      if not (validate_idempotency_key key == "")
      then (validation_failed, s)
      else (if id == nil_uuid
          then (validation_failed, s)
          else create_keyed g provider now now' new_id w.correlation key id (fingerprint id) w s)

  unfoldable pub get_payment :
      Option String → String → World Own → Session Own → Reply Payment × Session Own
  get_payment none id w s = (unauthenticated, s)
  get_payment (some customer) id w s = (to_payment (get id customer w s).0, (get id customer w s).1)
