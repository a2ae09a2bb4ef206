-- ===== src/Payment/Service.antt =====
-- services/payment/internal/domain/service.go: the use cases. The application's clock, the id
-- generator and Stripe (`Provider.CreateIntent`) are arguments: what they answer in this call.
use wakewake.Prelude.{String, ◌==◌, not, Option, none, some, if◌then◌else◌, ltb}
use wakewake.Prelude.Int.{ℤ}
use wakewake.Contracts.Events.{Time}
use wakewake.Platform.Session.{
  Error, domain, other, KeyRow, Result, ok, err, pure, fail, lift, catch, ◌>>=◌,
}
use wakewake.Platform.Keyed.{Engine}
use wakewake.Payment.Lifecycle.{
  PaymentError, booking_not_found, booking_not_payable, idempotency_key_reuse,
  payment_already_exists, provider_error, forbidden, Payment, BookingContext, WebhookOutcome,
  Transition, new_payment, mark_succeeded, mark_failed,
}
use wakewake.Payment.Store.{
  StoreAction, Claim, booking_context, find_idempotent, by_id, payment_by_booking, insert_payment,
}

pub record CreateCommand : Type 0 where
  pub booking_id : String
  pub idempotency : Claim
  pub correlation_id : String

pub record IntentRequest : Type 0 where
  pub booking_id : String
  pub amount_minor : ℤ
  pub currency : String
  pub idempotency_key : String

pub record Intent : Type 0 where
  pub id : String
  pub client_secret : String

abbrev pub Provider : Type 0
Provider = IntentRequest → Result PaymentError Intent

abbrev pub generated : Option String → Result PaymentError String
generated none = err other
generated (some id) = ok id

-- `createIntent`: every failure is ErrProviderError.
unfoldable pub create_intent : Provider → IntentRequest → Result PaymentError Intent
create_intent provider req = elim (provider req) [
  | ok i ↦ ok i
  | err _ ↦ err (domain provider_error)
]

abbrev pub request_for : String → ℤ → String → String → IntentRequest
request_for booking_id amount_minor currency key = record {
  booking_id = booking_id;
  amount_minor = amount_minor;
  currency = currency;
  idempotency_key = key;
}

module _ (g : Engine) (provider : Provider) where
  -- A key that is known: the original payment, and the client secret of its intent.
  unfoldable pub replay : CreateCommand → KeyRow → StoreAction (Payment × String)
  replay cmd k =
      if not (k.request_fingerprint == cmd.idempotency.fingerprint)
      then fail (domain idempotency_key_reuse)
      else (do
        p ← by_id k.resource_id
        i ← lift (
            create_intent provider
              (request_for p.booking_id p.amount_minor p.currency cmd.idempotency.key))
        pure (p, i.client_secret))

  abbrev pub unless_paid :
      Option Payment → StoreAction (Payment × String) → StoreAction (Payment × String)
  unless_paid none m = m
  unless_paid (some _) m = fail (domain payment_already_exists)

  -- A request that is new: the intent at Stripe, then the row.
  unfoldable pub charge :
      Time → Option String → CreateCommand → BookingContext → StoreAction (Payment × String)
  charge now new_id cmd c = do
    id ← lift (generated new_id)
    i ← lift (
        create_intent provider
          (request_for c.booking_id c.amount_minor c.currency cmd.idempotency.key))
    stored ←
        insert_payment g cmd.idempotency
          (record (new_payment id c.booking_id c.amount_minor c.currency i.id now) {
            correlation_id = cmd.correlation_id;
          })
    pure (stored, i.client_secret)

  abbrev pub charge_or_replay :
      Time
      → Option String
      → CreateCommand
      → BookingContext
      → Option KeyRow
      → StoreAction (Payment × String)
  charge_or_replay now new_id cmd c (some k) = replay cmd k
  charge_or_replay now new_id cmd c none = do
    existing ← payment_by_booking cmd.booking_id
    unless_paid existing (charge now new_id cmd c)

  -- `CreatePayment`. The clock is read twice by the code: `now` for the test, `now'` for the row.
  unfoldable pub create_payment :
      Time → Time → Option String → CreateCommand → StoreAction (Payment × String)
  create_payment now now' new_id cmd =
      if cmd.booking_id == "" then fail (domain booking_not_found) else (do
        c ← booking_context cmd.booking_id
        (if not (ltb now c.hold_expires_at) then fail (domain booking_not_payable) else (do
          found ← find_idempotent cmd.idempotency.key
          charge_or_replay now' new_id cmd c found)))

-- A payment whose booking is not known cannot be authorised.
abbrev pub unknown_forbidden : Error PaymentError → Error PaymentError
unknown_forbidden (domain booking_not_found) = domain forbidden
unknown_forbidden e = e

-- `Get`
unfoldable pub get : String → String → StoreAction Payment
get id customer_id = do
  p ← by_id id
  c ← catch (booking_context p.booking_id) (λ e. fail (unknown_forbidden e))
  (if c.customer_id == customer_id then pure p else fail (domain forbidden))

-- `OutcomeTransition`
unfoldable pub outcome_transition : WebhookOutcome → Time → Transition
outcome_transition o now =
    if o.succeeded then mark_succeeded now else mark_failed o.failure_code now
