-- ===== src/Payment/Lifecycle.antt =====
-- services/payment/internal/domain: payment.go and errors.go, a payment's lifecycle.
use wakewake.Prelude.{
  String, ◌==◌, Bool, true, false, Option, none, some, List, [], ◌∷◌, if◌then◌else◌,
}
use wakewake.Prelude.Int.{ℤ}
use wakewake.Contracts.Events.{
  Time, Emission, succeeded_payload, failed_payload, payment_succeeded_event, payment_failed_event,
}
use wakewake.Platform.Session.{Result, ok}

pub data PaymentError : Type 0 where
  booking_not_found booking_not_payable payment_already_exists : PaymentError
  idempotency_key_reuse provider_error payment_not_found forbidden : PaymentError

pub data Status : Type 0 where
  pending succeeded failed : Status

abbrev pub is_succeeded : Status → Bool
is_succeeded succeeded = true
is_succeeded _ = false

abbrev pub is_failed : Status → Bool
is_failed failed = true
is_failed _ = false

abbrev pub provider_stripe : String
provider_stripe = "stripe"

pub record BookingContext : Type 0 where
  pub booking_id : String
  pub customer_id : String
  pub amount_minor : ℤ
  pub currency : String
  pub hold_expires_at : Time

-- What a verified webhook says.
pub record WebhookOutcome : Type 0 where
  pub stripe_event_id : String
  pub stripe_type : String
  pub provider_payment_id : String
  pub succeeded : Bool
  pub failure_code : String

pub record Payment : Type 0 where
  pub id : String
  pub booking_id : String
  pub status : Status
  pub amount_minor : ℤ
  pub currency : String
  pub provider : String
  pub provider_payment_id : String
  pub failure_code : Option String
  pub correlation_id : String
  pub created_at : Time
  pub updated_at : Time

abbrev pub Transition : Type 0
Transition = Payment → Result PaymentError (Payment × List Emission)

unfoldable pub new_payment : String → String → ℤ → String → String → Time → Payment
new_payment id booking_id amount_minor currency provider_payment_id now = record {
  id = id;
  booking_id = booking_id;
  status = pending;
  amount_minor = amount_minor;
  currency = currency;
  provider = provider_stripe;
  provider_payment_id = provider_payment_id;
  failure_code = none;
  correlation_id = "";
  created_at = now;
  updated_at = now;
}

abbrev pub succeeded_emission : Payment → Emission
succeeded_emission p = record {
  event = payment_succeeded_event;
  aggregate_id = p.id;
  payload = succeeded_payload (record {
    payment_id = p.id;
    booking_id = p.booking_id;
    amount_minor = p.amount_minor;
    currency = p.currency;
    provider_payment_id = p.provider_payment_id;
  });
}

abbrev pub succeed_from : Status → Time → Transition
succeed_from succeeded now p = ok (p, [])
succeed_from failed now p = ok (p, [])
succeed_from pending now p = ok (
  record p { status = succeeded; failure_code = none; updated_at = now },
  succeeded_emission p ∷ [],
)

unfoldable pub mark_succeeded : Time → Transition
mark_succeeded now p = succeed_from p.status now p

abbrev pub failed_emission : Payment → String → Emission
failed_emission p code = record {
  event = payment_failed_event;
  aggregate_id = p.id;
  payload = failed_payload (record {
    payment_id = p.id;
    booking_id = p.booking_id;
    amount_minor = p.amount_minor;
    currency = p.currency;
    failure_code = code;
  });
}

-- The fallback for a webhook that names no code.
abbrev pub code_or_default : String → String
code_or_default code = if code == "" then "payment_failed" else code

abbrev pub fail_from : Status → String → Time → Transition
fail_from failed code now p = ok (p, [])
fail_from succeeded code now p = ok (p, [])
fail_from pending code now p = ok (
  record p { status = failed; failure_code = some (code_or_default code); updated_at = now },
  failed_emission p (code_or_default code) ∷ [],
)

unfoldable pub mark_failed : String → Time → Transition
mark_failed code now p = fail_from p.status code now p
