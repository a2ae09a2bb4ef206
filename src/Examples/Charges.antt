-- ===== src/Examples/Charges.antt =====
-- A hold that is heard of, a payment for it, and what Stripe, and a forger, say of the payment.
use wakewake.Prelude.{
  ◌+◌, ◌≤◌, ◌≡◌, refl, ◌≢◌, ◌⊎◌, ◌↔◌, arith, String, ◌==◌, true, false, none, some, List, [], ◌∷◌,
  countb, anyb,
}
use wakewake.Prelude.Int.{ℤ, pos}
use wakewake.Contracts.Events.{
  Time, Envelope, BookingHeldPayload, booking_held_event, payment_succeeded_event,
  payment_failed_event,
}
use wakewake.Platform.Session.{ok, World, Session}
use wakewake.Platform.Atomicity.{Calm}
use wakewake.Platform.Idempotency.{find_key}
use wakewake.Payment.Table.{Own}
use wakewake.Payment.Signature.{
  Crypto, parse_signature_header, is_within, is_close, verify_signature, read_parts,
  is_close-window, min_duration,
}
use wakewake.Payment.Signed.{allowed, IsTimely, is_v1, signs, last_t, verify_signature_sound}
use wakewake.Payment.Service.{CreateCommand, Provider}
use wakewake.Payment.Webhook.{
  WireEvent, HttpRequest, signature_verification_failed, event_succeeded, serve_http,
}
use wakewake.Payment.Requests.{
  Request, create_request, webhook_request, held_request, Setting, serve_all,
}
use wakewake.Payment.Invariant.{IsConsistent, has_booking, is_succeeded_id, is_failed_id, stated}
use wakewake.Payment.Runs.{one_payment_one_end, forged_webhook}
use wakewake.Platform.Session.{KeyRow, resumed, sql}
use wakewake.Platform.Tx.{within_tx}
use wakewake.Platform.Idempotency.{claim, upsert_key}
use wakewake.Platform.Keyed.{find_by}
use wakewake.Payment.Lifecycle.{Payment, BookingContext, pending, new_payment}
use wakewake.Payment.Table.{insert_row, failed_check}
use wakewake.Payment.Store.{insert_payment, insert_tx, insert_claimed}
use wakewake.Payment.Service.{Intent, charge, create_intent, request_for}
use wakewake.Payment.Charging.{charge_context}
use wakewake.Examples.Worlds.{quiet, start_of}
use wakewake.Examples.Saga.{engine}

-- A code for which the body itself is its only signature.
abbrev crypto : Crypto String String
crypto = record {
  is_blank = λ h. false;
  parts = λ h. some ("t", "5") ∷ some ("v1", h) ∷ [];
  parse_int = λ s. some (pos 5);
  decode_hex = some;
  mac = λ ts body secret. body;
  same = λ a b. a == b;
}

abbrev succeeded_event : WireEvent
succeeded_event = record {
  id = "evt-1";
  type_ = event_succeeded;
  object_id = "pi-1";
  last_error = none;
}

abbrev setting : Setting BookingHeldPayload String String
setting = record {
  engine = engine;
  decode = some;
  unmarshal = λ body. some succeeded_event;
  crypto = crypto;
  config = record { secret = "whsec"; tolerance = pos 0 };
}

-- Two seconds after the timestamp of the header.
abbrev now : Time
now = 62_135_596_807_000_000

abbrev held_booking : Envelope BookingHeldPayload
held_booking = record {
  event = booking_held_event;
  version = pos 1;
  id = "e-1";
  occurred_at = 1;
  correlation_id = "c-1";
  payload = record {
    booking_id = "b-1";
    customer_id = "ann";
    product_id = "p-1";
    resource_id = "court";
    reservation_id = "r-1";
    starts_at = 20_000;
    ends_at = 30_000;
    hold_expires_at = 9_000;
    total_minor = pos 2_500;
    currency = "EUR";
  };
}

abbrev stripe : Provider
stripe req = ok (record { id = "pi-1"; client_secret = "secret" })

abbrev create_command : CreateCommand
create_command = record {
  booking_id = "b-1";
  idempotency = record { key = "k-1"; fingerprint = "f" };
  correlation_id = "c-1";
}

abbrev honest : HttpRequest String
honest = record { body = some "paid"; signature = "paid" }

abbrev forged : HttpRequest String
forged = record { body = some "forged"; signature = "paid" }

abbrev steps : List (World Own × Request BookingHeldPayload String)
steps =
    (quiet, held_request held_booking)
    ∷ (quiet, create_request stripe 1_000 1_001 (some "pay-1") create_command)
    ∷ (quiet, webhook_request now honest)
    ∷ []

abbrev empty : Session Own
empty = start_of (record { payments = []; contexts = []; stripe_events = [] })

abbrev alone : Calm (IsConsistent engine) quiet
alone n db h = h

empty-IsConsistent : IsConsistent engine empty.db
unfolding find_key
empty-IsConsistent = record {
  passed = tt;
  unique = λ id. omega arith;
  one_charge = λ id. omega arith;
  succeeded = λ id. omega arith;
  failed = λ id. omega arith;
  keys = λ key k e. absurd (ground arith);
}

one_payment_one_end_example :
    let db = (serve_all setting steps empty).db in
    (countb (has_booking "b-1") db.own.payments ≤ 1)
    × (stated payment_succeeded_event "pay-1" db ≡ countb (is_succeeded_id "pay-1") db.own.payments)
    × (stated payment_failed_event "pay-1" db ≡ countb (is_failed_id "pay-1") db.own.payments)
    × (stated payment_succeeded_event "pay-1" db + stated payment_failed_event "pay-1" db ≤ 1)
one_payment_one_end_example =
    one_payment_one_end setting steps empty "b-1" "pay-1" (alone, (alone, (alone, tt)))
      empty-IsConsistent

honest_is_accepted :
    verify_signature crypto "paid" honest.signature setting.config.secret now
      setting.config.tolerance
    ≡ true
unfolding verify_signature parse_signature_header read_parts is_within
honest_is_accepted = refl

forged_webhook_example :
    serve_http engine crypto setting.unmarshal setting.config now forged quiet empty
    ≡ (signature_verification_failed, empty)
forged_webhook_example =
    forged_webhook setting now forged "forged" quiet empty (omega arith) refl (λ ts timely. refl)

verify_signature_sound_example :
    (setting.config.secret ≢ "")
    × ((ts : ℤ) × ((text : String) × (last_t (crypto.parts "paid") ≡ some text)
          × (crypto.parse_int text ≡ some ts)
          × IsTimely (allowed (pos 0)) now ts
          × (anyb (is_v1 (signs crypto "paid" "whsec" ts)) (crypto.parts "paid") ≡ true)))
verify_signature_sound_example =
    verify_signature_sound crypto "paid" "paid" "whsec" now (pos 0) (omega arith) honest_is_accepted

is_close-window_example :
    (is_close 300 1_000 1_200 ≡ true)
    ↔ (((1_000 ≤ 1_200 + 300) × (1_200 ≤ 1_000 + 300)) ⊎ (1_000 + min_duration ≤ 1_200))
is_close-window_example = is_close-window 300 1_000 1_200 (omega arith)

abbrev context : BookingContext
context = record {
  booking_id = "b-1";
  customer_id = "ann";
  amount_minor = pos 2_500;
  currency = "EUR";
  hold_expires_at = 9_000;
}

abbrev stored_payment : Payment
stored_payment = record {
  id = "pay-1";
  booking_id = "b-1";
  status = pending;
  amount_minor = pos 2_500;
  currency = "EUR";
  provider = "stripe";
  provider_payment_id = "pi-1";
  failure_code = none;
  correlation_id = "c-1";
  created_at = 1_001;
  updated_at = 1_001;
}

charges_once :
    (charge engine stripe 1_001 (some "pay-1") create_command context quiet empty).0
    ≡ ok (stored_payment, "secret")
unfolding charge create_intent new_payment insert_payment insert_tx insert_claimed within_tx claim
    sql upsert_key find_key insert_row failed_check find_by
charges_once = refl

charge_context_example :
    (((stored_payment.booking_id ≡ context.booking_id)
        × (stored_payment.amount_minor ≡ context.amount_minor)
        × (stored_payment.currency ≡ context.currency)
        × (stored_payment.status ≡ pending))
      ⊎ ((k : KeyRow) × (find_key "k-1" (resumed quiet empty).db.keys ≡ some k)))
    × ((i : Intent) × (stripe (request_for "b-1" (pos 2_500) "EUR" "k-1") ≡ ok i)
        × (i.client_secret ≡ "secret"))
charge_context_example =
    charge_context engine quiet empty stripe 1_001 (some "pay-1") create_command context
      stored_payment "secret" charges_once
