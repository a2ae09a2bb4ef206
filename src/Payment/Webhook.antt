-- ===== src/Payment/Webhook.antt =====
-- services/payment/internal/api/webhook.go, `ServeHTTP`, and internal/stripe/event.go. The body's
-- type is `Body`; what encoding/json makes of it is an argument. A body of more than 1 MiB, which is
-- cut off, is not modelled.
use wakewake.Prelude.{String, ◌==◌, Bool, true, false, not, ◌||◌, Option, none, some, if◌then◌else◌}
use wakewake.Contracts.Events.{Time}
use wakewake.Platform.Session.{Result, ok, err, World, Session}
use wakewake.Platform.Keyed.{Engine}
use wakewake.Payment.Lifecycle.{PaymentError, WebhookOutcome}
use wakewake.Payment.Table.{Own}
use wakewake.Payment.Store.{OutcomeResult, record_outcome}
use wakewake.Prelude.Int.{ℤ}
use wakewake.Payment.Signature.{Crypto, verify_signature}
use wakewake.Payment.Service.{outcome_transition}

abbrev pub event_succeeded : String
event_succeeded = "payment_intent.succeeded"

abbrev pub event_failed : String
event_failed = "payment_intent.payment_failed"

pub record Event : Type 0 where
  pub id : String
  pub type_ : String
  pub payment_intent_id : String
  pub failure_code : String

-- The fields that `json.Unmarshal` reads; the code of `last_payment_error`, where there is one.
pub record WireEvent : Type 0 where
  pub id : String
  pub type_ : String
  pub object_id : String
  pub last_error : Option String

abbrev pub code_of : Option String → String
code_of none = ""
code_of (some c) = c

-- `ParseEvent`, after json.Unmarshal.
unfoldable pub parse_event : Option WireEvent → Option Event
parse_event none = none
parse_event (some v) =
    if v.id == "" || v.type_ == ""
    then none
    else some (record {
      id = v.id;
      type_ = v.type_;
      payment_intent_id = v.object_id;
      failure_code = code_of v.last_error;
    })

unfoldable pub is_payment_outcome : Event → Bool
is_payment_outcome e = e.type_ == event_succeeded || e.type_ == event_failed

abbrev pub succeeded_event : Event → Bool
succeeded_event e = e.type_ == event_succeeded

-- The raw body, where it could be read, and the header Stripe-Signature.
pub record HttpRequest (Body : Type 0) : Type 0 where
  pub body : Option Body
  pub signature : String

-- The signing secret, and the tolerance in nanoseconds.
pub record WebhookConfig : Type 0 where
  pub secret : String
  pub tolerance : ℤ

-- The answer to Stripe: 200, 400 with one of its two codes, or 500.
pub data Answer : Type 0 where
  acknowledged validation_failed signature_verification_failed internal_error : Answer

abbrev pub outcome_of : Event → WebhookOutcome
outcome_of e = record {
  stripe_event_id = e.id;
  stripe_type = e.type_;
  provider_payment_id = e.payment_intent_id;
  succeeded = succeeded_event e;
  failure_code = e.failure_code;
}

abbrev pub answer_to : Result PaymentError OutcomeResult → Answer
answer_to (ok _) = acknowledged
answer_to (err _) = internal_error

module _ (g : Engine) where
  unfoldable pub record_event : Time → Event → World Own → Session Own → Answer × Session Own
  record_event now e w s =
      let (r, s') =
        record_outcome g (record { event_id = e.id; event_type = e.type_ }) e.payment_intent_id
          (outcome_transition (outcome_of e) now) w s in
      (answer_to r, s')

  abbrev pub serve_event : Time → Option Event → World Own → Session Own → Answer × Session Own
  serve_event now none w s = (validation_failed, s)
  serve_event now (some e) w s =
      if not (is_payment_outcome e) then (acknowledged, s) else record_event now e w s

  abbrev pub serve_body :
      {Body : Type 0}
      → (Body → Option WireEvent)
      → Time
      → Body
      → Bool
      → World Own
      → Session Own
      → Answer × Session Own
  serve_body unmarshal now body false w s = (signature_verification_failed, s)
  serve_body unmarshal now body true w s = serve_event now (parse_event (unmarshal body)) w s

  -- `ServeHTTP`
  unfoldable pub serve_http :
      {Body Digest : Type 0}
      → Crypto Body Digest
      → (Body → Option WireEvent)
      → WebhookConfig
      → Time
      → HttpRequest Body
      → World Own
      → Session Own
      → Answer × Session Own
  serve_http crypto unmarshal config now req w s = elim req.body [
    | none ↦ (validation_failed, s)
    | some body ↦
        serve_body unmarshal now body
          (verify_signature crypto body req.signature config.secret now config.tolerance) w s
  ]
