-- ===== src/Payment/Requests.antt =====
-- Everything that the payment service does to its database, as one type of request: createPayment,
-- getPayment and Stripe's webhook (services/payment/internal/api), and the delivery of a BookingHeld.
use wakewake.Prelude.{String, Option, List, [], ◌∷◌}
use wakewake.Contracts.Events.{Time, Envelope, BookingHeldPayload}
use wakewake.Platform.Session.{World, Session}
use wakewake.Platform.Inbox.{process}
use wakewake.Platform.Keyed.{Engine}
use wakewake.Payment.Table.{Own}
use wakewake.Payment.Signature.{Crypto}
use wakewake.Payment.Service.{Provider, CreateCommand, create_payment, get}
use wakewake.Payment.Webhook.{WireEvent, WebhookConfig, HttpRequest, serve_http}
use wakewake.Payment.Consumer.{handle_held}

abbrev pub consumer_name : String
consumer_name = "payment"

pub data Request (Raw Body : Type 0) : Type 0 where
  create_request :
      Provider → (now now' : Time) → (new_id : Option String) → CreateCommand → Request Raw Body
  get_request : (id customer_id : String) → Request Raw Body
  webhook_request : (now : Time) → HttpRequest Body → Request Raw Body
  held_request : Envelope Raw → Request Raw Body

-- What stays the same over the requests: the engine, the codecs and the webhook's configuration.
pub record Setting (Raw Body Digest : Type 0) : Type 0 where
  pub engine : Engine
  pub decode : Raw → Option BookingHeldPayload
  pub unmarshal : Body → Option WireEvent
  pub crypto : Crypto Body Digest
  pub config : WebhookConfig

module _ {Raw Body Digest : Type 0} (e : Setting Raw Body Digest) where
  unfoldable pub serve : Request Raw Body → World Own → Session Own → Session Own
  serve (create_request provider now now' new_id cmd) w s =
      (create_payment e.engine provider now now' new_id cmd w s).1
  serve (get_request id customer_id) w s = (get id customer_id w s).1
  serve (webhook_request now req) w s =
      (serve_http e.engine e.crypto e.unmarshal e.config now req w s).1
  serve (held_request v) w s = (process consumer_name v (handle_held e.engine e.decode) w s).1

  -- A run: each request in a world of its own.
  unfoldable pub serve_all : List (World Own × Request Raw Body) → Session Own → Session Own
  serve_all [] s = s
  serve_all ((w, q) ∷ rest) s = serve_all rest (serve q w s)
