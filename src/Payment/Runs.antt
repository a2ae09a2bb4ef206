-- ===== src/Payment/Runs.antt =====
-- Runs of the payment service's requests, in whatever worlds, and the webhook.
use wakewake.Prelude.{
  suc, ◌<◌, anyb, Bool-cases, ◌+◌, ◌≤◌, ◌≡◌, arith, String, false, some, List, [], ◌∷◌, All, countb,
  Option-cases, inl, inr,
}
use wakewake.Prelude.Int.{ℤ}
use wakewake.Contracts.Events.{Time, payment_succeeded_event, payment_failed_event}
use wakewake.Platform.Session.{World, Session}
use wakewake.Platform.Atomicity.{Calm}
use wakewake.Platform.Delivery.{process_keeps}
use wakewake.Payment.Lifecycle.{Payment}
use wakewake.Payment.Table.{Own}
use wakewake.Payment.Signature.{verify_signature}
use wakewake.Payment.Webhook.{HttpRequest, signature_verification_failed, parse_event, serve_http}
use wakewake.Payment.Consumer.{handle_held}
use wakewake.Payment.Signed.{allowed, IsTimely, is_v1, signs, verify_signature_sound}
use wakewake.Payment.Requests.{
  Request, create_request, get_request, webhook_request, held_request, Setting, serve, serve_all,
  consumer_name,
}
use wakewake.Payment.Invariant.{
  IsConsistent, has_id, has_booking, is_succeeded_id, is_failed_id, stated,
}
use wakewake.Payment.Safety.{create_keeps, get_keeps, serve_event_keeps, held_keeps}

module _ {Raw Body Digest : Type 0} (v : Setting Raw Body Digest) where
  serve_http-unverified :
      (now : Time) (req : HttpRequest Body) (body : Body) (w : World Own) (s : Session Own)
      → req.body ≡ some body
      → verify_signature v.crypto body req.signature v.config.secret now v.config.tolerance ≡ false
      → serve_http v.engine v.crypto v.unmarshal v.config now req w s
        ≡ (signature_verification_failed, s)
  unfolding serve_http
  serve_http-unverified now req body w s there forged = ground (arith, there, forged)

  -- Under a tolerance below the largest Duration, a webhook is refused, and touches nothing, if no
  -- part v1 of its header signs the body under the secret for any timestamp that is within the
  -- tolerance of now, or 2^63 nanoseconds ahead of it or past what time.Unix holds: a forged one, and
  -- one that is replayed later.
  pub forged_webhook :
      (now : Time) (req : HttpRequest Body) (body : Body) (w : World Own) (s : Session Own)
      → suc (allowed v.config.tolerance) < 9_223_372_036_854_775_808
      → req.body ≡ some body
      → ((ts : ℤ)
          → IsTimely (allowed v.config.tolerance) now ts
          → anyb (is_v1 (signs v.crypto body v.config.secret ts)) (v.crypto.parts req.signature)
            ≡ false)
      → serve_http v.engine v.crypto v.unmarshal v.config now req w s
        ≡ (signature_verification_failed, s)
  forged_webhook now req body w s small there unsigned =
      elim (Bool-cases
        (verify_signature v.crypto body req.signature v.config.secret now v.config.tolerance)) [
          | inr forged ↦ serve_http-unverified now req body w s there forged
          | inl accepted ↦
              let (_, (ts, (_, _, _, timely, signed))) =
                verify_signature_sound v.crypto body req.signature v.config.secret now
                  v.config.tolerance small accepted in
              absurd (ground (arith, signed, unsigned ts timely))
        ]

  webhook_keeps :
      (now : Time) (req : HttpRequest Body) (w : World Own) (s : Session Own)
      → Calm (IsConsistent v.engine) w
      → IsConsistent v.engine s.db
      → IsConsistent v.engine (serve_http v.engine v.crypto v.unmarshal v.config now req w s).1.db
  unfolding serve_http
  webhook_keeps now req w s calm h = elim (Option-cases req.body) [
    | inl e ↦ ground (arith, e, h)
    | inr (body, e) ↦
        let kept = serve_event_keeps v.engine w calm now (parse_event (v.unmarshal body)) s h in
        ground (arith, e, h, kept)
  ]

  -- One request, however the driver and Stripe behave, keeps a consistent database consistent, if the
  -- other connections do.
  pub serve_keeps :
      (q : Request Raw Body) (w : World Own) (s : Session Own)
      → Calm (IsConsistent v.engine) w
      → IsConsistent v.engine s.db
      → IsConsistent v.engine (serve v q w s).db
  unfolding serve
  serve_keeps (create_request provider now now' new_id cmd) w s calm h =
      create_keeps v.engine w calm provider now now' new_id cmd s h
  serve_keeps (get_request id customer_id) w s calm h = get_keeps v.engine w calm id customer_id s h
  serve_keeps (webhook_request now req) w s calm h = webhook_keeps now req w s calm h
  serve_keeps (held_request e) w s calm h =
      process_keeps consumer_name e (handle_held v.engine v.decode) w s (IsConsistent v.engine) calm
        (λ db rows p. record {
          passed = p.passed;
          unique = p.unique;
          one_charge = p.one_charge;
          succeeded = p.succeeded;
          failed = p.failed;
          keys = p.keys;
        })
        (λ p r. held_keeps v.engine w calm v.decode e _ p r) h

module _ {Raw Body Digest : Type 0} (v : Setting Raw Body Digest) where
  pub serve_all_keeps :
      (run : List (World Own × Request Raw Body)) (s : Session Own)
      → All (λ step. Calm (IsConsistent v.engine) step.0) run
      → IsConsistent v.engine s.db
      → IsConsistent v.engine (serve_all v run s).db
  unfolding serve_all
  serve_all_keeps [] s calm h = h
  serve_all_keeps ((w, q) ∷ rest) s calm h =
      serve_all_keeps rest (serve v q w s) calm.1 (serve_keeps v q w s calm.0 h)

module _ (id : String) where
  ends_apart :
      (ps : List Payment)
      → countb (is_succeeded_id id) ps + countb (is_failed_id id) ps ≤ countb (has_id id) ps
  ends_apart [] = omega arith
  ends_apart (p ∷ ps) = ground (arith, ends_apart ps)

module _ {Raw Body Digest : Type 0} (v : Setting Raw Body Digest) where
  -- After any run of requests from a consistent database, each in a world whose other connections
  -- keep the database consistent, none of them pruning its outbox, and however the driver and Stripe
  -- behave, a booking has at most one payment; and for each payment at most one of its success and
  -- its failure is stated, once, and exactly when the payment's row says so.
  pub one_payment_one_end :
      (run : List (World Own × Request Raw Body)) (s : Session Own) (booking_id id : String)
      → All (λ step. Calm (IsConsistent v.engine) step.0) run
      → IsConsistent v.engine s.db
      → let db = (serve_all v run s).db in
        (countb (has_booking booking_id) db.own.payments ≤ 1)
        × (stated payment_succeeded_event id db ≡ countb (is_succeeded_id id) db.own.payments)
        × (stated payment_failed_event id db ≡ countb (is_failed_id id) db.own.payments)
        × (stated payment_succeeded_event id db + stated payment_failed_event id db ≤ 1)
  one_payment_one_end run s booking_id id calm h =
      let kept = serve_all_keeps v run s calm h in
      let db = (serve_all v run s).db in
      (
        kept.one_charge booking_id,
        kept.succeeded id,
        kept.failed id,
        ground (
          arith,
          kept.succeeded id,
          kept.failed id,
          kept.unique id,
          ends_apart id db.own.payments,
        ),
      )
