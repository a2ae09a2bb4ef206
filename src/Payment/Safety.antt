-- ===== src/Payment/Safety.antt =====
-- The operations of the payment service (internal/domain/service.go, internal/infra/store.go,
-- internal/api/webhook.go and internal/events) and the invariant of its database.
use wakewake.Prelude.{
  ◌≡◌, refl, sym, inl, inr, arith, String, false, Option, none, some, subst, Option-cases,
}
use wakewake.Contracts.Events.{Time, Envelope, BookingHeldPayload}
use wakewake.Platform.Session.{KeyRow, ok, World, Session, resumed, query, sql}
use wakewake.Platform.Atomicity.{Calm, within_tx_keeps}
use wakewake.Platform.Rules.{Result-cases}
use wakewake.Platform.Tx.{within_tx}
use wakewake.Platform.Keyed.{Engine}
use wakewake.Payment.Lifecycle.{
  Payment, BookingContext, is_succeeded, is_failed, new_payment, Transition,
}
use wakewake.Payment.Table.{Own, StripeEvent, insert_context}
use wakewake.Payment.Store.{
  Claim, booking_context, payment_by_booking, by_id, find_idempotent, insert_tx, insert_payment,
  record_tx, record_outcome, upsert_booking_context,
}
use wakewake.Payment.Effects.{insert_tx-ok}
use wakewake.Payment.Recorded.{record_tx-ok}
use wakewake.Payment.Service.{
  Provider, CreateCommand, Intent, generated, create_intent, request_for, replay, charge,
  charge_or_replay, create_payment, get, outcome_transition,
}
use wakewake.Payment.Consumer.{handle_held}
use wakewake.Payment.Webhook.{Event, outcome_of, record_event, serve_event}
use wakewake.Payment.Invariant.{
  IsConsistent, IsLawful, outcome-IsLawful, InsertEffect-IsConsistent, RecordEffect-IsConsistent,
}

module _ (w : World Own) (s : Session Own) where
  context-run : (id : String) → (booking_context id w s).1 ≡ resumed w s
  unfolding booking_context query
  context-run id = ground arith

  by_booking-run : (id : String) → (payment_by_booking id w s).1 ≡ resumed w s
  unfolding payment_by_booking query
  by_booking-run id = ground arith

  by_id-run : (id : String) → (by_id id w s).1 ≡ resumed w s
  unfolding by_id query
  by_id-run id = ground arith

  find_idempotent-run : (key : String) → (find_idempotent key w s).1 ≡ resumed w s
  unfolding find_idempotent query
  find_idempotent-run key = ground arith

abbrev context_of : BookingHeldPayload → BookingContext
context_of p = record {
  booking_id = p.booking_id;
  customer_id = p.customer_id;
  amount_minor = p.total_minor;
  currency = p.currency;
  hold_expires_at = p.hold_expires_at;
}

-- A payment that CreatePayment inserts.
abbrev fresh : CreateCommand → BookingContext → String → Intent → Time → Payment
fresh cmd c id i now = record (new_payment id c.booking_id c.amount_minor c.currency i.id now) {
  correlation_id = cmd.correlation_id;
}

fresh-pending :
    (cmd : CreateCommand) (c : BookingContext) (id : String) (i : Intent) (now : Time)
    → (is_succeeded (fresh cmd c id i now).status ≡ false)
      × (is_failed (fresh cmd c id i now).status ≡ false)
unfolding new_payment
fresh-pending cmd c id i now = (refl, refl)

same_keeps :
    (g : Engine) (s s' : Session Own)
    → s'.db.own.payments ≡ s.db.own.payments
    → s'.db.keys ≡ s.db.keys
    → s'.db.outbox ≡ s.db.outbox
    → IsConsistent g s.db
    → IsConsistent g s'.db
same_keeps g s s' own keys box h = record {
  passed = rw own h.passed;
  unique = λ id. ground (arith, own, h.unique id);
  one_charge = λ id. ground (arith, own, h.one_charge id);
  succeeded = λ id. ground (arith, own, box, h.succeeded id);
  failed = λ id. ground (arith, own, box, h.failed id);
  keys = λ key k e. ground (arith, own, keys, h.keys key k);
}

context-same :
    (g : Engine) (w : World Own) (c : BookingContext) (s : Session Own)
    → ((upsert_booking_context g c w s).1.db.own.payments ≡ s.db.own.payments)
      × ((upsert_booking_context g c w s).1.db.keys ≡ s.db.keys)
      × ((upsert_booking_context g c w s).1.db.outbox ≡ s.db.outbox)
unfolding upsert_booking_context sql insert_context
context-same g w c s = ground arith

module _ (g : Engine) (w : World Own) (calm : Calm (IsConsistent g) w) where
  resumed_keeps : (s : Session Own) → IsConsistent g s.db → IsConsistent g (resumed w s).db
  resumed_keeps s h = calm s.step s.db h

  insert_keeps :
      (c : Claim) (p : Payment) (s : Session Own)
      → (is_succeeded p.status ≡ false) × (is_failed p.status ≡ false)
      → IsConsistent g s.db
      → IsConsistent g (insert_payment g c p w s).1.db
  unfolding insert_payment
  insert_keeps c p s pend h =
      within_tx_keeps (insert_tx g c p) w s (IsConsistent g) calm
        (λ out k e.
          InsertEffect-IsConsistent g _ _ c p out pend (insert_tx-ok w (resumed w s) g c p out e) k)
        h

  record-db :
      (e : StripeEvent) (intent : String) (fn : Transition) (s : Session Own)
      → (record_outcome g e intent fn w s).1.db ≡ (within_tx (record_tx g e intent fn) w s).1.db
  unfolding record_outcome
  record-db e intent fn s = ground arith

  record_keeps :
      (e : StripeEvent) (intent : String) (fn : Transition) (s : Session Own)
      → IsLawful fn
      → IsConsistent g s.db
      → IsConsistent g (record_outcome g e intent fn w s).1.db
  record_keeps e intent fn s law h = subst (IsConsistent g) (sym (record-db e intent fn s)) (
      within_tx_keeps (record_tx g e intent fn) w s (IsConsistent g) calm
        (λ out k r.
          RecordEffect-IsConsistent g _ _ intent fn out law
            (record_tx-ok g w (resumed w s) e intent fn out r) k)
        h)

  pub event_keeps :
      (now : Time) (e : Event) (s : Session Own)
      → IsConsistent g s.db
      → IsConsistent g (record_event g now e w s).1.db
  unfolding record_event
  event_keeps now e s h =
      record_keeps (record { event_id = e.id; event_type = e.type_ }) e.payment_intent_id
        (outcome_transition (outcome_of e) now) s (outcome-IsLawful (outcome_of e) now) h

  pub serve_event_keeps :
      (now : Time) (o : Option Event) (s : Session Own)
      → IsConsistent g s.db
      → IsConsistent g (serve_event g now o w s).1.db
  serve_event_keeps now none s h = h
  serve_event_keeps now (some e) s h = ground (arith, h, event_keeps now e s h)

  pub held_keeps :
      {Raw : Type 0} (decode : Raw → Option BookingHeldPayload) (e : Envelope Raw) (s : Session Own)
      → IsConsistent g s.db
      → (handle_held g decode e w s).0 ≡ ok tt
      → IsConsistent g (handle_held g decode e w s).1.db
  unfolding handle_held
  held_keeps decode e s h r = elim (Option-cases (decode e.payload)) [
    | inl q ↦ absurd (ground (arith, q, r))
    | inr (p, q) ↦
        let c = context_of p in
        let (a, b, d) = context-same g w c s in
        let kept = same_keeps g s (upsert_booking_context g c w s).1 a b d h in
        ground (arith, h, kept)
  ]

  pub get_keeps :
      (id customer_id : String) (s : Session Own)
      → IsConsistent g s.db
      → IsConsistent g (get id customer_id w s).1.db
  unfolding get
  get_keeps id customer_id s h =
      let s1 = (by_id id w s).1 in
      let h1 : IsConsistent g s1.db = rw (by_id-run w s id) (resumed_keeps s h) in
      elim (Result-cases (by_id id w s).0) [
        | inr (x, e) ↦ ground (arith, h1)
        | inl (p, e) ↦
            let s2 = (booking_context p.booking_id w s1).1 in
            let h2 : IsConsistent g s2.db =
              rw (context-run w s1 p.booking_id) (resumed_keeps s1 h1) in
            ground (arith, h2)
      ]

  charge_keeps :
      (provider : Provider) (now : Time) (new_id : Option String) (cmd : CreateCommand)
      (c : BookingContext) (s : Session Own)
      → IsConsistent g s.db
      → IsConsistent g (charge g provider now new_id cmd c w s).1.db
  unfolding charge
  charge_keeps provider now new_id cmd c s h = elim (Result-cases (generated new_id)) [
    | inr (x, e) ↦ ground (arith, h)
    | inl (id, e) ↦
        elim (Result-cases (
          create_intent provider
            (request_for c.booking_id c.amount_minor c.currency cmd.idempotency.key))) [
              | inr (x, e') ↦ ground (arith, h)
              | inl (i, e') ↦
                  let p = fresh cmd c id i now in
                  ground (arith, insert_keeps cmd.idempotency p s (fresh-pending cmd c id i now) h)
            ]
  ]

  replay_keeps :
      (provider : Provider) (cmd : CreateCommand) (k : KeyRow) (s : Session Own)
      → IsConsistent g s.db
      → IsConsistent g (replay g provider cmd k w s).1.db
  unfolding replay
  replay_keeps provider cmd k s h =
      ground (arith, h, by_id-run w s k.resource_id, resumed_keeps s h)

  charge_or_replay_keeps :
      (provider : Provider) (now : Time) (new_id : Option String) (cmd : CreateCommand)
      (c : BookingContext) (found : Option KeyRow) (s : Session Own)
      → IsConsistent g s.db
      → IsConsistent g (charge_or_replay g provider now new_id cmd c found w s).1.db
  charge_or_replay_keeps provider now new_id cmd c (some k) s h = replay_keeps provider cmd k s h
  charge_or_replay_keeps provider now new_id cmd c none s h =
      let s1 = (payment_by_booking cmd.booking_id w s).1 in
      let h1 : IsConsistent g s1.db = rw (by_booking-run w s cmd.booking_id) (resumed_keeps s h) in
      ground (arith, h1, charge_keeps provider now new_id cmd c s1 h1)

  pub create_keeps :
      (provider : Provider) (now now' : Time) (new_id : Option String) (cmd : CreateCommand)
      (s : Session Own)
      → IsConsistent g s.db
      → IsConsistent g (create_payment g provider now now' new_id cmd w s).1.db
  unfolding create_payment
  create_keeps provider now now' new_id cmd s h =
      let key = cmd.idempotency.key in
      let s1 = (booking_context cmd.booking_id w s).1 in
      let h1 : IsConsistent g s1.db = rw (context-run w s cmd.booking_id) (resumed_keeps s h) in
      let s2 = (find_idempotent key w s1).1 in
      let h2 : IsConsistent g s2.db = rw (find_idempotent-run w s1 key) (resumed_keeps s1 h1) in
      elim (Result-cases (booking_context cmd.booking_id w s).0) [
        | inr (x, e) ↦ ground (arith, h, h1)
        | inl (c, e) ↦ elim (Result-cases (find_idempotent key w s1).0) [
          | inr (x, e') ↦ ground (arith, h, h1, h2)
          | inl (found, e') ↦
              let kept = charge_or_replay_keeps provider now' new_id cmd c found s2 h2 in
              ground (arith, h, h1, kept)
        ]
      ]
