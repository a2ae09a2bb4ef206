-- ===== src/Payment/Charging.antt =====
-- What a new payment charges: services/payment/internal/domain/service.go, `CreatePayment`, and
-- internal/infra/store.go, `InsertPayment`.
use wakewake.Prelude.{◌≡◌, ◌⊎◌, inl, inr, arith, String, Option, some}
use wakewake.Contracts.Events.{Time}
use wakewake.Platform.Session.{KeyRow, ok, World, Session, resumed}
use wakewake.Platform.Rules.{Result-cases}
use wakewake.Platform.Atomicity.{within_tx-ok}
use wakewake.Platform.Idempotency.{find_key}
use wakewake.Platform.Keyed.{Engine}
use wakewake.Payment.Lifecycle.{Payment, BookingContext, new_payment, pending}
use wakewake.Payment.Table.{Own}
use wakewake.Payment.Store.{insert_tx, insert_payment}
use wakewake.Payment.Effects.{InsertEffect, made, answered, insert_tx-ok}
use wakewake.Payment.Service.{
  Provider, Intent, CreateCommand, generated, create_intent, request_for, charge,
}

abbrev fresh : CreateCommand → BookingContext → String → Intent → Time → Payment
fresh cmd c id i now = record (new_payment id c.booking_id c.amount_minor c.currency i.id now) {
  correlation_id = cmd.correlation_id;
}

module _ (g : Engine) (w : World Own) (s : Session Own) where
  inserted :
      (cmd : CreateCommand) (p stored : Payment)
      → (insert_payment g cmd.idempotency p w s).0 ≡ ok stored
      → InsertEffect g cmd.idempotency p stored
          (resumed w s)
          (insert_tx g cmd.idempotency p w (resumed w s)).1
  unfolding insert_payment
  inserted cmd p stored h =
      let (e, _) = within_tx-ok (insert_tx g cmd.idempotency p) w s h in
      insert_tx-ok w (resumed w s) g cmd.idempotency p stored e

  -- What a new payment is for.
  abbrev IsCharge : BookingContext → Payment → Type 0
  IsCharge c stored =
      (stored.booking_id ≡ c.booking_id)
      × (stored.amount_minor ≡ c.amount_minor)
      × (stored.currency ≡ c.currency)
      × (stored.status ≡ pending)

  effect-IsCharge :
      (cmd : CreateCommand) (c : BookingContext) (id : String) (i : Intent) (now : Time)
      (stored : Payment) (s' : Session Own)
      → InsertEffect g cmd.idempotency (fresh cmd c id i now) stored (resumed w s) s'
      → IsCharge c stored
        ⊎ ((k : KeyRow) × (find_key cmd.idempotency.key (resumed w s).db.keys ≡ some k))
  unfolding new_payment
  effect-IsCharge cmd c id i now stored s' (made o new passed free own keys box) =
      inl (ground (arith, o))
  effect-IsCharge cmd c id i now stored s' (answered k found same there still) = inr (k, found)

  -- A charge that succeeds gives a pending payment for the booking of its context, of the amount and
  -- the currency that the context has, or the request's key was known when its transaction began;
  -- and Stripe created an intent of that amount and currency, under the request's key, whose secret
  -- is the one that is answered.
  pub charge_context :
      (provider : Provider) (now : Time) (new_id : Option String) (cmd : CreateCommand)
      (c : BookingContext) (stored : Payment) (secret : String)
      → (charge g provider now new_id cmd c w s).0 ≡ ok (stored, secret)
      → (((stored.booking_id ≡ c.booking_id)
            × (stored.amount_minor ≡ c.amount_minor)
            × (stored.currency ≡ c.currency)
            × (stored.status ≡ pending))
          ⊎ ((k : KeyRow) × (find_key cmd.idempotency.key (resumed w s).db.keys ≡ some k)))
        × ((i : Intent) × (provider
                (request_for c.booking_id c.amount_minor c.currency cmd.idempotency.key)
              ≡ ok i)
            × (i.client_secret ≡ secret))
  unfolding charge create_intent
  charge_context provider now new_id cmd c stored secret h =
      let req = request_for c.booking_id c.amount_minor c.currency cmd.idempotency.key in
      elim (Result-cases (generated new_id)) [
        | inr (x, e) ↦ absurd (ground (arith, h, e))
        | inl (id, e) ↦ elim (Result-cases (provider req)) [
          | inr (x, q) ↦ absurd (ground (arith, h, e, q))
          | inl (i, q) ↦
              let p = fresh cmd c id i now in
              elim (Result-cases (insert_payment g cmd.idempotency p w s).0) [
                | inr (x, r) ↦ absurd (ground (arith, h, e, q, r))
                | inl (out, r) ↦
                    let same : out ≡ stored = ground (arith, h, e, q, r) in
                    (
                      effect-IsCharge cmd c id i now stored _
                          (inserted cmd p stored (ground (arith, r, same))),
                      (i, q, ground (arith, h, e, q, r)),
                    )
              ]
        ]
      ]
