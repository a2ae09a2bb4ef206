-- ===== src/Payment/Store.antt =====
-- services/payment/internal/infra/store.go: payments, their keys, Stripe's events and the events of
-- this service are written in one transaction.
use wakewake.Prelude.{
  String, ◌==◌, Bool, true, false, ◌&&◌, Option, none, some, List, [], if◌then◌else◌,
}
use wakewake.Contracts.Events.{Emission}
use wakewake.Platform.Session.{
  Error, domain, no_rows, key_reuse, KeyRow, Result, ok, err, Action, pure, fail, lift, catch, kick,
  ◌>>=◌, ◌>>◌, sql, query,
}
use wakewake.Platform.Tx.{is, constraint_name, unique_violation, within_tx}
use wakewake.Platform.Keyed.{Engine, find_by}
use wakewake.Platform.Idempotency.{claim, find_key}
use wakewake.Platform.Outbox.{stage_all}
use wakewake.Payment.Lifecycle.{
  PaymentError, booking_not_found, payment_already_exists, payment_not_found, idempotency_key_reuse,
  Status, pending, succeeded, failed, Payment, BookingContext, Transition,
}
use wakewake.Payment.Table.{
  Own, StripeEvent, payment_id, by_booking, context_id, insert_row, select_row, select_intent,
  update_row, insert_stripe_event, insert_context,
}

abbrev pub StoreAction : Type 0 → Type 0
StoreAction A = Action PaymentError Own A

-- `domain.Claim`
pub record Claim : Type 0 where
  pub key : String
  pub fingerprint : String

-- What a webhook did.
pub record OutcomeResult : Type 0 where
  pub found : Bool
  pub duplicate : Bool
  pub changed : Bool
  pub payment : Option Payment

abbrev pub aggregate_type : String
aggregate_type = "payment"

-- ErrNoRows as a domain error.
abbrev pub missing_as : PaymentError → Error PaymentError → Error PaymentError
missing_as d no_rows = domain d
missing_as d e = e

-- ErrNoRows as no value.
abbrev pub found_or_none : {A : Type 0} → Result PaymentError A → Result PaymentError (Option A)
found_or_none (ok a) = ok (some a)
found_or_none (err no_rows) = ok none
found_or_none (err e) = err e

abbrev pub value_of : {A B : Type 0} → Result PaymentError (A × B) → Result PaymentError A
value_of (ok (a, _)) = ok a
value_of (err e) = err e

-- `BookingContext`
unfoldable pub booking_context : String → StoreAction BookingContext
booking_context id = query λ now db. elim (find_by context_id id db.own.contexts) [
  | none ↦ err (domain booking_not_found)
  | some c ↦ ok c
]

-- `PaymentByBooking`
unfoldable pub payment_by_booking : String → StoreAction (Option Payment)
payment_by_booking id = query λ now db. found_or_none (value_of (select_row by_booking id now db))

-- `ByID`
unfoldable pub by_id : String → StoreAction Payment
by_id id =
    catch (query λ now db. value_of (select_row payment_id id now db))
      (λ e. fail (missing_as payment_not_found e))

-- `FindIdempotent`
unfoldable pub find_idempotent : String → StoreAction (Option KeyRow)
find_idempotent key = query λ now db. ok (find_key key db.keys)

abbrev pub translate_claim : Error PaymentError → Error PaymentError
translate_claim key_reuse = domain idempotency_key_reuse
translate_claim e = e

unfoldable pub translate_insert : Error PaymentError → Error PaymentError
translate_insert e =
    if is e unique_violation && constraint_name e == "payment_booking_id_unique"
    then domain payment_already_exists
    else e

abbrev pub same_status : Status → Status → Bool
same_status pending pending = true
same_status succeeded succeeded = true
same_status failed failed = true
same_status _ _ = false

abbrev pub is_empty : List Emission → Bool
is_empty [] = true
is_empty _ = false

abbrev pub outcome : Bool → Bool → Payment → OutcomeResult
outcome duplicate changed p = record {
  found = true;
  duplicate = duplicate;
  changed = changed;
  payment = some p;
}

-- `correlation.WithID(ctx, current.CorrelationID)`, where the payment has one.
abbrev pub with_correlation : {A : Type 0} → String → StoreAction A → StoreAction A
with_correlation id m w s = if id == "" then m w s else m (record w { correlation = id }) s

module _ (g : Engine) where
  -- The body of `InsertPayment`'s transaction after the claim.
  unfoldable pub insert_claimed : Payment → String × Bool → StoreAction Payment
  insert_claimed p (existing_id, true) = sql (select_row payment_id existing_id)
  insert_claimed p (existing_id, false) =
      catch (sql (insert_row g p)) (λ e. fail (translate_insert e))

  unfoldable pub insert_tx : Claim → Payment → StoreAction Payment
  insert_tx c p = do
    claimed ← catch (claim c.key c.fingerprint p.id) (λ e. fail (translate_claim e))
    insert_claimed p claimed

  -- `InsertPayment`
  unfoldable pub insert_payment : Claim → Payment → StoreAction Payment
  insert_payment c p = within_tx (insert_tx c p)

  -- What the transition decided is written, unless the payment was settled before.
  unfoldable pub settle_payment : Payment → Payment × List Emission → StoreAction OutcomeResult
  settle_payment current (next, emissions) =
      if same_status next.status current.status && is_empty emissions
      then pure (outcome false false current)
      else (do
        updated ← sql (update_row g next)
        stage_all aggregate_type emissions
        pure (outcome false true updated))

  -- After the insert of Stripe's event.
  unfoldable pub record_new : Transition → Payment → Bool → StoreAction OutcomeResult
  record_new fn current false = pure (outcome true false current)
  record_new fn current true = do decided ← lift (fn current); settle_payment current decided

  unfoldable pub record_found : StripeEvent → Transition → Payment → StoreAction OutcomeResult
  record_found e fn current = do new ← sql (insert_stripe_event e); record_new fn current new

  abbrev pub record_intent : StripeEvent → Transition → Option Payment → StoreAction OutcomeResult
  record_intent e fn none =
      pure (record { found = false; duplicate = false; changed = false; payment = none })
  record_intent e fn (some current) =
      with_correlation current.correlation_id (record_found e fn current)

  -- The body of `RecordOutcome`'s transaction.
  unfoldable pub record_tx : StripeEvent → String → Transition → StoreAction OutcomeResult
  record_tx e intent fn = do current ← sql (select_intent intent); record_intent e fn current

  abbrev pub kick_if_changed : OutcomeResult → StoreAction OutcomeResult
  kick_if_changed r = if r.changed then kick >> pure r else pure r

  -- `RecordOutcome`
  unfoldable pub record_outcome : StripeEvent → String → Transition → StoreAction OutcomeResult
  record_outcome e intent fn = do result ← within_tx (record_tx e intent fn); kick_if_changed result

  -- `UpsertBookingContext`
  unfoldable pub upsert_booking_context : BookingContext → StoreAction (Unit {0})
  upsert_booking_context c = sql (insert_context g c)
