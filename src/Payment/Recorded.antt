-- ===== src/Payment/Recorded.antt =====
-- What the body of the payment store's `RecordOutcome` did when it succeeded.
use wakewake.Prelude.{
  ◌+◌, ◌≡◌, inl, inr, arith, String, ◌==◌, Bool, true, false, ◌&&◌, Option, none, some, List,
  Bool-cases, Option-cases, countb,
}
use wakewake.Contracts.Events.{Emission}
use wakewake.Platform.Session.{ok, World, Session, sql, pure, lift, ◌>>=◌, ◌>>◌}
use wakewake.Platform.Rules.{>>=-ok}
use wakewake.Platform.Outbox.{stage_all}
use wakewake.Platform.Keyed.{Engine, find_by, replace_by}
use wakewake.Platform.Staging.{is_event_of, is_emission_of, stage_all-ok}
use wakewake.Payment.Lifecycle.{Payment, Transition}
use wakewake.Payment.Table.{
  Own, StripeEvent, payment_id, by_intent, failed_check, select_intent, set_columns, update_row,
  insert_stripe_event,
}
use wakewake.Payment.Store.{
  StoreAction, OutcomeResult, aggregate_type, outcome, same_status, is_empty, settle_payment,
  record_new, record_found, record_intent, record_tx,
}

-- The two ways in which the body of `RecordOutcome` leaves the payments.
pub data RecordEffect (g : Engine) (intent : String) (fn : Transition) (out : OutcomeResult)
    (s s' : Session Own) : Type 0 where
  kept :
      out.changed ≡ false
      → s'.db.own.payments ≡ s.db.own.payments
      → s'.db.keys ≡ s.db.keys
      → s'.db.outbox ≡ s.db.outbox
      → RecordEffect g intent fn out s s'
  moved :
      (p next old row : Payment)
      → find_by by_intent intent s.db.own.payments ≡ some p
      → (es : List Emission) → fn p ≡ ok (next, es)
      → find_by payment_id next.id s.db.own.payments ≡ some old
      → row ≡ set_columns next old
      → failed_check g row ≡ none
      → out ≡ outcome false true row
      → s'.db.own.payments ≡ replace_by payment_id row s.db.own.payments
      → s'.db.keys ≡ s.db.keys
      → ((event id : String)
          → countb (is_event_of event id) s'.db.outbox
            ≡ countb (is_event_of event id) s.db.outbox + countb (is_emission_of event id) es)
      → RecordEffect g intent fn out s s'

-- What an UPDATE did.
module _ (w : World Own) (s : Session Own) where
  update_row-ok :
      (g : Engine) (next row : Payment)
      → (sql (update_row g next) w s).0 ≡ ok row
      → (old : Payment) × (find_by payment_id next.id s.db.own.payments ≡ some old)
        × (row ≡ set_columns next old)
        × (failed_check g row ≡ none)
        × ((sql (update_row g next) w s).1.db ≡ record s.db {
          own = record s.db.own { payments = replace_by payment_id row s.db.own.payments };
        })
  unfolding sql update_row
  update_row-ok g next row h = elim (Option-cases (find_by payment_id next.id s.db.own.payments)) [
    | inl e ↦ absurd (ground arith)
    | inr (old, e) ↦ (old, e, ground arith, ground arith, ground arith)
  ]

module _ (g : Engine) (w : World Own) (s : Session Own) where
  settle_same :
      (p next : Payment) (es : List Emission)
      → same_status next.status p.status && is_empty es ≡ true
      → settle_payment g p (next, es) w s ≡ (ok (outcome false false p), s)
  unfolding settle_payment
  settle_same p next es e = ground arith

  abbrev move : Payment → List Emission → StoreAction OutcomeResult
  move next es = do
    updated ← sql (update_row g next)
    stage_all aggregate_type es
    pure (outcome false true updated)

  settle_move :
      (p next : Payment) (es : List Emission)
      → same_status next.status p.status && is_empty es ≡ false
      → settle_payment g p (next, es) w s ≡ move next es w s
  unfolding settle_payment
  settle_move p next es e = ground arith

  move-ok :
      (intent : String) (fn : Transition) (p next : Payment) (es : List Emission)
      (out : OutcomeResult)
      → find_by by_intent intent s.db.own.payments ≡ some p
      → fn p ≡ ok (next, es)
      → (move next es w s).0 ≡ ok out
      → RecordEffect g intent fn out s (move next es w s).1
  move-ok intent fn p next es out found did h =
      let k : Payment → StoreAction OutcomeResult =
        λ row. stage_all aggregate_type es >> pure (outcome false true row) in
      let (row, e, run) = >>=-ok (sql (update_row g next)) k w s h in
      let (old, there, columns, passed, at) = update_row-ok w s g next row e in
      let s1 = (sql (update_row g next) w s).1 in
      let (_, st, run') =
        >>=-ok (stage_all aggregate_type es) (λ _. pure (outcome false true row)) w s1
          (rw run at h) in
      let staged = stage_all-ok aggregate_type w es s1 st in
      moved p next old row found es did there columns passed (ground (arith, run, run', h))
        (ground (arith, run, run', staged.own, at)) (ground (arith, run, run', staged.keys, at))
        (λ event id. ground (arith, run, run', staged.counts event id, at))

  settle-ok :
      (intent : String) (fn : Transition) (p next : Payment) (es : List Emission)
      (out : OutcomeResult)
      → find_by by_intent intent s.db.own.payments ≡ some p
      → fn p ≡ ok (next, es)
      → (settle_payment g p (next, es) w s).0 ≡ ok out
      → RecordEffect g intent fn out s (settle_payment g p (next, es) w s).1
  settle-ok intent fn p next es out found did h =
      elim (Bool-cases (same_status next.status p.status && is_empty es)) [
        | inl e ↦
            let run = settle_same p next es e in
            kept (ground (arith, run, h)) (ground (arith, run)) (ground (arith, run))
              (ground (arith, run))
        | inr e ↦
            let run = settle_move p next es e in
            rw run (move-ok intent fn p next es out found did (rw run at h))
      ]

module _ (g : Engine) (w : World Own) where
  -- An effect from a session whose payments, keys and outbox are another's.
  RecordEffect-from :
      (intent : String) (fn : Transition) (out : OutcomeResult) (s s1 s' : Session Own)
      → s1.db.own.payments ≡ s.db.own.payments
      → s1.db.keys ≡ s.db.keys
      → s1.db.outbox ≡ s.db.outbox
      → RecordEffect g intent fn out s1 s'
      → RecordEffect g intent fn out s s'
  RecordEffect-from intent fn out s s1 s' a b c (kept o own keys box) =
      kept o (ground (arith, own, a)) (ground (arith, keys, b)) (ground (arith, box, c))
  RecordEffect-from intent fn out s s1 s' a b c
        (moved p next old row found es did there columns passed o own keys counts) =
      moved p next old row (ground (arith, found, a)) es did (ground (arith, there, a)) columns
        passed o (ground (arith, own, a)) (ground (arith, keys, b))
        (λ event id. ground (arith, counts event id, c))

  stripe-ok :
      (s : Session Own) (e : StripeEvent) (new : Bool)
      → (sql (insert_stripe_event e) w s).0 ≡ ok new
      → ((sql (insert_stripe_event e) w s).1.db.own.payments ≡ s.db.own.payments)
        × ((sql (insert_stripe_event e) w s).1.db.keys ≡ s.db.keys)
        × ((sql (insert_stripe_event e) w s).1.db.outbox ≡ s.db.outbox)
  unfolding sql insert_stripe_event
  stripe-ok s e new h = ground arith

  new-ok :
      (intent : String) (fn : Transition) (p : Payment) (new : Bool) (out : OutcomeResult)
      (s : Session Own)
      → find_by by_intent intent s.db.own.payments ≡ some p
      → (record_new g fn p new w s).0 ≡ ok out
      → RecordEffect g intent fn out s (record_new g fn p new w s).1
  unfolding record_new
  new-ok intent fn p false out s found h =
      kept (ground (arith, h)) (ground arith) (ground arith) (ground arith)
  new-ok intent fn p true out s found h =
      let ((next, es), did, run) = >>=-ok (lift (fn p)) (settle_payment g p) w s h in
      rw run (settle-ok g w s intent fn p next es out found did (rw run at h))

  found-ok :
      (e : StripeEvent) (intent : String) (fn : Transition) (p : Payment) (out : OutcomeResult)
      (s : Session Own)
      → find_by by_intent intent s.db.own.payments ≡ some p
      → (record_found g e fn p w s).0 ≡ ok out
      → RecordEffect g intent fn out s (record_found g e fn p w s).1
  unfolding record_found
  found-ok e intent fn p out s found h =
      let (new, did, run) = >>=-ok (sql (insert_stripe_event e)) (record_new g fn p) w s h in
      let (a, b, c) = stripe-ok s e new did in
      let s1 = (sql (insert_stripe_event e) w s).1 in
      rw run (
        RecordEffect-from intent fn out s s1 _ a b c
          (new-ok intent fn p new out s1 (ground (arith, found, a)) (rw run at h)))

module _ (g : Engine) (w : World Own) (s : Session Own) where
  intent-ok :
      (e : StripeEvent) (intent : String) (fn : Transition) (o : Option Payment)
      (out : OutcomeResult)
      → find_by by_intent intent s.db.own.payments ≡ o
      → (record_intent g e fn o w s).0 ≡ ok out
      → RecordEffect g intent fn out s (record_intent g e fn o w s).1
  intent-ok e intent fn none out found h =
      kept (ground (arith, h)) (ground arith) (ground arith) (ground arith)
  intent-ok e intent fn (some p) out found h = elim (Bool-cases (p.correlation_id == "")) [
    | inl q ↦ rw q (found-ok g w e intent fn p out s found (rw q at h))
    | inr q ↦ rw q (
        found-ok g (record w { correlation = p.correlation_id }) e intent fn p out s found
          (rw q at h))
  ]

  look-ok :
      (intent : String) (o : Option Payment)
      → (sql (select_intent intent) w s).0 ≡ ok o
      → (find_by by_intent intent s.db.own.payments ≡ o)
        × ((sql (select_intent intent) w s).1.db ≡ s.db)
  unfolding sql select_intent
  look-ok intent o h = ground arith

module _ (g : Engine) (w : World Own) (s : Session Own) where
  pub record_tx-ok :
      (e : StripeEvent) (intent : String) (fn : Transition) (out : OutcomeResult)
      → (record_tx g e intent fn w s).0 ≡ ok out
      → RecordEffect g intent fn out s (record_tx g e intent fn w s).1
  unfolding record_tx
  record_tx-ok e intent fn out h =
      let (o, did, run) = >>=-ok (sql (select_intent intent)) (record_intent g e fn) w s h in
      let s1 = (sql (select_intent intent) w s).1 in
      let (found, same) = look-ok g w s intent o did in
      rw run (
        RecordEffect-from g w intent fn out s s1 _ (ground (arith, same)) (ground (arith, same))
          (ground (arith, same))
          (intent-ok g w s1 e intent fn o out (ground (arith, found, same)) (rw run at h)))
