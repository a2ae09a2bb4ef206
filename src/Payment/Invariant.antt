-- ===== src/Payment/Invariant.antt =====
-- The invariant of the payment database (migrations/0001_payment.sql and the outbox), and the bodies
-- of the transactions of internal/infra/store.go.
use wakewake.Prelude.{
  ℕ, ◌+◌, ◌≤◌, ◌≡◌, sym, ◌≢◌, inl, inr, arith, String, ◌==◌, Bool, false, ◌&&◌, none, some, List,
  if◌then◌else◌, eq_iff, countb, All, subst, Option-cases,
}
use wakewake.Contracts.Events.{Time, Emission, payment_succeeded_event, payment_failed_event}
use wakewake.Platform.Session.{KeyRow, ok, Session}
use wakewake.Platform.Idempotency.{find_key}
use wakewake.Platform.Keyed.{
  Engine, find_by, All-replace_by, countb-replace_by, countb-none, find_by-replace_by-ne_none,
  find_by_unique,
}
use wakewake.Platform.Staging.{is_event_of, is_emission_of}
use wakewake.Payment.Lifecycle.{
  Payment, Transition, is_succeeded, is_failed, mark_succeeded, mark_failed, WebhookOutcome,
}
use wakewake.Payment.Table.{
  Own, Tables, payment_id, by_booking, by_intent, failed_check, taken, set_columns,
}
use wakewake.Payment.Service.{outcome_transition}
use wakewake.Payment.Store.{Claim, OutcomeResult}
use wakewake.Payment.Effects.{InsertEffect, made, answered}
use wakewake.Payment.Recorded.{RecordEffect, kept, moved}

abbrev pub has_id : String → Payment → Bool
has_id id p = p.id == id

abbrev pub has_booking : String → Payment → Bool
has_booking id p = p.booking_id == id

abbrev pub is_succeeded_id : String → Payment → Bool
is_succeeded_id id p = p.id == id && is_succeeded p.status

abbrev pub is_failed_id : String → Payment → Bool
is_failed_id id p = p.id == id && is_failed p.status

abbrev pub stated : String → String → Tables → ℕ
stated event id db = countb (is_event_of event id) db.outbox

-- One row at most for an id and for a booking, each passing the CHECKs; one PaymentSucceeded for each
-- payment that succeeded and one PaymentFailed for each that failed; every key stands for a row.
pub record IsConsistent (g : Engine) (db : Tables) : Type 0 where
  pub passed : All (λ p. failed_check g p ≡ none) db.own.payments
  pub unique : (id : String) → countb (has_id id) db.own.payments ≤ 1
  pub one_charge : (id : String) → countb (has_booking id) db.own.payments ≤ 1
  pub succeeded :
      (id : String)
      → stated payment_succeeded_event id db ≡ countb (is_succeeded_id id) db.own.payments
  pub failed :
      (id : String) → stated payment_failed_event id db ≡ countb (is_failed_id id) db.own.payments
  pub keys :
      (key : String) (k : KeyRow)
      → find_key key db.keys ≡ some k
      → find_by payment_id k.resource_id db.own.payments ≢ none

abbrev emitted : String → String → List Emission → ℕ
emitted event id es = countb (is_emission_of event id) es

abbrev one_if : Bool → ℕ
one_if b = if b then 1 else 0

-- What a transition may do: it keeps the id, and states a success or a failure exactly where it makes
-- one.
pub record IsLawful (fn : Transition) : Type 0 where
  pub id : (p next : Payment) (es : List Emission) → fn p ≡ ok (next, es) → next.id ≡ p.id
  pub succeeded :
      (p next : Payment) (es : List Emission) (id : String)
      → fn p ≡ ok (next, es)
      → emitted payment_succeeded_event id es + one_if (is_succeeded_id id p)
        ≡ one_if (is_succeeded_id id next)
  pub failed :
      (p next : Payment) (es : List Emission) (id : String)
      → fn p ≡ ok (next, es)
      → emitted payment_failed_event id es + one_if (is_failed_id id p)
        ≡ one_if (is_failed_id id next)

pub outcome-IsLawful : (o : WebhookOutcome) (now : Time) → IsLawful (outcome_transition o now)
unfolding outcome_transition mark_succeeded mark_failed
outcome-IsLawful o now = record {
  id = λ p next es e. ground arith;
  succeeded = λ p next es id e. ground arith;
  failed = λ p next es id e. ground arith;
}

taken-none :
    (p : Payment) (ps : List Payment)
    → taken p ps ≡ none
    → (find_by payment_id p.id ps ≡ none) × (find_by by_booking p.booking_id ps ≡ none)
taken-none p ps e = elim (Option-cases (find_by payment_id p.id ps)) [
  | inr (x, q) ↦ absurd (ground (arith, e, q))
  | inl q ↦ elim (Option-cases (find_by by_booking p.booking_id ps)) [
    | inr (x, q') ↦ absurd (ground (arith, e, q, q'))
    | inl q' ↦ (q, q')
  ]
]

module _ (g : Engine) (s s' : Session Own) where
  -- A payment that is inserted is pending.
  pub InsertEffect-IsConsistent :
      (c : Claim) (p out : Payment)
      → (is_succeeded p.status ≡ false) × (is_failed p.status ≡ false)
      → InsertEffect g c p out s s'
      → IsConsistent g s.db
      → IsConsistent g s'.db
  unfolding find_key find_by
  InsertEffect-IsConsistent c p out pend (made o fresh passed free own keys box) h =
      let (new_id, new_booking) = taken-none p s.db.own.payments free in
      record {
        passed = rw own (passed, h.passed);
        unique = λ id. ground (
          arith,
          own,
          h.unique id,
          countb-none payment_id p.id s.db.own.payments new_id,
          eq_iff p.id id,
        );
        one_charge = λ id. ground (
          arith,
          own,
          h.one_charge id,
          countb-none by_booking p.booking_id s.db.own.payments new_booking,
          eq_iff p.booking_id id,
        );
        succeeded = λ id. ground (arith, own, box, h.succeeded id, pend.0);
        failed = λ id. ground (arith, own, box, h.failed id, pend.1);
        keys = λ key k e. ground (arith, own, keys, h.keys key k, eq_iff p.id k.resource_id);
      }
  InsertEffect-IsConsistent c p out pend (answered k found same there still) h =
      subst (IsConsistent g) (sym still) h

  pub RecordEffect-IsConsistent :
      (intent : String) (fn : Transition) (out : OutcomeResult)
      → IsLawful fn
      → RecordEffect g intent fn out s s'
      → IsConsistent g s.db
      → IsConsistent g s'.db
  RecordEffect-IsConsistent intent fn out law (kept o own keys box) h = record {
    passed = rw own h.passed;
    unique = λ id. ground (arith, own, h.unique id);
    one_charge = λ id. ground (arith, own, h.one_charge id);
    succeeded = λ id. ground (arith, own, box, h.succeeded id);
    failed = λ id. ground (arith, own, box, h.failed id);
    keys = λ key k e. ground (arith, own, keys, h.keys key k);
  }
  RecordEffect-IsConsistent intent fn out law
        (moved p next old row found es did there columns passed o own keys counts) h =
      let nid = law.id p next es did in
      let itself =
        find_by_unique payment_id by_intent intent s.db.own.payments found (h.unique p.id) in
      let same : old ≡ p = ground (arith, there, nid, itself) in
      let it : find_by payment_id row.id s.db.own.payments ≡ some p =
        ground (arith, columns, same, itself) in
      let cols : row ≡ set_columns next p = ground (arith, columns, same) in
      let moves = λ (f : Payment → Bool). countb-replace_by payment_id f row s.db.own.payments it in
      record {
        passed = rw own (
            All-replace_by payment_id (λ r. failed_check g r ≡ none) row s.db.own.payments h.passed
              passed);
        unique = λ id. ground (arith, own, h.unique id, moves (has_id id), cols);
        one_charge = λ id. ground (arith, own, h.one_charge id, moves (has_booking id), cols);
        succeeded = λ id. ground (
          arith,
          own,
          counts payment_succeeded_event id,
          h.succeeded id,
          law.succeeded p next es id did,
          moves (is_succeeded_id id),
          cols,
          nid,
        );
        failed = λ id. ground (
          arith,
          own,
          counts payment_failed_event id,
          h.failed id,
          law.failed p next es id did,
          moves (is_failed_id id),
          cols,
          nid,
        );
        keys = λ key k e. ground (
          arith,
          own,
          keys,
          h.keys key k,
          find_by-replace_by-ne_none payment_id k.resource_id row s.db.own.payments,
        );
      }
