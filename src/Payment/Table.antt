-- ===== src/Payment/Table.antt =====
-- The SQL of services/payment/internal/infra/store.go on the tables of
-- services/payment/migrations/0001_payment.sql, 0005_booking_context.sql and 0006_stripe_event.sql.
use wakewake.Prelude.{
  String, ◌==◌, Bool, true, false, not, Option, none, some, List, ◌∷◌, if◌then◌else◌,
}
use wakewake.Prelude.Int.{pos, ltb_ℤ}
use wakewake.Contracts.Events.{Time}
use wakewake.Platform.Session.{Db, no_rows, Result, ok, err}
use wakewake.Platform.Tx.{unique_violation, check_violation}
use wakewake.Platform.Keyed.{Engine, refuse, find_by, replace_by}
use wakewake.Payment.Lifecycle.{
  PaymentError, Payment, BookingContext, Status, is_failed, provider_stripe,
}

-- A row of `stripe_event`.
pub record StripeEvent : Type 0 where
  pub event_id : String
  pub event_type : String

pub record Own : Type 0 where
  pub payments : List Payment
  pub contexts : List BookingContext
  pub stripe_events : List StripeEvent

abbrev pub Tables : Type 0
Tables = Db Own

abbrev pub payment_id : Payment → String
payment_id p = p.id

abbrev pub by_booking : Payment → String
by_booking p = p.booking_id

abbrev pub by_intent : Payment → String
by_intent p = p.provider_payment_id

abbrev pub context_id : BookingContext → String
context_id c = c.booking_id

abbrev pub stripe_id : StripeEvent → String
stripe_id e = e.event_id

-- payment_failed_iff_failure_code
abbrev pub failed_iff_code : Status → Option String → Bool
failed_iff_code s none = not (is_failed s)
failed_iff_code s (some _) = is_failed s

-- The CHECKs of the table `payment`, by the name of the first that a row fails.
unfoldable pub failed_check : Engine → Payment → Option String
failed_check g p =
    if ltb_ℤ p.amount_minor (pos 0)
    then some "payment_amount_minor_check"
    else (if not (g.is_currency p.currency)
        then some "payment_currency_check"
        else (if not (p.provider == provider_stripe)
            then some "payment_provider_check"
            else (if not (failed_iff_code p.status p.failure_code)
                then some "payment_failed_iff_failure_code"
                else none)))

-- The first unique index that a new row meets.
abbrev pub taken : Payment → List Payment → Option String
taken p ps = elim (find_by payment_id p.id ps) [
  | some _ ↦ some "payment_pkey"
  | none ↦ elim (find_by by_booking p.booking_id ps) [
    | some _ ↦ some "payment_booking_id_unique"
    | none ↦ elim (find_by by_intent p.provider_payment_id ps) [
      | some _ ↦ some "payment_provider_payment_id_idx"
      | none ↦ none
    ]
  ]
]

abbrev pub new_row : Payment → Time → Payment
new_row p now = record p { created_at = now; updated_at = now }

-- insertPaymentSQL
unfoldable pub insert_row :
    Engine → Payment → Time → Tables → Result PaymentError (Payment × Tables)
insert_row g p now db = elim (failed_check g (new_row p now)) [
  | some constraint ↦ refuse check_violation constraint
  | none ↦ elim (taken p db.own.payments) [
    | some constraint ↦ refuse unique_violation constraint
    | none ↦ ok (
      new_row p now,
      record db { own = record db.own { payments = new_row p now ∷ db.own.payments } },
    )
  ]
]

-- selectByIDSQL and selectByBookingSQL, by the column.
unfoldable pub select_row :
    (Payment → String) → String → Time → Tables → Result PaymentError (Payment × Tables)
select_row key k now db = elim (find_by key k db.own.payments) [
  | none ↦ err no_rows
  | some p ↦ ok (p, db)
]

-- selectByProviderForUpdateSQL, with no row as no payment.
unfoldable pub select_intent :
    String → Time → Tables → Result PaymentError (Option Payment × Tables)
select_intent intent now db = ok (find_by by_intent intent db.own.payments, db)

abbrev pub set_columns : Payment → Payment → Payment
set_columns next old = record old {
  status = next.status;
  failure_code = next.failure_code;
  updated_at = next.updated_at;
}

-- updatePaymentSQL
unfoldable pub update_row :
    Engine → Payment → Time → Tables → Result PaymentError (Payment × Tables)
update_row g next now db = elim (find_by payment_id next.id db.own.payments) [
  | none ↦ err no_rows
  | some old ↦ elim (failed_check g (set_columns next old)) [
    | some constraint ↦ refuse check_violation constraint
    | none ↦ ok (
      set_columns next old,
      record db {
        own = record db.own {
          payments = replace_by payment_id (set_columns next old) db.own.payments;
        };
      },
    )
  ]
]

-- insertStripeEventSQL; the value is RowsAffected() ≠ 0.
unfoldable pub insert_stripe_event :
    StripeEvent → Time → Tables → Result PaymentError (Bool × Tables)
insert_stripe_event e now db = elim (find_by stripe_id e.event_id db.own.stripe_events) [
  | some _ ↦ ok (false, db)
  | none ↦ ok (true, record db { own = record db.own { stripe_events = e ∷ db.own.stripe_events } })
]

-- INSERT INTO booking_context ... ON CONFLICT DO NOTHING; the CHECKs come before the conflict.
unfoldable pub insert_context :
    Engine → BookingContext → Time → Tables → Result PaymentError (Unit {0} × Tables)
insert_context g c now db =
    if ltb_ℤ c.amount_minor (pos 0)
    then refuse check_violation "booking_context_amount_minor_check"
    else (if not (g.is_currency c.currency)
        then refuse check_violation "booking_context_currency_check"
        else elim (find_by context_id c.booking_id db.own.contexts) [
          | some _ ↦ ok (tt, db)
          | none ↦ ok (tt, record db { own = record db.own { contexts = c ∷ db.own.contexts } })
        ])
