-- ===== src/Booking/Invariant.antt =====
-- The invariant of the booking database (migrations/0001_booking.sql and the outbox), and the bodies
-- of the transactions of internal/infra/store.go.
use wakewake.Prelude.{
  ℕ, ◌+◌, ◌≤◌, ◌≡◌, sym, ◌≢◌, arith, String, ◌==◌, Bool, ◌&&◌, Option, none, some, List,
  if◌then◌else◌, eq_iff, countb, All, subst,
}
use wakewake.Contracts.Events.{
  Time, Emission, booking_held_event, booking_confirmed_event, booking_cancelled_event,
}
use wakewake.Platform.Session.{KeyRow, ok, Session}
use wakewake.Platform.Idempotency.{find_key}
use wakewake.Platform.Keyed.{
  Engine, find_by, find_by-key, All-replace_by, countb-replace_by, countb-none,
  find_by-replace_by-ne_none,
}
use wakewake.Platform.Staging.{is_event_of, is_emission_of}
use wakewake.Booking.Lifecycle.{
  Booking, Transition, held_emission, is_held, is_confirmed, is_cancelled, confirm, cancel,
}
use wakewake.Booking.Table.{Tables, booking_id, failed_check, set_columns}
use wakewake.Booking.Store.{Claim}
use wakewake.Booking.Effects.{InsertEffect, made, answered}
use wakewake.Booking.Applied.{ApplyEffect, unchanged, written}

-- The rows of one id, and those in each of its states.
abbrev pub has_id : String → Booking → Bool
has_id id b = b.id == id

abbrev pub is_held_id : String → Booking → Bool
is_held_id id b = b.id == id && is_held b.status

abbrev pub is_confirmed_id : String → Booking → Bool
is_confirmed_id id b = b.id == id && is_confirmed b.status

abbrev pub is_cancelled_id : String → Booking → Bool
is_cancelled_id id b = b.id == id && is_cancelled b.status

abbrev pub stated : String → String → Tables → ℕ
stated event id db = countb (is_event_of event id) db.outbox

-- One row at most for an id, which passes the CHECKs; one BookingHeld for each row, one
-- BookingCancelled for each cancelled row; a BookingConfirmed for each confirmed row, and none for a
-- row that is held; every key stands for a row.
pub record IsConsistent (g : Engine) (db : Tables) : Type 0 where
  pub passed : All (λ b. failed_check g b ≡ none) db.own
  pub unique : (id : String) → countb (has_id id) db.own ≤ 1
  pub held : (id : String) → stated booking_held_event id db ≡ countb (has_id id) db.own
  pub cancelled :
      (id : String) → stated booking_cancelled_event id db ≡ countb (is_cancelled_id id) db.own
  pub confirmed :
      (id : String) → countb (is_confirmed_id id) db.own ≤ stated booking_confirmed_event id db
  pub once :
      (id : String)
      → stated booking_confirmed_event id db + countb (is_held_id id) db.own
        ≤ countb (has_id id) db.own
  pub keys :
      (key : String) (k : KeyRow)
      → find_key key db.keys ≡ some k
      → find_by booking_id k.resource_id db.own ≢ none

abbrev emitted : String → String → List Emission → ℕ
emitted event id es = countb (is_emission_of event id) es

abbrev one_if : Bool → ℕ
one_if b = if b then 1 else 0

-- What a transition may do: it keeps the id, states no hold, states a cancellation exactly where it
-- cancels, and a confirmation exactly where it confirms a booking that was held.
pub record IsLawful (fn : Transition) : Type 0 where
  pub id : (b next : Booking) (es : List Emission) → fn b ≡ ok (next, es) → next.id ≡ b.id
  pub held :
      (b next : Booking) (es : List Emission) (id : String)
      → fn b ≡ ok (next, es)
      → emitted booking_held_event id es ≡ 0
  pub cancelled :
      (b next : Booking) (es : List Emission) (id : String)
      → fn b ≡ ok (next, es)
      → emitted booking_cancelled_event id es + one_if (is_cancelled_id id b)
        ≡ one_if (is_cancelled_id id next)
  pub confirmed :
      (b next : Booking) (es : List Emission) (id : String)
      → fn b ≡ ok (next, es)
      → one_if (is_confirmed_id id next)
        ≤ emitted booking_confirmed_event id es + one_if (is_confirmed_id id b)
  pub once :
      (b next : Booking) (es : List Emission) (id : String)
      → fn b ≡ ok (next, es)
      → emitted booking_confirmed_event id es + one_if (is_held_id id next)
        ≤ one_if (is_held_id id b)

pub confirm-IsLawful : (payment_id : String) (now : Time) → IsLawful (confirm payment_id now)
unfolding confirm
confirm-IsLawful payment_id now = record {
  id = λ b next es e. ground arith;
  held = λ b next es id e. ground arith;
  cancelled = λ b next es id e. ground arith;
  confirmed = λ b next es id e. ground arith;
  once = λ b next es id e. ground arith;
}

pub cancel-IsLawful :
    (reason : String) (remark : Option String) (now : Time) → IsLawful (cancel reason remark now)
unfolding cancel
cancel-IsLawful reason remark now = record {
  id = λ b next es e. ground arith;
  held = λ b next es id e. ground arith;
  cancelled = λ b next es id e. ground arith;
  confirmed = λ b next es id e. ground arith;
  once = λ b next es id e. ground arith;
}

module _ (g : Engine) (s s' : Session (List Booking)) where
  pub InsertEffect-IsConsistent :
      (c : Claim) (b : Booking) (out : Booking × Bool)
      → InsertEffect g c b out s s'
      → IsConsistent g s.db
      → IsConsistent g s'.db
  unfolding held_emission find_key find_by
  InsertEffect-IsConsistent c b out (made o fresh facts own keys counts) h = record {
    passed = rw own (facts.passed, h.passed);
    unique = λ id.
        ground (
          arith,
          own,
          h.unique id,
          countb-none booking_id b.id s.db.own facts.fresh,
          eq_iff b.id id,
        );
    held = λ id. ground (arith, own, counts booking_held_event id, h.held id);
    cancelled = λ id. ground (arith, own, counts booking_cancelled_event id, h.cancelled id);
    confirmed = λ id. ground (arith, own, counts booking_confirmed_event id, h.confirmed id);
    once = λ id. ground (arith, own, counts booking_confirmed_event id, h.once id);
    keys = λ key k e. ground (arith, own, keys, h.keys key k, eq_iff b.id k.resource_id);
  }
  InsertEffect-IsConsistent c b out (answered k found same there flag kept) h =
      subst (IsConsistent g) (sym kept) h

  pub ApplyEffect-IsConsistent :
      (id : String) (fn : Transition) (out : Booking × Bool)
      → IsLawful fn
      → ApplyEffect g id fn out s s'
      → IsConsistent g s.db
      → IsConsistent g s'.db
  ApplyEffect-IsConsistent id fn out law (unchanged b found es next did same empty o kept) h =
      subst (IsConsistent g) (sym kept) h
  ApplyEffect-IsConsistent id fn out law (written b found es next did flag u own keys counts) h =
      let rid = find_by-key booking_id id s.db.own found in
      let nid = law.id b next es did in
      let old : u.old ≡ b = ground (arith, u.found, found, nid, rid) in
      let it : find_by booking_id out.0.id s.db.own ≡ some b =
        ground (arith, found, rid, u.columns, old) in
      let columns : out.0 ≡ set_columns next b = ground (arith, u.columns, old) in
      let moved = λ (p : Booking → Bool). countb-replace_by booking_id p out.0 s.db.own it in
      record {
        passed = rw own (
            All-replace_by booking_id (λ r. failed_check g r ≡ none) out.0 s.db.own h.passed
              u.passed);
        unique = λ agg. ground (arith, own, h.unique agg, moved (has_id agg), columns);
        held = λ agg. ground (
          arith,
          own,
          counts booking_held_event agg,
          h.held agg,
          law.held b next es agg did,
          moved (has_id agg),
          columns,
        );
        cancelled = λ agg. ground (
          arith,
          own,
          counts booking_cancelled_event agg,
          h.cancelled agg,
          law.cancelled b next es agg did,
          moved (is_cancelled_id agg),
          columns,
          nid,
        );
        confirmed = λ agg. ground (
          arith,
          own,
          counts booking_confirmed_event agg,
          h.confirmed agg,
          law.confirmed b next es agg did,
          moved (is_confirmed_id agg),
          columns,
          nid,
        );
        once = λ agg. ground (
          arith,
          own,
          counts booking_confirmed_event agg,
          h.once agg,
          law.once b next es agg did,
          moved (is_held_id agg),
          moved (has_id agg),
          columns,
          nid,
        );
        keys = λ key k e. ground (
          arith,
          own,
          keys,
          h.keys key k,
          find_by-replace_by-ne_none booking_id k.resource_id out.0 s.db.own,
        );
      }
