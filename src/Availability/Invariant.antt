-- ===== src/Availability/Invariant.antt =====
-- The invariant of the availability database (migrations/0001_reservation.sql and the outbox), and the
-- bodies of the transactions of internal/infra/store.go.
use wakewake.Prelude.{
  ℕ, ◌+◌, ◌≡◌, refl, sym, ◌≢◌, arith, String, ◌==◌, Bool, ◌&&◌, none, some, List, if◌then◌else◌,
  eq_iff, countb, subst,
}
use wakewake.Contracts.Events.{
  Time, Emission, reservation_created_event, reservation_released_event,
}
use wakewake.Platform.Session.{OutboxRow, KeyRow, ok, Session}
use wakewake.Platform.Idempotency.{find_key}
use wakewake.Platform.Staging.{is_event_of, is_emission_of}
use wakewake.Availability.Reservation.{
  Reservation, Transition, created_emission, is_released, confirm, release, release_if_expired,
  reason_hold_expired,
}
use wakewake.Availability.Table.{Tables, find, held_row, set_columns}
use wakewake.Availability.Rows.{
  IsSound, Apart-of_new, IsSound-replace, find-IsRow, find-id, countb-replace, find-replace-ne_none,
}
use wakewake.Availability.Store.{Claim}
use wakewake.Availability.Effects.{InsertEffect, made, answered}
use wakewake.Availability.Applied.{ApplyEffect, unchanged, written}

-- The rows of one id, and those that are released.
abbrev pub has_id : String → Reservation → Bool
has_id id r = r.id == id

abbrev pub is_released_id : String → Reservation → Bool
is_released_id id r = r.id == id && is_released r.status

-- `gone` are the rows that the relay has deleted from the outbox since. Rows that the constraints let
-- in; one ReservationCreated for each row, one ReservationReleased for each released row, and none
-- else, in the outbox and `gone` together; every key stands for a row.
pub record IsConsistent (gone : List OutboxRow) (db : Tables) : Type 0 where
  pub sound : IsSound db.own
  pub created :
      (id : String)
      → countb (is_event_of reservation_created_event id) db.outbox
          + countb (is_event_of reservation_created_event id) gone
        ≡ countb (has_id id) db.own
  pub released :
      (id : String)
      → countb (is_event_of reservation_released_event id) db.outbox
          + countb (is_event_of reservation_released_event id) gone
        ≡ countb (is_released_id id) db.own
  pub keys :
      (key : String) (k : KeyRow) → find_key key db.keys ≡ some k → find k.resource_id db.own ≢ none

-- What a transition may do: it keeps the id, states no creation, and states one release where it
-- releases.
pub record IsLawful (fn : Transition) : Type 0 where
  pub id : (r next : Reservation) (es : List Emission) → fn r ≡ ok (next, es) → next.id ≡ r.id
  pub created :
      (r next : Reservation) (es : List Emission) (id : String)
      → fn r ≡ ok (next, es)
      → countb (is_emission_of reservation_created_event id) es ≡ 0
  pub released :
      (r next : Reservation) (es : List Emission) (id : String)
      → fn r ≡ ok (next, es)
      → countb (is_emission_of reservation_released_event id) es
          + (if is_released_id id r then 1 else 0)
        ≡ (if is_released_id id next then 1 else 0)

pub confirm-IsLawful : (now : Time) → IsLawful (confirm now)
unfolding confirm
confirm-IsLawful now = record {
  id = λ r next es e. ground arith;
  created = λ r next es id e. ground arith;
  released = λ r next es id e. ground arith;
}

pub release-IsLawful : (reason : String) (now : Time) → IsLawful (release reason now)
unfolding release
release-IsLawful reason now = record {
  id = λ r next es e. ground arith;
  created = λ r next es id e. ground arith;
  released = λ r next es id e. ground arith;
}

pub release_if_expired-IsLawful : (now : Time) → IsLawful (release_if_expired now)
unfolding release_if_expired
release_if_expired-IsLawful now =
    let law = release-IsLawful reason_hold_expired now in
    record {
      id = λ r next es e. ground (arith, law.id r next es);
      created = λ r next es id e. ground (arith, law.created r next es id);
      released = λ r next es id e. ground (arith, law.released r next es id);
    }

module _ {gone : List OutboxRow} (s s' : Session (List Reservation)) where
  pub InsertEffect-IsConsistent :
      (c : Claim) (r : Reservation) (ttl : ℕ) (out : Reservation × Bool)
      → InsertEffect c r ttl out s s'
      → IsConsistent gone s.db
      → IsConsistent gone s'.db
  unfolding created_emission find_key find
  InsertEffect-IsConsistent c r ttl out (made o fresh facts own keys counts) h = record {
    sound = rw own (
      record { window = facts.window; expiry = refl; reason = refl },
      Apart-of_new (held_row r ttl s.now) s.db.own facts.fresh facts.free,
      h.sound,
    );
    created = λ id. ground (arith, counts reservation_created_event id, own, h.created id);
    released = λ id. ground (arith, counts reservation_released_event id, own, h.released id);
    keys = λ key k e. ground (arith, own, keys, h.keys key k, eq_iff r.id k.resource_id);
  }
  InsertEffect-IsConsistent c r ttl out (answered k found same there flag kept) h =
      subst (IsConsistent gone) (sym kept) h

  pub ApplyEffect-IsConsistent :
      (id : String) (fn : Transition) (out : Reservation × Bool)
      → IsLawful fn
      → ApplyEffect id fn out s s'
      → IsConsistent gone s.db
      → IsConsistent gone s'.db
  ApplyEffect-IsConsistent id fn out law (unchanged r found es next did same empty o kept) h =
      subst (IsConsistent gone) (sym kept) h
  ApplyEffect-IsConsistent id fn out law (written r found es next did flag u own keys counts) h =
      let rid = find-id id s.db.own found in
      let nid = law.id r next es did in
      let old : u.old ≡ r = ground (arith, u.found, found, nid, rid) in
      let it : find out.0.id s.db.own ≡ some r = ground (arith, found, rid, u.columns, old) in
      let columns : out.0 ≡ set_columns next r = ground (arith, u.columns, old) in
      let row = find-IsRow id s.db.own h.sound found in
      record {
        sound = rw own (
            IsSound-replace out.0 s.db.own h.sound
              (record {
                window = ground (arith, row.window, columns);
                expiry = u.expiry;
                reason = u.reason;
              })
              u.free);
        created = λ agg. ground (
          arith,
          own,
          counts reservation_created_event agg,
          h.created agg,
          law.created r next es agg did,
          countb-replace (has_id agg) out.0 s.db.own it,
          columns,
        );
        released = λ agg. ground (
          arith,
          own,
          counts reservation_released_event agg,
          h.released agg,
          law.released r next es agg did,
          countb-replace (is_released_id agg) out.0 s.db.own it,
          columns,
          nid,
        );
        keys = λ key k e.
            ground
              (arith, own, keys, h.keys key k, find-replace-ne_none k.resource_id out.0 s.db.own);
      }
