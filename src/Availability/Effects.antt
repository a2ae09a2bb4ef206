-- ===== src/Availability/Effects.antt =====
-- What the body of the store's `Insert` did when it succeeded.
use wakewake.Prelude.{
  ℕ, ◌+◌, ◌<◌, ◌≡◌, arith, String, Bool, true, false, none, some, List, [], ◌∷◌, countb,
}
use wakewake.Contracts.Events.{Time}
use wakewake.Platform.Session.{KeyRow, ok, World, Session, sql, fail, pure, catch, ◌>>◌}
use wakewake.Platform.Rules.{>>=-ok, sql-ok, catch-ok}
use wakewake.Platform.Idempotency.{find_key, claim}
use wakewake.Platform.Outbox.{stage_as}
use wakewake.Platform.Staging.{
  Claimed, entered, replayed, claim-ok, stage_as-ok, is_event_of, is_emission_of,
}
use wakewake.Availability.Reservation.{DomainError, Reservation, created_emission}
use wakewake.Availability.Table.{Tables, find, is_excluded, held_row, insert_row, select_row}
use wakewake.Availability.Store.{
  Claim, aggregate_type, translate_insert, translate_claim, insert_claimed, insert_tx,
}

-- An INSERT that succeeds met no row with its id, and no live row in its window.
pub record Inserted (r : Reservation) (ttl : ℕ) (now : Time) (db : Tables) : Type 0 where
  pub window : r.starts_at < r.ends_at
  pub fresh : find r.id db.own ≡ none
  pub free : is_excluded (held_row r ttl now) db.own ≡ false

insert_row-ok :
    (r : Reservation) (ttl : ℕ) (now : Time) (db db' : Tables) (stored : Reservation)
    → insert_row r ttl now db ≡ ok (stored, db')
    → Inserted r ttl now db
      × (stored ≡ held_row r ttl now)
      × (db' ≡ record db { own = held_row r ttl now ∷ db.own })
unfolding insert_row
insert_row-ok r ttl now db db' stored h = ground arith

abbrev pub key_row : Claim → String → KeyRow
key_row c id = record { key = c.key; request_fingerprint = c.fingerprint; resource_id = id }

-- The two ways in which the body of `Insert` succeeds.
pub data InsertEffect (c : Claim) (r : Reservation) (ttl : ℕ) (out : Reservation × Bool)
    (s s' : Session (List Reservation)) : Type 0 where
  made :
      out ≡ (held_row r ttl s.now, false)
      → find_key c.key s.db.keys ≡ none
      → Inserted r ttl s.now s.db
      → s'.db.own ≡ held_row r ttl s.now ∷ s.db.own
      → s'.db.keys ≡ key_row c r.id ∷ s.db.keys
      → ((event id : String)
          → countb (is_event_of event id) s'.db.outbox
            ≡ countb (is_event_of event id) s.db.outbox
              + countb (is_emission_of event id) (created_emission (held_row r ttl s.now) ∷ []))
      → InsertEffect c r ttl out s s'
  answered :
      (k : KeyRow)
      → find_key c.key s.db.keys ≡ some k
      → k.request_fingerprint ≡ c.fingerprint
      → find k.resource_id s.db.own ≡ some out.0
      → out.1 ≡ true
      → s'.db ≡ s.db
      → InsertEffect c r ttl out s s'

module _ (w : World (List Reservation)) (s : Session (List Reservation)) where
  pub select-ok :
      (id : String) (r : Reservation)
      → (sql (select_row id) w s).0 ≡ ok r
      → (find id s.db.own ≡ some r)
        × ((sql (select_row id) w s).1.db ≡ s.db)
        × ((sql (select_row id) w s).1.now ≡ s.now)
  unfolding sql select_row
  select-ok id r h = ground arith

  insert_row-sql-ok :
      (r : Reservation) (ttl : ℕ) (stored : Reservation)
      → (sql (insert_row r ttl) w s).0 ≡ ok stored
      → Inserted r ttl s.now s.db
        × (stored ≡ held_row r ttl s.now)
        × ((sql (insert_row r ttl) w s).1.db
            ≡ record s.db { own = held_row r ttl s.now ∷ s.db.own })
        × ((sql (insert_row r ttl) w s).1.now ≡ s.now)
  insert_row-sql-ok r ttl stored h =
      let (db, run, out) = sql-ok (insert_row r ttl) w s h in
      let (facts, same, own) = insert_row-ok r ttl s.now s.db db stored run in
      (facts, same, ground (arith, out, own), ground (arith, out))

  replay-ok :
      (r : Reservation) (ttl : ℕ) (id : String) (out : Reservation × Bool)
      → (insert_claimed r ttl (id, true) w s).0 ≡ ok out
      → (find id s.db.own ≡ some out.0)
        × (out.1 ≡ true)
        × ((insert_claimed r ttl (id, true) w s).1.db ≡ s.db)
  unfolding insert_claimed
  replay-ok r ttl id out h =
      let (stored, e, run) = >>=-ok (sql (select_row id)) (λ r'. pure (r', true)) w s h in
      let (found, same, _) = select-ok id stored e in
      (ground (arith, found, run), ground (arith, run), ground (arith, run, same))

module _ (w : World (List Reservation)) (s : Session (List Reservation)) where
  fresh-ok :
      (r : Reservation) (ttl : ℕ) (id : String) (out : Reservation × Bool)
      → (insert_claimed r ttl (id, false) w s).0 ≡ ok out
      → Inserted r ttl s.now s.db
        × (out ≡ (held_row r ttl s.now, false))
        × ((insert_claimed r ttl (id, false) w s).1.db.own ≡ held_row r ttl s.now ∷ s.db.own)
        × ((insert_claimed r ttl (id, false) w s).1.db.keys ≡ s.db.keys)
        × ((event agg : String)
            → countb (is_event_of event agg) (insert_claimed r ttl (id, false) w s).1.db.outbox
              ≡ countb (is_event_of event agg) s.db.outbox
                + countb (is_emission_of event agg) (created_emission (held_row r ttl s.now) ∷ []))
  unfolding insert_claimed
  fresh-ok r ttl id out h =
      let m = catch (sql (insert_row r ttl)) (λ e. fail (translate_insert e)) in
      let k = λ (stored : Reservation).
        stage_as aggregate_type (created_emission stored) >> pure (stored, false) in
      let (stored, e, run) = >>=-ok m k w s h in
      let (e', ran) = catch-ok (sql (insert_row r ttl)) translate_insert w s e in
      let (facts, same, own, now) = insert_row-sql-ok w s r ttl stored e' in
      let s1 = (m w s).1 in
      let (_, st, run') =
        >>=-ok (stage_as aggregate_type (created_emission stored)) (λ _. pure (stored, false)) w s1
          (rw run at h) in
      let staged = stage_as-ok aggregate_type w (created_emission stored) s1 st in
      (
        facts,
        ground (arith, run, run', same),
        ground (arith, run, run', ran, staged.own, own),
        ground (arith, run, run', ran, staged.keys, own),
        λ event agg. ground (arith, run, run', ran, staged.counts event agg, own, same),
      )

module _ (w : World (List Reservation)) (s : Session (List Reservation)) where
  insert_tx_how :
      (c : Claim) (r : Reservation) (ttl : ℕ) (out : Reservation × Bool) (at : String × Bool)
      (s1 : Session (List Reservation))
      → Claimed c.key c.fingerprint r.id at s s1
      → s1.now ≡ s.now
      → (s' : Session (List Reservation)) → s' ≡ (insert_claimed r ttl at w s1).1
      → (insert_claimed r ttl at w s1).0 ≡ ok out
      → InsertEffect c r ttl out s s'
  insert_tx_how c r ttl out at s1 (entered e fresh db) now s' run h =
      let (facts, o, own, keys, counts) = fresh-ok w s1 r ttl r.id out (rw e at h) in
      made (ground (arith, o, now)) fresh
        (record {
          window = facts.window;
          fresh = ground (arith, facts.fresh, db);
          free = ground (arith, facts.free, db, now);
        })
        (ground (arith, run, e, own, db, now)) (ground (arith, run, e, keys, db))
        (λ event id. ground (arith, run, e, counts event id, db, now))
  insert_tx_how c r ttl out at s1 (replayed row found same e db) now s' run h =
      let (there, flag, kept) = replay-ok w s1 r ttl row.resource_id out (rw e at h) in
      answered row found same (ground (arith, there, db)) flag (ground (arith, run, e, kept, db))

  pub insert_tx-ok :
      (c : Claim) (r : Reservation) (ttl : ℕ) (out : Reservation × Bool)
      → (insert_tx c r ttl w s).0 ≡ ok out
      → InsertEffect c r ttl out s (insert_tx c r ttl w s).1
  unfolding insert_tx
  insert_tx-ok c r ttl out h =
      let m = catch (claim c.key c.fingerprint r.id) (λ e. fail (translate_claim e)) in
      let (at, e, run) = >>=-ok m (insert_claimed r ttl) w s h in
      let (e', ran) = catch-ok (claim c.key c.fingerprint r.id) translate_claim w s e in
      let (how, now) = claim-ok {D = DomainError} w s c.key c.fingerprint r.id at e' in
      insert_tx_how c r ttl out at (claim {D = DomainError} c.key c.fingerprint r.id w s).1 how now
        (insert_tx c r ttl w s).1 (ground (arith, run, ran)) (rw (← ran) (rw run at h))
