-- ===== src/Booking/Effects.antt =====
-- What the body of the booking store's `Insert` did when it succeeded.
use wakewake.Prelude.{◌+◌, ◌≡◌, arith, String, Bool, true, false, none, some, List, [], ◌∷◌, countb}
use wakewake.Contracts.Events.{Time}
use wakewake.Platform.Session.{KeyRow, ok, World, Session, sql, fail, pure, catch, ◌>>◌}
use wakewake.Platform.Rules.{>>=-ok, catch-ok}
use wakewake.Platform.Idempotency.{find_key, claim}
use wakewake.Platform.Outbox.{stage_as}
use wakewake.Platform.Keyed.{Engine, find_by}
use wakewake.Platform.Staging.{
  Claimed, entered, replayed, claim-ok, stage_as-ok, is_event_of, is_emission_of,
}
use wakewake.Booking.Lifecycle.{BookingError, Booking, held_emission}
use wakewake.Booking.Table.{Tables, booking_id, failed_check, held_row, insert_row, select_row}
use wakewake.Booking.Store.{Claim, aggregate_type, translate_claim, insert_claimed, insert_tx}

-- An INSERT that succeeds met no row with its id, and its row passes the CHECKs.
pub record Inserted (g : Engine) (b : Booking) (now : Time) (db : Tables) : Type 0 where
  pub passed : failed_check g (held_row b now) ≡ none
  pub fresh : find_by booking_id b.id db.own ≡ none

abbrev pub key_row : Claim → String → KeyRow
key_row c id = record { key = c.key; request_fingerprint = c.fingerprint; resource_id = id }

-- The two ways in which the body of `Insert` succeeds.
pub data InsertEffect (g : Engine) (c : Claim) (b : Booking) (out : Booking × Bool)
    (s s' : Session (List Booking)) : Type 0 where
  made :
      out ≡ (held_row b s.now, false)
      → find_key c.key s.db.keys ≡ none
      → Inserted g b s.now s.db
      → s'.db.own ≡ held_row b s.now ∷ s.db.own
      → s'.db.keys ≡ key_row c b.id ∷ s.db.keys
      → ((event id : String)
          → countb (is_event_of event id) s'.db.outbox
            ≡ countb (is_event_of event id) s.db.outbox
              + countb (is_emission_of event id) (held_emission b ∷ []))
      → InsertEffect g c b out s s'
  answered :
      (k : KeyRow)
      → find_key c.key s.db.keys ≡ some k
      → k.request_fingerprint ≡ c.fingerprint
      → find_by booking_id k.resource_id s.db.own ≡ some out.0
      → out.1 ≡ true
      → s'.db ≡ s.db
      → InsertEffect g c b out s s'

module _ (w : World (List Booking)) (s : Session (List Booking)) where
  pub select-ok :
      (id : String) (b : Booking)
      → (sql (select_row id) w s).0 ≡ ok b
      → (find_by booking_id id s.db.own ≡ some b)
        × ((sql (select_row id) w s).1.db ≡ s.db)
        × ((sql (select_row id) w s).1.now ≡ s.now)
  unfolding sql select_row
  select-ok id b h = ground arith

  insert_row-ok :
      (g : Engine) (b stored : Booking)
      → (sql (insert_row g b) w s).0 ≡ ok stored
      → Inserted g b s.now s.db
        × (stored ≡ held_row b s.now)
        × ((sql (insert_row g b) w s).1.db ≡ record s.db { own = held_row b s.now ∷ s.db.own })
        × ((sql (insert_row g b) w s).1.now ≡ s.now)
  unfolding sql insert_row
  insert_row-ok g b stored h = ground arith

  replay-ok :
      (g : Engine) (b : Booking) (id : String) (out : Booking × Bool)
      → (insert_claimed g b (id, true) w s).0 ≡ ok out
      → (find_by booking_id id s.db.own ≡ some out.0)
        × (out.1 ≡ true)
        × ((insert_claimed g b (id, true) w s).1.db ≡ s.db)
  unfolding insert_claimed
  replay-ok g b id out h =
      let (stored, e, run) = >>=-ok (sql (select_row id)) (λ r. pure (r, true)) w s h in
      let (found, same, _) = select-ok id stored e in
      (ground (arith, found, run), ground (arith, run), ground (arith, run, same))

module _ (w : World (List Booking)) (s : Session (List Booking)) where
  fresh-ok :
      (g : Engine) (b : Booking) (id : String) (out : Booking × Bool)
      → (insert_claimed g b (id, false) w s).0 ≡ ok out
      → Inserted g b s.now s.db
        × (out ≡ (held_row b s.now, false))
        × ((insert_claimed g b (id, false) w s).1.db.own ≡ held_row b s.now ∷ s.db.own)
        × ((insert_claimed g b (id, false) w s).1.db.keys ≡ s.db.keys)
        × ((event agg : String)
            → countb (is_event_of event agg) (insert_claimed g b (id, false) w s).1.db.outbox
              ≡ countb (is_event_of event agg) s.db.outbox
                + countb (is_emission_of event agg) (held_emission b ∷ []))
  unfolding insert_claimed
  fresh-ok g b id out h =
      let k =
        λ (stored : Booking). stage_as aggregate_type (held_emission b) >> pure (stored, false) in
      let (stored, e, run) = >>=-ok (sql (insert_row g b)) k w s h in
      let (facts, same, own, now) = insert_row-ok w s g b stored e in
      let s1 = (sql (insert_row g b) w s).1 in
      let (_, st, run') =
        >>=-ok (stage_as aggregate_type (held_emission b)) (λ _. pure (stored, false)) w s1
          (rw run at h) in
      let staged = stage_as-ok aggregate_type w (held_emission b) s1 st in
      (
        facts,
        ground (arith, run, run', same),
        ground (arith, run, run', staged.own, own),
        ground (arith, run, run', staged.keys, own),
        λ event agg. ground (arith, run, run', staged.counts event agg, own, same),
      )

module _ (w : World (List Booking)) (s : Session (List Booking)) where
  insert_tx_how :
      (g : Engine) (c : Claim) (b : Booking) (out : Booking × Bool) (at : String × Bool)
      (s1 : Session (List Booking))
      → Claimed c.key c.fingerprint b.id at s s1
      → s1.now ≡ s.now
      → (s' : Session (List Booking)) → s' ≡ (insert_claimed g b at w s1).1
      → (insert_claimed g b at w s1).0 ≡ ok out
      → InsertEffect g c b out s s'
  insert_tx_how g c b out at s1 (entered e fresh db) now s' run h =
      let (facts, o, own, keys, counts) = fresh-ok w s1 g b b.id out (rw e at h) in
      made (ground (arith, o, now)) fresh
        (record {
          passed = ground (arith, facts.passed, now);
          fresh = ground (arith, facts.fresh, db);
        })
        (ground (arith, run, e, own, db, now)) (ground (arith, run, e, keys, db))
        (λ event id. ground (arith, run, e, counts event id, db, now))
  insert_tx_how g c b out at s1 (replayed row found same e db) now s' run h =
      let (there, flag, kept) = replay-ok w s1 g b row.resource_id out (rw e at h) in
      answered row found same (ground (arith, there, db)) flag (ground (arith, run, e, kept, db))

  pub insert_tx-ok :
      (g : Engine) (c : Claim) (b : Booking) (out : Booking × Bool)
      → (insert_tx g c b w s).0 ≡ ok out
      → InsertEffect g c b out s (insert_tx g c b w s).1
  unfolding insert_tx
  insert_tx-ok g c b out h =
      let m = catch (claim c.key c.fingerprint b.id) (λ e. fail (translate_claim e)) in
      let (at, e, run) = >>=-ok m (insert_claimed g b) w s h in
      let (e', ran) = catch-ok (claim c.key c.fingerprint b.id) translate_claim w s e in
      let (how, now) = claim-ok {D = BookingError} w s c.key c.fingerprint b.id at e' in
      insert_tx_how g c b out at (claim {D = BookingError} c.key c.fingerprint b.id w s).1 how now
        (insert_tx g c b w s).1 (ground (arith, run, ran)) (rw (← ran) (rw run at h))
