-- ===== src/Platform/Staging.antt =====
-- What a successful claim of a key, and a successful staging of an event, did to the tables.
use wakewake.Prelude.{
  ◌+◌, ◌≡◌, refl, inl, inr, arith, String, ◌==◌, Bool, true, false, List, [], ◌∷◌, ◌++◌, some, none,
  eq_iff, Option-cases, countb, countb-append, ◌&&◌,
}
use wakewake.Contracts.Events.{Emission}
use wakewake.Platform.Session.{
  KeyRow, OutboxRow, ok, World, Session, Action, sql, new_uuid, new_correlation, ◌>>=◌, pure,
}
use wakewake.Platform.Rules.{>>=-ok}
use wakewake.Platform.Idempotency.{find_key, upsert_key, claim}
use wakewake.Platform.Outbox.{
  Record, Meta, insert_row, correlation_for, enqueue, new_row, stage_as, stage_all,
}

-- A claim that succeeds either enters a key that was not known, for this request's resource, or
-- finds the key with this fingerprint and answers the resource that it has stood for.
pub data Claimed {Own : Type 0} (key fingerprint resource_id : String) (out : String × Bool)
    (s s' : Session Own) : Type 0 where
  entered :
      out ≡ (resource_id, false)
      → find_key key s.db.keys ≡ none
      → s'.db ≡ record s.db {
        keys =
            record { key = key; request_fingerprint = fingerprint; resource_id = resource_id }
            ∷ s.db.keys;
      }
      → Claimed key fingerprint resource_id out s s'
  replayed :
      (row : KeyRow)
      → find_key key s.db.keys ≡ some row
      → row.request_fingerprint ≡ fingerprint
      → out ≡ (row.resource_id, true)
      → s'.db ≡ s.db
      → Claimed key fingerprint resource_id out s s'

-- A staging that succeeds appends one row for the event, not published and not failed.
pub record Staged {Own : Type 0} (rec : Record) (s s' : Session Own) : Type 0 where
  pub row : OutboxRow
  pub outbox : s'.db ≡ record s.db { outbox = s.db.outbox ++ row ∷ [] }
  pub event : row.event ≡ rec.event
  pub aggregate : row.aggregate_id ≡ rec.aggregate_id
  pub payload : row.payload ≡ rec.payload
  pub pending : (row.published_at ≡ none) × (row.failed_at ≡ none) × (row.attempts ≡ 0)
  pub now : s'.now ≡ s.now

correlation_for-db :
    (D : Type 0) {Own : Type 0} (rec : Record) (w : World Own) (s : Session Own)
    → ((correlation_for {D = D} rec w s).1.db ≡ s.db)
      × ((correlation_for {D = D} rec w s).1.now ≡ s.now)
unfolding new_correlation
correlation_for-db D rec w s = ground arith

new_uuid-db :
    (D : Type 0) {Own : Type 0} (w : World Own) (s : Session Own)
    → ((new_uuid {D = D} w s).1.db ≡ s.db) × ((new_uuid {D = D} w s).1.now ≡ s.now)
unfolding new_uuid
new_uuid-db D w s = ground arith

abbrev numbered : {D Own : Type 0} → Record → String → Action D Own Meta
numbered rec corr = do id ← new_uuid; sql (insert_row rec id corr)

module _ {D Own : Type 0} (w : World Own) (s : Session Own) where
  pub claim-ok :
      (key fingerprint resource_id : String) (out : String × Bool)
      → (claim {D = D} key fingerprint resource_id w s).0 ≡ ok out
      → Claimed key fingerprint resource_id out s (claim {D = D} key fingerprint resource_id w s).1
        × ((claim {D = D} key fingerprint resource_id w s).1.now ≡ s.now)
  unfolding claim sql upsert_key
  claim-ok key fingerprint resource_id out h = elim (Option-cases (find_key key s.db.keys)) [
    | inl e ↦ (entered (ground arith) e (ground arith), ground arith)
    | inr (row, e) ↦ (
      replayed row e (ground (arith, eq_iff row.request_fingerprint fingerprint)) (ground arith)
          (ground arith),
      ground arith,
    )
  ]

  enqueue_body :
      (rec : Record) (m : Meta)
      → (enqueue {D = D} rec w s).0 ≡ ok m
      → enqueue {D = D} rec w s ≡ (correlation_for rec >>= numbered rec) w s
  unfolding enqueue
  enqueue_body rec m h = ground arith

  row-ok :
      (rec : Record) (id corr : String) (m : Meta)
      → (sql {D = D} (insert_row rec id corr) w s).0 ≡ ok m
      → ((sql {D = D} (insert_row rec id corr) w s).1.db
          ≡ record s.db { outbox = s.db.outbox ++ new_row rec id corr s.now ∷ [] })
        × ((sql {D = D} (insert_row rec id corr) w s).1.now ≡ s.now)
  unfolding sql insert_row
  row-ok rec id corr m h = ground arith

module _ {D Own : Type 0} (w : World Own) (s : Session Own) where
  numbered-ok :
      (rec : Record) (corr : String) (m : Meta)
      → (numbered {D = D} rec corr w s).0 ≡ ok m
      → (row : OutboxRow) × (row ≡ new_row rec row.id corr s.now)
        × ((numbered {D = D} rec corr w s).1.db ≡ record s.db { outbox = s.db.outbox ++ row ∷ [] })
        × ((numbered {D = D} rec corr w s).1.now ≡ s.now)
  numbered-ok rec corr m h =
      let (id, _, run) = >>=-ok {D = D} new_uuid (λ id. sql (insert_row rec id corr)) w s h in
      let s1 = (new_uuid {D = D} w s).1 in
      let (out, at) = row-ok {D = D} w s1 rec id corr m (rw run at h) in
      let (same, now) = new_uuid-db D w s in
      (
        new_row rec id corr s.now,
        refl,
        ground (arith, run, out, same, now),
        ground (arith, run, at, now),
      )

module _ {D Own : Type 0} (w : World Own) (s : Session Own) where
  pub enqueue-ok :
      (rec : Record) (m : Meta)
      → (enqueue {D = D} rec w s).0 ≡ ok m
      → Staged rec s (enqueue {D = D} rec w s).1
  enqueue-ok rec m h =
      let run = enqueue_body w s rec m h in
      let ran : ((correlation_for {D = D} rec >>= numbered rec) w s).0 ≡ ok m = rw run at h in
      let (corr, _, next) = >>=-ok (correlation_for {D = D} rec) (numbered rec) w s ran in
      let (same, at) = correlation_for-db D rec w s in
      let s1 = (correlation_for {D = D} rec w s).1 in
      let (row, shape, out, then_) = numbered-ok {D = D} w s1 rec corr m (rw next at ran) in
      record {
        row = row;
        outbox = ground (arith, run, next, out, same);
        event = ground (arith, shape);
        aggregate = ground (arith, shape);
        payload = ground (arith, shape);
        pending = ground (arith, shape);
        now = ground (arith, run, next, then_, at);
      }

-- The rows, and the emissions, that state one event of one aggregate.
abbrev pub is_event_of : String → String → OutboxRow → Bool
is_event_of event id o = o.event == event && o.aggregate_id == id

abbrev pub is_emission_of : String → String → Emission → Bool
is_emission_of event id e = e.event == event && e.aggregate_id == id

-- Staging emissions adds them to the outbox, and touches nothing else.
pub record StagedAll {Own : Type 0} (es : List Emission) (s s' : Session Own) : Type 0 where
  pub own : s'.db.own ≡ s.db.own
  pub keys : s'.db.keys ≡ s.db.keys
  pub processed : s'.db.processed ≡ s.db.processed
  pub now : s'.now ≡ s.now
  pub counts :
      (event id : String)
      → countb (is_event_of event id) s'.db.outbox
        ≡ countb (is_event_of event id) s.db.outbox + countb (is_emission_of event id) es

module _ {D Own : Type 0} (kind : String) (w : World Own) where
  pub stage_as-ok :
      (e : Emission) (s : Session Own)
      → (stage_as {D = D} kind e w s).0 ≡ ok tt
      → StagedAll (e ∷ []) s (stage_as {D = D} kind e w s).1
  unfolding stage_as
  stage_as-ok e s h =
      let (m, hm, run) =
        >>=-ok {D = D}
          (enqueue (record {
            event = e.event;
            version = 0;
            aggregate_type = kind;
            aggregate_id = e.aggregate_id;
            payload = e.payload;
            correlation_id = "";
          }))
          (λ _. pure tt) w s h in
      let st = enqueue-ok {D = D} w s _ m hm in
      record {
        own = ground (arith, run, st.outbox);
        keys = ground (arith, run, st.outbox);
        processed = ground (arith, run, st.outbox);
        now = ground (arith, run, st.now);
        counts = λ event id. ground (
          arith,
          run,
          st.outbox,
          st.event,
          st.aggregate,
          countb-append (is_event_of event id) s.db.outbox (st.row ∷ []),
        );
      }

  pub stage_all-ok :
      (es : List Emission) (s : Session Own)
      → (stage_all {D = D} kind es w s).0 ≡ ok tt
      → StagedAll es s (stage_all {D = D} kind es w s).1
  unfolding stage_all
  stage_all-ok [] s h = record {
    own = refl;
    keys = refl;
    processed = refl;
    now = refl;
    counts = λ event id. omega arith;
  }
  stage_all-ok (e ∷ es) s h =
      let (_, he, run) = >>=-ok {D = D} (stage_as kind e) (λ _. stage_all kind es) w s h in
      let first = stage_as-ok e s he in
      let rest = stage_all-ok es (stage_as {D = D} kind e w s).1 (rw run at h) in
      record {
        own = ground (arith, run, first.own, rest.own);
        keys = ground (arith, run, first.keys, rest.keys);
        processed = ground (arith, run, first.processed, rest.processed);
        now = ground (arith, run, first.now, rest.now);
        counts = λ event id. ground (arith, run, first.counts event id, rest.counts event id);
      }
