-- ===== src/Platform/Relay.antt =====
-- shared/platform/outbox/relay.go: staged rows are handed to the broker. A pass is a transaction in
-- which each row of a batch is published and its outcome is recorded. Logging is left out, and so is
-- `last_error`, which nothing reads.
use wakewake.Prelude.{
  ℕ, zero, suc, String, ◌==◌, Bool, true, false, not, ◌&&◌, ◌||◌, Option, none, some, List, [], ◌∷◌,
  ◌++◌, if◌then◌else◌, eqb, ltb, leb, take, length, filterb, anyb,
}
use wakewake.Prelude.Int.{ℤ, pos, negsuc}
use wakewake.Prelude.Sorting.{sort_rows}
use wakewake.Contracts.Events.{Time, Payload, Envelope, second}
use wakewake.Contracts.Validity.{Codec, is_valid}
use wakewake.Platform.Session.{OutboxRow, Db, Result, ok, err, World, Session, Action, sql}
use wakewake.Platform.Tx.{begin, commit, rollback}

pub record RelayConfig : Type 0 where
  pub poll_interval : ℤ
  pub batch_size : ℤ
  pub max_attempts : ℤ
  pub prune_after : ℤ
  pub prune_interval : ℤ

-- The configuration that `applyDefaults` leaves, whose values are positive.
pub record RelaySettings : Type 0 where
  pub poll_interval : ℕ
  pub batch_size : ℕ
  pub max_attempts : ℕ
  pub prune_after : ℕ
  pub prune_interval : ℕ

abbrev pub or_default : ℕ → ℤ → ℕ
or_default d (pos zero) = d
or_default d (pos (suc n)) = suc n
or_default d (negsuc n) = d

abbrev pub hour : ℕ
hour = 3_600_000_000

unfoldable pub apply_defaults : RelayConfig → RelaySettings
apply_defaults c = record {
  poll_interval = or_default second c.poll_interval;
  batch_size = or_default 100 c.batch_size;
  max_attempts = or_default 10 c.max_attempts;
  prune_after = or_default 604_800_000_000 c.prune_after;
  prune_interval = or_default hour c.prune_interval;
}

-- How the broker answers a message: it confirms it, it does not take it, or it takes it and the
-- confirm is lost on the way.
pub data Confirm : Type 0 where
  confirmed dropped unanswered : Confirm

-- What the relay sees of the outside besides the database: the broker's answer to the n-th call, and
-- how Postgres orders two uuids.
pub record Broker : Type 0 where
  pub answers : ℕ → Confirm
  pub precedes : String → String → Bool

-- The messages that the broker has taken stay with it, whatever becomes of the transaction.
pub record RelayState (Own : Type 0) : Type 0 where
  pub session : Session Own
  pub delivered : List (Envelope Payload)

abbrev pub is_none : {A : Type 0} → Option A → Bool
is_none none = true
is_none (some a) = false

-- claimSQL
abbrev pub is_pending : OutboxRow → Bool
is_pending r = is_none r.published_at && is_none r.failed_at

abbrev pub row_precedes : Broker → OutboxRow → OutboxRow → Bool
row_precedes b x y =
    ltb x.occurred_at y.occurred_at || (eqb x.occurred_at y.occurred_at && b.precedes x.id y.id)

unfoldable pub claim_rows : Broker → ℕ → List OutboxRow → List OutboxRow
claim_rows b limit rows = take limit (sort_rows (row_precedes b) (filterb is_pending rows))

abbrev pub envelope_of : OutboxRow → Envelope Payload
envelope_of p = record {
  event = p.event;
  version = pos p.version;
  id = p.id;
  occurred_at = p.occurred_at;
  correlation_id = p.correlation_id;
  payload = p.payload;
}

-- UPDATE outbox SET ... WHERE ...
unfoldable pub update_where :
    (OutboxRow → Bool) → (OutboxRow → OutboxRow) → List OutboxRow → List OutboxRow
update_where test f [] = []
update_where test f (r ∷ rs) = (if test r then f r else r) ∷ update_where test f rs

abbrev pub bump : OutboxRow → OutboxRow
bump r = record r { attempts = suc r.attempts }

abbrev pub give_up : Time → OutboxRow → OutboxRow
give_up now r = record r { attempts = suc r.attempts; failed_at = some now }

abbrev pub publish_at : Time → OutboxRow → OutboxRow
publish_at now r = record r { published_at = some now }

module _ {Own : Type 0} where
  -- `r.pub.Publish`: the value is whether the confirm came.
  abbrev pub answered : Confirm → Envelope Payload → RelayState Own → Bool × RelayState Own
  answered confirmed e s = (true, record s { delivered = s.delivered ++ e ∷ [] })
  answered dropped e s = (false, s)
  answered unanswered e s = (false, record s { delivered = s.delivered ++ e ∷ [] })

  unfoldable pub publish : Broker → Envelope Payload → RelayState Own → Bool × RelayState Own
  publish b e s =
      answered (b.answers s.session.step) e
        (record s { session = record s.session { step = suc s.session.step } })

-- Marshal succeeds and Validate finds nothing.
unfoldable pub is_publishable : {Body : Type 0} → Codec Payload Body → OutboxRow → Bool
is_publishable codec p =
    not (is_none (codec.marshal (envelope_of p))) && is_valid codec (envelope_of p)

module _ {D Own : Type 0} where
  -- A statement on the outbox.
  abbrev pub exec : (Time → List OutboxRow → List OutboxRow) → Action D Own (Unit {0})
  exec f = sql (λ now db. ok (tt, record db { outbox = f now db.outbox }))

  unfoldable pub fail_row : String → Action D Own (Unit {0})
  fail_row id = exec (λ now rows. update_where (λ r. r.id == id) (give_up now) rows)

  unfoldable pub record_attempt : RelaySettings → OutboxRow → Action D Own (Unit {0})
  record_attempt cfg p =
      if leb cfg.max_attempts (suc p.attempts)
      then fail_row p.id
      else exec (λ now rows. update_where (λ r. r.id == p.id) bump rows)

  -- UPDATE ... WHERE id = ANY($1), where any was published.
  unfoldable pub mark_published : List String → Action D Own (Unit {0})
  mark_published [] w s = (ok tt, s)
  mark_published (id ∷ ids) w s =
      exec (λ now rows. update_where (λ r. anyb (λ k. r.id == k) (id ∷ ids)) (publish_at now) rows)
        w s

  -- An action on the database alone.
  abbrev pub on_session :
      {A : Type 0} → Action D Own A → World Own → RelayState Own → Result D A × RelayState Own
  on_session m w s = ((m w s.session).0, record s { session = (m w s.session).1 })

  -- The ids that the rest of the loop publishes, after the one at hand.
  abbrev pub and_also :
      String → Result D (List String) × RelayState Own → Result D (List String) × RelayState Own
  and_also id (ok ids, s) = (ok (id ∷ ids), s)
  and_also id (err e, s) = (err e, s)

  -- What follows a statement of the loop: the rest of it, or the error.
  abbrev pub and_then :
      Result D (Unit {0}) × RelayState Own
      → (RelayState Own → Result D (List String) × RelayState Own)
      → Result D (List String) × RelayState Own
  and_then (ok _, s) rest = rest s
  and_then (err e, s) rest = (err e, s)

  -- The UPDATE and the commit, after the loop.
  abbrev pub settle_batch :
      Db Own → ℕ → World Own → Result D (List String) × RelayState Own → Result D ℕ × RelayState Own
  settle_batch before n w (err e, s) = (err e, record s { session = rollback before s.session })
  settle_batch before n w (ok ids, s) =
      let marked : Result D (Unit {0}) × RelayState Own = on_session (mark_published ids) w s in
      elim marked.0 [
        | err e ↦ (err e, record s { session = rollback before marked.1.session })
        | ok _ ↦
            let done : Result D (Unit {0}) × RelayState Own =
              on_session (commit before) w marked.1 in
            elim done.0 [ err e ↦ (err e, done.1) | ok _ ↦ (ok n, done.1) ]
      ]

  module _ {Body : Type 0} (codec : Codec Payload Body) (cfg : RelaySettings) (b : Broker) where
    -- The loop over the batch. A row that cannot be published is failed and the loop goes on; a
    -- message that is not confirmed ends it.
    unfoldable pub publish_rows :
        List OutboxRow → World Own → RelayState Own → Result D (List String) × RelayState Own
    publish_rows [] w s = (ok [], s)
    publish_rows (p ∷ ps) w s = elim (is_publishable codec p) [
      | false ↦ and_then (on_session (fail_row p.id) w s) (λ s'. publish_rows ps w s')
      | true ↦
          let (came, s') = publish b (envelope_of p) s in
          elim came [
            | true ↦ and_also p.id (publish_rows ps w s')
            | false ↦ and_then (on_session (record_attempt cfg p) w s') (λ s''. (ok [], s''))
          ]
    ]

    -- After the claim. An empty batch is rolled back.
    abbrev pub claimed_batch :
        Db Own
        → World Own
        → Result D (List OutboxRow) × RelayState Own
        → Result D ℕ × RelayState Own
    claimed_batch before w (err e, s) = (err e, record s { session = rollback before s.session })
    claimed_batch before w (ok [], s) = (ok 0, record s { session = rollback before s.session })
    claimed_batch before w (ok (p ∷ ps), s) =
        settle_batch before (length (p ∷ ps)) w (publish_rows (p ∷ ps) w s)

    unfoldable pub publish_batch : World Own → RelayState Own → Result D ℕ × RelayState Own
    publish_batch w s =
        let opened : Result D (Db Own) × RelayState Own = on_session begin w s in
        elim opened.0 [
          | err e ↦ (err e, opened.1)
          | ok before ↦ claimed_batch before w (
              on_session (sql (λ now db. ok (claim_rows b cfg.batch_size db.outbox, db))) w
                opened.1)
        ]
