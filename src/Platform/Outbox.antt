-- ===== src/Platform/Outbox.antt =====
-- shared/platform/outbox/outbox.go: an event is staged in the transaction that made it true.
use wakewake.Prelude.{
  ℕ, String, ◌==◌, Bool, not, none, List, [], ◌∷◌, ◌++◌, if◌then◌else◌, eqb, anyb,
}
use wakewake.Contracts.Events.{Time, Payload, Emission, is_known, schema_version}
use wakewake.Platform.Session.{
  OutboxRow, Db, pg, other, Result, ok, err, Action, pure, fail, ◌>>=◌, ◌>>◌, sql, new_uuid,
  new_correlation,
}
use wakewake.Platform.Tx.{unique_violation}

pub record Record : Type 0 where
  pub event : String
  pub version : ℕ
  pub aggregate_type : String
  pub aggregate_id : String
  pub payload : Payload
  pub correlation_id : String

pub record Meta : Type 0 where
  pub id : String
  pub occurred_at : Time

abbrev pub has_id : String → List OutboxRow → Bool
has_id id = anyb (λ r. r.id == id)

-- The row that the INSERT writes: not published, not failed, `occurred_at` the transaction's time.
abbrev pub new_row : Record → String → String → Time → OutboxRow
new_row rec id corr now = record {
  id = id;
  event = rec.event;
  version = if eqb rec.version 0 then schema_version else rec.version;
  aggregate_type = rec.aggregate_type;
  aggregate_id = rec.aggregate_id;
  payload = rec.payload;
  correlation_id = corr;
  occurred_at = now;
  published_at = none;
  attempts = 0;
  failed_at = none;
}

module _ {D Own : Type 0} where
  -- INSERT INTO outbox: the id is the primary key.
  unfoldable pub insert_row : Record → String → String → Time → Db Own → Result D (Meta × Db Own)
  insert_row rec id corr now db =
      if has_id id db.outbox
      then err (pg (record { code = unique_violation; constraint = "outbox_pkey" }))
      else ok (
        record { id = id; occurred_at = now },
        record db { outbox = db.outbox ++ new_row rec id corr now ∷ [] },
      )

  -- The record's own correlation id, the context's, or a fresh one.
  abbrev pub correlation_for : Record → Action D Own String
  correlation_for rec w =
      (if rec.correlation_id == ""
          then (if w.correlation == "" then new_correlation else pure w.correlation)
          else pure rec.correlation_id)
        w

  unfoldable pub enqueue : Record → Action D Own Meta
  enqueue rec =
      if not (is_known rec.event)
      then fail other
      else (if rec.aggregate_id == ""
          then fail other
          else (do corr ← correlation_for rec; id ← new_uuid; sql (insert_row rec id corr)))

  -- The services' `stage`: one emission, about an aggregate of the service's type.
  unfoldable pub stage_as : String → Emission → Action D Own (Unit {0})
  stage_as aggregate_type e = do
    _ ← enqueue (record {
      event = e.event;
      version = 0;
      aggregate_type = aggregate_type;
      aggregate_id = e.aggregate_id;
      payload = e.payload;
      correlation_id = "";
    })
    pure tt

  -- The loop over a transition's emissions.
  unfoldable pub stage_all : String → List Emission → Action D Own (Unit {0})
  stage_all aggregate_type [] = pure tt
  stage_all aggregate_type (e ∷ es) = stage_as aggregate_type e >> stage_all aggregate_type es
