-- ===== src/Platform/Idempotency.antt =====
-- shared/platform/idempotency/idempotency.go: the claim of an Idempotency-Key in a transaction.
use wakewake.Prelude.{
  String, ◌==◌, Bool, true, false, Option, none, some, List, [], ◌∷◌, if◌then◌else◌,
}
use wakewake.Contracts.Events.{Time}
use wakewake.Platform.Session.{
  KeyRow, Db, key_reuse, other, Result, ok, err, Action, fail, lift, ◌>>=◌, sql,
}

unfoldable pub find_key : String → List KeyRow → Option KeyRow
find_key k [] = none
find_key k (r ∷ rs) = if r.key == k then some r else find_key k rs

-- What the upsert's RETURNING gives: the stored fingerprint and resource, and (xmax = 0), whether
-- the row is new.
pub record Stored : Type 0 where
  pub fingerprint : String
  pub resource : String
  pub inserted : Bool

-- What the stored row says of this claim: a new key, a replay, or a reuse.
abbrev pub replay_of : {D : Type 0} → String → String → Stored → Result D (String × Bool)
replay_of fingerprint resource_id stored =
    if stored.inserted
    then ok (resource_id, false)
    else (if stored.fingerprint == fingerprint then ok (stored.resource, true) else err key_reuse)

module _ {D Own : Type 0} where
  abbrev pub answer : KeyRow → Db Own → Option KeyRow → Result D (Stored × Db Own)
  answer r db none = ok (
    record { fingerprint = r.request_fingerprint; resource = r.resource_id; inserted = true },
    record db { keys = r ∷ db.keys },
  )
  answer r db (some old) = ok (
    record { fingerprint = old.request_fingerprint; resource = old.resource_id; inserted = false },
    db,
  )

  -- INSERT ... ON CONFLICT (key) DO UPDATE that changes nothing.
  unfoldable pub upsert_key : KeyRow → Time → Db Own → Result D (Stored × Db Own)
  upsert_key r now db = answer r db (find_key r.key db.keys)

  -- The resource that the key stands for, and whether this is a replay.
  unfoldable pub claim : String → String → String → Action D Own (String × Bool)
  claim key fingerprint resource_id = if key == "" then fail other else (do
    stored ← sql (
        upsert_key
          (record { key = key; request_fingerprint = fingerprint; resource_id = resource_id }))
    lift (replay_of fingerprint resource_id stored))
