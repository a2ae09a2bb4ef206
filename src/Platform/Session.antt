-- ===== src/Platform/Session.antt =====
-- What one call of the program sees of its database: the tables, the database's clock, and what each
-- call of the driver (pgx) comes back with. The driver is not part of the repository: its answers
-- are the parameter `World`. The SQL that the repository holds is modelled where it is used, as a
-- function on the tables. Transactions are serial: what other connections commit shows when a
-- transaction or a lone query begins.
use wakewake.Prelude.{ℕ, suc, ◌+◌, String, Option, none, some, List}
use wakewake.Contracts.Events.{Time, Payload}

-- A Postgres server error (pgconn.PgError): the SQLSTATE and the constraint's name.
pub record PgError : Type 0 where
  pub code : String
  pub constraint : String

-- What `errors.Is` and `errors.As` find in an error's chain; `D` is a service's domain errors.
-- Wrapping by `%w` keeps it, and the texts are left out.
pub data Error (D : Type 0) : Type 0 where
  domain : D → Error D
  pg : PgError → Error D
  no_rows driver key_reuse other : Error D

pub data Result (D A : Type 0) : Type 0 where
  ok : A → Result D A
  err : Error D → Result D A

-- A row of `idempotency_key`.
pub record KeyRow : Type 0 where
  pub key : String
  pub request_fingerprint : String
  pub resource_id : String

-- A row of `outbox`. The `payload` column holds the JSON of the payload.
pub record OutboxRow : Type 0 where
  pub id : String
  pub event : String
  pub version : ℕ
  pub aggregate_type : String
  pub aggregate_id : String
  pub payload : Payload
  pub correlation_id : String
  pub occurred_at : Time
  pub published_at : Option Time
  pub attempts : ℕ
  pub failed_at : Option Time

-- A row of `processed_event`.
pub record ProcessedRow : Type 0 where
  pub consumer : String
  pub event_id : String
  pub event : String

-- A service's database: the tables of its own, and the three that every service has.
pub record Db (Own : Type 0) : Type 0 where
  pub own : Own
  pub keys : List KeyRow
  pub outbox : List OutboxRow
  pub processed : List ProcessedRow

-- How a call of the driver ends. `lost`: the server did not act. `unknown`: it did, and the answer
-- was lost on the way, which matters at a commit.
pub data Outcome : Type 0 where
  fine : Outcome
  refused : PgError → Outcome
  lost unknown : Outcome

-- What the outside decides of a call: how it ends, how far the database's clock moves on before it,
-- and what other connections commit before it.
pub record Call (Own : Type 0) : Type 0 where
  pub outcome : Outcome
  pub elapsed : ℕ
  pub others : Db Own → Db Own

-- The calls by their number, the values of `uuid.NewV7` (none where it fails) and of
-- `uuid.NewString`, and the correlation id of the context ("" where it has none).
pub record World (Own : Type 0) : Type 0 where
  pub calls : ℕ → Call Own
  pub uuids : ℕ → Option String
  pub random_uuids : ℕ → String
  pub correlation : String

pub record Session (Own : Type 0) : Type 0 where
  pub db : Db Own
  pub now : Time
  pub step : ℕ
  pub kicks : ℕ

abbrev pub Action : Type 0 → Type 0 → Type 0 → Type 0
Action D Own A = World Own → Session Own → Result D A × Session Own

-- How the call's outcome turns into an error of the driver.
abbrev pub failed {ℓ} : {D : Type 0} {A : Type ℓ} → Outcome → (Error D → A) → A → A
failed fine f a = a
failed (refused e) f a = f (pg e)
failed lost f a = f driver
failed unknown f a = f driver

-- Other connections have committed, and the clock has moved on.
abbrev pub resumed : {Own : Type 0} → World Own → Session Own → Session Own
resumed w s = record s {
  db = (w.calls s.step).others s.db;
  now = s.now + (w.calls s.step).elapsed;
  step = suc s.step;
}

module _ {D Own : Type 0} where
  abbrev pub pure : {A : Type 0} → A → Action D Own A
  pure a w s = (ok a, s)

  abbrev pub fail : {A : Type 0} → Error D → Action D Own A
  fail e w s = (err e, s)

  infixl 5 ◌>>=◌ ◌>>◌
  abbrev pub ◌>>=◌ : {A B : Type 0} → Action D Own A → (A → Action D Own B) → Action D Own B
  ◌>>=◌ m f w s = let (r, s') = m w s in elim r [ ok a ↦ f a w s' | err e ↦ (err e, s') ]

  abbrev pub ◌>>◌ : {B : Type 0} → Action D Own (Unit {0}) → Action D Own B → Action D Own B
  m >> k = m >>= λ _. k

  -- `if err != nil { return handler(err) }`
  abbrev pub catch : {A : Type 0} → Action D Own A → (Error D → Action D Own A) → Action D Own A
  catch m h w s = let (r, s') = m w s in elim r [ ok a ↦ (ok a, s') | err e ↦ h e w s' ]

  abbrev pub lift : {A : Type 0} → Result D A → Action D Own A
  lift r w s = (r, s)

  -- The wake-up of the outbox relay.
  abbrev pub kick : Action D Own (Unit {0})
  kick w s = (ok tt, record s { kicks = suc s.kicks })

  -- A statement inside the transaction at hand: it sees and changes the transaction's tables.
  -- A statement that fails changes nothing.
  unfoldable pub sql : {A : Type 0} → (Time → Db Own → Result D (A × Db Own)) → Action D Own A
  sql f w s =
      failed (w.calls s.step).outcome (λ e. (err e, record s { step = suc s.step }))
        (elim (f s.now s.db) [
          | ok (a, db) ↦ (ok a, record s { db = db; step = suc s.step })
          | err e ↦ (err e, record s { step = suc s.step })
        ])

  -- A lone query, outside every transaction of this call.
  unfoldable pub query : {A : Type 0} → (Time → Db Own → Result D A) → Action D Own A
  query f w s =
      let s' = resumed w s in
      failed (w.calls s.step).outcome (λ e. (err e, s')) (f s'.now s'.db, s')

  -- A value of `uuid.NewV7`.
  unfoldable pub new_uuid : Action D Own String
  new_uuid w s =
      let s' = record s { step = suc s.step } in
      elim (w.uuids s.step) [ none ↦ (err other, s') | some id ↦ (ok id, s') ]

  -- `correlation.NewID`
  unfoldable pub new_correlation : Action D Own String
  new_correlation w s = (
    ok (elim (w.uuids s.step) [ none ↦ w.random_uuids s.step | some id ↦ id ]),
    record s { step = suc s.step },
  )
