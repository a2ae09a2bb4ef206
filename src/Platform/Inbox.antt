-- ===== src/Platform/Inbox.antt =====
-- shared/platform/inbox/inbox.go: a handler runs in the transaction that records its event.
use wakewake.Prelude.{String, ◌==◌, Bool, true, false, ◌&&◌, List, ◌∷◌, if◌then◌else◌, anyb}
use wakewake.Contracts.Events.{Time, Envelope}
use wakewake.Platform.Session.{ProcessedRow, Db, Result, ok, err, World, Session, Action, sql}
use wakewake.Platform.Tx.{unique_violation, is, begin, rollback, commit}

abbrev pub Handler : Type 0 → Type 0 → Type 0 → Type 0
Handler D Own Raw = Envelope Raw → Action D Own (Unit {0})

-- The primary key (consumer, event_id).
abbrev pub is_processed : String → String → List ProcessedRow → Bool
is_processed consumer id = anyb (λ r. r.consumer == consumer && r.event_id == id)

module _ {D Own : Type 0} where
  -- INSERT ... ON CONFLICT DO NOTHING; the value is RowsAffected() ≠ 0.
  unfoldable pub insert_processed : ProcessedRow → Time → Db Own → Result D (Bool × Db Own)
  insert_processed r now db =
      if is_processed r.consumer r.event_id db.processed
      then ok (false, db)
      else ok (true, record db { processed = r ∷ db.processed })

  -- After the handler: commit its work together with the claim, or roll both back.
  abbrev pub settle :
      Db Own → World Own → Result D (Unit {0}) × Session Own → Result D Bool × Session Own
  settle before w (err e, s) = (err e, rollback before s)
  settle before w (ok _, s) =
      let (r, s') = commit before w s in elim r [ ok _ ↦ (ok true, s') | err e ↦ (err e, s') ]

  -- After the claim. A second delivery that races is a duplicate like any other.
  abbrev pub claimed :
      Db Own
      → Action D Own (Unit {0})
      → World Own
      → Result D Bool × Session Own
      → Result D Bool × Session Own
  claimed before work w (ok true, s) = settle before w (work w s)
  claimed before work w (ok false, s) = (ok false, rollback before s)
  claimed before work w (err e, s) =
      (if is e unique_violation then ok false else err e, rollback before s)

  -- The value is false where the event was a duplicate and the handler did not run.
  unfoldable pub process :
      {Raw : Type 0} → String → Envelope Raw → Handler D Own Raw → Action D Own Bool
  process consumer e h w s =
      let (r, s') = begin w s in
      elim r [
        | err x ↦ (err x, s')
        | ok before ↦ claimed before (h e) w (
            sql
              (insert_processed (record { consumer = consumer; event_id = e.id; event = e.event }))
              w s')
      ]
