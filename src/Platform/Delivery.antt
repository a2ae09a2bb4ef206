-- ===== src/Platform/Delivery.antt =====
-- shared/platform/inbox, `Process`: what a delivery leaves of the database.
use wakewake.Prelude.{
  suc, ◌≡◌, sym, subst, ◌≢◌, ◌⊎◌, inl, inr, arith, String, true, false, List, ◌∷◌, Bool-cases,
  eq_refl,
}
use wakewake.Contracts.Events.{Envelope}
use wakewake.Platform.Session.{ProcessedRow, Error, ok, err, Db, World, Session, resumed, sql}
use wakewake.Platform.Inbox.{Handler, is_processed, insert_processed, process}
use wakewake.Platform.Rules.{Result-cases}
use wakewake.Platform.Atomicity.{Calm}

abbrev pub processed_row : {Raw : Type 0} → String → Envelope Raw → ProcessedRow
processed_row consumer e = record { consumer = consumer; event_id = e.id; event = e.event }

module _ {D Own Raw : Type 0} (consumer : String) (e : Envelope Raw) (h : Handler D Own Raw)
    (w : World Own) (s : Session Own) where
  -- Where the handler starts: the event's row is in.
  abbrev pub entered_session : Session Own
  entered_session = record (resumed w s) {
    db = record (resumed w s).db {
      processed = processed_row consumer e ∷ (resumed w s).db.processed;
    };
    step = suc (resumed w s).step;
  }

  process_commit :
      is_processed consumer e.id (resumed w s).db.processed ≡ false
      → (h e w entered_session).0 ≡ ok tt
      → ((process consumer e h w s).1.db ≡ (resumed w s).db)
        ⊎ ((process consumer e h w s).1.db ≡ (h e w entered_session).1.db)
  unfolding process sql insert_processed
  process_commit new r = ground arith

  process_failed :
      {x : Error D}
      → is_processed consumer e.id (resumed w s).db.processed ≡ false
      → (h e w entered_session).0 ≡ err x
      → (process consumer e h w s).1.db ≡ (resumed w s).db
  unfolding process sql insert_processed
  process_failed new r = ground arith

  -- An event that was handled before changes nothing, its delivery is not answered as a new one, and
  -- the handler is not run: the answer and all that is left, down to the number of calls that were
  -- made, are the same whatever handler there is.
  pub process_duplicate :
      (other : Handler D Own Raw)
      → is_processed consumer e.id (resumed w s).db.processed ≡ true
      → ((process consumer e h w s).1.db ≡ (resumed w s).db)
        × ((process consumer e h w s).0 ≢ ok true)
        × (process consumer e h w s ≡ process consumer e other w s)
  unfolding process sql insert_processed
  process_duplicate other old = (ground arith, ground arith, ground arith)

  -- However the driver behaves, a delivery leaves the database as it found it, or the event was new,
  -- its handler succeeded, and its row and all the handler's work are in.
  pub process_atomic :
      ((process consumer e h w s).1.db ≡ (resumed w s).db)
      ⊎ ((is_processed consumer e.id (resumed w s).db.processed ≡ false)
          × ((h e w entered_session).0 ≡ ok tt)
          × ((process consumer e h w s).1.db ≡ (h e w entered_session).1.db))
  process_atomic = elim (Bool-cases (is_processed consumer e.id (resumed w s).db.processed)) [
    | inl old ↦ inl (process_duplicate h old).0
    | inr new ↦ elim (Result-cases (h e w entered_session).0) [
      | inl (tt, r) ↦ elim (process_commit new r) [
        | inl same ↦ inl same
        | inr done ↦ inr (new, r, done)
      ]
      | inr (x, r) ↦ inl (process_failed new r)
    ]
  ]

  pub process_keeps :
      (P : Db Own → Type 0)
      → Calm P w
      → ((db : Db Own) (rows : List ProcessedRow) → P db → P (record db { processed = rows }))
      → (P entered_session.db → (h e w entered_session).0 ≡ ok tt → P (h e w entered_session).1.db)
      → P s.db
      → P (process consumer e h w s).1.db
  process_keeps P calm rows commits p = elim process_atomic [
    | inl same ↦ subst P (sym same) (calm s.step s.db p)
    | inr (new, r, done) ↦ subst P (sym done) (
        commits
          (rows (resumed w s).db (processed_row consumer e ∷ (resumed w s).db.processed)
            (calm s.step s.db p))
          r)
  ]

  -- A delivery that is answered with success has the event's row in the database, if the handler
  -- keeps the rows.
  pub process_records :
      (process consumer e h w s).0 ≡ ok true
      → (h e w entered_session).1.db.processed ≡ entered_session.db.processed
      → is_processed consumer e.id (process consumer e h w s).1.db.processed ≡ true
  unfolding process sql insert_processed
  process_records r kept = ground (arith, eq_refl consumer, eq_refl e.id)
