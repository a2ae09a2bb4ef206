-- ===== src/Booking/Applied.antt =====
-- What the body of the booking store's `Apply`, `ApplyTx`, did when it succeeded.
use wakewake.Prelude.{
  ◌+◌, ◌≡◌, ◌≢◌, inl, inr, arith, String, Bool, true, false, not, ◌&&◌, none, some, List,
  Bool-cases, Option-cases, countb,
}
use wakewake.Contracts.Events.{Time, Emission}
use wakewake.Platform.Session.{
  domain, ok, err, World, Session, sql, fail, pure, lift, catch, ◌>>=◌, ◌>>◌,
}
use wakewake.Platform.Rules.{>>=-ok, sql-ok, catch-ok}
use wakewake.Platform.Failures.{>>=-err, stage_all-err}
use wakewake.Platform.Outbox.{stage_all}
use wakewake.Platform.Keyed.{Engine, find_by, replace_by}
use wakewake.Platform.Staging.{is_event_of, is_emission_of, stage_all-ok}
use wakewake.Booking.Lifecycle.{BookingError, Booking, Transition}
use wakewake.Booking.Table.{Tables, booking_id, failed_check, select_row, update_row, set_columns}
use wakewake.Booking.Store.{
  StoreAction, aggregate_type, translate_read, state_changed, is_empty, persist, apply_tx,
}
use wakewake.Booking.Effects.{select-ok}

-- An UPDATE that succeeds found the row, and its new columns pass the CHECKs.
pub record Updated (g : Engine) (next : Booking) (db : Tables) (row : Booking) : Type 0 where
  pub old : Booking
  pub found : find_by booking_id next.id db.own ≡ some old
  pub columns : row ≡ set_columns next old
  pub passed : failed_check g row ≡ none

update_row-ok :
    (g : Engine) (next : Booking) (now : Time) (db db' : Tables) (row : Booking)
    → update_row g next now db ≡ ok (row, db')
    → Updated g next db row × (db' ≡ record db { own = replace_by booking_id row db.own })
unfolding update_row
update_row-ok g next now db db' row h = elim (Option-cases (find_by booking_id next.id db.own)) [
  | inl e ↦ absurd (ground arith)
  | inr (old, e) ↦
      (record { old = old; found = e; columns = ground arith; passed = ground arith }, ground arith)
]

-- The two ways in which the body of `ApplyTx` succeeds.
pub data ApplyEffect (g : Engine) (id : String) (fn : Transition) (out : Booking × Bool)
    (s s' : Session (List Booking)) : Type 0 where
  unchanged :
      (r : Booking)
      → find_by booking_id id s.db.own ≡ some r
      → (es : List Emission) (next : Booking) → fn r ≡ ok (next, es)
      → state_changed r next ≡ false
      → is_empty es ≡ true
      → out ≡ (r, false)
      → s'.db ≡ s.db
      → ApplyEffect g id fn out s s'
  written :
      (r : Booking)
      → find_by booking_id id s.db.own ≡ some r
      → (es : List Emission) (next : Booking) → fn r ≡ ok (next, es)
      → out.1 ≡ true
      → Updated g next s.db out.0
      → s'.db.own ≡ replace_by booking_id out.0 s.db.own
      → s'.db.keys ≡ s.db.keys
      → ((event agg : String)
          → countb (is_event_of event agg) s'.db.outbox
            ≡ countb (is_event_of event agg) s.db.outbox + countb (is_emission_of event agg) es)
      → ApplyEffect g id fn out s s'

-- The writing branch of `persist`.
abbrev write : Engine → Booking → List Emission → StoreAction (Booking × Bool)
write g next es = do
  updated ← sql (update_row g next)
  stage_all aggregate_type es
  pure (updated, true)

module _ (g : Engine) (w : World (List Booking)) (s : Session (List Booking)) where
  write-ok :
      (next : Booking) (es : List Emission) (out : Booking × Bool)
      → (write g next es w s).0 ≡ ok out
      → (out.1 ≡ true)
        × Updated g next s.db out.0
        × ((write g next es w s).1.db.own ≡ replace_by booking_id out.0 s.db.own)
        × ((write g next es w s).1.db.keys ≡ s.db.keys)
        × ((event agg : String)
            → countb (is_event_of event agg) (write g next es w s).1.db.outbox
              ≡ countb (is_event_of event agg) s.db.outbox + countb (is_emission_of event agg) es)
  write-ok next es out h =
      let k = λ (row : Booking). stage_all aggregate_type es >> pure (row, true) in
      let (row, e, run) = >>=-ok (sql (update_row g next)) k w s h in
      let (db, did, at) = sql-ok (update_row g next) w s e in
      let (facts, own) = update_row-ok g next s.now s.db db row did in
      let s1 = (sql (update_row g next) w s).1 in
      let (_, st, run') =
        >>=-ok (stage_all aggregate_type es) (λ _. pure (row, true)) w s1 (rw run at h) in
      let staged = stage_all-ok aggregate_type w es s1 st in
      let same : out ≡ (row, true) = ground (arith, run, run') in
      (
        ground (arith, same),
        rw same facts,
        ground (arith, run, run', staged.own, at, own, same),
        ground (arith, run, run', staged.keys, at, own),
        λ event agg. ground (arith, run, run', staged.counts event agg, at, own),
      )

module _ (g : Engine) (w : World (List Booking)) (s : Session (List Booking)) where
  persist_same :
      (r next : Booking) (es : List Emission)
      → not (state_changed r next) && is_empty es ≡ true
      → persist g r (next, es) w s ≡ (ok (r, false), s)
  unfolding persist
  persist_same r next es e = ground arith

  persist-write :
      (r next : Booking) (es : List Emission)
      → not (state_changed r next) && is_empty es ≡ false
      → persist g r (next, es) w s ≡ write g next es w s
  unfolding persist
  persist-write r next es e = ground arith

  persist-ok :
      (id : String) (fn : Transition) (r next : Booking) (es : List Emission) (out : Booking × Bool)
      → find_by booking_id id s.db.own ≡ some r
      → fn r ≡ ok (next, es)
      → (persist g r (next, es) w s).0 ≡ ok out
      → ApplyEffect g id fn out s (persist g r (next, es) w s).1
  persist-ok id fn r next es out found did h =
      elim (Bool-cases (not (state_changed r next) && is_empty es)) [
        | inl e ↦
            let run = persist_same r next es e in
            unchanged r found es next did (ground arith) (ground arith) (ground (arith, run))
              (ground (arith, run))
        | inr e ↦
            let run = persist-write r next es e in
            let (flag, facts, own, keys, counts) = write-ok g w s next es out (rw run at h) in
            written r found es next did flag facts (ground (arith, run, own))
              (ground (arith, run, keys)) (λ event agg. ground (arith, run, counts event agg))
      ]

module _ (g : Engine) (w : World (List Booking)) (s : Session (List Booking)) where
  ApplyEffect-db :
      (id : String) (fn : Transition) (out : Booking × Bool) (s1 s' : Session (List Booking))
      → s1.db ≡ s.db
      → ApplyEffect g id fn out s1 s'
      → ApplyEffect g id fn out s s'
  ApplyEffect-db id fn out s1 s' e (unchanged r found es next did same empty o kept) =
      unchanged r (ground (arith, found, e)) es next did same empty o (ground (arith, kept, e))
  ApplyEffect-db id fn out s1 s' e (written r found es next did flag facts own keys counts) =
      written r (ground (arith, found, e)) es next did flag (rw (← e) facts)
        (ground (arith, own, e)) (ground (arith, keys, e))
        (λ event agg. ground (arith, counts event agg, e))

  pub apply_tx-ok :
      (id : String) (fn : Transition) (out : Booking × Bool)
      → (apply_tx g id fn w s).0 ≡ ok out
      → ApplyEffect g id fn out s (apply_tx g id fn w s).1
  unfolding apply_tx
  apply_tx-ok id fn out h =
      let m = catch (sql (select_row id)) (λ e. fail (translate_read e)) in
      let k = λ (current : Booking). lift (fn current) >>= persist g current in
      let (r, e, run) = >>=-ok m k w s h in
      let (e', ran) = catch-ok (sql (select_row id)) translate_read w s e in
      let (found, same, _) = select-ok w s id r e' in
      let s1 = (m w s).1 in
      let ((next, es), did, run') = >>=-ok (lift (fn r)) (persist g r) w s1 (rw run at h) in
      let eff =
        persist-ok g w s1 id fn r next es out (ground (arith, found, ran, same)) did
          (rw run' at (rw run at h)) in
      rw (run, run') (ApplyEffect-db id fn out s1 _ (ground (arith, ran, same)) eff)

  update-err :
      (next : Booking) (d : BookingError) → (sql (update_row g next) w s).0 ≢ err (domain d)
  unfolding sql update_row
  update-err next d h = ground arith

  write-err :
      (next : Booking) (es : List Emission) (d : BookingError)
      → (write g next es w s).0 ≢ err (domain d)
  write-err next es d h =
      let k : Booking → StoreAction (Booking × Bool) =
        λ row. stage_all aggregate_type es >> pure (row, true) in
      elim (>>=-err w (sql (update_row g next)) k s h) [
        | inl (p, _) ↦ update-err next d p
        | inr (row, _, run) ↦
            let s1 = (sql (update_row g next) w s).1 in
            elim (>>=-err w (stage_all aggregate_type es) (λ _. pure (row, true)) s1
              (rw run at h)) [
                | inl (p, _) ↦ stage_all-err w aggregate_type es s1 d p
                | inr (_, _, run') ↦ absurd (ground (arith, run, run', h))
              ]
      ]

  persist-err :
      (r next : Booking) (es : List Emission) (d : BookingError)
      → (persist g r (next, es) w s).0 ≢ err (domain d)
  persist-err r next es d h = elim (Bool-cases (not (state_changed r next) && is_empty es)) [
    | inl e ↦ ground (arith, persist_same g w s r next es e)
    | inr e ↦ write-err next es d (rw (persist-write g w s r next es e) at h)
  ]

module _ (g : Engine) (w : World (List Booking)) (s : Session (List Booking)) where
  -- A domain error comes before anything is written.
  pub apply_tx-domain :
      (id : String) (fn : Transition) (d : BookingError)
      → (apply_tx g id fn w s).0 ≡ err (domain d)
      → (apply_tx g id fn w s).1.db ≡ s.db
  unfolding apply_tx sql select_row
  apply_tx-domain id fn d h = elim (Option-cases (find_by booking_id id s.db.own)) [
    | inl e ↦ ground arith
    | inr (b, e) ↦
        let m = catch (sql (select_row id)) (λ x. fail (translate_read x)) in
        let k : Booking → StoreAction (Booking × Bool) =
          λ current. lift (fn current) >>= persist g current in
        elim (>>=-err w m k s h) [
          | inl (p, q) ↦ absurd (ground (arith, e, p))
          | inr (b', p, q) ↦ elim (>>=-err w (lift (fn b')) (persist g b') (m w s).1 (rw q at h)) [
            | inl (x, run) ↦ ground (arith, e, q, run)
            | inr ((next, es), _, run) ↦
                absurd (persist-err g w _ b' next es d (rw run at (rw q at h)))
          ]
        ]
  ]
