-- ===== src/Availability/Applied.antt =====
-- What the body of the store's `Apply`, `ApplyTx`, did when it succeeded.
use wakewake.Prelude.{
  ◌+◌, ◌≡◌, ◌≢◌, inl, inr, arith, String, Bool, true, false, not, ◌&&◌, none, some, List,
  Bool-cases, Option-cases, countb,
}
use wakewake.Contracts.Events.{Time, Emission}
use wakewake.Platform.Session.{
  domain, ok, err, World, Session, sql, fail, pure, lift, catch, ◌>>=◌, ◌>>◌,
}
use wakewake.Platform.Failures.{>>=-err, stage_all-err}
use wakewake.Platform.Rules.{>>=-ok, sql-ok, catch-ok}
use wakewake.Platform.Outbox.{stage_all}
use wakewake.Platform.Staging.{is_event_of, is_emission_of, stage_all-ok}
use wakewake.Availability.Reservation.{not_found, DomainError, Reservation, Transition}
use wakewake.Availability.Table.{
  Tables, find, is_excluded, select_row, update_row, set_columns, replace, held_iff_expiry,
  released_iff_reason,
}
use wakewake.Availability.Store.{
  StoreAction, aggregate_type, translate_read, state_changed, is_empty, persist, apply_tx,
}
use wakewake.Availability.Effects.{select-ok}

-- An UPDATE that succeeds found the row, and its new columns met the constraints.
pub record Updated (next : Reservation) (db : Tables) (row : Reservation) : Type 0 where
  pub old : Reservation
  pub found : find next.id db.own ≡ some old
  pub columns : row ≡ set_columns next old
  pub expiry : held_iff_expiry row.status row.expires_at ≡ true
  pub reason : released_iff_reason row.status row.released_reason ≡ true
  pub free : is_excluded row db.own ≡ false

update_row-ok :
    (next : Reservation) (now : Time) (db db' : Tables) (row : Reservation)
    → update_row next now db ≡ ok (row, db')
    → Updated next db row × (db' ≡ record db { own = replace row db.own })
unfolding update_row
update_row-ok next now db db' row h = elim (Option-cases (find next.id db.own)) [
  | inl e ↦ absurd (ground arith)
  | inr (old, e) ↦ ground (arith, e)
]

-- The two ways in which the body of `ApplyTx` succeeds.
pub data ApplyEffect (id : String) (fn : Transition) (out : Reservation × Bool)
    (s s' : Session (List Reservation)) : Type 0 where
  unchanged :
      (r : Reservation)
      → find id s.db.own ≡ some r
      → (es : List Emission) (next : Reservation) → fn r ≡ ok (next, es)
      → state_changed r next ≡ false
      → is_empty es ≡ true
      → out ≡ (r, false)
      → s'.db ≡ s.db
      → ApplyEffect id fn out s s'
  written :
      (r : Reservation)
      → find id s.db.own ≡ some r
      → (es : List Emission) (next : Reservation) → fn r ≡ ok (next, es)
      → out.1 ≡ true
      → Updated next s.db out.0
      → s'.db.own ≡ replace out.0 s.db.own
      → s'.db.keys ≡ s.db.keys
      → ((event agg : String)
          → countb (is_event_of event agg) s'.db.outbox
            ≡ countb (is_event_of event agg) s.db.outbox + countb (is_emission_of event agg) es)
      → ApplyEffect id fn out s s'

-- The writing branch of `persist`.
abbrev write : Reservation → List Emission → StoreAction (Reservation × Bool)
write next es = do
  updated ← sql (update_row next)
  stage_all aggregate_type es
  pure (updated, true)

module _ (w : World (List Reservation)) (s : Session (List Reservation)) where
  write-ok :
      (next : Reservation) (es : List Emission) (out : Reservation × Bool)
      → (write next es w s).0 ≡ ok out
      → (out.1 ≡ true)
        × Updated next s.db out.0
        × ((write next es w s).1.db.own ≡ replace out.0 s.db.own)
        × ((write next es w s).1.db.keys ≡ s.db.keys)
        × ((event agg : String)
            → countb (is_event_of event agg) (write next es w s).1.db.outbox
              ≡ countb (is_event_of event agg) s.db.outbox + countb (is_emission_of event agg) es)
  write-ok next es out h =
      let k = λ (row : Reservation). stage_all aggregate_type es >> pure (row, true) in
      let (row, e, run) = >>=-ok (sql (update_row next)) k w s h in
      let (db, did, at) = sql-ok (update_row next) w s e in
      let (facts, own) = update_row-ok next s.now s.db db row did in
      let s1 = (sql (update_row next) w s).1 in
      let (_, st, run') =
        >>=-ok (stage_all aggregate_type es) (λ _. pure (row, true)) w s1 (rw run at h) in
      let staged = stage_all-ok aggregate_type w es s1 st in
      let same : out ≡ (row, true) = ground (arith, run, run') in
      (
        ground (arith, same),
        rw same facts,
        ground (arith, run, run', staged.own, at, own, same),
        ground (arith, run, run', staged.keys, at, own),
        λ event agg. ground (arith, run, run', staged.counts event agg, at, own),
      )

module _ (w : World (List Reservation)) (s : Session (List Reservation)) where
  persist_same :
      (r next : Reservation) (es : List Emission)
      → not (state_changed r next) && is_empty es ≡ true
      → persist r (next, es) w s ≡ (ok (r, false), s)
  unfolding persist
  persist_same r next es e = ground arith

  persist-write :
      (r next : Reservation) (es : List Emission)
      → not (state_changed r next) && is_empty es ≡ false
      → persist r (next, es) w s ≡ write next es w s
  unfolding persist
  persist-write r next es e = ground arith

  persist-ok :
      (id : String) (fn : Transition) (r next : Reservation) (es : List Emission)
      (out : Reservation × Bool)
      → find id s.db.own ≡ some r
      → fn r ≡ ok (next, es)
      → (persist r (next, es) w s).0 ≡ ok out
      → ApplyEffect id fn out s (persist r (next, es) w s).1
  persist-ok id fn r next es out found did h =
      elim (Bool-cases (not (state_changed r next) && is_empty es)) [
        | inl e ↦
            let run = persist_same r next es e in
            unchanged r found es next did (ground arith) (ground arith) (ground (arith, run))
              (ground (arith, run))
        | inr e ↦
            let run = persist-write r next es e in
            let (flag, facts, own, keys, counts) = write-ok w s next es out (rw run at h) in
            written r found es next did flag facts (ground (arith, run, own))
              (ground (arith, run, keys)) (λ event agg. ground (arith, run, counts event agg))
      ]

module _ (w : World (List Reservation)) (s : Session (List Reservation)) where
  ApplyEffect-db :
      (id : String) (fn : Transition) (out : Reservation × Bool)
      (s1 s' : Session (List Reservation))
      → s1.db ≡ s.db
      → ApplyEffect id fn out s1 s'
      → ApplyEffect id fn out s s'
  ApplyEffect-db id fn out s1 s' e (unchanged r found es next did same empty o kept) =
      unchanged r (ground (arith, found, e)) es next did same empty o (ground (arith, kept, e))
  ApplyEffect-db id fn out s1 s' e (written r found es next did flag facts own keys counts) =
      written r (ground (arith, found, e)) es next did flag (rw (← e) facts)
        (ground (arith, own, e)) (ground (arith, keys, e))
        (λ event agg. ground (arith, counts event agg, e))

  pub apply_tx-ok :
      (id : String) (fn : Transition) (out : Reservation × Bool)
      → (apply_tx id fn w s).0 ≡ ok out
      → ApplyEffect id fn out s (apply_tx id fn w s).1
  unfolding apply_tx
  apply_tx-ok id fn out h =
      let m = catch (sql (select_row id)) (λ e. fail (translate_read e)) in
      let k = λ (current : Reservation). lift (fn current) >>= persist current in
      let (r, e, run) = >>=-ok m k w s h in
      let (e', ran) = catch-ok (sql (select_row id)) translate_read w s e in
      let (found, same, _) = select-ok w s id r e' in
      let s1 = (m w s).1 in
      let ((next, es), did, run') = >>=-ok (lift (fn r)) (persist r) w s1 (rw run at h) in
      let eff =
        persist-ok w s1 id fn r next es out (ground (arith, found, ran, same)) did
          (rw run' at (rw run at h)) in
      rw (run, run') (ApplyEffect-db id fn out s1 _ (ground (arith, ran, same)) eff)

  update-err :
      (next : Reservation) (d : DomainError) → (sql (update_row next) w s).0 ≢ err (domain d)
  unfolding sql update_row
  update-err next d h = ground arith

  write-err :
      (next : Reservation) (es : List Emission) (d : DomainError)
      → (write next es w s).0 ≢ err (domain d)
  write-err next es d h =
      let k : Reservation → StoreAction (Reservation × Bool) =
        λ row. stage_all aggregate_type es >> pure (row, true) in
      elim (>>=-err w (sql (update_row next)) k s h) [
        | inl (p, _) ↦ update-err next d p
        | inr (row, _, run) ↦
            let s1 = (sql (update_row next) w s).1 in
            elim (>>=-err w (stage_all aggregate_type es) (λ _. pure (row, true)) s1
              (rw run at h)) [
                | inl (p, _) ↦ stage_all-err w aggregate_type es s1 d p
                | inr (_, _, run') ↦ absurd (ground (arith, run, run', h))
              ]
      ]

  persist-err :
      (r next : Reservation) (es : List Emission) (d : DomainError)
      → (persist r (next, es) w s).0 ≢ err (domain d)
  persist-err r next es d h = elim (Bool-cases (not (state_changed r next) && is_empty es)) [
    | inl e ↦ ground (arith, persist_same w s r next es e)
    | inr e ↦ write-err next es d (rw (persist-write w s r next es e) at h)
  ]

module _ (w : World (List Reservation)) (s : Session (List Reservation)) where
  -- An unknown id is found out before anything is written.
  pub apply_tx-not_found :
      (id : String) (fn : Transition)
      → ((r : Reservation) → fn r ≢ err (domain not_found))
      → (apply_tx id fn w s).0 ≡ err (domain not_found)
      → (find id s.db.own ≡ none) × ((apply_tx id fn w s).1.db ≡ s.db)
  unfolding apply_tx sql select_row
  apply_tx-not_found id fn never h = elim (Option-cases (find id s.db.own)) [
    | inl e ↦ (e, ground arith)
    | inr (r, e) ↦
        elim (>>=-err w (catch (sql (select_row id)) (λ x. fail (translate_read x)))
          (λ current. lift (fn current) >>= persist current) s h) [
            | inl (p, q) ↦ absurd (ground (arith, e, p))
            | inr (r', p, q) ↦
                absurd
                  (elim (>>=-err w (lift (fn r')) (persist r')
                    (catch (sql (select_row id)) (λ x. fail (translate_read x)) w s).1
                    (rw q at h)) [
                      | inl (x, _) ↦ never r' x
                      | inr ((next, es), _, run) ↦
                          persist-err w _ r' next es not_found (rw run at (rw q at h))
                    ])
          ]
  ]
