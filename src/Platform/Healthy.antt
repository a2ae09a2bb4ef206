-- ===== src/Platform/Healthy.antt =====
-- shared/platform/outbox/relay.go: passes while every call of the driver succeeds.
use wakewake.Prelude.{
  ℕ, suc, ◌≡◌, refl, inl, inr, arith, String, List, [], ◌∷◌, length, leb, Bool-cases, ap, Rows,
  Rows-refl,
}
use wakewake.Contracts.Events.{Time, Payload}
use wakewake.Contracts.Validity.{Codec}
use wakewake.Platform.Session.{OutboxRow, ok, fine, World, Session, resumed, sql}
use wakewake.Platform.Relay.{
  RelaySettings, dropped, Broker, RelayState, exec, fail_row, record_attempt, mark_published,
  on_session, publish_rows, publish_batch, settle_batch,
}
use wakewake.Platform.Relayed.{Evolves, Evolves-refl}
use wakewake.Platform.Passes.{
  round, skipped, broken, sent, refused, unheard, loop, having_failed, next, told_of, stopped,
  stopped-state, loop-Evolves,
}
use wakewake.Platform.Batches.{
  batch, looped, passed, opened_state, pass, idle, undone, done, List-cases,
}

abbrev pub Fine : {Own : Type 0} → World Own → Type 0
Fine w = (n : ℕ) → (w.calls n).outcome ≡ fine

module _ (D : Type 0) {Own : Type 0} (w : World Own) (well : Fine w) where
  exec-ok :
      (f : Time → List OutboxRow → List OutboxRow) (s : Session Own)
      → (exec {D = D} f w s).0 ≡ ok tt
  unfolding sql
  exec-ok f s = ground (arith, well s.step)

  fail_row-ok : (id : String) (s : Session Own) → (fail_row {D = D} id w s).0 ≡ ok tt
  unfolding fail_row
  fail_row-ok id s = exec-ok _ s

  record_attempt-ok :
      (cfg : RelaySettings) (p : OutboxRow) (s : Session Own)
      → (record_attempt {D = D} cfg p w s).0 ≡ ok tt
  unfolding record_attempt
  record_attempt-ok cfg p s = elim (Bool-cases (leb cfg.max_attempts (suc p.attempts))) [
    | inl last ↦ rw last (fail_row-ok p.id s)
    | inr more ↦ rw more (exec-ok _ s)
  ]

  mark_published-ok :
      (ids : List String) (s : Session Own) → (mark_published {D = D} ids w s).0 ≡ ok tt
  unfolding mark_published
  mark_published-ok [] s = refl
  mark_published-ok (id ∷ ids) s = exec-ok _ s

  module _ {Body : Type 0} (codec : Codec Payload Body) (cfg : RelaySettings) (b : Broker) where
    tried :
        (p : OutboxRow) (t : RelayState Own)
        → (stopped {D = D} (on_session (record_attempt cfg p) w t)).0 ≡ ok []
    tried p t = rw (record_attempt-ok cfg p t.session) refl

    loop-ok :
        (ps : List OutboxRow) (s : RelayState Own)
        → (ids : List String) × ((loop D codec cfg b w ps s).0 ≡ ok ids)
    unfolding publish_rows
    loop-ok [] s = ([], refl)
    loop-ok (p ∷ ps) s = elim (round D codec cfg b w p ps s) [
      | skipped _ _ e ↦
          let (ids, r) = loop-ok ps (having_failed D codec cfg b w p s) in (ids, rw e r)
      | broken _ x r e ↦ absurd (ground (arith, r, fail_row-ok p.id s.session))
      | sent _ _ e ↦
          let (ids, r) = loop-ok ps (told_of D codec cfg b w p (next D codec cfg b w s)) in
          (p.id ∷ ids, ground (arith, e, r))
      | refused _ _ e ↦ ([], rw e (tried p (next D codec cfg b w s)))
      | unheard _ _ e ↦ ([], rw e (tried p (told_of D codec cfg b w p (next D codec cfg b w s))))
    ]

    -- Every pass ends well, and tells the size of its batch.
    pub pass-ok :
        (s : RelayState Own) → (passed D codec cfg b w s).0 ≡ ok (length (batch D codec cfg b w s))
    unfolding publish_batch sql
    pass-ok s =
        let (ids, l) = loop-ok (batch D codec cfg b w s) (opened_state D codec cfg b w s) in
        elim (List-cases (batch D codec cfg b w s)) [
          | inl empty ↦ ground (arith, well s.session.step, well (suc s.session.step), empty)
          | inr (p, ps, full) ↦
              let e : passed D codec cfg b w s
                  ≡ settle_batch (resumed w s.session).db (length (batch D codec cfg b w s)) w
                      (looped D codec cfg b w s) =
                ground (arith, well s.session.step, well (suc s.session.step), full) in
              let after : Session Own =
                (mark_published {D = D} ids w (looped D codec cfg b w s).1.session).1 in
              rw e (
                ground (
                  arith,
                  l,
                  mark_published-ok ids (looped D codec cfg b w s).1.session,
                  well after.step,
                ))
        ]

    loop-outage :
        ((n : ℕ) → b.answers n ≡ dropped)
        → (ps : List OutboxRow) (s : RelayState Own)
        → ((loop D codec cfg b w ps s).0 ≡ ok [])
          × ((loop D codec cfg b w ps s).1.delivered ≡ s.delivered)
    unfolding publish_rows
    loop-outage down [] s = (refl, refl)
    loop-outage down (p ∷ ps) s = elim (round D codec cfg b w p ps s) [
      | skipped _ _ e ↦ rw e (loop-outage down ps (having_failed D codec cfg b w p s))
      | broken _ x r e ↦ absurd (ground (arith, r, fail_row-ok p.id s.session))
      | sent _ c e ↦ absurd (ground (arith, c, down s.session.step))
      | refused _ _ e ↦ rw e (
        tried p (next D codec cfg b w s),
        ap (λ (t : RelayState Own). t.delivered)
            (stopped-state (on_session (record_attempt {D = D} cfg p) w (next D codec cfg b w s))),
      )
      | unheard _ c e ↦ absurd (ground (arith, c, down s.session.step))
    ]

    -- During an outage a pass hands nothing to the broker and publishes no row.
    pub pass-outage :
        ((n : ℕ) → b.answers n ≡ dropped)
        → (s : RelayState Own)
        → ((passed D codec cfg b w s).1.delivered ≡ s.delivered)
          × Rows
              (Evolves cfg [])
              (resumed w s.session).db.outbox
              (passed D codec cfg b w s).1.session.db.outbox
    unfolding mark_published
    pass-outage down s =
        let start : RelayState Own = opened_state D codec cfg b w s in
        let rows : List OutboxRow = batch D codec cfg b w s in
        let (r, same) = loop-outage down rows start in
        elim (pass D codec cfg b w s) [
          | idle kept told _ ↦ (
            told,
            rw kept
                (Rows-refl (Evolves cfg []) (Evolves-refl cfg []) (resumed w s.session).db.outbox),
          )
          | undone kept told x e ↦ absurd (ground (arith, e, pass-ok s))
          | done ids l m kept told _ ↦
              let empty : ids ≡ [] = ground (arith, l, r) in
              (rw told same, rw (kept, empty) (loop-Evolves D codec cfg b w rows start))
        ]
