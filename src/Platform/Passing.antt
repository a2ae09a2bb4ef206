-- ===== src/Platform/Passing.antt =====
-- shared/platform/outbox/relay.go: what one pass does, and that `drain` ends.
use wakewake.Prelude.{
  ℕ, suc, ◌<◌, ◌≡◌, ◌⊎◌, inl, inr, arith, String, true, List, [], ◌∷◌, Rows, Rows-refl,
  Rows-compose, Rows-map,
}
use wakewake.Contracts.Events.{Payload, Envelope}
use wakewake.Contracts.Validity.{Codec}
use wakewake.Platform.Session.{OutboxRow, ok, World, resumed}
use wakewake.Platform.Relay.{
  RelaySettings, Broker, RelayState, on_session, publish_rows, record_attempt, mark_published,
}
use wakewake.Platform.Relayed.{
  Evolves, Evolves-refl, Evolves-trans, Rows-Evolves-more, fact, has_message,
  mark_published-Evolves,
}
use wakewake.Platform.Passes.{
  loop-Evolves, loop-confirmed, round, skipped, broken, sent, refused, unheard, having_failed, next,
  told_of, stopped, stopped-state, stopped-ok, and_also-ok,
}
use wakewake.Platform.Batches.{
  batch, looped, passed, marked, opened_state, pass, idle, undone, done, List-cases,
}
use wakewake.Platform.Weights.{
  tries, tries-Lighter, claim_rows-head, Lighter, Lighter-Evolves, Evolves-Settled,
  fail_row-Lighter, record_attempt-Lighter, mark_published-Settled,
}

-- A row keeps its fact, and is published only where it was before or the broker has its message.
abbrev pub Confirmed : List (Envelope Payload) → OutboxRow → OutboxRow → Type 0
Confirmed log r r' =
    (fact r' ≡ fact r) × ((r'.published_at ≡ r.published_at) ⊎ (has_message r.id log ≡ true))

module _ (D : Type 0) {Own Body : Type 0} (codec : Codec Payload Body) (cfg : RelaySettings)
    (b : Broker) (w : World Own) (s : RelayState Own) where
  abbrev before : List OutboxRow
  before = (resumed w s.session).db.outbox

  abbrev after : List OutboxRow
  after = (passed D codec cfg b w s).1.session.db.outbox

  pub pass-Evolves : Rows (Evolves cfg (passed D codec cfg b w s).1.delivered) before after
  pass-Evolves = elim (pass D codec cfg b w s) [
    | idle same _ _ ↦ rw (after, same) (Rows-refl (Evolves cfg _) (Evolves-refl cfg _) before)
    | undone same _ _ _ ↦ rw (after, same) (Rows-refl (Evolves cfg _) (Evolves-refl cfg _) before)
    | done ids l m kept told _ ↦
        let out : RelayState Own = (looped D codec cfg b w s).1 in
        let log : List (Envelope Payload) = out.delivered in
        rw (after, kept, told)
          (Rows-compose (Evolves-trans cfg log) before out.session.db.outbox
            (marked D codec cfg b w s ids).1.session.db.outbox
            (Rows-Evolves-more cfg [] log before out.session.db.outbox (
              loop-Evolves D codec cfg b w (batch D codec cfg b w s)
                (opened_state D codec cfg b w s)))
            (mark_published-Evolves D cfg log ids
              (loop-confirmed D codec cfg b w (batch D codec cfg b w s)
                (opened_state D codec cfg b w s) l)
              w out.session))
  ]

  -- However the broker and the driver behave, a pass drops no row and changes no row's fact, and
  -- publishes a row only if the broker has been handed a message with its id.
  pub pass_confirms : Rows (Confirmed (passed D codec cfg b w s).1.delivered) before after
  pass_confirms = Rows-map (λ x y (f, _, c). (f, c)) before after pass-Evolves

  marking-Evolves :
      (ps : List OutboxRow) (t : RelayState Own) {ids : List String}
      → (publish_rows {D = D} codec cfg b ps w t).0 ≡ ok ids
      → Rows
          (Evolves cfg (publish_rows {D = D} codec cfg b ps w t).1.delivered)
          (publish_rows {D = D} codec cfg b ps w t).1.session.db.outbox
          (mark_published {D = D} ids w
            (publish_rows {D = D} codec cfg b ps w t).1.session).1.db.outbox
  marking-Evolves ps t {ids} l =
      let out : RelayState Own = (publish_rows {D = D} codec cfg b ps w t).1 in
      mark_published-Evolves D cfg out.delivered ids (loop-confirmed D codec cfg b w ps t l) w
        out.session

  -- The head of the batch was not confirmed.
  ended :
      (p : OutboxRow) (ps : List OutboxRow) (t t' : RelayState Own) {ids : List String}
      → publish_rows {D = D} codec cfg b (p ∷ ps) w t
        ≡ stopped (on_session (record_attempt cfg p) w t')
      → (publish_rows {D = D} codec cfg b (p ∷ ps) w t).0 ≡ ok ids
      → ((record_attempt {D = D} cfg p w t'.session).0 ≡ ok tt
          → Rows
              (Lighter cfg p)
              t.session.db.outbox
              (record_attempt {D = D} cfg p w t'.session).1.db.outbox)
      → Rows
          (Lighter cfg p)
          t.session.db.outbox
          (mark_published {D = D} ids w
            (publish_rows {D = D} codec cfg b (p ∷ ps) w t).1.session).1.db.outbox
  unfolding mark_published
  ended p ps t t' {ids} e l lighter =
      let (empty, tried) =
        stopped-ok (on_session (record_attempt {D = D} cfg p) w t') {ids = ids} (rw (← e) l) in
      rw (empty, e, stopped-state (on_session (record_attempt {D = D} cfg p) w t')) (lighter tried)

  loop-Lighter :
      (p : OutboxRow) (ps : List OutboxRow) (t : RelayState Own) {ids : List String}
      → (publish_rows {D = D} codec cfg b (p ∷ ps) w t).0 ≡ ok ids
      → (mark_published {D = D} ids w (publish_rows {D = D} codec cfg b (p ∷ ps) w t).1.session).0
        ≡ ok tt
      → Rows
          (Lighter cfg p)
          t.session.db.outbox
          (mark_published {D = D} ids w
            (publish_rows {D = D} codec cfg b (p ∷ ps) w t).1.session).1.db.outbox
  loop-Lighter p ps t {ids} l m =
      let out : RelayState Own = (publish_rows {D = D} codec cfg b (p ∷ ps) w t).1 in
      let end_ : List OutboxRow = (mark_published {D = D} ids w out.session).1.db.outbox in
      elim (round D codec cfg b w p ps t) [
        | skipped _ f e ↦
            let t' : RelayState Own = having_failed D codec cfg b w p t in
            Rows-compose (Lighter-Evolves cfg _ p) t.session.db.outbox out.session.db.outbox end_
              (Rows-compose (Lighter-Evolves cfg [] p) t.session.db.outbox t'.session.db.outbox
                out.session.db.outbox (fail_row-Lighter D cfg w t.session p f)
                (rw e (loop-Evolves D codec cfg b w ps t')))
              (marking-Evolves (p ∷ ps) t l)
        | broken _ x _ e ↦ absurd (ground (arith, e, l))
        | sent _ _ e ↦
            let t' : RelayState Own = told_of D codec cfg b w p (next D codec cfg b w t) in
            let (rest, _, all) =
              and_also-ok p.id (publish_rows {D = D} codec cfg b ps w t') {ids = ids}
                (rw (← e) l) in
            let m' : (mark_published {D = D} (p.id ∷ rest) w out.session).0 ≡ ok tt =
              rw (← all) m in
            Rows-compose (Evolves-Settled cfg p) t.session.db.outbox out.session.db.outbox end_
              (loop-Evolves D codec cfg b w (p ∷ ps) t)
              (rw all (mark_published-Settled D cfg w out.session p.id rest m'))
        | refused _ _ e ↦
            let t' : RelayState Own = next D codec cfg b w t in
            ended p ps t t' e l (record_attempt-Lighter D cfg w t'.session p)
        | unheard _ _ e ↦
            let t' : RelayState Own = told_of D codec cfg b w p (next D codec cfg b w t) in
            ended p ps t t' e l (record_attempt-Lighter D cfg w t'.session p)
      ]

  -- A pass that ends well and has claimed something leaves less to try.
  pub pass_lightens :
      (n : ℕ) → (passed D codec cfg b w s).0 ≡ ok (suc n) → tries cfg after < tries cfg before
  pass_lightens n h = elim (pass D codec cfg b w s) [
    | idle _ _ none_claimed ↦ absurd (ground (arith, (none_claimed (suc n) h).0))
    | undone _ _ x e ↦ absurd (ground (arith, e, h))
    | done ids l m kept _ count ↦ elim (List-cases (batch D codec cfg b w s)) [
      | inl empty ↦ absurd (ground (arith, count (suc n) h, empty))
      | inr (p, ps, full) ↦
          let t : RelayState Own = opened_state D codec cfg b w s in
          let l' : (publish_rows {D = D} codec cfg b (p ∷ ps) w t).0 ≡ ok ids = rw (← full) l in
          let m' : (mark_published {D = D} ids w
                (publish_rows {D = D} codec cfg b (p ∷ ps) w t).1.session).0
              ≡ ok tt =
            rw (← full) m in
          let lighter : Rows (Lighter cfg p) before
              (marked D codec cfg b w s ids).1.session.db.outbox =
            rw full (loop-Lighter p ps t l' m') in
          rw (after, kept)
            ((tries-Lighter cfg p before (marked D codec cfg b w s ids).1.session.db.outbox
                lighter).1
              (claim_rows-head b cfg.batch_size before full))
    ]
  ]
