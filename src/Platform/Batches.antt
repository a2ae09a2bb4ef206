-- ===== src/Platform/Batches.antt =====
-- shared/platform/outbox/relay.go, `publishBatch`: what a pass leaves of the database, however its
-- calls end.
use wakewake.Prelude.{ℕ, suc, ◌≡◌, refl, ◌⊎◌, inl, inr, arith, String, List, [], ◌∷◌, length}
use wakewake.Contracts.Events.{Payload}
use wakewake.Contracts.Validity.{Codec}
use wakewake.Platform.Session.{
  OutboxRow, Error, Db, Result, ok, err, pg, driver, Outcome, fine, refused, lost, unknown, World,
  Session, resumed, sql,
}
use wakewake.Platform.Tx.{begin, commit, commit_as}
use wakewake.Platform.Rules.{Result-cases}
use wakewake.Platform.Relay.{
  RelaySettings, Broker, RelayState, mark_published, on_session, publish_rows, publish_batch,
  settle_batch, claim_rows,
}

pub List-cases :
    {A : Type 0} (xs : List A) → (xs ≡ []) ⊎ ((x : A) × (rest : List A) × (xs ≡ x ∷ rest))
List-cases [] = inl refl
List-cases (x ∷ xs) = inr (x, xs, refl)

module _ {D Own : Type 0} where
  commit_as-ends :
      (o : Outcome) (before : Db Own) (s : Session Own)
      → ((x : Error D) × ((commit_as {D = D} o before s).0 ≡ err x)
          × ((commit_as {D = D} o before s).1.db ≡ before))
        ⊎ ((commit_as {D = D} o before s).1.db ≡ s.db)
  commit_as-ends fine before s = inr refl
  commit_as-ends (refused e) before s = inl (pg e, refl, refl)
  commit_as-ends lost before s = inl (driver, refl, refl)
  commit_as-ends unknown before s = inr refl

  -- A commit whose answer is lost on the way counts as done.
  commit_ends :
      (before : Db Own) (w : World Own) (s : Session Own)
      → ((x : Error D) × ((commit {D = D} before w s).0 ≡ err x)
          × ((commit {D = D} before w s).1.db ≡ before))
        ⊎ ((commit {D = D} before w s).1.db ≡ s.db)
  commit_ends before w s =
      commit_as-ends (w.calls s.step).outcome before (record s { step = suc s.step })

module _ (D : Type 0) {Own Body : Type 0} (codec : Codec Payload Body) (cfg : RelaySettings)
    (b : Broker) (w : World Own) (s : RelayState Own) where
  -- Where the loop starts, and its batch.
  abbrev pub opened_state : RelayState Own
  opened_state = record s {
    session = record (resumed w s.session) { step = suc (resumed w s.session).step };
  }

  abbrev pub batch : List OutboxRow
  batch = claim_rows b cfg.batch_size (resumed w s.session).db.outbox

  abbrev pub looped : Result D (List String) × RelayState Own
  looped = publish_rows codec cfg b batch w opened_state

  abbrev pub passed : Result D ℕ × RelayState Own
  passed = publish_batch codec cfg b w s

  abbrev pub marked : List String → Result D (Unit {0}) × RelayState Own
  marked ids = on_session (mark_published ids) w looped.1

  pub data Pass : Type 0 where
    idle :
        passed.1.session.db ≡ (resumed w s.session).db
        → passed.1.delivered ≡ s.delivered
        → ((n : ℕ) → passed.0 ≡ ok n → (n ≡ 0) × (batch ≡ []))
        → Pass
    undone :
        passed.1.session.db ≡ (resumed w s.session).db
        → passed.1.delivered ≡ looped.1.delivered
        → (x : Error D) → passed.0 ≡ err x
        → Pass
    done :
        (ids : List String)
        → looped.0 ≡ ok ids
        → (marked ids).0 ≡ ok tt
        → passed.1.session.db ≡ (marked ids).1.session.db
        → passed.1.delivered ≡ looped.1.delivered
        → ((n : ℕ) → passed.0 ≡ ok n → n ≡ length batch)
        → Pass

  settled : passed ≡ settle_batch (resumed w s.session).db (length batch) w looped → Pass
  settled e = elim (Result-cases looped.0) [
    | inr (x, l) ↦
        undone (rw e (ground (arith, l))) (rw e (ground (arith, l))) x (rw e (ground (arith, l)))
    | inl (ids, l) ↦ elim (Result-cases (marked ids).0) [
      | inr (x, m) ↦
          undone (rw e (ground (arith, l, m))) (rw e (ground (arith, l, m))) x
            (rw e (ground (arith, l, m)))
      | inl (_, m) ↦ elim (commit_ends {D = D} (resumed w s.session).db w (marked ids).1.session) [
        | inl (x, gone, back) ↦
            undone (rw e (ground (arith, l, m, gone, back)))
              (rw e (ground (arith, l, m, gone, back))) x (rw e (ground (arith, l, m, gone, back)))
        | inr kept ↦
            done ids l m (rw e (ground (arith, l, m, kept))) (rw e (ground (arith, l, m, kept)))
              (λ n h. ground (arith, l, m, kept, e, h))
      ]
    ]
  ]

  pub pass : Pass
  unfolding publish_batch sql
  pass = elim (Result-cases (begin {D = D} w s.session).0) [
    | inr (x, e) ↦ idle (ground arith) (ground arith) (λ n h. absurd (ground arith))
    | inl (_, e) ↦
        elim (Result-cases (sql {D = D} (λ now db. ok (batch, db)) w (resumed w s.session)).0) [
          | inr (x, c) ↦ idle (ground arith) (ground arith) (λ n h. absurd (ground arith))
          | inl (_, c) ↦ elim (List-cases batch) [
            | inl empty ↦ idle (ground arith) (ground arith) (λ n h. (ground arith, empty))
            | inr (p, ps, full) ↦ settled (ground arith)
          ]
        ]
  ]
