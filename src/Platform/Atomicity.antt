-- ===== src/Platform/Atomicity.antt =====
-- shared/platform/pgxx, `WithinTx`: what a transaction leaves of the database.
use wakewake.Prelude.{ℕ, ◌≡◌, sym, subst, ◌≢◌, ◌⊎◌, inl, inr, arith}
use wakewake.Platform.Session.{Error, ok, err, Db, unknown, World, Session, Action, resumed}
use wakewake.Platform.Tx.{within_tx}
use wakewake.Platform.Rules.{Result-cases}

-- What other connections commit keeps a property.
abbrev pub Calm : {Own : Type 0} → (Db Own → Type 0) → World Own → Type 0
Calm {Own} P w = (n : ℕ) (db : Db Own) → P db → P ((w.calls n).others db)

module _ {D Own A : Type 0} (fn : Action D Own A) (w : World Own) (s : Session Own) where
  commit_cases :
      {a : A}
      → (fn w (resumed w s)).0 ≡ ok a
      → ((within_tx fn w s).1.db ≡ (resumed w s).db)
        ⊎ ((within_tx fn w s).1.db ≡ (fn w (resumed w s)).1.db)
  unfolding within_tx
  commit_cases e = ground arith

  -- However the driver behaves, a transaction leaves the database as it found it, or with all that
  -- a body that succeeded did.
  pub within_tx_atomic :
      ((within_tx fn w s).1.db ≡ (resumed w s).db)
      ⊎ ((a : A) × ((fn w (resumed w s)).0 ≡ ok a)
          × ((within_tx fn w s).1.db ≡ (fn w (resumed w s)).1.db))
  unfolding within_tx
  within_tx_atomic = elim (Result-cases (fn w (resumed w s)).0) [
    | inl (a, e) ↦ elim (commit_cases e) [ inl p ↦ inl p | inr q ↦ inr (a, e, q) ]
    | inr (e, q) ↦ inl (ground arith)
  ]

  -- So a property that others keep, and that the body keeps when it succeeds, is kept.
  pub within_tx_keeps :
      (P : Db Own → Type 0)
      → Calm P w
      → ((a : A) → P (resumed w s).db → (fn w (resumed w s)).0 ≡ ok a → P (fn w (resumed w s)).1.db)
      → P s.db
      → P (within_tx fn w s).1.db
  within_tx_keeps P calm commits h = elim within_tx_atomic [
    | inl same ↦ subst P (sym same) (calm s.step s.db h)
    | inr (a, e, done) ↦ subst P (sym done) (commits a (calm s.step s.db h) e)
  ]

  pub within_tx-ok :
      {a : A}
      → (within_tx fn w s).0 ≡ ok a
      → ((fn w (resumed w s)).0 ≡ ok a) × ((within_tx fn w s).1.db ≡ (fn w (resumed w s)).1.db)
  unfolding within_tx
  within_tx-ok h = ground arith

  pub within_tx-err :
      {e : Error D}
      → (within_tx fn w s).0 ≡ err e
      → (w.calls (fn w (resumed w s)).1.step).outcome ≢ unknown
      → (within_tx fn w s).1.db ≡ (resumed w s).db
  unfolding within_tx
  within_tx-err h k = ground arith
