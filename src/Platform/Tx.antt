-- ===== src/Platform/Tx.antt =====
-- shared/platform/pgxx/pgxx.go, `WithinTx`: a transaction that commits when its body succeeds. A
-- panic of the body is not modelled. And shared/platform/pgerr.
use wakewake.Prelude.{suc, String, ◌==◌, Bool}
use wakewake.Platform.Session.{
  Error, pg, driver, Result, ok, err, Db, Outcome, fine, refused, lost, unknown, World, Session,
  Action, failed, resumed,
}

-- The SQLSTATEs that the program knows.
abbrev pub exclusion_violation : String
exclusion_violation = "23P01"

abbrev pub unique_violation : String
unique_violation = "23505"

abbrev pub check_violation : String
check_violation = "23514"

module _ {D : Type 0} where
  abbrev pub code : Error D → String
  code (pg e) = e.code
  code _ = ""

  abbrev pub is : Error D → String → Bool
  is e c = code e == c

  abbrev pub constraint_name : Error D → String
  constraint_name (pg e) = e.constraint
  constraint_name _ = ""

abbrev pub rollback : {Own : Type 0} → Db Own → Session Own → Session Own
rollback before s = record s { db = before }

module _ {D Own : Type 0} where
  -- `Begin`: the value is the database that a rollback goes back to.
  abbrev pub begin : Action D Own (Db Own)
  begin w s =
      let s' = resumed w s in failed (w.calls s.step).outcome (λ e. (err e, s')) (ok s'.db, s')

  -- `Commit`: an answer that was lost on the way leaves the work done.
  abbrev pub commit_as : Outcome → Db Own → Session Own → Result D (Unit {0}) × Session Own
  commit_as fine before s = (ok tt, s)
  commit_as (refused e) before s = (err (pg e), rollback before s)
  commit_as lost before s = (err driver, rollback before s)
  commit_as unknown before s = (err driver, s)

  abbrev pub commit : Db Own → Action D Own (Unit {0})
  commit before w s = commit_as (w.calls s.step).outcome before (record s { step = suc s.step })

  -- What follows the body, by how it ended.
  abbrev pub finish :
      {A : Type 0} → Db Own → World Own → Result D A × Session Own → Result D A × Session Own
  finish before w (err e, s) = (err e, rollback before s)
  finish before w (ok a, s) =
      let (r, s') = commit before w s in elim r [ ok _ ↦ (ok a, s') | err e ↦ (err e, s') ]

  unfoldable pub within_tx : {A : Type 0} → Action D Own A → Action D Own A
  within_tx fn w s =
      let (r, s') = begin w s in
      elim r [ err e ↦ (err e, s') | ok before ↦ finish before w (fn w s') ]
