-- ===== src/Platform/Rules.antt =====
-- How an action that succeeded ran: one inversion rule for each way to combine actions.
use wakewake.Prelude.{suc, ◌≡◌, refl, ◌⊎◌, inl, inr, arith}
use wakewake.Contracts.Events.{Time}
use wakewake.Platform.Session.{
  PgError, Error, Result, ok, err, Outcome, fine, refused, lost, unknown, Db, World, Session,
  Action, fail, catch, ◌>>=◌, sql,
}

pub Result-cases :
    {D A : Type 0} (r : Result D A) → ((a : A) × (r ≡ ok a)) ⊎ ((e : Error D) × (r ≡ err e))
Result-cases (ok a) = inl (a, refl)
Result-cases (err e) = inr (e, refl)

pub Outcome-cases :
    (o : Outcome) → (o ≡ fine) ⊎ ((x : PgError) × (o ≡ refused x)) ⊎ (o ≡ lost) ⊎ (o ≡ unknown)
Outcome-cases fine = inl refl
Outcome-cases (refused x) = inr (inl (x, refl))
Outcome-cases lost = inr (inr (inl refl))
Outcome-cases unknown = inr (inr (inr refl))

module _ {D Own : Type 0} where
  pub >>=-ok :
      {A B : Type 0} (m : Action D Own A) (f : A → Action D Own B) (w : World Own) (s : Session Own)
      {b : B}
      → ((m >>= f) w s).0 ≡ ok b
      → (a : A) × ((m w s).0 ≡ ok a) × ((m >>= f) w s ≡ f a w (m w s).1)
  >>=-ok m f w s h = elim (Result-cases (m w s).0) [
    | inl (a, e) ↦ (a, e, ground arith)
    | inr (e, q) ↦ absurd (ground arith)
  ]

  pub sql-ok :
      {A : Type 0} (f : Time → Db Own → Result D (A × Db Own)) (w : World Own) (s : Session Own)
      {a : A}
      → (sql f w s).0 ≡ ok a
      → (db : Db Own) × (f s.now s.db ≡ ok (a, db))
        × ((sql f w s).1 ≡ record s { db = db; step = suc s.step })
  unfolding sql
  sql-ok f w s h = elim (Result-cases (f s.now s.db)) [
    | inl ((a, db), e) ↦ (db, ground arith, ground arith)
    | inr (e, q) ↦ absurd (ground arith)
  ]

  pub catch-ok :
      {A : Type 0} (m : Action D Own A) (g : Error D → Error D) (w : World Own) (s : Session Own)
      {a : A}
      → (catch m (λ e. fail (g e)) w s).0 ≡ ok a
      → ((m w s).0 ≡ ok a) × (catch m (λ e. fail (g e)) w s ≡ m w s)
  catch-ok m g w s h = ground arith
