-- ===== src/Platform/Failures.antt =====
-- How staging an event (shared/platform/outbox) may fail.
use wakewake.Prelude.{◌≡◌, ◌≢◌, ◌⊎◌, inl, inr, arith, String, List, [], ◌∷◌}
use wakewake.Contracts.Events.{Emission}
use wakewake.Platform.Session.{
  Error, domain, ok, err, World, Session, Action, new_uuid, sql, new_correlation, ◌>>=◌,
}
use wakewake.Platform.Outbox.{Record, insert_row, enqueue, stage_as, stage_all}
use wakewake.Platform.Rules.{Result-cases}

module _ {D Own : Type 0} (w : World Own) where
  -- A chain fails where its first or its second part does.
  pub >>=-err :
      {A B : Type 0} (m : Action D Own A) (f : A → Action D Own B) (s : Session Own) {e : Error D}
      → ((m >>= f) w s).0 ≡ err e
      → (((m w s).0 ≡ err e) × ((m >>= f) w s ≡ (err e, (m w s).1)))
        ⊎ ((a : A) × ((m w s).0 ≡ ok a) × ((m >>= f) w s ≡ f a w (m w s).1))
  >>=-err m f s h = elim (Result-cases (m w s).0) [
    | inl (a, e) ↦ inr (a, e, ground arith)
    | inr (x, q) ↦ inl (ground arith, ground arith)
  ]

  enqueue-err : (rec : Record) (s : Session Own) (d : D) → (enqueue rec w s).0 ≢ err (domain d)
  unfolding enqueue new_correlation new_uuid sql insert_row
  enqueue-err rec s d h = ground arith

  stage_as-err :
      (kind : String) (e : Emission) (s : Session Own) (d : D)
      → (stage_as kind e w s).0 ≢ err (domain d)
  unfolding stage_as
  stage_as-err kind e s d h = grind (arith, enqueue-err)

  pub stage_all-err :
      (kind : String) (es : List Emission) (s : Session Own) (d : D)
      → (stage_all kind es w s).0 ≢ err (domain d)
  unfolding stage_all
  stage_all-err kind [] s d h = ground arith
  stage_all-err kind (e ∷ es) s d h =
      elim (>>=-err (stage_as kind e) (λ _. stage_all kind es) s h) [
        | inl (p, _) ↦ stage_as-err kind e s d p
        | inr (_, _, run) ↦ stage_all-err kind es (stage_as {D = D} kind e w s).1 d (rw run at h)
      ]
