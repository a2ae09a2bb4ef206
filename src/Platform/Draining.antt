-- ===== src/Platform/Draining.antt =====
-- shared/platform/outbox/relay.go, `drain`: it ends, and what it leaves.
use wakewake.Prelude.{
  ℕ, zero, suc, ◌≤◌, ◌<◌, ◌≡◌, refl, inl, inr, arith, Bool, true, false, List, [], ◌∷◌, length,
  countb, take, filterb, ltb, ltb→lt, Rows, Rows-refl, Rows-map, Rows-compose, Bool-cases, ap, ◌∙◌,
  subst,
}
use wakewake.Contracts.Events.{Payload, Envelope}
use wakewake.Contracts.Validity.{Codec}
use wakewake.Platform.Session.{OutboxRow, Db, ok, World, resumed}
use wakewake.Platform.Rules.{Result-cases}
use wakewake.Platform.Relay.{
  RelaySettings, Broker, RelayState, is_pending, row_precedes, claim_rows, dropped,
}
use wakewake.Platform.Drain.{drain}
use wakewake.Platform.Batches.{passed, batch}
use wakewake.Platform.Healthy.{Fine, pass-ok, pass-outage}
use wakewake.Platform.Weights.{tries}
use wakewake.Platform.Relayed.{Evolves, fact}
use wakewake.Prelude.Sorting.{insert_sorted, sort_rows}
use wakewake.Platform.Passing.{pass_lightens, pass-Evolves}

module _ (D : Type 0) {Own Body : Type 0} (codec : Codec Payload Body) (cfg : RelaySettings)
    (b : Broker) (w : World Own) where
  drain-again :
      (fuel : ℕ) (s : RelayState Own) {n : ℕ}
      → (passed D codec cfg b w s).0 ≡ ok n
      → ltb n cfg.batch_size ≡ false
      → drain D codec cfg b (suc fuel) w s ≡ drain D codec cfg b fuel w (passed D codec cfg b w s).1
  unfolding drain
  drain-again fuel s e more = ground (arith, e, more)

  drain-end :
      (fuel : ℕ) (s : RelayState Own) {n : ℕ}
      → (passed D codec cfg b w s).0 ≡ ok n
      → ltb n cfg.batch_size ≡ true
      → drain D codec cfg b (suc fuel) w s ≡ (true, (passed D codec cfg b w s).1)
  unfolding drain
  drain-end fuel s e less = ground (arith, e, less)

  positive : (n : ℕ) → ltb n cfg.batch_size ≡ false → 0 < cfg.batch_size → (m : ℕ) × (n ≡ suc m)
  positive zero more some = absurd (ground arith)
  positive (suc m) more some = (m, refl)

  -- While other connections add nothing to try, `drain` ends once every try is spent: the number of
  -- tries left, and one, is fuel enough.
  pub drain_ends :
      0 < cfg.batch_size
      → ((n : ℕ) (db : Db Own) → tries cfg ((w.calls n).others db).outbox ≤ tries cfg db.outbox)
      → (fuel : ℕ) (s : RelayState Own) → tries cfg s.session.db.outbox < fuel
      → (drain D codec cfg b fuel w s).0 ≡ true
  unfolding drain
  drain_ends pos calm zero s h = absurd (omega arith)
  drain_ends pos calm (suc fuel) s h = elim (Result-cases (passed D codec cfg b w s).0) [
    | inr (x, e) ↦ ground (arith, e)
    | inl (n, e) ↦ elim (Bool-cases (ltb n cfg.batch_size)) [
      | inl less ↦ rw (drain-end fuel s e less) refl
      | inr more ↦ rw (drain-again fuel s e more) (
          drain_ends pos calm fuel (passed D codec cfg b w s).1 (
            let (m, it) = positive n more pos in
            omega (
              arith,
              pass_lightens D codec cfg b w s m (rw (← it) e),
              calm s.session.step s.session.db,
            )))
    ]
  ]

module _ {A : Type 0} where
  length-take : (n : ℕ) (xs : List A) → length (take n xs) < n → length xs < n
  length-take zero xs h = absurd (omega arith)
  length-take (suc n) [] h = omega arith
  length-take (suc n) (x ∷ xs) h = omega (arith, length-take n xs)

  length-insert_sorted :
      (le : A → A → Bool) (x : A) (xs : List A) → length (insert_sorted le x xs) ≡ suc (length xs)
  unfolding insert_sorted
  length-insert_sorted le x [] = refl
  length-insert_sorted le x (y ∷ ys) = ground (arith, length-insert_sorted le x ys)

  length-sort_rows : (le : A → A → Bool) (xs : List A) → length (sort_rows le xs) ≡ length xs
  unfolding sort_rows
  length-sort_rows le [] = refl
  length-sort_rows le (x ∷ xs) =
      omega (arith, length-insert_sorted le x (sort_rows le xs), length-sort_rows le xs)

  length-filterb : (p : A → Bool) (xs : List A) → length (filterb p xs) ≡ countb p xs
  length-filterb p [] = refl
  length-filterb p (x ∷ xs) = ground (arith, length-filterb p xs)

-- A batch that is not full holds every pending row.
claim_rows-short :
    (b : Broker) (n : ℕ) (rows : List OutboxRow)
    → length (claim_rows b n rows) < n
    → countb is_pending rows < n
unfolding claim_rows
claim_rows-short b n rows h =
    let pending : List OutboxRow = filterb is_pending rows in
    omega (
      arith,
      length-take n (sort_rows (row_precedes b) pending) h,
      length-sort_rows (row_precedes b) pending,
      length-filterb is_pending rows,
    )

countb-Evolves :
    (cfg : RelaySettings) (log : List (Envelope Payload)) (xs ys : List OutboxRow)
    → Rows (Evolves cfg log) xs ys
    → countb is_pending ys ≤ countb is_pending xs
countb-Evolves cfg log [] [] h = omega arith
countb-Evolves cfg log [] (y ∷ ys) h = absurd h
countb-Evolves cfg log (x ∷ xs) [] h = absurd h
countb-Evolves cfg log (x ∷ xs) (y ∷ ys) ((f, u, a), k) =
    ground (arith, u, countb-Evolves cfg log xs ys k)

-- A row keeps its fact and is not published.
abbrev pub Unsent : OutboxRow → OutboxRow → Type 0
Unsent r r' = (fact r' ≡ fact r) × (r'.published_at ≡ r.published_at)

Evolves-Unsent : (cfg : RelaySettings) (x y : OutboxRow) → Evolves cfg [] x y → Unsent x y
Evolves-Unsent cfg x y (f, u, inl same) = (f, same)
Evolves-Unsent cfg x y (f, u, inr got) = absurd (ground (arith, got))

Unsent-trans : (x y z : OutboxRow) → Unsent x y → Unsent y z → Unsent x z
Unsent-trans x y z (f, a) (g, c) = (g ∙ f, c ∙ a)

-- No other connection touches the outbox.
abbrev pub Alone : {Own : Type 0} → World Own → Type 0
Alone {Own} w = (n : ℕ) (db : Db Own) → ((w.calls n).others db).outbox ≡ db.outbox

module _ (D : Type 0) {Own Body : Type 0} (codec : Codec Payload Body) (cfg : RelaySettings)
    (b : Broker) (w : World Own) (well : Fine w) (alone : Alone w) where
  last_pass :
      (s : RelayState Own)
      → ltb (length (batch D codec cfg b w s)) cfg.batch_size ≡ true
      → countb is_pending (passed D codec cfg b w s).1.session.db.outbox < cfg.batch_size
  last_pass s less = omega (
    arith,
    claim_rows-short b cfg.batch_size (resumed w s.session).db.outbox (ltb→lt _ _ less),
    countb-Evolves cfg (passed D codec cfg b w s).1.delivered (resumed w s.session).db.outbox
        (passed D codec cfg b w s).1.session.db.outbox (pass-Evolves D codec cfg b w s),
  )

  -- With fuel for every try, while the driver works and nobody else touches the outbox, `drain` ends
  -- with fewer pending rows than a batch has.
  pub drain_clears :
      0 < cfg.batch_size
      → (fuel : ℕ) (s : RelayState Own) → tries cfg s.session.db.outbox < fuel
      → ((drain D codec cfg b fuel w s).0 ≡ true)
        × (countb is_pending (drain D codec cfg b fuel w s).1.session.db.outbox < cfg.batch_size)
  drain_clears pos zero s h = absurd (omega arith)
  drain_clears pos (suc fuel) s h =
      elim (Bool-cases (ltb (length (batch D codec cfg b w s)) cfg.batch_size)) [
        | inl less ↦
            rw (drain-end D codec cfg b w fuel s (pass-ok D w well codec cfg b s) less)
              (refl, last_pass s less)
        | inr more ↦
            let (m, it) = positive D codec cfg b w (length (batch D codec cfg b w s)) more pos in
            rw (drain-again D codec cfg b w fuel s (pass-ok D w well codec cfg b s) more) (
              drain_clears pos fuel (passed D codec cfg b w s).1 (
                omega (
                  arith,
                  pass_lightens D codec cfg b w s m (rw (← it) (pass-ok D w well codec cfg b s)),
                  ap (tries cfg) (alone s.session.step s.session.db),
                )))
      ]

  outage_keeps :
      ((n : ℕ) → b.answers n ≡ dropped)
      → (fuel : ℕ) (s : RelayState Own)
      → ((drain D codec cfg b fuel w s).1.delivered ≡ s.delivered)
        × Rows Unsent s.session.db.outbox (drain D codec cfg b fuel w s).1.session.db.outbox
  unfolding drain
  outage_keeps down zero s = (refl, Rows-refl Unsent (λ r. (refl, refl)) s.session.db.outbox)
  outage_keeps down (suc fuel) s =
      let (told, kept) = pass-outage D w well codec cfg b down s in
      let one : Rows Unsent s.session.db.outbox (passed D codec cfg b w s).1.session.db.outbox =
        subst
          (λ (rows : List OutboxRow).
            Rows Unsent rows (passed D codec cfg b w s).1.session.db.outbox)
          (alone s.session.step s.session.db)
          (Rows-map (Evolves-Unsent cfg) (resumed w s.session).db.outbox
            (passed D codec cfg b w s).1.session.db.outbox kept) in
      elim (Bool-cases (ltb (length (batch D codec cfg b w s)) cfg.batch_size)) [
        | inl less ↦
            rw (drain-end D codec cfg b w fuel s (pass-ok D w well codec cfg b s) less) (told, one)
        | inr more ↦
            let (told', rest) = outage_keeps down fuel (passed D codec cfg b w s).1 in
            rw (drain-again D codec cfg b w fuel s (pass-ok D w well codec cfg b s) more) (
              told' ∙ told,
              Rows-compose Unsent-trans s.session.db.outbox
                  (passed D codec cfg b w s).1.session.db.outbox _ one rest,
            )
      ]

  -- While the broker takes no message, one call of `drain` spends every try of all rows but fewer than
  -- a batch: nothing is handed to the broker, no row is published, and fewer rows than a batch has
  -- are pending at the end.
  pub outage_spends_tries :
      0 < cfg.batch_size
      → ((n : ℕ) → b.answers n ≡ dropped)
      → (fuel : ℕ) (s : RelayState Own) → tries cfg s.session.db.outbox < fuel
      → ((drain D codec cfg b fuel w s).1.delivered ≡ s.delivered)
        × Rows Unsent s.session.db.outbox (drain D codec cfg b fuel w s).1.session.db.outbox
        × (countb is_pending (drain D codec cfg b fuel w s).1.session.db.outbox < cfg.batch_size)
  outage_spends_tries pos down fuel s h =
      let (told, kept) = outage_keeps down fuel s in
      let (_, few) = drain_clears pos fuel s h in (told, kept, few)
