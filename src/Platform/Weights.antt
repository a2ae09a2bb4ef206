-- ===== src/Platform/Weights.antt =====
-- shared/platform/outbox/relay.go: how many tries the rows of the table have left.
use wakewake.Prelude.{
  ℕ, zero, suc, ◌+◌, ◌≤◌, ◌<◌, ◌≡◌, refl, inl, inr, arith, String, ◌==◌, Bool, true, ◌&&◌, ◌||◌,
  List, [], ◌∷◌, take, filterb, Rows, Bool-cases, leb, eqb, anyb, ap, eq_refl,
}
use wakewake.Prelude.Sorting.{insert_sorted, sort_rows}
use wakewake.Platform.Session.{OutboxRow, ok, World, Session}
use wakewake.Platform.Relay.{
  RelaySettings, Broker, is_pending, row_precedes, claim_rows, update_where, give_up, bump,
  publish_at, fail_row, record_attempt, mark_published,
}
use wakewake.Contracts.Events.{Payload, Envelope}
use wakewake.Platform.Relayed.{
  weight, weight-give_up, weight-publish_at, weight-bump, Evolves, Rows-update_where, exec_cases,
}

-- How many tries the table's rows have left, and one more for each pending row.
abbrev pub tries : RelaySettings → List OutboxRow → ℕ
tries cfg [] = 0
tries cfg (r ∷ rs) = weight cfg r + tries cfg rs

module _ {A : Type 0} where
  anyb-filterb : (q p : A → Bool) (xs : List A) → anyb q (filterb p xs) ≡ anyb (λ x. p x && q x) xs
  anyb-filterb q p [] = refl
  anyb-filterb q p (x ∷ xs) = ground (arith, anyb-filterb q p xs)

  anyb-insert_sorted :
      (q : A → Bool) (le : A → A → Bool) (x : A) (xs : List A)
      → anyb q (insert_sorted le x xs) ≡ (q x || anyb q xs)
  unfolding insert_sorted
  anyb-insert_sorted q le x [] = refl
  anyb-insert_sorted q le x (y ∷ ys) = ground (arith, anyb-insert_sorted q le x ys)

  anyb-sort_rows :
      (q : A → Bool) (le : A → A → Bool) (xs : List A) → anyb q (sort_rows le xs) ≡ anyb q xs
  unfolding sort_rows
  anyb-sort_rows q le [] = refl
  anyb-sort_rows q le (x ∷ xs) =
      ground (arith, anyb-insert_sorted q le x (sort_rows le xs), anyb-sort_rows q le xs)

  anyb-take-head :
      (q : A → Bool) (n : ℕ) (xs : List A) {x : A} {rest : List A}
      → take n xs ≡ x ∷ rest
      → q x ≡ true
      → anyb q xs ≡ true
  anyb-take-head q zero xs e h = absurd (ground arith)
  anyb-take-head q (suc n) [] e h = absurd (ground arith)
  anyb-take-head q (suc n) (y ∷ ys) e h = ground arith

-- A pending row that has the id and the tries of another.
abbrev pub is_like : OutboxRow → OutboxRow → Bool
is_like p r = is_pending r && (r.id == p.id && eqb r.attempts p.attempts)

-- The head of a batch is in the table, and pending.
pub claim_rows-head :
    (b : Broker) (n : ℕ) (rows : List OutboxRow) {p : OutboxRow} {ps : List OutboxRow}
    → claim_rows b n rows ≡ p ∷ ps
    → anyb (is_like p) rows ≡ true
unfolding claim_rows
claim_rows-head b n rows {p} {ps} e =
    let q : OutboxRow → Bool = λ r. r.id == p.id && eqb r.attempts p.attempts in
    let sorted : List OutboxRow = sort_rows (row_precedes b) (filterb is_pending rows) in
    let here : anyb q sorted ≡ true = anyb-take-head q n sorted e (ground (arith, eq_refl p.id)) in
    ground (
      arith,
      here,
      anyb-sort_rows q (row_precedes b) (filterb is_pending rows),
      anyb-filterb q is_pending rows,
    )

-- A row that is like the head of the batch has less left, and no row has more.
abbrev pub Lighter : RelaySettings → OutboxRow → OutboxRow → OutboxRow → Type 0
Lighter cfg p r r' =
    (weight cfg r' ≤ weight cfg r) × (is_like p r ≡ true → weight cfg r' < weight cfg r)

pub tries-Lighter :
    (cfg : RelaySettings) (p : OutboxRow) (xs ys : List OutboxRow)
    → Rows (Lighter cfg p) xs ys
    → (tries cfg ys ≤ tries cfg xs) × (anyb (is_like p) xs ≡ true → tries cfg ys < tries cfg xs)
tries-Lighter cfg p [] [] h = (omega arith, λ e. absurd (ground arith))
tries-Lighter cfg p [] (y ∷ ys) h = absurd h
tries-Lighter cfg p (x ∷ xs) [] h = absurd h
tries-Lighter cfg p (x ∷ xs) (y ∷ ys) (h, k) =
    let (le, lt) = tries-Lighter cfg p xs ys k in
    (
      omega (arith, h.0, le),
      λ e. elim (Bool-cases (is_like p x)) [
        | inl same ↦ omega (arith, h.1 same, le)
        | inr other ↦ omega (arith, h.0, lt (ground arith))
      ],
    )

pub tries-Evolves :
    (cfg : RelaySettings) (log : List (Envelope Payload)) (xs ys : List OutboxRow)
    → Rows (Evolves cfg log) xs ys
    → tries cfg ys ≤ tries cfg xs
tries-Evolves cfg log [] [] h = omega arith
tries-Evolves cfg log [] (y ∷ ys) h = absurd h
tries-Evolves cfg log (x ∷ xs) [] h = absurd h
tries-Evolves cfg log (x ∷ xs) (y ∷ ys) ((f, u, a), k) =
    omega (arith, u, tries-Evolves cfg log xs ys k)

is_like→pos : (cfg : RelaySettings) (p r : OutboxRow) → is_like p r ≡ true → 0 < weight cfg r
is_like→pos cfg p r h = ground arith

-- Marked rows weigh nothing.
abbrev pub Settled : RelaySettings → String → OutboxRow → OutboxRow → Type 0
Settled cfg id r r' = (weight cfg r' ≤ weight cfg r) × (r.id == id ≡ true → weight cfg r' ≡ 0)

module _ (D : Type 0) {Own : Type 0} (cfg : RelaySettings) (w : World Own) (s : Session Own) where
  pub fail_row-Lighter :
      (p : OutboxRow)
      → (fail_row {D = D} p.id w s).0 ≡ ok tt
      → Rows (Lighter cfg p) s.db.outbox (fail_row {D = D} p.id w s).1.db.outbox
  unfolding fail_row
  fail_row-Lighter p e =
      elim (exec_cases D (λ now rows. update_where (λ r. r.id == p.id) (give_up now) rows) w s) [
        | inl (x, r, _) ↦ absurd (ground (arith, e, r))
        | inr (_, done) ↦ rw done (
            Rows-update_where (Lighter cfg p) (λ r. r.id == p.id) (give_up s.now)
              (λ r other. (omega arith, λ like. absurd (ground arith)))
              (λ r same. (
                omega (arith, weight-give_up cfg s.now r),
                λ like. omega (arith, weight-give_up cfg s.now r, is_like→pos cfg p r like),
              ))
              s.db.outbox)
      ]

  pub record_attempt-Lighter :
      (p : OutboxRow)
      → (record_attempt {D = D} cfg p w s).0 ≡ ok tt
      → Rows (Lighter cfg p) s.db.outbox (record_attempt {D = D} cfg p w s).1.db.outbox
  unfolding record_attempt
  record_attempt-Lighter p e = elim (Bool-cases (leb cfg.max_attempts (suc p.attempts))) [
    | inl last ↦ rw last (fail_row-Lighter p (ground (arith, e, last)))
    | inr more ↦
        rw more (elim (exec_cases D (λ now rows. update_where (λ r. r.id == p.id) bump rows) w s) [
          | inl (x, r, _) ↦ absurd (ground (arith, e, r, more))
          | inr (_, done) ↦ rw done (
              Rows-update_where (Lighter cfg p) (λ r. r.id == p.id) bump
                (λ r other. (omega arith, λ like. absurd (ground arith)))
                (λ r same. (weight-bump cfg r, λ like. ground (arith, more))) s.db.outbox)
        ])
  ]

  pub mark_published-Settled :
      (id : String) (ids : List String)
      → (mark_published {D = D} (id ∷ ids) w s).0 ≡ ok tt
      → Rows (Settled cfg id) s.db.outbox (mark_published {D = D} (id ∷ ids) w s).1.db.outbox
  unfolding mark_published
  mark_published-Settled id ids e =
      elim (exec_cases D
        (λ now rows. update_where (λ r. anyb (λ k. r.id == k) (id ∷ ids)) (publish_at now) rows) w
        s) [
          | inl (x, r, _) ↦ absurd (ground (arith, e, r))
          | inr (_, done) ↦ rw done (
              Rows-update_where (Settled cfg id) (λ r. anyb (λ k. r.id == k) (id ∷ ids))
                (publish_at s.now) (λ r other. (omega arith, λ same. absurd (ground arith)))
                (λ r hit. (
                  omega (arith, weight-publish_at cfg s.now r),
                  λ same. weight-publish_at cfg s.now r,
                ))
                s.db.outbox)
        ]

pub Lighter-Evolves :
    (cfg : RelaySettings) (log : List (Envelope Payload)) (p x y z : OutboxRow)
    → Lighter cfg p x y
    → Evolves cfg log y z
    → Lighter cfg p x z
Lighter-Evolves cfg log p x y z (le, lt) (f, u, a) = (omega arith, λ like. omega (arith, lt like))

pub Evolves-Settled :
    (cfg : RelaySettings) (p x y z : OutboxRow)
    → Evolves cfg [] x y
    → Settled cfg p.id y z
    → Lighter cfg p x z
Evolves-Settled cfg p x y z (f, u, a) (le, gone) = (
  omega arith,
  λ like.
      let same : y.id ≡ x.id = ap (λ (r : OutboxRow). r.id) f in
      let hit : y.id == p.id ≡ true = rw same (ground arith) in
      omega (arith, gone hit, is_like→pos cfg p x like),
)
