-- ===== src/Platform/Relayed.antt =====
-- shared/platform/outbox/relay.go, `publishBatch`: what a pass makes of the outbox's rows.
use Prim.Native.Nat.{◌≤◌}
use wakewake.Prelude.{
  ℕ, suc, ◌-◌, ◌≡◌, ◌||◌, refl, ◌⊎◌, inl, inr, arith, String, ◌==◌, Bool, true, false, ◌∙◌, ap,
  none, List, [], ◌∷◌, ◌++◌, if◌then◌else◌, leb, anyb, All, Rows, Rows-refl, Rows-map, Bool-cases,
  eq_iff,
}
use wakewake.Contracts.Events.{Time, Payload, Envelope}
use wakewake.Platform.Session.{OutboxRow, Error, ok, err, World, Session, sql}
use wakewake.Platform.Rules.{Result-cases}
use wakewake.Platform.Relay.{
  RelaySettings, is_none, is_pending, update_where, exec, fail_row, record_attempt, give_up, bump,
  publish_at, mark_published,
}

-- The fact that a row states, without what the relay keeps of it.
abbrev pub fact : OutboxRow → OutboxRow
fact r = record r { published_at = none; attempts = 0; failed_at = none }

-- How often a row may still be tried, and one more.
abbrev pub weight : RelaySettings → OutboxRow → ℕ
weight cfg r = if is_pending r then suc (cfg.max_attempts - r.attempts) else 0

abbrev pub has_message : String → List (Envelope Payload) → Bool
has_message id = anyb (λ e. e.id == id)

abbrev pub Evolves : RelaySettings → List (Envelope Payload) → OutboxRow → OutboxRow → Type 0
Evolves cfg log r r' =
    (fact r' ≡ fact r)
    × (weight cfg r' ≤ weight cfg r)
    × ((r'.published_at ≡ r.published_at) ⊎ (has_message r.id log ≡ true))

pub has_message-append :
    (id : String) (xs ys : List (Envelope Payload))
    → has_message id (xs ++ ys) ≡ (has_message id xs || has_message id ys)
has_message-append id [] ys = refl
has_message-append id (x ∷ xs) ys = ground (arith, has_message-append id xs ys)

pub Rows-update_where :
    (R : OutboxRow → OutboxRow → Type 0) (test : OutboxRow → Bool) (f : OutboxRow → OutboxRow)
    → ((r : OutboxRow) → test r ≡ false → R r r)
    → ((r : OutboxRow) → test r ≡ true → R r (f r))
    → (rs : List OutboxRow) → Rows R rs (update_where test f rs)
unfolding update_where
Rows-update_where R test f here there [] = tt
Rows-update_where R test f here there (r ∷ rs) = elim (Bool-cases (test r)) [
  | inl hit ↦ rw hit (there r hit, Rows-update_where R test f here there rs)
  | inr miss ↦ rw miss (here r miss, Rows-update_where R test f here there rs)
]

pub Evolves-trans :
    (cfg : RelaySettings) (log : List (Envelope Payload)) (x y z : OutboxRow)
    → Evolves cfg log x y
    → Evolves cfg log y z
    → Evolves cfg log x z
Evolves-trans cfg log x y z (f, u, a) (g, v, inr got) =
    (g ∙ f, omega arith, inr (let e : y.id ≡ x.id = ap (λ (r : OutboxRow). r.id) f in rw (← e) got))
Evolves-trans cfg log x y z (f, u, inr got) (g, v, inl same) = (g ∙ f, omega arith, inr got)
Evolves-trans cfg log x y z (f, u, inl before) (g, v, inl same) =
    (g ∙ f, omega arith, inl (same ∙ before))

pub Evolves-refl :
    (cfg : RelaySettings) (log : List (Envelope Payload)) (x : OutboxRow) → Evolves cfg log x x
Evolves-refl cfg log x = (refl, omega arith, inl refl)

-- An id among ids that all have a message has one.
told :
    (log : List (Envelope Payload)) (id : String) (ids : List String)
    → All (λ k. has_message k log ≡ true) ids
    → anyb (λ k. id == k) ids ≡ true
    → has_message id log ≡ true
told log id [] h e = absurd (ground arith)
told log id (k ∷ ks) h e = elim (Bool-cases (id == k)) [
  | inl same ↦ let it : id ≡ k = ground (arith, eq_iff id k) in rw it h.0
  | inr other ↦ told log id ks h.1 (ground arith)
]

pub Evolves-more :
    (cfg : RelaySettings) (log more : List (Envelope Payload)) (x y : OutboxRow)
    → Evolves cfg log x y
    → Evolves cfg (log ++ more) x y
Evolves-more cfg log more x y (f, u, inl same) = (f, u, inl same)
Evolves-more cfg log more x y (f, u, inr got) =
    (f, u, inr (ground (arith, has_message-append x.id log more)))

pub Rows-Evolves-more :
    (cfg : RelaySettings) (log more : List (Envelope Payload)) (xs ys : List OutboxRow)
    → Rows (Evolves cfg log) xs ys
    → Rows (Evolves cfg (log ++ more)) xs ys
Rows-Evolves-more cfg log more xs ys = Rows-map (Evolves-more cfg log more) xs ys

-- A row that was given up, or published, is pending no more.
pub weight-give_up :
    (cfg : RelaySettings) (now : Time) (r : OutboxRow) → weight cfg (give_up now r) ≡ 0
weight-give_up cfg now r = elim (Bool-cases (is_none r.published_at)) [
  | inl e ↦ rw e refl
  | inr e ↦ rw e refl
]

pub weight-publish_at :
    (cfg : RelaySettings) (now : Time) (r : OutboxRow) → weight cfg (publish_at now r) ≡ 0
weight-publish_at cfg now r = refl

pub weight-bump : (cfg : RelaySettings) (r : OutboxRow) → weight cfg (bump r) ≤ weight cfg r
weight-bump cfg r = elim (Bool-cases (is_pending r)) [
  | inl e ↦ rw e (omega arith)
  | inr e ↦ rw e (omega arith)
]

module _ (D : Type 0) {Own : Type 0} where
  pub exec_cases :
      (f : Time → List OutboxRow → List OutboxRow) (w : World Own) (s : Session Own)
      → ((x : Error D) × ((exec {D = D} f w s).0 ≡ err x) × ((exec {D = D} f w s).1.db ≡ s.db))
        ⊎ (((exec {D = D} f w s).0 ≡ ok tt)
            × ((exec {D = D} f w s).1.db ≡ record s.db { outbox = f s.now s.db.outbox }))
  unfolding sql
  exec_cases f w s = elim (Result-cases (exec {D = D} f w s).0) [
    | inl (tt, e) ↦ inr (e, ground arith)
    | inr (x, e) ↦ inl (x, e, ground arith)
  ]

  exec-Evolves :
      (cfg : RelaySettings) (log : List (Envelope Payload)) (test : OutboxRow → Bool)
      (f : Time → OutboxRow → OutboxRow)
      → ((now : Time) (r : OutboxRow) → test r ≡ true → Evolves cfg log r (f now r))
      → (w : World Own) (s : Session Own)
      → Rows
          (Evolves cfg log)
          s.db.outbox
          (exec {D = D} (λ now rows. update_where test (f now) rows) w s).1.db.outbox
  exec-Evolves cfg log test f step w s =
      elim (exec_cases (λ now rows. update_where test (f now) rows) w s) [
        | inl (x, e, same) ↦
            rw same (Rows-refl (Evolves cfg log) (Evolves-refl cfg log) s.db.outbox)
        | inr (e, done) ↦ rw done (
            Rows-update_where (Evolves cfg log) test (f s.now) (λ r _. Evolves-refl cfg log r)
              (step s.now) s.db.outbox)
      ]

  pub fail_row-Evolves :
      (cfg : RelaySettings) (id : String) (w : World Own) (s : Session Own)
      → Rows (Evolves cfg []) s.db.outbox (fail_row {D = D} id w s).1.db.outbox
  unfolding fail_row
  fail_row-Evolves cfg id w s =
      exec-Evolves cfg [] (λ r. r.id == id) give_up
        (λ now r h. (refl, omega (arith, weight-give_up cfg now r), inl refl)) w s

  pub record_attempt-Evolves :
      (cfg : RelaySettings) (p : OutboxRow) (w : World Own) (s : Session Own)
      → Rows (Evolves cfg []) s.db.outbox (record_attempt {D = D} cfg p w s).1.db.outbox
  unfolding record_attempt
  record_attempt-Evolves cfg p w s = elim (Bool-cases (leb cfg.max_attempts (suc p.attempts))) [
    | inl last ↦ rw last (fail_row-Evolves cfg p.id w s)
    | inr more ↦ rw more (
        exec-Evolves cfg [] (λ r. r.id == p.id) (λ _. bump)
          (λ now r h. (refl, weight-bump cfg r, inl refl)) w s)
  ]

  pub mark_published-Evolves :
      (cfg : RelaySettings) (log : List (Envelope Payload)) (ids : List String)
      → All (λ id. has_message id log ≡ true) ids
      → (w : World Own) (s : Session Own)
      → Rows (Evolves cfg log) s.db.outbox (mark_published {D = D} ids w s).1.db.outbox
  unfolding mark_published
  mark_published-Evolves cfg log [] h w s =
      Rows-refl (Evolves cfg log) (Evolves-refl cfg log) s.db.outbox
  mark_published-Evolves cfg log (id ∷ ids) h w s =
      exec-Evolves cfg log (λ r. anyb (λ k. r.id == k) (id ∷ ids)) publish_at
        (λ now r hit.
          (refl, omega (arith, weight-publish_at cfg now r), inr (told log r.id (id ∷ ids) h hit)))
        w s
