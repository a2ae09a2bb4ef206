-- ===== src/Platform/Spared.antt =====
-- shared/platform/outbox/relay.go, `prune`: which rows it may delete.
use wakewake.Prelude.{
  ℕ, zero, suc, ◌+◌, ◌<◌, ◌≡◌, refl, ap, inl, inr, arith, String, ◌==◌, Bool, true, false, not,
  ◌&&◌, some, List, [], ◌∷◌, ◌++◌, anyb, filterb, map, take, Bool-cases, Option-cases, eq_iff,
}
use wakewake.Contracts.Events.{Time}
use wakewake.Platform.Session.{OutboxRow, World, Session, resumed}
use wakewake.Platform.Rules.{Outcome-cases}
use wakewake.Platform.Relay.{RelaySettings}
use wakewake.Platform.Drain.{prune, delete_published, is_prunable, prune_limit}
use wakewake.Platform.Pruned.{has_row, has_row-kept}

-- A row of the list has the id, and was published more than `after` before now.
pub record IsPast (after now : ℕ) (rows : List OutboxRow) (id : String) : Type 0 where
  pub row : OutboxRow
  pub published : Time
  pub front : List OutboxRow
  pub back : List OutboxRow
  pub there : rows ≡ front ++ row ∷ back
  pub named : id ≡ row.id
  pub told : row.published_at ≡ some published
  pub old : published + after < now

taken_out : (a b c : Bool) → c ≡ (not a && b) → b ≡ true → c ≡ false → a ≡ true
taken_out a b c it there gone = ground arith

module _ (after now : ℕ) (id : String) where
  further :
      (r : OutboxRow) (rows : List OutboxRow)
      → IsPast after now rows id
      → IsPast after now (r ∷ rows) id
  further r rows h = record {
    row = h.row;
    published = h.published;
    front = r ∷ h.front;
    back = h.back;
    there = ap (λ rest. r ∷ rest) h.there;
    named = h.named;
    told = h.told;
    old = h.old;
  }

  abbrev named_in : List OutboxRow → Bool
  named_in rows = anyb (λ k. id == k) (map (λ (r : OutboxRow). r.id) rows)

  take_named :
      (n : ℕ) (rows : List OutboxRow) → named_in (take n rows) ≡ true → named_in rows ≡ true
  take_named zero rows h = absurd (ground arith)
  take_named (suc n) [] h = h
  take_named (suc n) (r ∷ rows) h = elim (Bool-cases (id == r.id)) [
    | inl same ↦ ground (arith, same)
    | inr other ↦ ground (arith, other, take_named n rows (ground (arith, h, other)))
  ]

  filterb-IsPast :
      (rows : List OutboxRow)
      → named_in (filterb (is_prunable after now) rows) ≡ true
      → IsPast after now rows id
  filterb-IsPast [] h = absurd (ground arith)
  filterb-IsPast (r ∷ rows) h = elim (Bool-cases (is_prunable after now r)) [
    | inr stays ↦ further r rows (filterb-IsPast rows (ground (arith, h, stays)))
    | inl goes ↦ elim (Bool-cases (id == r.id)) [
      | inr other ↦ further r rows (filterb-IsPast rows (ground (arith, h, goes, other)))
      | inl same ↦ elim (Option-cases r.published_at) [
        | inl never ↦ absurd (ground (arith, goes, never))
        | inr (t, told_) ↦ record {
          row = r;
          published = t;
          front = [];
          back = rows;
          there = refl;
          named = ground (arith, same, eq_iff id r.id);
          told = told_;
          old = ground (arith, goes, told_);
        }
      ]
    ]
  ]

  delete_published-IsPast :
      (rows : List OutboxRow)
      → has_row rows id ≡ true
      → has_row (delete_published after now rows) id ≡ false
      → IsPast after now rows id
  unfolding delete_published
  delete_published-IsPast rows before gone =
      let ids : List String =
        map (λ r. r.id) (take prune_limit (filterb (is_prunable after now) rows)) in
      let named_ : anyb (λ k. id == k) ids ≡ true =
        taken_out (anyb (λ k. id == k) ids) (has_row rows id)
          (has_row (delete_published after now rows) id)
          (has_row-kept (λ i. anyb (λ k. i == k) ids) id rows) before gone in
      filterb-IsPast rows (take_named prune_limit (filterb (is_prunable after now) rows) named_)

module _ (D : Type 0) {Own : Type 0} (cfg : RelaySettings) (w : World Own) (s : Session Own) where
  -- However the driver behaves, an id that a prune takes out of the outbox is that of a row which was
  -- published, more than `prune_after` before the prune: no event that waits is lost.
  pub prune_spares :
      (id : String)
      → has_row (resumed w s).db.outbox id ≡ true
      → has_row (prune {D = D} cfg w s).1.db.outbox id ≡ false
      → IsPast cfg.prune_after (resumed w s).now (resumed w s).db.outbox id
  unfolding prune
  prune_spares id before gone =
      let rows : List OutboxRow = (resumed w s).db.outbox in
      elim (Outcome-cases (w.calls s.step).outcome) [
        | inl c ↦
            delete_published-IsPast cfg.prune_after (resumed w s).now id rows before
              (ground (arith, c, gone))
        | inr (inl (x, c)) ↦ absurd (ground (arith, c, gone, before))
        | inr (inr (inl c)) ↦ absurd (ground (arith, c, gone, before))
        | inr (inr (inr c)) ↦
            delete_published-IsPast cfg.prune_after (resumed w s).now id rows before
              (ground (arith, c, gone))
      ]
