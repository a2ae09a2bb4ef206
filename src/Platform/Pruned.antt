-- ===== src/Platform/Pruned.antt =====
-- shared/platform/outbox/relay.go, `prune`: the rows that a statement has deleted, by their ids, and
-- how many of a kind there are.
use wakewake.Prelude.{
  ℕ, ◌+◌, ◌≡◌, refl, inl, inr, arith, String, ◌==◌, Bool, true, not, ◌&&◌, List, [], ◌∷◌, anyb,
  countb, filterb, map, take, All, Bool-cases, eq_iff, eq_refl,
}
use wakewake.Platform.Session.{OutboxRow, World, Session, resumed}
use wakewake.Platform.Rules.{Outcome-cases}
use wakewake.Platform.Relay.{RelaySettings}
use wakewake.Platform.Drain.{prune, delete_published, is_prunable, prune_limit}

abbrev pub has_row : List OutboxRow → String → Bool
has_row rows id = anyb (λ (q : OutboxRow). id == q.id) rows

-- The rows whose id is there no more.
abbrev pub removed : List OutboxRow → List OutboxRow → List OutboxRow
removed before after = filterb (λ r. not (has_row after r.id)) before

module _ (p : String → Bool) where
  abbrev kept : List OutboxRow → List OutboxRow
  kept rows = filterb (λ r. not (p r.id)) rows

  pub has_row-kept :
      (id : String) (rows : List OutboxRow)
      → has_row (kept rows) id ≡ (not (p id) && has_row rows id)
  has_row-kept id [] = ground arith
  has_row-kept id (r ∷ rows) = elim (Bool-cases (id == r.id)) [
    | inl same ↦
        let it : id ≡ r.id = ground (arith, same, eq_iff id r.id) in
        rw it (ground (arith, has_row-kept r.id rows, eq_refl r.id))
    | inr other ↦ ground (arith, has_row-kept id rows, other)
  ]

  countb-removed :
      (f : OutboxRow → Bool) (all rows : List OutboxRow)
      → All (λ r. has_row all r.id ≡ true) rows
      → countb f (kept rows) + countb f (filterb (λ r. not (has_row (kept all) r.id)) rows)
        ≡ countb f rows
  countb-removed f all [] h = refl
  countb-removed f all (r ∷ rows) h =
      ground (arith, has_row-kept r.id all, h.0, countb-removed f all rows h.1)

weaken :
    (r : OutboxRow) (all rows : List OutboxRow)
    → All (λ q. has_row all q.id ≡ true) rows
    → All (λ q. has_row (r ∷ all) q.id ≡ true) rows
weaken r all [] h = tt
weaken r all (q ∷ rows) h = (ground (arith, h.0), weaken r all rows h.1)

has_row_self : (rows : List OutboxRow) → All (λ r. has_row rows r.id ≡ true) rows
has_row_self [] = tt
has_row_self (r ∷ rows) = (ground (arith, eq_refl r.id), weaken r rows rows (has_row_self rows))

countb-removed_none :
    (f : OutboxRow → Bool) (all rows : List OutboxRow)
    → All (λ r. has_row all r.id ≡ true) rows
    → countb f (removed rows all) ≡ 0
countb-removed_none f all [] h = refl
countb-removed_none f all (r ∷ rows) h = ground (arith, h.0, countb-removed_none f all rows h.1)

delete_published-removed :
    (f : OutboxRow → Bool) (after now : ℕ) (rows : List OutboxRow)
    → countb f (delete_published after now rows)
        + countb f (removed rows (delete_published after now rows))
      ≡ countb f rows
unfolding delete_published
delete_published-removed f after now rows =
    let ids : List String =
      map (λ r. r.id) (take prune_limit (filterb (is_prunable after now) rows)) in
    countb-removed (λ id. anyb (λ k. id == k) ids) f rows rows (has_row_self rows)

module _ (D : Type 0) {Own : Type 0} (cfg : RelaySettings) (w : World Own) (s : Session Own) where
  -- A prune touches the outbox alone, and the rows that are left and those that are gone are the rows
  -- that there were.
  pub prune-removed :
      (f : OutboxRow → Bool)
      → ((prune {D = D} cfg w s).1.db
          ≡ record (resumed w s).db { outbox = (prune {D = D} cfg w s).1.db.outbox })
        × (countb f (prune {D = D} cfg w s).1.db.outbox
              + countb f (removed (resumed w s).db.outbox (prune {D = D} cfg w s).1.db.outbox)
            ≡ countb f (resumed w s).db.outbox)
  unfolding prune
  prune-removed f =
      let before : List OutboxRow = (resumed w s).db.outbox in
      let less : List OutboxRow = delete_published cfg.prune_after (resumed w s).now before in
      let here : countb f before + countb f (removed before before) ≡ countb f before =
        ground (arith, countb-removed_none f before before (has_row_self before)) in
      let there = delete_published-removed f cfg.prune_after (resumed w s).now before in
      elim (Outcome-cases (w.calls s.step).outcome) [
        | inl c ↦ rw c (refl, there)
        | inr (inl (x, c)) ↦ rw c (refl, here)
        | inr (inr (inl c)) ↦ rw c (refl, here)
        | inr (inr (inr c)) ↦ rw c (refl, there)
      ]
