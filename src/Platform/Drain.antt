-- ===== src/Platform/Drain.antt =====
-- shared/platform/outbox/relay.go: `drain`, `prune` and the loop of `Run`, whose channels are a list
-- of what they deliver.
use wakewake.Prelude.{
  ℕ, zero, suc, ◌+◌, String, ◌==◌, Bool, true, false, not, none, some, List, [], ◌∷◌, ltb, take,
  filterb, anyb, map,
}
use wakewake.Contracts.Events.{Time, Payload}
use wakewake.Contracts.Validity.{Codec}
use wakewake.Platform.Session.{
  OutboxRow, Db, pg, driver, Result, ok, err, Outcome, fine, refused, lost, unknown, World, Session,
  Action, resumed,
}
use wakewake.Platform.Relay.{RelaySettings, Broker, RelayState, on_session, publish_batch}

abbrev pub prune_limit : ℕ
prune_limit = 10_000

-- published_at IS NOT NULL AND published_at < now() - $1
abbrev pub is_prunable : ℕ → Time → OutboxRow → Bool
is_prunable after now r = elim r.published_at [ none ↦ false | some t ↦ ltb (t + after) now ]

-- DELETE ... WHERE id IN (SELECT id ... LIMIT 10000)
unfoldable pub delete_published : ℕ → Time → List OutboxRow → List OutboxRow
delete_published after now rows =
    let ids : List String =
      map (λ r. r.id) (take prune_limit (filterb (is_prunable after now) rows)) in
    filterb (λ r. not (anyb (λ k. r.id == k) ids)) rows

-- What one turn of `Run` takes from its channels.
pub data Signal : Type 0 where
  tick kicked prune_tick : Signal

module _ {D Own : Type 0} where
  -- A statement outside every transaction commits at once.
  abbrev pub settle_prune : Outcome → Db Own → Session Own → Result D (Unit {0}) × Session Own
  settle_prune fine db s = (ok tt, record s { db = db })
  settle_prune (refused e) db s = (err (pg e), s)
  settle_prune lost db s = (err driver, s)
  settle_prune unknown db s = (err driver, record s { db = db })

  unfoldable pub prune : RelaySettings → Action D Own (Unit {0})
  prune cfg w s =
      let s' = resumed w s in
      settle_prune (w.calls s.step).outcome
        (record s'.db { outbox = delete_published cfg.prune_after s'.now s'.db.outbox }) s'

module _ {Own Body : Type 0} (D : Type 0) (codec : Codec Payload Body) (cfg : RelaySettings)
    (b : Broker) where
  -- The value is false where the fuel runs out.
  unfoldable pub drain : ℕ → World Own → RelayState Own → Bool × RelayState Own
  drain zero w s = (false, s)
  drain (suc fuel) w s =
      let pass : Result D ℕ × RelayState Own = publish_batch codec cfg b w s in
      elim pass.0 [
        | err e ↦ (true, pass.1)
        | ok n ↦ elim (ltb n cfg.batch_size) [ true ↦ (true, pass.1) | false ↦ drain fuel w pass.1 ]
      ]

  -- One turn of `Run`, whose errors are logged; the fuel is for `drain`.
  unfoldable pub turn : ℕ → Signal → World Own → RelayState Own → RelayState Own
  turn fuel tick w s = (drain fuel w s).1
  turn fuel kicked w s = (drain fuel w s).1
  turn fuel prune_tick w s =
      let pruned : Result D (Unit {0}) × RelayState Own = on_session (prune cfg) w s in pruned.1

  unfoldable pub run_relay : ℕ → List Signal → World Own → RelayState Own → RelayState Own
  run_relay fuel [] w s = s
  run_relay fuel (g ∷ gs) w s = run_relay fuel gs w (turn fuel g w s)
