-- ===== src/Platform/Passes.antt =====
-- shared/platform/outbox/relay.go, `publishBatch`: its loop over a batch, and the transaction.
use wakewake.Prelude.{
  ℕ, suc, ◌≡◌, refl, ◌∙◌, ◌⊎◌, inl, inr, arith, String, true, false, sym, List, [], ◌∷◌, ◌++◌, map,
  take, filterb, All, Rows, Rows-refl, Rows-compose, Bool-cases, eq_refl,
}
use mathlib.Core.List.{append-nil, append_assoc}
use wakewake.Contracts.Events.{Payload, Envelope}
use wakewake.Contracts.Validity.{Codec}
use wakewake.Platform.Session.{OutboxRow, Error, Result, ok, err, World}
use wakewake.Platform.Rules.{Result-cases}
use wakewake.Platform.Relay.{
  RelaySettings, Confirm, confirmed, dropped, unanswered, Broker, RelayState, envelope_of, fail_row,
  record_attempt, on_session, publish, is_publishable, publish_rows, and_also, and_then,
}
use wakewake.Platform.Relayed.{
  Evolves, Evolves-refl, Evolves-trans, has_message, has_message-append, fail_row-Evolves,
  record_attempt-Evolves,
}

pub Confirm-cases : (c : Confirm) → (c ≡ confirmed) ⊎ (c ≡ dropped) ⊎ (c ≡ unanswered)
Confirm-cases confirmed = inl refl
Confirm-cases dropped = inr (inl refl)
Confirm-cases unanswered = inr (inr refl)

module _ {D Own : Type 0} where
  abbrev pub stopped :
      Result D (Unit {0}) × RelayState Own → Result D (List String) × RelayState Own
  stopped out = and_then out (λ s. (ok [], s))

  pub and_also-state :
      (id : String) (out : Result D (List String) × RelayState Own) → (and_also id out).1 ≡ out.1
  and_also-state id (ok ids, s) = refl
  and_also-state id (err e, s) = refl

  pub and_also-ok :
      (id : String) (out : Result D (List String) × RelayState Own) {ids : List String}
      → (and_also id out).0 ≡ ok ids
      → (rest : List String) × (out.0 ≡ ok rest) × (ids ≡ id ∷ rest)
  and_also-ok id (ok rest, s) h = (rest, refl, ground arith)
  and_also-ok id (err e, s) h = absurd (ground arith)

  pub stopped-state : (out : Result D (Unit {0}) × RelayState Own) → (stopped out).1 ≡ out.1
  stopped-state (ok _, s) = refl
  stopped-state (err e, s) = refl

  pub stopped-ok :
      (out : Result D (Unit {0}) × RelayState Own) {ids : List String}
      → (stopped out).0 ≡ ok ids
      → (ids ≡ []) × (out.0 ≡ ok tt)
  stopped-ok (ok _, s) h = (ground arith, refl)
  stopped-ok (err e, s) h = absurd (ground arith)

module _ (D : Type 0) {Own Body : Type 0} (codec : Codec Payload Body) (cfg : RelaySettings)
    (b : Broker) (w : World Own) where
  -- One round of the loop, by what becomes of its row.
  abbrev pub next : RelayState Own → RelayState Own
  next s = record s { session = record s.session { step = suc s.session.step } }

  abbrev pub told_of : OutboxRow → RelayState Own → RelayState Own
  told_of p s = record s { delivered = s.delivered ++ envelope_of p ∷ [] }

  abbrev pub having_failed : OutboxRow → RelayState Own → RelayState Own
  having_failed p s = record s { session = (fail_row {D = D} p.id w s.session).1 }

  abbrev pub having_tried : OutboxRow → RelayState Own → RelayState Own
  having_tried p s = record s { session = (record_attempt {D = D} cfg p w s.session).1 }

  abbrev pub loop : List OutboxRow → RelayState Own → Result D (List String) × RelayState Own
  loop ps s = publish_rows {D = D} codec cfg b ps w s

  pub data Round (p : OutboxRow) (ps : List OutboxRow) (s : RelayState Own) : Type 0 where
    skipped :
        is_publishable codec p ≡ false
        → (fail_row {D = D} p.id w s.session).0 ≡ ok tt
        → loop (p ∷ ps) s ≡ loop ps (having_failed p s)
        → Round p ps s
    broken :
        is_publishable codec p ≡ false
        → (x : Error D) → (fail_row {D = D} p.id w s.session).0 ≡ err x
        → loop (p ∷ ps) s ≡ (err x, having_failed p s)
        → Round p ps s
    sent :
        is_publishable codec p ≡ true
        → b.answers s.session.step ≡ confirmed
        → loop (p ∷ ps) s ≡ and_also p.id (loop ps (told_of p (next s)))
        → Round p ps s
    refused :
        is_publishable codec p ≡ true
        → b.answers s.session.step ≡ dropped
        → loop (p ∷ ps) s ≡ stopped (on_session (record_attempt cfg p) w (next s))
        → Round p ps s
    unheard :
        is_publishable codec p ≡ true
        → b.answers s.session.step ≡ unanswered
        → loop (p ∷ ps) s ≡ stopped (on_session (record_attempt cfg p) w (told_of p (next s)))
        → Round p ps s

  pub round : (p : OutboxRow) (ps : List OutboxRow) (s : RelayState Own) → Round p ps s
  unfolding publish_rows publish
  round p ps s = elim (Bool-cases (is_publishable codec p)) [
    | inl good ↦ elim (Confirm-cases (b.answers s.session.step)) [
      | inl c ↦ sent good c (ground arith)
      | inr (inl c) ↦ refused good c (ground arith)
      | inr (inr c) ↦ unheard good c (ground arith)
    ]
    | inr bad ↦ elim (Result-cases (fail_row {D = D} p.id w s.session).0) [
      | inl (_, e) ↦ skipped bad (ground arith) (ground arith)
      | inr (x, e) ↦ broken bad x e (ground arith)
    ]
  ]

  abbrev pub rows_of : RelayState Own → List OutboxRow
  rows_of s = s.session.db.outbox

  -- The loop publishes nothing in the table, and weighs no row down.
  pub loop-Evolves :
      (ps : List OutboxRow) (s : RelayState Own)
      → Rows (Evolves cfg []) (rows_of s) (rows_of (loop ps s).1)
  unfolding publish_rows
  loop-Evolves [] s = Rows-refl (Evolves cfg []) (Evolves-refl cfg []) (rows_of s)
  loop-Evolves (p ∷ ps) s = elim (round p ps s) [
    | skipped _ _ e ↦ rw e (
        Rows-compose (Evolves-trans cfg []) (rows_of s) (rows_of (having_failed p s))
          (rows_of (loop ps (having_failed p s)).1) (fail_row-Evolves D cfg p.id w s.session)
          (loop-Evolves ps (having_failed p s)))
    | broken _ x _ e ↦ rw e (fail_row-Evolves D cfg p.id w s.session)
    | sent _ _ e ↦
        rw (e, and_also-state p.id (loop ps (told_of p (next s))))
          (loop-Evolves ps (told_of p (next s)))
    | refused _ _ e ↦
        rw (e, stopped-state (on_session (record_attempt {D = D} cfg p) w (next s)))
          (record_attempt-Evolves D cfg p w (next s).session)
    | unheard _ _ e ↦
        rw (e, stopped-state (on_session (record_attempt {D = D} cfg p) w (told_of p (next s))))
          (record_attempt-Evolves D cfg p w (next s).session)
  ]

  -- What the broker is handed: the valid messages of the batch's first rows, in its order.
  pub loop-delivers :
      (ps : List OutboxRow) (s : RelayState Own)
      → (k : ℕ) × ((loop ps s).1.delivered
          ≡ s.delivered ++ map envelope_of (filterb (is_publishable codec) (take k ps)))
  unfolding publish_rows
  loop-delivers [] s = (0, sym (append-nil s.delivered))
  loop-delivers (p ∷ ps) s = elim (round p ps s) [
    | skipped bad _ e ↦
        let (k, same) = loop-delivers ps (having_failed p s) in (suc k, rw (e, bad) same)
    | broken bad x _ e ↦ (0, rw e (sym (append-nil s.delivered)))
    | sent good _ e ↦
        let (k, same) = loop-delivers ps (told_of p (next s)) in
        (
          suc k,
          rw (e, good, and_also-state p.id (loop ps (told_of p (next s))))
              (same
                ∙ append_assoc s.delivered (envelope_of p ∷ [])
                    (map envelope_of (filterb (is_publishable codec) (take k ps)))),
        )
    | refused good _ e ↦ (
      0,
      rw (e, stopped-state (on_session (record_attempt {D = D} cfg p) w (next s)))
          (sym (append-nil s.delivered)),
    )
    | unheard good _ e ↦ (
      1,
      rw (e, good, stopped-state (on_session (record_attempt {D = D} cfg p) w (told_of p (next s))))
          refl,
    )
  ]

  sent-has_message :
      (p : OutboxRow) (ps : List OutboxRow) (s : RelayState Own)
      → has_message p.id (loop ps (told_of p (next s))).1.delivered ≡ true
  sent-has_message p ps s =
      let (k, same) = loop-delivers ps (told_of p (next s)) in
      let more : List (Envelope Payload) =
        map envelope_of (filterb (is_publishable codec) (take k ps)) in
      rw
        (
          same,
          has_message-append p.id (s.delivered ++ envelope_of p ∷ []) more,
          has_message-append p.id s.delivered (envelope_of p ∷ []),
        )
        (ground (arith, eq_refl p.id))

  -- Every id that the loop returns has been confirmed.
  pub loop-confirmed :
      (ps : List OutboxRow) (s : RelayState Own) {ids : List String}
      → (loop ps s).0 ≡ ok ids
      → All (λ id. has_message id (loop ps s).1.delivered ≡ true) ids
  unfolding publish_rows
  loop-confirmed [] s {ids} h = let none_left : ids ≡ [] = ground arith in rw none_left tt
  loop-confirmed (p ∷ ps) s {ids} h = elim (round p ps s) [
    | skipped _ _ e ↦ rw e (loop-confirmed ps (having_failed p s) (ground (arith, e, h)))
    | broken _ x _ e ↦ absurd (ground (arith, e, h))
    | sent _ _ e ↦
        let got : (and_also p.id (loop ps (told_of p (next s)))).0 ≡ ok ids = rw (← e) h in
        let (rest, r, all) = and_also-ok p.id (loop ps (told_of p (next s))) got in
        rw (e, and_also-state p.id (loop ps (told_of p (next s))), all)
          (sent-has_message p ps s, loop-confirmed ps (told_of p (next s)) r)
    | refused _ _ e ↦
        let got : (stopped {D = D} (on_session (record_attempt cfg p) w (next s))).0 ≡ ok ids =
          rw (← e) h in
        let it : ids ≡ [] = (stopped-ok (on_session (record_attempt cfg p) w (next s)) got).0 in
        rw it tt
    | unheard _ _ e ↦
        let s' : RelayState Own = told_of p (next s) in
        let got : (stopped {D = D} (on_session (record_attempt cfg p) w s')).0 ≡ ok ids =
          rw (← e) h in
        let it : ids ≡ [] = (stopped-ok (on_session (record_attempt cfg p) w s') got).0 in rw it tt
  ]
