-- ===== src/Platform/Deliveries.antt =====
-- shared/platform/consumer, `handleDelivery`: what a delivery leaves, whatever the answer.
use wakewake.Prelude.{
  ℕ, suc, ◌≡◌, refl, ◌⊎◌, inl, inr, arith, String, ◌==◌, Bool, true, false, none, some, Bool-cases,
  Option-cases,
}
use wakewake.Contracts.Events.{Envelope}
use wakewake.Contracts.Validity.{Codec, parse}
use wakewake.Platform.Session.{PgError, ok, refused, World, Session, resumed, sql}
use wakewake.Platform.Tx.{unique_violation}
use wakewake.Platform.Inbox.{Handler, is_processed, insert_processed, process}
use wakewake.Platform.Rules.{Outcome-cases}
use wakewake.Platform.Delivery.{process_records, entered_session}
use wakewake.Platform.Consumer.{
  ConsumerSettings, Verdict, acked, dead_lettered, with_id, attempts_from, handle_delivery,
}
use wakewake.Platform.Retries.{Report, succeeded, shut_down, exhausted, attempts_from_lem}

-- The driver reports no unique violation of its own: transactions are serial, and the statements'
-- own duplicates are answered by their ON CONFLICT.
abbrev pub NoRace : {Own : Type 0} → World Own → Type 0
NoRace w =
    (n : ℕ) (x : PgError) → (w.calls n).outcome ≡ refused x → x.code == unique_violation ≡ false

other_code : "" == unique_violation ≡ false
other_code = refl

module _ {D Own Raw : Type 0} (consumer : String) (e : Envelope Raw) (h : Handler D Own Raw)
    (w : World Own) (s : Session Own) where
  -- A delivery that finds its event handled says so only if its row is there.
  process_skipped :
      NoRace w
      → (process consumer e h w s).0 ≡ ok false
      → is_processed consumer e.id (process consumer e h w s).1.db.processed ≡ true
  unfolding process sql insert_processed
  process_skipped calm r =
      elim (Bool-cases (is_processed consumer e.id (resumed w s).db.processed)) [
        | inl old ↦ ground (arith, old)
        | inr new ↦ elim (Outcome-cases (w.calls (suc s.step)).outcome) [
          | inl c ↦ absurd (ground (arith, new, c, r))
          | inr (inl (x, c)) ↦ absurd (ground (arith, new, c, r, calm (suc s.step) x c))
          | inr (inr (inl c)) ↦ absurd (ground (arith, new, c, r, other_code))
          | inr (inr (inr c)) ↦ absurd (ground (arith, new, c, r, other_code))
        ]
      ]

  process-ok_recorded :
      {b : Bool}
      → NoRace w
      → ((h e w (entered_session consumer e h w s)).1.db.processed
          ≡ (entered_session consumer e h w s).db.processed)
      → (process consumer e h w s).0 ≡ ok b
      → is_processed consumer e.id (process consumer e h w s).1.db.processed ≡ true
  process-ok_recorded {b} calm kept r = elim (Bool-cases b) [
    | inl it ↦ process_records consumer e h w s (ground (arith, r, it)) kept
    | inr it ↦ process_skipped calm (ground (arith, r, it))
  ]

module _ {D Own Raw Body : Type 0} (codec : Codec Raw Body) (cfg : ConsumerSettings)
    (h : Handler D Own Raw) (stops : ℕ → Bool) (body : Body) (w : World Own) (s : Session Own) where
  abbrev out : Verdict × Session Own
  out = handle_delivery codec cfg h stops body w s

  delivery-none :
      parse codec body ≡ none → handle_delivery codec cfg h stops body w s ≡ (dead_lettered, s)
  unfolding handle_delivery
  delivery-none bad = ground (arith, bad)

  delivery-some :
      {e : Envelope Raw}
      → parse codec body ≡ some e
      → handle_delivery codec cfg h stops body w s
        ≡ attempts_from codec cfg h stops cfg.max_attempts 0 e (with_id codec cfg h stops e w) s
  unfolding handle_delivery
  delivery-some good = ground (arith, good)

  -- A delivery whose body is no valid envelope is dead-lettered and touches nothing; any other is
  -- answered as its attempts say.
  pub handle_delivery_lem :
      ((parse codec body ≡ none)
        × (handle_delivery codec cfg h stops body w s ≡ (dead_lettered, s)))
      ⊎ ((e : Envelope Raw) × (parse codec body ≡ some e)
          × Report codec cfg h stops e
              (with_id codec cfg h stops e w)
              cfg.max_attempts
              0
              s
              (handle_delivery codec cfg h stops body w s).0
              (handle_delivery codec cfg h stops body w s).1)
  handle_delivery_lem = elim (Option-cases (parse codec body)) [
    | inl bad ↦ inl (bad, delivery-none bad)
    | inr (e, good) ↦ inr (
      e,
      good,
      rw (delivery-some good) (
          attempts_from_lem codec cfg h stops e (with_id codec cfg h stops e w) cfg.max_attempts 0
            s),
    )
  ]

  -- The world of a delivery, whose context carries the message's correlation id.
  abbrev pub within : Envelope Raw → World Own
  within e = with_id codec cfg h stops e w

  acked_end :
      (e : Envelope Raw) (left made : ℕ) (r t : Session Own) (v : Verdict)
      → Report codec cfg h stops e (within e) left made r v t
      → v ≡ acked
      → (u : Session Own) × (b : Bool) × ((process cfg.service e h (within e) u).0 ≡ ok b)
        × (t ≡ (process cfg.service e h (within e) u).1)
  acked_end e left made r t v (succeeded _ _ n _ u lt f b o) it = (u, b, o, refl)
  acked_end e left made r t v (shut_down _ _ n _ _ lt f pos stop) it = absurd (ground (arith, it))
  acked_end e left made r t v (exhausted _ _ _ _ f) it = absurd (ground (arith, it))

  -- An acknowledged delivery is of a valid envelope whose event the database has as handled, if the
  -- handler leaves the rows of handled events alone and the driver reports no race.
  pub acked_recorded :
      NoRace w
      → ((e : Envelope Raw) (u : Session Own)
          → (h e (within e) (entered_session cfg.service e h (within e) u)).1.db.processed
            ≡ (entered_session cfg.service e h (within e) u).db.processed)
      → (handle_delivery codec cfg h stops body w s).0 ≡ acked
      → (e : Envelope Raw) × (parse codec body ≡ some e)
        × (is_processed cfg.service e.id (handle_delivery codec cfg h stops body w s).1.db.processed
            ≡ true)
  acked_recorded calm kept it = elim handle_delivery_lem [
    | inl (bad, same) ↦ absurd (ground (arith, it, same))
    | inr (e, good, report) ↦
        let (u, b, o, done) = acked_end e cfg.max_attempts 0 s _ _ report it in
        (e, good, rw done (process-ok_recorded cfg.service e h (within e) u calm (kept e u) o))
  ]
