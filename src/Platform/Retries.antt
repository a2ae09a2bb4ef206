-- ===== src/Platform/Retries.antt =====
-- shared/platform/consumer, `handleDelivery`: what each answer stands for.
use wakewake.Prelude.{
  ℕ, zero, suc, ◌+◌, ◌<◌, ◌≡◌, inl, inr, arith, Bool, true, false, ◌&&◌, ltb, Bool-cases,
}
use wakewake.Contracts.Events.{Envelope}
use wakewake.Contracts.Validity.{Codec}
use wakewake.Platform.Session.{Error, ok, err, World, Session}
use wakewake.Platform.Inbox.{Handler, process}
use wakewake.Platform.Rules.{Result-cases}
use wakewake.Platform.Consumer.{
  ConsumerSettings, Verdict, acked, requeued, dead_lettered, attempts_from,
}

module _ {D Own Raw Body : Type 0} (codec : Codec Raw Body) (cfg : ConsumerSettings)
    (h : Handler D Own Raw) (stops : ℕ → Bool) (e : Envelope Raw) (w : World Own) where
  -- Attempts that failed, one after the other: their number, and from where to where.
  pub data Failures : ℕ → Session Own → Session Own → Type 0 where
    nothing_yet : (s : Session Own) → Failures zero s s
    once_more :
        (n : ℕ) (s t : Session Own) (x : Error D)
        → (process cfg.service e h w s).0 ≡ err x
        → Failures n (process cfg.service e h w s).1 t
        → Failures (suc n) s t

  -- What an answer stands for, with the attempts at hand: an attempt that succeeded, a shutdown
  -- after an attempt that failed, or attempts that all failed.
  pub data Report : ℕ → ℕ → Session Own → Verdict → Session Own → Type 0 where
    succeeded :
        (left made n : ℕ) (s t : Session Own)
        → n < left
        → Failures n s t
        → (b : Bool) → (process cfg.service e h w t).0 ≡ ok b
        → Report left made s acked (process cfg.service e h w t).1
    shut_down :
        (left made n : ℕ) (s t : Session Own)
        → n < left
        → Failures n s t
        → 0 < made + n
        → stops (made + n) ≡ true
        → Report left made s requeued t
    exhausted :
        (left made : ℕ) (s t : Session Own) → Failures left s t → Report left made s dead_lettered t

  more :
      (left made : ℕ) (s t : Session Own) (v : Verdict) (x : Error D)
      → (process cfg.service e h w s).0 ≡ err x
      → Report left (suc made) (process cfg.service e h w s).1 v t
      → Report (suc left) made s v t
  more left made s t v x r (succeeded _ _ n _ u lt f b o) =
      succeeded (suc left) made (suc n) s u (omega arith) (once_more n s u x r f) b o
  more left made s t v x r (shut_down _ _ n _ u lt f pos stop) =
      shut_down (suc left) made (suc n) s u (omega arith) (once_more n s u x r f) (omega arith)
        (let same : made + suc n ≡ suc made + n = omega arith in rw same stop)
  more left made s t v x r (exhausted _ _ _ u f) =
      exhausted (suc left) made s u (once_more left s u x r f)

  abbrev run : ℕ → ℕ → Session Own → Verdict × Session Own
  run left made s = attempts_from codec cfg h stops left made e w s

  run-stop :
      (left made : ℕ) (s : Session Own)
      → (ltb 0 made && stops made) ≡ true
      → run (suc left) made s ≡ (requeued, s)
  unfolding attempts_from
  run-stop left made s stop = ground (arith, stop)

  run-ok :
      (left made : ℕ) (s : Session Own) {b : Bool}
      → (ltb 0 made && stops made) ≡ false
      → (process cfg.service e h w s).0 ≡ ok b
      → run (suc left) made s ≡ (acked, (process cfg.service e h w s).1)
  unfolding attempts_from
  run-ok left made s go r = ground (arith, go, r)

  run-err :
      (left made : ℕ) (s : Session Own) {x : Error D}
      → (ltb 0 made && stops made) ≡ false
      → (process cfg.service e h w s).0 ≡ err x
      → run (suc left) made s ≡ run left (suc made) (process cfg.service e h w s).1
  unfolding attempts_from
  run-err left made s go r = ground (arith, go, r)

  pub attempts_from_lem :
      (left made : ℕ) (s : Session Own) → Report left made s (run left made s).0 (run left made s).1
  unfolding attempts_from
  attempts_from_lem zero made s = exhausted zero made s s (nothing_yet s)
  attempts_from_lem (suc left) made s = elim (Bool-cases (ltb 0 made && stops made)) [
    | inl stop ↦ rw (run-stop left made s stop) (
        shut_down (suc left) made 0 s s (omega arith) (nothing_yet s) (ground (arith, stop))
          (let same : made + 0 ≡ made = omega arith in rw same (ground (arith, stop))))
    | inr go ↦ elim (Result-cases (process cfg.service e h w s).0) [
      | inl (b, r) ↦
          rw (run-ok left made s go r)
            (succeeded (suc left) made 0 s s (omega arith) (nothing_yet s) b r)
      | inr (x, r) ↦ rw (run-err left made s go r) (
          more left made s _ _ x r
            (attempts_from_lem left (suc made) (process cfg.service e h w s).1))
    ]
  ]
