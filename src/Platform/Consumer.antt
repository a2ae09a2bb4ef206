-- ===== src/Platform/Consumer.antt =====
-- shared/platform/consumer/consumer.go: a delivery is handled, with retries, and answered. The waits
-- are durations, whose random part (`fullJitter`) is left to the outside; logging is left out.
use wakewake.Prelude.{
  ℕ, zero, suc, ◌-◌, String, ◌==◌, Bool, true, false, ◌&&◌, Option, none, some, List, [], ◌∷◌,
  if◌then◌else◌, ltb, leb, length,
}
use wakewake.Prelude.Int.{ℤ}
use wakewake.Contracts.Events.{Envelope, second}
use wakewake.Contracts.Validity.{Codec, parse}
use wakewake.Platform.Session.{Result, ok, err, World, Session}
use wakewake.Platform.Inbox.{Handler, process}
use wakewake.Platform.Relay.{or_default}

pub record ConsumerOptions : Type 0 where
  pub service : String
  pub events : List String
  pub prefetch : ℤ
  pub max_attempts : ℤ
  pub backoff : List ℕ

-- The options that `applyDefaults` leaves.
pub record ConsumerSettings : Type 0 where
  pub service : String
  pub events : List String
  pub prefetch : ℕ
  pub max_attempts : ℕ
  pub backoff : List ℕ

abbrev pub default_backoff : List ℕ
default_backoff = 200_000 ∷ second ∷ 5_000_000 ∷ []

abbrev pub backoff_or : List ℕ → List ℕ
backoff_or [] = default_backoff
backoff_or (d ∷ ds) = d ∷ ds

unfoldable pub apply_options : ConsumerOptions → ConsumerSettings
apply_options o = record {
  service = o.service;
  events = o.events;
  prefetch = or_default 20 o.prefetch;
  max_attempts = or_default 3 o.max_attempts;
  backoff = backoff_or o.backoff;
}

-- The checks of `Run`: none where it refuses to start.
unfoldable pub start_consumer : ConsumerOptions → Option ConsumerSettings
start_consumer o =
    if o.service == ""
    then none
    else (if leb (length o.events) 0 then none else some (apply_options o))

-- `o.Backoff[min(attempt-1, len(o.Backoff)-1)]`: none where the index is out of range.
abbrev pub entry_at : List ℕ → ℕ → Option ℕ
entry_at [] n = none
entry_at (d ∷ ds) zero = some d
entry_at (d ∷ ds) (suc n) = entry_at ds n

abbrev pub min_of : ℕ → ℕ → ℕ
min_of a b = if leb a b then a else b

unfoldable pub backoff_before : List ℕ → ℕ → Option ℕ
backoff_before backoff attempt = entry_at backoff (min_of (attempt - 1) (length backoff - 1))

-- How the delivery is answered: `d.Ack(false)`, `d.Nack(false, true)` and `d.Nack(false, false)`.
pub data Verdict : Type 0 where
  acked requeued dead_lettered : Verdict

module _ {D Own Raw Body : Type 0} (codec : Codec Raw Body) (cfg : ConsumerSettings)
    (h : Handler D Own Raw) (stops : ℕ → Bool) where
  -- The context of a delivery carries its correlation id.
  abbrev pub with_id : Envelope Raw → World Own → World Own
  with_id e w = record w { correlation = e.correlation_id }

  -- The loop, with `left` attempts to go before `max_attempts` and `attempt` made. `stops attempt`:
  -- the context ends in the wait before it.
  unfoldable pub attempts_from :
      ℕ → ℕ → Envelope Raw → World Own → Session Own → Verdict × Session Own
  attempts_from zero attempt e w s = (dead_lettered, s)
  attempts_from (suc left) attempt e w s =
      let out : Result D Bool × Session Own = process cfg.service e h w s in
      elim (ltb 0 attempt && stops attempt) [
        | true ↦ (requeued, s)
        | false ↦ elim out.0 [
          | ok _ ↦ (acked, out.1)
          | err _ ↦ attempts_from left (suc attempt) e w out.1
        ]
      ]

  unfoldable pub handle_delivery : Body → World Own → Session Own → Verdict × Session Own
  handle_delivery body w s = elim (parse codec body) [
    | none ↦ (dead_lettered, s)
    | some e ↦ attempts_from cfg.max_attempts 0 e (with_id e w) s
  ]
