-- ===== src/Examples/Consumers.antt =====
-- One message, delivered to a consumer that only wakes the relay.
use wakewake.Prelude.{
  ℕ, ◌≡◌, refl, ◌⊎◌, arith, String, Bool, true, false, none, some, List, [], ◌∷◌,
}
use wakewake.Contracts.Events.{Envelope, BookingCancelledPayload, is_known}
use wakewake.Contracts.Validity.{Codec, parse, is_valid}
use wakewake.Platform.Session.{Session, kick, sql}
use wakewake.Platform.Inbox.{Handler, is_processed, process, insert_processed}
use wakewake.Platform.Consumer.{
  ConsumerSettings, acked, dead_lettered, with_id, attempts_from, handle_delivery,
}
use wakewake.Platform.Retries.{Report}
use wakewake.Platform.Deliveries.{NoRace, handle_delivery_lem, acked_recorded}
use wakewake.Examples.Worlds.{quiet, start_of}
use wakewake.Examples.Transactions.{envelope}

abbrev codec : Codec BookingCancelledPayload String
codec = record {
  is_uuid = λ id. true;
  is_blank = λ p. false;
  unmarshal = λ body. some envelope;
  marshal = λ e. some e.id;
}

abbrev settings : ConsumerSettings
settings = record {
  service = "availability";
  events = "BookingCancelled" ∷ [];
  prefetch = 20;
  max_attempts = 3;
  backoff = 1_000 ∷ [];
}

abbrev waker : Handler String (List String) BookingCancelledPayload
waker e = kick

abbrev start : Session (List String)
start = start_of []

abbrev never : ℕ → Bool
never n = false

handle_delivery_lem_example :
    ((parse codec "body" ≡ none)
      × (handle_delivery codec settings waker never "body" quiet start ≡ (dead_lettered, start)))
    ⊎ ((e : Envelope BookingCancelledPayload) × (parse codec "body" ≡ some e)
        × Report codec settings waker never e
            (with_id codec settings waker never e quiet)
            3
            0
            start
            (handle_delivery codec settings waker never "body" quiet start).0
            (handle_delivery codec settings waker never "body" quiet start).1)
handle_delivery_lem_example = handle_delivery_lem codec settings waker never "body" quiet start

quiet-NoRace : NoRace {Own = List String} quiet
quiet-NoRace n x h = absurd (ground (arith, h))

waker_is_acked : (handle_delivery codec settings waker never "body" quiet start).0 ≡ acked
unfolding handle_delivery attempts_from parse is_valid is_known process insert_processed sql
waker_is_acked = refl

acked_recorded_example :
    (e : Envelope BookingCancelledPayload) × (parse codec "body" ≡ some e)
    × (is_processed "availability" e.id
          (handle_delivery codec settings waker never "body" quiet start).1.db.processed
        ≡ true)
acked_recorded_example =
    acked_recorded codec settings waker never "body" quiet start quiet-NoRace (λ e u. refl)
      waker_is_acked
