-- ===== src/Examples/Relaying.antt =====
-- A relay with two staged rows, while its broker confirms and while it does not.
use wakewake.Prelude.{
  ◌<◌, ◌≡◌, refl, arith, String, true, false, none, some, List, [], ◌∷◌, countb, Rows,
}
use wakewake.Contracts.Events.{Payload, released_payload, reservation_released_event}
use wakewake.Contracts.Validity.{Codec}
use wakewake.Platform.Session.{OutboxRow, Session, resumed}
use wakewake.Platform.Relay.{RelaySettings, confirmed, dropped, Broker, RelayState, is_pending}
use wakewake.Platform.Drain.{drain, prune, delete_published}
use wakewake.Platform.Pruned.{has_row}
use wakewake.Platform.Spared.{IsPast, prune_spares}
use wakewake.Platform.Batches.{passed}
use wakewake.Platform.Passing.{Confirmed, pass_confirms}
use wakewake.Platform.Healthy.{Fine}
use wakewake.Platform.Draining.{Alone, Unsent, drain_ends, drain_clears, outage_spends_tries}
use wakewake.Examples.Worlds.{quiet, start_of}

-- Every id is a uuid, and a message's body is its id.
abbrev codec : Codec Payload String
codec = record {
  is_uuid = λ id. true;
  is_blank = λ p. false;
  unmarshal = λ body. none;
  marshal = λ e. some e.id;
}

-- Batches of one row, and three attempts.
abbrev settings : RelaySettings
settings = record {
  poll_interval = 1_000_000;
  batch_size = 1;
  max_attempts = 3;
  prune_after = 1_000_000;
  prune_interval = 1_000_000;
}

abbrev row : String → OutboxRow
row id = record {
  id = id;
  event = reservation_released_event;
  version = 1;
  aggregate_type = "reservation";
  aggregate_id = "r-1";
  payload = released_payload (record {
    reservation_id = "r-1";
    resource_id = "court";
    booking_id = "b-1";
    starts_at = 5_000;
    ends_at = 6_000;
    reason = "hold_expired";
  });
  correlation_id = "c-1";
  occurred_at = 900;
  published_at = none;
  attempts = 0;
  failed_at = none;
}

abbrev start : RelayState (List String)
start = record {
  session = record (start_of []) {
    db = record (start_of []).db { outbox = row "e-1" ∷ row "e-2" ∷ [] };
  };
  delivered = [];
}

abbrev healthy : Broker
healthy = record { answers = λ n. confirmed; precedes = λ a b. false }

abbrev broken : Broker
broken = record { answers = λ n. dropped; precedes = λ a b. false }

pass_confirms_example :
    Rows
      (Confirmed (passed String codec settings healthy quiet start).1.delivered)
      (resumed quiet start.session).db.outbox
      (passed String codec settings healthy quiet start).1.session.db.outbox
pass_confirms_example = pass_confirms String codec settings healthy quiet start

drain_ends_example : (drain String codec settings healthy 100 quiet start).0 ≡ true
drain_ends_example =
    drain_ends String codec settings healthy quiet (omega arith) (λ n db. omega arith) 100 start
      (omega arith)

quiet-Fine : Fine {Own = List String} quiet
quiet-Fine n = refl

quiet-Alone : Alone {Own = List String} quiet
quiet-Alone n db = refl

drain_clears_example :
    ((drain String codec settings healthy 100 quiet start).0 ≡ true)
    × (countb is_pending (drain String codec settings healthy 100 quiet start).1.session.db.outbox
        < 1)
drain_clears_example =
    drain_clears String codec settings healthy quiet quiet-Fine quiet-Alone (omega arith) 100 start
      (omega arith)

outage_spends_tries_example :
    ((drain String codec settings broken 100 quiet start).1.delivered ≡ [])
    × Rows Unsent start.session.db.outbox
        (drain String codec settings broken 100 quiet start).1.session.db.outbox
    × (countb is_pending (drain String codec settings broken 100 quiet start).1.session.db.outbox
        < 1)
outage_spends_tries_example =
    outage_spends_tries String codec settings broken quiet quiet-Fine quiet-Alone (omega arith)
      (λ n. refl) 100 start (omega arith)

-- A row that was published long ago, and one that waits.
abbrev two_rows : Session (List String)
two_rows = record (start_of []) {
  db = record (start_of []).db {
    outbox = record (row "o-1") { published_at = some 7 } ∷ row "o-2" ∷ [];
  };
}

abbrev eager : RelaySettings
eager = record settings { prune_after = 100 }

old_is_gone : has_row (prune {D = String} eager quiet two_rows).1.db.outbox "o-1" ≡ false
unfolding prune delete_published
old_is_gone = refl

waiting_is_there : has_row (prune {D = String} eager quiet two_rows).1.db.outbox "o-2" ≡ true
unfolding prune delete_published
waiting_is_there = refl

prune_spares_example :
    IsPast 100 (resumed quiet two_rows).now (resumed quiet two_rows).db.outbox "o-1"
prune_spares_example = prune_spares String eager quiet two_rows "o-1" refl old_is_gone
