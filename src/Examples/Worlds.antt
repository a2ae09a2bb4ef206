-- ===== src/Examples/Worlds.antt =====
-- Worlds in which the driver never fails and nobody else commits, and empty databases.
use Prim.Native.String.{◌++◌}
use wakewake.Prelude.{ℕ, zero, suc, String, some, []}
use wakewake.Platform.Session.{fine, World, Session}

-- Ids that differ from call to call.
abbrev pub nth_id : ℕ → String
nth_id zero = "id"
nth_id (suc n) = nth_id n ++ "+"

abbrev pub quiet : {Own : Type 0} → World Own
quiet = record {
  calls = λ n. record { outcome = fine; elapsed = 1; others = λ db. db };
  uuids = λ n. some (nth_id n);
  random_uuids = nth_id;
  correlation = "c-1";
}

abbrev pub start_of : {Own : Type 0} → Own → Session Own
start_of own = record {
  db = record { own = own; keys = []; outbox = []; processed = [] };
  now = 1_000;
  step = 0;
  kicks = 0;
}
