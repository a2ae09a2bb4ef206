-- ===== src/Availability/Lifetime.antt =====
-- services/availability over its lifetime: requests, and the prunes of its relay, among the other
-- replicas of the service and what their relays publish.
use wakewake.Prelude.{
  ℕ, ◌+◌, ◌≡◌, refl, sym, subst, arith, String, Option, List, [], ◌∷◌, ◌++◌, All, Rows, countb,
  countb-append,
}
use wakewake.Contracts.Events.{
  BookingCancelledPayload, reservation_created_event, reservation_released_event,
}
use wakewake.Platform.Session.{OutboxRow, World, Session, resumed}
use wakewake.Platform.Atomicity.{Calm}
use wakewake.Platform.Idempotency.{find_key}
use wakewake.Platform.Staging.{is_event_of}
use wakewake.Platform.Relay.{RelaySettings}
use wakewake.Platform.Relayed.{fact}
use wakewake.Platform.Drain.{prune}
use wakewake.Platform.Pruned.{removed, prune-removed}
use wakewake.Availability.Reservation.{Reservation, DomainError}
use wakewake.Availability.Table.{Tables}
use wakewake.Availability.Requests.{Request, serve}
use wakewake.Availability.Invariant.{IsConsistent, is_released_id, has_id}
use wakewake.Availability.Runs.{serve_keeps}

-- The database has nothing of the service yet.
pub record IsNew (db : Tables) : Type 0 where
  pub own : db.own ≡ []
  pub outbox : db.outbox ≡ []
  pub keys : db.keys ≡ []

-- Nobody else commits.
abbrev pub IsAlone : World (List Reservation) → Type 0
IsAlone w = (n : ℕ) (db : Tables) → (w.calls n).others db ≡ db

abbrev pub SameFact : OutboxRow → OutboxRow → Type 0
SameFact r r' = fact r' ≡ fact r

pub data Step (Raw : Type 0) : Type 0 where
  ask : Request Raw → Step Raw
  prune_outbox : RelaySettings → Step Raw

module _ {Raw : Type 0} (decode : Raw → Option BookingCancelledPayload) where
  -- What others make of a database: any number of requests that they serve, and of changes to what
  -- the relay keeps of the outbox's rows.
  pub data Shared (db : Tables) : Tables → Type 0 where
    untouched : Shared db db
    served :
        (q : Request Raw) (w : World (List Reservation)) (s : Session (List Reservation))
        → IsAlone w
        → Shared db s.db
        → Shared db (serve decode q w s).db
    relayed :
        (db' : Tables) (rows : List OutboxRow)
        → Rows SameFact db'.outbox rows
        → Shared db db'
        → Shared db (record db' { outbox = rows })

  abbrev pub IsShared : World (List Reservation) → Type 0
  IsShared w = (n : ℕ) (db : Tables) → Shared db ((w.calls n).others db)

  -- A step, and the rows that prunes have deleted so far.
  unfoldable pub take_step :
      Step Raw
      → World (List Reservation)
      → Session (List Reservation) × List OutboxRow
      → Session (List Reservation) × List OutboxRow
  take_step (ask q) w (s, gone) = (serve decode q w s, gone)
  take_step (prune_outbox cfg) w (s, gone) =
      let s' = (prune {D = DomainError} cfg w s).1 in
      (s', gone ++ removed (resumed w s).db.outbox s'.db.outbox)

  unfoldable pub take_steps :
      List (World (List Reservation) × Step Raw)
      → Session (List Reservation) × List OutboxRow
      → Session (List Reservation) × List OutboxRow
  take_steps [] s = s
  take_steps ((w, q) ∷ rest) s = take_steps rest (take_step q w s)

countb-SameFact :
    (event id : String) (xs ys : List OutboxRow)
    → Rows SameFact xs ys
    → countb (is_event_of event id) ys ≡ countb (is_event_of event id) xs
countb-SameFact event id [] [] h = refl
countb-SameFact event id [] (y ∷ ys) h = absurd h
countb-SameFact event id (x ∷ xs) [] h = absurd h
countb-SameFact event id (x ∷ xs) (y ∷ ys) (f, h) =
    ground (arith, f, countb-SameFact event id xs ys h)

IsNew-IsConsistent : (db : Tables) → IsNew db → IsConsistent [] db
unfolding find_key
IsNew-IsConsistent db new = record {
  sound = rw new.own tt;
  created = λ id. rw (new.own, new.outbox) refl;
  released = λ id. rw (new.own, new.outbox) refl;
  keys = λ key k e. absurd (ground (arith, e, new.keys));
}

module _ {Raw : Type 0} (decode : Raw → Option BookingCancelledPayload)
    (gone : List OutboxRow) where
  IsAlone-Calm : (w : World (List Reservation)) → IsAlone w → Calm (IsConsistent gone) w
  IsAlone-Calm w alone n db h = subst (IsConsistent gone) (sym (alone n db)) h

  Shared-IsConsistent :
      (db db' : Tables) → Shared decode db db' → IsConsistent gone db → IsConsistent gone db'
  Shared-IsConsistent db _ untouched h = h
  Shared-IsConsistent db _ (served q w s alone before) h =
      serve_keeps decode q w s (IsAlone-Calm w alone) (Shared-IsConsistent db s.db before h)
  Shared-IsConsistent db _ (relayed db' rows same before) h =
      let it = Shared-IsConsistent db db' before h in
      record {
        sound = it.sound;
        created = λ id. ground (
          arith,
          it.created id,
          countb-SameFact reservation_created_event id db'.outbox rows same,
        );
        released = λ id. ground (
          arith,
          it.released id,
          countb-SameFact reservation_released_event id db'.outbox rows same,
        );
        keys = it.keys;
      }

  IsShared-Calm : (w : World (List Reservation)) → IsShared decode w → Calm (IsConsistent gone) w
  IsShared-Calm w shared n db h = Shared-IsConsistent db ((w.calls n).others db) (shared n db) h

  take_step_keeps :
      (q : Step Raw) (w : World (List Reservation)) (s : Session (List Reservation))
      → IsShared decode w
      → IsConsistent gone s.db
      → IsConsistent (take_step decode q w (s, gone)).1 (take_step decode q w (s, gone)).0.db
  unfolding take_step
  take_step_keeps (ask q) w s shared h = serve_keeps decode q w s (IsShared-Calm w shared) h
  take_step_keeps (prune_outbox cfg) w s shared h =
      let it : IsConsistent gone (resumed w s).db = IsShared-Calm w shared s.step s.db h in
      let s' = (prune {D = DomainError} cfg w s).1 in
      let less : List OutboxRow = removed (resumed w s).db.outbox s'.db.outbox in
      let (same, _) = prune-removed DomainError cfg w s (is_event_of "" "") in
      let balance : (event id : String)
          → countb (is_event_of event id) s'.db.outbox
              + countb (is_event_of event id) (gone ++ less)
            ≡ countb (is_event_of event id) (resumed w s).db.outbox
              + countb (is_event_of event id) gone =
        λ event id.
          let (_, counts) = prune-removed DomainError cfg w s (is_event_of event id) in
          omega (arith, counts, countb-append (is_event_of event id) gone less) in
      subst (IsConsistent (gone ++ less)) (sym same) (record {
        sound = it.sound;
        created = λ id. omega (arith, balance reservation_created_event id, it.created id);
        released = λ id. omega (arith, balance reservation_released_event id, it.released id);
        keys = it.keys;
      })

module _ {Raw : Type 0} (decode : Raw → Option BookingCancelledPayload) where
  take_steps_keep :
      (run : List (World (List Reservation) × Step Raw)) (s : Session (List Reservation))
      (gone : List OutboxRow)
      → All (λ step. IsShared decode step.0) run
      → IsConsistent gone s.db
      → IsConsistent (take_steps decode run (s, gone)).1 (take_steps decode run (s, gone)).0.db
  unfolding take_steps
  take_steps_keep [] s gone shared h = h
  take_steps_keep ((w, q) ∷ rest) s gone shared h =
      let next = take_step decode q w (s, gone) in
      take_steps_keep rest next.0 next.1 shared.1 (take_step_keeps decode gone q w s shared.0 h)

  -- From a new database, after any run of requests and of prunes of the outbox, however the driver
  -- behaves, and while others only serve requests of the service and relay its events: of every id,
  -- the outbox and the rows that the run's prunes have deleted hold together as many
  -- ReservationCreated as there are reservations with the id, and as many ReservationReleased as
  -- there are released reservations with the id.
  pub events_exactly_once :
      (run : List (World (List Reservation) × Step Raw)) (s : Session (List Reservation))
      (id : String)
      → All (λ step. IsShared decode step.0) run
      → IsNew s.db
      → (countb
              (is_event_of reservation_created_event id)
              (take_steps decode run (s, [])).0.db.outbox
            + countb (is_event_of reservation_created_event id) (take_steps decode run (s, [])).1
          ≡ countb (has_id id) (take_steps decode run (s, [])).0.db.own)
        × (countb
                (is_event_of reservation_released_event id)
                (take_steps decode run (s, [])).0.db.outbox
              + countb (is_event_of reservation_released_event id) (take_steps decode run (s, [])).1
            ≡ countb (is_released_id id) (take_steps decode run (s, [])).0.db.own)
  events_exactly_once run s id shared new =
      let end = take_steps_keep run s [] shared (IsNew-IsConsistent s.db new) in
      (end.created id, end.released id)
