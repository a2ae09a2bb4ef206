-- ===== src/Availability/Service.antt =====
-- services/availability/internal/domain/service.go: the use cases, over the store. The application
-- clock and the id generator are arguments: what they answer in this call.
use wakewake.Prelude.{
  ℕ, suc, String, Bool, true, false, not, Option, none, some, List, [], ◌∷◌, ◌++◌, if◌then◌else◌,
  ltb,
}
use wakewake.Contracts.Events.{Time}
use wakewake.Platform.Session.{
  Error, domain, other, Result, ok, err, World, Session, pure, fail, lift, ◌>>=◌,
}
use wakewake.Availability.Reservation.{
  DomainError, not_found, invalid_query_window, invalid_release_reason, is_valid_reason,
  reason_booking_cancelled, Window, Reservation, Transition, new_reservation, confirm, release,
  release_if_expired,
}
use wakewake.Availability.Store.{
  StoreAction, Claim, insert, by_id, apply, busy, clock, expired_holds,
}

pub record ReserveCommand : Type 0 where
  pub resource_id : String
  pub booking_id : String
  pub starts_at : Time
  pub ends_at : Time
  pub idempotency : Claim

abbrev pub generated : Option String → Result DomainError String
generated none = err other
generated (some id) = ok id

-- `Reserve`: no query of whether the window is free comes before the insert.
unfoldable pub reserve : ℕ → Option String → ReserveCommand → StoreAction Reservation
reserve hold_ttl new_id cmd = do
  id ← lift (generated new_id)
  r ← lift (new_reservation id cmd.resource_id cmd.booking_id cmd.starts_at cmd.ends_at)
  insert cmd.idempotency r hold_ttl

unfoldable pub get : String → StoreAction Reservation
get id = by_id id

unfoldable pub confirm_reservation : Time → String → StoreAction Reservation
confirm_reservation now id = do result ← apply id (confirm now); pure result.0

unfoldable pub release_reservation : Time → String → String → StoreAction Reservation
release_reservation now id reason =
    if not (is_valid_reason reason)
    then fail (domain invalid_release_reason)
    else (do result ← apply id (release reason now); pure result.0)

unfoldable pub busy_windows : String → Time → Time → StoreAction (List Window)
busy_windows resource_id from to =
    if not (ltb from to) then fail (domain invalid_query_window) else busy resource_id from to

-- The sweep's two results: how many it released, and the failures that it joins.
pub record Swept : Type 0 where
  pub released : ℕ
  pub failures : List (Error DomainError)

abbrev pub tally : Result DomainError (Reservation × Bool) → Swept → Swept
tally (ok (r, true)) t = record t { released = suc t.released }
tally (ok (r, false)) t = t
tally (err (domain not_found)) t = t
tally (err e) t = record t { failures = t.failures ++ e ∷ [] }

-- The loop over the candidates; `stopped i` says whether the context is done before the i-th.
unfoldable pub sweep_from :
    (ℕ → Bool)
    → Time
    → ℕ
    → List String
    → Swept
    → World (List Reservation)
    → Session (List Reservation)
    → Swept × Session (List Reservation)
sweep_from stopped as_of i [] t w s = (t, s)
sweep_from stopped as_of i (id ∷ ids) t w s = elim (stopped i) [
  | true ↦ (record t { failures = t.failures ++ other ∷ [] }, s)
  | false ↦
      let (r, s') = apply id (release_if_expired as_of) w s in
      sweep_from stopped as_of (suc i) ids (tally r t) w s'
]

abbrev pub swept_none : Error DomainError → Swept
swept_none e = record { released = 0; failures = e ∷ [] }

-- `Sweep`
unfoldable pub sweep :
    (ℕ → Bool)
    → ℕ
    → World (List Reservation)
    → Session (List Reservation)
    → Swept × Session (List Reservation)
sweep stopped limit w s =
    let (r, s1) = clock w s in
    elim r [
      | err e ↦ (swept_none e, s1)
      | ok as_of ↦
          let (c, s2) = expired_holds limit w s1 in
          elim c [
            | err e ↦ (swept_none e, s2)
            | ok ids ↦ sweep_from stopped as_of 0 ids (record { released = 0; failures = [] }) w s2
          ]
    ]

-- `CompensateCancelledBooking`
abbrev pub compensate_cancelled_booking : Time → Transition
compensate_cancelled_booking now = release reason_booking_cancelled now
