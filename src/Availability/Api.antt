-- ===== src/Availability/Api.antt =====
-- services/availability/internal/api/server.go: each operation as a request and its reply. The ids
-- of a request are parsed by the generated binding; messages and details are left out.
use wakewake.Prelude.{ℕ, String, ◌==◌, Bool, ◌&&◌, Option, none, some, List, if◌then◌else◌}
use wakewake.Contracts.Events.{Time}
use wakewake.Platform.Session.{domain, Result, ok, err, World, Session}
use wakewake.Platform.Http.{
  Reply, replied, problem, internal, validation_failed, validate_idempotency_key,
}
use wakewake.Availability.Reservation.{
  DomainError, invalid_time_window, missing_identifier, slot_unavailable, not_found,
  already_released, idempotency_key_reuse, invalid_query_window, Window, Reservation,
}
use wakewake.Availability.Service.{
  reserve, get, confirm_reservation, release_reservation, busy_windows,
}

pub record ReserveBody : Type 0 where
  pub resource_id : String
  pub booking_id : String
  pub starts_at : Time
  pub ends_at : Time

-- A reply, and what the call leaves.
abbrev pub Handled : Type 0 → Type 0
Handled A = Reply A × Session (List Reservation)

-- The cases of each handler's error switch.
abbrev pub create_problem : Result DomainError Reservation → Option (Reply Reservation)
create_problem (err (domain invalid_time_window)) = some (problem 422 "invalid_time_window")
create_problem (err (domain slot_unavailable)) = some (problem 409 "reservation_overlap")
create_problem (err (domain idempotency_key_reuse)) = some (problem 409 "idempotency_key_reuse")
create_problem (err (domain missing_identifier)) = some validation_failed
create_problem (err e) = some internal
create_problem (ok r) = none

abbrev pub get_problem : Result DomainError Reservation → Option (Reply Reservation)
get_problem (err (domain not_found)) = some (problem 404 "reservation_not_found")
get_problem (err e) = some internal
get_problem (ok r) = none

abbrev pub confirm_problem : Result DomainError Reservation → Option (Reply Reservation)
confirm_problem (err (domain not_found)) = some (problem 404 "reservation_not_found")
confirm_problem (err (domain already_released)) = some (problem 422 "reservation_already_released")
confirm_problem (err e) = some internal
confirm_problem (ok r) = none

abbrev pub slots_problem : Result DomainError (List Window) → Reply (List Window)
slots_problem (err (domain invalid_query_window)) = validation_failed
slots_problem (err e) = internal
slots_problem (ok windows) = replied 200 windows

-- `is_uuid`: uuid.Parse accepts the text.
module _ (is_uuid : String → Bool) where
  -- `toAPI`: none where an id of the row is no uuid.
  unfoldable pub to_api : Reservation → Option Reservation
  to_api r =
      if is_uuid r.id && (is_uuid r.resource_id && is_uuid r.booking_id) then some r else none

  abbrev pub rendered : ℕ → Option Reservation → Reply Reservation
  rendered status none = internal
  rendered status (some r) = replied status r

  -- The reply, with the handler's problem for an error.
  abbrev pub answer :
      ℕ
      → (Result DomainError Reservation → Option (Reply Reservation))
      → Result DomainError Reservation
      → Reply Reservation
  answer status problems (ok r) = rendered status (to_api r)
  answer status problems (err e) = elim (problems (err e)) [ none ↦ internal | some p ↦ p ]

  -- `CreateReservation`; the fingerprint is what `fingerprintOf` makes of the body.
  module _ (hold_ttl : ℕ) (new_id : Option String) (fingerprint : ReserveBody → Option String) where
    abbrev pub reserve_keyed :
        String
        → ReserveBody
        → Option String
        → World (List Reservation)
        → Session (List Reservation)
        → Handled Reservation
    reserve_keyed key body none w s = (internal, s)
    reserve_keyed key body (some print) w s =
        let out : Result DomainError Reservation × Session (List Reservation) =
          reserve hold_ttl new_id
            (record {
              resource_id = body.resource_id;
              booking_id = body.booking_id;
              starts_at = body.starts_at;
              ends_at = body.ends_at;
              idempotency = record { key = key; fingerprint = print };
            })
            w s in
        (answer 201 create_problem out.0, out.1)

    unfoldable pub create_reservation :
        String
        → Option ReserveBody
        → World (List Reservation)
        → Session (List Reservation)
        → Handled Reservation
    create_reservation key none w s = (validation_failed, s)
    create_reservation key (some body) w s =
        if validate_idempotency_key key == ""
        then reserve_keyed key body (fingerprint body) w s
        else (validation_failed, s)

  unfoldable pub get_reservation :
      String → World (List Reservation) → Session (List Reservation) → Handled Reservation
  get_reservation id w s = (answer 200 get_problem (get id w s).0, (get id w s).1)

  unfoldable pub confirm_reservation_api :
      Time → String → World (List Reservation) → Session (List Reservation) → Handled Reservation
  confirm_reservation_api now id w s = (
    answer 200 confirm_problem (confirm_reservation now id w s).0,
    (confirm_reservation now id w s).1,
  )

  -- `ReleaseReservation`: a reason outside the enum is an internal error.
  unfoldable pub release_reservation_api :
      Time
      → String
      → String
      → World (List Reservation)
      → Session (List Reservation)
      → Handled Reservation
  release_reservation_api now id reason w s = (
    answer 200 get_problem (release_reservation now id reason w s).0,
    (release_reservation now id reason w s).1,
  )

unfoldable pub list_slots :
    String
    → Time
    → Time
    → World (List Reservation)
    → Session (List Reservation)
    → Handled (List Window)
list_slots resource_id from to w s = (
  slots_problem (busy_windows resource_id from to w s).0,
  (busy_windows resource_id from to w s).1,
)
