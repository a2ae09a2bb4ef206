-- ===== src/Examples/Remotes.antt =====
-- A hold of a taken window, over Availability's API.
use wakewake.Prelude.{◌≡◌, refl, String, ◌==◌, Bool, true, Option, none, some, List, [], ◌∷◌}
use wakewake.Platform.Session.{domain, Result, ok, err, Session, resumed}
use wakewake.Platform.Idempotency.{find_key}
use wakewake.Platform.Http.{validate_idempotency_key}
use wakewake.Availability.Reservation as Av
use wakewake.Availability.Table.{find}
use wakewake.Availability.Answers.{IsFine}
use wakewake.Availability.Api.{
  ReserveBody, answer, create_problem, confirm_problem, to_api, create_reservation,
}
use wakewake.Booking.Lifecycle.{slot_unavailable}
use wakewake.Booking.Clients.{read_hold, read_confirm}
use wakewake.Booking.Remote.{
  hold_outcome, confirm_outcome, hold_reads, confirm_reads, taken_hold_refused,
}
use wakewake.Examples.Worlds.{quiet, start_of}
use wakewake.Examples.Transactions.{reservation}

abbrev any_id : String → Bool
any_id id = true

abbrev found : Result Av.DomainError Av.Reservation
found = ok reservation

every_id : (r : Av.Reservation) → to_api any_id r ≡ some r
unfolding to_api
every_id r = refl

hold_reads_example :
    read_hold 1_000 900 (some (answer any_id 201 create_problem found))
    ≡ hold_outcome 1_000 900 found
hold_reads_example = hold_reads any_id 1_000 900 found (λ r e. every_id r)

confirm_reads_example :
    read_confirm (some (answer any_id 200 confirm_problem found)) ≡ confirm_outcome found
confirm_reads_example = confirm_reads any_id found (λ r e. every_id r)

-- The court is held by another booking, for the same window.
abbrev busy : Session (List Av.Reservation)
busy = start_of (record reservation { id = "r-0"; booking_id = "b-0" } ∷ [])

abbrev body : ReserveBody
body = record { resource_id = "court"; booking_id = "b-1"; starts_at = 5_000; ends_at = 6_000 }

abbrev candidate : Av.Reservation
candidate = record reservation { expires_at = Option.none; created_at = 0; updated_at = 0 }

abbrev key : String
key = "key-00001"

quiet-IsFine : IsFine quiet
quiet-IsFine n = refl

key_is_usable : validate_idempotency_key key == "" ≡ true
unfolding validate_idempotency_key
key_is_usable = refl

candidate_is_made : Av.new_reservation "r-1" "court" "b-1" 5_000 6_000 ≡ ok candidate
unfolding Av.new_reservation
candidate_is_made = refl

key_is_new : find_key key (resumed quiet busy).db.keys ≡ none
unfolding find_key
key_is_new = refl

id_is_new : find "r-1" (resumed quiet busy).db.own ≡ none
unfolding find
id_is_new = refl

taken_hold_refused_example :
    (read_hold 1_000 900 (
        some
          (create_reservation any_id 900 (some "r-1") (λ b. some "f") key (some body) quiet busy).0)
      ≡ err (domain slot_unavailable))
    × ((create_reservation any_id 900 (some "r-1") (λ b. some "f") key (some body) quiet busy).1.db
        ≡ (resumed quiet busy).db)
taken_hold_refused_example =
    taken_hold_refused any_id 1_000 900 900 "r-1" key "f" body candidate (λ b. some "f") quiet busy
      quiet-IsFine key_is_usable refl candidate_is_made key_is_new id_is_new refl
