-- ===== src/Examples/Answers.antt =====
-- A request that is repeated, a key that is used again, a window that is taken, a hold that runs out,
-- and a cancellation that names a reservation of another booking.
use wakewake.Prelude.{
  ◌≤◌, ◌<◌, ◌≡◌, refl, ◌≢◌, ◌⊎◌, arith, String, ◌==◌, false, Option, some, List, [], ◌∷◌, eq_iff,
}
use wakewake.Contracts.Events.{Time}
use wakewake.Platform.Session.{KeyRow, domain, ok, err, Session, resumed}
use wakewake.Platform.Idempotency.{find_key}
use wakewake.Platform.Inbox.{process}
use wakewake.Availability.Reservation.{
  Reservation, slot_unavailable, idempotency_key_reuse, release_if_expired, held,
}
use wakewake.Availability.Table.{find}
use wakewake.Availability.Store.{Claim, insert}
use wakewake.Availability.Consumer.{handle_cancelled}
use wakewake.Availability.Answers.{
  IsFine, insert_replay, insert_reuse, insert_taken, release_if_expired_lem, run_out, run_out_fact,
}
use wakewake.Availability.Compensation.{stray_compensation}
use wakewake.Examples.Worlds.{quiet, start_of}
use wakewake.Examples.Transactions.{reservation, envelope}

differ : (a b : String) → (a == b) ≡ false → a ≢ b
differ a b h = ground (arith, eq_iff a b)

abbrev first : Reservation
first = record reservation { id = "r-0"; booking_id = "b-0" }

abbrev known : KeyRow
known = record { key = "k-0"; request_fingerprint = "f"; resource_id = "r-0" }

-- One reservation, and the key that made it.
abbrev busy : Session (List Reservation)
busy = record (start_of (first ∷ [])) {
  db = record (start_of (first ∷ [])).db { keys = known ∷ [] };
}

abbrev same_claim : Claim
same_claim = record { key = "k-0"; fingerprint = "f" }

abbrev other_claim : Claim
other_claim = record { key = "k-0"; fingerprint = "g" }

abbrev new_claim : Claim
new_claim = record { key = "k-1"; fingerprint = "f" }

quiet-IsFine : IsFine quiet
quiet-IsFine n = refl

known_is_found : find_key "k-0" (resumed quiet busy).db.keys ≡ some known
unfolding find_key
known_is_found = refl

new_is_not_found : find_key "k-1" (resumed quiet busy).db.keys ≡ Option.none
unfolding find_key
new_is_not_found = refl

first_is_found : find "r-0" (resumed quiet busy).db.own ≡ some first
unfolding find
first_is_found = refl

reservation_is_not_found : find "r-1" (resumed quiet busy).db.own ≡ Option.none
unfolding find
reservation_is_not_found = refl

insert_replay_example :
    ((insert same_claim reservation 900 quiet busy).0 ≡ ok first)
    × ((insert same_claim reservation 900 quiet busy).1.db ≡ (resumed quiet busy).db)
insert_replay_example =
    insert_replay quiet busy same_claim reservation 900 known first quiet-IsFine
      (differ "k-0" "" refl) known_is_found refl first_is_found

insert_reuse_example :
    ((insert other_claim reservation 900 quiet busy).0 ≡ err (domain idempotency_key_reuse))
    × ((insert other_claim reservation 900 quiet busy).1.db ≡ (resumed quiet busy).db)
insert_reuse_example =
    insert_reuse quiet busy other_claim reservation 900 known quiet-IsFine (differ "k-0" "" refl)
      known_is_found (differ "f" "g" refl)

insert_taken_example :
    ((insert new_claim reservation 900 quiet busy).0 ≡ err (domain slot_unavailable))
    × ((insert new_claim reservation 900 quiet busy).1.db ≡ (resumed quiet busy).db)
insert_taken_example =
    insert_taken quiet busy new_claim reservation 900 quiet-IsFine (differ "k-1" "" refl)
      new_is_not_found (omega arith) reservation_is_not_found refl

release_if_expired_lem_example :
    ((t : Time) × (first.status ≡ held)
      × (first.expires_at ≡ some t)
      × (t ≤ 3_000)
      × (release_if_expired 3_000 first ≡ ok (run_out 3_000 first, run_out_fact first ∷ [])))
    ⊎ (((first.status ≢ held)
          ⊎ ((first.expires_at ≡ Option.none)
              ⊎ ((t : Time) × (first.expires_at ≡ some t) × (3_000 < t))))
        × (release_if_expired 3_000 first ≡ ok (first, [])))
release_if_expired_lem_example = release_if_expired_lem 3_000 first

stray_compensation_example :
    (process "availability"
      (record envelope { payload = record envelope.payload { reservation_id = some "r-0" } })
      (handle_cancelled some 1_600)
      quiet
      busy).1.db
    ≡ (resumed quiet busy).db
stray_compensation_example =
    stray_compensation some 1_600
      (record envelope { payload = record envelope.payload { reservation_id = some "r-0" } }) quiet
      busy "availability" "r-0" (record envelope.payload { reservation_id = some "r-0" }) first refl
      refl (differ "r-0" "" refl) first_is_found (differ "b-0" "b-1" refl)
