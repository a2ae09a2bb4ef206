-- ===== src/Availability/Answers.antt =====
-- What the service answers, on the branches that matter to a caller: a request that is repeated, a
-- key that is used again, a window that is taken, and a hold that runs out.
use wakewake.Prelude.{
  ℕ, suc, ◌≤◌, ltb, Option-cases, ◌<◌, ◌≡◌, refl, ◌≢◌, ◌⊎◌, inl, inr, arith, true, none, some, List,
  [], ◌∷◌, eq_iff, Bool-cases,
}
use wakewake.Contracts.Events.{Time, Emission, released_payload, reservation_released_event}
use wakewake.Platform.Session.{
  KeyRow, Error, pg, domain, ok, err, fine, World, Session, resumed, sql,
}
use wakewake.Platform.Tx.{within_tx, exclusion_violation}
use wakewake.Platform.Idempotency.{find_key, upsert_key, claim}
use wakewake.Availability.Reservation.{
  DomainError, Status, held, confirmed, slot_unavailable, idempotency_key_reuse, released,
  Reservation, release, release_if_expired, is_valid_reason,
}
use wakewake.Availability.Table.{Tables, find, is_excluded, held_row, insert_row, select_row}
use wakewake.Availability.Store.{Claim, insert_claimed, insert_tx, insert, translate_insert}

-- The driver answers every call.
abbrev pub IsFine : World (List Reservation) → Type 0
IsFine w = (n : ℕ) → (w.calls n).outcome ≡ fine

abbrev overlap_error : Error DomainError
overlap_error = pg (record { code = exclusion_violation; constraint = "reservation_no_overlap" })

insert_row-taken :
    (r : Reservation) (ttl : ℕ) (now : Time) (db : Tables)
    → r.starts_at < r.ends_at
    → find r.id db.own ≡ none
    → is_excluded (held_row r ttl now) db.own ≡ true
    → insert_row r ttl now db ≡ err overlap_error
unfolding insert_row
insert_row-taken r ttl now db window fresh taken = ground arith

translated : translate_insert overlap_error ≡ domain slot_unavailable
unfolding translate_insert
translated = refl

module _ (w : World (List Reservation)) (s : Session (List Reservation)) (c : Claim)
    (r : Reservation) (ttl : ℕ) where
  -- With a driver that answers, a request with a known key and the same fingerprint is answered with
  -- the reservation that the key stands for, as it now is, and changes nothing.
  pub insert_replay :
      (k : KeyRow) (first : Reservation)
      → IsFine w
      → c.key ≢ ""
      → find_key c.key (resumed w s).db.keys ≡ some k
      → k.request_fingerprint ≡ c.fingerprint
      → find k.resource_id (resumed w s).db.own ≡ some first
      → ((insert c r ttl w s).0 ≡ ok first) × ((insert c r ttl w s).1.db ≡ (resumed w s).db)
  unfolding insert insert_tx insert_claimed within_tx claim sql upsert_key select_row
  insert_replay k first fine_ named known same there = ground (
    arith,
    fine_ s.step,
    fine_ (suc s.step),
    fine_ (suc (suc s.step)),
    fine_ (suc (suc (suc s.step))),
    eq_iff c.key "",
    eq_iff k.request_fingerprint c.fingerprint,
  )

  -- With a driver that answers, a known key with another fingerprint is refused, and nothing changes.
  pub insert_reuse :
      (k : KeyRow)
      → IsFine w
      → c.key ≢ ""
      → find_key c.key (resumed w s).db.keys ≡ some k
      → k.request_fingerprint ≢ c.fingerprint
      → ((insert c r ttl w s).0 ≡ err (domain idempotency_key_reuse))
        × ((insert c r ttl w s).1.db ≡ (resumed w s).db)
  unfolding insert insert_tx insert_claimed within_tx claim sql upsert_key select_row
  insert_reuse k fine_ named known other = ground (
    arith,
    fine_ s.step,
    fine_ (suc s.step),
    fine_ (suc (suc s.step)),
    eq_iff c.key "",
    eq_iff k.request_fingerprint c.fingerprint,
  )

  -- With a driver that answers, a new request whose window a live reservation of the resource
  -- overlaps is refused as unavailable, and nothing changes: its key stays free.
  pub insert_taken :
      IsFine w
      → c.key ≢ ""
      → find_key c.key (resumed w s).db.keys ≡ none
      → r.starts_at < r.ends_at
      → find r.id (resumed w s).db.own ≡ none
      → is_excluded (held_row r ttl (resumed w s).now) (resumed w s).db.own ≡ true
      → ((insert c r ttl w s).0 ≡ err (domain slot_unavailable))
        × ((insert c r ttl w s).1.db ≡ (resumed w s).db)
  unfolding insert insert_tx insert_claimed within_tx claim sql upsert_key
  insert_taken fine_ named new window fresh taken =
      let row : KeyRow = record {
        key = c.key;
        request_fingerprint = c.fingerprint;
        resource_id = r.id;
      } in
      let db = (resumed w s).db in
      ground (
        arith,
        insert_row-taken r ttl (resumed w s).now (record db { keys = row ∷ db.keys }) window fresh
            taken,
        translated,
        fine_ s.step,
        fine_ (suc s.step),
        fine_ (suc (suc s.step)),
        eq_iff c.key "",
      )

held_or : (s : Status) → (s ≡ held) ⊎ (s ≢ held)
held_or held = inl refl
held_or confirmed = inr (λ h. ground (arith, h))
held_or released = inr (λ h. ground (arith, h))

-- What a hold that runs out becomes, and the fact that tells it.
abbrev pub run_out : Time → Reservation → Reservation
run_out now r = record r {
  status = released;
  released_reason = some "hold_expired";
  expires_at = none;
  updated_at = now;
}

abbrev pub run_out_fact : Reservation → Emission
run_out_fact r = record {
  event = reservation_released_event;
  aggregate_id = r.id;
  payload = released_payload (record {
    reservation_id = r.id;
    resource_id = r.resource_id;
    booking_id = r.booking_id;
    starts_at = r.starts_at;
    ends_at = r.ends_at;
    reason = "hold_expired";
  });
}

-- The sweep's transition releases a reservation exactly where it is held and its expiry is not after
-- now, for the reason hold_expired, and tells it by one ReservationReleased of the reservation's ids
-- and window; every other reservation, one whose hold is not over yet too, it leaves as it is.
pub release_if_expired_lem :
    (now : Time) (r : Reservation)
    → ((t : Time) × (r.status ≡ held)
        × (r.expires_at ≡ some t)
        × (t ≤ now)
        × (release_if_expired now r ≡ ok (run_out now r, run_out_fact r ∷ [])))
      ⊎ (((r.status ≢ held)
            ⊎ ((r.expires_at ≡ none) ⊎ ((t : Time) × (r.expires_at ≡ some t) × (now < t))))
          × (release_if_expired now r ≡ ok (r, [])))
unfolding release_if_expired release is_valid_reason
release_if_expired_lem now r = elim (held_or r.status) [
  | inr free ↦ inr (inl free, ground (arith, free, held_or r.status))
  | inl it ↦ elim (Option-cases r.expires_at) [
    | inl never ↦ inr (inr (inl never), ground (arith, it, never))
    | inr (t, at_) ↦ elim (Bool-cases (ltb now t)) [
      | inl early ↦ inr (inr (inr (t, at_, ground (arith, early))), ground (arith, it, at_, early))
      | inr due ↦ inl (t, it, at_, ground (arith, due), ground (arith, it, at_, due))
    ]
  ]
]
