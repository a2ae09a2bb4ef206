-- ===== src/Availability/Rows.antt =====
-- The rows that the constraints of services/availability/migrations/0001_reservation.sql let in.
use wakewake.Prelude.{
  ℕ, ◌+◌, ◌≤◌, ◌<◌, ◌≡◌, refl, ◌≢◌, inl, inr, arith, String, ◌==◌, Bool, true, false, ◌&&◌, none,
  some, List, [], ◌∷◌, if◌then◌else◌, ltb, leb, countb, All, eq_iff, Bool-cases,
}
use wakewake.Contracts.Events.{Time}
use wakewake.Availability.Reservation.{is_live, Reservation}
use wakewake.Availability.Table.{
  find, clashes, is_excluded, held_iff_expiry, released_iff_reason, replace,
}

pub record IsRow (r : Reservation) : Type 0 where
  pub window : r.starts_at < r.ends_at
  pub expiry : held_iff_expiry r.status r.expires_at ≡ true
  pub reason : released_iff_reason r.status r.released_reason ≡ true

-- Two rows differ in their ids and do not clash.
abbrev pub Apart : Reservation → Reservation → Type 0
Apart a b = (a.id ≢ b.id) × (clashes a b ≡ false)

abbrev pub IsSound : List Reservation → Type 0
IsSound [] = Unit
IsSound (r ∷ rs) = IsRow r × All (Apart r) rs × IsSound rs

-- The rows that hold a resource at an instant, and how many there are.
abbrev pub occupies : String → Time → Reservation → Bool
occupies resource_id t r =
    r.resource_id == resource_id && is_live r.status && leb r.starts_at t && ltb t r.ends_at

abbrev pub occupancy : String → Time → List Reservation → ℕ
occupancy resource_id t = countb (occupies resource_id t)

-- What clashes with nothing that occupies: a row that occupies excludes the others.
occupies-Apart :
    (res : String) (t : Time) (a b : Reservation)
    → occupies res t a ≡ true
    → clashes a b ≡ false
    → occupies res t b ≡ false
occupies-Apart res t a b h k =
    ground (
      arith,
      eq_iff a.resource_id res,
      eq_iff b.resource_id res,
      eq_iff a.resource_id b.resource_id,
    )

occupancy_zero :
    (res : String) (t : Time) (a : Reservation) (rs : List Reservation)
    → occupies res t a ≡ true
    → All (Apart a) rs
    → occupancy res t rs ≡ 0
occupancy_zero res t a [] h k = refl
occupancy_zero res t a (r ∷ rs) h k =
    rw (occupies-Apart res t a r h k.0.1) (omega (arith, occupancy_zero res t a rs h k.1))

pub occupancy-le_one :
    (res : String) (t : Time) (rs : List Reservation) → IsSound rs → occupancy res t rs ≤ 1
occupancy-le_one res t [] h = omega arith
occupancy-le_one res t (r ∷ rs) h = elim (Bool-cases (occupies res t r)) [
  | inl e ↦ rw e (omega (arith, occupancy_zero res t r rs e h.1))
  | inr e ↦ rw e (omega (arith, occupancy-le_one res t rs h.2))
]

clashes_sym : (a b : Reservation) → clashes a b ≡ false → clashes b a ≡ false
clashes_sym a b h =
    ground (arith, eq_iff a.resource_id b.resource_id, eq_iff b.resource_id a.resource_id)

-- A row whose id is new, and that is not excluded, is apart from all.
pub Apart-of_new :
    (a : Reservation) (rs : List Reservation)
    → find a.id rs ≡ none
    → is_excluded a rs ≡ false
    → All (Apart a) rs
unfolding find
Apart-of_new a [] f e = tt
Apart-of_new a (r ∷ rs) f e =
    let differ : a.id ≢ r.id = ground (arith, eq_iff r.id a.id) in
    (
      (differ, ground (arith, eq_iff r.id a.id)),
      Apart-of_new a rs (ground (arith, eq_iff r.id a.id)) (ground (arith, eq_iff r.id a.id)),
    )

-- So is one that takes the place of a row with its id.
Apart-of_same :
    (a r : Reservation) (rs : List Reservation)
    → r.id ≡ a.id
    → All (Apart r) rs
    → is_excluded a rs ≡ false
    → All (Apart a) rs
Apart-of_same a r [] i h e = tt
Apart-of_same a r (x ∷ rs) i h e = (
  (ground arith, ground (arith, eq_iff x.id a.id)),
  Apart-of_same a r rs i h.1 (ground (arith, eq_iff x.id a.id)),
)

Apart-replace :
    (r a : Reservation) (rs : List Reservation)
    → Apart r a
    → All (Apart r) rs
    → All (Apart r) (replace a rs)
Apart-replace r a [] h k = tt
Apart-replace r a (x ∷ rs) h k = ground (arith, Apart-replace r a rs h k.1)

pub IsSound-replace :
    (a : Reservation) (rs : List Reservation)
    → IsSound rs
    → IsRow a
    → is_excluded a rs ≡ false
    → IsSound (replace a rs)
IsSound-replace a [] h k e = tt
IsSound-replace a (r ∷ rs) h k e = elim (Bool-cases (r.id == a.id)) [
  | inl same ↦ rw same (k, Apart-of_same a r rs ((eq_iff r.id a.id).0 same) h.1 (ground arith), h.2)
  | inr differ ↦
      let apart : Apart r a = (ground (arith, eq_iff r.id a.id), clashes_sym a r (ground arith)) in
      rw differ (h.0, Apart-replace r a rs apart h.1, IsSound-replace a rs h.2 k (ground arith))
]

pub find-IsRow :
    (id : String) (rs : List Reservation) {r : Reservation}
    → IsSound rs
    → find id rs ≡ some r
    → IsRow r
unfolding find
find-IsRow id [] h e = absurd (ground arith)
find-IsRow id (x ∷ rs) {r} h e = ground (arith, find-IsRow id rs {r = r} h.2)

pub find-id :
    (id : String) (rs : List Reservation) {r : Reservation} → find id rs ≡ some r → r.id ≡ id
unfolding find
find-id id [] e = absurd (ground arith)
find-id id (x ∷ rs) {r} e = ground (arith, eq_iff x.id id, find-id id rs {r = r})

-- A count after a row has taken another's place.
pub countb-replace :
    (p : Reservation → Bool) (a : Reservation) (rs : List Reservation) {old : Reservation}
    → find a.id rs ≡ some old
    → countb p (replace a rs) + (if p old then 1 else 0) ≡ countb p rs + (if p a then 1 else 0)
unfolding find
countb-replace p a [] e = absurd (ground arith)
countb-replace p a (x ∷ rs) {old} e = elim (Bool-cases (x.id == a.id)) [
  | inl same ↦ let it : x ≡ old = ground arith in rw (same, ← it) (omega arith)
  | inr differ ↦
      let later : find a.id rs ≡ some old = ground arith in
      rw differ (omega (arith, countb-replace p a rs later))
]

-- An id that some row has is still found after a write.
pub find-replace-ne_none :
    (id : String) (a : Reservation) (rs : List Reservation)
    → find id rs ≢ none
    → find id (replace a rs) ≢ none
unfolding find
find-replace-ne_none id a [] h = h
find-replace-ne_none id a (x ∷ rs) h =
    ground (arith, eq_iff x.id id, eq_iff a.id id, eq_iff x.id a.id, find-replace-ne_none id a rs)
