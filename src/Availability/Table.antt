-- ===== src/Availability/Table.antt =====
-- The SQL of services/availability/internal/infra/store.go on the table of
-- services/availability/migrations/0001_reservation.sql, with its constraints.
use wakewake.Prelude.{
  ℕ, ◌+◌, String, ◌==◌, Bool, true, false, not, ◌&&◌, Option, none, some, List, [], ◌∷◌,
  if◌then◌else◌, ltb, leb, anyb, take, filterb, map,
}
use wakewake.Contracts.Events.{Time}
use wakewake.Platform.Session.{Db, Error, pg, no_rows, Result, ok, err}
use wakewake.Platform.Tx.{exclusion_violation, unique_violation, check_violation}
use wakewake.Availability.Reservation.{
  DomainError, Status, held, released, is_live, is_held, is_valid_reason, Window, Reservation,
}

abbrev pub Tables : Type 0
Tables = Db (List Reservation)

unfoldable pub find : String → List Reservation → Option Reservation
find id [] = none
find id (r ∷ rs) = if r.id == id then some r else find id rs

-- `during && during` of two ranges that are not empty.
abbrev pub overlaps : Time → Time → Time → Time → Bool
overlaps from to from' to' = ltb from to' && ltb from' to

-- What reservation_no_overlap forbids of two rows: EXCLUDE (resource_id =, during &&) WHERE
-- status <> 'released'.
abbrev pub clashes : Reservation → Reservation → Bool
clashes a b =
    is_live a.status
    && is_live b.status
    && a.resource_id == b.resource_id
    && overlaps a.starts_at a.ends_at b.starts_at b.ends_at

-- A row is compared with every other row.
abbrev pub is_excluded : Reservation → List Reservation → Bool
is_excluded a = anyb (λ b. not (b.id == a.id) && clashes a b)

abbrev pub violates {ℓ} : {A : Type ℓ} → String → String → (Error DomainError → A) → A
violates code constraint f = f (pg (record { code = code; constraint = constraint }))

abbrev pub held_iff_expiry : Status → Option Time → Bool
held_iff_expiry held (some _) = true
held_iff_expiry held none = false
held_iff_expiry _ (some _) = false
held_iff_expiry _ none = true

abbrev pub released_iff_reason : Status → Option String → Bool
released_iff_reason released (some _) = true
released_iff_reason released none = false
released_iff_reason _ (some _) = false
released_iff_reason _ none = true

-- The row that the INSERT makes of a reservation: held until the database's clock passes the TTL.
abbrev pub held_row : Reservation → ℕ → Time → Reservation
held_row r ttl now = record r {
  status = held;
  expires_at = some (now + ttl);
  released_reason = none;
  created_at = now;
  updated_at = now;
}

-- INSERT INTO reservation. `tstzrange` itself refuses bounds that are the wrong way round.
unfoldable pub insert_row :
    Reservation → ℕ → Time → Tables → Result DomainError (Reservation × Tables)
insert_row r ttl now db =
    if ltb r.ends_at r.starts_at
    then violates "22000" "" err
    else (if not (ltb r.starts_at r.ends_at)
        then violates check_violation "reservation_window_not_empty" err
        else elim (find r.id db.own) [
          | some _ ↦ violates unique_violation "reservation_pkey" err
          | none ↦
              if is_excluded (held_row r ttl now) db.own
              then violates exclusion_violation "reservation_no_overlap" err
              else ok (held_row r ttl now, record db { own = held_row r ttl now ∷ db.own })
        ])

-- SELECT ... WHERE id = $1, FOR UPDATE or not.
unfoldable pub select_row : String → Time → Tables → Result DomainError (Reservation × Tables)
select_row id now db = elim (find id db.own) [ none ↦ err no_rows | some r ↦ ok (r, db) ]

abbrev pub replace : Reservation → List Reservation → List Reservation
replace row [] = []
replace row (r ∷ rs) = if r.id == row.id then row ∷ rs else r ∷ replace row rs

-- The columns that the UPDATE sets, on the row that it finds.
abbrev pub set_columns : Reservation → Reservation → Reservation
set_columns next old = record old {
  status = next.status;
  expires_at = next.expires_at;
  released_reason = next.released_reason;
  updated_at = next.updated_at;
}

-- A value outside the enum `release_reason` is refused by the cast.
abbrev pub is_reason_column : Option String → Bool
is_reason_column none = true
is_reason_column (some r) = is_valid_reason r

-- UPDATE reservation SET ... WHERE id = $1
unfoldable pub update_row : Reservation → Time → Tables → Result DomainError (Reservation × Tables)
update_row next now db = elim (find next.id db.own) [
  | none ↦ err no_rows
  | some old ↦
      let row = set_columns next old in
      if not (is_reason_column row.released_reason)
      then violates "22P02" "" err
      else (if not (held_iff_expiry row.status row.expires_at)
          then violates check_violation "reservation_held_iff_expiry" err
          else (if not (released_iff_reason row.status row.released_reason)
              then violates check_violation "reservation_released_iff_reason" err
              else (if is_excluded row db.own
                  then violates exclusion_violation "reservation_no_overlap" err
                  else ok (row, record db { own = replace row db.own }))))
]

module _ {A : Type 0} (key : A → Time) where
  -- ORDER BY a time.
  unfoldable pub insert_by : A → List A → List A
  insert_by x [] = x ∷ []
  insert_by x (y ∷ ys) = if leb (key x) (key y) then x ∷ y ∷ ys else y ∷ insert_by x ys

  unfoldable pub order_by : List A → List A
  order_by [] = []
  order_by (x ∷ xs) = insert_by x (order_by xs)

-- busySQL
abbrev pub is_busy : String → Time → Time → Reservation → Bool
is_busy resource_id from to r =
    r.resource_id == resource_id && is_live r.status && overlaps r.starts_at r.ends_at from to

unfoldable pub select_busy : String → Time → Time → Time → Tables → Result DomainError (List Window)
select_busy resource_id from to now db = ok (
    order_by (λ (v : Window). v.starts_at)
      (map (λ (r : Reservation). record { starts_at = r.starts_at; ends_at = r.ends_at })
        (filterb (is_busy resource_id from to) db.own)))

abbrev pub expiry_of : Reservation → Time
expiry_of r = elim r.expires_at [ none ↦ 0 | some t ↦ t ]

-- `status = 'held' AND expires_at <= now()`; a NULL is no match.
abbrev pub is_expired : Time → Reservation → Bool
is_expired now r = is_held r.status && elim r.expires_at [ none ↦ false | some t ↦ leb t now ]

-- expiredHoldsSQL
unfoldable pub select_expired : ℕ → Time → Tables → Result DomainError (List String)
select_expired limit now db = ok (
    map (λ (r : Reservation). r.id)
      (take limit (order_by expiry_of (filterb (is_expired now) db.own))))
