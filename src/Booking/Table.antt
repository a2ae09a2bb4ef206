-- ===== src/Booking/Table.antt =====
-- The SQL of services/booking/internal/infra/store.go on the table of
-- services/booking/migrations/0001_booking.sql, with its constraints.
use wakewake.Prelude.{
  String, Bool, true, false, not, Option, none, some, List, ◌∷◌, if◌then◌else◌, ltb, leb,
}
use wakewake.Prelude.Int.{pos, ltb_ℤ}
use wakewake.Contracts.Events.{Time, held}
use wakewake.Platform.Session.{Db, no_rows, Result, ok, err}
use wakewake.Platform.Tx.{unique_violation, check_violation}
use wakewake.Platform.Keyed.{Engine, refuse, find_by, replace_by}
use wakewake.Booking.Lifecycle.{BookingError, Booking, is_held, is_cancelled, is_valid_reason}

abbrev pub Tables : Type 0
Tables = Db (List Booking)

abbrev pub booking_id : Booking → String
booking_id b = b.id

abbrev pub is_some {ℓ} : {A : Type ℓ} → Option A → Bool
is_some none = false
is_some (some _) = true

-- The two sides of a biconditional CHECK.
abbrev pub iff : Bool → Bool → Bool
iff true b = b
iff false b = not b

abbrev pub fits_note : Engine → Option String → Bool
fits_note g none = true
fits_note g (some n) = leb (g.char_length n) 500

-- The CHECKs of the table, by the name of the first that a row fails.
unfoldable pub failed_check : Engine → Booking → Option String
failed_check g b =
    if ltb_ℤ b.party_size (pos 1)
    then some "booking_party_size_check"
    else (if ltb_ℤ b.total_minor (pos 0)
        then some "booking_total_minor_check"
        else (if not (g.is_currency b.currency)
            then some "booking_currency_check"
            else (if not (fits_note g b.cancellation_reason)
                then some "booking_cancellation_reason_check"
                else (if not (ltb b.starts_at b.ends_at)
                    then some "booking_window_bounded"
                    else (if not (iff (is_held b.status) (is_some b.hold_expires_at))
                        then some "booking_held_iff_expiry"
                        else (if not (iff (is_cancelled b.status) (is_some b.cancel_reason))
                            then some "booking_cancelled_iff_reason"
                            else none))))))

-- The row that the INSERT makes.
abbrev pub held_row : Booking → Time → Booking
held_row b now = record b {
  status = held;
  cancel_reason = none;
  cancellation_reason = none;
  created_at = now;
  updated_at = now;
}

-- insertSQL
unfoldable pub insert_row :
    Engine → Booking → Time → Tables → Result BookingError (Booking × Tables)
insert_row g b now db = elim (failed_check g (held_row b now)) [
  | some constraint ↦ refuse check_violation constraint
  | none ↦ elim (find_by booking_id b.id db.own) [
    | some _ ↦ refuse unique_violation "booking_pkey"
    | none ↦ ok (held_row b now, record db { own = held_row b now ∷ db.own })
  ]
]

-- selectSQL and selectForUpdateSQL
unfoldable pub select_row : String → Time → Tables → Result BookingError (Booking × Tables)
select_row id now db = elim (find_by booking_id id db.own) [
  | none ↦ err no_rows
  | some b ↦ ok (b, db)
]

abbrev pub set_columns : Booking → Booking → Booking
set_columns next old = record old {
  status = next.status;
  reservation_id = next.reservation_id;
  hold_expires_at = next.hold_expires_at;
  cancel_reason = next.cancel_reason;
  cancellation_reason = next.cancellation_reason;
  updated_at = next.updated_at;
}

-- A value outside the enum `booking_cancel_reason` is refused by the cast.
abbrev pub is_reason_column : Option String → Bool
is_reason_column none = true
is_reason_column (some r) = is_valid_reason r

-- updateSQL
unfoldable pub update_row :
    Engine → Booking → Time → Tables → Result BookingError (Booking × Tables)
update_row g next now db = elim (find_by booking_id next.id db.own) [
  | none ↦ err no_rows
  | some old ↦
      if not (is_reason_column next.cancel_reason)
      then refuse "22P02" ""
      else elim (failed_check g (set_columns next old)) [
        | some constraint ↦ refuse check_violation constraint
        | none ↦ ok (
          set_columns next old,
          record db { own = replace_by booking_id (set_columns next old) db.own },
        )
      ]
]
