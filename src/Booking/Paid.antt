-- ===== src/Booking/Paid.antt =====
-- What a payment makes of a booking.
use wakewake.Prelude.{
  ◌≡◌, ◌⊎◌, inl, inr, arith, String, true, false, some, List, Bool-cases, Option-cases,
}
use wakewake.Contracts.Events.{Time, Emission}
use wakewake.Platform.Session.{ok}
use wakewake.Platform.Rules.{Result-cases}
use wakewake.Booking.Lifecycle.{Booking, is_held, is_confirmed, is_cancelled, confirm, cancel}
use wakewake.Booking.Service.{Remotes, confirm_on_payment}

-- Where the confirmation of a paid booking succeeds, the booking is held no more, and what it was
-- sold for and to whom is as before; and it was confirmed before, or it is cancelled, or Availability
-- confirms its reservation.
pub confirm_on_payment_lem :
    (remotes : Remotes) (payment_id : String) (now : Time) (b next : Booking) (es : List Emission)
    → confirm_on_payment remotes payment_id now b ≡ ok (next, es)
    → (is_held next.status ≡ false)
      × (next.id ≡ b.id)
      × (next.customer_id ≡ b.customer_id)
      × (next.total_minor ≡ b.total_minor)
      × (next.currency ≡ b.currency)
      × (next.reservation_id ≡ b.reservation_id)
      × ((is_confirmed b.status ≡ true)
          ⊎ ((is_cancelled next.status ≡ true)
              ⊎ ((id : String) × (b.reservation_id ≡ some id)
                  × (remotes.confirm_reservation id ≡ ok tt))))
unfolding confirm_on_payment confirm cancel
confirm_on_payment_lem remotes payment_id now b next es h = (
  ground arith,
  ground arith,
  ground arith,
  ground arith,
  ground arith,
  ground arith,
  elim (Option-cases b.reservation_id) [
    | inl e ↦ ground arith
    | inr (id, e) ↦ elim (Result-cases (remotes.confirm_reservation id)) [
      | inl (tt, q) ↦ elim (Bool-cases (is_held b.status)) [
        | inl _ ↦ inr (inr (id, e, q))
        | inr _ ↦ ground arith
      ]
      | inr (x, q) ↦ ground arith
    ]
  ],
)
