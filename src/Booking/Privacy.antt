-- ===== src/Booking/Privacy.antt =====
-- services/booking's API: a customer reaches no booking of another.
use wakewake.Prelude.{◌≡◌, ◌≢◌, arith, String, Bool, Option, some, List, eq_iff}
use wakewake.Contracts.Events.{Time}
use wakewake.Platform.Keyed.{Engine}
use wakewake.Platform.Session.{ok, World, Session}
use wakewake.Platform.Http.{problem}
use wakewake.Booking.Lifecycle.{Booking}
use wakewake.Booking.Store.{by_id}
use wakewake.Booking.Service.{get, cancel_booking}
use wakewake.Booking.Api.{get_booking, cancel_booking_api}

-- A booking of another customer is neither shown nor cancelled: both requests are answered with 403,
-- and do no more than the query that finds it.
pub foreign_booking_refused :
    (is_uuid : String → Bool) (g : Engine) (now : Time) (customer id : String)
    (remark : Option String) (w : World (List Booking)) (s : Session (List Booking)) {b : Booking}
    → (by_id id w s).0 ≡ ok b
    → b.customer_id ≢ customer
    → (get_booking is_uuid (some customer) id w s ≡ (problem 403 "unauthorized", (by_id id w s).1))
      × (cancel_booking_api is_uuid g now (some customer) id remark w s
          ≡ (problem 403 "unauthorized", (by_id id w s).1))
unfolding get_booking cancel_booking_api get cancel_booking
foreign_booking_refused is_uuid g now customer id remark w s {b} found other = (
  ground (arith, found, other, eq_iff b.customer_id customer),
  ground (arith, found, other, eq_iff b.customer_id customer),
)
