-- ===== src/Examples/Mails.antt =====
-- A confirmation that is mailed, its amount, and a booking that another customer asks for.
use Prim.Native.Nat.{◌*◌}
use wakewake.Prelude.{
  ℕ, ◌+◌, ◌<◌, ◌≡◌, refl, ap, ◌≢◌, ◌⊎◌, ◌↔◌, arith, String, ◌==◌, Bool, true, false, Option, some,
  [], ◌∷◌, ◌++◌, eq_iff,
}
use wakewake.Prelude.Int.{pos, negsuc, pos_part, neg_part}
use wakewake.Contracts.Events.{Envelope, BookingConfirmedPayload, held, booking_confirmed_event}
use wakewake.Platform.Keyed.{Engine, find_by}
use wakewake.Platform.Http.{problem}
use wakewake.Platform.Relay.{confirmed}
use wakewake.Platform.Session.{ok, query}
use wakewake.Booking.Lifecycle.{Booking}
use wakewake.Booking.Table.{select_row}
use wakewake.Booking.Store.{by_id}
use wakewake.Booking.Api.{get_booking, cancel_booking_api}
use wakewake.Booking.Privacy.{foreign_booking_refused}
use wakewake.Notification.Message.{Layout, format_minor, max_int64}
use wakewake.Notification.Confirmation.{Post, PostState, has_record, handle_confirmed}
use wakewake.Notification.Amounts.{format_minor_lem}
use wakewake.Notification.Mailed.{confirmed_mailed}
use wakewake.Notification.Sending.{mail_of, row_of, handle_confirmed_lem}
use wakewake.Examples.Worlds.{quiet, start_of}

abbrev layout : Layout
layout = record { render = λ id window amount. id; window = λ from to. ""; redact = λ to. "***" }

abbrev post : Post
post = record { resolve = λ id. some "ann@example.org"; takes = λ n. confirmed }

abbrev paid : Envelope BookingConfirmedPayload
paid = record {
  event = booking_confirmed_event;
  version = pos 1;
  id = "e-9";
  occurred_at = 1_500;
  correlation_id = "c-1";
  payload = record {
    booking_id = "b-1";
    customer_id = "ann";
    product_id = "p-1";
    resource_id = "court";
    reservation_id = "r-1";
    payment_id = "pay-1";
    starts_at = 5_000;
    ends_at = 6_000;
    total_minor = pos 15_000;
    currency = "EUR";
  };
}

abbrev empty : PostState
empty = record { session = start_of []; mails = [] }

handle_confirmed_lem_example :
    ((p : BookingConfirmedPayload) × (to : String) × (some paid.payload ≡ some p)
      × (post.resolve p.customer_id ≡ some to)
      × (has_record "e-9" empty.session.db.own ≡ false)
      × ((handle_confirmed layout post some paid quiet empty).1.mails
          ≡ [] ++ mail_of layout p to ∷ [])
      × ((handle_confirmed layout post some paid quiet empty).1.session.db.own
          ≡ row_of layout "e-9" "c-1" p to ∷ []))
    ⊎ ((handle_confirmed layout post some paid quiet empty).1.mails ≡ [])
handle_confirmed_lem_example = handle_confirmed_lem layout post some paid quiet empty

confirmed_mailed_example :
    ((handle_confirmed layout post some paid quiet empty).0 ≡ ok tt)
    × ((handle_confirmed layout post some paid quiet empty).1.mails
        ≡ [] ++ mail_of layout paid.payload "ann@example.org" ∷ [])
    × ((handle_confirmed layout post some paid quiet empty).1.session.db.own
        ≡ row_of layout "e-9" "c-1" paid.payload "ann@example.org" ∷ [])
confirmed_mailed_example =
    confirmed_mailed layout post some paid quiet empty refl refl refl refl refl refl

format_minor_lem_example :
    (major frac : ℕ) × ((format_minor (negsuc 1_499) "EUR").major ≡ pos major)
    × ((format_minor (negsuc 1_499) "EUR").frac ≡ pos frac)
    × (frac < 100)
    × (100 * major + frac ≡ pos_part (negsuc 1_499) + neg_part (negsuc 1_499))
    × (((format_minor (negsuc 1_499) "EUR").has_sign ≡ true) ↔ (0 < neg_part (negsuc 1_499)))
    × ((format_minor (negsuc 1_499) "EUR").currency ≡ "EUR")
format_minor_lem_example =
    format_minor_lem (negsuc 1_499) "EUR" (λ same. absurd (ground (arith, ap neg_part same)))

-- The least int64 is printed with a second sign and a negative pair of digits.
least_major : (format_minor (negsuc max_int64) "EUR").major ≡ negsuc 92_233_720_368_547_757
unfolding format_minor
least_major = refl

least_frac : (format_minor (negsuc max_int64) "EUR").frac ≡ negsuc 7
unfolding format_minor
least_frac = refl

abbrev engine : Engine
engine = record { is_currency = λ c. true; char_length = λ t. 0 }

abbrev booking : Booking
booking = record {
  id = "b-1";
  customer_id = "ann";
  product_id = "p-1";
  resource_id = "court";
  reservation_id = some "r-1";
  starts_at = 5_000;
  ends_at = 6_000;
  party_size = pos 2;
  status = held;
  hold_expires_at = some 2_000;
  total_minor = pos 15_000;
  currency = "EUR";
  cancel_reason = Option.none;
  cancellation_reason = Option.none;
  created_at = 1_000;
  updated_at = 1_000;
}

abbrev any_id : String → Bool
any_id id = true

booking_is_found : (by_id "b-1" quiet (start_of (booking ∷ []))).0 ≡ ok booking
unfolding by_id query select_row find_by
booking_is_found = refl

differ : (a b : String) → (a == b) ≡ false → a ≢ b
differ a b h = ground (arith, eq_iff a b)

foreign_booking_refused_example :
    (get_booking any_id (some "eve") "b-1" quiet (start_of (booking ∷ []))
      ≡ (problem 403 "unauthorized", (by_id "b-1" quiet (start_of (booking ∷ []))).1))
    × (cancel_booking_api any_id engine 1_500
          (some "eve")
          "b-1"
          Option.none
          quiet
          (start_of (booking ∷ []))
        ≡ (problem 403 "unauthorized", (by_id "b-1" quiet (start_of (booking ∷ []))).1))
foreign_booking_refused_example =
    foreign_booking_refused any_id engine 1_500 "eve" "b-1" Option.none quiet
      (start_of (booking ∷ [])) booking_is_found (differ "ann" "eve" refl)
