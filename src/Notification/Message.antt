-- ===== src/Notification/Message.antt =====
-- services/notification/internal/domain/notification.go: amounts, and what a mail holds. The layout
-- of the text (package fmt and package time) is a parameter; `Redact` is one too, a text function.
use wakewake.Prelude.{ℕ, zero, suc, String, Bool, true, false, if◌then◌else◌, eqb}
use wakewake.Prelude.Int.{ℤ, pos, negsuc}
use wakewake.Contracts.Events.{Time}
use Prim.Native.Nat.{◌/◌, ◌%◌}

pub record Details : Type 0 where
  pub booking_id : String
  pub customer_id : String
  pub starts_at : Time
  pub ends_at : Time
  pub total_minor : ℤ
  pub currency : String

pub record Message : Type 0 where
  pub to : String
  pub subject : String
  pub body : String

abbrev pub channel_email : String
channel_email = "email"

pub record SentRecord : Type 0 where
  pub event_id : String
  pub booking_id : String
  pub customer_id : String
  pub channel : String
  pub recipient_redacted : String
  pub subject : String
  pub correlation_id : String

-- Go's quotient and remainder go towards zero, and the remainder has the dividend's sign.
abbrev pub negate : ℕ → ℤ
negate zero = pos 0
negate (suc n) = negsuc n

abbrev pub quotient : ℤ → ℕ → ℤ
quotient (pos n) d = pos (n / d)
quotient (negsuc n) d = negate (suc n / d)

abbrev pub remainder : ℤ → ℕ → ℤ
remainder (pos n) d = pos (n % d)
remainder (negsuc n) d = negate (suc n % d)

abbrev pub max_int64 : ℕ
max_int64 = 9_223_372_036_854_775_807

-- Negation of an int64: the least one is its own.
abbrev pub negated : ℤ → ℤ
negated (pos n) = negate n
negated (negsuc n) = if eqb n max_int64 then negsuc n else pos (suc n)

abbrev pub is_negative : ℤ → Bool
is_negative (pos n) = false
is_negative (negsuc n) = true

-- What `FormatMinor` prints: a sign or none, the major and the two digits of the minor unit.
pub record Amount : Type 0 where
  pub has_sign : Bool
  pub major : ℤ
  pub frac : ℤ
  pub currency : String

unfoldable pub format_minor : ℤ → String → Amount
format_minor minor currency =
    let size : ℤ = if is_negative minor then negated minor else minor in
    record {
      has_sign = is_negative minor;
      major = quotient size 100;
      frac = remainder size 100;
      currency = currency;
    }

-- `render`: the text of the mail. `window`: the text of the reservation's window.
pub record Layout : Type 0 where
  pub render : String → String → Amount → String
  pub window : Time → Time → String
  pub redact : String → String

unfoldable pub compose_confirmation : Layout → Details → String → Message
compose_confirmation l c to = record {
  to = to;
  subject = "Your booking is confirmed";
  body =
      l.render c.booking_id (l.window c.starts_at c.ends_at)
        (format_minor c.total_minor c.currency);
}
