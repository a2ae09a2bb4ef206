-- ===== src/Payment/Signature.antt =====
-- services/payment/internal/stripe/signature.go: the check of a Stripe-Signature header. What the
-- Go library makes of the header's parts, of a number and of hex digits, and HMAC-SHA256 itself, are
-- the parameters `Crypto`. `Sign`, which only tests use, is not modelled.
use wakewake.Prelude.{
  ℕ, zero, suc, ◌+◌, ◌-◌, ◌*◌, ◌≤◌, ◌<◌, ◌≡◌, ◌↔◌, ◌⊎◌, arith, String, ◌==◌, Bool, true, false,
  ◌||◌, ◌&&◌, Option, none, some, List, [], ◌∷◌, ◌++◌, if◌then◌else◌, ltb, leb, anyb,
}
use wakewake.Prelude.Int.{ℤ, pos, negsuc, pos_part, neg_part}
use wakewake.Contracts.Events.{Time}

-- `parts`: the header split at its commas, each part trimmed and split at its first '=', none where
-- it has no '='. `is_blank`: nothing is left of it when it is trimmed. `mac`: HMAC-SHA256 of the
-- timestamp, a dot and the body. `same`: hmac.Equal.
pub record Crypto (Body Digest : Type 0) : Type 0 where
  pub is_blank : String → Bool
  pub parts : String → List (Option (String × String))
  pub parse_int : String → Option ℤ
  pub decode_hex : String → Option Digest
  pub mac : ℤ → Body → String → Digest
  pub same : Digest → Digest → Bool

-- The timestamp and the v1 signatures that the header's loop has seen so far.
abbrev pub Seen : Type 0
Seen = Option ℤ × List String

abbrev pub min_duration : ℕ
min_duration = 9_223_372_036_854_775_808

abbrev pub default_tolerance : ℕ
default_tolerance = 300_000_000_000

-- Nanoseconds of a number of microseconds, and of seconds.
abbrev pub nanos : ℕ → ℕ
nanos micros = 1000 * micros

-- The seconds of time.Unix since Go's zero time, by their positive and their negative part; the sum
-- wraps at 2^63.
abbrev pub unix_ahead : ℤ → ℕ
unix_ahead ts =
    let s = pos_part ts + 62_135_596_800 in if leb min_duration s then 0 else s - neg_part ts

abbrev pub unix_behind : ℤ → ℕ
unix_behind ts =
    let s = pos_part ts + 62_135_596_800 in
    if leb min_duration s then 2 * min_duration - s else neg_part ts - s

-- now.Sub(t), made positive, is within the tolerance. A difference that is too large for a Duration
-- is cut off at its bounds, and the least Duration is its own negation.
abbrev pub is_close : ℕ → ℕ → ℕ → Bool
is_close tolerance mine theirs =
    if ltb mine theirs
    then leb min_duration (theirs - mine) || leb (theirs - mine) tolerance
    else (if leb min_duration (mine - theirs)
        then leb (min_duration - 1) tolerance
        else leb (mine - theirs) tolerance)

unfoldable pub is_within : ℕ → Time → ℤ → Bool
is_within tolerance now ts =
    is_close tolerance (nanos now + 1_000_000_000 * unix_behind ts) (1_000_000_000 * unix_ahead ts)

abbrev pub tolerance_or_default : ℤ → ℕ
tolerance_or_default (pos zero) = default_tolerance
tolerance_or_default (pos (suc n)) = suc n
tolerance_or_default (negsuc n) = default_tolerance

module _ {Body Digest : Type 0} (crypto : Crypto Body Digest) where
  -- One part of the header; none where the timestamp is no number.
  abbrev pub read_part : Option (String × String) → Seen → Option Seen
  read_part none seen = some seen
  read_part (some (k, v)) (ts, v1) =
      if k == "t"
      then elim (crypto.parse_int v) [ none ↦ none | some n ↦ some (some n, v1) ]
      else (if k == "v1" then some (ts, v1 ++ v ∷ []) else some (ts, v1))

  unfoldable pub read_parts : List (Option (String × String)) → Seen → Option Seen
  read_parts [] seen = some seen
  read_parts (p ∷ ps) seen = elim (read_part p seen) [
    | none ↦ none
    | some seen' ↦ read_parts ps seen'
  ]

  -- A timestamp and at least one signature.
  abbrev pub complete : Option Seen → Option (ℤ × List String)
  complete none = none
  complete (some (none, v1)) = none
  complete (some (some ts, [])) = none
  complete (some (some ts, v ∷ vs)) = some (ts, v ∷ vs)

  -- `parseSignatureHeader`
  unfoldable pub parse_signature_header : String → Option (ℤ × List String)
  parse_signature_header header =
      if crypto.is_blank header
      then none
      else complete (read_parts (crypto.parts header) (none, []))

  abbrev pub matches : Digest → String → Bool
  matches expected sig = elim (crypto.decode_hex sig) [
    | none ↦ false
    | some got ↦ crypto.same got expected
  ]

  abbrev pub accepts : Body → String → Time → ℕ → Option (ℤ × List String) → Bool
  accepts body secret now tolerance none = false
  accepts body secret now tolerance (some (ts, signatures)) =
      is_within tolerance now ts && anyb (matches (crypto.mac ts body secret)) signatures

  -- `VerifySignature`: true where it returns no error.
  unfoldable pub verify_signature : Body → String → String → Time → ℤ → Bool
  verify_signature body header secret now tolerance =
      if secret == ""
      then false
      else accepts body secret now (tolerance_or_default tolerance) (parse_signature_header header)

-- The tolerance test, for a tolerance below the largest Duration, passes exactly the timestamps that
-- are at most the tolerance away from now, and those that are 2^63 nanoseconds ahead of it or more.
pub is_close-window :
    (tolerance mine theirs : ℕ)
    → suc tolerance < min_duration
    → (is_close tolerance mine theirs ≡ true) ↔ (
        ((mine ≤ theirs + tolerance) × (theirs ≤ mine + tolerance))
        ⊎ (mine + min_duration ≤ theirs))
is_close-window tolerance mine theirs small = (λ h. ground arith, λ h. ground arith)
