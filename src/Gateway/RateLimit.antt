-- ===== src/Gateway/RateLimit.antt =====
-- services/gateway/internal/ratelimit/ratelimit.go. The token bucket itself (golang.org/x/time/rate)
-- is a parameter; the mutex makes each call one step.
use Prim.Native.String.{◌++◌}
use wakewake.Prelude.{
  ℕ, ◌-◌, String, ◌==◌, Bool, not, Option, none, some, List, [], ◌∷◌, if◌then◌else◌, ltb, length,
  filterb,
}
use wakewake.Prelude.Int.{ℤ, pos, ltb_ℤ, pos_part}
use wakewake.Contracts.Events.{Time}

-- `fresh`: rate.NewLimiter of the limiter's rate and burst. `take_one`: AllowN(now, 1).
pub record TokenBucket (L : Type 0) : Type 0 where
  pub fresh : L
  pub take_one : Time → L → Bool × L

pub record Bucket (L : Type 0) : Type 0 where
  pub lim : L
  pub seen : Time

-- The map from keys, as an association list without doubles.
abbrev pub Buckets : Type 0 → Type 0
Buckets L = List (String × Bucket L)

abbrev pub evict_threshold : ℕ
evict_threshold = 4096

-- 10 minutes.
abbrev pub idle_ttl : ℕ
idle_ttl = 600_000_000

-- `New`: the burst, after the clamp.
unfoldable pub clamp_burst : ℤ → ℕ
clamp_burst burst = if ltb_ℤ (pos 0) burst then pos_part burst else 1

module _ {L : Type 0} where
  unfoldable pub get_bucket : String → Buckets L → Option (Bucket L)
  get_bucket key [] = none
  get_bucket key ((k, b) ∷ bs) = if k == key then some b else get_bucket key bs

  -- Assignment to a key that the map has.
  unfoldable pub set_bucket : String → Bucket L → Buckets L → Buckets L
  set_bucket key b [] = []
  set_bucket key b ((k, old) ∷ bs) =
      if k == key then (k, b) ∷ bs else (k, old) ∷ set_bucket key b bs

  abbrev pub is_idle : Time → String × Bucket L → Bool
  is_idle now (k, b) = ltb idle_ttl (now - b.seen)

  unfoldable pub evict_idle : Time → Buckets L → Buckets L
  evict_idle now bs =
      if ltb (length bs) evict_threshold then bs else filterb (λ e. not (is_idle now e)) bs

  module _ (t : TokenBucket L) where
    -- A new bucket is entered with the zero time as its `seen`, and the map is swept before `seen` is
    -- set. The bucket is a pointer: what is done to it shows in the map where the map still has it.
    abbrev pub entered : Time → String → Buckets L → Option (Bucket L) → Bucket L × Buckets L
    entered now key bs (some b) = (b, bs)
    entered now key bs none =
        let b : Bucket L = record { lim = t.fresh; seen = 0 } in (b, evict_idle now ((key, b) ∷ bs))

    unfoldable pub allow : Time → String → Buckets L → Bool × Buckets L
    allow now key bs =
        let (b, bs') = entered now key bs (get_bucket key bs) in
        let (yes_, lim') = t.take_one now b.lim in
        (yes_, set_bucket key (record { lim = lim'; seen = now }) bs')

-- `keyFor`: the subject, or the address; `split_host` is net.SplitHostPort.
unfoldable pub key_for : (String → Option String) → String → String → String
key_for split_host subject remote =
    if subject == ""
    then "ip:" ++ elim (split_host remote) [ none ↦ remote | some host ↦ host ]
    else "sub:" ++ subject

-- `Middleware`: a request that exceeds its budget is answered 429, the others go on.
unfoldable pub limited :
    {L A : Type 0}
    → TokenBucket L
    → A
    → (Buckets L → A × Buckets L)
    → Time
    → String
    → Buckets L
    → A × Buckets L
limited t too_many next now key bs =
    let (yes_, bs') = allow t now key bs in if yes_ then next bs' else (too_many, bs')
