-- ===== src/Examples/Edge.antt =====
-- A rate limit and a retrying client, at the edges of the services.
use Prim.Native.Nat.{◌≤◌}
use wakewake.Prelude.{
  ℕ, zero, suc, ◌+◌, ◌≡◌, refl, ◌≢◌, arith, String, true, false, not, ◌&&◌, ◌||◌, none, some, List,
  [], ◌∷◌, ◌++◌, map, length,
}
use wakewake.Contracts.Events.{Time}
use wakewake.Gateway.RateLimit.{TokenBucket, Buckets, get_bucket, allow}
use wakewake.Gateway.Limiting.{Busy, allow_metered, lim_of, serve, never_metered}
use wakewake.Platform.RetryTransport.{
  drained, Call, Outside, retryable, retryable_status, round_trip,
}
use wakewake.Platform.Resending.{Outage, wholes, round_trip-length, round_trip_exhausted}

-- A bucket of three tokens that is never filled again.
abbrev three : TokenBucket ℕ
three = record { fresh = 3; take_one = λ now n. elim n [ zero ↦ (false, 0) | suc m ↦ (true, m) ] }

abbrev ann : Buckets ℕ
ann = ("sub:ann", record { lim = 1; seen = 5_000 }) ∷ []

allow_metered_example :
    ((allow three 9_000 "sub:ann" ann).0
      ≡ (three.take_one 9_000 (lim_of three (get_bucket "sub:ann" ann))).0)
    × (get_bucket "sub:ann" (allow three 9_000 "sub:ann" ann).1
        ≡ some (record {
          lim = (three.take_one 9_000 (lim_of three (get_bucket "sub:ann" ann))).1;
          seen = 9_000;
        }))
    × ((other : String)
        → "sub:ann" ≢ other
        → get_bucket other (allow three 9_000 "sub:ann" ann).1 ≡ get_bucket other ann)
allow_metered_example = allow_metered three 9_000 "sub:ann" ann (omega arith)

-- 4096 keys that were all used a moment ago.
abbrev crowd : ℕ → Buckets ℕ
crowd zero = []
crowd (suc n) = ("sub:crowd", record { lim = 3; seen = 1_000_000_000 }) ∷ crowd n

length-crowd : (n : ℕ) → length (crowd n) ≡ n
length-crowd zero = refl
length-crowd (suc n) = omega (arith, length-crowd n)

crowd-Busy : (n : ℕ) → Busy 1_000_000_001 (crowd n)
crowd-Busy zero = tt
crowd-Busy (suc n) = (refl, crowd-Busy n)

eve_is_new : (n : ℕ) → get_bucket "ip:eve" (crowd n) ≡ none
unfolding get_bucket
eve_is_new zero = refl
eve_is_new (suc n) = eve_is_new n

abbrev moments : List Time
moments = 1_000_000_001 ∷ 1_000_000_001 ∷ []

never_metered_example :
    serve three "ip:eve" moments (crowd 4096)
    ≡ (map (λ now. (three.take_one now three.fresh).0) moments, crowd 4096)
never_metered_example =
    never_metered three "ip:eve" moments (crowd 4096) (omega (arith, length-crowd 4096))
      ((omega arith, crowd-Busy 4096), ((omega arith, crowd-Busy 4096), tt)) (eve_is_new 4096)

-- A POST with a key, to a service that answers 503.
abbrev post : Call
post = record {
  method = "POST";
  idempotency_key = "k-12345678";
  has_body = true;
  is_replayable = true;
}

abbrev down : Outside
down = record { answers = λ n. some 503; stops = λ n. false; rewinds = λ n. true }

round_trip-length_example :
    (length (round_trip down post 2).sent ≤ 2 + 2)
    × (retryable post && (not post.has_body || post.is_replayable) ≡ false
        → length (round_trip down post 2).sent ≡ 1)
round_trip-length_example = round_trip-length down post 2

post_is_retryable : retryable post ≡ true
unfolding retryable
post_is_retryable = refl

outage : Outage down post
unfolding retryable_status
outage = record {
  again = post_is_retryable;
  body = refl;
  replay = refl;
  busy = λ n. (503, refl, refl);
  lasts = λ n. refl;
  rewound = λ n. refl;
}

round_trip_exhausted_example :
    (round_trip down post 2).sent ≡ wholes down post (suc 2) ++ drained ∷ []
round_trip_exhausted_example = round_trip_exhausted down post outage 2
