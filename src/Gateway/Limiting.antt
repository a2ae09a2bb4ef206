-- ===== src/Gateway/Limiting.antt =====
-- services/gateway/internal/ratelimit: which requests a key's bucket meters.
use wakewake.Prelude.{
  suc, ◌-◌, ◌≤◌, ◌<◌, ◌≡◌, refl, ◌≢◌, inl, inr, arith, String, Bool, true, false, not, Option, none,
  some, List, [], ◌∷◌, map, ltb, length, filterb, All, eq_iff, eq_refl, Option-cases,
}
use wakewake.Contracts.Events.{Time}
use wakewake.Gateway.RateLimit.{
  TokenBucket, Bucket, Buckets, evict_threshold, idle_ttl, get_bucket, set_bucket, is_idle,
  evict_idle, allow,
}

module _ {L : Type 0} where
  pub get_bucket-set_bucket :
      (key other : String) (b : Bucket L) (bs : Buckets L)
      → key ≢ other
      → get_bucket other (set_bucket key b bs) ≡ get_bucket other bs
  unfolding get_bucket set_bucket
  get_bucket-set_bucket key other b [] ne = refl
  get_bucket-set_bucket key other b ((k, old) ∷ bs) ne =
      ground (arith, ne, eq_iff k key, eq_iff k other, get_bucket-set_bucket key other b bs ne)

  get_bucket-set_bucket_same :
      (key : String) (b : Bucket L) (bs : Buckets L)
      → get_bucket key bs ≢ none
      → get_bucket key (set_bucket key b bs) ≡ some b
  unfolding get_bucket set_bucket
  get_bucket-set_bucket_same key b [] h = absurd (h refl)
  get_bucket-set_bucket_same key b ((k, old) ∷ bs) h =
      ground (arith, h, get_bucket-set_bucket_same key b bs)

  set_bucket-absent :
      (key : String) (b : Bucket L) (bs : Buckets L)
      → get_bucket key bs ≡ none
      → set_bucket key b bs ≡ bs
  unfolding get_bucket set_bucket
  set_bucket-absent key b [] h = refl
  set_bucket-absent key b ((k, old) ∷ bs) h = ground (arith, h, set_bucket-absent key b bs)

  -- Every bucket was used within the idle time.
  abbrev pub Busy : Time → Buckets L → Type 0
  Busy now = All (λ (e : String × Bucket L). is_idle now e ≡ false)

  filterb-Busy :
      (now : Time) (bs : Buckets L) → Busy now bs → filterb (λ e. not (is_idle now e)) bs ≡ bs
  filterb-Busy now [] h = refl
  filterb-Busy now (e ∷ bs) h = ground (arith, h.0, filterb-Busy now bs h.1)

  abbrev pub lim_of : TokenBucket L → Option (Bucket L) → L
  lim_of t none = t.fresh
  lim_of t (some b) = b.lim

  module _ (t : TokenBucket L) where
    -- Below the threshold, a request spends from the bucket of its own key, a fresh one at first; the
    -- buckets of all other keys stay as they are.
    pub allow_metered :
        (now : Time) (key : String) (bs : Buckets L)
        → suc (length bs) < evict_threshold
        → ((allow t now key bs).0 ≡ (t.take_one now (lim_of t (get_bucket key bs))).0)
          × (get_bucket key (allow t now key bs).1
              ≡ some
                  (record { lim = (t.take_one now (lim_of t (get_bucket key bs))).1; seen = now }))
          × ((other : String)
              → key ≢ other
              → get_bucket other (allow t now key bs).1 ≡ get_bucket other bs)
    unfolding allow evict_idle get_bucket set_bucket
    allow_metered now key bs few = elim (Option-cases (get_bucket key bs)) [
      | inl new ↦
          let small : ltb (suc (length bs)) evict_threshold ≡ true = ground (arith, few) in
          (
            ground (arith, new, small, eq_refl key),
            ground (arith, new, small, eq_refl key),
            λ other ne. ground (arith, new, small, eq_refl key, ne, eq_iff key other),
          )
      | inr (b, old) ↦
          let next : Bucket L = record { lim = (t.take_one now b.lim).1; seen = now } in
          (
            ground (arith, old),
            ground (arith, old, get_bucket-set_bucket_same key next bs),
            λ other ne. ground (arith, old, get_bucket-set_bucket key other next bs ne),
          )
    ]

    -- With a map as large as the threshold allows and no bucket idle, a key that is new is not kept.
    allow-forgets :
        (now : Time) (key : String) (bs : Buckets L)
        → evict_threshold ≤ suc (length bs)
        → idle_ttl < now
        → Busy now bs
        → get_bucket key bs ≡ none
        → allow t now key bs ≡ ((t.take_one now t.fresh).0, bs)
    unfolding allow evict_idle
    allow-forgets now key bs full late busy new =
        let big : ltb (suc (length bs)) evict_threshold ≡ false = ground (arith, full) in
        let stale : ltb idle_ttl (now - 0) ≡ true = ground (arith, late) in
        let next : Bucket L = record { lim = (t.take_one now t.fresh).1; seen = now } in
        ground (arith, new, big, stale, filterb-Busy now bs busy, set_bucket-absent key next bs new)

    -- The requests of one key, one after the other.
    unfoldable pub serve : String → List Time → Buckets L → List Bool × Buckets L
    serve key [] bs = ([], bs)
    serve key (now ∷ nows) bs =
        let (yes_, bs') = allow t now key bs in
        let (rest, bs'') = serve key nows bs' in (yes_ ∷ rest, bs'')

    -- With 4095 buckets or more, none of them idle, a key that has none is never metered: each of its
    -- requests is answered as the first request of a fresh bucket would be, however many they are.
    pub never_metered :
        (key : String) (nows : List Time) (bs : Buckets L)
        → evict_threshold ≤ suc (length bs)
        → All (λ now. (idle_ttl < now) × Busy now bs) nows
        → get_bucket key bs ≡ none
        → serve key nows bs ≡ (map (λ now. (t.take_one now t.fresh).0) nows, bs)
    unfolding serve
    never_metered key [] bs full h new = refl
    never_metered key (now ∷ nows) bs full h new = ground (
      arith,
      allow-forgets now key bs full h.0.0 h.0.1 new,
      never_metered key nows bs full h.1 new,
    )
