-- ===== src/Payment/Signed.antt =====
-- services/payment/internal/stripe/signature.go: what an accepted body comes with, told by the parts
-- of its header and by the clock, and not by the loop that reads them.
use wakewake.Prelude.{
  ℕ, zero, suc, ◌+◌, ◌*◌, ◌≤◌, ◌<◌, ◌≡◌, refl, sym, subst, ◌≢◌, ◌⊎◌, inl, inr, arith, String, ◌==◌,
  Bool, true, false, ◌||◌, ◌&&◌, Option, none, some, List, [], ◌∷◌, ◌++◌, if◌then◌else◌, anyb,
  eq_iff, Option-cases, Bool-cases,
}
use wakewake.Prelude.Int.{ℤ, pos, negsuc, pos_part, neg_part}
use wakewake.Contracts.Events.{Time}
use wakewake.Payment.Signature.{
  Crypto, min_duration, unix_ahead, unix_behind, is_within, tolerance_or_default, read_parts,
  complete, parse_signature_header, verify_signature, is_close-window,
}

-- The tolerance in nanoseconds: five minutes where none is configured.
abbrev pub allowed : ℤ → ℕ
allowed tolerance = elim (pos_part tolerance) [ zero ↦ 300_000_000_000 | suc n ↦ suc n ]

-- The timestamp, in seconds since 1970, is at most `margin` nanoseconds away from now, in
-- microseconds since the year 1; or it is 2^63 nanoseconds ahead of it, or past what time.Unix holds.
abbrev pub IsTimely : ℕ → Time → ℤ → Type 0
IsTimely margin now ts =
    (9_223_372_036_854_775_808 ≤ pos_part ts + 62_135_596_800)
    ⊎ ((1000 * now + 1_000_000_000 * neg_part ts + 9_223_372_036_854_775_808
          ≤ 1_000_000_000 * (pos_part ts + 62_135_596_800))
        ⊎ ((1000 * now + 1_000_000_000 * neg_part ts
              ≤ 1_000_000_000 * (pos_part ts + 62_135_596_800) + margin)
            × (1_000_000_000 * (pos_part ts + 62_135_596_800)
                ≤ 1000 * now + 1_000_000_000 * neg_part ts + margin)))

-- The text of the last part t.
abbrev pub value_of_t : Option (String × String) → Option String
value_of_t none = none
value_of_t (some (k, v)) = if k == "t" then some v else none

abbrev pub or_else : Option String → Option String → Option String
or_else none o = o
or_else (some x) o = some x

unfoldable pub last_t : List (Option (String × String)) → Option String
last_t [] = none
last_t (p ∷ ps) = or_else (last_t ps) (value_of_t p)

-- A part v1 whose text passes a test.
abbrev pub is_v1 : (String → Bool) → Option (String × String) → Bool
is_v1 f none = false
is_v1 f (some (k, v)) = k == "v1" && f v

is_within-IsTimely :
    (margin : ℕ) (now : Time) (ts : ℤ)
    → suc margin < min_duration
    → is_within margin now ts ≡ true
    → IsTimely margin now ts
unfolding is_within
is_within-IsTimely margin now ts small h =
    elim ((is_close-window margin (1000 * now + 1_000_000_000 * unix_behind ts)
        (1_000_000_000 * unix_ahead ts) small).0
      h) [ inl near ↦ ground (arith, near.0, near.1) | inr far ↦ ground (arith, far) ]

allowed_lem : (tolerance : ℤ) → tolerance_or_default tolerance ≡ allowed tolerance
allowed_lem (pos zero) = refl
allowed_lem (pos (suc n)) = refl
allowed_lem (negsuc n) = refl

other_name : ("t" == "v1") ≡ false
other_name = refl

t_is_not_v1 : (k : String) → (k == "t") ≡ true → (k == "v1") ≡ false
t_is_not_v1 k t =
    let named : k ≡ "t" = ground (arith, t, eq_iff k "t") in
    subst (λ name. (name == "v1") ≡ false) (sym named) other_name

anyb-snoc :
    {A : Type 0} (f : A → Bool) (xs : List A) (y : A) → anyb f (xs ++ y ∷ []) ≡ (anyb f xs || f y)
anyb-snoc f [] y = ground arith
anyb-snoc f (x ∷ xs) y = ground (arith, anyb-snoc f xs y)

module _ {Body Digest : Type 0} (crypto : Crypto Body Digest) where
  -- What the loop has at its end, by what it began with and the parts.
  read_parts-signs :
      (f : String → Bool) (ps : List (Option (String × String))) (o o' : Option ℤ)
      (v1 sigs : List String)
      → read_parts crypto ps (o, v1) ≡ some (o', sigs)
      → anyb f sigs ≡ (anyb f v1 || anyb (is_v1 f) ps)
  unfolding read_parts
  read_parts-signs f [] o o' v1 sigs h = ground (arith, h)
  read_parts-signs f (none ∷ ps) o o' v1 sigs h =
      ground (arith, read_parts-signs f ps o o' v1 sigs h)
  read_parts-signs f (some (k, v) ∷ ps) o o' v1 sigs h = elim (Bool-cases (k == "t")) [
    | inl t ↦ elim (Option-cases (crypto.parse_int v)) [
      | inl bad ↦ absurd (ground (arith, t, bad, h))
      | inr (n, good) ↦
          let rest = read_parts-signs f ps (some n) o' v1 sigs (ground (arith, t, good, h)) in
          ground (arith, rest, t_is_not_v1 k t)
    ]
    | inr not_t ↦ elim (Bool-cases (k == "v1")) [
      | inl it ↦
          let rest =
            read_parts-signs f ps o o' (v1 ++ v ∷ []) sigs (ground (arith, not_t, it, h)) in
          ground (arith, rest, it, anyb-snoc f v1 v)
      | inr other ↦
          let rest = read_parts-signs f ps o o' v1 sigs (ground (arith, not_t, other, h)) in
          ground (arith, rest, other)
    ]
  ]

  read_parts-stamp :
      (ps : List (Option (String × String))) (o o' : Option ℤ) (v1 sigs : List String)
      → read_parts crypto ps (o, v1) ≡ some (o', sigs)
      → ((last_t ps ≡ none) × (o' ≡ o))
        ⊎ ((text : String) × (last_t ps ≡ some text) × (crypto.parse_int text ≡ o'))
  unfolding read_parts last_t
  read_parts-stamp [] o o' v1 sigs h = inl (refl, ground (arith, h))
  read_parts-stamp (none ∷ ps) o o' v1 sigs h = elim (read_parts-stamp ps o o' v1 sigs h) [
    | inl (no_t, same) ↦ inl (ground (arith, no_t), same)
    | inr (text, found, it) ↦ inr (text, ground (arith, found), it)
  ]
  read_parts-stamp (some (k, v) ∷ ps) o o' v1 sigs h = elim (Bool-cases (k == "t")) [
    | inl t ↦ elim (Option-cases (crypto.parse_int v)) [
      | inl bad ↦ absurd (ground (arith, t, bad, h))
      | inr (n, good) ↦
          elim (read_parts-stamp ps (some n) o' v1 sigs (ground (arith, t, good, h))) [
            | inl (no_t, same) ↦ inr (v, ground (arith, no_t, t), ground (arith, good, same))
            | inr (text, found, it) ↦ inr (text, ground (arith, found), it)
          ]
    ]
    | inr not_t ↦
        let v1' = if k == "v1" then v1 ++ v ∷ [] else v1 in
        elim (read_parts-stamp ps o o' v1' sigs (ground (arith, not_t, h))) [
          | inl (no_t, same) ↦ inl (ground (arith, no_t, not_t), same)
          | inr (text, found, it) ↦ inr (text, ground (arith, found), it)
        ]
  ]

  -- A signature of the body under the secret, for the timestamp.
  abbrev pub signs : Body → String → ℤ → String → Bool
  signs body secret ts sig = elim (crypto.decode_hex sig) [
    | none ↦ false
    | some got ↦ crypto.same got (crypto.mac ts body secret)
  ]

  complete-some :
      (o : Option (Option ℤ × List String)) (ts : ℤ) (sigs : List String)
      → complete crypto o ≡ some (ts, sigs)
      → o ≡ some (some ts, sigs)
  complete-some o ts sigs h = ground (arith, h)

  parsed :
      (header : String) (ts : ℤ) (sigs : List String)
      → parse_signature_header crypto header ≡ some (ts, sigs)
      → read_parts crypto (crypto.parts header) (none, []) ≡ some (some ts, sigs)
  unfolding parse_signature_header
  parsed header ts sigs h = elim (Bool-cases (crypto.is_blank header)) [
    | inl blank ↦ absurd (ground (arith, blank, h))
    | inr full ↦
        complete-some (read_parts crypto (crypto.parts header) (none, [])) ts sigs
          (ground (arith, full, h))
  ]

  -- A body that is accepted, under a tolerance below the largest Duration, comes with a secret that
  -- is configured, and with a header whose last part t is a timestamp that is within the tolerance of
  -- now, or 2^63 nanoseconds ahead of it or past what time.Unix holds, and of which some part v1
  -- decodes to the code of that timestamp and that body under the secret.
  pub verify_signature_sound :
      (body : Body) (header secret : String) (now : Time) (tolerance : ℤ)
      → suc (allowed tolerance) < 9_223_372_036_854_775_808
      → verify_signature crypto body header secret now tolerance ≡ true
      → (secret ≢ "")
        × ((ts : ℤ) × ((text : String) × (last_t (crypto.parts header) ≡ some text)
              × (crypto.parse_int text ≡ some ts)
              × IsTimely (allowed tolerance) now ts
              × (anyb (is_v1 (signs body secret ts)) (crypto.parts header) ≡ true)))
  unfolding verify_signature
  verify_signature_sound body header secret now tolerance small h =
      elim (Option-cases (parse_signature_header crypto header)) [
        | inl e ↦ absurd (ground (arith, e))
        | inr ((ts, sigs), e) ↦
            let read = parsed header ts sigs e in
            let near : is_within (tolerance_or_default tolerance) now ts ≡ true =
              ground (arith, e) in
            let signed : anyb (signs body secret ts) sigs ≡ true = ground (arith, e) in
            let same =
              read_parts-signs (signs body secret ts) (crypto.parts header) none (some ts) [] sigs
                read in
            let timely =
              is_within-IsTimely (allowed tolerance) now ts small
                (ground (arith, near, allowed_lem tolerance)) in
            elim (read_parts-stamp (crypto.parts header) none (some ts) [] sigs read) [
              | inl (no_t, bad) ↦ absurd (ground (arith, bad))
              | inr (text, found, it) ↦ (
                ground (arith, eq_iff secret ""),
                (ts, (text, found, it, timely, ground (arith, signed, same))),
              )
            ]
      ]
