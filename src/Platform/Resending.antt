-- ===== src/Platform/Resending.antt =====
-- shared/platform/httpx, `RoundTrip`: how many requests it sends, and which.
use mathlib.Core.List.{append_assoc}
use wakewake.Prelude.{
  ℕ, zero, suc, ◌+◌, ◌≤◌, ◌≡◌, refl, ap, ◌∙◌, inl, inr, arith, Bool, true, false, not, ◌&&◌, ◌||◌,
  some, List, [], ◌∷◌, ◌++◌, length, length-append, Bool-cases,
}
use wakewake.Platform.RetryTransport.{
  SentBody, whole, drained, Call, Outside, Trip, retryable, retryable_status, whole_body, used_body,
  attempt_from, round_trip,
}

module _ (o : Outside) (r : Call) where
  attempt_from-length :
      (left attempt : ℕ) (responded : Bool) (sent : List SentBody)
      → length (attempt_from o r left attempt responded sent).sent ≤ length sent + left + 1
  unfolding attempt_from
  attempt_from-length zero attempt true sent =
      omega (arith, length-append sent (used_body o r ∷ []))
  attempt_from-length zero attempt false sent = omega arith
  attempt_from-length (suc left) attempt responded sent =
      let sent' : List SentBody = sent ++ whole_body o r ∷ [] in
      ground (
        arith,
        length-append sent (whole_body o r ∷ []),
        attempt_from-length left (suc attempt) true sent',
        attempt_from-length left (suc attempt) false sent',
      )

  -- A call sends at most two requests more than the retries it is allowed, and one where it must not
  -- be repeated or its body cannot be.
  pub round_trip-length :
      (max_retries : ℕ)
      → (length (round_trip o r max_retries).sent ≤ max_retries + 2)
        × (retryable r && (not r.has_body || r.is_replayable) ≡ false
            → length (round_trip o r max_retries).sent ≡ 1)
  unfolding round_trip
  round_trip-length max_retries =
      elim (Bool-cases (retryable r && (not r.has_body || r.is_replayable))) [
        | inl yes_ ↦ (
          rw yes_ (omega (arith, attempt_from-length (suc max_retries) 0 false [])),
          λ no_. absurd (ground (arith, yes_, no_)),
        )
        | inr no_ ↦ (rw no_ (omega arith), λ _. rw no_ refl)
      ]

  -- `n` whole bodies.
  abbrev pub wholes : ℕ → List SentBody
  wholes zero = []
  wholes (suc n) = whole ∷ wholes n

  -- The outside of an outage: every answer is a status to retry on, the context lasts and the body
  -- can be rewound.
  pub record Outage : Type 0 where
    pub again : retryable r ≡ true
    pub body : r.has_body ≡ true
    pub replay : r.is_replayable ≡ true
    pub busy : (n : ℕ) → (code : ℕ) × (o.answers n ≡ some code) × (retryable_status code ≡ true)
    pub lasts : (n : ℕ) → o.stops n ≡ false
    pub rewound : (n : ℕ) → o.rewinds n ≡ true

  outage-step :
      (d : Outage) (left attempt : ℕ) (responded : Bool) (sent : List SentBody)
      → attempt_from o r (suc left) attempt responded sent
        ≡ attempt_from o r left (suc attempt) true (sent ++ whole ∷ [])
  unfolding attempt_from
  outage-step d left attempt responded sent =
      let (code, answer, transient) = d.busy (length sent) in
      ground (arith, d.body, answer, transient, d.lasts attempt, d.rewound attempt)

  outage-run :
      (d : Outage) (left attempt : ℕ) (sent : List SentBody)
      → (attempt_from o r left attempt true sent).sent ≡ sent ++ (wholes left ++ drained ∷ [])
  unfolding attempt_from
  outage-run d zero attempt sent = rw d.body refl
  outage-run d (suc left) attempt sent =
      ap (λ (t : Trip). t.sent) (outage-step d left attempt true sent)
      ∙ outage-run d left (suc attempt) (sent ++ whole ∷ [])
      ∙ append_assoc sent (whole ∷ []) (wholes left ++ drained ∷ [])

  -- In an outage a call with a body ends by sending it once more, used up, after every retry.
  pub round_trip_exhausted :
      Outage
      → (max_retries : ℕ)
      → (round_trip o r max_retries).sent ≡ wholes (suc max_retries) ++ drained ∷ []
  unfolding round_trip attempt_from
  round_trip_exhausted d max_retries =
      rw (d.again, d.body, d.replay)
        (ap (λ (t : Trip). t.sent) (outage-step d max_retries 0 false [])
          ∙ outage-run d max_retries 1 (whole ∷ []))
