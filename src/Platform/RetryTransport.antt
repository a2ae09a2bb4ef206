-- ===== src/Platform/RetryTransport.antt =====
-- shared/platform/httpx/retry.go, `RoundTrip`: which requests a call of the client sends. The
-- transport below it (net/http) is a parameter, and it uses up the body of what it sends. The length
-- of the waits is left out.
use wakewake.Prelude.{
  ℕ, zero, suc, String, ◌==◌, Bool, true, false, not, ◌&&◌, ◌||◌, Option, none, some, List, [], ◌∷◌,
  ◌++◌, if◌then◌else◌, eqb, ltb, length,
}

-- The body of a request as it goes out: there is none, it is whole, or it was used up before.
pub data SentBody : Type 0 where
  no_body whole drained : SentBody

-- A call: its method, its Idempotency-Key header, whether it has a body, and whether GetBody is set
-- and gives the body that RoundTrip reads first.
pub record Call : Type 0 where
  pub method : String
  pub idempotency_key : String
  pub has_body : Bool
  pub is_replayable : Bool

-- What the outside decides: the status of the n-th request, or none where it fails; whether the
-- context ends in the wait before an attempt; and whether GetBody gives the body for it.
pub record Outside : Type 0 where
  pub answers : ℕ → Option ℕ
  pub stops : ℕ → Bool
  pub rewinds : ℕ → Bool

unfoldable pub retryable : Call → Bool
retryable r =
    if r.method == "GET"
      || (r.method == "HEAD"
          || (r.method == "OPTIONS" || (r.method == "PUT" || r.method == "DELETE")))
    then true
    else (if r.method == "POST" || r.method == "PATCH"
        then not (r.idempotency_key == "")
        else false)

unfoldable pub retryable_status : ℕ → Bool
retryable_status code =
    eqb code 429 || (eqb code 500 || (eqb code 502 || (eqb code 503 || eqb code 504)))

-- What the call comes to, and the bodies that went out.
pub record Trip : Type 0 where
  pub status : Option ℕ
  pub sent : List SentBody

module _ (o : Outside) (r : Call) where
  abbrev pub whole_body : SentBody
  whole_body = if r.has_body then whole else no_body

  abbrev pub used_body : SentBody
  used_body = if r.has_body then drained else no_body

  -- One request more.
  abbrev pub send : SentBody → List SentBody → Trip
  send body sent = record { status = o.answers (length sent); sent = sent ++ body ∷ [] }

  -- After the loop: an error that came last is returned; a response that came last has been drained,
  -- and the request is issued once more, as it is.
  abbrev pub give_up : Bool → List SentBody → Trip
  give_up true sent = send used_body sent
  give_up false sent = record { status = none; sent = sent }

  -- The loop: `left` attempts to go, `attempt` made; `responded`: the last ended with a response.
  unfoldable pub attempt_from : ℕ → ℕ → Bool → List SentBody → Trip
  attempt_from zero attempt responded sent = give_up responded sent
  attempt_from (suc left) attempt responded sent =
      elim (ltb 0 attempt && (o.stops attempt || (r.has_body && not (o.rewinds attempt)))) [
        | true ↦ record { status = none; sent = sent }
        | false ↦ elim (o.answers (length sent)) [
          | none ↦ attempt_from left (suc attempt) false (sent ++ whole_body ∷ [])
          | some code ↦ elim (retryable_status code) [
            | true ↦ attempt_from left (suc attempt) true (sent ++ whole_body ∷ [])
            | false ↦ record { status = some code; sent = sent ++ whole_body ∷ [] }
          ]
        ]
      ]

  unfoldable pub round_trip : ℕ → Trip
  round_trip max_retries =
      if retryable r && (not r.has_body || r.is_replayable)
      then attempt_from (suc max_retries) 0 false []
      else send whole_body []
