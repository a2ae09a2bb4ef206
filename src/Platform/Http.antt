-- ===== src/Platform/Http.antt =====
-- What an HTTP handler of the services answers, as the generated servers and clients carry it: a
-- status with a body of the contract, or with an error envelope, of which the code is kept.
use Prim.Native.String.{len}
use wakewake.Prelude.{ℕ, String, ◌==◌, if◌then◌else◌, ltb}

pub data Reply (A : Type 0) : Type 0 where
  replied : ℕ → A → Reply A
  problem : ℕ → String → Reply A

-- An error that no case of a handler takes up: ResponseErrorHandlerFunc.
abbrev pub internal : {A : Type 0} → Reply A
internal = problem 500 "internal_error"

abbrev pub validation_failed : {A : Type 0} → Reply A
validation_failed = problem 400 "validation_failed"

abbrev pub unauthenticated : {A : Type 0} → Reply A
unauthenticated = problem 401 "unauthenticated"

-- `validateIdempotencyKey`: the problem, or "".
unfoldable pub validate_idempotency_key : String → String
validate_idempotency_key key =
    if key == ""
    then "is required"
    else (if ltb (len key) 8
        then "must be at least 8 characters"
        else (if ltb 255 (len key) then "must be at most 255 characters" else ""))
