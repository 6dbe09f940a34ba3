-- ===== src/TryItOut/Types.antt =====
-- try-it-out-errors.ts and try-it-out-types.ts.
use bumd.Prelude.{ℕ, String, Option, Dict}

pub data TryItOutErrorCode : Type 0 where
  version_not_found invalid_request target_forbidden timeout request_failed : TryItOutErrorCode

pub record TryItOutError : Type 0 where
  pub code : TryItOutErrorCode
  pub message : String
  pub status_code : ℕ

-- What a request throws: an error of its own, or something else with its message, if it is an Error.
pub data Failure : Type 0 where
  try_it_out : TryItOutError → Failure
  other : Option String → Failure

pub record TryItOutResponse : Type 0 where
  pub status : ℕ
  pub headers : Dict String
  pub body : String
