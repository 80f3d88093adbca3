-- ===== src/Errors.antt =====
-- errors.rs: the error type of the handlers, `Result`, and the response that an error becomes.
use flutter_21_client.Prelude.{ℕ, String, ◌≡◌, refl, ◌⊎◌, inl, inr}
use Prim.Native.String.{◌++◌}

-- Rust's `Result`, also of the calls that other crates answer.
pub data Result (T E : Type 0) : Type 0 where
  ok : T → Result T E
  err : E → Result T E

-- The payloads of `database`, `redis` and `internal` are the display texts of foreign errors.
pub data AppError : Type 0 where
  not_found unauthorized forbidden conflict bad_request : String → AppError
  rate_limited : AppError
  database redis internal crypto : String → AppError

abbrev pub ApiResult : Type 0 → Type 0
ApiResult T = Result T AppError

abbrev pub map_err : {T E F : Type 0} → (E → F) → Result T E → Result T F
map_err f (ok a) = ok a
map_err f (err e) = err (f e)

-- The `Display` text, by the `#[error]` attribute of each variant.
unfoldable pub to_string : AppError → String
to_string (not_found m) = "Not found: " ++ m
to_string (unauthorized m) = "Unauthorized: " ++ m
to_string (forbidden m) = "Forbidden: " ++ m
to_string (conflict m) = "Conflict: " ++ m
to_string (bad_request m) = "Bad request: " ++ m
to_string rate_limited = "Rate limited"
to_string (database e) = "Database error: " ++ e
to_string (redis e) = "Redis error: " ++ e
to_string (internal e) = "Internal error: " ++ e
to_string (crypto m) = "Crypto error: " ++ m

pub record Response : Type 0 where
  pub status : ℕ
  pub error : String
  pub code : String

unfoldable pub into_response : AppError → Response
into_response (not_found m) = record { status = 404; error = m; code = "NOT_FOUND" }
into_response (unauthorized m) = record { status = 401; error = m; code = "UNAUTHORIZED" }
into_response (forbidden m) = record { status = 403; error = m; code = "FORBIDDEN" }
into_response (conflict m) = record { status = 409; error = m; code = "CONFLICT" }
into_response (bad_request m) = record { status = 400; error = m; code = "BAD_REQUEST" }
into_response rate_limited = record {
  status = 429;
  error = "Too many requests";
  code = "RATE_LIMITED";
}
into_response (database e) = record { status = 500; error = "Database error"; code = "DB_ERROR" }
into_response (redis e) = record { status = 500; error = "Cache error"; code = "CACHE_ERROR" }
into_response (internal e) = record { status = 500; error = "Internal error"; code = "INTERNAL" }
into_response (crypto m) = record { status = 500; error = "Crypto error"; code = "CRYPTO_ERROR" }

pub Result-cases :
    {T E : Type 0} (r : Result T E) → ((a : T) × (r ≡ ok a)) ⊎ ((e : E) × (r ≡ err e))
Result-cases (ok a) = inl (a, refl)
Result-cases (err e) = inr (e, refl)
