-- ===== src/Errors.antt =====
-- The error type of the API and its HTTP replies: api/src/error.rs. The errors of other crates
-- (sqlx, bollard, jsonwebtoken, axum) are carried as their text.
pub mod Replies
use dbsaa_s.Prelude.{ℕ, String}

pub data AppError : Type 0 where
  not_found bad_request conflict internal : String → AppError
  unauthorized forbidden rate_limited : AppError
  database docker jwt json_rejection path_rejection : String → AppError

pub data Result {ℓ} (A : Type ℓ) : Type ℓ where
  ok : A → Result A
  err : AppError → Result A

-- `IntoResponse for AppError`: the status code and the `error` field of the JSON body.
unfoldable pub into_response : AppError → ℕ × String
into_response (AppError.not_found msg) = (404, msg)
into_response (AppError.bad_request msg) = (400, msg)
into_response AppError.unauthorized = (401, "Unauthorized")
into_response AppError.forbidden = (403, "Forbidden")
into_response (AppError.conflict msg) = (409, msg)
into_response AppError.rate_limited = (429, "Rate limited")
into_response (AppError.database e) = (500, "Internal server error")
into_response (AppError.docker e) = (500, "Provisioning error")
into_response (AppError.jwt e) = (401, "Invalid token")
into_response (AppError.json_rejection e) = (400, "Invalid request body")
into_response (AppError.path_rejection e) = (400, "Invalid URL parameter")
into_response (AppError.internal msg) = (500, "Internal server error")
