-- ===== src/Types/Errors.antt =====
-- `pkg/types/errors.go`: the errors of the HTTP interfaces.
use open_clause.Base.{ℕ, Bool, true, false, Text, text}

-- `Details` is set nowhere.
pub record ApiError : Type 0 where
  pub code : Text
  pub message : Text
  pub retryable : Bool
  pub http_code : ℕ

abbrev final : Text → Text → ℕ → ApiError
final code message http_code = record {
  code = code;
  message = message;
  retryable = false;
  http_code = http_code;
}

abbrev pub bad_request : Text → ApiError
bad_request msg = final (text "BAD_REQUEST") msg 400

abbrev pub validation_error : Text → ApiError
validation_error msg = final (text "VALIDATION_ERROR") msg 422

abbrev pub unauthorized : Text → ApiError
unauthorized msg = final (text "UNAUTHORIZED") msg 401

abbrev pub forbidden : Text → ApiError
forbidden msg = final (text "FORBIDDEN") msg 403

abbrev pub not_found : Text → ApiError
not_found msg = final (text "NOT_FOUND") msg 404

abbrev pub conflict : Text → ApiError
conflict msg = final (text "CONFLICT") msg 409

abbrev pub internal : Text → ApiError
internal msg = record {
  code = text "INTERNAL_ERROR";
  message = msg;
  retryable = true;
  http_code = 500;
}

abbrev pub rate_limited : ApiError
rate_limited = record {
  code = text "RATE_LIMITED";
  message = text "too many requests";
  retryable = true;
  http_code = 429;
}
