-- ===== src/Http/RequestSecurity.antt =====
-- src/http/csrf.ts and src/http/request-security.ts: which requests a route that needs protection lets
-- through. The validator of tokens is given by the caller and may throw.
pub mod Answers
pub mod Protected
use swooshz_platform.Base.{
  ℕ, String, Bool, true, false, not, Option, none, some, ◌==◌, if◌then◌else◌,
}
use swooshz_platform.Time.{Timestamp}
use swooshz_platform.Io.{returning_on_error, Io, Outcome, pure, ◌>>=◌}
use swooshz_platform.Http.Patterns.{is_reference_char, matches}
use swooshz_platform.Http.Headers.{HttpRequestHeaders, read_header}
use swooshz_platform.Http.Origin.{
  HttpOriginValidationConfig, OriginInvalidReason, OriginValidationResult, valid, invalid,
  validate_http_request_origin, invalid_allowed_origin_config,
}

pub data CsrfInvalidReason : Type 0 where
  missing_csrf_token invalid_csrf_token csrf_validation_failed : CsrfInvalidReason

pub data CsrfValidationResult : Type 0 where
  csrf_valid : CsrfValidationResult
  csrf_invalid : CsrfInvalidReason → CsrfValidationResult

-- `validate(input).valid`, of a token, a session and a time
abbrev pub CsrfTokenValidator : Type 0 → Type 0
CsrfTokenValidator S = String → Option String → Timestamp → Io S Bool

pub data HttpRequestSecurityResult : Type 0 where
  allowed : HttpRequestSecurityResult
  origin_denied : OriginInvalidReason → ℕ → HttpRequestSecurityResult
  csrf_denied : CsrfInvalidReason → ℕ → HttpRequestSecurityResult

abbrev pub is_safe_csrf_token_reference : String → Bool
is_safe_csrf_token_reference = matches is_reference_char 8 512

abbrev pub safe_token : Option String → Option String
safe_token none = none
safe_token (some v) = if is_safe_csrf_token_reference v then some v else none

abbrev pub extract_csrf_token : (String → String) → Option HttpRequestHeaders → Option String
extract_csrf_token to_lower_case headers =
    safe_token (read_header to_lower_case headers "x-csrf-token")

-- `isConfigurationOrServiceFailure(reason) ? 500 : 403`
abbrev pub origin_status : OriginInvalidReason → ℕ
origin_status invalid_allowed_origin_config = 500
origin_status _ = 403

abbrev pub csrf_status : CsrfInvalidReason → ℕ
csrf_status csrf_validation_failed = 500
csrf_status _ = 403

abbrev pub security_of : CsrfValidationResult → HttpRequestSecurityResult
security_of csrf_valid = allowed
security_of (csrf_invalid reason) = csrf_denied reason (csrf_status reason)

module _ {S : Type 0} (to_lower_case : String → String) where
  abbrev pub check_token :
      String → Option String → Timestamp → Option (CsrfTokenValidator S) → Io S CsrfValidationResult
  check_token token session_id now none = pure (csrf_invalid csrf_validation_failed)
  check_token token session_id now (some validator) =
      returning_on_error (csrf_invalid csrf_validation_failed) do
        ok_token ← validator token session_id now
        pure (if ok_token then csrf_valid else csrf_invalid invalid_csrf_token)

  abbrev pub check_if_present :
      Option String
      → Option String
      → Timestamp
      → Option (CsrfTokenValidator S)
      → Io S CsrfValidationResult
  check_if_present none session_id now validator = pure (csrf_invalid missing_csrf_token)
  check_if_present (some token) session_id now validator =
      check_token token session_id now validator

  unfoldable pub validate_csrf_token_for_route :
      Bool
      → Option HttpRequestHeaders
      → Option String
      → Timestamp
      → Option (CsrfTokenValidator S)
      → Io S CsrfValidationResult
  validate_csrf_token_for_route required headers session_id now validator =
      if not required
      then pure csrf_valid
      else check_if_present (extract_csrf_token to_lower_case headers) session_id now validator

  module _ (url_origin : String → Outcome String) where
    abbrev pub after_origin :
        OriginValidationResult
        → Bool
        → Option HttpRequestHeaders
        → Option String
        → Timestamp
        → Option (CsrfTokenValidator S)
        → Io S HttpRequestSecurityResult
    after_origin (invalid reason) required headers session_id now validator =
        pure (origin_denied reason (origin_status reason))
    after_origin (valid _ _) required headers session_id now validator = do
      result ← validate_csrf_token_for_route required headers session_id now validator
      pure (security_of result)

    -- `required` is `route.csrf.required`.
    unfoldable pub validate_http_request_security_for_route :
        Bool
        → Option HttpRequestHeaders
        → Option String
        → Timestamp
        → HttpOriginValidationConfig
        → Option (CsrfTokenValidator S)
        → Io S HttpRequestSecurityResult
    validate_http_request_security_for_route required headers session_id now config validator =
        if not required then pure allowed else do
          origin ← validate_http_request_origin url_origin to_lower_case headers config
          after_origin origin required headers session_id now validator
