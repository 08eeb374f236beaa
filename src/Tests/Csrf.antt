-- ===== src/Tests/Csrf.antt =====
-- CSRF tokens: one is issued, carried by a request, and found valid.
use swooshz_platform.Base.{
  ◌≡◌, refl, String, Bool, true, none, some, [], ◌∷◌, ◌==◌, count, length, ◌≤◌, Memᴰ, ◌⊎◌,
  if◌then◌else◌,
}
use swooshz_platform.Base.Text.{trim, trim_start, trim_end, is_blank}
use swooshz_platform.Time.{at, pos}
use swooshz_platform.Io.{Outcome, ok, thrown, ◌>>=◌}
use swooshz_platform.Errors.{plain}
use swooshz_platform.Csrf.{CsrfTokenRecord, browser_session}
use swooshz_platform.Db.Statements.{Database}
use swooshz_platform.Db.Csrf.{is_active_of, bounded_insert}
use swooshz_platform.Http.Headers.{HttpRequestHeaders}
use swooshz_platform.Http.Origin.{
  HttpOriginValidationConfig, OriginValidationResult, origin, invalid_origin,
  without_trailing_slash, validate_http_request_origin,
}
use swooshz_platform.Http.Origin.Verdict.{origin_verdict}
use swooshz_platform.Http.CsrfTokens.{
  IssueCsrfTokenForSessionInput, IssuedCsrfToken, CsrfTokenValidation, validation_failed,
  issue_csrf_token_for_session, validate,
}
use swooshz_platform.Http.CsrfTokens.Later.{IssueCommand, none_left, one_more, issue_all}
use swooshz_platform.Http.CsrfTokens.Issued.{issue_token, check_token, IsValidFor}
use swooshz_platform.Http.CsrfTokens.Valid.{
  check_token-IsValidFor, issue_token-check_token, issue_token-bound, issue_token-keeps_others,
}
use swooshz_platform.Http.RequestSecurity.{
  HttpRequestSecurityResult, allowed, origin_denied, validate_csrf_token_for_route,
  validate_http_request_security_for_route,
}
use swooshz_platform.Http.RequestSecurity.Protected.{
  stored_token_validator, IsProtected, validate_http_request_security_for_route-IsProtected,
}
use swooshz_platform.Http.RequestSecurity.Answers.{validate_http_request_security_for_route-returns}
use swooshz_platform.Tests.ListDriver.{list_driver}
use swooshz_platform.Tests.Samples.{platform}

abbrev any_order : String → String → Bool
any_order a b = true

abbrev plain_hash : String → Outcome String
plain_hash raw = ok raw

abbrev request : IssueCsrfTokenForSessionInput
request = record {
  session_id = "session-ada";
  now = at 50;
  ttl_seconds = pos 60;
  purpose = browser_session;
}

abbrev issued : IssuedCsrfToken
issued = record { csrf_token = "token-1-raw"; expires_at = at 60_050 }

abbrev row : CsrfTokenRecord
row = record {
  id = "csrf-1";
  session_id = "session-ada";
  token_hash = "token-1-raw";
  purpose = browser_session;
  created_at = at 50;
  expires_at = at 60_050;
  consumed_at = none;
  revoked_at = none;
  replaced_by_token_id = none;
}

abbrev with_token : Database
with_token = record platform { csrf_tokens = row ∷ [] }

issue_run :
    issue_token list_driver any_order plain_hash (ok "token-1-raw") (ok "csrf-1") request platform
    ≡ (ok issued, with_token)
unfolding issue_csrf_token_for_session bounded_insert trim trim_start trim_end is_blank ◌>>=◌
issue_run = refl

check_run :
    check_token list_driver any_order plain_hash "token-1-raw"
      (some "session-ada")
      (at 60)
      with_token
    ≡ (ok CsrfTokenValidation.valid, with_token)
unfolding validate trim trim_start trim_end is_blank ◌>>=◌
check_run = refl

check_token-IsValidFor_example :
    (with_token ≡ with_token)
    × ((s : String) × (some "session-ada" ≡ some s)
        × IsValidFor list_driver any_order plain_hash "token-1-raw" s (at 60) with_token)
check_token-IsValidFor_example =
    check_token-IsValidFor list_driver any_order plain_hash "token-1-raw" (some "session-ada")
      (at 60) with_token with_token check_run

issue_token-bound_example : count (is_active_of "session-ada" (at 50)) with_token.csrf_tokens ≤ 8
issue_token-bound_example =
    issue_token-bound list_driver any_order plain_hash (ok "token-1-raw") (ok "csrf-1") request
      issued platform with_token issue_run

-- A token of another session, before and after.
abbrev other_row : CsrfTokenRecord
other_row = record row { id = "csrf-0"; session_id = "session-bob"; token_hash = "token-0-raw" }

abbrev with_other : Database
with_other = record platform { csrf_tokens = other_row ∷ [] }

abbrev with_both : Database
with_both = record platform { csrf_tokens = row ∷ other_row ∷ [] }

other_run :
    issue_token list_driver any_order plain_hash (ok "token-1-raw") (ok "csrf-1") request with_other
    ≡ (ok issued, with_both)
unfolding issue_csrf_token_for_session bounded_insert trim trim_start trim_end is_blank ◌>>=◌
other_run = refl

issue_token-keeps_others_example : Memᴰ other_row with_both.csrf_tokens
issue_token-keeps_others_example =
    issue_token-keeps_others list_driver any_order plain_hash (ok "token-1-raw") (ok "csrf-1")
      request issued with_other with_both other_run other_row (Memᴰ.head refl) refl

-- Bob's session is issued a token after ada's.
abbrev for_bob : IssueCommand
for_bob = record {
  token = ok "token-2-raw";
  id = ok "csrf-2";
  input = record request { session_id = "session-bob" };
}

abbrev after_bob : Database
after_bob = issue_all list_driver any_order plain_hash (for_bob ∷ []) with_token

later_run : length after_bob.csrf_tokens ≡ 2
unfolding issue_all issue_csrf_token_for_session bounded_insert trim trim_start trim_end is_blank
    ◌>>=◌
later_run = refl

later_check_run :
    check_token list_driver any_order plain_hash "token-1-raw"
      (some "session-ada")
      (at 60)
      after_bob
    ≡ (ok CsrfTokenValidation.valid, after_bob)
unfolding issue_all issue_csrf_token_for_session bounded_insert validate trim trim_start trim_end
    is_blank ◌>>=◌
later_check_run = refl

issue_token-check_token_example :
    (after_bob ≡ after_bob)
    × ((CsrfTokenValidation.valid ≡ CsrfTokenValidation.valid)
        ⊎ (CsrfTokenValidation.valid ≡ CsrfTokenValidation.invalid validation_failed))
issue_token-check_token_example =
    issue_token-check_token list_driver any_order plain_hash (ok "token-1-raw") (ok "csrf-1")
      request issued (for_bob ∷ []) (at 60) CsrfTokenValidation.valid platform with_token after_bob
      issue_run (one_more refl none_left) refl later_check_run

-- It throws on all texts but two.
abbrev only_app : String → Outcome String
only_app url =
    if url == "https://app.test/"
    then ok "https://app.test"
    else if url == "https://app.test"
    then ok "https://app.test"
    else thrown plain

abbrev same_case : String → String
same_case name = name

abbrev headers : HttpRequestHeaders
headers = ("origin", some "https://app.test") ∷ ("x-csrf-token", some "token-1-raw") ∷ []

abbrev config : HttpOriginValidationConfig
config = record { allowed_origins = "https://app.test/" ∷ []; public_base_url = none }

protected_run :
    validate_http_request_security_for_route same_case only_app true
      (some headers)
      (some "session-ada")
      (at 60)
      config
      (some (stored_token_validator only_app same_case list_driver any_order plain_hash))
      with_token
    ≡ (ok allowed, with_token)
unfolding validate_http_request_security_for_route validate_csrf_token_for_route
    validate_http_request_origin without_trailing_slash validate trim trim_start trim_end is_blank
    ◌>>=◌
protected_run = refl

validate_http_request_security_for_route-IsProtected_example :
    (with_token ≡ with_token)
    × IsProtected only_app same_case list_driver any_order plain_hash
        (some headers)
        (some "session-ada")
        (at 60)
        config
        with_token
validate_http_request_security_for_route-IsProtected_example =
    validate_http_request_security_for_route-IsProtected only_app same_case list_driver any_order
      plain_hash (some headers) (some "session-ada") (at 60) config with_token with_token
      protected_run

-- A request with an origin on which `new URL` throws.
abbrev bad_headers : HttpRequestHeaders
bad_headers = ("origin", some "nowhere") ∷ []

bad_origin_run :
    (validate_http_request_security_for_route {S = Database} same_case only_app true
      (some bad_headers)
      none
      (at 60)
      config
      none
      with_token).0
    ≡ ok (origin_denied invalid_origin 403)
unfolding validate_http_request_security_for_route validate_http_request_origin
    without_trailing_slash ◌>>=◌
bad_origin_run = refl

validate_http_request_security_for_route-returns_example :
    (r : HttpRequestSecurityResult) × ((validate_http_request_security_for_route {S = Database}
        same_case only_app true
        (some bad_headers)
        none
        (at 60)
        config
        none
        with_token).0
      ≡ ok r)
validate_http_request_security_for_route-returns_example =
    validate_http_request_security_for_route-returns only_app same_case true (some bad_headers) none
      (at 60) config none with_token

-- The verdict on a good origin, and on one on which `new URL` throws.
good_verdict_run :
    origin_verdict only_app same_case (some headers) config
    ≡ OriginValidationResult.valid "https://app.test" origin
unfolding without_trailing_slash
good_verdict_run = refl

bad_verdict_run :
    origin_verdict only_app same_case (some bad_headers) config
    ≡ OriginValidationResult.invalid invalid_origin
unfolding without_trailing_slash
bad_verdict_run = refl
