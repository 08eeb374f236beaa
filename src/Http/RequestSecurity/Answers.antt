-- ===== src/Http/RequestSecurity/Answers.antt =====
-- src/http/request-security.ts with any validator: the check always answers.
use swooshz_platform.Base.{◌≡◌, refl, ap, String, Bool, true, false, Option, none, some}
use swooshz_platform.Time.{Timestamp}
use swooshz_platform.Io.{returning_on_error, or_else, Io, Outcome, ok, thrown, pure, ◌>>=◌}
use swooshz_platform.Http.Headers.{HttpRequestHeaders}
use swooshz_platform.Http.Origin.{
  HttpOriginValidationConfig, OriginValidationResult, valid, invalid, validate_http_request_origin,
}
use swooshz_platform.Http.Origin.Verdict.{origin_verdict, validate_http_request_origin-eq}
use swooshz_platform.Http.RequestSecurity.{
  CsrfTokenValidator, HttpRequestSecurityResult, allowed, validate_csrf_token_for_route,
  validate_http_request_security_for_route, check_if_present, after_origin,
}

-- It returns, whatever the state.
record Returns {S A : Type 0} (m : Io S A) : Type 0 where
  pub at : (s : S) → (a : A) × ((m s).0 ≡ ok a)

Returns-pure : {S A : Type 0} {a : A} → Returns (pure {S = S} a)
Returns-pure {a} = record { at = λ s. (a, refl) }

module _ {S A : Type 0} where
  Returns-returning_on_error : (value : A) (m : Io S A) → Returns (returning_on_error value m)
  Returns-returning_on_error value m = record { at = λ s. settled (m s).0 }
    where
      settled : (o : Outcome A) → (a : A) × (or_else value o ≡ ok a)
      settled (ok a) = (a, refl)
      settled (thrown e) = (value, refl)

module _ {S A B : Type 0} where
  Returns-bind :
      (m : Io S A) (f : A → Io S B) → Returns m → ((a : A) → Returns (f a)) → Returns (m >>= f)
  unfolding ◌>>=◌
  Returns-bind m f km kf = record {
    at = λ s. let (a, e) = km.at s in let (b, i) = (kf a).at (m s).1 in (b, rw e i);
  }

module _ {S : Type 0} (url_origin : String → Outcome String) (to_lower_case : String → String) where
  Returns-check_if_present :
      (token session : Option String) (now : Timestamp) (validator : Option (CsrfTokenValidator S))
      → Returns (check_if_present to_lower_case token session now validator)
  Returns-check_if_present none session now validator = Returns-pure
  Returns-check_if_present (some t) session now none = Returns-pure
  Returns-check_if_present (some t) session now (some v) = Returns-returning_on_error _ _

  Returns-validate_csrf_token_for_route :
      (required : Bool) (headers : Option HttpRequestHeaders) (session : Option String)
      (now : Timestamp) (validator : Option (CsrfTokenValidator S))
      → Returns (validate_csrf_token_for_route to_lower_case required headers session now validator)
  unfolding validate_csrf_token_for_route
  Returns-validate_csrf_token_for_route true headers session now validator =
      Returns-check_if_present _ session now validator
  Returns-validate_csrf_token_for_route false headers session now validator = Returns-pure

  Returns-after_origin :
      (o : OriginValidationResult) (required : Bool) (headers : Option HttpRequestHeaders)
      (session : Option String) (now : Timestamp) (validator : Option (CsrfTokenValidator S))
      → Returns (after_origin to_lower_case url_origin o required headers session now validator)
  Returns-after_origin (invalid reason) required headers session now validator = Returns-pure
  Returns-after_origin (valid site by) required headers session now validator =
      Returns-bind _ _
        (Returns-validate_csrf_token_for_route required headers session now validator)
        λ r. Returns-pure

  Returns-validate_http_request_origin :
      (headers : Option HttpRequestHeaders) (config : HttpOriginValidationConfig)
      → Returns {S = S} (validate_http_request_origin url_origin to_lower_case headers config)
  Returns-validate_http_request_origin headers config = record {
    at = λ s.
        let e = validate_http_request_origin-eq url_origin to_lower_case s headers config in
        (origin_verdict url_origin to_lower_case headers config, ap (λ p. p.0) e);
  }

  -- The check of a request never throws: whatever the route, the headers, the configuration and the
  -- validator, also where `new URL` throws on an origin, a referer or a configured origin, and where the
  -- validator throws, it answers with a result.
  pub validate_http_request_security_for_route-returns :
      (required : Bool) (headers : Option HttpRequestHeaders) (session : Option String)
      (now : Timestamp) (config : HttpOriginValidationConfig)
      (validator : Option (CsrfTokenValidator S)) (s : S)
      → (r : HttpRequestSecurityResult) × ((validate_http_request_security_for_route to_lower_case
            url_origin required headers session now config validator s).0
          ≡ ok r)
  unfolding validate_http_request_security_for_route
  validate_http_request_security_for_route-returns true headers session now config validator s =
      (Returns-bind _ _ (Returns-validate_http_request_origin headers config)
          (λ o. Returns-after_origin o true headers session now validator)).at
        s
  validate_http_request_security_for_route-returns false headers session now config validator s =
      (allowed, refl)
