-- ===== src/Http/RequestSecurity/Protected.antt =====
-- src/http/request-security.ts with the validator of src/http/csrf-token-service.ts over the database:
-- what is known of a request that a protected route lets through.
use swooshz_platform.Base.{
  ◌≡◌, inl, inr, refl, ap, String, Bool, true, false, Option, none, some, List, Memᴰ, Bool-cases,
  any, mem_of_any, eq_of_==, ◌==◌, ◌∙◌, if◌then◌else◌, arith,
}
use mathlib.Core.Path.{subst}
use swooshz_platform.Time.{Timestamp}
use swooshz_platform.Access.{selected}
use swooshz_platform.Io.{
  ensures_returning, Outcome, ok, pure, ◌>>=◌, Ensures, ensures_pure, ensures_bind, ensures_weaker,
}
use swooshz_platform.Driver.{Driver}
use swooshz_platform.Db.Statements.{Database}
use swooshz_platform.Http.Headers.{HttpRequestHeaders, read_header}
use swooshz_platform.Http.Origin.{
  HttpOriginValidationConfig, OriginSource, OriginValidationResult, origin, referer, valid, invalid,
  check_allowed, origin_not_allowed,
}
use swooshz_platform.Http.Origin.Verdict.{
  exact_origin, url_site, allowed_origins_of, verdict_on_headers, verdict_on_request,
  origin_verdict, validate_http_request_origin-eq,
}
use swooshz_platform.Http.CsrfTokens.{CsrfTokenValidation}
use swooshz_platform.Http.CsrfTokens.Issued.{check_token, IsValidFor}
use swooshz_platform.Http.CsrfTokens.Valid.{check_token-IsValidFor}
use swooshz_platform.Http.RequestSecurity
use swooshz_platform.Http.RequestSecurity.{
  CsrfTokenValidator, HttpRequestSecurityResult, allowed, extract_csrf_token,
  validate_csrf_token_for_route, validate_http_request_security_for_route, CsrfValidationResult,
  csrf_valid, csrf_invalid, invalid_csrf_token, csrf_validation_failed, security_of, after_origin,
  check_if_present,
}

module _ (url_origin : String → Outcome String) (to_lower_case : String → String) where
  -- The origin header says where a request comes from, or else the referer.
  abbrev pub named_by : Option String → Option String → Option String
  named_by (some o) r = exact_origin url_origin to_lower_case (some o)
  named_by none r = url_site url_origin to_lower_case r

  abbrev pub named_origin : Option HttpRequestHeaders → Option String
  named_origin headers =
      named_by (selected (read_header to_lower_case headers "origin"))
        (selected (read_header to_lower_case headers "referer"))

  -- The configuration is sound and the request names one of its origins.
  pub record ComesFrom (config : HttpOriginValidationConfig) (headers : Option HttpRequestHeaders)
      : Type 0 where
    pub origins : List String
    pub normalized : allowed_origins_of url_origin to_lower_case config ≡ some origins
    pub site : String
    pub named : named_origin headers ≡ some site
    pub listed : Memᴰ site origins

  check_allowed-listed :
      (origins : List String) (source by : OriginSource) (o : Option String) (site : String)
      → check_allowed origins source o ≡ valid site by
      → (o ≡ some site) × Memᴰ site origins
  check_allowed-listed origins source by none site h = absurd (ground arith)
  check_allowed-listed origins source by (some o) site h =
      elim (Bool-cases (any (λ a. a == o) origins)) [
        | inl e ↦
            let (x, m, t) = mem_of_any (λ a. a == o) origins e in
            let k : valid o source ≡ valid site by = rw e at h in
            let same : o ≡ site = ground arith in
            (ap some same, subst (λ y. Memᴰ y origins) (eq_of_== x o t ∙ same) m)
        | inr e ↦
            absurd (let k : invalid origin_not_allowed ≡ valid site by = rw e at h in ground arith)
      ]

  verdict_on_headers-listed :
      (origins : List String) (o r : Option String) (site : String) (by : OriginSource)
      → verdict_on_headers url_origin to_lower_case origins o r ≡ valid site by
      → (named_by o r ≡ some site) × Memᴰ site origins
  verdict_on_headers-listed origins (some o) r site by h =
      check_allowed-listed origins origin by _ site h
  verdict_on_headers-listed origins none (some r) site by h =
      check_allowed-listed origins referer by _ site h
  verdict_on_headers-listed origins none none site by h = absurd (ground arith)

  verdict_on_request-ComesFrom :
      (config : HttpOriginValidationConfig) (headers : Option HttpRequestHeaders)
      (origins : Option (List String)) (site : String) (by : OriginSource)
      → allowed_origins_of url_origin to_lower_case config ≡ origins
      → verdict_on_request url_origin to_lower_case origins headers ≡ valid site by
      → ComesFrom config headers
  verdict_on_request-ComesFrom config headers none site by e h = absurd (ground arith)
  verdict_on_request-ComesFrom config headers (some origins) site by e h =
      let (named, listed) = verdict_on_headers-listed origins _ _ site by h in
      record { origins = origins; normalized = e; site = site; named = named; listed = listed }

  -- A request that passes names an origin of a sound configuration.
  pub origin_verdict-ComesFrom :
      (headers : Option HttpRequestHeaders) (config : HttpOriginValidationConfig) (site : String)
      (by : OriginSource)
      → origin_verdict url_origin to_lower_case headers config ≡ valid site by
      → ComesFrom config headers
  origin_verdict-ComesFrom headers config site by h =
      verdict_on_request-ComesFrom config headers _ site by refl h

abbrev pub is_valid : CsrfTokenValidation → Bool
is_valid CsrfTokenValidation.valid = true
is_valid (CsrfTokenValidation.invalid reason) = false

valid_of_is_valid : (v : CsrfTokenValidation) → is_valid v ≡ true → v ≡ CsrfTokenValidation.valid
valid_of_is_valid CsrfTokenValidation.valid e = refl
valid_of_is_valid (CsrfTokenValidation.invalid reason) e = absurd (ground arith)

true_of_verdict :
    (b : Bool) → (if b then csrf_valid else csrf_invalid invalid_csrf_token) ≡ csrf_valid → b ≡ true
true_of_verdict true e = refl
true_of_verdict false e = absurd (ground arith)

valid_of-security_of : (r : CsrfValidationResult) → security_of r ≡ allowed → r ≡ csrf_valid
valid_of-security_of csrf_valid e = refl
valid_of-security_of (csrf_invalid reason) e = absurd (ground arith)

module _ (url_origin : String → Outcome String) (to_lower_case : String → String) (d : Driver)
    (id_at_most : String → String → Bool) (hash : String → Outcome String) where
  -- The validator over the database, as the routes use it.
  abbrev pub stored_token_validator : CsrfTokenValidator Database
  stored_token_validator raw session now = do
    v ← check_token d id_at_most hash raw session now
    pure (is_valid v)

  pub record IsProtected (headers : Option HttpRequestHeaders) (session : Option String)
      (now : Timestamp) (config : HttpOriginValidationConfig) (db : Database) : Type 0 where
    pub comes : ComesFrom url_origin to_lower_case config headers
    pub raw : String
    pub carried : extract_csrf_token to_lower_case headers ≡ some raw
    pub session_id : String
    pub present : session ≡ some session_id
    pub token : IsValidFor d id_at_most hash raw session_id now db

  abbrev Accepts : Option String → Timestamp → Database → String → Database → Type 0
  Accepts session now db raw t =
      (t ≡ db) × ((s : String) × (session ≡ some s) × IsValidFor d id_at_most hash raw s now db)

  ensures_token :
      (raw : String) (session : Option String) (now : Timestamp) (db : Database)
      → Ensures
          (stored_token_validator raw session now)
          db
          (λ b t. b ≡ true → Accepts session now db raw t)
  ensures_token raw session now db =
      ensures_bind {P = λ v t. v ≡ CsrfTokenValidation.valid → Accepts session now db raw t}
        (record {
          at = λ v t h e.
              check_token-IsValidFor d id_at_most hash raw session now db t
                (h ∙ ap (λ x. (ok x, t)) e);
        })
        λ v t q. ensures_pure λ e. q (valid_of_is_valid v e)

  ensures_check :
      (raw : String) (session : Option String) (now : Timestamp) (db : Database)
      → Ensures
          (RequestSecurity.check_token to_lower_case raw session now (some stored_token_validator))
          db
          (λ r t. r ≡ csrf_valid → Accepts session now db raw t)
  ensures_check raw session now db =
      ensures_returning (csrf_invalid csrf_validation_failed) (λ t. λ e. absurd (ground arith))
        (ensures_bind (ensures_token raw session now db)
          λ b t q. ensures_pure λ e. q (true_of_verdict b e))

  ensures_if_present :
      (token session : Option String) (now : Timestamp) (db : Database)
      → Ensures
          (check_if_present to_lower_case token session now (some stored_token_validator))
          db
          (λ r t.
            r ≡ csrf_valid → (raw : String) × (token ≡ some raw) × Accepts session now db raw t)
  ensures_if_present none session now db = ensures_pure λ e. absurd (ground arith)
  ensures_if_present (some raw) session now db =
      ensures_weaker (ensures_check raw session now db) λ r t q e. (raw, refl, q e)

  ensures_protected :
      (token session : Option String) (now : Timestamp) (db : Database)
      → Ensures
          (do
            r ← check_if_present to_lower_case token session now (some stored_token_validator)
            pure (security_of r))
          db
          (λ a t. a ≡ allowed → (raw : String) × (token ≡ some raw) × Accepts session now db raw t)
  ensures_protected token session now db =
      ensures_bind (ensures_if_present token session now db)
        λ r t q. ensures_pure λ e. q (valid_of-security_of r e)

  -- A protected route lets a request through only if the configuration of allowed origins is sound, the
  -- request names one of them, carries a well-formed token and a session, and the table holds that token
  -- for the session, active and unexpired; the check changes nothing.
  pub validate_http_request_security_for_route-IsProtected :
      (headers : Option HttpRequestHeaders) (session : Option String) (now : Timestamp)
      (config : HttpOriginValidationConfig) (db db' : Database)
      → validate_http_request_security_for_route to_lower_case url_origin true headers session now
          config
          (some stored_token_validator)
          db
        ≡ (ok allowed, db')
      → (db' ≡ db) × IsProtected headers session now config db
  unfolding validate_http_request_security_for_route validate_csrf_token_for_route ◌>>=◌
  validate_http_request_security_for_route-IsProtected headers session now config db db' h =
      from_origin _ refl
        (rw (validate_http_request_origin-eq url_origin to_lower_case db headers config) at h)
    where
      from_origin :
          (o : OriginValidationResult)
          → origin_verdict url_origin to_lower_case headers config ≡ o
          → after_origin to_lower_case url_origin o true headers session now
              (some stored_token_validator)
              db
            ≡ (ok allowed, db')
          → (db' ≡ db) × IsProtected headers session now config db
      from_origin (invalid reason) e k = absurd (ground arith)
      from_origin (valid site by) e k =
          let comes = origin_verdict-ComesFrom url_origin to_lower_case headers config site by e in
          let (raw, carried, (left, (s, present, token))) =
            (ensures_protected (extract_csrf_token to_lower_case headers) session now db).at allowed
              db' k refl in
          (
            left,
            record {
              comes = comes;
              raw = raw;
              carried = carried;
              session_id = s;
              present = present;
              token = token;
            },
          )
