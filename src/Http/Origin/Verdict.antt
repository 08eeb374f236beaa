-- ===== src/Http/Origin/Verdict.antt =====
-- src/http/origin-validation.ts without its exceptions: what the check of the origin comes to, as a
-- function of what `new URL` makes of the texts.
use swooshz_platform.Base.{
  ◌≡◌, refl, inl, inr, String, Bool-cases, Option, none, some, List, [], ◌∷◌, if◌then◌else◌, ◌==◌,
}
use swooshz_platform.Base.Text.{is_empty}
use swooshz_platform.Io.{Outcome, ok, thrown, Io, pure, returning_on_error, ◌>>=◌}
use swooshz_platform.Access.{selected}
use swooshz_platform.Http.Headers.{HttpRequestHeaders, read_header}
use swooshz_platform.Http.Origin.{
  HttpOriginValidationConfig, OriginValidationResult, origin, referer, invalid, missing_origin,
  invalid_allowed_origin_config, without_trailing_slash, add_origin, check_allowed,
  normalize_origin_value, normalize_referer_origin, normalize_list, with_base_url, add_before,
  normalize_allowed_origins, check_headers, check_request, validate_http_request_origin,
}

abbrev pub parsed : Outcome String → Option String
parsed (ok o) = some o
parsed (thrown e) = none

abbrev pub if_same : String → Option String → Option String
if_same value none = none
if_same value (some o) = if without_trailing_slash value == o then some o else none

module _ (url_origin : String → Outcome String) (to_lower_case : String → String) where
  -- The origin of a text that is one, but for a slash at its end.
  abbrev pub exact_origin : Option String → Option String
  exact_origin none = none
  exact_origin (some v) = if is_empty v then none else if_same v (parsed (url_origin v))

  -- The origin of a text that is a URL.
  abbrev pub url_site : Option String → Option String
  url_site none = none
  url_site (some v) = if is_empty v then none else parsed (url_origin v)

  -- The origins of texts that all are one.
  abbrev pub exact_origins : List String → Option (List String)
  exact_origins [] = some []
  exact_origins (v ∷ vs) = add_origin (exact_origin (some v)) (exact_origins vs)

  abbrev pub with_site : Option String → Option (List String) → Option (List String)
  with_site url none = none
  with_site none (some origins) = some origins
  with_site (some url) (some origins) =
      if is_empty url then some origins else add_origin (url_site (some url)) (some origins)

  abbrev pub allowed_origins_of : HttpOriginValidationConfig → Option (List String)
  allowed_origins_of config =
      with_site config.public_base_url (exact_origins config.allowed_origins)

  abbrev pub verdict_on_headers :
      List String → Option String → Option String → OriginValidationResult
  verdict_on_headers allowed (some o) r = check_allowed allowed origin (exact_origin (some o))
  verdict_on_headers allowed none (some r) = check_allowed allowed referer (url_site (some r))
  verdict_on_headers allowed none none = invalid missing_origin

  abbrev pub verdict_on_request :
      Option (List String) → Option HttpRequestHeaders → OriginValidationResult
  verdict_on_request none headers = invalid invalid_allowed_origin_config
  verdict_on_request (some allowed) headers =
      verdict_on_headers allowed (selected (read_header to_lower_case headers "origin"))
        (selected (read_header to_lower_case headers "referer"))

  abbrev pub origin_verdict :
      Option HttpRequestHeaders → HttpOriginValidationConfig → OriginValidationResult
  origin_verdict headers config = verdict_on_request (allowed_origins_of config) headers

  module _ {S : Type 0} (s : S) where
    after_read :
        {A B : Type 0} {a : A} (m : Io S A) (f : A → Io S B) → m s ≡ (ok a, s) → (m >>= f) s ≡ f a s
    unfolding ◌>>=◌
    after_read m f h = rw h refl

    caught_exact :
        (v : String) (o : Outcome String)
        → returning_on_error none
            (do
              x ← (λ (t : S). (o, t))
              pure (if without_trailing_slash v == x then some x else none))
            s
          ≡ (ok (if_same v (parsed o)), s)
    unfolding ◌>>=◌
    caught_exact v (ok x) = refl
    caught_exact v (thrown e) = refl

    caught_site :
        (o : Outcome String)
        → returning_on_error none (do x ← (λ (t : S). (o, t)); pure (some x)) s ≡ (ok (parsed o), s)
    unfolding ◌>>=◌
    caught_site (ok x) = refl
    caught_site (thrown e) = refl

    normalize_origin_value-eq :
        (v : Option String)
        → normalize_origin_value url_origin to_lower_case v s ≡ (ok (exact_origin v), s)
    normalize_origin_value-eq none = refl
    normalize_origin_value-eq (some v) = elim (Bool-cases (is_empty v)) [
      | inl e ↦ rw e refl
      | inr e ↦ rw e (caught_exact v (url_origin v))
    ]

    normalize_referer_origin-eq :
        (v : Option String)
        → normalize_referer_origin url_origin to_lower_case v s ≡ (ok (url_site v), s)
    normalize_referer_origin-eq none = refl
    normalize_referer_origin-eq (some v) = elim (Bool-cases (is_empty v)) [
      | inl e ↦ rw e refl
      | inr e ↦ rw e (caught_site (url_origin v))
    ]

    add_before-eq :
        (o : Option String) (rest : Io S (Option (List String))) (origins : Option (List String))
        → rest s ≡ (ok origins, s)
        → add_before url_origin to_lower_case o rest s ≡ (ok (add_origin o origins), s)
    unfolding ◌>>=◌
    add_before-eq none rest origins h = refl
    add_before-eq (some o) rest origins h = rw h refl

    normalize_list-eq :
        (vs : List String)
        → normalize_list url_origin to_lower_case vs s ≡ (ok (exact_origins vs), s)
    unfolding ◌>>=◌
    normalize_list-eq [] = refl
    normalize_list-eq (v ∷ vs) =
        rw (normalize_origin_value-eq (some v)) (add_before-eq _ _ _ (normalize_list-eq vs))

    with_base_url-eq :
        (url : Option String) (origins : Option (List String))
        → with_base_url url_origin to_lower_case url origins s ≡ (ok (with_site url origins), s)
    with_base_url-eq url none = refl
    with_base_url-eq none (some origins) = refl
    with_base_url-eq (some url) (some origins) = elim (Bool-cases (is_empty url)) [
      | inl e ↦ rw e refl
      | inr e ↦ rw e (after_read _ _ (caught_site (url_origin url)))
    ]

    normalize_allowed_origins-eq :
        (config : HttpOriginValidationConfig)
        → normalize_allowed_origins url_origin to_lower_case config s
          ≡ (ok (allowed_origins_of config), s)
    unfolding ◌>>=◌
    normalize_allowed_origins-eq config =
        rw (normalize_list-eq config.allowed_origins) (with_base_url-eq config.public_base_url _)

    check_headers-eq :
        (allowed : List String) (o r : Option String)
        → check_headers url_origin to_lower_case allowed o r s
          ≡ (ok (verdict_on_headers allowed o r), s)
    unfolding ◌>>=◌
    check_headers-eq allowed (some o) r = rw (normalize_origin_value-eq (some o)) refl
    check_headers-eq allowed none (some r) = rw (normalize_referer_origin-eq (some r)) refl
    check_headers-eq allowed none none = refl

    check_request-eq :
        (origins : Option (List String)) (headers : Option HttpRequestHeaders)
        → check_request url_origin to_lower_case origins headers s
          ≡ (ok (verdict_on_request origins headers), s)
    check_request-eq none headers = refl
    check_request-eq (some allowed) headers = check_headers-eq allowed _ _

    pub validate_http_request_origin-eq :
        (headers : Option HttpRequestHeaders) (config : HttpOriginValidationConfig)
        → validate_http_request_origin url_origin to_lower_case headers config s
          ≡ (ok (origin_verdict headers config), s)
    unfolding validate_http_request_origin ◌>>=◌
    validate_http_request_origin-eq headers config =
        rw (normalize_allowed_origins-eq config)
          (check_request-eq (allowed_origins_of config) headers)
