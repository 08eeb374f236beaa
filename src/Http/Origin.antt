-- ===== src/Http/Origin.antt =====
-- src/http/origin-validation.ts: a request that changes state must come from an allowed origin. What
-- `new URL(value).origin` is, or what it throws, is a parameter.
pub mod Verdict
use swooshz_platform.Base.{String, Option, none, some, List, [], ◌∷◌, any, ◌==◌, if◌then◌else◌}
use swooshz_platform.Base.Text.{is_empty}
use swooshz_platform.Io.{Outcome, Io, pure, returning_on_error, ◌>>=◌}
use swooshz_platform.Access.{selected}
use swooshz_platform.Http.Headers.{HttpRequestHeaders, read_header}

pub record HttpOriginValidationConfig : Type 0 where
  pub allowed_origins : List String
  pub public_base_url : Option String

pub data OriginSource : Type 0 where
  origin referer : OriginSource

pub data OriginInvalidReason : Type 0 where
  missing_origin invalid_origin origin_not_allowed invalid_allowed_origin_config :
      OriginInvalidReason

pub data OriginValidationResult : Type 0 where
  valid : String → OriginSource → OriginValidationResult
  invalid : OriginInvalidReason → OriginValidationResult

-- `value.endsWith("/") ? value.slice(0, -1) : value`
unfoldable pub without_trailing_slash : String → String
without_trailing_slash String.[] = String.[]
without_trailing_slash (String.◌∷◌ c String.[]) =
    if String.◌∷◌ c String.[] == "/" then String.[] else String.◌∷◌ c String.[]
without_trailing_slash (String.◌∷◌ c (String.◌∷◌ b s)) =
    String.◌∷◌ c (without_trailing_slash (String.◌∷◌ b s))

-- `normalized.add(origin)`, or the early return of null where there is no origin.
abbrev pub add_origin : Option String → Option (List String) → Option (List String)
add_origin none rest = none
add_origin (some o) none = none
add_origin (some o) (some rest) = some (o ∷ rest)

abbrev pub check_allowed : List String → OriginSource → Option String → OriginValidationResult
check_allowed allowed source none = invalid invalid_origin
check_allowed allowed source (some o) =
    if any (λ a. a == o) allowed then valid o source else invalid origin_not_allowed

module _ {S : Type 0} (url_origin : String → Outcome String) (to_lower_case : String → String) where
  -- `new URL(value).origin`
  abbrev pub new_url_origin : String → Io S String
  new_url_origin value s = (url_origin value, s)

  abbrev pub normalize_origin_value : Option String → Io S (Option String)
  normalize_origin_value none = pure none
  normalize_origin_value (some v) =
      if is_empty v
      then pure none
      else returning_on_error none
          do o ← new_url_origin v; pure (if without_trailing_slash v == o then some o else none)

  abbrev pub normalize_referer_origin : Option String → Io S (Option String)
  normalize_referer_origin none = pure none
  normalize_referer_origin (some v) =
      if is_empty v
      then pure none
      else returning_on_error none do o ← new_url_origin v; pure (some o)

  -- The rest of the loop, and `normalized.add(origin)`; an origin that is none ends it.
  abbrev pub add_before : Option String → Io S (Option (List String)) → Io S (Option (List String))
  add_before none rest = pure none
  add_before (some o) rest = do origins ← rest; pure (add_origin (some o) origins)

  abbrev pub normalize_list : List String → Io S (Option (List String))
  normalize_list [] = pure (some [])
  normalize_list (v ∷ vs) = do o ← normalize_origin_value (some v); add_before o (normalize_list vs)

  abbrev pub with_base_url : Option String → Option (List String) → Io S (Option (List String))
  with_base_url url none = pure none
  with_base_url none (some origins) = pure (some origins)
  with_base_url (some url) (some origins) =
      if is_empty url
      then pure (some origins)
      else do o ← normalize_referer_origin (some url); pure (add_origin o (some origins))

  -- A set is the list of its members.
  abbrev pub normalize_allowed_origins : HttpOriginValidationConfig → Io S (Option (List String))
  normalize_allowed_origins config = do
    origins ← normalize_list config.allowed_origins
    with_base_url config.public_base_url origins

  abbrev pub check_headers :
      List String → Option String → Option String → Io S OriginValidationResult
  check_headers allowed (some o) r = do
    site ← normalize_origin_value (some o)
    pure (check_allowed allowed origin site)
  check_headers allowed none (some r) = do
    site ← normalize_referer_origin (some r)
    pure (check_allowed allowed referer site)
  check_headers allowed none none = pure (invalid missing_origin)

  abbrev pub check_request :
      Option (List String) → Option HttpRequestHeaders → Io S OriginValidationResult
  check_request none headers = pure (invalid invalid_allowed_origin_config)
  check_request (some allowed) headers =
      check_headers allowed (selected (read_header to_lower_case headers "origin"))
        (selected (read_header to_lower_case headers "referer"))

  unfoldable pub validate_http_request_origin :
      Option HttpRequestHeaders → HttpOriginValidationConfig → Io S OriginValidationResult
  validate_http_request_origin headers config = do
    origins ← normalize_allowed_origins config
    check_request origins headers
