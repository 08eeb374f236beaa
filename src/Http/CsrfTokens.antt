-- ===== src/Http/CsrfTokens.antt =====
-- src/http/csrf-token-service.ts: CSRF tokens are issued for a session and validated against it.
pub mod Issued
pub mod Later
pub mod Valid
use swooshz_platform.Base.{
  String, Bool, true, false, ◌||◌, Option, none, some, is_some, ◌==◌, if◌then◌else◌,
}
use swooshz_platform.Base.Text.{is_blank}
use swooshz_platform.Time.{Timestamp, at_or_before, Seconds}
use swooshz_platform.Errors.{
  Exn, csrf_service, invalid_session, invalid_expiry, token_factory_failed, token_hash_failed,
  token_store_failed,
}
use swooshz_platform.Io.{
  returning_on_error, Io, Outcome, ok, thrown, pure, throw, rescue, ◌>>=◌, ◌>>◌,
}
use swooshz_platform.Csrf.{CsrfTokenPurpose, CsrfTokenRecord, CsrfTokenRepository}
use swooshz_platform.Db.Csrf.{is_inactive}
use swooshz_platform.Services.Launch.{non_blank_safely, get_expires_at_safely}

-- `CsrfTokenFactory`, `CsrfTokenHasher` and `CsrfTokenIdFactory`
pub record CsrfTokenSource (S : Type 0) : Type 0 where
  pub create_token : Io S String
  pub hash_token : String → Io S String
  pub create_id : Io S String

pub record IssueCsrfTokenForSessionInput : Type 0 where
  pub session_id : String
  pub now : Timestamp
  pub ttl_seconds : Seconds
  pub purpose : CsrfTokenPurpose

pub record IssuedCsrfToken : Type 0 where
  pub csrf_token : String
  pub expires_at : Timestamp

pub data RepositoryBackedCsrfTokenInvalidReason : Type 0 where
  missing_session unknown_token expired_token inactive_token validation_failed :
      RepositoryBackedCsrfTokenInvalidReason

pub data CsrfTokenValidation : Type 0 where
  valid : CsrfTokenValidation
  invalid : RepositoryBackedCsrfTokenInvalidReason → CsrfTokenValidation

abbrev pub validity : Timestamp → Option CsrfTokenRecord → CsrfTokenValidation
validity now none = invalid unknown_token
validity now (some r) =
    if is_inactive r
    then invalid inactive_token
    else if at_or_before r.expires_at now
    then invalid expired_token
    else valid

module _ {S : Type 0} (tokens : CsrfTokenRepository S) (source : CsrfTokenSource S) where
  unfoldable pub issue_csrf_token_for_session : IssueCsrfTokenForSessionInput → Io S IssuedCsrfToken
  issue_csrf_token_for_session input =
      if is_blank input.session_id then throw (csrf_service invalid_session) else do
        expires_at ← get_expires_at_safely (csrf_service invalid_expiry) input.now input.ttl_seconds
        token ← non_blank_safely (csrf_service token_factory_failed) source.create_token
        hash ← non_blank_safely (csrf_service token_hash_failed) (source.hash_token token)
        id ← rescue (csrf_service token_store_failed) source.create_id
        rescue (csrf_service token_store_failed) (
            tokens.create_bounded_for_session (record {
              id = id;
              session_id = input.session_id;
              token_hash = hash;
              purpose = input.purpose;
              created_at = input.now;
              expires_at = expires_at;
              consumed_at = none;
              revoked_at = none;
              replaced_by_token_id = none;
            }))
        pure (record { csrf_token = token; expires_at = expires_at })

module _ {S : Type 0} (tokens : CsrfTokenRepository S) (hash_token : String → Io S String) where
  -- `validate` of `createRepositoryBackedCsrfTokenValidator`
  abbrev pub validate_for :
      CsrfTokenPurpose → String → String → Timestamp → Io S CsrfTokenValidation
  validate_for purpose session_id csrf_token now = returning_on_error (invalid validation_failed) do
    hash ← hash_token csrf_token
    found ← tokens.find_by_session_and_token_hash session_id hash purpose
    pure (validity now found)

  unfoldable pub validate :
      CsrfTokenPurpose → String → Option String → Timestamp → Io S CsrfTokenValidation
  validate purpose csrf_token none now = pure (invalid missing_session)
  validate purpose csrf_token (some session_id) now =
      if is_blank session_id
      then pure (invalid missing_session)
      else validate_for purpose session_id csrf_token now
