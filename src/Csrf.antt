-- ===== src/Csrf.antt =====
-- src/http/csrf-token-repositories.ts: the record of a CSRF token and its repository. The only purpose
-- of a token is a browser session.
use swooshz_platform.Base.{String, Option}
use swooshz_platform.Time.{Timestamp}
use swooshz_platform.Io.{Io}

pub data CsrfTokenPurpose : Type 0 where
  browser_session : CsrfTokenPurpose

pub record CsrfTokenRecord : Type 0 where
  pub id : String
  pub session_id : String
  pub token_hash : String
  pub purpose : CsrfTokenPurpose
  pub created_at : Timestamp
  pub expires_at : Timestamp
  pub consumed_at : Option Timestamp
  pub revoked_at : Option Timestamp
  pub replaced_by_token_id : Option String

pub record CsrfTokenRepository (S : Type 0) : Type 0 where
  pub create_bounded_for_session : CsrfTokenRecord → Io S CsrfTokenRecord
  pub find_by_session_and_token_hash :
      String → String → CsrfTokenPurpose → Io S (Option CsrfTokenRecord)
