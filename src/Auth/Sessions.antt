-- ===== src/Auth/Sessions.antt =====
-- src/auth/session-revocation-service.ts: a session is revoked once.
pub mod Over
use swooshz_platform.Base.{String, Option, none, some}
use swooshz_platform.Time.{Timestamp}
use swooshz_platform.Errors.{auth_session, session_lookup_failed, session_revocation_failed}
use swooshz_platform.Io.{Io, pure, rescue, ◌>>=◌}
use swooshz_platform.Accounts.{Session}
use swooshz_platform.Ports.{SessionRepository}

pub data SessionRevocationResult : Type 0 where
  revoked already_revoked : String → Timestamp → SessionRevocationResult
  not_found : SessionRevocationResult

pub record SessionRevocationInput : Type 0 where
  pub session_id : String
  pub now : Timestamp

-- `revokedAt ?? input.now`
abbrev pub time_or : Timestamp → Option Timestamp → Timestamp
time_or now none = now
time_or now (some t) = t

abbrev pub revocation_of : SessionRevocationInput → Option Session → SessionRevocationResult
revocation_of input none = not_found
revocation_of input (some s) = revoked s.id (time_or input.now s.revoked_at)

module _ {S : Type 0} (sessions : SessionRepository S) where
  abbrev pub revoke_active : SessionRevocationInput → Io S SessionRevocationResult
  revoke_active input = do
    done ←
        rescue (auth_session session_revocation_failed) (sessions.revoke input.session_id input.now)
    pure (revocation_of input done)

  abbrev pub revoke_found :
      SessionRevocationInput → Session → Option Timestamp → Io S SessionRevocationResult
  revoke_found input s (some t) = pure (already_revoked s.id t)
  revoke_found input s none = revoke_active input

  abbrev pub revoke_if_found :
      SessionRevocationInput → Option Session → Io S SessionRevocationResult
  revoke_if_found input none = pure not_found
  revoke_if_found input (some s) = revoke_found input s s.revoked_at

  unfoldable pub revoke_platform_session : SessionRevocationInput → Io S SessionRevocationResult
  revoke_platform_session input = do
    session ← rescue (auth_session session_lookup_failed) (sessions.find_by_id input.session_id)
    revoke_if_found input session
