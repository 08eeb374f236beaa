-- ===== src/AuthStates.antt =====
-- The states of src/auth/callback.ts and src/auth/auth-state-repositories.ts: what the server
-- remembers of a sign-in that it began.
use swooshz_platform.Base.{String, Option}
use swooshz_platform.Time.{Timestamp}
use swooshz_platform.Io.{Io}

-- `StoredAuthStateInput` has the same fields.
pub record StoredAuthState : Type 0 where
  pub provider_key : String
  pub state_hash : String
  pub nonce_hash : String
  pub redirect_uri : String
  pub created_at : Timestamp
  pub expires_at : Timestamp

pub record StoredAuthStateLifecycleRecord : Type 0 where
  pub stored : StoredAuthState
  pub open stored use *
  pub consumed_at : Option Timestamp
  pub revoked_at : Option Timestamp

pub record AuthStateLookupInput : Type 0 where
  pub provider_key : String
  pub state_hash : String
  pub now : Timestamp

-- `AuthStateIssueStore` and `AuthStateStore`
pub record AuthStateRepository (S : Type 0) : Type 0 where
  pub store_state : StoredAuthState → Io S StoredAuthState
  pub consume_state : AuthStateLookupInput → Io S (Option StoredAuthState)
