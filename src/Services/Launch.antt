-- ===== src/Services/Launch.antt =====
-- Launch tokens: src/platform/app-launch-intent-service.ts issues them. What makes and hashes a token,
-- and what makes an id, is given by the caller and may throw.
pub mod Consume
pub mod Spent
pub mod Commands
pub mod Keeps
pub mod Refused
pub mod FirstUse
pub mod SingleUse
use swooshz_platform.Base.{
  ℕ, suc, ◌+◌, ◌*◌, String, Bool, true, false, not, Option, none, some, List, [], ◌∷◌, ◌==◌,
  if◌then◌else◌,
}
use swooshz_platform.Base.Text.{is_blank}
use swooshz_platform.Time.{
  Timestamp, at, malformed, to_iso_string, Seconds, pos, negsuc, not_finite,
}
use swooshz_platform.Errors.{
  Exn, plain, range_error, launch_intent, access_decision_failed, app_lookup_failed, invalid_expiry,
  launch_token_factory_failed, launch_token_hash_failed, launch_token_store_failed,
}
use swooshz_platform.Io.{Io, pure, throw, required, rescue, ◌>>=◌, ◌>>◌}
use swooshz_platform.Accounts.{App}
use swooshz_platform.Access.{AccessDecision, BillingGate}
use swooshz_platform.Ports.{PlatformRepositories, AppLaunchTokenRecord, AppLaunchTokenRepository}
use swooshz_platform.Services.AppAccess.{
  AllowedAccess, ProtectedAppAccessDeniedReason, ProtectedAppAccessDecisionResult, allowed, denied,
  app_access_denied, decide_protected_app_access,
}

-- `AppLaunchTokenFactory`, `AppLaunchTokenHasher` and `AppLaunchTokenIdFactory`
pub record LaunchTokenSource (S : Type 0) : Type 0 where
  pub create_token : Io S String
  pub hash_token : String → Io S String
  pub create_id : Io S String

pub record AppLaunchIntentInput : Type 0 where
  pub session_id : String
  pub selected_workspace_id : String
  pub app_key : String
  pub now : Timestamp

pub record CreatedLaunch : Type 0 where
  pub app_key : String
  pub workspace_id : String
  pub app_launch_url : Option String
  pub launch_token : String
  pub launch_token_expires_at : Timestamp

pub data AppLaunchIntentResult : Type 0 where
  created : CreatedLaunch → AppLaunchIntentResult
  unauthenticated : ProtectedAppAccessDeniedReason → AppLaunchIntentResult
  access_denied : Option AccessDecision → AppLaunchIntentResult

-- The answer where the decision did not allow the launch.
abbrev pub refusal : ProtectedAppAccessDeniedReason → Option AccessDecision → AppLaunchIntentResult
refusal app_access_denied decision = access_denied decision
refusal reason decision = unauthenticated reason

-- `getExpiresAtSafely`: the `RangeError` of `toISOString` is not caught. `e` is
-- the error of the service: the CSRF tokens have the same function.
abbrev pub get_expires_at_safely : {S : Type 0} → Exn → Timestamp → Seconds → Io S Timestamp
get_expires_at_safely e (at now) (pos (suc s)) =
    required range_error (to_iso_string (now + suc s * 1000))
get_expires_at_safely e _ _ = throw e

module _ {S : Type 0} (e : Exn) where
  -- `const value = await make(); if (!value.trim()) throw`, all errors as `e`
  abbrev pub non_blank_safely : Io S String → Io S String
  non_blank_safely make =
      rescue e do value ← make; if is_blank value then throw plain else pure value

module _ {S : Type 0} (r : PlatformRepositories S) (tokens : AppLaunchTokenRepository S)
    (source : LaunchTokenSource S) where
  abbrev pub issue_for : AppLaunchIntentInput → Seconds → AllowedAccess → Io S AppLaunchIntentResult
  issue_for input ttl_seconds access = do
    app ←
        rescue (launch_intent app_lookup_failed)
          (r.apps.find_by_key access.app_key >>= λ found. required plain found)
    expires_at ← get_expires_at_safely (launch_intent invalid_expiry) input.now ttl_seconds
    token ← non_blank_safely (launch_intent launch_token_factory_failed) source.create_token
    hash ← non_blank_safely (launch_intent launch_token_hash_failed) (source.hash_token token)
    id ← rescue (launch_intent launch_token_store_failed) source.create_id
    rescue (launch_intent launch_token_store_failed) (
        tokens.create (record {
          id = id;
          session_id = access.session_id;
          user_id = access.user_id;
          workspace_id = access.workspace_id;
          app_id = app.id;
          token_hash = hash;
          created_at = input.now;
          expires_at = expires_at;
          consumed_at = none;
          revoked_at = none;
        }))
    pure (
        created (record {
          app_key = access.app_key;
          workspace_id = access.workspace_id;
          app_launch_url = app.launch_url;
          launch_token = token;
          launch_token_expires_at = expires_at;
        }))

  abbrev pub issue_if_allowed :
      AppLaunchIntentInput → Seconds → ProtectedAppAccessDecisionResult → Io S AppLaunchIntentResult
  issue_if_allowed input ttl_seconds (allowed access) = issue_for input ttl_seconds access
  issue_if_allowed input ttl_seconds (denied reason decision) = pure (refusal reason decision)

  unfoldable pub create_app_launch_intent :
      Option BillingGate → Seconds → AppLaunchIntentInput → Io S AppLaunchIntentResult
  create_app_launch_intent billing_gate ttl_seconds input = do
    access ← rescue (launch_intent access_decision_failed) (
        decide_protected_app_access r (record {
          session_id = input.session_id;
          selected_workspace_id = input.selected_workspace_id;
          app_key = input.app_key;
          now = input.now;
          billing_gate = billing_gate;
        }))
    issue_if_allowed input ttl_seconds access
