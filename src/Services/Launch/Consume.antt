-- ===== src/Services/Launch/Consume.antt =====
-- src/platform/app-launch-token-consume-service.ts: an app trades a launch token for the identity of
-- its user, once; and `issueAccessValidationGrant` of src/platform/access-validation-grant-service.ts.
use swooshz_platform.Base.{
  String, false, not, Option, none, some, is_some, ltb, ◌==◌, if◌then◌else◌,
}
use swooshz_platform.Base.Text.{trim, is_empty, utf16_length}
use swooshz_platform.Time.{Timestamp, at_or_before}
use swooshz_platform.Errors.{
  plain, launch_consume, LaunchConsumeError, launch_token_lookup_failed, context_lookup_failed,
  launch_token_consume_failed,
}
use swooshz_platform.Io.{Io, pure, throw, rescue, ◌>>=◌}
use swooshz_platform.Accounts.{User, Workspace, Membership, Session, App, Role, UserStatus}
use swooshz_platform.Access.{AccessDecision, BillingGate, AccessDecisionResult}
use swooshz_platform.Ports.{
  PlatformRepositories, AppLaunchTokenRecord, AppLaunchTokenRepository, AccessValidationGrantRecord,
  AccessValidationGrantRepository,
}
use swooshz_platform.Services.AppAccess.{
  ProtectedAppAccessDeniedReason, ProtectedAppAccessDecisionResult, allowed, denied,
  app_access_denied, decide_protected_app_access,
}
use swooshz_platform.Services.Launch.{non_blank_safely}

pub record AccessValidationGrantDependencies (S : Type 0) : Type 0 where
  pub access_validation_grants : AccessValidationGrantRepository S
  pub intended_sqag_origin : String
  pub grant_id_factory : Io S String

unfoldable pub issue_access_validation_grant :
    {S : Type 0}
    → AccessValidationGrantDependencies S
    → AppLaunchTokenRecord
    → Timestamp
    → Io S AccessValidationGrantRecord
issue_access_validation_grant deps token now = do
  id ← deps.grant_id_factory
  if ltb (utf16_length id) 32
      then throw plain
      else deps.access_validation_grants.create (record {
        id = id;
        session_id = token.session_id;
        user_id = token.user_id;
        workspace_id = token.workspace_id;
        app_id = token.app_id;
        intended_origin = deps.intended_sqag_origin;
        launch_token_expires_at = token.expires_at;
        handle_hash = none;
        created_at = now;
        handle_expires_at = none;
        consumed_at = none;
        revoked_at = none;
      })

pub record AppLaunchTokenConsumeInput : Type 0 where
  pub raw_launch_token : String
  pub app_key : String
  pub now : Timestamp

pub data AppLaunchTokenConsumeInvalidReason : Type 0 where
  missing_launch_token invalid_launch_token expired_launch_token consumed_launch_token :
      AppLaunchTokenConsumeInvalidReason
  revoked_launch_token app_mismatch missing_session revoked_session expired_session missing_user :
      AppLaunchTokenConsumeInvalidReason
  missing_workspace missing_app : AppLaunchTokenConsumeInvalidReason

pub record ConsumedLaunch : Type 0 where
  pub user_id : String
  pub email : String
  pub display_name : String
  pub status : UserStatus
  pub workspace_id : String
  pub workspace_slug : String
  pub workspace_name : String
  pub app_key : String
  pub app_name : String
  pub membership_role : Role
  pub launch_token_expires_at : Timestamp
  pub validation_grant_id : Option String

pub data AppLaunchTokenConsumeResult : Type 0 where
  consumed : ConsumedLaunch → AppLaunchTokenConsumeResult
  invalid : AppLaunchTokenConsumeInvalidReason → AppLaunchTokenConsumeResult
  access_denied : Option AccessDecision → AppLaunchTokenConsumeResult

-- `membership_required` with a message of its own
abbrev pub membership_missing : AccessDecision
membership_missing = record {
  result = AccessDecisionResult.membership_required;
  allowed = false;
  message = "Workspace membership is required.";
}

pub record LaunchContext : Type 0 where
  pub session : Session
  pub user : User
  pub workspace : Workspace
  pub app : App

abbrev pub invalid_reason :
    ProtectedAppAccessDeniedReason → Option AccessDecision → AppLaunchTokenConsumeResult
invalid_reason ProtectedAppAccessDeniedReason.missing_session _ = invalid missing_session
invalid_reason ProtectedAppAccessDeniedReason.revoked_session _ = invalid revoked_session
invalid_reason ProtectedAppAccessDeniedReason.expired_session _ = invalid expired_session
invalid_reason app_access_denied decision = access_denied decision

module _ {S : Type 0} (r : PlatformRepositories S) (tokens : AppLaunchTokenRepository S)
    (hash_token : String → Io S String) (billing_gate : Option BillingGate)
    (grants : Option (AccessValidationGrantDependencies S)) where
  abbrev pub issue_grant : AppLaunchTokenRecord → Timestamp → Io S (Option String)
  issue_grant token now = elim grants [
    | none ↦ pure none
    | some deps ↦ issue_access_validation_grant deps token now >>= λ g. pure (some g.id)
  ]

  -- From the write that marks the token as consumed to the answer.
  abbrev pub use_token :
      AppLaunchTokenConsumeInput
      → AppLaunchTokenRecord
      → LaunchContext
      → Membership
      → Io S AppLaunchTokenConsumeResult
  use_token input token c membership = do
    done ←
        rescue (launch_consume launch_token_consume_failed)
          (tokens.consume_unconsumed token.id input.now)
    if not (is_some done) then pure (invalid consumed_launch_token) else do
      grant ← issue_grant token input.now
      pure (
          consumed (record {
            user_id = c.user.id;
            email = c.user.email;
            display_name = c.user.display_name;
            status = c.user.status;
            workspace_id = c.workspace.id;
            workspace_slug = c.workspace.slug;
            workspace_name = c.workspace.display_name;
            app_key = c.app.key;
            app_name = c.app.name;
            membership_role = membership.role;
            launch_token_expires_at = token.expires_at;
            validation_grant_id = grant;
          }))

  abbrev pub use_with_membership :
      AppLaunchTokenConsumeInput
      → AppLaunchTokenRecord
      → LaunchContext
      → Option Membership
      → Io S AppLaunchTokenConsumeResult
  use_with_membership input token c none = pure (access_denied (some membership_missing))
  use_with_membership input token c (some membership) = use_token input token c membership

  abbrev pub use_if_allowed :
      AppLaunchTokenConsumeInput
      → AppLaunchTokenRecord
      → LaunchContext
      → ProtectedAppAccessDecisionResult
      → Io S AppLaunchTokenConsumeResult
  use_if_allowed input token c (denied reason decision) = pure (invalid_reason reason decision)
  use_if_allowed input token c (allowed _) = do
    membership ←
        rescue (launch_consume context_lookup_failed)
          (r.memberships.find_for_user_in_workspace c.user.id c.workspace.id)
    use_with_membership input token c membership

  abbrev pub use_in_context :
      AppLaunchTokenConsumeInput
      → AppLaunchTokenRecord
      → LaunchContext
      → Io S AppLaunchTokenConsumeResult
  use_in_context input token c =
      if not (c.app.key == input.app_key) then pure (invalid app_mismatch) else do
        access ← rescue (launch_consume LaunchConsumeError.access_decision_failed) (
            decide_protected_app_access r (record {
              session_id = token.session_id;
              selected_workspace_id = token.workspace_id;
              app_key = c.app.key;
              now = input.now;
              billing_gate = billing_gate;
            }))
        use_if_allowed input token c access

  -- The checks of the context: session, user, workspace, app.
  abbrev pub check_context :
      AppLaunchTokenConsumeInput
      → AppLaunchTokenRecord
      → Option Session
      → Option User
      → Option Workspace
      → Option App
      → Io S AppLaunchTokenConsumeResult
  check_context input token none _ _ _ = pure (invalid missing_session)
  check_context input token (some s) user workspace app =
      if is_some s.revoked_at
      then pure (invalid revoked_session)
      else if at_or_before s.expires_at input.now
      then pure (invalid expired_session)
      else go user workspace app
    where
      go : Option User → Option Workspace → Option App → Io S AppLaunchTokenConsumeResult
      go none _ _ = pure (invalid missing_user)
      go (some u) none _ = pure (invalid missing_workspace)
      go (some u) (some w) none = pure (invalid missing_app)
      go (some u) (some w) (some a) =
          use_in_context input token (record { session = s; user = u; workspace = w; app = a })

  abbrev pub consume_token :
      AppLaunchTokenConsumeInput → AppLaunchTokenRecord → Io S AppLaunchTokenConsumeResult
  consume_token input token =
      if at_or_before token.expires_at input.now
      then pure (invalid expired_launch_token)
      else if is_some token.consumed_at
      then pure (invalid consumed_launch_token)
      else if is_some token.revoked_at
      then pure (invalid revoked_launch_token)
      else do
        session ←
            rescue (launch_consume context_lookup_failed) (r.sessions.find_by_id token.session_id)
        user ← rescue (launch_consume context_lookup_failed) (r.users.find_by_id token.user_id)
        workspace ←
            rescue (launch_consume context_lookup_failed)
              (r.workspaces.find_by_id token.workspace_id)
        app ← rescue (launch_consume context_lookup_failed) (r.apps.find_by_id token.app_id)
        check_context input token session user workspace app

  abbrev pub consume_found :
      AppLaunchTokenConsumeInput → Option AppLaunchTokenRecord → Io S AppLaunchTokenConsumeResult
  consume_found input none = pure (invalid invalid_launch_token)
  consume_found input (some token) = consume_token input token

  unfoldable pub consume_app_launch_token :
      AppLaunchTokenConsumeInput → Io S AppLaunchTokenConsumeResult
  consume_app_launch_token input =
      let raw = trim input.raw_launch_token in
      if is_empty raw then pure (invalid missing_launch_token) else do
        hash ←
            non_blank_safely (launch_consume LaunchConsumeError.launch_token_hash_failed)
              (hash_token raw)
        token ← rescue (launch_consume launch_token_lookup_failed) (tokens.find_by_token_hash hash)
        consume_found input token
