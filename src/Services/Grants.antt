-- ===== src/Services/Grants.antt =====
-- src/platform/access-validation-grant-service.ts: the app registers a handle for a grant, another
-- server consumes the handle once, and the grant is asked for while it lasts. The four lookups that
-- `Promise.all` starts together only read, and are made one after the other.
pub mod Sealed
pub mod Commands
pub mod Keeps
pub mod Spent
pub mod Over
pub mod Live
pub mod Registered
use swooshz_platform.Base.{
  ℕ, ◌+◌, String, Bool, true, false, not, ◌&&◌, ◌||◌, Option, none, some, is_some, leb, ◌==◌,
  if◌then◌else◌,
}
use swooshz_platform.Base.Text.{is_empty, utf16_length}
use swooshz_platform.Time.{Timestamp, at, malformed, at_or_before, is_after}
use swooshz_platform.Io.{returning_on_error, Io, pure, ◌>>=◌}
use swooshz_platform.Accounts.{
  Session, User, Workspace, App, Membership, MembershipStatus, Role, admin, operator, viewer,
  unsupported, membership_is_active, active, disabled,
}
use swooshz_platform.Ports.{PlatformRepositories, AccessValidationGrantRecord}
use swooshz_platform.Http.Patterns.{is_letter_or_digit, is_code, matches, every_code}
use swooshz_platform.Services.AppAccess.{
  ProtectedAppAccessDecisionResult, allowed, denied, decide_protected_app_access,
}
use swooshz_platform.Services.Launch.Consume.{AccessValidationGrantDependencies}

pub record RegisterFinalizationHandleInput : Type 0 where
  pub validation_grant_id : String
  pub handle_hash_sha256 : String
  pub expires_at : Timestamp
  pub intended_sqag_origin : String
  pub now : Timestamp

pub record ConsumeFinalizationHandleInput : Type 0 where
  pub raw_handle : String
  pub intended_sqag_origin : String
  pub now : Timestamp

pub record ValidateAccessValidationGrantInput : Type 0 where
  pub validation_grant_id : String
  pub workspace_id : String
  pub app_key : String
  pub now : Timestamp

-- What `validateGrant` returns; its app is always `sqag`.
pub record GrantContext : Type 0 where
  pub user_id : String
  pub workspace_id : String
  pub app_key : String
  pub launch_token_expires_at : Timestamp
  pub current_role : Role

pub record ConsumedHandle : Type 0 where
  pub validation_grant_id : String
  pub context : GrantContext

-- `[A-Za-z0-9_-]`
abbrev pub is_id_char : ℕ → Bool
is_id_char c = is_letter_or_digit c || (is_code b'_' c || is_code b'-' c)

-- `[a-f0-9]`
abbrev pub is_hex_char : ℕ → Bool
is_hex_char c = (leb b'a' c && leb c b'f') || (leb b'0' c && leb c b'9')

-- `value.length >= 32 && value.length <= high && /^[A-Za-z0-9_-]+$/.test(value)`
abbrev pub is_reference_up_to : ℕ → String → Bool
is_reference_up_to high value =
    leb 32 (utf16_length value)
    && (leb (utf16_length value) high && (not (is_empty value) && every_code is_id_char value))

abbrev pub valid_grant_id : String → Bool
valid_grant_id = is_reference_up_to 256

abbrev pub valid_handle : String → Bool
valid_handle = is_reference_up_to 512

abbrev pub is_sqag_launch_role : Role → Bool
is_sqag_launch_role admin = true
is_sqag_launch_role operator = true
is_sqag_launch_role viewer = false
is_sqag_launch_role unsupported = false

-- `Number.isFinite(Date.parse(value))`
abbrev pub is_finite : Timestamp → Bool
is_finite (at ms) = true
is_finite malformed = false

abbrev pub later_by : ℕ → Timestamp → Timestamp
later_by n (at ms) = at (ms + n)
later_by n malformed = malformed

-- The expiry of a handle lies in the next five minutes.
abbrev pub is_bad_expiry : Timestamp → Timestamp → Bool
is_bad_expiry expires now =
    not (is_finite expires) || (at_or_before expires now || is_after expires (later_by 300_000 now))

-- The tests of the grant that was found.
abbrev pub is_unregistrable : RegisterFinalizationHandleInput → AccessValidationGrantRecord → Bool
is_unregistrable input g =
    not (g.intended_origin == input.intended_sqag_origin)
    || (is_some g.revoked_at
        || (is_some g.consumed_at
            || (is_some g.handle_hash
                || (not (is_finite g.launch_token_expires_at)
                    || (at_or_before g.launch_token_expires_at input.now
                        || is_after input.expires_at g.launch_token_expires_at)))))

abbrev pub are_rows_missing :
    AccessValidationGrantRecord
    → Option Session
    → Option User
    → Option Workspace
    → Option App
    → Bool
are_rows_missing g (some s) (some u) (some w) (some a) =
    not (s.user_id == g.user_id) || not (a.key == "sqag")
are_rows_missing g _ _ _ _ = true

abbrev pub with_membership : AccessValidationGrantRecord → Option Membership → Option GrantContext
with_membership g none = none
with_membership g (some m) =
    if not (membership_is_active m.status) || not (is_sqag_launch_role m.role)
    then none
    else some (record {
      user_id = g.user_id;
      workspace_id = g.workspace_id;
      app_key = "sqag";
      launch_token_expires_at = g.launch_token_expires_at;
      current_role = m.role;
    })

abbrev pub is_in_time : Option Timestamp → Timestamp → Bool
is_in_time none now = false
is_in_time (some t) now = not (at_or_before t now)

abbrev pub handle_context : String → Option GrantContext → Option ConsumedHandle
handle_context id none = none
handle_context id (some c) = some (record { validation_grant_id = id; context = c })

module _ {S : Type 0} (r : PlatformRepositories S)
    (deps : AccessValidationGrantDependencies S) where
  abbrev pub is_bad_registration : RegisterFinalizationHandleInput → Bool
  is_bad_registration input =
      not (valid_grant_id input.validation_grant_id)
      || (not (matches is_hex_char 64 64 input.handle_hash_sha256)
          || not (input.intended_sqag_origin == deps.intended_sqag_origin))

  abbrev pub register_found :
      RegisterFinalizationHandleInput → Option AccessValidationGrantRecord → Io S Bool
  register_found input none = pure false
  register_found input (some g) = if is_unregistrable input g then pure false else do
    done ←
        deps.access_validation_grants.register_handle g.id input.handle_hash_sha256 input.expires_at
    pure (is_some done)

  unfoldable pub register_finalization_handle : RegisterFinalizationHandleInput → Io S Bool
  register_finalization_handle input =
      if is_bad_registration input
      then pure false
      else if is_bad_expiry input.expires_at input.now
      then pure false
      else do
        grant ← deps.access_validation_grants.find_by_id input.validation_grant_id
        register_found input grant

  abbrev pub is_unusable_grant : String → String → AccessValidationGrantRecord → Bool
  is_unusable_grant workspace_id app_key g =
      is_some g.revoked_at
      || (not (is_some g.consumed_at)
          || (not (g.workspace_id == workspace_id)
              || (not (app_key == "sqag") || not (g.intended_origin == deps.intended_sqag_origin))))

  abbrev pub with_decision :
      AccessValidationGrantRecord → ProtectedAppAccessDecisionResult → Io S (Option GrantContext)
  with_decision g (denied reason decision) = pure none
  with_decision g (allowed a) = do
    membership ← r.memberships.find_for_user_in_workspace g.user_id g.workspace_id
    pure (with_membership g membership)

  abbrev pub with_grant :
      String → String → Timestamp → Option AccessValidationGrantRecord → Io S (Option GrantContext)
  with_grant workspace_id app_key now none = pure none
  with_grant workspace_id app_key now (some g) =
      if is_unusable_grant workspace_id app_key g then pure none else do
        session ← r.sessions.find_by_id g.session_id
        user ← r.users.find_by_id g.user_id
        workspace ← r.workspaces.find_by_id g.workspace_id
        app ← r.apps.find_by_id g.app_id
        if are_rows_missing g session user workspace app then pure none else do
          decision ← decide_protected_app_access r (record {
            session_id = g.session_id;
            selected_workspace_id = g.workspace_id;
            app_key = "sqag";
            now = now;
            billing_gate = none;
          })
          with_decision g decision

  unfoldable pub validate_grant : String → String → String → Timestamp → Io S (Option GrantContext)
  validate_grant id workspace_id app_key now = do
    grant ← deps.access_validation_grants.find_by_id id
    with_grant workspace_id app_key now grant

  unfoldable pub validate_access_validation_grant :
      ValidateAccessValidationGrantInput → Io S (Option GrantContext)
  validate_access_validation_grant input =
      if not (valid_grant_id input.validation_grant_id)
      then pure none
      else returning_on_error none
          (validate_grant input.validation_grant_id input.workspace_id input.app_key input.now)

  unfoldable pub revoke_access_validation_grant : String → Timestamp → Io S Bool
  revoke_access_validation_grant id now =
      if not (valid_grant_id id)
      then pure false
      else do done ← deps.access_validation_grants.revoke id now; pure (is_some done)

  abbrev pub with_consumed :
      ConsumeFinalizationHandleInput
      → Option AccessValidationGrantRecord
      → Io S (Option ConsumedHandle)
  with_consumed input none = pure none
  with_consumed input (some g) =
      if not (is_in_time g.handle_expires_at input.now)
        || not (g.intended_origin == input.intended_sqag_origin)
      then pure none
      else do
        context ← validate_grant g.id g.workspace_id "sqag" input.now
        pure (handle_context g.id context)

  module _ (handle_hasher : String → Io S String) where
    unfoldable pub consume_finalization_handle :
        ConsumeFinalizationHandleInput → Io S (Option ConsumedHandle)
    consume_finalization_handle input =
        if not (valid_handle input.raw_handle)
          || not (input.intended_sqag_origin == deps.intended_sqag_origin)
        then pure none
        else do
          hash ← handle_hasher input.raw_handle
          consumed ← deps.access_validation_grants.consume_by_handle_hash hash input.now
          with_consumed input consumed
