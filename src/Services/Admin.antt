-- ===== src/Services/Admin.antt =====
-- src/platform/workspace-admin-service.ts: what a workspace admin may do. The operations stand in the
-- modules below; here are the inputs, the authorization and the helpers that they share.
pub mod Members
pub mod Approvals
pub mod Entitlements
pub mod Step
pub mod Authorized
pub mod Refines
pub mod Commands
pub mod History
pub mod Invariant
pub mod Log
use swooshz_platform.Base.{
  ℕ, String, Bool, true, false, not, ◌&&◌, ◌||◌, Option, none, some, List, [], ◌∷◌, find, any,
  count, is_some, ◌==◌, if◌then◌else◌,
}
use swooshz_platform.Time.{Timestamp, at_or_before}
use swooshz_platform.Errors.{
  Exn, AdminError, admin, not_authorized, not_found, invalid_role, repository_failure,
}
use swooshz_platform.Io.{Io, pure, throw, required, catching, ◌>>=◌, ◌>>◌}
use swooshz_platform.Accounts.{
  User, Workspace, Membership, MembershipStatus, Session, Role, operator, viewer, unsupported,
  AuditEvent, MetadataValue, text, null, user_is_active, workspace_is_active, membership_is_active,
  is_admin,
}
use swooshz_platform.Ports.{
  PlatformRepositories, AuditEventRepository, ProviderIdentityRepository,
  WorkspaceMembershipApprovalRepository, WorkspaceAdminTransactionRepository,
}

pub record WorkspaceAdminInput : Type 0 where
  pub session_id : String
  pub workspace_id : String
  pub now : Timestamp

pub record AdminContext : Type 0 where
  pub session : Session
  pub actor : User
  pub workspace : Workspace
  pub actor_membership : Membership

-- `if (refused) throw adminError(code)`
abbrev pub refuse_if : {S : Type 0} → Bool → AdminError → Io S (Unit {0})
refuse_if refused code = if refused then throw (admin code) else pure tt

abbrev pub is_supported_role : Role → Bool
is_supported_role unsupported = false
is_supported_role _ = true

-- `assertValidRole` and `assertValidAddRole`
abbrev pub assert_valid_role : {S : Type 0} → Role → Io S (Unit {0})
assert_valid_role role = refuse_if (not (is_supported_role role)) invalid_role

abbrev pub is_active_admin : Membership → Bool
is_active_admin m = is_admin m.role && membership_is_active m.status

abbrev pub active_admin_count : List Membership → ℕ
active_admin_count memberships = count is_active_admin memberships

abbrev pub find_target_membership : {S : Type 0} → List Membership → String → Io S Membership
find_target_membership memberships id = do
  target ← required (admin not_found) (find (λ m. m.id == id) memberships)
  assert_valid_role target.role
  pure target

-- The texts of roles and statuses in the metadata of an audit event.
abbrev pub role_text : Role → MetadataValue
role_text Role.admin = text "admin"
role_text operator = text "operator"
role_text viewer = text "viewer"
role_text unsupported = text "unsupported"

abbrev pub membership_status_text : MembershipStatus → MetadataValue
membership_status_text MembershipStatus.active = text "active"
membership_status_text MembershipStatus.disabled = text "disabled"

-- `runSafely`: an admin error keeps its code, any other error becomes a repository failure.
abbrev pub admin_error_of : Exn → Exn
admin_error_of (admin code) = admin code
admin_error_of _ = admin repository_failure

abbrev pub run_safely : {S A : Type 0} → Io S A → Io S A
run_safely = catching admin_error_of

-- `runWorkspaceAdminTransaction`
abbrev pub run_workspace_admin_transaction :
    {S A : Type 0}
    → Option (WorkspaceAdminTransactionRepository S)
    → (PlatformRepositories S → Io S A)
    → Io S A
run_workspace_admin_transaction none operation = run_safely (throw (admin repository_failure))
run_workspace_admin_transaction (some t) operation = run_safely (t.run operation)

-- The tests of `requireAdminContext`.
abbrev pub session_is_over : Session → Timestamp → Bool
session_is_over session now =
    if is_some session.revoked_at then true else at_or_before session.expires_at now

abbrev pub may_administer : User → Workspace → Membership → Bool
may_administer actor workspace membership =
    user_is_active actor.status
    && (workspace_is_active workspace.status
        && (membership_is_active membership.status && is_admin membership.role))

module _ {S : Type 0} (repositories : PlatformRepositories S) where
  open repositories use {users, sessions, workspaces, memberships, audit_events}
  open repositories use {provider_identities, membership_approvals}

  unfoldable pub require_admin_context : WorkspaceAdminInput → Io S AdminContext
  require_admin_context input = do
    found ← sessions.find_by_id input.session_id
    session ← required (admin not_authorized) found
    refuse_if (session_is_over session input.now) not_authorized
    actor_found ← users.find_by_id session.user_id
    workspace_found ← workspaces.find_by_id input.workspace_id
    membership_found ← memberships.find_for_user_in_workspace session.user_id input.workspace_id
    actor ← required (admin not_authorized) actor_found
    workspace ← required (admin not_authorized) workspace_found
    membership ← required (admin not_authorized) membership_found
    refuse_if (not (may_administer actor workspace membership)) not_authorized
    pure (record {
      session = session;
      actor = actor;
      workspace = workspace;
      actor_membership = membership;
    })

  abbrev pub require_audit_repository : Io S (AuditEventRepository S)
  require_audit_repository = required (admin repository_failure) audit_events

  abbrev pub require_provider_identity_repository : Io S (ProviderIdentityRepository S)
  require_provider_identity_repository = required (admin repository_failure) provider_identities

  abbrev pub require_approval_repository : Io S (WorkspaceMembershipApprovalRepository S)
  require_approval_repository = required (admin repository_failure) membership_approvals

  abbrev pub append_audit_event : AuditEvent → Io S (Unit {0})
  append_audit_event event = do audit ← require_audit_repository; _ ← audit.append event; pure tt

  abbrev pub revoke_sessions_without_active_memberships : String → Timestamp → Io S (Unit {0})
  revoke_sessions_without_active_memberships user_id now = do
    remaining ← memberships.list_for_user user_id
    if any (λ m. membership_is_active m.status) remaining
        then pure tt
        else do _ ← sessions.revoke_active_for_user user_id now; pure tt
