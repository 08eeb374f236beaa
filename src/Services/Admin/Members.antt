-- ===== src/Services/Admin/Members.antt =====
-- The changes to memberships: `changeWorkspaceMemberRole`, `disableWorkspaceMembership`,
-- `reactivateWorkspaceMembership` and `removeWorkspaceMembership`.
use swooshz_platform.Base.{String, not, ◌&&◌, Option, some, [], ◌∷◌, leb, ◌==◌}
use swooshz_platform.Errors.{
  admin, not_found, last_admin_required, self_change_not_allowed, membership_conflict,
}
use swooshz_platform.Io.{Io, pure, required, ◌>>=◌, ◌>>◌}
use swooshz_platform.Accounts.{
  Membership, MembershipStatus, Role, AuditEvent, text, membership_is_active, is_admin,
}
use swooshz_platform.Ports.{PlatformRepositories, WorkspaceAdminTransactionRepository}
use swooshz_platform.Services.Admin.{
  WorkspaceAdminInput, AdminContext, refuse_if, assert_valid_role, is_active_admin,
  active_admin_count, find_target_membership, role_text, membership_status_text,
  run_workspace_admin_transaction, require_admin_context, require_audit_repository,
  append_audit_event, revoke_sessions_without_active_memberships,
}

pub record WorkspaceRoleChangeInput : Type 0 where
  pub base : WorkspaceAdminInput
  pub open base use *
  pub membership_id : String
  pub role : Role
  pub audit_event_id : String

-- The input of the other three operations.
pub record WorkspaceMembershipInput : Type 0 where
  pub base : WorkspaceAdminInput
  pub open base use *
  pub membership_id : String
  pub audit_event_id : String

-- The event that the four operations append, but for its type and the texts of the new values.
abbrev pub membership_event :
    WorkspaceAdminInput → AdminContext → String → String → Membership → AuditEvent
membership_event input context event_id event_type target = record {
  id = event_id;
  workspace_id = some input.workspace_id;
  actor_user_id = some context.actor.id;
  event_type = event_type;
  target_type = "membership";
  target_id = target.id;
  created_at = input.now;
  metadata =
      ("previousRole", role_text target.role)
      ∷ ("previousStatus", membership_status_text target.status)
      ∷ ("targetUserId", text target.user_id)
      ∷ [];
}

module _ {S : Type 0} where
  unfoldable pub role_change : WorkspaceRoleChangeInput → PlatformRepositories S → Io S Membership
  role_change input r = do
    context ← require_admin_context r input.base
    r.workspaces.lock_for_admin_mutation input.workspace_id
    _ ← require_audit_repository r
    memberships ← r.memberships.list_for_workspace input.workspace_id
    target ← find_target_membership memberships input.membership_id
    refuse_if
        ((is_active_admin target && not (is_admin input.role))
          && leb (active_admin_count memberships) 1)
        last_admin_required
    refuse_if (target.user_id == context.actor.id) self_change_not_allowed
    found ← r.memberships.update_role target.id input.role input.now
    updated ← required (admin not_found) found
    append_audit_event r
        (record (membership_event input.base context input.audit_event_id
          "workspace.membership.role_changed" target) {
            metadata =
                ("previousRole", role_text target.role)
                ∷ ("newRole", role_text input.role)
                ∷ ("previousStatus", membership_status_text target.status)
                ∷ ("targetUserId", text target.user_id)
                ∷ [];
          })
    pure updated

  unfoldable pub disabling : WorkspaceMembershipInput → PlatformRepositories S → Io S Membership
  disabling input r = do
    context ← require_admin_context r input.base
    r.workspaces.lock_for_admin_mutation input.workspace_id
    _ ← require_audit_repository r
    memberships ← r.memberships.list_for_workspace input.workspace_id
    target ← find_target_membership memberships input.membership_id
    refuse_if (is_active_admin target && leb (active_admin_count memberships) 1) last_admin_required
    refuse_if (target.user_id == context.actor.id) self_change_not_allowed
    found ← r.memberships.update_status target.id MembershipStatus.disabled input.now
    updated ← required (admin not_found) found
    revoke_sessions_without_active_memberships r target.user_id input.now
    append_audit_event r (
        membership_event input.base context input.audit_event_id "workspace.membership.disabled"
          target)
    pure updated

  unfoldable pub reactivation : WorkspaceMembershipInput → PlatformRepositories S → Io S Membership
  reactivation input r = do
    context ← require_admin_context r input.base
    r.workspaces.lock_for_admin_mutation input.workspace_id
    _ ← require_audit_repository r
    memberships ← r.memberships.list_for_workspace input.workspace_id
    target ← find_target_membership memberships input.membership_id
    refuse_if (target.user_id == context.actor.id) self_change_not_allowed
    refuse_if (membership_is_active target.status) membership_conflict
    found ← r.memberships.update_status target.id MembershipStatus.active input.now
    updated ← required (admin not_found) found
    append_audit_event r
        (record (membership_event input.base context input.audit_event_id
          "workspace.membership.reactivated" target) {
            metadata =
                ("previousRole", role_text target.role)
                ∷ ("previousStatus", membership_status_text target.status)
                ∷ ("newStatus", text "active")
                ∷ ("targetUserId", text target.user_id)
                ∷ [];
          })
    pure updated

  unfoldable pub removal : WorkspaceMembershipInput → PlatformRepositories S → Io S Membership
  removal input r = do
    context ← require_admin_context r input.base
    r.workspaces.lock_for_admin_mutation input.workspace_id
    _ ← require_audit_repository r
    memberships ← r.memberships.list_for_workspace input.workspace_id
    target ← find_target_membership memberships input.membership_id
    refuse_if (is_active_admin target && leb (active_admin_count memberships) 1) last_admin_required
    refuse_if (target.user_id == context.actor.id) self_change_not_allowed
    found ← r.memberships.remove_if_current_target (record {
      id = target.id;
      workspace_id = target.workspace_id;
      user_id = target.user_id;
      role = target.role;
      status = target.status;
    })
    removed ← required (admin not_found) found
    revoke_sessions_without_active_memberships r target.user_id input.now
    append_audit_event r (
        membership_event input.base context input.audit_event_id "workspace.membership.removed"
          target)
    pure removed

  module _ (transactions : Option (WorkspaceAdminTransactionRepository S)) where
    unfoldable pub change_workspace_member_role : WorkspaceRoleChangeInput → Io S Membership
    change_workspace_member_role input = do
      assert_valid_role input.role
      run_workspace_admin_transaction transactions (role_change input)

    unfoldable pub disable_workspace_membership : WorkspaceMembershipInput → Io S Membership
    disable_workspace_membership input =
        run_workspace_admin_transaction transactions (disabling input)

    unfoldable pub reactivate_workspace_membership : WorkspaceMembershipInput → Io S Membership
    reactivate_workspace_membership input =
        run_workspace_admin_transaction transactions (reactivation input)

    unfoldable pub remove_workspace_membership : WorkspaceMembershipInput → Io S Membership
    remove_workspace_membership input = run_workspace_admin_transaction transactions (removal input)
