-- ===== src/Services/Admin/Approvals.antt =====
-- Adding members and approvals: `addExistingWorkspaceUserByEmail`, `addWorkspaceMemberByEmail` and
-- `revokeWorkspaceMembershipApproval`, with `normalizeEmail` of src/accounts/normalization.ts. What
-- `toLowerCase` makes of a text is a parameter.
use swooshz_platform.Base.{
  String, Bool, not, ◌&&◌, ◌||◌, Option, none, some, List, [], ◌∷◌, is_some, ◌==◌, if◌then◌else◌,
}
use swooshz_platform.Base.Text.{trim, is_empty}
use swooshz_platform.Errors.{admin, not_found, membership_conflict, approval_conflict}
use swooshz_platform.Io.{Io, pure, required, ◌>>=◌, ◌>>◌}
use swooshz_platform.Accounts.{
  User, Membership, MembershipStatus, Role, AuditEvent, text, user_is_active,
}
use swooshz_platform.Ports.{
  ProviderIdentity, WorkspaceMembershipApprovalRecord, pending, revoked, PlatformRepositories,
  WorkspaceMembershipApprovalRepository, WorkspaceAdminTransactionRepository,
}
use swooshz_platform.Db.Statements.{is_pending}
use swooshz_platform.Services.Admin.{
  WorkspaceAdminInput, AdminContext, refuse_if, assert_valid_role, role_text,
  run_workspace_admin_transaction, require_admin_context, require_audit_repository,
  require_provider_identity_repository, require_approval_repository, append_audit_event,
}

pub record WorkspaceMemberAddInput : Type 0 where
  pub base : WorkspaceAdminInput
  pub open base use *
  pub target_email : String
  pub role : Role
  pub membership_id : String
  pub approval_id : String
  pub audit_event_id : String

pub record WorkspaceMembershipApprovalRevokeInput : Type 0 where
  pub base : WorkspaceAdminInput
  pub open base use *
  pub approval_id : String
  pub audit_event_id : String

pub data WorkspaceMemberAddResult : Type 0 where
  existing_user_added : Membership → WorkspaceMemberAddResult
  pending_approval_created : WorkspaceMembershipApprovalRecord → WorkspaceMemberAddResult

-- `identities.length === 0`
abbrev pub no_identities : List ProviderIdentity → Bool
no_identities [] = Bool.true
no_identities (_ ∷ _) = Bool.false

abbrev pub new_membership : WorkspaceMemberAddInput → String → Membership
new_membership input user_id = record {
  id = input.membership_id;
  workspace_id = input.workspace_id;
  user_id = user_id;
  role = input.role;
  status = MembershipStatus.active;
  created_at = input.now;
  updated_at = input.now;
}

abbrev pub new_approval :
    WorkspaceMemberAddInput → AdminContext → String → WorkspaceMembershipApprovalRecord
new_approval input context email = record {
  id = input.approval_id;
  workspace_id = input.workspace_id;
  email = email;
  role = input.role;
  status = pending;
  requested_by_user_id = some context.actor.id;
  created_at = input.now;
  updated_at = input.now;
  accepted_at = none;
  revoked_at = none;
  accepted_user_id = none;
  revoked_by_user_id = none;
}

abbrev pub membership_added_event :
    WorkspaceMemberAddInput → AdminContext → String → String → AuditEvent
membership_added_event input context membership_id user_id = record {
  id = input.audit_event_id;
  workspace_id = some input.workspace_id;
  actor_user_id = some context.actor.id;
  event_type = "workspace.membership.added";
  target_type = "membership";
  target_id = membership_id;
  created_at = input.now;
  metadata =
      ("newRole", role_text input.role)
      ∷ ("newStatus", text "active")
      ∷ ("targetUserId", text user_id)
      ∷ ("source", text "existing_provider_backed_user")
      ∷ [];
}

abbrev pub approval_created_event : WorkspaceMemberAddInput → AdminContext → String → AuditEvent
approval_created_event input context approval_id = record {
  id = input.audit_event_id;
  workspace_id = some input.workspace_id;
  actor_user_id = some context.actor.id;
  event_type = "workspace.membership_approval.created";
  target_type = "membership_approval";
  target_id = approval_id;
  created_at = input.now;
  metadata =
      ("newRole", role_text input.role)
      ∷ ("newStatus", text "pending")
      ∷ ("source", text "invite_less_onboarding")
      ∷ [];
}

abbrev pub approval_revoked_event :
    WorkspaceMembershipApprovalRevokeInput
    → AdminContext
    → WorkspaceMembershipApprovalRecord
    → AuditEvent
approval_revoked_event input context approval = record {
  id = input.audit_event_id;
  workspace_id = some input.workspace_id;
  actor_user_id = some context.actor.id;
  event_type = "workspace.membership_approval.revoked";
  target_type = "membership_approval";
  target_id = approval.id;
  created_at = input.now;
  metadata =
      ("previousStatus", text "pending")
      ∷ ("newStatus", text "revoked")
      ∷ ("newRole", role_text approval.role)
      ∷ [];
}

module _ {S : Type 0} where
  -- `createActiveMembershipForExistingProviderUser`, which the other operation repeats in place
  unfoldable pub create_active_membership :
      WorkspaceMemberAddInput → AdminContext → PlatformRepositories S → String → Io S Membership
  create_active_membership input context r user_id = do
    membership ← r.memberships.create (new_membership input user_id)
    append_audit_event r (membership_added_event input context membership.id user_id)
    pure membership

  unfoldable pub create_approval :
      WorkspaceMemberAddInput
      → AdminContext
      → PlatformRepositories S
      → WorkspaceMembershipApprovalRepository S
      → String
      → Io S WorkspaceMembershipApprovalRecord
  create_approval input context r approvals email = do
    existing ← approvals.find_pending_for_workspace_email input.workspace_id email
    refuse_if (is_some existing) approval_conflict
    approval ← approvals.create (new_approval input context email)
    append_audit_event r (approval_created_event input context approval.id)
    pure approval

  unfoldable pub approval_revocation :
      WorkspaceMembershipApprovalRevokeInput
      → PlatformRepositories S
      → Io S WorkspaceMembershipApprovalRecord
  approval_revocation input r = do
    context ← require_admin_context r input.base
    _ ← require_audit_repository r
    approvals ← require_approval_repository r
    found ← approvals.find_by_id input.approval_id
    approval ← required (admin not_found) found
    refuse_if
        (not (approval.workspace_id == input.workspace_id) || not (is_pending approval.status))
        not_found
    assert_valid_role approval.role
    changed ← approvals.update_pending_status approval.id revoked (record {
      updated_at = input.now;
      accepted_at = none;
      revoked_at = some (some input.now);
      accepted_user_id = none;
      revoked_by_user_id = some (some context.actor.id);
    })
    updated ← required (admin not_found) changed
    append_audit_event r (approval_revoked_event input context approval)
    pure updated

module _ (to_lower_case : String → String) where
  abbrev pub normalize_email : String → String
  normalize_email email = to_lower_case (trim email)

  module _ {S : Type 0} where
    unfoldable pub existing_user_addition :
        WorkspaceMemberAddInput → PlatformRepositories S → Io S Membership
    existing_user_addition input r = do
      context ← require_admin_context r input.base
      _ ← require_audit_repository r
      let email = normalize_email input.target_email
      refuse_if (is_empty email) not_found
      found ← r.users.find_by_normalized_email email
      target ← required (admin not_found) found
      refuse_if (not (user_is_active target.status)) not_found
      providers ← require_provider_identity_repository r
      identities ← providers.list_for_user target.id
      refuse_if (no_identities identities) not_found
      existing ← r.memberships.find_for_user_in_workspace target.id input.workspace_id
      refuse_if (is_some existing) membership_conflict
      create_active_membership input context r target.id

    -- The branch for a known user: the membership, or `none` where an approval is to be made.
    unfoldable pub add_known_user :
        WorkspaceMemberAddInput
        → AdminContext
        → PlatformRepositories S
        → User
        → Io S (Option Membership)
    add_known_user input context r target = do
      existing ← r.memberships.find_for_user_in_workspace target.id input.workspace_id
      refuse_if (is_some existing) membership_conflict
      providers ← require_provider_identity_repository r
      identities ← providers.list_for_user target.id
      if user_is_active target.status && not (no_identities identities)
          then (do
            membership ← create_active_membership input context r target.id
            pure (some membership))
          else (do refuse_if (not (user_is_active target.status)) not_found; pure none)

    abbrev pub add_if_known :
        WorkspaceMemberAddInput
        → AdminContext
        → PlatformRepositories S
        → Option User
        → Io S (Option Membership)
    add_if_known input context r none = pure none
    add_if_known input context r (some target) = add_known_user input context r target

    unfoldable pub member_addition :
        WorkspaceMemberAddInput → PlatformRepositories S → Io S WorkspaceMemberAddResult
    member_addition input r = do
      context ← require_admin_context r input.base
      _ ← require_audit_repository r
      approvals ← require_approval_repository r
      let email = normalize_email input.target_email
      refuse_if (is_empty email) not_found
      target ← r.users.find_by_normalized_email email
      added ← add_if_known input context r target
      elim added [
        | some membership ↦ pure (existing_user_added membership)
        | none ↦ create_approval input context r approvals email >>= λ a.
            pure (pending_approval_created a)
      ]

    module _ (transactions : Option (WorkspaceAdminTransactionRepository S)) where
      unfoldable pub add_existing_workspace_user_by_email :
          WorkspaceMemberAddInput → Io S Membership
      add_existing_workspace_user_by_email input = do
        assert_valid_role input.role
        run_workspace_admin_transaction transactions (existing_user_addition input)

      unfoldable pub add_workspace_member_by_email :
          WorkspaceMemberAddInput → Io S WorkspaceMemberAddResult
      add_workspace_member_by_email input = do
        assert_valid_role input.role
        run_workspace_admin_transaction transactions (member_addition input)

unfoldable pub revoke_workspace_membership_approval :
    {S : Type 0}
    → Option (WorkspaceAdminTransactionRepository S)
    → WorkspaceMembershipApprovalRevokeInput
    → Io S WorkspaceMembershipApprovalRecord
revoke_workspace_membership_approval transactions input =
    run_workspace_admin_transaction transactions (approval_revocation input)
