-- ===== src/Services/Admin/Commands.antt =====
-- The exported operations of src/platform/workspace-admin-service.ts that change the workspace, as
-- commands on the database, and sequences of them.
use swooshz_platform.Base.{◌≡◌, String, some, List, [], ◌∷◌}
use swooshz_platform.Errors.{AdminError, admin}
use swooshz_platform.Io.{Io, Outcome, ok, thrown, pure, ◌>>=◌}
use swooshz_platform.Driver.{Driver}
use swooshz_platform.Db.Statements.{Database}
use swooshz_platform.Db.Repositories.{drizzle_transactions}
use swooshz_platform.Services.Admin.{WorkspaceAdminInput}
use swooshz_platform.Services.Admin.Refines.Parts.{AdminStep}
use swooshz_platform.Services.Admin.Refines.Additions.{IsAddition}
use swooshz_platform.Services.Admin.Members.{
  WorkspaceRoleChangeInput, WorkspaceMembershipInput, change_workspace_member_role,
  disable_workspace_membership, reactivate_workspace_membership, remove_workspace_membership,
}
use swooshz_platform.Services.Admin.Approvals.{
  WorkspaceMemberAddInput, WorkspaceMembershipApprovalRevokeInput,
  add_existing_workspace_user_by_email, add_workspace_member_by_email,
  revoke_workspace_membership_approval,
}
use swooshz_platform.Services.Admin.Entitlements.{
  WorkspaceAppEntitlementStatusInput, entitlement_event_type, set_workspace_app_entitlement_status,
}

pub data AdminCommand : Type 0 where
  change_role : WorkspaceRoleChangeInput → AdminCommand
  disable reactivate remove : WorkspaceMembershipInput → AdminCommand
  add_existing_user add_member : WorkspaceMemberAddInput → AdminCommand
  revoke_approval : WorkspaceMembershipApprovalRevokeInput → AdminCommand
  set_entitlement : WorkspaceAppEntitlementStatusInput → AdminCommand

abbrev pub admin_input : AdminCommand → WorkspaceAdminInput
admin_input (change_role input) = input.base
admin_input (disable input) = input.base
admin_input (reactivate input) = input.base
admin_input (remove input) = input.base
admin_input (add_existing_user input) = input.base
admin_input (add_member input) = input.base
admin_input (revoke_approval input) = input.base
admin_input (set_entitlement input) = input.base

-- The types that the event of a command may have.
abbrev pub HasTypeOf : AdminCommand → String → Type 0
HasTypeOf (change_role input) k = k ≡ "workspace.membership.role_changed"
HasTypeOf (disable input) k = k ≡ "workspace.membership.disabled"
HasTypeOf (reactivate input) k = k ≡ "workspace.membership.reactivated"
HasTypeOf (remove input) k = k ≡ "workspace.membership.removed"
HasTypeOf (add_existing_user input) k = k ≡ "workspace.membership.added"
HasTypeOf (add_member input) k = IsAddition k
HasTypeOf (revoke_approval input) k = k ≡ "workspace.membership_approval.revoked"
HasTypeOf (set_entitlement input) k = k ≡ entitlement_event_type input.status

-- How a command ends: as a step of an admin, or with an error of the service and no change.
abbrev pub IsSettled : Database → AdminCommand → Outcome (Unit {0}) → Database → Type 0
IsSettled db c (ok _) db' = AdminStep (admin_input c) (HasTypeOf c) db db'
IsSettled db c (thrown e) db' = (db' ≡ db) × ((code : AdminError) × (e ≡ admin code))

abbrev pub done : {S A : Type 0} → Io S A → Io S (Unit {0})
done m = m >>= λ _. pure tt

module _ (d : Driver) (to_lower_case : String → String) where
  abbrev pub perform : AdminCommand → Io Database (Unit {0})
  perform (change_role input) =
      done (change_workspace_member_role (some (drizzle_transactions d)) input)
  perform (disable input) =
      done (disable_workspace_membership (some (drizzle_transactions d)) input)
  perform (reactivate input) =
      done (reactivate_workspace_membership (some (drizzle_transactions d)) input)
  perform (remove input) = done (remove_workspace_membership (some (drizzle_transactions d)) input)
  perform (add_existing_user input) =
      done
        (add_existing_workspace_user_by_email to_lower_case (some (drizzle_transactions d)) input)
  perform (add_member input) =
      done (add_workspace_member_by_email to_lower_case (some (drizzle_transactions d)) input)
  perform (revoke_approval input) =
      done (revoke_workspace_membership_approval (some (drizzle_transactions d)) input)
  perform (set_entitlement input) =
      done (set_workspace_app_entitlement_status (some (drizzle_transactions d)) input)

  -- Commands one after the other, whatever becomes of each: an error is reported to its caller.
  unfoldable pub perform_all : List AdminCommand → Database → Database
  perform_all [] db = db
  perform_all (c ∷ cs) db = perform_all cs (perform c db).1
