-- ===== src/Services/Admin/Entitlements.antt =====
-- `setWorkspaceAppEntitlementStatus`: opening and closing an app for a workspace.
use swooshz_platform.Base.{
  String, Bool, true, false, not, ◌&&◌, Option, none, some, [], ◌∷◌, if◌then◌else◌,
}
use swooshz_platform.Errors.{admin, not_found, invalid_entitlement_status}
use swooshz_platform.Io.{Io, pure, required, ◌>>=◌, ◌>>◌}
use swooshz_platform.Accounts.{
  App, AppEntitlement, EntitlementStatus, enabled, trial, suspended, AuditEvent, MetadataValue,
  text, null,
}
use swooshz_platform.Ports.{PlatformRepositories, WorkspaceAdminTransactionRepository}
use swooshz_platform.Access.{allowed_app_status, selected}
use swooshz_platform.Services.Admin.{
  WorkspaceAdminInput, AdminContext, refuse_if, run_workspace_admin_transaction,
  require_admin_context, require_audit_repository, append_audit_event,
}

-- `status: "enabled" | "disabled"` is checked when it runs: here it may be any status.
pub record WorkspaceAppEntitlementStatusInput : Type 0 where
  pub base : WorkspaceAdminInput
  pub open base use *
  pub app_key : String
  pub status : EntitlementStatus
  pub audit_event_id : String
  pub entitlement_id : Option String

abbrev pub is_enabled : EntitlementStatus → Bool
is_enabled enabled = true
is_enabled _ = false

abbrev pub is_disabled : EntitlementStatus → Bool
is_disabled EntitlementStatus.disabled = true
is_disabled _ = false

abbrev pub status_word : EntitlementStatus → String
status_word enabled = "enabled"
status_word EntitlementStatus.disabled = "disabled"
status_word trial = "trial"
status_word suspended = "suspended"

-- `` `workspace.app_entitlement.${status}` `` at the two statuses that the check lets through
abbrev pub entitlement_event_type : EntitlementStatus → String
entitlement_event_type enabled = "workspace.app_entitlement.enabled"
entitlement_event_type EntitlementStatus.disabled = "workspace.app_entitlement.disabled"
entitlement_event_type trial = "workspace.app_entitlement.trial"
entitlement_event_type suspended = "workspace.app_entitlement.suspended"

abbrev pub previous_status_text : Option AppEntitlement → MetadataValue
previous_status_text none = null
previous_status_text (some e) = text (status_word e.status)

abbrev pub entitlement_event :
    WorkspaceAppEntitlementStatusInput
    → AdminContext
    → App
    → Option AppEntitlement
    → String
    → AuditEvent
entitlement_event input context app existing id = record {
  id = input.audit_event_id;
  workspace_id = some input.workspace_id;
  actor_user_id = some context.actor.id;
  event_type = entitlement_event_type input.status;
  target_type = "app_entitlement";
  target_id = id;
  created_at = input.now;
  metadata =
      ("appId", text app.id)
      ∷ ("appKey", text app.key)
      ∷ ("previousStatus", previous_status_text existing)
      ∷ ("newStatus", text (status_word input.status))
      ∷ [];
}

module _ {S : Type 0} where
  unfoldable pub create_missing_entitlement :
      WorkspaceAppEntitlementStatusInput
      → AdminContext
      → PlatformRepositories S
      → App
      → Io S AppEntitlement
  create_missing_entitlement input context r app = do
    refuse_if (not (is_enabled input.status)) not_found
    id ← required (admin not_found) (selected input.entitlement_id)
    r.app_entitlements.create (record {
      id = id;
      workspace_id = input.workspace_id;
      app_id = app.id;
      status = enabled;
      granted_by_user_id = some context.actor.id;
      created_at = input.now;
      updated_at = input.now;
    })

  -- The entitlement that stands in the end: updated, or created where there was none.
  unfoldable pub updated_entitlement :
      WorkspaceAppEntitlementStatusInput
      → AdminContext
      → PlatformRepositories S
      → App
      → Option AppEntitlement
      → Io S AppEntitlement
  updated_entitlement input context r app none = do
    created ← create_missing_entitlement input context r app
    refuse_if (is_disabled input.status) not_found
    pure created
  updated_entitlement input context r app (some existing) = do
    found ←
        r.app_entitlements.update_status existing.id input.status
          (if is_enabled input.status then some context.actor.id else existing.granted_by_user_id)
          input.now
    required (admin not_found) found

  unfoldable pub entitlement_change :
      WorkspaceAppEntitlementStatusInput → PlatformRepositories S → Io S AppEntitlement
  entitlement_change input r = do
    context ← require_admin_context r input.base
    _ ← require_audit_repository r
    found ← r.apps.find_by_key input.app_key
    app ← required (admin not_found) found
    refuse_if (not (allowed_app_status app.status)) not_found
    existing ← r.app_entitlements.find_for_workspace_app input.workspace_id app.id
    updated ← updated_entitlement input context r app existing
    append_audit_event r (entitlement_event input context app existing updated.id)
    pure updated

  unfoldable pub set_workspace_app_entitlement_status :
      Option (WorkspaceAdminTransactionRepository S)
      → WorkspaceAppEntitlementStatusInput
      → Io S AppEntitlement
  set_workspace_app_entitlement_status transactions input = do
    refuse_if (not (is_enabled input.status) && not (is_disabled input.status))
        invalid_entitlement_status
    run_workspace_admin_transaction transactions (entitlement_change input)
