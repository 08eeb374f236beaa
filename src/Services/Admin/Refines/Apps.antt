-- ===== src/Services/Admin/Refines/Apps.antt =====
-- The change of an app entitlement of src/platform/workspace-admin-service.ts is an admin step.
use swooshz_platform.Base.{◌≡◌, refl, not, Option, none, some, List, head?, ◌==◌}
use swooshz_platform.Errors.{admin, repository_failure}
use swooshz_platform.Io.{
  Ensures, ensures_read, ensures_known, ensures_found, ensures_required, ensures_unless,
  ensures_bind, ensures_weaker, ensures_pure,
}
use swooshz_platform.Accounts.{App, AppEntitlement}
use swooshz_platform.Access.{selected, allowed_app_status, is_entitlement_of}
use swooshz_platform.Driver.{Driver}
use swooshz_platform.Db.Statements.{Database, app_entitlements_clash}
use swooshz_platform.Db.Triples.{ensures_row, ensures_ask, ensures_insert, ensures_from}
use swooshz_platform.Db.Apps.{drizzle_audit_events}
use swooshz_platform.Db.Repositories.{drizzle_repositories}
use swooshz_platform.Services.Admin.{AdminContext}
use swooshz_platform.Services.Admin.Entitlements.{
  WorkspaceAppEntitlementStatusInput, create_missing_entitlement, updated_entitlement,
  entitlement_change, entitlement_event_type, is_enabled, is_disabled,
}
use swooshz_platform.Services.Admin.Step.{kept}
use swooshz_platform.Services.Admin.Authorized.{require_admin_context-CanAdminister}
use swooshz_platform.Services.Admin.Refines.Parts.{AdminStep, ensures_logged}

module _ (d : Driver) (db : Database) where
  -- Only the table of entitlements differs.
  abbrev OnlyEntitlements : Database → Type 0
  OnlyEntitlements t = (rows : List AppEntitlement) × (t ≡ record db { app_entitlements = rows })

  create_missing_entitlement-OnlyEntitlements :
      (input : WorkspaceAppEntitlementStatusInput) (context : AdminContext) (app : App)
      → Ensures
          (create_missing_entitlement input context (drizzle_repositories d) app)
          db
          (λ _ t. OnlyEntitlements t)
  unfolding create_missing_entitlement
  create_missing_entitlement-OnlyEntitlements input context app =
      ensures_unless (not (is_enabled input.status)) _ _ λ _.
        ensures_found _ (selected input.entitlement_id) λ id _.
          ensures_weaker
            (ensures_insert d (λ rows b. record b { app_entitlements = rows })
              (λ s. s.app_entitlements) app_entitlements_clash _ db)
            λ made t (rows, (_, (_, e))). (rows, e)

  updated_entitlement-OnlyEntitlements :
      (input : WorkspaceAppEntitlementStatusInput) (context : AdminContext) (app : App)
      (existing : Option AppEntitlement)
      → Ensures
          (updated_entitlement input context (drizzle_repositories d) app existing)
          db
          (λ _ t. OnlyEntitlements t)
  unfolding updated_entitlement
  updated_entitlement-OnlyEntitlements input context app none =
      ensures_bind (create_missing_entitlement-OnlyEntitlements input context app)
        λ made t (rows, e).
          ensures_unless (is_disabled input.status) _ _ λ _. ensures_pure (rows, e)
  updated_entitlement-OnlyEntitlements input context app (some existing) =
      ensures_row (λ t b. record b { app_entitlements = t }) _ db _
        λ rows table _. ensures_required _ (head? rows) λ _ _. (table, refl)

  -- Setting the status of an entitlement is a step of an admin.
  pub entitlement_change-AdminStep :
      (input : WorkspaceAppEntitlementStatusInput)
      → Ensures
          (entitlement_change input (drizzle_repositories d))
          db
          (λ _ db'. AdminStep input.base (λ k. k ≡ entitlement_event_type input.status) db db')
  unfolding entitlement_change
  entitlement_change-AdminStep input =
      ensures_read (require_admin_context-CanAdminister d db input.base) λ context can.
        ensures_known (admin repository_failure) (drizzle_audit_events d) _ (
          ensures_read (ensures_ask (λ s. d.select_one (λ a. a.key == input.app_key) s.apps) db)
            λ found _. ensures_found _ found λ app _.
              ensures_unless (not (allowed_app_status app.status)) _ _ λ _.
                ensures_read
                  (ensures_ask
                    (λ s.
                      d.select_one (is_entitlement_of input.workspace_id app.id) s.app_entitlements)
                    db)
                  λ existing _.
                    ensures_bind (updated_entitlement-OnlyEntitlements input context app existing)
                      λ updated t (rows, e). ensures_from e (
                        ensures_logged d input.base context _ updated db
                          (record db { app_entitlements = rows }) can (refl, (refl, refl)) refl
                          (kept refl) refl refl refl))
