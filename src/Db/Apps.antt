-- ===== src/Db/Apps.antt =====
-- The repositories of apps, entitlements, audit events and launch tokens in src/db/repositories.ts,
-- and of grants in src/db/access-validation-grant-repository.ts.
use swooshz_platform.Time.{is_after}
use swooshz_platform.Accounts.{AuditEvent}
use swooshz_platform.Base.{take, sort_by, Bool, true, not, ◌&&◌, some, head?, is_some, ◌==◌}
use swooshz_platform.Io.{pure, ◌>>=◌}
use swooshz_platform.Ports.{
  AppLaunchTokenRecord, AccessValidationGrantRecord, AppRepository, AppEntitlementRepository,
  AuditEventRepository, AppLaunchTokenRepository, AccessValidationGrantRepository,
}
use swooshz_platform.Driver.{Driver}
use swooshz_platform.Db.Statements.{
  Database, ask, write, one_required, apps_clash, app_entitlements_clash, audit_events_clash,
  app_launch_tokens_clash, grants_clash, column_eq,
}

-- `isNull(consumedAt)` and `isNull(revokedAt)`
abbrev pub is_unused : AppLaunchTokenRecord → Bool
is_unused t = not (is_some t.consumed_at) && not (is_some t.revoked_at)

-- `right.createdAt.localeCompare(left.createdAt)` on the ISO texts that the mapper makes: their order
-- is that of the times.
abbrev pub created_later : AuditEvent → AuditEvent → Bool
created_later a b = not (is_after b.created_at a.created_at)

abbrev pub is_open_grant : AccessValidationGrantRecord → Bool
is_open_grant g = not (is_some g.consumed_at) && not (is_some g.revoked_at)

module _ (d : Driver) where
  abbrev pub drizzle_apps : AppRepository Database
  drizzle_apps = record {
    find_by_key = λ key db. ask (d.select_one (λ a. a.key == key) db.apps) db;
    find_by_id = λ id db. ask (d.select_one (λ a. a.id == id) db.apps) db;
    list_all = λ db. ask (d.select (λ _. true) db.apps) db;
    create = λ app. do
      rows ← λ db. write (λ t b. record b { apps = t }) (d.insert apps_clash app db.apps) db
      one_required rows;
  }

  abbrev pub drizzle_app_entitlements : AppEntitlementRepository Database
  drizzle_app_entitlements = record {
    find_for_workspace_app = λ workspace_id app_id db.
        ask
          (d.select_one (λ e. (e.workspace_id == workspace_id) && (e.app_id == app_id))
            db.app_entitlements)
          db;
    list_for_workspace = λ workspace_id db.
        ask (d.select (λ e. e.workspace_id == workspace_id) db.app_entitlements) db;
    create = λ entitlement. do
      rows ← λ db.
          write (λ t b. record b { app_entitlements = t })
            (d.insert app_entitlements_clash entitlement db.app_entitlements) db
      one_required rows;
    update_status = λ id status granted_by updated_at. do
      rows ← λ db.
          write (λ t b. record b { app_entitlements = t })
            (d.update (λ e. e.id == id)
              (λ e. record e {
                status = status;
                granted_by_user_id = granted_by;
                updated_at = updated_at;
              })
              db.app_entitlements)
            db
      pure (head? rows);
  }

  abbrev pub drizzle_audit_events : AuditEventRepository Database
  drizzle_audit_events = record {
    append = λ event. do
      rows ← λ db.
          write (λ t b. record b { audit_events = t })
            (d.insert audit_events_clash event db.audit_events) db
      one_required rows;
    list_for_workspace = λ workspace_id limit. do
      rows ← λ db. ask (d.select (λ e. column_eq e.workspace_id workspace_id) db.audit_events) db
      pure (take limit (sort_by created_later rows));
  }

  abbrev pub drizzle_app_launch_tokens : AppLaunchTokenRepository Database
  drizzle_app_launch_tokens = record {
    create = λ token. do
      rows ← λ db.
          write (λ t b. record b { app_launch_tokens = t })
            (d.insert app_launch_tokens_clash token db.app_launch_tokens) db
      one_required rows;
    find_by_token_hash =
        λ hash db. ask (d.select_one (λ t. t.token_hash == hash) db.app_launch_tokens) db;
    consume_unconsumed = λ id consumed_at. do
      rows ← λ db.
          write (λ t b. record b { app_launch_tokens = t })
            (d.update (λ t. (t.id == id) && is_unused t)
              (λ t. record t { consumed_at = some consumed_at }) db.app_launch_tokens)
            db
      pure (head? rows);
  }

  abbrev pub drizzle_access_validation_grants : AccessValidationGrantRepository Database
  drizzle_access_validation_grants = record {
    create = λ grant. do
      rows ← λ db.
          write (λ t b. record b { access_validation_grants = t })
            (d.insert grants_clash grant db.access_validation_grants) db
      one_required rows;
    find_by_id = λ id db. ask (d.select_one (λ g. g.id == id) db.access_validation_grants) db;
    register_handle = λ id handle_hash expires_at. do
      rows ← λ db.
          write (λ t b. record b { access_validation_grants = t })
            (d.update (λ g. (g.id == id) && (not (is_some g.handle_hash) && is_open_grant g))
              (λ g. record g {
                handle_hash = some handle_hash;
                handle_expires_at = some expires_at;
              })
              db.access_validation_grants)
            db
      pure (head? rows);
    consume_by_handle_hash = λ handle_hash consumed_at. do
      rows ← λ db.
          write (λ t b. record b { access_validation_grants = t })
            (d.update (λ g. column_eq g.handle_hash handle_hash && is_open_grant g)
              (λ g. record g { consumed_at = some consumed_at }) db.access_validation_grants)
            db
      pure (head? rows);
    revoke = λ id revoked_at. do
      rows ← λ db.
          write (λ t b. record b { access_validation_grants = t })
            (d.update (λ g. (g.id == id) && not (is_some g.revoked_at))
              (λ g. record g { revoked_at = some revoked_at }) db.access_validation_grants)
            db
      pure (head? rows);
  }
