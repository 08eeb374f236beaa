-- ===== src/Db/Statements.antt =====
-- The database: the tables of src/db/schema.ts with their unique indexes, and the statements that the
-- repositories of src/db/repositories.ts run on them. A row is the record that the mappers of
-- src/db/mappers.ts make of it: they turn a `Date` into its ISO text and back, one value here.
use swooshz_platform.Base.{
  String, Bool, true, false, ◌&&◌, ◌||◌, Option, some, none, List, head?, ◌==◌,
}
use swooshz_platform.Errors.{plain}
use swooshz_platform.Io.{Outcome, ok, thrown, Io, required}
use swooshz_platform.Accounts.{
  User, Workspace, Membership, Session, App, AppEntitlement, AuditEvent,
}
use swooshz_platform.Ports.{
  ProviderIdentity, WorkspaceMembershipApprovalRecord, WorkspaceMembershipApprovalStatus, pending,
  AppLaunchTokenRecord, AccessValidationGrantRecord,
}
use swooshz_platform.Csrf.{CsrfTokenRecord}
use swooshz_platform.AuthStates.{StoredAuthStateLifecycleRecord}
use swooshz_platform.Driver.{Written}

pub record Database : Type 0 where
  pub users : List User
  pub provider_identities : List ProviderIdentity
  pub workspaces : List Workspace
  pub memberships : List Membership
  pub membership_approvals : List WorkspaceMembershipApprovalRecord
  pub sessions : List Session
  pub apps : List App
  pub app_entitlements : List AppEntitlement
  pub audit_events : List AuditEvent
  pub app_launch_tokens : List AppLaunchTokenRecord
  pub access_validation_grants : List AccessValidationGrantRecord
  pub csrf_tokens : List CsrfTokenRecord
  pub auth_states : List StoredAuthStateLifecycleRecord

-- A statement that only reads.
abbrev pub ask : {A : Type 0} → Outcome A → Io Database A
ask r db = (r, db)

-- A statement that writes one table.
abbrev pub write : {R : Type 0} → (List R → Database → Database) → Written R → Io Database (List R)
write put (ok (rows, table)) db = (ok rows, put table db)
write put (thrown e) db = (thrown e, db)

-- Two rows that no table may hold both: the primary keys and unique indexes.
abbrev pub users_clash : User → User → Bool
users_clash a b = (a.id == b.id) || (a.email == b.email)

abbrev pub provider_identities_clash : ProviderIdentity → ProviderIdentity → Bool
provider_identities_clash a b =
    (a.id == b.id)
    || (((a.provider_key == b.provider_key) && (a.provider_subject == b.provider_subject))
        || ((a.provider_key == b.provider_key) && (a.user_id == b.user_id)))

abbrev pub workspaces_clash : Workspace → Workspace → Bool
workspaces_clash a b = (a.id == b.id) || (a.slug == b.slug)

abbrev pub memberships_clash : Membership → Membership → Bool
memberships_clash a b =
    (a.id == b.id) || ((a.workspace_id == b.workspace_id) && (a.user_id == b.user_id))

abbrev pub is_pending : WorkspaceMembershipApprovalStatus → Bool
is_pending pending = true
is_pending _ = false

abbrev pub approvals_clash :
    WorkspaceMembershipApprovalRecord → WorkspaceMembershipApprovalRecord → Bool
approvals_clash a b =
    (a.id == b.id)
    || ((is_pending a.status && is_pending b.status)
        && ((a.workspace_id == b.workspace_id) && (a.email == b.email)))

abbrev pub sessions_clash : Session → Session → Bool
sessions_clash a b = a.id == b.id

abbrev pub apps_clash : App → App → Bool
apps_clash a b = (a.id == b.id) || (a.key == b.key)

abbrev pub app_entitlements_clash : AppEntitlement → AppEntitlement → Bool
app_entitlements_clash a b =
    (a.id == b.id) || ((a.workspace_id == b.workspace_id) && (a.app_id == b.app_id))

abbrev pub audit_events_clash : AuditEvent → AuditEvent → Bool
audit_events_clash a b = a.id == b.id

abbrev pub app_launch_tokens_clash : AppLaunchTokenRecord → AppLaunchTokenRecord → Bool
app_launch_tokens_clash a b = (a.id == b.id) || (a.token_hash == b.token_hash)

-- SQL's `=` on a column that may be null.
abbrev pub column_eq : Option String → String → Bool
column_eq none s = false
column_eq (some t) s = t == s

abbrev pub grants_clash : AccessValidationGrantRecord → AccessValidationGrantRecord → Bool
grants_clash a b = (a.id == b.id) || both a.handle_hash b.handle_hash
  where
    both : Option String → Option String → Bool
    both none _ = false
    both (some h) c = column_eq c h

-- There is one purpose of CSRF tokens, so the index on it is one on the session and the hash.
abbrev pub csrf_tokens_clash : CsrfTokenRecord → CsrfTokenRecord → Bool
csrf_tokens_clash a b =
    (a.id == b.id) || ((a.session_id == b.session_id) && (a.token_hash == b.token_hash))

abbrev pub auth_states_clash :
    StoredAuthStateLifecycleRecord → StoredAuthStateLifecycleRecord → Bool
auth_states_clash a b = (a.provider_key == b.provider_key) && (a.state_hash == b.state_hash)

-- `mapOneRequired(rows[0], ...)`
abbrev pub one_required : {R : Type 0} → List R → Io Database R
one_required rows = required plain (head? rows)
