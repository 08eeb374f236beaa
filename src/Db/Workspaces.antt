-- ===== src/Db/Workspaces.antt =====
-- The repositories of workspaces, memberships and membership approvals in src/db/repositories.ts.
use swooshz_platform.Base.{Bool, true, false, ◌&&◌, Option, some, none, head?, ◌==◌}
use swooshz_platform.Errors.{plain}
use swooshz_platform.Io.{pure, required, ◌>>=◌}
use swooshz_platform.Accounts.{
  Membership, MembershipStatus, Role, admin, operator, viewer, unsupported,
}
use swooshz_platform.Ports.{
  WorkspaceMembershipApprovalRecord, WorkspaceMembershipApprovalStatus,
  WorkspaceMembershipApprovalStatusTimestamps, MembershipRemovalTarget, WorkspaceRepository,
  MembershipRepository, WorkspaceMembershipApprovalRepository,
}
use swooshz_platform.Driver.{Driver}
use swooshz_platform.Db.Statements.{
  Database, ask, write, one_required, workspaces_clash, memberships_clash, approvals_clash,
  is_pending,
}

abbrev pub same_role : Role → Role → Bool
same_role admin admin = true
same_role operator operator = true
same_role viewer viewer = true
same_role unsupported unsupported = true
same_role _ _ = false

abbrev pub same_membership_status : MembershipStatus → MembershipStatus → Bool
same_membership_status MembershipStatus.active MembershipStatus.active = true
same_membership_status MembershipStatus.disabled MembershipStatus.disabled = true
same_membership_status _ _ = false

-- A column that an update leaves alone where the value is `undefined`.
abbrev pub updated_column : {A : Type 0} → Option A → A → A
updated_column none old = old
updated_column (some new) old = new

abbrev pub is_removal_target : MembershipRemovalTarget → Membership → Bool
is_removal_target t m =
    (m.id == t.id)
    && ((m.workspace_id == t.workspace_id)
        && ((m.user_id == t.user_id)
            && (same_role m.role t.role && same_membership_status m.status t.status)))

abbrev pub update_approval :
    WorkspaceMembershipApprovalStatus
    → WorkspaceMembershipApprovalStatusTimestamps
    → WorkspaceMembershipApprovalRecord
    → WorkspaceMembershipApprovalRecord
update_approval status t a = record a {
  status = status;
  updated_at = t.updated_at;
  accepted_at = updated_column t.accepted_at a.accepted_at;
  revoked_at = updated_column t.revoked_at a.revoked_at;
  accepted_user_id = updated_column t.accepted_user_id a.accepted_user_id;
  revoked_by_user_id = updated_column t.revoked_by_user_id a.revoked_by_user_id;
}

module _ (d : Driver) where
  abbrev pub drizzle_workspaces : WorkspaceRepository Database
  drizzle_workspaces = record {
    find_by_id = λ id db. ask (d.select_one (λ w. w.id == id) db.workspaces) db;
    find_by_slug = λ slug db. ask (d.select_one (λ w. w.slug == slug) db.workspaces) db;
    lock_for_admin_mutation = λ id. do
      row ← λ db. ask (d.select_one (λ w. w.id == id) db.workspaces) db
      _ ← required plain row
      pure tt;
    create = λ workspace. do
      rows ← λ db.
          write (λ t b. record b { workspaces = t })
            (d.insert workspaces_clash workspace db.workspaces) db
      one_required rows;
  }

  abbrev pub drizzle_memberships : MembershipRepository Database
  drizzle_memberships = record {
    find_for_user_in_workspace = λ user_id workspace_id db.
        ask
          (d.select_one (λ m. (m.user_id == user_id) && (m.workspace_id == workspace_id))
            db.memberships)
          db;
    list_for_user = λ user_id db. ask (d.select (λ m. m.user_id == user_id) db.memberships) db;
    list_for_workspace =
        λ workspace_id db. ask (d.select (λ m. m.workspace_id == workspace_id) db.memberships) db;
    create = λ membership. do
      rows ← λ db.
          write (λ t b. record b { memberships = t })
            (d.insert memberships_clash membership db.memberships) db
      one_required rows;
    update_role = λ id role updated_at. do
      rows ← λ db.
          write (λ t b. record b { memberships = t })
            (d.update (λ m. m.id == id) (λ m. record m { role = role; updated_at = updated_at })
              db.memberships)
            db
      pure (head? rows);
    update_status = λ id status updated_at. do
      rows ← λ db.
          write (λ t b. record b { memberships = t })
            (d.update (λ m. m.id == id) (λ m. record m { status = status; updated_at = updated_at })
              db.memberships)
            db
      pure (head? rows);
    remove_if_current_target = λ target. do
      rows ← λ db.
          write (λ t b. record b { memberships = t })
            (d.delete (is_removal_target target) db.memberships) db
      pure (head? rows);
  }

  abbrev pub drizzle_membership_approvals : WorkspaceMembershipApprovalRepository Database
  drizzle_membership_approvals = record {
    find_by_id = λ id db. ask (d.select_one (λ a. a.id == id) db.membership_approvals) db;
    find_pending_for_workspace_email = λ workspace_id email db.
        ask
          (d.select_one
            (λ a. (a.workspace_id == workspace_id) && ((a.email == email) && is_pending a.status))
            db.membership_approvals)
          db;
    list_pending_for_email = λ email db.
        ask (d.select (λ a. (a.email == email) && is_pending a.status) db.membership_approvals) db;
    list_pending_for_workspace = λ workspace_id db.
        ask
          (d.select (λ a. (a.workspace_id == workspace_id) && is_pending a.status)
            db.membership_approvals)
          db;
    create = λ approval. do
      rows ← λ db.
          write (λ t b. record b { membership_approvals = t })
            (d.insert approvals_clash approval db.membership_approvals) db
      one_required rows;
    update_pending_status = λ id status timestamps. do
      rows ← λ db.
          write (λ t b. record b { membership_approvals = t })
            (d.update (λ a. (a.id == id) && is_pending a.status) (update_approval status timestamps)
              db.membership_approvals)
            db
      pure (head? rows);
  }
