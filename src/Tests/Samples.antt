-- ===== src/Tests/Samples.antt =====
-- A small platform: one workspace with an admin and a viewer, one app, and their sessions.
use swooshz_platform.Base.{◌≤◌, ◌==◌, Bool, none, [], ◌∷◌, count, arith}
use swooshz_platform.Time.{at}
use swooshz_platform.Accounts.{
  User, UserStatus, Workspace, WorkspaceStatus, Membership, MembershipStatus, Session, App,
  AppEntitlement, admin, available, enabled,
}
use swooshz_platform.Db.Statements.{Database}
use swooshz_platform.Db.Keyed.{IsKeyed, is_membership_of}
use swooshz_platform.Access.{is_entitlement_of}

abbrev pub ada : User
ada = record {
  id = "user-ada";
  email = "ada@swooshz.test";
  display_name = "Ada";
  status = UserStatus.active;
  created_at = at 10;
  updated_at = at 10;
  last_login_at = none;
}

abbrev pub ada_session : Session
ada_session = record {
  id = "session-ada";
  user_id = "user-ada";
  created_at = at 20;
  expires_at = at 100_000;
  last_seen_at = at 20;
  revoked_at = none;
}

abbrev pub acme : Workspace
acme = record {
  id = "workspace-acme";
  slug = "acme";
  display_name = "Acme";
  status = WorkspaceStatus.active;
  created_at = at 10;
  updated_at = at 10;
}

abbrev pub ada_membership : Membership
ada_membership = record {
  id = "membership-ada";
  workspace_id = "workspace-acme";
  user_id = "user-ada";
  role = admin;
  status = MembershipStatus.active;
  created_at = at 10;
  updated_at = at 10;
}

abbrev pub sqag : App
sqag = record {
  id = "app-sqag";
  key = "sqag";
  name = "SQAG";
  status = available;
  launch_url = none;
  created_at = at 10;
  updated_at = at 10;
}

abbrev pub acme_sqag : AppEntitlement
acme_sqag = record {
  id = "entitlement-acme-sqag";
  workspace_id = "workspace-acme";
  app_id = "app-sqag";
  status = enabled;
  granted_by_user_id = none;
  created_at = at 10;
  updated_at = at 10;
}

abbrev pub platform : Database
platform = record {
  users = ada ∷ [];
  provider_identities = [];
  workspaces = acme ∷ [];
  memberships = ada_membership ∷ [];
  membership_approvals = [];
  sessions = ada_session ∷ [];
  apps = sqag ∷ [];
  app_entitlements = acme_sqag ∷ [];
  audit_events = [];
  app_launch_tokens = [];
  access_validation_grants = [];
  csrf_tokens = [];
  auth_states = [];
}

pub one_row {ℓ} : {A : Type ℓ} (p : A → Bool) (x : A) → count p (x ∷ []) ≤ 1
one_row p x = ground arith

pub platform-IsKeyed : IsKeyed platform
platform-IsKeyed = record {
  user_ids = λ k. one_row (λ (u : User). u.id == k) ada;
  session_ids = λ k. one_row (λ (s : Session). s.id == k) ada_session;
  workspace_ids = λ k. one_row (λ (w : Workspace). w.id == k) acme;
  membership_ids = λ k. one_row (λ (m : Membership). m.id == k) ada_membership;
  membership_users = λ u w. one_row (is_membership_of u w) ada_membership;
  app_ids = λ k. one_row (λ (a : App). a.id == k) sqag;
  app_keys = λ k. one_row (λ (a : App). a.key == k) sqag;
  entitlements = λ w a. one_row (is_entitlement_of w a) acme_sqag;
  launch_token_ids = λ k. omega arith;
  launch_token_hashes = λ k. omega arith;
}
