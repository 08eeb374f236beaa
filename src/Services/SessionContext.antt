-- ===== src/Services/SessionContext.antt =====
-- src/platform/session-context-service.ts: what the pages show of a session, its user and the apps of the
-- user's workspaces.
pub mod Shown
use swooshz_platform.Base.{
  String, Bool, true, false, not, Option, none, some, is_some, List, [], ◌∷◌, map, find, any, ◌==◌,
  if◌then◌else◌,
}
use swooshz_platform.Time.{Timestamp, at_or_before}
use swooshz_platform.Errors.{Exn, session_context, SessionContextError}
use swooshz_platform.Io.{Io, pure, rescue, ◌>>=◌}
use swooshz_platform.Accounts.{
  User, UserStatus, Workspace, Membership, MembershipStatus, Role, Session, App, AppStatus,
  AppEntitlement, EntitlementStatus, user_is_active, workspace_is_active, membership_is_active,
}
use swooshz_platform.Access.{AccessDecision, decide_app_access, selected}
use swooshz_platform.Ports.{PlatformRepositories}

pub data PlatformSessionContextUnauthenticatedReason : Type 0 where
  missing_session revoked_session expired_session missing_user user_not_active :
      PlatformSessionContextUnauthenticatedReason

pub record PlatformSessionContextInput : Type 0 where
  pub session_id : String
  pub now : Timestamp
  pub selected_workspace_id : Option String

pub record PlatformSessionContextUserSummary : Type 0 where
  pub user_id : String
  pub email : String
  pub display_name : String
  pub status : UserStatus

pub record PlatformSessionContextAppSummary : Type 0 where
  pub app_key : String
  pub app_name : String
  pub app_status : AppStatus
  pub entitlement_status : Option EntitlementStatus
  pub access : AccessDecision

pub record PlatformSessionContextWorkspaceSummary : Type 0 where
  pub workspace_id : String
  pub workspace_slug : String
  pub workspace_name : String
  pub membership_role : Role
  pub membership_status : MembershipStatus
  pub apps : List PlatformSessionContextAppSummary

-- The status of the session is always `active`.
pub record AuthenticatedContext : Type 0 where
  pub expires_at : Timestamp
  pub user : PlatformSessionContextUserSummary
  pub selected_workspace_id : Option String
  pub workspaces : List PlatformSessionContextWorkspaceSummary

pub data PlatformSessionContextResult : Type 0 where
  authenticated : AuthenticatedContext → PlatformSessionContextResult
  unauthenticated : PlatformSessionContextUnauthenticatedReason → PlatformSessionContextResult

abbrev pub status_of : Option AppEntitlement → Option EntitlementStatus
status_of none = none
status_of (some e) = some e.status

abbrev pub listed : Option AppEntitlement → List AppEntitlement
listed none = []
listed (some e) = e ∷ []

abbrev pub read_app_summary :
    Session
    → User
    → Workspace
    → Membership
    → Timestamp
    → App
    → Option AppEntitlement
    → PlatformSessionContextAppSummary
read_app_summary session user workspace membership now app entitlement = record {
  app_key = app.key;
  app_name = app.name;
  app_status = app.status;
  entitlement_status = status_of entitlement;
  access = decide_app_access (record {
    app_key = app.key;
    session = some session;
    user = some user;
    selected_workspace_id = some workspace.id;
    workspaces = workspace ∷ [];
    memberships = membership ∷ [];
    apps = app ∷ [];
    entitlements = listed entitlement;
    billing_gate = none;
    now = now;
  });
}

abbrev pub read_app_summaries :
    Session
    → User
    → Workspace
    → Membership
    → List App
    → List AppEntitlement
    → Timestamp
    → List PlatformSessionContextAppSummary
read_app_summaries session user workspace membership apps entitlements now =
    map
      (λ app.
        read_app_summary session user workspace membership now app
          (find (λ candidate. candidate.app_id == app.id) entitlements))
      apps

abbrev pub workspace_summary :
    Session
    → User
    → Workspace
    → Membership
    → List App
    → List AppEntitlement
    → Timestamp
    → PlatformSessionContextWorkspaceSummary
workspace_summary session user workspace membership apps entitlements now = record {
  workspace_id = workspace.id;
  workspace_slug = workspace.slug;
  workspace_name = workspace.display_name;
  membership_role = membership.role;
  membership_status = membership.status;
  apps = read_app_summaries session user workspace membership apps entitlements now;
}

abbrev pub selected_among :
    Option String → List PlatformSessionContextWorkspaceSummary → Option String
selected_among none workspaces = none
selected_among (some id) workspaces =
    if any (λ w. w.workspace_id == id) workspaces then some id else none

abbrev pub read_selected_workspace_id :
    Option String → List PlatformSessionContextWorkspaceSummary → Option String
read_selected_workspace_id id workspaces = selected_among (selected id) workspaces

module _ {S : Type 0} (r : PlatformRepositories S) where
  module _ (session : Session) (user : User) (apps : List App) (now : Timestamp) where
    -- One round of the loop of `readWorkspaceContexts` in front of the rest.
    abbrev pub with_workspace :
        Membership
        → Option Workspace
        → Io S (List PlatformSessionContextWorkspaceSummary)
        → Io S (List PlatformSessionContextWorkspaceSummary)
    with_workspace m none rest = rest
    with_workspace m (some w) rest = if not (workspace_is_active w.status) then rest else do
      entitlements ← r.app_entitlements.list_for_workspace w.id
      contexts ← rest
      pure (workspace_summary session user w m apps entitlements now ∷ contexts)

    abbrev pub read_workspace_contexts :
        List Membership → Io S (List PlatformSessionContextWorkspaceSummary)
    read_workspace_contexts [] = pure []
    read_workspace_contexts (m ∷ ms) =
        let rest = read_workspace_contexts ms in
        if not (membership_is_active m.status)
        then rest
        else do workspace ← r.workspaces.find_by_id m.workspace_id; with_workspace m workspace rest

  abbrev pub context_for_user :
      PlatformSessionContextInput → Session → Option User → Io S PlatformSessionContextResult
  context_for_user input session none = pure (unauthenticated missing_user)
  context_for_user input session (some user) =
      if not (user_is_active user.status) then pure (unauthenticated user_not_active) else do
        memberships ← r.memberships.list_for_user user.id
        apps ← r.apps.list_all
        workspaces ← read_workspace_contexts session user apps input.now memberships
        pure (
            authenticated (record {
              expires_at = session.expires_at;
              user = record {
                user_id = user.id;
                email = user.email;
                display_name = user.display_name;
                status = user.status;
              };
              selected_workspace_id =
                  read_selected_workspace_id input.selected_workspace_id workspaces;
              workspaces = workspaces;
            }))

  abbrev pub context_for_session :
      PlatformSessionContextInput → Option Session → Io S PlatformSessionContextResult
  context_for_session input none = pure (unauthenticated missing_session)
  context_for_session input (some session) =
      if is_some session.revoked_at
      then pure (unauthenticated revoked_session)
      else if at_or_before session.expires_at input.now
      then pure (unauthenticated expired_session)
      else do user ← r.users.find_by_id session.user_id; context_for_user input session user

  -- Every error becomes the service's own.
  unfoldable pub get_platform_session_context :
      PlatformSessionContextInput → Io S PlatformSessionContextResult
  get_platform_session_context input =
      rescue (session_context SessionContextError.context_lookup_failed)
        do session ← r.sessions.find_by_id input.session_id; context_for_session input session
