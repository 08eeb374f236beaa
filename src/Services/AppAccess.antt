-- ===== src/Services/AppAccess.antt =====
-- src/platform/app-access-service.ts and src/platform/protected-app-access-service.ts: the decision
-- of src/access/decide-app-access.ts over the rows that the repositories hold.
pub mod Tables
pub mod Allowed
pub mod Keeps
use swooshz_platform.Base.{String, Option, none, some, [], is_some, singleton_of, if◌then◌else◌}
use swooshz_platform.Time.{Timestamp, at_or_before}
use swooshz_platform.Errors.{protected_access, session_lookup_failed, app_access_decision_failed}
use swooshz_platform.Io.{Io, pure, rescue, ◌>>=◌}
use swooshz_platform.Accounts.{User, Session, Workspace, App, AppEntitlement}
use swooshz_platform.Access.{BillingGate, AccessDecision, selected, decide_app_access}
use swooshz_platform.Ports.{PlatformRepositories}

pub record DecidePlatformAppAccessInput : Type 0 where
  pub session_id : Option String
  pub selected_workspace_id : Option String
  pub app_key : String
  pub now : Timestamp
  pub billing_gate : Option BillingGate

pub record ProtectedAppAccessDecisionInput : Type 0 where
  pub session_id : String
  pub selected_workspace_id : String
  pub app_key : String
  pub now : Timestamp
  pub billing_gate : Option BillingGate

pub data ProtectedAppAccessDeniedReason : Type 0 where
  missing_session revoked_session expired_session app_access_denied : ProtectedAppAccessDeniedReason

pub record AllowedAccess : Type 0 where
  pub session_id : String
  pub user_id : String
  pub workspace_id : String
  pub app_key : String
  pub decision : AccessDecision

pub data ProtectedAppAccessDecisionResult : Type 0 where
  allowed : AllowedAccess → ProtectedAppAccessDecisionResult
  denied : ProtectedAppAccessDeniedReason → Option AccessDecision → ProtectedAppAccessDecisionResult

module _ {S : Type 0} (repositories : PlatformRepositories S) where
  open repositories use {users, sessions, workspaces, memberships, apps, app_entitlements}

  -- The lookups that wait on another value: `id ? await find(id) : null`.
  abbrev pub find_session : Option String → Io S (Option Session)
  find_session none = pure none
  find_session (some id) = sessions.find_by_id id

  -- `workspace && app ? await find(workspace.id, app.id) : null`
  abbrev pub find_entitlement : Option Workspace → Option App → Io S (Option AppEntitlement)
  find_entitlement (some w) (some a) = app_entitlements.find_for_workspace_app w.id a.id
  find_entitlement _ _ = pure none

  abbrev pub decide_in_workspace :
      DecidePlatformAppAccessInput → Session → User → String → Io S AccessDecision
  decide_in_workspace input session user w = do
    workspace ← workspaces.find_by_id w
    membership ← memberships.find_for_user_in_workspace user.id w
    app ← apps.find_by_key input.app_key
    entitlement ← find_entitlement workspace app
    pure (
        decide_app_access (record {
          app_key = input.app_key;
          session = some session;
          user = some user;
          selected_workspace_id = some w;
          workspaces = singleton_of workspace;
          memberships = singleton_of membership;
          apps = singleton_of app;
          entitlements = singleton_of entitlement;
          billing_gate = input.billing_gate;
          now = input.now;
        }))

  -- The early return on a missing session, user or workspace.
  abbrev pub decide_without_rows :
      DecidePlatformAppAccessInput → Option Session → Option User → AccessDecision
  decide_without_rows input session user = decide_app_access (record {
    app_key = input.app_key;
    session = session;
    user = user;
    selected_workspace_id = input.selected_workspace_id;
    workspaces = [];
    memberships = [];
    apps = [];
    entitlements = [];
    billing_gate = input.billing_gate;
    now = input.now;
  })

  abbrev pub decide_for_user :
      DecidePlatformAppAccessInput → Session → Option User → Io S AccessDecision
  decide_for_user input s none = pure (decide_without_rows input (some s) none)
  decide_for_user input s (some u) = elim (selected input.selected_workspace_id) [
    | none ↦ pure (decide_without_rows input (some s) (some u))
    | some w ↦ decide_in_workspace input s u w
  ]

  abbrev pub decide_for_session :
      DecidePlatformAppAccessInput → Option Session → Io S AccessDecision
  decide_for_session input none = pure (decide_without_rows input none none)
  decide_for_session input (some s) = do
    user ← users.find_by_id s.user_id
    decide_for_user input s user

  unfoldable pub decide_platform_app_access : DecidePlatformAppAccessInput → Io S AccessDecision
  unfolding ◌>>=◌
  decide_platform_app_access input = do
    session ← find_session (selected input.session_id)
    decide_for_session input session

  abbrev pub gate_session :
      ProtectedAppAccessDecisionInput → Session → Io S ProtectedAppAccessDecisionResult
  gate_session input session =
      if is_some session.revoked_at
      then pure (denied revoked_session none)
      else if at_or_before session.expires_at input.now
      then pure (denied expired_session none)
      else do
        decision ← rescue (protected_access app_access_decision_failed) (
            decide_platform_app_access (record {
              session_id = some input.session_id;
              selected_workspace_id = some input.selected_workspace_id;
              app_key = input.app_key;
              now = input.now;
              billing_gate = input.billing_gate;
            }))
        pure (
            if decision.allowed
            then allowed (record {
              session_id = session.id;
              user_id = session.user_id;
              workspace_id = input.selected_workspace_id;
              app_key = input.app_key;
              decision = decision;
            })
            else denied app_access_denied (some decision))

  unfoldable pub decide_protected_app_access :
      ProtectedAppAccessDecisionInput → Io S ProtectedAppAccessDecisionResult
  unfolding ◌>>=◌
  decide_protected_app_access input = do
    session ← rescue (protected_access session_lookup_failed) (sessions.find_by_id input.session_id)
    elim session [ none ↦ pure (denied missing_session none) | some s ↦ gate_session input s ]
