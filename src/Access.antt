-- ===== src/Access.antt =====
-- src/access/decide-app-access.ts: the pure decision whether a session may launch an app.
pub mod Sound
use swooshz_platform.Base.{
  String, Bool, true, false, not, ◌&&◌, ◌||◌, Option, none, some, List, find, ◌==◌, is_some,
  if◌then◌else◌,
}
use swooshz_platform.Base.Text.{is_empty}
use swooshz_platform.Time.{Timestamp, is_after}
use swooshz_platform.Accounts.{
  User, Workspace, Membership, Session, App, AppEntitlement, AppStatus, EntitlementStatus, Role,
  available, private_preview, enabled, trial, admin, operator, user_is_active, workspace_is_active,
  membership_is_active,
}

pub data AccessDecisionResult : Type 0 where
  allowed not_authenticated workspace_not_selected user_not_active : AccessDecisionResult
  membership_required workspace_not_active app_not_available : AccessDecisionResult
  app_not_enabled_for_workspace role_not_permitted billing_blocked : AccessDecisionResult

pub record BillingGate : Type 0 where
  pub blocked : Bool

pub record DecideAppAccessInput : Type 0 where
  pub app_key : String
  pub session : Option Session
  pub user : Option User
  pub selected_workspace_id : Option String
  pub workspaces : List Workspace
  pub memberships : List Membership
  pub apps : List App
  pub entitlements : List AppEntitlement
  pub billing_gate : Option BillingGate
  pub now : Timestamp

pub record AccessDecision : Type 0 where
  pub result : AccessDecisionResult
  pub allowed : Bool
  pub message : String

abbrev pub decision_messages : AccessDecisionResult → String
decision_messages AccessDecisionResult.allowed = "Access allowed."
decision_messages not_authenticated = "Authentication is required."
decision_messages workspace_not_selected = "Select a workspace before launching this app."
decision_messages user_not_active = "The user account cannot launch apps."
decision_messages membership_required = "Workspace membership is required."
decision_messages workspace_not_active = "The selected workspace cannot launch apps."
decision_messages app_not_available = "The requested app is not available."
decision_messages app_not_enabled_for_workspace =
    "The selected workspace is not enabled for this app."
decision_messages role_not_permitted = "The current role cannot launch this app."
decision_messages billing_blocked = "A billing gate blocks this app launch."

-- `allowedAppStatuses.has(status)`
abbrev pub allowed_app_status : AppStatus → Bool
allowed_app_status available = true
allowed_app_status private_preview = true
allowed_app_status AppStatus.disabled = false

-- `launchableEntitlementStatuses.has(status)`
abbrev pub launchable_entitlement_status : EntitlementStatus → Bool
launchable_entitlement_status enabled = true
launchable_entitlement_status trial = true
launchable_entitlement_status _ = false

abbrev pub role_can_launch_app : Role → Bool
role_can_launch_app admin = true
role_can_launch_app operator = true
role_can_launch_app _ = false

abbrev pub is_allowed : AccessDecisionResult → Bool
is_allowed AccessDecisionResult.allowed = true
is_allowed _ = false

abbrev pub decision : AccessDecisionResult → AccessDecision
decision r = record { result = r; allowed = is_allowed r; message = decision_messages r }

abbrev pub is_session_usable : Session → Timestamp → Bool
is_session_usable session now =
    if is_some session.revoked_at then false else is_after session.expires_at now

-- `!value` for a `string | null`: the empty text counts as missing.
abbrev pub selected : Option String → Option String
selected none = none
selected (some w) = if is_empty w then none else some w

abbrev pub gate_blocks : Option BillingGate → Bool
gate_blocks none = false
gate_blocks (some g) = g.blocked

-- The tests of the `find` calls.
abbrev pub is_active_membership_of : String → String → Membership → Bool
is_active_membership_of user_id workspace_id m =
    (m.user_id == user_id) && ((m.workspace_id == workspace_id) && membership_is_active m.status)

abbrev pub is_entitlement_of : String → String → AppEntitlement → Bool
is_entitlement_of workspace_id app_id e = (e.workspace_id == workspace_id) && (e.app_id == app_id)

unfoldable pub decide_app_access : DecideAppAccessInput → AccessDecision
decide_app_access input = elim input.session [
  | none ↦ decision not_authenticated
  | some session ↦ elim input.user [
    | none ↦ decision not_authenticated
    | some user ↦
        if not (session.user_id == user.id) || not (is_session_usable session input.now)
        then decision not_authenticated
        else if not (user_is_active user.status)
        then decision user_not_active
        else elim (selected input.selected_workspace_id) [
          | none ↦ decision workspace_not_selected
          | some w ↦ elim (find (is_active_membership_of user.id w) input.memberships) [
            | none ↦ decision membership_required
            | some membership ↦ elim (find (λ c. c.id == w) input.workspaces) [
              | none ↦ decision workspace_not_active
              | some workspace ↦
                  if not (workspace_is_active workspace.status)
                  then decision workspace_not_active
                  else elim (find (λ c. c.key == input.app_key) input.apps) [
                    | none ↦ decision app_not_available
                    | some app ↦
                        if not (allowed_app_status app.status)
                        then decision app_not_available
                        else elim (find (is_entitlement_of workspace.id app.id)
                            input.entitlements) [
                              | none ↦ decision app_not_enabled_for_workspace
                              | some entitlement ↦
                                  if not (launchable_entitlement_status entitlement.status)
                                  then decision app_not_enabled_for_workspace
                                  else if not (role_can_launch_app membership.role)
                                  then decision role_not_permitted
                                  else if gate_blocks input.billing_gate
                                  then decision billing_blocked
                                  else decision AccessDecisionResult.allowed
                            ]
                  ]
            ]
          ]
        ]
  ]
]
