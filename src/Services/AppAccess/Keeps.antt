-- ===== src/Services/AppAccess/Keeps.antt =====
-- The access services only read: they keep every property of the database, also where they throw.
use swooshz_platform.Base.{String, Option, none, some, is_some}
use swooshz_platform.Time.{at_or_before}
use swooshz_platform.Io.{Outcome, pure}
use swooshz_platform.Io.Keeps.{Keeps, Keeps-pure, Keeps-catching, Keeps-if, Keeps-bind}
use swooshz_platform.Accounts.{Session, User, Workspace, App}
use swooshz_platform.Access.{selected}
use swooshz_platform.Driver.{Driver}
use swooshz_platform.Db.Statements.{Database, ask}
use swooshz_platform.Db.Repositories.{drizzle_repositories}
use swooshz_platform.Services.AppAccess.{
  DecidePlatformAppAccessInput, ProtectedAppAccessDecisionInput, decide_without_rows, denied,
  missing_session, find_session, find_entitlement, decide_in_workspace, decide_for_user,
  decide_for_session, decide_platform_app_access, gate_session, decide_protected_app_access,
}

module _ {P : Database → Type 0} where
  pub Keeps-ask : {A : Type 0} {f : Database → Outcome A} → Keeps P (λ s. ask (f s) s)
  Keeps-ask = record { at = λ s h. h }

  module _ (d : Driver) where
    find_session-Keeps : (id : Option String) → Keeps P (find_session (drizzle_repositories d) id)
    find_session-Keeps none = Keeps-pure
    find_session-Keeps (some id) = record { at = λ s h. h }

    find_entitlement-Keeps :
        (w : Option Workspace) (a : Option App)
        → Keeps P (find_entitlement (drizzle_repositories d) w a)
    find_entitlement-Keeps (some w) (some a) = record { at = λ s h. h }
    find_entitlement-Keeps (some w) none = Keeps-pure
    find_entitlement-Keeps none a = Keeps-pure

    decide_in_workspace-Keeps :
        (input : DecidePlatformAppAccessInput) (s : Session) (u : User) (w : String)
        → Keeps P (decide_in_workspace (drizzle_repositories d) input s u w)
    decide_in_workspace-Keeps input s u w = Keeps-bind Keeps-ask λ workspace.
        Keeps-bind Keeps-ask λ _.
          Keeps-bind Keeps-ask
            λ app. Keeps-bind (find_entitlement-Keeps workspace app) λ _. Keeps-pure

    decide_for_user-Keeps :
        (input : DecidePlatformAppAccessInput) (s : Session) (u : Option User)
        → Keeps P (decide_for_user (drizzle_repositories d) input s u)
    decide_for_user-Keeps input s none = Keeps-pure
    decide_for_user-Keeps input s (some u) = go (selected input.selected_workspace_id)
      where
        go :
            (w : Option String)
            → Keeps P (elim w [
              | none ↦ pure (decide_without_rows (drizzle_repositories d) input (some s) (some u))
              | some w ↦ decide_in_workspace (drizzle_repositories d) input s u w
            ])
        go none = Keeps-pure
        go (some w) = decide_in_workspace-Keeps input s u w

    decide_for_session-Keeps :
        (input : DecidePlatformAppAccessInput) (s : Option Session)
        → Keeps P (decide_for_session (drizzle_repositories d) input s)
    decide_for_session-Keeps input none = Keeps-pure
    decide_for_session-Keeps input (some s) =
        Keeps-bind Keeps-ask λ u. decide_for_user-Keeps input s u

    decide_platform_app_access-Keeps :
        (input : DecidePlatformAppAccessInput)
        → Keeps P (decide_platform_app_access (drizzle_repositories d) input)
    unfolding decide_platform_app_access
    decide_platform_app_access-Keeps input =
        Keeps-bind (find_session-Keeps (selected input.session_id))
          λ s. decide_for_session-Keeps input s

    gate_session-Keeps :
        (input : ProtectedAppAccessDecisionInput) (s : Session)
        → Keeps P (gate_session (drizzle_repositories d) input s)
    gate_session-Keeps input s = Keeps-if (is_some s.revoked_at) Keeps-pure (
        Keeps-if (at_or_before s.expires_at input.now) Keeps-pure
          (Keeps-bind (Keeps-catching _ (decide_platform_app_access-Keeps _)) λ _. Keeps-pure))

    pub decide_protected_app_access-Keeps :
        (input : ProtectedAppAccessDecisionInput)
        → Keeps P (decide_protected_app_access (drizzle_repositories d) input)
    unfolding decide_protected_app_access
    decide_protected_app_access-Keeps input = Keeps-bind (Keeps-catching _ Keeps-ask) go
      where
        go :
            (o : Option Session)
            → Keeps P (elim o [
              | none ↦ pure (denied missing_session none)
              | some s ↦ gate_session (drizzle_repositories d) input s
            ])
        go none = Keeps-pure
        go (some s) = gate_session-Keeps input s
