-- ===== src/Services/Admin/Authorized.antt =====
-- Who may administer a workspace: what `requireAdminContext` checks, over the tables.
use swooshz_platform.Base.{
  ◌≡◌, refl, Bool, true, false, not, Option, none, some, is_some, Memᴰ, eq_of_==, sym, ap, ◌∙◌,
  List, &&-true, arith, ◌==◌, if◌then◌else◌,
}
use swooshz_platform.Time.{Timestamp, at_or_before}
use swooshz_platform.Io.{ok, Ensures, ensures_read, ensures_found, ensures_unless, ensures_pure}
use swooshz_platform.Accounts.{
  User, UserStatus, Workspace, WorkspaceStatus, Membership, MembershipStatus, Role, Session,
  user_is_active, workspace_is_active, membership_is_active, is_admin,
}
use swooshz_platform.Driver.{Driver}
use swooshz_platform.Db.Statements.{Database}
use swooshz_platform.Db.Keyed.{is_membership_of}
use swooshz_platform.Db.Triples.{ensures_ask}
use swooshz_platform.Db.Repositories.{drizzle_repositories}
use swooshz_platform.Services.Admin.{
  WorkspaceAdminInput, AdminContext, session_is_over, may_administer, require_admin_context,
}

-- The session is live, and its user is an active user and an active admin of the active workspace.
pub record CanAdminister (db : Database) (input : WorkspaceAdminInput) (c : AdminContext)
    : Type 0 where
  pub has_session : Memᴰ c.session db.sessions
  pub session_id : c.session.id ≡ input.session_id
  pub unrevoked : c.session.revoked_at ≡ none
  pub live : at_or_before c.session.expires_at input.now ≡ false
  pub has_user : Memᴰ c.actor db.users
  pub own_session : c.actor.id ≡ c.session.user_id
  pub active_user : c.actor.status ≡ UserStatus.active
  pub has_workspace : Memᴰ c.workspace db.workspaces
  pub in_workspace : c.workspace.id ≡ input.workspace_id
  pub active_workspace : c.workspace.status ≡ WorkspaceStatus.active
  pub has_membership : Memᴰ c.actor_membership db.memberships
  pub member_user : c.actor_membership.user_id ≡ c.actor.id
  pub member_workspace : c.actor_membership.workspace_id ≡ input.workspace_id
  pub active_member : c.actor_membership.status ≡ MembershipStatus.active
  pub admin_role : c.actor_membership.role ≡ Role.admin

user_is_active_iff : (s : UserStatus) → user_is_active s ≡ true → s ≡ UserStatus.active
user_is_active_iff UserStatus.active h = refl
user_is_active_iff _ h = ground arith

workspace_is_active_iff :
    (s : WorkspaceStatus) → workspace_is_active s ≡ true → s ≡ WorkspaceStatus.active
workspace_is_active_iff WorkspaceStatus.active h = refl
workspace_is_active_iff _ h = ground arith

membership_is_active_iff :
    (s : MembershipStatus) → membership_is_active s ≡ true → s ≡ MembershipStatus.active
membership_is_active_iff MembershipStatus.active h = refl
membership_is_active_iff MembershipStatus.disabled h = ground arith

is_admin_iff : (r : Role) → is_admin r ≡ true → r ≡ Role.admin
is_admin_iff Role.admin h = refl
is_admin_iff _ h = ground arith

session_is_over-false :
    (s : Session) (now : Timestamp)
    → session_is_over s now ≡ false
    → (s.revoked_at ≡ none) × (at_or_before s.expires_at now ≡ false)
session_is_over-false s now h = over s.revoked_at h
  where
    over :
        (r : Option Timestamp)
        → (if is_some r then true else at_or_before s.expires_at now) ≡ false
        → (r ≡ none) × (at_or_before s.expires_at now ≡ false)
    over none h = (refl, h)
    over (some x) h = ground arith

-- What `limit(1)` finds is a row of the table that passes the test.
pub found_row :
    {R : Type 0} {p : R → Bool} {t : List R} {o : Option R} {r : R} (d : Driver)
    → d.select_one p t ≡ ok o
    → o ≡ some r
    → Memᴰ r t × (p r ≡ true)
found_row {p = p} {t = t} {r = r} d e j = d.select_one-some p t r (e ∙ ap ok j)

can_administer :
    {session : Session} {actor : User} {workspace : Workspace} {membership : Membership}
    (d : Driver) (db : Database) (input : WorkspaceAdminInput)
    → Memᴰ session db.sessions × ((session.id == input.session_id) ≡ true)
    → Memᴰ actor db.users × ((actor.id == session.user_id) ≡ true)
    → Memᴰ workspace db.workspaces × ((workspace.id == input.workspace_id) ≡ true)
    → Memᴰ membership db.memberships
      × (is_membership_of session.user_id input.workspace_id membership ≡ true)
    → session_is_over session input.now ≡ false
    → may_administer actor workspace membership ≡ true
    → CanAdminister db input (record {
      session = session;
      actor = actor;
      workspace = workspace;
      actor_membership = membership;
    })
can_administer {session} {actor} {workspace} {membership} d db input s u w m open_session may =
    let (unrevoked, live) = session_is_over-false session input.now open_session in
    let (active_user, rest) = &&-true _ _ may in
    let (active_workspace, both) = &&-true _ _ rest in
    let (active_member, leads) = &&-true _ _ both in
    let (of_user, of_workspace) = &&-true _ _ m.1 in
    let own = eq_of_== _ _ u.1 in
    record {
      has_session = s.0;
      session_id = eq_of_== _ _ s.1;
      unrevoked = unrevoked;
      live = live;
      has_user = u.0;
      own_session = own;
      active_user = user_is_active_iff actor.status active_user;
      has_workspace = w.0;
      in_workspace = eq_of_== _ _ w.1;
      active_workspace = workspace_is_active_iff workspace.status active_workspace;
      has_membership = m.0;
      member_user = eq_of_== _ _ of_user ∙ sym own;
      member_workspace = eq_of_== _ _ of_workspace;
      active_member = membership_is_active_iff membership.status active_member;
      admin_role = is_admin_iff membership.role leads;
    }

module _ (d : Driver) (db : Database) where
  pub require_admin_context-CanAdminister :
      (input : WorkspaceAdminInput)
      → Ensures
          (require_admin_context (drizzle_repositories d) input)
          db
          (λ c t. (t ≡ db) × CanAdminister db input c)
  unfolding require_admin_context
  require_admin_context-CanAdminister input =
      ensures_read (ensures_ask (λ s. d.select_one (λ r. r.id == input.session_id) s.sessions) db)
        λ session_found es. ensures_found _ session_found λ session js.
          ensures_unless (session_is_over session input.now) _ _ λ open_session.
            ensures_read (ensures_ask (λ s. d.select_one (λ r. r.id == session.user_id) s.users) db)
              λ user_found eu.
                ensures_read
                  (ensures_ask (λ s. d.select_one (λ r. r.id == input.workspace_id) s.workspaces)
                    db)
                  λ workspace_found ew.
                    ensures_read
                      (ensures_ask
                        (λ s.
                          d.select_one (is_membership_of session.user_id input.workspace_id)
                            s.memberships)
                        db)
                      λ membership_found em. ensures_found _ user_found λ actor ja.
                        ensures_found _ workspace_found λ workspace jw.
                          ensures_found _ membership_found λ membership jm.
                            ensures_unless (not (may_administer actor workspace membership)) _ _
                              λ may. ensures_pure (
                                refl,
                                can_administer d db input (found_row d es js) (found_row d eu ja)
                                    (found_row d ew jw) (found_row d em jm) open_session
                                    (ground arith),
                              )
