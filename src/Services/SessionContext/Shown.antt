-- ===== src/Services/SessionContext/Shown.antt =====
-- What src/platform/session-context-service.ts shows over the Drizzle repositories.
use mathlib.Core.Path.{subst}
use swooshz_platform.Base.{
  ◌≡◌, refl, sym, String, true, false, not, Option, none, some, is_some, List, [], ◌∷◌, Memᴰ,
  mem-perm, mem-filter, eq_of_==, true_of_not, arith, ◌==◌,
}
use swooshz_platform.Time.{at_or_before}
use swooshz_platform.Io.{ok, Io, Ensures, ensures_pure, ensures_if, ensures_read, ensures_catching}
use swooshz_platform.Accounts.{
  User, Workspace, Membership, Session, App, user_is_active, workspace_is_active,
  membership_is_active,
}
use swooshz_platform.Driver.{Driver}
use swooshz_platform.Db.Statements.{Database}
use swooshz_platform.Db.Triples.{ensures_ask}
use swooshz_platform.Db.Repositories.{drizzle_repositories}
use swooshz_platform.Services.SessionContext.{
  PlatformSessionContextInput, PlatformSessionContextWorkspaceSummary, AuthenticatedContext,
  authenticated, with_workspace, read_workspace_contexts, context_for_user, context_for_session,
  get_platform_session_context,
}

-- The user has an active membership, in the role that is shown, in the workspace that is shown, which is
-- active.
pub record IsWorkspaceOf (user_id : String) (w : PlatformSessionContextWorkspaceSummary)
    (db : Database) : Type 0 where
  pub membership : Membership
  pub there : Memᴰ membership db.memberships
  pub of_user : membership.user_id ≡ user_id
  pub active : membership_is_active membership.status ≡ true
  pub role : w.membership_role ≡ membership.role
  pub workspace : Workspace
  pub workspace_there : Memᴰ workspace db.workspaces
  pub of_membership : workspace.id ≡ membership.workspace_id
  pub workspace_active : workspace_is_active workspace.status ≡ true
  pub shown : w.workspace_id ≡ workspace.id

-- The context is of a live session of an active user, and shows workspaces of the user.
pub record IsContextOf (input : PlatformSessionContextInput) (c : AuthenticatedContext)
    (db : Database) : Type 0 where
  pub session : Session
  pub there : Memᴰ session db.sessions
  pub same_id : session.id ≡ input.session_id
  pub unrevoked : is_some session.revoked_at ≡ false
  pub in_time : at_or_before session.expires_at input.now ≡ false
  pub user : User
  pub user_there : Memᴰ user db.users
  pub of_session : user.id ≡ session.user_id
  pub active : user_is_active user.status ≡ true
  pub shown : c.user.user_id ≡ user.id
  pub workspaces :
      (w : PlatformSessionContextWorkspaceSummary)
      → Memᴰ w c.workspaces
      → IsWorkspaceOf user.id w db

module _ (d : Driver) (db : Database) where
  abbrev AllOf : String → List PlatformSessionContextWorkspaceSummary → Type 0
  AllOf user_id ws =
      (w : PlatformSessionContextWorkspaceSummary) → Memᴰ w ws → IsWorkspaceOf user_id w db

  all_cons :
      (user_id : String) {x : PlatformSessionContextWorkspaceSummary}
      (ws : List PlatformSessionContextWorkspaceSummary)
      → AllOf user_id ws
      → IsWorkspaceOf user_id x db
      → AllOf user_id (x ∷ ws)
  all_cons user_id ws all shown w (Memᴰ.head e) =
      subst (λ y. IsWorkspaceOf user_id y db) (sym e) shown
  all_cons user_id ws all shown w (Memᴰ.tail n) = all w n

  module _ (session : Session) (user : User) (apps : List App)
      (input : PlatformSessionContextInput) where
    ensures_workspace :
        (m : Membership) (o : Option Workspace)
        (rest : Io Database (List PlatformSessionContextWorkspaceSummary))
        → Memᴰ m db.memberships
        → m.user_id ≡ user.id
        → membership_is_active m.status ≡ true
        → d.select_one (λ w. w.id == m.workspace_id) db.workspaces ≡ ok o
        → Ensures rest db (λ ws t. (t ≡ db) × AllOf user.id ws)
        → Ensures
            (with_workspace (drizzle_repositories d) session user apps input.now m o rest)
            db
            (λ ws t. (t ≡ db) × AllOf user.id ws)
    ensures_workspace m none rest there of_user active h known = known
    ensures_workspace m (some workspace) rest there of_user active h known =
        ensures_if (not (workspace_is_active workspace.status)) _ _ (λ _. known)
          λ open_now.
            ensures_read
              (ensures_ask (λ s. d.select (λ e. e.workspace_id == workspace.id) s.app_entitlements)
                db)
              λ entitlements _. ensures_read known λ ws all.
                let (w_there, test) =
                  d.select_one-some (λ (w : Workspace). w.id == m.workspace_id) db.workspaces
                    workspace h in
                ensures_pure (
                  refl,
                  all_cons user.id ws all (record {
                    membership = m;
                    there = there;
                    of_user = of_user;
                    active = active;
                    role = refl;
                    workspace = workspace;
                    workspace_there = w_there;
                    of_membership = eq_of_== _ _ test;
                    workspace_active = true_of_not _ open_now;
                    shown = refl;
                  }),
                )

    ensures_workspaces :
        (ms : List Membership)
        → ((m : Membership) → Memᴰ m ms → Memᴰ m db.memberships × (m.user_id ≡ user.id))
        → Ensures
            (read_workspace_contexts (drizzle_repositories d) session user apps input.now ms)
            db
            (λ ws t. (t ≡ db) × AllOf user.id ws)
    ensures_workspaces [] known = ensures_pure (refl, λ w n. elim n [ ])
    ensures_workspaces (m ∷ ms) known =
        let rest = ensures_workspaces ms (λ x n. known x (Memᴰ.tail n)) in
        ensures_if (not (membership_is_active m.status)) _ _ (λ _. rest)
          λ active.
            ensures_read
              (ensures_ask (λ s. d.select_one (λ w. w.id == m.workspace_id) s.workspaces) db)
              λ o h.
                let (there, of_user) = known m (Memᴰ.head refl) in
                ensures_workspace m o _ there of_user (true_of_not _ active) h rest

  same_context : {c c' : AuthenticatedContext} → authenticated c ≡ authenticated c' → c ≡ c'
  same_context e = ground arith

  ensures_for_user :
      (input : PlatformSessionContextInput) (session : Session) (o : Option User)
      → Memᴰ session db.sessions
      → session.id ≡ input.session_id
      → is_some session.revoked_at ≡ false
      → at_or_before session.expires_at input.now ≡ false
      → d.select_one (λ u. u.id == session.user_id) db.users ≡ ok o
      → Ensures (context_for_user (drizzle_repositories d) input session o) db (λ r t.
        (c : AuthenticatedContext) → r ≡ authenticated c → (t ≡ db) × IsContextOf input c db)
  ensures_for_user input session none there same_id unrevoked in_time h =
      ensures_pure λ c e. absurd (ground arith)
  ensures_for_user input session (some user) there same_id unrevoked in_time h =
      ensures_if (not (user_is_active user.status)) _ _
        (λ _. ensures_pure λ c e. absurd (ground arith))
        λ active.
          ensures_read (ensures_ask (λ s. d.select (λ m. m.user_id == user.id) s.memberships) db)
            λ ms found. ensures_read (ensures_ask (λ s. d.select (λ _. true) s.apps) db) λ apps _.
              ensures_read
                (ensures_workspaces session user apps input ms λ m n.
                  let (m_there, test) =
                    mem-filter (λ (x : Membership). x.user_id == user.id) db.memberships
                      (mem-perm (d.select_rows _ db.memberships ms found) n) in
                  (m_there, eq_of_== _ _ test))
                λ workspaces all.
                  let (u_there, u_test) =
                    d.select_one-some (λ (u : User). u.id == session.user_id) db.users user h in
                  ensures_pure λ c e. (
                    refl,
                    subst (λ x. IsContextOf input x db) (same_context e)
                        (record {
                          session = session;
                          there = there;
                          same_id = same_id;
                          unrevoked = unrevoked;
                          in_time = in_time;
                          user = user;
                          user_there = u_there;
                          of_session = eq_of_== _ _ u_test;
                          active = true_of_not _ active;
                          shown = refl;
                          workspaces = all;
                        }),
                  )

  ensures_for_session :
      (input : PlatformSessionContextInput) (o : Option Session)
      → d.select_one (λ s. s.id == input.session_id) db.sessions ≡ ok o
      → Ensures (context_for_session (drizzle_repositories d) input o) db (λ r t.
        (c : AuthenticatedContext) → r ≡ authenticated c → (t ≡ db) × IsContextOf input c db)
  ensures_for_session input none h = ensures_pure λ c e. absurd (ground arith)
  ensures_for_session input (some session) h =
      ensures_if (is_some session.revoked_at) _ _ (λ _. ensures_pure λ c e. absurd (ground arith))
        λ unrevoked.
          ensures_if (at_or_before session.expires_at input.now) _ _
            (λ _. ensures_pure λ c e. absurd (ground arith))
            λ in_time.
              ensures_read
                (ensures_ask (λ s. d.select_one (λ u. u.id == session.user_id) s.users) db)
                λ o found.
                  let (there, test) =
                    d.select_one-some (λ (s : Session). s.id == input.session_id) db.sessions
                      session h in
                  ensures_for_user input session o there (eq_of_== _ _ test) unrevoked in_time found

  -- A context that is answered is of an unrevoked, unexpired session of the table and of its user, who is
  -- active, and shows only active workspaces in which the user has an active membership, with its role;
  -- to read it changes nothing.
  pub get_platform_session_context-IsContextOf :
      (input : PlatformSessionContextInput) (c : AuthenticatedContext) (db' : Database)
      → get_platform_session_context (drizzle_repositories d) input db ≡ (ok (authenticated c), db')
      → (db' ≡ db) × IsContextOf input c db
  unfolding get_platform_session_context
  get_platform_session_context-IsContextOf input c db' h =
      (ensures_catching _ _ (
          ensures_read
            (ensures_ask (λ s. d.select_one (λ x. x.id == input.session_id) s.sessions) db)
            λ o found. ensures_for_session input o found)).at
        (authenticated c) db' h c refl
