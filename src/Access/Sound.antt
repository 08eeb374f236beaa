-- ===== src/Access/Sound.antt =====
-- What an allowed launch rests on.
use swooshz_platform.Base.{
  ◌≡◌, ◌≤◌, ◌⊎◌, ◌↔◌, String, true, false, none, some, Memᴰ, find, find-some, count, find_of_unique,
  eq_of_==, eq_iff, ==-self, true-&&, sym, ◌∙◌, arith, ◌==◌,
}
use swooshz_platform.Base.Text.{is_empty}
use swooshz_platform.Time.{is_after}
use swooshz_platform.Accounts.{
  User, UserStatus, Workspace, WorkspaceStatus, Membership, MembershipStatus, Session, App,
  AppEntitlement, admin, operator, available, private_preview, enabled, trial, user_is_active,
  workspace_is_active,
}
use swooshz_platform.Access.{
  DecideAppAccessInput, is_session_usable, selected, gate_blocks, is_active_membership_of,
  is_entitlement_of, decide_app_access, allowed_app_status, launchable_entitlement_status,
  role_can_launch_app,
}

found_of_allowed :
    (i : DecideAppAccessInput)
    → (decide_app_access i).allowed ≡ true
    → (session : Session) × (user : User) × (w : String) × (membership : Membership)
      × (workspace : Workspace) × (app : App) × (entitlement : AppEntitlement) × (i.session
          ≡ some session)
      × (i.user ≡ some user)
      × (selected i.selected_workspace_id ≡ some w)
      × (find (is_active_membership_of user.id w) i.memberships ≡ some membership)
      × (find (λ c. c.id == w) i.workspaces ≡ some workspace)
      × (find (λ c. c.key == i.app_key) i.apps ≡ some app)
      × (find (is_entitlement_of workspace.id app.id) i.entitlements ≡ some entitlement)
      × ((session.user_id == user.id) ≡ true)
      × (is_session_usable session i.now ≡ true)
      × (user_is_active user.status ≡ true)
      × (workspace_is_active workspace.status ≡ true)
      × (allowed_app_status app.status ≡ true)
      × (launchable_entitlement_status entitlement.status ≡ true)
      × (role_can_launch_app membership.role ≡ true)
      × (gate_blocks i.billing_gate ≡ false)
unfolding decide_app_access
found_of_allowed i h = ground arith

-- The rule in words: the session and its user are in order, and there are an active membership in a
-- launch role, an active workspace, an open app and a launchable entitlement that belong together.
pub record CanLaunch (i : DecideAppAccessInput) : Type 0 where
  pub session : Session
  pub user : User
  pub workspace : Workspace
  pub membership : Membership
  pub app : App
  pub entitlement : AppEntitlement
  pub signed_in : i.session ≡ some session
  pub known : i.user ≡ some user
  pub own_session : session.user_id ≡ user.id
  pub unrevoked : session.revoked_at ≡ none
  pub unexpired : is_after session.expires_at i.now ≡ true
  pub active_user : user.status ≡ UserStatus.active
  pub chosen : i.selected_workspace_id ≡ some workspace.id
  pub has_id : is_empty workspace.id ≡ false
  pub is_member : Memᴰ membership i.memberships
  pub member_user : membership.user_id ≡ user.id
  pub member_workspace : membership.workspace_id ≡ workspace.id
  pub active_member : membership.status ≡ MembershipStatus.active
  pub launch_role : (membership.role ≡ admin) ⊎ (membership.role ≡ operator)
  pub is_workspace : Memᴰ workspace i.workspaces
  pub active_workspace : workspace.status ≡ WorkspaceStatus.active
  pub is_app : Memᴰ app i.apps
  pub asked : app.key ≡ i.app_key
  pub open_app : (app.status ≡ available) ⊎ (app.status ≡ private_preview)
  pub is_entitled : Memᴰ entitlement i.entitlements
  pub entitled_workspace : entitlement.workspace_id ≡ workspace.id
  pub entitled_app : entitlement.app_id ≡ app.id
  pub granted : (entitlement.status ≡ enabled) ⊎ (entitlement.status ≡ trial)
  pub unblocked : gate_blocks i.billing_gate ≡ false

-- The unique indexes of the schema, on the rows that are given.
pub record HasUniqueRows (i : DecideAppAccessInput) : Type 0 where
  pub memberships : (u w : String) → count (is_active_membership_of u w) i.memberships ≤ 1
  pub workspaces : (w : String) → count (λ c. c.id == w) i.workspaces ≤ 1
  pub apps : (k : String) → count (λ c. c.key == k) i.apps ≤ 1
  pub entitlements : (w a : String) → count (is_entitlement_of w a) i.entitlements ≤ 1

membership_parts :
    (u w : String) (m : Membership)
    → is_active_membership_of u w m ≡ true
    → (m.user_id ≡ u) × (m.workspace_id ≡ w) × (m.status ≡ MembershipStatus.active)
membership_parts u w m h = ground (arith, eq_iff m.user_id u, eq_iff m.workspace_id w)

is_active_membership_of_parts :
    (u w : String) (m : Membership)
    → m.user_id ≡ u
    → m.workspace_id ≡ w
    → m.status ≡ MembershipStatus.active
    → is_active_membership_of u w m ≡ true
is_active_membership_of_parts u w m hu hw hs =
    ground (arith, eq_iff m.user_id u, eq_iff m.workspace_id w)

CanLaunch-of_allowed :
    (i : DecideAppAccessInput) → (decide_app_access i).allowed ≡ true → CanLaunch i
CanLaunch-of_allowed i h =
    let (
      session, user, w, m, ws, app, ent, es, eu, ew, em, ews, ea, ee, own, us, ua, wa, aa, la, ra,
      bg,
    ) =
      found_of_allowed i h in
    let (mm, mt) = find-some (is_active_membership_of user.id w) i.memberships em in
    let (wm, wt) = find-some (λ c. c.id == w) i.workspaces ews in
    let (am, at) = find-some (λ c. c.key == i.app_key) i.apps ea in
    let (nm, nt) = find-some (is_entitlement_of ws.id app.id) i.entitlements ee in
    let (member_user, member_workspace, member_active) = membership_parts user.id w m mt in
    let same : ws.id ≡ w = eq_of_== ws.id w wt in
    record {
      session = session;
      user = user;
      workspace = ws;
      membership = m;
      app = app;
      entitlement = ent;
      signed_in = es;
      known = eu;
      own_session = eq_of_== session.user_id user.id own;
      unrevoked = ground arith;
      unexpired = ground arith;
      active_user = ground arith;
      chosen = rw same (ground arith);
      has_id = rw same (ground arith);
      is_member = mm;
      member_user = member_user;
      member_workspace = member_workspace ∙ sym same;
      active_member = member_active;
      launch_role = ground arith;
      is_workspace = wm;
      active_workspace = ground arith;
      is_app = am;
      asked = eq_of_== app.key i.app_key at;
      open_app = ground arith;
      is_entitled = nm;
      entitled_workspace = eq_of_== ent.workspace_id ws.id (ground arith);
      entitled_app = eq_of_== ent.app_id app.id (ground arith);
      granted = ground arith;
      unblocked = bg;
    }

allowed_of_CanLaunch :
    (i : DecideAppAccessInput)
    → HasUniqueRows i
    → CanLaunch i
    → (decide_app_access i).allowed ≡ true
unfolding decide_app_access
allowed_of_CanLaunch i u c =
    let w = c.workspace.id in
    let p = is_active_membership_of c.user.id w in
    let q = is_entitlement_of w c.app.id in
    let member = find_of_unique p i.memberships (u.memberships c.user.id w) c.is_member (
      is_active_membership_of_parts c.user.id w c.membership c.member_user c.member_workspace
        c.active_member) in
    let workspace =
      find_of_unique (λ (x : Workspace). x.id == w) i.workspaces (u.workspaces w) c.is_workspace
        (==-self w) in
    let app =
      find_of_unique (λ (x : App). x.key == i.app_key) i.apps (u.apps i.app_key) c.is_app
        ((eq_iff c.app.key i.app_key).1 c.asked) in
    let entitlement = find_of_unique q i.entitlements (u.entitlements w c.app.id) c.is_entitled (
      true-&& _ _ ((eq_iff c.entitlement.workspace_id w).1 c.entitled_workspace)
        ((eq_iff c.entitlement.app_id c.app.id).1 c.entitled_app)) in
    ground (arith, eq_iff c.session.user_id c.user.id, member, workspace, app, entitlement)

-- Given the unique indexes of the schema, the decision allows a launch exactly when there are a usable
-- session of an active user, an active membership of that user in a launch role, an active workspace,
-- an open app and a launchable entitlement that belong together, and no billing gate blocks.
pub decide_app_access_iff :
    (i : DecideAppAccessInput)
    → HasUniqueRows i
    → ((decide_app_access i).allowed ≡ true) ↔ CanLaunch i
decide_app_access_iff i u = (CanLaunch-of_allowed i, allowed_of_CanLaunch i u)
