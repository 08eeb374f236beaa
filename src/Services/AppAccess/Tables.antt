-- ===== src/Services/AppAccess/Tables.antt =====
-- Over the Drizzle repositories, the decision by lookups is the decision over the whole tables.
use swooshz_platform.Base.{
  ◌≡◌, ◌⊎◌, [], refl, String, true, Option, none, some, find, singleton_of, find-singleton_of-find,
  Option-cases, inl, inr, arith, ◌==◌,
}
use swooshz_platform.Io.{ok, Outcome-cases, ◌>>=◌}
use swooshz_platform.Accounts.{User, Session, Workspace, Membership, App, AppEntitlement}
use swooshz_platform.Access.{
  DecideAppAccessInput, AccessDecision, selected, decide_app_access, is_active_membership_of,
  is_entitlement_of,
}
use swooshz_platform.Driver.{Driver}
use swooshz_platform.Db.Statements.{Database}
use swooshz_platform.Db.Keyed.{IsKeyed, is_membership_of, select_one-eq-find}
use swooshz_platform.Db.Repositories.{drizzle_repositories}
use swooshz_platform.Services.AppAccess.{
  DecidePlatformAppAccessInput, find_entitlement, decide_in_workspace, decide_platform_app_access,
  decide_for_user, decide_for_session,
}

abbrev pub session_row : Database → Option String → Option Session
session_row db none = none
session_row db (some id) = find (λ s. s.id == id) db.sessions

abbrev pub user_row : Database → Option Session → Option User
user_row db none = none
user_row db (some s) = find (λ u. u.id == s.user_id) db.users

-- The input of `decideAppAccess` with every row of the tables in it.
abbrev pub whole_tables : Database → DecidePlatformAppAccessInput → DecideAppAccessInput
whole_tables db input =
    let session = session_row db (selected input.session_id) in
    record {
      app_key = input.app_key;
      session = session;
      user = user_row db session;
      selected_workspace_id = input.selected_workspace_id;
      workspaces = db.workspaces;
      memberships = db.memberships;
      apps = db.apps;
      entitlements = db.app_entitlements;
      billing_gate = input.billing_gate;
      now = input.now;
    }

-- The decision looks at its lists only through `find`.
decide-congr :
    (i : DecideAppAccessInput) (s : Session) (u : User) (w : String) (ws : Option Workspace)
    (m : Option Membership) (a : Option App) (e : Option AppEntitlement)
    → i.session ≡ some s
    → i.user ≡ some u
    → selected i.selected_workspace_id ≡ some w
    → find (λ c. c.id == w) (singleton_of ws) ≡ find (λ c. c.id == w) i.workspaces
    → find (is_active_membership_of u.id w) (singleton_of m)
      ≡ find (is_active_membership_of u.id w) i.memberships
    → find (λ c. c.key == i.app_key) (singleton_of a) ≡ find (λ c. c.key == i.app_key) i.apps
    → ((x : Workspace) (y : App)
        → ws ≡ some x
        → a ≡ some y
        → find (is_entitlement_of x.id y.id) (singleton_of e)
          ≡ find (is_entitlement_of x.id y.id) i.entitlements)
    → decide_app_access (record i {
      workspaces = singleton_of ws;
      memberships = singleton_of m;
      apps = singleton_of a;
      entitlements = singleton_of e;
    })
      ≡ decide_app_access i
unfolding decide_app_access
decide-congr i s u w none m a e es eu ew fw fm fa fe = ground arith
decide-congr i s u w (some x) m none e es eu ew fw fm fa fe = ground arith
decide-congr i s u w (some x) m (some y) e es eu ew fw fm fa fe = ground (arith, fe x y refl refl)

-- A decision that is made before any row of a workspace is looked at.
without_rows :
    (i : DecideAppAccessInput)
    → (i.session ≡ none) ⊎ ((i.user ≡ none) ⊎ (selected i.selected_workspace_id ≡ none))
    → decide_app_access
        (record i { workspaces = []; memberships = []; apps = []; entitlements = [] })
      ≡ decide_app_access i
unfolding decide_app_access
without_rows i h = ground arith

selected-some :
    (o : Option String) (w : String)
    → selected o ≡ some w
    → (o ≡ some w) × (selected (some w) ≡ some w)
selected-some none w h = ground arith
selected-some (some v) w h = ground arith

pub member_of_active :
    (u w : String) (m : Membership)
    → is_active_membership_of u w m ≡ true
    → is_membership_of u w m ≡ true
member_of_active u w m h = ground arith

module _ (d : Driver) (db : Database) (keyed : IsKeyed db) where
  entitlement_row :
      (ws : Option Workspace) (a : Option App) (e : Option AppEntitlement) (w : Workspace) (b : App)
      → ws ≡ some w
      → a ≡ some b
      → (find_entitlement (drizzle_repositories d) ws a db).0 ≡ ok e
      → find (is_entitlement_of w.id b.id) db.app_entitlements ≡ e
  entitlement_row none a e w b p q h = ground arith
  entitlement_row (some x) none e w b p q h = ground arith
  entitlement_row (some x) (some y) e w b p q h =
      let ew : x ≡ w = cc in
      let eb : y ≡ b = cc in
      rw (← ew, ← eb)
        (select_one-eq-find d (is_entitlement_of x.id y.id) db.app_entitlements e
          (keyed.entitlements x.id y.id) h)

  -- The decision in a selected workspace, on the rows that the four lookups found.
  on_rows :
      (i : DecideAppAccessInput) (s : Session) (u : User) (w : String) (ws : Option Workspace)
      (m : Option Membership) (a : Option App) (e : Option AppEntitlement)
      → i.session ≡ some s
      → i.user ≡ some u
      → selected i.selected_workspace_id ≡ some w
      → i.workspaces ≡ db.workspaces
      → i.memberships ≡ db.memberships
      → i.apps ≡ db.apps
      → i.entitlements ≡ db.app_entitlements
      → d.select_one (λ c. c.id == w) db.workspaces ≡ ok ws
      → d.select_one (is_membership_of u.id w) db.memberships ≡ ok m
      → d.select_one (λ c. c.key == i.app_key) db.apps ≡ ok a
      → (find_entitlement (drizzle_repositories d) ws a db).0 ≡ ok e
      → decide_app_access (record i {
        workspaces = singleton_of ws;
        memberships = singleton_of m;
        apps = singleton_of a;
        entitlements = singleton_of e;
      })
        ≡ decide_app_access i
  on_rows i s u w ws m a e es eu ew tw tm ta te pw pm pa pe =
      let is_w = λ (c : Workspace). c.id == w in
      let is_m = is_membership_of u.id w in
      let is_a = λ (c : App). c.key == i.app_key in
      let fw = select_one-eq-find d is_w db.workspaces ws (keyed.workspace_ids w) pw in
      let fm = select_one-eq-find d is_m db.memberships m (keyed.membership_users u.id w) pm in
      let fa = select_one-eq-find d is_a db.apps a (keyed.app_keys i.app_key) pa in
      decide-congr i s u w ws m a e es eu ew
        (rw (tw, ← fw)
          (find-singleton_of-find is_w is_w (λ _ h. h) db.workspaces (keyed.workspace_ids w)))
        (rw (tm, ← fm)
          (find-singleton_of-find (is_active_membership_of u.id w) is_m
            (λ c. member_of_active u.id w c) db.memberships (keyed.membership_users u.id w)))
        (rw (ta, ← fa)
          (find-singleton_of-find is_a is_a (λ _ h. h) db.apps (keyed.app_keys i.app_key)))
        (λ x y p q.
          let same = is_entitlement_of x.id y.id in
          rw (te, ← entitlement_row ws a e x y p q pe)
            (find-singleton_of-find same same (λ _ h. h) db.app_entitlements
              (keyed.entitlements x.id y.id)))

  in_workspace :
      (input : DecidePlatformAppAccessInput) (s : Session) (u : User) (w : String)
      (r : AccessDecision) (db' : Database)
      → session_row db (selected input.session_id) ≡ some s
      → user_row db (some s) ≡ some u
      → input.selected_workspace_id ≡ some w
      → selected (some w) ≡ some w
      → decide_in_workspace (drizzle_repositories d) input s u w db ≡ (ok r, db')
      → (db' ≡ db) × (r ≡ decide_app_access (whole_tables db input))
  unfolding ◌>>=◌
  in_workspace input s u w r db' es eu sel en h =
      elim (Outcome-cases (d.select_one (λ c. c.id == w) db.workspaces)) [
        | inr (x, p) ↦ ground arith
        | inl (ws, pw) ↦
            elim (Outcome-cases (d.select_one (is_membership_of u.id w) db.memberships)) [
              | inr (x, p) ↦ ground arith
              | inl (m, pm) ↦
                  elim (Outcome-cases (d.select_one (λ c. c.key == input.app_key) db.apps)) [
                    | inr (x, p) ↦ ground arith
                    | inl (a, pa) ↦
                        elim (Outcome-cases (find_entitlement (drizzle_repositories d) ws a db).0) [
                          | inr (x, p) ↦ ground arith
                          | inl (e, pe) ↦
                              let i = whole_tables db input in
                              let same =
                                on_rows i s u w ws m a e es (rw es eu) (rw sel en) refl refl refl
                                  refl pw pm pa pe in
                              ground (arith, same)
                        ]
                  ]
            ]
      ]

  for_user :
      (input : DecidePlatformAppAccessInput) (r : AccessDecision) (db' : Database) (s : Session)
      (user : Option User)
      → session_row db (selected input.session_id) ≡ some s
      → user_row db (some s) ≡ user
      → decide_for_user (drizzle_repositories d) input s user db ≡ (ok r, db')
      → (db' ≡ db) × (r ≡ decide_app_access (whole_tables db input))
  unfolding ◌>>=◌
  for_user input r db' s none es eu h =
      ground (arith, without_rows (whole_tables db input) (inr (inl (rw es eu))))
  for_user input r db' s (some u) es eu h =
      elim (Option-cases (selected input.selected_workspace_id)) [
        | inl absent ↦ ground (arith, without_rows (whole_tables db input) (inr (inr absent)))
        | inr (w, given) ↦
            let (chosen, has_id) = selected-some input.selected_workspace_id w given in
            in_workspace input s u w r db' es eu chosen has_id (ground arith)
      ]

  for_session :
      (input : DecidePlatformAppAccessInput) (r : AccessDecision) (db' : Database)
      (session : Option Session)
      → session_row db (selected input.session_id) ≡ session
      → decide_for_session (drizzle_repositories d) input session db ≡ (ok r, db')
      → (db' ≡ db) × (r ≡ decide_app_access (whole_tables db input))
  unfolding ◌>>=◌
  for_session input r db' none es h = ground (arith, without_rows (whole_tables db input) (inl es))
  for_session input r db' (some s) es h =
      elim (Outcome-cases (d.select_one (λ u. u.id == s.user_id) db.users)) [
        | inr (x, p) ↦ ground arith
        | inl (user, p) ↦
            let is_u = λ (u : User). u.id == s.user_id in
            let eu = select_one-eq-find d is_u db.users user (keyed.user_ids s.user_id) p in
            for_user input r db' s user es eu (ground arith)
      ]

  -- Over the Drizzle repositories, and given the unique indexes, the decision by lookups only reads, and
  -- it is the decision of `decideAppAccess` on the whole tables, whenever no lookup throws.
  pub decide_platform_app_access-eq :
      (input : DecidePlatformAppAccessInput) (r : AccessDecision) (db' : Database)
      → decide_platform_app_access (drizzle_repositories d) input db ≡ (ok r, db')
      → (db' ≡ db) × (r ≡ decide_app_access (whole_tables db input))
  unfolding decide_platform_app_access
  decide_platform_app_access-eq input r db' h =
      let i = whole_tables db input in
      elim (Option-cases (selected input.session_id)) [
        | inl absent ↦ ground (arith, without_rows i (inl (rw absent)))
        | inr (id, given) ↦ elim (Outcome-cases (d.select_one (λ s. s.id == id) db.sessions)) [
          | inr (x, p) ↦ ground arith
          | inl (found, p) ↦
              let es : session_row db (selected input.session_id) ≡ found = rw given (
                select_one-eq-find d (λ s. s.id == id) db.sessions found (keyed.session_ids id)
                  p) in
              for_session input r db' found es (ground arith)
        ]
      ]
