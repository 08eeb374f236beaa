-- ===== src/Services/Admin/Invariant.antt =====
-- What sequences of the operations of src/platform/workspace-admin-service.ts keep.
use swooshz_platform.Base.{sym, String, List, [], ◌∷◌, refl, ==-self}
use mathlib.Core.Path.{subst}
use swooshz_platform.Io.{Outcome, ok, thrown}
use swooshz_platform.Driver.{Driver}
use swooshz_platform.Db.Statements.{Database}
use swooshz_platform.Services.Admin.{WorkspaceAdminInput}
use swooshz_platform.Services.Admin.Step.{
  HasUniqueIds, HasActiveAdmin, MembershipStep-HasUniqueIds, MembershipStep-HasActiveAdmin,
}
use swooshz_platform.Services.Admin.Commands.{
  AdminCommand, admin_input, HasTypeOf, IsSettled, perform, perform_all,
}
use swooshz_platform.Services.Admin.Refines.Parts.{AdminStep}
use swooshz_platform.Services.Admin.History.{perform-IsSettled}

AdminStep-HasActiveAdmin :
    {input : WorkspaceAdminInput} {types : String → Type 0} {db db' : Database}
    → AdminStep input types db db'
    → HasUniqueIds db.memberships
    → (v : String) → HasActiveAdmin v db.memberships
    → HasActiveAdmin v db'.memberships
AdminStep-HasActiveAdmin {input = input} step unique v h =
    let can = step.authorized in
    let mine = step.context.actor_membership in
    MembershipStep-HasActiveAdmin mine step.memberships unique can.has_membership can.member_user
      (rw (can.member_workspace, can.admin_role, can.active_member, ==-self input.workspace_id)
        refl)
      v h

module _ (d : Driver) (to_lower_case : String → String) where
  -- A property of databases that every step of an admin keeps is kept by sequences of commands.
  perform_all-keeps :
      (P : Database → Type 0)
      → ((input : WorkspaceAdminInput) (types : String → Type 0) (db db' : Database)
          → AdminStep input types db db'
          → P db
          → P db')
      → (cs : List AdminCommand) (db : Database) → P db
      → P (perform_all d to_lower_case cs db)
  unfolding perform_all
  perform_all-keeps P step [] db h = h
  perform_all-keeps P step (c ∷ cs) db h =
      perform_all-keeps P step cs (perform d to_lower_case c db).1 (
        settled (perform d to_lower_case c db).0 (perform d to_lower_case c db).1 (
          perform-IsSettled d to_lower_case db c (perform d to_lower_case c db).0
            (perform d to_lower_case c db).1 refl))
    where
      settled : (r : Outcome (Unit {0})) (db' : Database) → IsSettled db c r db' → P db'
      settled (ok a) db' s = step (admin_input c) (HasTypeOf c) db db' s h
      settled (thrown e) db' s = subst P (sym s.0) h

  -- No sequence of operations of the admin service, whoever calls them and in whatever order, takes the
  -- last active admin from a workspace: if the ids of the memberships are unique at the start, every
  -- workspace that has an active admin then has one at the end, and the ids are still unique.
  pub perform_all-HasActiveAdmin :
      (cs : List AdminCommand) (db : Database)
      → HasUniqueIds db.memberships
      → HasUniqueIds (perform_all d to_lower_case cs db).memberships
        × ((v : String)
            → HasActiveAdmin v db.memberships
            → HasActiveAdmin v (perform_all d to_lower_case cs db).memberships)
  perform_all-HasActiveAdmin cs db unique = (
    perform_all-keeps (λ t. HasUniqueIds t.memberships)
        (λ _ _ _ _ s h. MembershipStep-HasUniqueIds s.memberships h) cs db unique,
    λ v h.
        (perform_all-keeps (λ t. HasUniqueIds t.memberships × HasActiveAdmin v t.memberships)
          (λ _ _ _ _ s p.
            (MembershipStep-HasUniqueIds s.memberships p.0, AdminStep-HasActiveAdmin s p.0 v p.1))
          cs db (unique, h)).1,
  )
