-- ===== src/Services/Admin/Refines/Changes.antt =====
-- The operations on a membership of src/platform/workspace-admin-service.ts are admin steps.
use swooshz_platform.Base.{
  ◌≡◌, ◌≢◌, refl, String, false, not, ◌&&◌, head?, eq_of_==, eq_iff, arith, ◌==◌, leb, &&-true,
}
use swooshz_platform.Io.{Ensures, ensures_found, ensures_unless, ensures_bind}
use swooshz_platform.Accounts.{Membership, MembershipStatus, is_admin, membership_is_active}
use swooshz_platform.Driver.{Driver}
use swooshz_platform.Db.Statements.{Database}
use swooshz_platform.Db.Workspaces.{is_removal_target}
use swooshz_platform.Db.Triples.{ensures_row}
use swooshz_platform.Db.Repositories.{drizzle_repositories}
use swooshz_platform.Services.Admin.{is_active_admin, active_admin_count}
use swooshz_platform.Services.Admin.Members.{
  WorkspaceRoleChangeInput, WorkspaceMembershipInput, role_change, disabling, reactivation, removal,
}
use swooshz_platform.Services.Admin.Step.{changed, removed}
use swooshz_platform.Services.Admin.Refines.Parts.{
  AdminStep, ensures_target, ensures_logged, ensures_revoke_sessions,
}

test_differs : (s k : String) → (s == k) ≡ false → s ≢ k
test_differs s k h same = ground (arith, (eq_iff s k).1 same)

module _ (d : Driver) (db : Database) where
  -- Changing a role is a step of an admin.
  pub role_change-AdminStep :
      (input : WorkspaceRoleChangeInput)
      → Ensures
          (role_change input (drizzle_repositories d))
          db
          (λ _ db'. AdminStep input.base (λ k. k ≡ "workspace.membership.role_changed") db db')
  unfolding role_change
  role_change-AdminStep input =
      ensures_target d input.base input.membership_id db _
        λ context listed target can rows here inside same.
          ensures_unless
            ((is_active_admin target && not (is_admin input.role))
              && leb (active_admin_count listed) 1)
            _ _
            λ _. ensures_unless (target.user_id == context.actor.id) _ _ λ other.
              ensures_row (λ t b. record b { memberships = t })
                (λ s.
                  d.update (λ m. m.id == target.id)
                    (λ m. record m { role = input.role; updated_at = input.now }) s.memberships)
                db _
                λ updated_rows table w. ensures_found _ (head? updated_rows) λ updated _.
                  let (_, e) =
                    d.update_rows (λ (m : Membership). m.id == target.id)
                      (λ m. record m { role = input.role; updated_at = input.now }) db.memberships
                      updated_rows table w in
                  ensures_logged d input.base context _ updated db
                    (record db { memberships = table }) can (refl, (refl, refl)) refl
                    (changed target (λ m. record m { role = input.role; updated_at = input.now })
                      here inside (test_differs _ _ other) (λ _. (refl, (refl, refl))) e)
                    refl refl refl

  -- Disabling a membership is a step of an admin.
  pub disabling-AdminStep :
      (input : WorkspaceMembershipInput)
      → Ensures
          (disabling input (drizzle_repositories d))
          db
          (λ _ db'. AdminStep input.base (λ k. k ≡ "workspace.membership.disabled") db db')
  unfolding disabling
  disabling-AdminStep input =
      ensures_target d input.base input.membership_id db _
        λ context listed target can rows here inside same.
          ensures_unless (is_active_admin target && leb (active_admin_count listed) 1) _ _ λ _.
            ensures_unless (target.user_id == context.actor.id) _ _ λ other.
              let f = λ (m : Membership). record m {
                status = MembershipStatus.disabled;
                updated_at = input.now;
              } in
              ensures_row (λ t b. record b { memberships = t })
                (λ s. d.update (λ m. m.id == target.id) f s.memberships) db _
                λ updated_rows table w. ensures_found _ (head? updated_rows) λ updated _.
                  ensures_bind
                    (ensures_revoke_sessions d target.user_id input.now
                      (record db { memberships = table }))
                    λ _ t left.
                      let (_, e) =
                        d.update_rows (λ (m : Membership). m.id == target.id) f db.memberships
                          updated_rows table w in
                      ensures_logged d input.base context _ updated db t can (refl, (refl, refl))
                        refl
                        (rw left.memberships (
                          changed target f here inside (test_differs _ _ other)
                            (λ _. (refl, (refl, refl))) e))
                        left.audit_events left.users left.workspaces

  -- Reactivating a membership is a step of an admin.
  pub reactivation-AdminStep :
      (input : WorkspaceMembershipInput)
      → Ensures
          (reactivation input (drizzle_repositories d))
          db
          (λ _ db'. AdminStep input.base (λ k. k ≡ "workspace.membership.reactivated") db db')
  unfolding reactivation
  reactivation-AdminStep input =
      ensures_target d input.base input.membership_id db _
        λ context listed target can rows here inside same.
          ensures_unless (target.user_id == context.actor.id) _ _ λ other.
            ensures_unless (membership_is_active target.status) _ _ λ _.
              let f = λ (m : Membership). record m {
                status = MembershipStatus.active;
                updated_at = input.now;
              } in
              ensures_row (λ t b. record b { memberships = t })
                (λ s. d.update (λ m. m.id == target.id) f s.memberships) db _
                λ updated_rows table w. ensures_found _ (head? updated_rows) λ updated _.
                  let (_, e) =
                    d.update_rows (λ (m : Membership). m.id == target.id) f db.memberships
                      updated_rows table w in
                  ensures_logged d input.base context _ updated db
                    (record db { memberships = table }) can (refl, (refl, refl)) refl
                    (changed target f here inside (test_differs _ _ other)
                      (λ _. (refl, (refl, refl))) e)
                    refl refl refl

  -- Removing a membership is a step of an admin.
  pub removal-AdminStep :
      (input : WorkspaceMembershipInput)
      → Ensures
          (removal input (drizzle_repositories d))
          db
          (λ _ db'. AdminStep input.base (λ k. k ≡ "workspace.membership.removed") db db')
  unfolding removal
  removal-AdminStep input =
      ensures_target d input.base input.membership_id db _
        λ context listed target can rows here inside same.
          ensures_unless (is_active_admin target && leb (active_admin_count listed) 1) _ _ λ _.
            ensures_unless (target.user_id == context.actor.id) _ _ λ other.
              let p = is_removal_target (record {
                id = target.id;
                workspace_id = target.workspace_id;
                user_id = target.user_id;
                role = target.role;
                status = target.status;
              }) in
              ensures_row (λ t b. record b { memberships = t }) (λ s. d.delete p s.memberships) db _
                λ removed_rows table w. ensures_found _ (head? removed_rows) λ gone _.
                  ensures_bind
                    (ensures_revoke_sessions d target.user_id input.now
                      (record db { memberships = table }))
                    λ _ t left.
                      let (_, e) = d.delete_rows p db.memberships removed_rows table w in
                      ensures_logged d input.base context _ gone db t can (refl, (refl, refl)) refl
                        (rw left.memberships (
                          removed target p here inside (test_differs _ _ other)
                            (λ m h. eq_of_== _ _ (&&-true _ _ h).0) e))
                        left.audit_events left.users left.workspaces
