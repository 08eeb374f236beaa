-- ===== src/Services/Admin/Refines/Additions.antt =====
-- Adding members, approvals and entitlements, of src/platform/workspace-admin-service.ts, are admin
-- steps.
use swooshz_platform.Base.{
  ◌⊎◌, inl, inr, ◌≡◌, refl, String, not, ◌&&◌, ◌||◌, Option, none, some, is_some, head?, ◌==◌,
}
use swooshz_platform.Base.Text.{is_empty}
use swooshz_platform.Errors.{admin, repository_failure}
use swooshz_platform.Io.{
  Ensures, ensures_read, ensures_known, ensures_found, ensures_unless, ensures_bind, ensures_if,
  ensures_pure, pure, ◌>>=◌,
}
use swooshz_platform.Accounts.{Membership, user_is_active, User}
use swooshz_platform.Driver.{Driver}
use swooshz_platform.Db.Statements.{Database, memberships_clash, approvals_clash, is_pending}
use swooshz_platform.Db.Triples.{ensures_row, ensures_ask, ensures_insert, ensures_from}
use swooshz_platform.Db.Keyed.{is_membership_of}
use swooshz_platform.Db.Apps.{drizzle_audit_events}
use swooshz_platform.Db.Identity.{drizzle_provider_identities}
use swooshz_platform.Db.Workspaces.{drizzle_membership_approvals}
use swooshz_platform.Db.Repositories.{drizzle_repositories}
use swooshz_platform.Services.Admin.{AdminContext, is_supported_role}
use swooshz_platform.Services.Admin.Approvals.{
  WorkspaceMemberAddInput, WorkspaceMembershipApprovalRevokeInput, create_active_membership,
  create_approval, new_approval, add_if_known, existing_user_added, pending_approval_created,
  approval_revocation, existing_user_addition, add_known_user, member_addition, new_membership,
  no_identities, normalize_email,
}
use swooshz_platform.Services.Admin.Step.{added, kept}
use swooshz_platform.Services.Admin.Authorized.{CanAdminister, require_admin_context-CanAdminister}
use swooshz_platform.Services.Admin.Refines.Parts.{AdminStep, ensures_logged}

-- Adding a member adds a membership or an approval.
abbrev pub IsAddition : String → Type 0
IsAddition k = (k ≡ "workspace.membership.added") ⊎ (k ≡ "workspace.membership_approval.created")

module _ (d : Driver) (db : Database) where
  create_active_membership-AdminStep :
      {types : String → Type 0} (input : WorkspaceMemberAddInput) (context : AdminContext)
      (user_id : String)
      → types "workspace.membership.added"
      → CanAdminister db input.base context
      → Ensures
          (create_active_membership input context (drizzle_repositories d) user_id)
          db
          (λ _ db'. AdminStep input.base types db db')
  unfolding create_active_membership
  create_active_membership-AdminStep input context user_id type can =
      ensures_bind
        (ensures_insert d (λ rows b. record b { memberships = rows }) (λ s. s.memberships)
          memberships_clash (new_membership input user_id) db)
        λ made t (table, (grown, (free, e))). ensures_from e (
          ensures_logged d input.base context _ made db (record db { memberships = table }) can
            (refl, (refl, refl)) type (added (new_membership input user_id) refl free grown) refl
            refl refl)

  -- Adding a known user of a provider by address is a step of an admin.
  pub existing_user_addition-AdminStep :
      (to_lower_case : String → String) (input : WorkspaceMemberAddInput)
      → Ensures
          (existing_user_addition to_lower_case input (drizzle_repositories d))
          db
          (λ _ db'. AdminStep input.base (λ k. k ≡ "workspace.membership.added") db db')
  unfolding existing_user_addition
  existing_user_addition-AdminStep to_lower_case input =
      let email = normalize_email to_lower_case input.target_email in
      ensures_read (require_admin_context-CanAdminister d db input.base) λ context can.
        ensures_known (admin repository_failure) (drizzle_audit_events d) _ (
          ensures_unless (is_empty email) _ _ λ _.
            ensures_read (ensures_ask (λ s. d.select_one (λ u. u.email == email) s.users) db)
              λ found _. ensures_found _ found λ target _.
                ensures_unless (not (user_is_active target.status)) _ _ λ _.
                  ensures_known (admin repository_failure) (drizzle_provider_identities d) _ (
                    ensures_read
                      (ensures_ask
                        (λ s. d.select (λ p. p.user_id == target.id) s.provider_identities) db)
                      λ identities _. ensures_unless (no_identities identities) _ _ λ _.
                        ensures_read
                          (ensures_ask
                            (λ s.
                              d.select_one (is_membership_of target.id input.workspace_id)
                                s.memberships)
                            db)
                          λ existing _. ensures_unless (is_some existing) _ _ λ _.
                            create_active_membership-AdminStep input context target.id refl can))

  create_approval-AdminStep :
      (input : WorkspaceMemberAddInput) (context : AdminContext) (email : String)
      → CanAdminister db input.base context
      → Ensures
          (create_approval input context
            (drizzle_repositories d)
            (drizzle_membership_approvals d)
            email)
          db
          (λ _ db'. AdminStep input.base IsAddition db db')
  unfolding create_approval
  create_approval-AdminStep input context email can =
      ensures_read
        (ensures_ask
          (λ s.
            d.select_one
              (λ a.
                (a.workspace_id == input.workspace_id)
                && ((a.email == email) && is_pending a.status))
              s.membership_approvals)
          db)
        λ existing _. ensures_unless (is_some existing) _ _ λ _.
          ensures_bind
            (ensures_insert d (λ rows b. record b { membership_approvals = rows })
              (λ s. s.membership_approvals) approvals_clash (new_approval input context email) db)
            λ made t (table, (_, (_, e))). ensures_from e (
              ensures_logged d input.base context _ made db
                (record db { membership_approvals = table }) can (refl, (refl, refl)) (inr refl)
                (kept refl) refl refl refl)

  -- Revoking an approval is a step of an admin.
  pub approval_revocation-AdminStep :
      (input : WorkspaceMembershipApprovalRevokeInput)
      → Ensures
          (approval_revocation input (drizzle_repositories d))
          db
          (λ _ db'. AdminStep input.base (λ k. k ≡ "workspace.membership_approval.revoked") db db')
  unfolding approval_revocation
  approval_revocation-AdminStep input =
      ensures_read (require_admin_context-CanAdminister d db input.base) λ context can.
        ensures_known (admin repository_failure) (drizzle_audit_events d) _ (
          ensures_known (admin repository_failure) (drizzle_membership_approvals d) _ (
            ensures_read
              (ensures_ask
                (λ s. d.select_one (λ a. a.id == input.approval_id) s.membership_approvals) db)
              λ found _. ensures_found _ found λ approval _.
                ensures_unless
                  (not (approval.workspace_id == input.workspace_id)
                    || not (is_pending approval.status))
                  _ _
                  λ _. ensures_unless (not (is_supported_role approval.role)) _ _ λ _.
                    ensures_row (λ t b. record b { membership_approvals = t }) _ db _
                      λ rows table _. ensures_found _ (head? rows) λ updated _.
                        ensures_logged d input.base context _ updated db
                          (record db { membership_approvals = table }) can (refl, (refl, refl)) refl
                          (kept refl) refl refl refl))

  -- The branch for a known user adds a membership, or changes nothing.
  abbrev AddedOrSame : WorkspaceMemberAddInput → Option Membership → Database → Type 0
  AddedOrSame input none t = t ≡ db
  AddedOrSame input (some _) t = AdminStep input.base IsAddition db t

  add_known_user-AddedOrSame :
      (to_lower_case : String → String) (input : WorkspaceMemberAddInput) (context : AdminContext)
      (target : User)
      → CanAdminister db input.base context
      → Ensures
          (add_known_user to_lower_case input context (drizzle_repositories d) target)
          db
          (AddedOrSame input)
  unfolding add_known_user
  add_known_user-AddedOrSame to_lower_case input context target can =
      ensures_read
        (ensures_ask
          (λ s. d.select_one (is_membership_of target.id input.workspace_id) s.memberships) db)
        λ existing _. ensures_unless (is_some existing) _ _ λ _.
          ensures_known (admin repository_failure) (drizzle_provider_identities d) _ (
            ensures_read
              (ensures_ask (λ s. d.select (λ p. p.user_id == target.id) s.provider_identities) db)
              λ identities _.
                ensures_if (user_is_active target.status && not (no_identities identities)) _ _
                  (λ _.
                    ensures_bind
                      (create_active_membership-AdminStep input context target.id (inl refl) can)
                      λ _ _ step. ensures_pure step)
                  (λ _.
                    ensures_unless (not (user_is_active target.status)) _ _ λ _. ensures_pure refl))

  add_if_known-AddedOrSame :
      (to_lower_case : String → String) (input : WorkspaceMemberAddInput) (context : AdminContext)
      (found : Option User)
      → CanAdminister db input.base context
      → Ensures
          (add_if_known to_lower_case input context (drizzle_repositories d) found)
          db
          (AddedOrSame input)
  add_if_known-AddedOrSame to_lower_case input context none can = ensures_pure refl
  add_if_known-AddedOrSame to_lower_case input context (some target) can =
      add_known_user-AddedOrSame to_lower_case input context target can

  added_or_approved :
      (input : WorkspaceMemberAddInput) (context : AdminContext) (email : String)
      (made : Option Membership) (t : Database)
      → CanAdminister db input.base context
      → AddedOrSame input made t
      → Ensures
          (elim made [
            | some membership ↦ pure (existing_user_added membership)
            | none ↦
                create_approval input context
                  (drizzle_repositories d)
                  (drizzle_membership_approvals d)
                  email
                >>= λ a. pure (pending_approval_created a)
          ])
          t
          (λ _ db'. AdminStep input.base IsAddition db db')
  added_or_approved input context email none t can same = ensures_from same (
      ensures_bind (create_approval-AdminStep input context email can)
        λ _ _ step. ensures_pure step)
  added_or_approved input context email (some m) t can step = ensures_pure step

  -- Adding a member by address is a step of an admin, whether it makes a membership or an approval.
  pub member_addition-AdminStep :
      (to_lower_case : String → String) (input : WorkspaceMemberAddInput)
      → Ensures
          (member_addition to_lower_case input (drizzle_repositories d))
          db
          (λ _ db'. AdminStep input.base IsAddition db db')
  unfolding member_addition
  member_addition-AdminStep to_lower_case input =
      let email = normalize_email to_lower_case input.target_email in
      ensures_read (require_admin_context-CanAdminister d db input.base) λ context can.
        ensures_known (admin repository_failure) (drizzle_audit_events d) _ (
          ensures_known (admin repository_failure) (drizzle_membership_approvals d) _ (
            ensures_unless (is_empty email) _ _ λ _.
              ensures_read (ensures_ask (λ s. d.select_one (λ u. u.email == email) s.users) db)
                λ found _.
                  ensures_bind (add_if_known-AddedOrSame to_lower_case input context found can)
                    λ made t done. added_or_approved input context email made t can done))
