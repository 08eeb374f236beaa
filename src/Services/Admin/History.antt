-- ===== src/Services/Admin/History.antt =====
-- How the operations of src/platform/workspace-admin-service.ts end.
use swooshz_platform.Base.{
  ◌≡◌, refl, sym, ◌∙◌, String, Bool, true, false, not, some, inl, inr, arith,
}
use swooshz_platform.Errors.{Exn, AdminError, admin, repository_failure}
use swooshz_platform.Io.{
  Outcome, ok, thrown, Io, replace_error, Outcome-cases, Ensures, ensures_catching, ensures_bind,
  ensures_pure, ensures_unless, ◌>>=◌, ◌>>◌,
}
use swooshz_platform.Ports.{PlatformRepositories}
use swooshz_platform.Driver.{Driver}
use swooshz_platform.Db.Statements.{Database}
use swooshz_platform.Db.Repositories.{
  drizzle_repositories, drizzle_transactions, run_attempts, run_attempts-IsAtomic,
}
use swooshz_platform.Services.Admin.{
  run_workspace_admin_transaction, is_supported_role, refuse_if, admin_error_of,
}
use swooshz_platform.Services.Admin.Members.{
  role_change, disabling, reactivation, removal, change_workspace_member_role,
  disable_workspace_membership, reactivate_workspace_membership, remove_workspace_membership,
}
use swooshz_platform.Services.Admin.Approvals.{
  add_existing_workspace_user_by_email, add_workspace_member_by_email,
  revoke_workspace_membership_approval, existing_user_addition, member_addition,
  approval_revocation,
}
use swooshz_platform.Services.Admin.Entitlements.{
  set_workspace_app_entitlement_status, entitlement_change,
}
use swooshz_platform.Services.Admin.Commands.{
  AdminCommand, change_role, disable, reactivate, remove, add_existing_user, add_member,
  revoke_approval, set_entitlement, IsSettled, HasTypeOf, admin_input, done, perform,
}
use swooshz_platform.Services.Admin.Refines.Parts.{AdminStep}
use swooshz_platform.Services.Admin.Refines.Changes.{
  role_change-AdminStep, disabling-AdminStep, reactivation-AdminStep, removal-AdminStep,
}
use swooshz_platform.Services.Admin.Refines.Additions.{
  existing_user_addition-AdminStep, approval_revocation-AdminStep, member_addition-AdminStep,
}
use swooshz_platform.Services.Admin.Refines.Apps.{entitlement_change-AdminStep}

module _ (d : Driver) (db : Database) where
  -- In a transaction that returns, the operation ran once, from the tables before it.
  transaction-Ensures :
      {A : Type 0} {Q : A → Database → Type 0} (m : PlatformRepositories Database → Io Database A)
      → Ensures (m (drizzle_repositories d)) db Q
      → Ensures (run_workspace_admin_transaction (some (drizzle_transactions d)) m) db Q
  transaction-Ensures m e =
      ensures_catching _ (run_attempts d 2 0 (m (drizzle_repositories d))) (record {
        at = λ a t h.
            e.at a t (run_attempts-IsAtomic d (m (drizzle_repositories d)) 2 0 db t (ok a) h);
      })

  done-Ensures :
      {A : Type 0} {m : Io Database A} {Q : Database → Type 0}
      → Ensures m db (λ _. Q)
      → Ensures (done m) db (λ _. Q)
  done-Ensures e = ensures_bind e λ _ _ q. ensures_pure q

  module _ (to_lower_case : String → String) where
    -- A command that returns is a step of an admin.
    pub perform-AdminStep :
        (c : AdminCommand)
        → Ensures
            (perform d to_lower_case c)
            db
            (λ _ db'. AdminStep (admin_input c) (HasTypeOf c) db db')
    unfolding change_workspace_member_role disable_workspace_membership
        reactivate_workspace_membership remove_workspace_membership
        add_existing_workspace_user_by_email add_workspace_member_by_email
        revoke_workspace_membership_approval set_workspace_app_entitlement_status
    perform-AdminStep (change_role input) = done-Ensures (
        ensures_unless (not (is_supported_role input.role)) _ _
          λ _. transaction-Ensures (role_change input) (role_change-AdminStep d db input))
    perform-AdminStep (disable input) =
        done-Ensures (transaction-Ensures (disabling input) (disabling-AdminStep d db input))
    perform-AdminStep (reactivate input) =
        done-Ensures (transaction-Ensures (reactivation input) (reactivation-AdminStep d db input))
    perform-AdminStep (remove input) =
        done-Ensures (transaction-Ensures (removal input) (removal-AdminStep d db input))
    perform-AdminStep (add_existing_user input) = done-Ensures (
        ensures_unless (not (is_supported_role input.role)) _ _ λ _.
          transaction-Ensures (existing_user_addition to_lower_case input)
            (existing_user_addition-AdminStep d db to_lower_case input))
    perform-AdminStep (add_member input) = done-Ensures (
        ensures_unless (not (is_supported_role input.role)) _ _ λ _.
          transaction-Ensures (member_addition to_lower_case input)
            (member_addition-AdminStep d db to_lower_case input))
    perform-AdminStep (revoke_approval input) =
        done-Ensures (
          transaction-Ensures (approval_revocation input)
            (approval_revocation-AdminStep d db input))
    perform-AdminStep (set_entitlement input) = done-Ensures (
        ensures_unless _ _ _ λ _.
          transaction-Ensures (entitlement_change input) (entitlement_change-AdminStep d db input))

-- An action that throws changes nothing, and what it throws is an error of the admin service.
record Undoes {A : Type 0} (m : Io Database A) (s : Database) : Type 0 where
  at :
      (e : Exn) (s' : Database)
      → m s ≡ (thrown e, s')
      → (s' ≡ s) × ((code : AdminError) × (e ≡ admin code))

admin_error_of-admin : (e x : Exn) → admin_error_of x ≡ e → (code : AdminError) × (e ≡ admin code)
admin_error_of-admin e (admin code) h = (code, sym h)
admin_error_of-admin e _ h = (repository_failure, sym h)

module _ {A : Type 0} {s : Database} where
  done-Undoes : {m : Io Database A} → Undoes m s → Undoes (done m) s
  unfolding ◌>>=◌
  done-Undoes {m} u = record {
    at = λ e s' h. elim (Outcome-cases (m s).0) [
      | inl (a, r) ↦ absurd (ground arith)
      | inr (x, r) ↦ u.at e s' (ground arith)
    ];
  }

  guarded-Undoes :
      (b : Bool) (code : AdminError) (m : Io Database A)
      → Undoes m s
      → Undoes (refuse_if b code >> m) s
  unfolding ◌>>=◌
  guarded-Undoes true code m u = record { at = λ e s' h. (ground arith, (code, ground arith)) }
  guarded-Undoes false code m u = record { at = λ e s' h. u.at e s' h }

  caught :
      (p : Outcome A × Database) (e : Exn) (s' : Database)
      → ((x : Exn) (t : Database) → p ≡ (thrown x, t) → t ≡ s)
      → ◌≡◌ {A = Outcome A × Database} (replace_error admin_error_of p.0, p.1) (thrown e, s')
      → (s' ≡ s) × ((code : AdminError) × (e ≡ admin code))
  caught (ok a, t) e s' back h = absurd (ground arith)
  caught (thrown x, t) e s' back h =
      let left : s' ≡ t = ground arith in
      (left ∙ back x t refl, admin_error_of-admin e x (ground arith))

  transaction-Undoes :
      (d : Driver) (m : PlatformRepositories Database → Io Database A)
      → Undoes (run_workspace_admin_transaction (some (drizzle_transactions d)) m) s
  transaction-Undoes d m = record {
    at = λ e s'.
        caught (run_attempts d 2 0 (m (drizzle_repositories d)) s) e s'
          (λ x t h. (run_attempts-IsAtomic d (m (drizzle_repositories d)) 2 0 s t (thrown x) h).0);
  }

module _ (d : Driver) (to_lower_case : String → String) (db : Database) where
  perform-Undoes : (c : AdminCommand) → Undoes (perform d to_lower_case c) db
  unfolding change_workspace_member_role disable_workspace_membership
      reactivate_workspace_membership remove_workspace_membership
      add_existing_workspace_user_by_email add_workspace_member_by_email
      revoke_workspace_membership_approval set_workspace_app_entitlement_status
  perform-Undoes (change_role input) =
      done-Undoes (guarded-Undoes _ _ _ (transaction-Undoes d (role_change input)))
  perform-Undoes (disable input) = done-Undoes (transaction-Undoes d (disabling input))
  perform-Undoes (reactivate input) = done-Undoes (transaction-Undoes d (reactivation input))
  perform-Undoes (remove input) = done-Undoes (transaction-Undoes d (removal input))
  perform-Undoes (add_existing_user input) =
      done-Undoes
        (guarded-Undoes _ _ _ (transaction-Undoes d (existing_user_addition to_lower_case input)))
  perform-Undoes (add_member input) =
      done-Undoes
        (guarded-Undoes _ _ _ (transaction-Undoes d (member_addition to_lower_case input)))
  perform-Undoes (revoke_approval input) =
      done-Undoes (transaction-Undoes d (approval_revocation input))
  perform-Undoes (set_entitlement input) =
      done-Undoes (guarded-Undoes _ _ _ (transaction-Undoes d (entitlement_change input)))

  -- Every operation of the admin service, run in its serializable transaction, comes to one of two
  -- ends. It returns, and then it was a step of an admin: on the tables before it the session is live,
  -- its user is an active admin of the active workspace, the memberships differ at most by a new one of
  -- that workspace or in the rows with the id of one that belongs to it and is not the user's own,
  -- users and workspaces are as before, and the audit log has one event more, of the operation's type,
  -- with the user, the workspace and the time of the call. Or it throws an error of the service, and
  -- the whole database is as before.
  pub perform-IsSettled :
      (c : AdminCommand) (r : Outcome (Unit {0})) (db' : Database)
      → perform d to_lower_case c db ≡ (r, db')
      → IsSettled db c r db'
  perform-IsSettled c (ok a) db' h = (perform-AdminStep d db to_lower_case c).at a db' h
  perform-IsSettled c (thrown e) db' h = (perform-Undoes c).at e db' h
