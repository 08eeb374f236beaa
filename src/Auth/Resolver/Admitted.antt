-- ===== src/Auth/Resolver/Admitted.antt =====
-- Whom src/auth/platform-identity-resolver.ts signs in.
use swooshz_platform.Base.{
  ◌≡◌, ◌⊎◌, inl, inr, refl, ap, ◌∙◌, String, true, false, not, ◌&&◌, Option, none, some, List, [],
  ◌∷◌, Memᴰ, mem-perm, mem-filter, eq_of_==, &&-true, true_of_not, arith, ◌==◌,
}
use mathlib.Core.Path.{subst}
use swooshz_platform.Io.{
  ok, Io, Ensures, ensures_pure, ensures_throw, ensures_if, ensures_bind, ensures_read,
  ensures_catching, ensures_required, ◌>>=◌,
}
use swooshz_platform.Accounts.{
  User, Membership, Workspace, user_is_active, workspace_is_active, membership_is_active,
}
use swooshz_platform.Ports.{ProviderIdentity, WorkspaceMembershipApprovalRecord}
use swooshz_platform.Driver.{Driver}
use swooshz_platform.Db.Statements.{Database, is_pending}
use swooshz_platform.Db.Triples.{ensures_ask}
use swooshz_platform.Db.Repositories.{
  run_attempts-IsAtomic, drizzle_transactions, drizzle_repositories,
}
use swooshz_platform.Db.Workspaces.{drizzle_workspaces}
use swooshz_platform.Auth.Resolver.{
  AuthenticatedPlatformIdentityInput, AuthCallbackPlatformIdentityResolution, read_verified_email,
  is_closed, sign_in_approval_required_error,
}
use swooshz_platform.Auth.Resolver.SignIn.{
  with_transaction, assert_user_has_active_workspace_membership, find_active_membership,
  resolve_known_identity, accept_approvals, accept_pending, resolve_for_email,
  resolve_pending_approved_identity, resolve_unless_known, resolve_authenticated_identity,
}
use swooshz_platform.Auth.Resolver.Stored.{
  IdSources, stored_factories, stored_repositories, sign_in, IsSessionOf, ensures_session,
}

-- The user has an active membership in an active workspace.
pub record IsMember (user_id : String) (db : Database) : Type 0 where
  pub membership : Membership
  pub there : Memᴰ membership db.memberships
  pub of_user : membership.user_id ≡ user_id
  pub active : membership_is_active membership.status ≡ true
  pub workspace : Workspace
  pub workspace_there : Memᴰ workspace db.workspaces
  pub same_workspace : workspace.id ≡ membership.workspace_id
  pub workspace_active : workspace_is_active workspace.status ≡ true

-- The identity was linked to an active user who is a member.
pub record IsKnown (input : AuthenticatedPlatformIdentityInput) (user_id : String) (db : Database)
    : Type 0 where
  pub identity : ProviderIdentity
  pub there : Memᴰ identity db.provider_identities
  pub same_key : identity.provider_key ≡ input.identity.provider_key
  pub same_subject : identity.provider_subject ≡ input.identity.provider_subject
  pub user : User
  pub user_there : Memᴰ user db.users
  pub linked : (user.id ≡ identity.user_id) × (user.id ≡ user_id)
  pub active : user_is_active user.status ≡ true
  pub belongs : IsMember user_id db

-- An approval of the identity's verified email was pending.
pub record IsApproved (to_lower_case : String → String) (input : AuthenticatedPlatformIdentityInput)
    (db : Database) : Type 0 where
  pub email : String
  pub verified : read_verified_email to_lower_case input.identity.verified_email ≡ some email
  pub approval : WorkspaceMembershipApprovalRecord
  pub there : Memᴰ approval db.membership_approvals
  pub of_email : approval.email ≡ email
  pub waiting : is_pending approval.status ≡ true

is_closed-active :
    (o : Option Workspace)
    → is_closed o ≡ false
    → (w : Workspace) × (o ≡ some w) × (workspace_is_active w.status ≡ true)
is_closed-active none h = absurd (ground arith)
is_closed-active (some w) h = (w, refl, true_of_not _ h)

unwrapped : {A : Type 0} {a b : A} → some a ≡ some b → a ≡ b
unwrapped e = ground arith

-- A step of which nothing need be known.
pub anything :
    {S A B : Type 0} {Q : B → S → Type 0} (m : Io S A) (f : A → Io S B) {s : S}
    → ((a : A) (t : S) → Ensures (f a) t Q)
    → Ensures (m >>= f) s Q
anything m f k = ensures_bind {P = λ _ _. Unit {0}} (record { at = λ a t h. tt }) λ a t _. k a t

module _ (d : Driver) (db : Database) where
  ensures-IsMember :
      (ms : List Membership) (user_id : String)
      → ((m : Membership) → Memᴰ m ms → Memᴰ m db.memberships × (m.user_id ≡ user_id))
      → Ensures
          (find_active_membership (drizzle_workspaces d) ms)
          db
          (λ _ t. (t ≡ db) × IsMember user_id db)
  ensures-IsMember [] user_id known = ensures_throw
  ensures-IsMember (m ∷ ms) user_id known =
      let rest = ensures-IsMember ms user_id (λ x n. known x (Memᴰ.tail n)) in
      ensures_if (not (membership_is_active m.status)) _ _ (λ _. rest)
        λ active.
          ensures_read
            (ensures_catching _ _
              (ensures_ask (λ s. d.select_one (λ w. w.id == m.workspace_id) s.workspaces) db))
            λ o found.
              ensures_if (is_closed o) _ _ (λ _. rest)
                λ is_open.
                  let (there, of_user) = known m (Memᴰ.head refl) in
                  let (w, same, workspace_active) = is_closed-active o is_open in
                  let (w_there, test) =
                    d.select_one-some (λ (w : Workspace). w.id == m.workspace_id) db.workspaces w
                      (found ∙ ap ok same) in
                  ensures_pure (
                    refl,
                    record {
                      membership = m;
                      there = there;
                      of_user = of_user;
                      active = true_of_not _ active;
                      workspace = w;
                      workspace_there = w_there;
                      same_workspace = eq_of_== _ _ test;
                      workspace_active = workspace_active;
                    },
                  )

  ensures_belongs :
      (ids : IdSources) (user_id : String)
      → Ensures
          (assert_user_has_active_workspace_membership
            (stored_factories ids)
            (stored_repositories d)
            user_id)
          db
          (λ _ t. (t ≡ db) × IsMember user_id db)
  ensures_belongs ids user_id =
      ensures_read
        (ensures_catching _ _
          (ensures_ask (λ s. d.select (λ m. m.user_id == user_id) s.memberships) db))
        λ ms found. ensures-IsMember ms user_id λ m n.
          let (there, test) =
            mem-filter (λ (m : Membership). m.user_id == user_id) db.memberships
              (mem-perm (d.select_rows _ db.memberships ms found) n) in
          (there, eq_of_== _ _ test)

  module _ (to_lower_case : String → String) (ids : IdSources)
      (input : AuthenticatedPlatformIdentityInput) where
    -- How a sign-in ends.
    abbrev Admitted : AuthCallbackPlatformIdentityResolution → Database → Type 0
    Admitted res t =
        IsSessionOf res.platform_user_id input.now res.session t
        × (IsKnown input res.platform_user_id db ⊎ IsApproved to_lower_case input db)

    ensures_known_identity :
        (identity : ProviderIdentity)
        → d.select_one
            (λ p.
              (p.provider_key == input.identity.provider_key)
              && (p.provider_subject == input.identity.provider_subject))
            db.provider_identities
          ≡ ok (some identity)
        → Ensures
            (resolve_known_identity (stored_factories ids) (stored_repositories d) identity input)
            db
            Admitted
    ensures_known_identity identity h =
        ensures_read
          (ensures_catching _ _
            (ensures_ask (λ s. d.select_one (λ u. u.id == identity.user_id) s.users) db))
          λ o found.
            ensures_read {P = λ user. o ≡ some user} (ensures_required _ o λ user e. (refl, e))
              λ user e.
                ensures_read {P = λ _. user_is_active user.status ≡ true}
                  (ensures_if (not (user_is_active user.status)) _ _ (λ _. ensures_throw)
                    λ a. ensures_pure (refl, true_of_not _ a))
                  λ _ active. ensures_read (ensures_belongs ids user.id) λ _ belongs.
                    ensures_bind (ensures_session d ids user.id input db) λ session t s.
                      let (there, test) = d.select_one-some _ db.provider_identities identity h in
                      let (of_key, of_subject) = &&-true _ _ test in
                      let (u_there, u_test) =
                        d.select_one-some (λ (u : User). u.id == identity.user_id) db.users user
                          (found ∙ ap ok e) in
                      ensures_pure (
                        s,
                        inl (record {
                          identity = identity;
                          there = there;
                          same_key = eq_of_== _ _ of_key;
                          same_subject = eq_of_== _ _ of_subject;
                          user = user;
                          user_there = u_there;
                          linked = (eq_of_== _ _ u_test, refl);
                          active = active;
                          belongs = belongs;
                        }),
                      )

    ensures_accepted :
        (email : String)
        → read_verified_email to_lower_case input.identity.verified_email ≡ some email
        → (list : List WorkspaceMembershipApprovalRecord)
        → ((a : WorkspaceMembershipApprovalRecord)
            → Memᴰ a list
            → Memᴰ a db.membership_approvals × (a.email ≡ email) × (is_pending a.status ≡ true))
        → Ensures
            (accept_approvals (stored_factories ids) (stored_repositories d) list input email)
            db
            (λ o t. (res : AuthCallbackPlatformIdentityResolution) → o ≡ some res → Admitted res t)
    ensures_accepted email verified [] known = ensures_pure λ res e. absurd (ground arith)
    ensures_accepted email verified (a ∷ rest) known = anything _ _ λ _ s1. anything _ _ λ user s2.
        anything _ _ λ linked s3. anything _ _ λ _ s4.
          ensures_bind (ensures_session d ids user.id input s4) λ session t s.
            let (there, of_email, waiting) = known a (Memᴰ.head refl) in
            ensures_pure λ res e.
              subst (λ x. Admitted x t) (unwrapped e)
                (
                  s,
                  inr (record {
                    email = email;
                    verified = verified;
                    approval = a;
                    there = there;
                    of_email = of_email;
                    waiting = waiting;
                  }),
                )

    ensures_pending :
        (email : String)
        → read_verified_email to_lower_case input.identity.verified_email ≡ some email
        → Ensures
            (accept_pending (stored_factories ids) (stored_repositories d) input email)
            db
            (λ o t. (res : AuthCallbackPlatformIdentityResolution) → o ≡ some res → Admitted res t)
    unfolding ◌>>=◌
    ensures_pending email verified =
        ensures_read
          (ensures_ask
            (λ s. d.select (λ a. (a.email == email) && is_pending a.status) s.membership_approvals)
            db)
          λ list found. ensures_accepted email verified list λ a n.
            let (there, test) =
              mem-filter
                (λ (x : WorkspaceMembershipApprovalRecord).
                  (x.email == email) && is_pending x.status)
                db.membership_approvals
                (mem-perm (d.select_rows _ db.membership_approvals list found) n) in
            let (of_email, waiting) = &&-true _ _ test in (there, eq_of_== _ _ of_email, waiting)

    ensures_for_email :
        (email : Option String)
        → read_verified_email to_lower_case input.identity.verified_email ≡ email
        → Ensures
            (resolve_for_email
              (stored_factories ids)
              to_lower_case
              (stored_repositories d)
              (some (drizzle_transactions d))
              email
              input)
            db
            (λ o t. (res : AuthCallbackPlatformIdentityResolution) → o ≡ some res → Admitted res t)
    ensures_for_email none verified = ensures_pure λ res e. absurd (ground arith)
    ensures_for_email (some email) verified = ensures_catching _ _ (record {
      at = λ o t h. (ensures_pending email verified).at o t (
          run_attempts-IsAtomic d
            (accept_pending (stored_factories ids)
              (with_transaction (stored_repositories d) (drizzle_repositories d)) input email)
            2 0 db t (ok o) h);
    })

    ensures_unless_known :
        (o : Option ProviderIdentity)
        → d.select_one
            (λ p.
              (p.provider_key == input.identity.provider_key)
              && (p.provider_subject == input.identity.provider_subject))
            db.provider_identities
          ≡ ok o
        → Ensures
            (resolve_unless_known
              (stored_factories ids)
              to_lower_case
              (stored_repositories d)
              (some (drizzle_transactions d))
              o
              input)
            db
            Admitted
    unfolding resolve_pending_approved_identity
    ensures_unless_known (some identity) h = ensures_known_identity identity h
    ensures_unless_known none h =
        ensures_bind (ensures_for_email _ refl)
          λ o t admitted. ensures_required sign_in_approval_required_error o λ res e. admitted res e

  -- A sign-in gives a session of the user that it answers, which begins now and stands in the table, and
  -- only to an identity that is linked to an active user with an active membership in an active
  -- workspace, or whose verified email has a pending approval.
  pub sign_in-admitted :
      (to_lower_case : String → String) (ids : IdSources)
      (input : AuthenticatedPlatformIdentityInput) (res : AuthCallbackPlatformIdentityResolution)
      (db' : Database)
      → sign_in d to_lower_case ids input db ≡ (ok res, db')
      → IsSessionOf res.platform_user_id input.now res.session db'
        × (IsKnown input res.platform_user_id db ⊎ IsApproved to_lower_case input db)
  unfolding resolve_authenticated_identity
  sign_in-admitted to_lower_case ids input res db' h =
      (ensures_read
          (ensures_catching _ _ (
            ensures_ask
              (λ s.
                d.select_one
                  (λ p.
                    (p.provider_key == input.identity.provider_key)
                    && (p.provider_subject == input.identity.provider_subject))
                  s.provider_identities)
              db))
          λ o found. ensures_unless_known to_lower_case ids input o found).at
        res db' h
