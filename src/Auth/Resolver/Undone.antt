-- ===== src/Auth/Resolver/Undone.antt =====
-- A sign-in of src/auth/platform-identity-resolver.ts that fails leaves nothing behind.
use swooshz_platform.Base.{
  ◌≡◌, refl, ◌∙◌, String, not, ◌&&◌, Option, none, some, List, [], ◌∷◌, head?, arith, ◌==◌,
}
use mathlib.Core.Path.{subst}
use swooshz_platform.Errors.{Exn, plain, range_error}
use swooshz_platform.Io.{
  Outcome, ok, thrown, required, Ensures, ensures_pure, ensures_throw, ensures_if, ensures_read,
  ensures_catching, ensures_required, ◌>>=◌,
}
use swooshz_platform.Io.Restores.{
  Restores, Restores-pure, Restores-throw, Restores-source, Restores-required, Restores-if,
  Restores-catching, Restores-bind, Restores-read, Restores-last,
}
use swooshz_platform.Accounts.{Session, Membership, user_is_active, membership_is_active}
use swooshz_platform.Ports.{ProviderIdentity, WorkspaceMembershipApprovalRecord}
use swooshz_platform.Driver.{Driver, Written}
use swooshz_platform.Db.Statements.{Database, write, ask, sessions_clash, is_pending}
use swooshz_platform.Db.Triples.{ensures_ask, ensures_write}
use swooshz_platform.Db.Identity.{drizzle_sessions}
use swooshz_platform.Db.Workspaces.{drizzle_workspaces}
use swooshz_platform.Db.Repositories.{
  run_attempts-IsAtomic, drizzle_transactions, drizzle_repositories,
}
use swooshz_platform.Auth.Resolver.{
  AuthenticatedPlatformIdentityInput, AuthCallbackPlatformIdentityResolution, is_closed,
  add_milliseconds, sign_in_approval_required_error,
}
use swooshz_platform.Auth.Resolver.Approved.{create_session}
use swooshz_platform.Auth.Resolver.SignIn.{
  with_transaction, assert_user_has_active_workspace_membership, find_active_membership,
  resolve_known_identity, accept_approvals, accept_pending, resolve_for_email,
  resolve_pending_approved_identity, resolve_unless_known, resolve_authenticated_identity,
}
use swooshz_platform.Auth.Resolver.Stored.{
  IdSources, stored_factories, stored_repositories, sign_in,
}
use swooshz_platform.Auth.Resolver.Admitted.{anything}

not_none : {A : Type 0} {a : A} → some a ≡ none → ⊥
not_none e = ground arith

Restores-ask :
    {A : Type 0} (f : Database → Outcome A) (db : Database) → Restores (λ s. ask (f s) s) db
Restores-ask f db = record { at = λ e s' h. ground arith }

module _ (d : Driver) (db : Database) where
  Restores-write :
      {R : Type 0} (put : List R → Database → Database) (f : Database → Written R)
      → Restores (λ s. write put (f s) s) db
  Restores-write put f = record { at = λ e s' h. undone (f db) e s' h }
    where
      undone : (w : Written _) (e : Exn) (s' : Database) → write put w db ≡ (thrown e, s') → s' ≡ db
      undone (ok (rows, table)) e s' h = absurd (ground arith)
      undone (thrown x) e s' h = ground arith

  Restores-create : (row : Session) → Restores ((drizzle_sessions d).create row) db
  Restores-create row =
      Restores-bind _ _
        (Restores-write (λ t b. record b { sessions = t })
          (λ s. d.insert sessions_clash row s.sessions))
        λ rows t i e s' h.
          let (table, w, _) =
            (ensures_write (λ t b. record b { sessions = t })
                (λ s. d.insert sessions_clash row s.sessions) db).at
              rows t i in
          let (same, _, _) = d.insert_rows sessions_clash row db.sessions rows table w in
          absurd (
            let k =
              subst
                (λ rs. required {S = Database} {A = Session} plain (head? rs) t ≡ (thrown e, s'))
                same h in
            ground arith)

  Restores-session :
      (ids : IdSources) (user_id : String) (input : AuthenticatedPlatformIdentityInput)
      → Restores (create_session (stored_repositories d) (stored_factories ids) user_id input) db
  Restores-session ids user_id input =
      Restores-read {P = λ _. Unit {0}} Restores-source
        (record { at = λ v t h. (ground arith, tt) })
        λ id _.
          Restores-read {P = λ _. Unit {0}}
            (Restores-required range_error (add_milliseconds input.now ids.session_duration_ms))
            (ensures_required range_error (add_milliseconds input.now ids.session_duration_ms)
              λ _ _. (refl, tt))
            λ expires_at _. Restores-catching _ _ (Restores-create _)

  Restores-member :
      (ms : List Membership) → Restores (find_active_membership (drizzle_workspaces d) ms) db
  Restores-member [] = Restores-throw
  Restores-member (m ∷ ms) =
      Restores-if (not (membership_is_active m.status)) (λ _. Restores-member ms)
        λ _.
          Restores-read
            (Restores-catching _ _
              (Restores-ask (λ s. d.select_one (λ w. w.id == m.workspace_id) s.workspaces) db))
            (ensures_catching _ _
              (ensures_ask (λ s. d.select_one (λ w. w.id == m.workspace_id) s.workspaces) db))
            λ o _. Restores-if (is_closed o) (λ _. Restores-member ms) λ _. Restores-pure

  ensures_unchanged :
      (ms : List Membership)
      → Ensures (find_active_membership (drizzle_workspaces d) ms) db (λ _ t. (t ≡ db) × Unit {0})
  ensures_unchanged [] = ensures_throw
  ensures_unchanged (m ∷ ms) =
      ensures_if (not (membership_is_active m.status)) _ _ (λ _. ensures_unchanged ms)
        λ _.
          ensures_read
            (ensures_catching _ _
              (ensures_ask (λ s. d.select_one (λ w. w.id == m.workspace_id) s.workspaces) db))
            λ o _.
              ensures_if (is_closed o) _ _ (λ _. ensures_unchanged ms) λ _. ensures_pure (refl, tt)

  Restores-belongs :
      (ids : IdSources) (user_id : String)
      → Restores
          (assert_user_has_active_workspace_membership
            (stored_factories ids)
            (stored_repositories d)
            user_id)
          db
  Restores-belongs ids user_id =
      Restores-read
        (Restores-catching _ _
          (Restores-ask (λ s. d.select (λ m. m.user_id == user_id) s.memberships) db))
        (ensures_catching _ _
          (ensures_ask (λ s. d.select (λ m. m.user_id == user_id) s.memberships) db))
        λ ms _. Restores-member ms

  ensures_belongs :
      (ids : IdSources) (user_id : String)
      → Ensures
          (assert_user_has_active_workspace_membership
            (stored_factories ids)
            (stored_repositories d)
            user_id)
          db
          (λ _ t. (t ≡ db) × Unit {0})
  ensures_belongs ids user_id =
      ensures_read
        (ensures_catching _ _
          (ensures_ask (λ s. d.select (λ m. m.user_id == user_id) s.memberships) db))
        λ ms _. ensures_unchanged ms

  module _ (to_lower_case : String → String) (ids : IdSources)
      (input : AuthenticatedPlatformIdentityInput) where
    Restores-known_identity :
        (identity : ProviderIdentity)
        → Restores
            (resolve_known_identity (stored_factories ids) (stored_repositories d) identity input)
            db
    Restores-known_identity identity =
        Restores-read
          (Restores-catching _ _
            (Restores-ask (λ s. d.select_one (λ u. u.id == identity.user_id) s.users) db))
          (ensures_catching _ _
            (ensures_ask (λ s. d.select_one (λ u. u.id == identity.user_id) s.users) db))
          λ o _.
            Restores-read {P = λ _. Unit {0}} (Restores-required _ o)
              (ensures_required _ o λ _ _. (refl, tt))
              λ user _.
                Restores-read {P = λ _. Unit {0}}
                  (Restores-if (not (user_is_active user.status)) (λ _. Restores-throw)
                    λ _. Restores-pure)
                  (ensures_if (not (user_is_active user.status)) _ _ (λ _. ensures_throw)
                    λ _. ensures_pure (refl, tt))
                  λ _ _.
                    Restores-read (Restores-belongs ids user.id) (ensures_belongs ids user.id)
                      λ _ _. Restores-last _ (Restores-session ids user.id input)

    ensures_none_of :
        (email : String) (list : List WorkspaceMembershipApprovalRecord)
        → Ensures
            (accept_approvals
              (stored_factories ids)
              (with_transaction (stored_repositories d) (drizzle_repositories d))
              list
              input
              email)
            db
            (λ o t. o ≡ none → t ≡ db)
    ensures_none_of email [] = ensures_pure λ _. refl
    ensures_none_of email (a ∷ rest) = anything _ _ λ _ s1. anything _ _ λ user s2.
        anything _ _ λ linked s3.
          anything _ _ λ _ s4. anything _ _ λ session t. ensures_pure λ e. absurd (not_none e)

    -- A transaction that finds no approval changes nothing.
    ensures_none :
        (email : String)
        → Ensures
            (accept_pending
              (stored_factories ids)
              (with_transaction (stored_repositories d) (drizzle_repositories d))
              input
              email)
            db
            (λ o t. o ≡ none → t ≡ db)
    unfolding ◌>>=◌
    ensures_none email =
        ensures_read
          (ensures_ask
            (λ s. d.select (λ a. (a.email == email) && is_pending a.status) s.membership_approvals)
            db)
          λ list _. ensures_none_of email list

    ensures_none_for_email :
        (email : Option String)
        → Ensures
            (resolve_for_email
              (stored_factories ids)
              to_lower_case
              (stored_repositories d)
              (some (drizzle_transactions d))
              email
              input)
            db
            (λ o t. o ≡ none → t ≡ db)
    ensures_none_for_email none = ensures_pure λ _. refl
    ensures_none_for_email (some email) = ensures_catching _ _ (record {
      at = λ o t h. (ensures_none email).at o t (
          run_attempts-IsAtomic d
            (accept_pending (stored_factories ids)
              (with_transaction (stored_repositories d) (drizzle_repositories d)) input email)
            2 0 db t (ok o) h);
    })

    Restores-for_email :
        (email : Option String)
        → Restores
            (resolve_for_email
              (stored_factories ids)
              to_lower_case
              (stored_repositories d)
              (some (drizzle_transactions d))
              email
              input)
            db
    Restores-for_email none = Restores-pure
    Restores-for_email (some email) = Restores-catching _ _ (record {
      at = λ e t h.
          (run_attempts-IsAtomic d
            (accept_pending (stored_factories ids)
              (with_transaction (stored_repositories d) (drizzle_repositories d)) input email)
            2 0 db t (thrown e) h).0;
    })

    Restores-unless_known :
        (o : Option ProviderIdentity)
        → Restores
            (resolve_unless_known
              (stored_factories ids)
              to_lower_case
              (stored_repositories d)
              (some (drizzle_transactions d))
              o
              input)
            db
    unfolding resolve_pending_approved_identity
    Restores-unless_known (some identity) = Restores-known_identity identity
    Restores-unless_known none =
        Restores-bind _ _ (Restores-for_email _)
          λ o t i e s' h. refused o t ((ensures_none_for_email _).at o t i) e s' h
      where
        refused :
            (o : Option AuthCallbackPlatformIdentityResolution) (t : Database)
            → (o ≡ none → t ≡ db)
            → (e : Exn) (s' : Database)
            → required sign_in_approval_required_error o t ≡ (thrown e, s')
            → s' ≡ db
        refused none t same e s' h = let left : s' ≡ t = ground arith in left ∙ same refl
        refused (some res) t same e s' h = absurd (ground arith)

  -- A sign-in that throws leaves the database as it was: no user, link, membership, audit event or
  -- session of it stays.
  pub sign_in-undone :
      (to_lower_case : String → String) (ids : IdSources)
      (input : AuthenticatedPlatformIdentityInput) (e : Exn) (db' : Database)
      → sign_in d to_lower_case ids input db ≡ (thrown e, db')
      → db' ≡ db
  unfolding resolve_authenticated_identity
  sign_in-undone to_lower_case ids input e db' h =
      let look = λ (s : Database).
        d.select_one
          (λ (p : ProviderIdentity).
            (p.provider_key == input.identity.provider_key)
            && (p.provider_subject == input.identity.provider_subject))
          s.provider_identities in
      (Restores-read (Restores-catching _ _ (Restores-ask look db))
          (ensures_catching _ _ (ensures_ask look db))
          λ o _. Restores-unless_known to_lower_case ids input o).at
        e db' h
