-- ===== src/Auth/Resolver/Stored.antt =====
-- The resolver of src/auth/platform-identity-resolver.ts on the database. What the factories of ids give
-- is part of the input: they may throw, and they do not touch the database.
use swooshz_platform.Base.{
  ◌≡◌, refl, sym, ap, ◌∙◌, String, some, is_some, false, Memᴰ, mem-perm, head?, arith,
}
use mathlib.Core.List.Permᴰ
use mathlib.Core.Path.{subst₂}
use swooshz_platform.Time.{Timestamp, Seconds}
use swooshz_platform.Errors.{range_error, plain}
use swooshz_platform.Io.{
  Outcome, Io, Ensures, ensures_bind, ensures_read, ensures_catching, ensures_required,
}
use swooshz_platform.Accounts.{Session}
use swooshz_platform.Driver.{Driver}
use swooshz_platform.Db.Statements.{Database, sessions_clash}
use swooshz_platform.Db.Triples.{ensures_write}
use swooshz_platform.Db.Identity.{drizzle_users, drizzle_provider_identities, drizzle_sessions}
use swooshz_platform.Db.Workspaces.{
  drizzle_workspaces, drizzle_memberships, drizzle_membership_approvals,
}
use swooshz_platform.Db.Apps.{drizzle_audit_events}
use swooshz_platform.Db.Repositories.{drizzle_transactions}
use swooshz_platform.Auth.Resolver.{
  AuthenticatedPlatformIdentityInput, AuthCallbackPlatformIdentityResolution,
  PlatformIdentitySessionResolverRepositories, SessionIdFactoryInput, UserIdFactoryInput,
  MembershipIdFactoryInput, PlatformIdentityFactories, add_milliseconds,
}
use swooshz_platform.Auth.Resolver.Approved.{create_session}
use swooshz_platform.Auth.Resolver.SignIn.{resolve_authenticated_identity}

pub record IdSources : Type 0 where
  pub session_id : SessionIdFactoryInput → Outcome String
  pub user_id : UserIdFactoryInput → Outcome String
  pub provider_identity_id : SessionIdFactoryInput → Outcome String
  pub membership_id : MembershipIdFactoryInput → Outcome String
  pub audit_event_id : MembershipIdFactoryInput → Outcome String
  pub session_duration_ms : Seconds

abbrev pub stored_factories : IdSources → PlatformIdentityFactories Database
stored_factories ids = record {
  session_id_factory = λ i db. (ids.session_id i, db);
  user_id_factory = λ i db. (ids.user_id i, db);
  provider_identity_id_factory = λ i db. (ids.provider_identity_id i, db);
  membership_id_factory = some (λ i db. (ids.membership_id i, db));
  audit_event_id_factory = some (λ i db. (ids.audit_event_id i, db));
  session_duration_ms = ids.session_duration_ms;
}

-- The session is the user's, begins now, is not revoked, and stands in the table.
pub record IsSessionOf (user_id : String) (now : Timestamp) (s : Session) (db : Database)
    : Type 0 where
  pub of_user : s.user_id ≡ user_id
  pub created : s.created_at ≡ now
  pub unrevoked : is_some s.revoked_at ≡ false
  pub stored : Memᴰ s db.sessions

module _ (d : Driver) where
  abbrev pub stored_repositories : PlatformIdentitySessionResolverRepositories Database
  stored_repositories = record {
    users = drizzle_users d;
    provider_identities = drizzle_provider_identities d;
    sessions = drizzle_sessions d;
    workspaces = some (drizzle_workspaces d);
    memberships = some (drizzle_memberships d);
    membership_approvals = some (drizzle_membership_approvals d);
    audit_events = some (drizzle_audit_events d);
  }

  abbrev pub sign_in :
      (String → String)
      → IdSources
      → AuthenticatedPlatformIdentityInput
      → Io Database AuthCallbackPlatformIdentityResolution
  sign_in to_lower_case ids input =
      resolve_authenticated_identity (stored_factories ids) to_lower_case stored_repositories
        (some (drizzle_transactions d)) input

  ensures_session_stored :
      (row : Session) (now : Timestamp) (db : Database)
      → row.created_at ≡ now
      → is_some row.revoked_at ≡ false
      → Ensures ((drizzle_sessions d).create row) db (λ s t. IsSessionOf row.user_id now s t)
  ensures_session_stored row now db created unrevoked =
      ensures_bind
        (ensures_write (λ t b. record b { sessions = t })
          (λ s. d.insert sessions_clash row s.sessions) db)
        λ rows t (table, e, et).
          let (same, grown, _) = d.insert_rows sessions_clash row db.sessions rows table e in
          ensures_required plain (head? rows) λ s h.
            let equal : row ≡ s =
              let k : some row ≡ some s = ap head? (sym same) ∙ h in ground arith in
            subst₂ (λ (x : Session) (u : Database). IsSessionOf row.user_id now x u) equal (sym et)
              (record {
                of_user = refl;
                created = created;
                unrevoked = unrevoked;
                stored = mem-perm (Permᴰ.symm grown) (Memᴰ.head refl);
              })

  pub ensures_session :
      (ids : IdSources) (user_id : String) (input : AuthenticatedPlatformIdentityInput)
      (db : Database)
      → Ensures
          (create_session stored_repositories (stored_factories ids) user_id input)
          db
          (λ s t. IsSessionOf user_id input.now s t)
  ensures_session ids user_id input db =
      ensures_read {P = λ _. Unit {0}} (record { at = λ v t h. (ground arith, tt) })
        λ id _.
          ensures_read {P = λ _. Unit {0}}
            (ensures_required range_error (add_milliseconds input.now ids.session_duration_ms)
              λ _ _. (refl, tt))
            λ expires_at _. ensures_catching _ _ (ensures_session_stored _ input.now db refl refl)
