-- ===== src/Services/Grants/Live.antt =====
-- Validation of the grants of src/platform/access-validation-grant-service.ts: what is known of a grant
-- that is found valid.
use swooshz_platform.Base.{
  or_false, true_of_not, ◌≡◌, refl, ap, ◌∙◌, ◌↔◌, String, true, false, not, ◌||◌, Option, none,
  some, is_some, Memᴰ, Bool-cases, inl, inr, eq_of_==, arith, ◌==◌,
}
use swooshz_platform.Time.{Timestamp}
use swooshz_platform.Io.{
  ok, pure, Ensures, ensures_pure, ensures_if, ensures_read, ensures_returning,
}
use swooshz_platform.Accounts.{membership_is_active, Membership}
use swooshz_platform.Access.Sound.{CanLaunch}
use swooshz_platform.Driver.{Driver}
use swooshz_platform.Ports.{AccessValidationGrantRecord}
use swooshz_platform.Db.Statements.{Database}
use swooshz_platform.Db.Triples.{ensures_ask}
use swooshz_platform.Db.Keyed.{IsKeyed, is_membership_of}
use swooshz_platform.Db.Repositories.{drizzle_repositories}
use swooshz_platform.Services.AppAccess.{
  ProtectedAppAccessDecisionInput, ProtectedAppAccessDecisionResult, allowed, denied,
}
use swooshz_platform.Services.AppAccess.Allowed.{
  was_allowed, launch_tables, decide_protected_app_access_iff,
}
use swooshz_platform.Services.Launch.Commands.{GrantSettings}
use swooshz_platform.Services.Grants.{
  ValidateAccessValidationGrantInput, GrantContext, valid_grant_id, is_sqag_launch_role,
  membership_is_active, is_unusable_grant, are_rows_missing, with_membership, with_decision,
  with_grant, validate_grant, validate_access_validation_grant,
}
use swooshz_platform.Services.Grants.Commands.{service_dependencies, validate_stored_grant}

abbrev pub launch_of : AccessValidationGrantRecord → Timestamp → ProtectedAppAccessDecisionInput
launch_of g now = record {
  session_id = g.session_id;
  selected_workspace_id = g.workspace_id;
  app_key = "sqag";
  now = now;
  billing_gate = none;
}

-- The membership that a valid grant rests on.
pub record IsBacked (g : AccessValidationGrantRecord) (c : GrantContext) (db : Database)
    : Type 0 where
  pub membership : Membership
  pub there : Memᴰ membership db.memberships
  pub belongs : is_membership_of g.user_id g.workspace_id membership ≡ true
  pub active : membership_is_active membership.status ≡ true
  pub launching : is_sqag_launch_role membership.role ≡ true
  pub role : c.current_role ≡ membership.role
  pub user : c.user_id ≡ g.user_id
  pub workspace : c.workspace_id ≡ g.workspace_id

-- A grant of the table that was consumed and not revoked, is meant for the workspace, the app and the
-- origin, and whose session may still launch the app.
pub record IsLive (origin : String) (id workspace_id app_key : String) (now : Timestamp)
    (c : GrantContext) (db : Database) : Type 0 where
  pub row : AccessValidationGrantRecord
  pub there : Memᴰ row db.access_validation_grants
  pub same_id : row.id ≡ id
  pub usable : (is_some row.revoked_at ≡ false) × (is_some row.consumed_at ≡ true)
  pub meant_for :
      (row.workspace_id ≡ workspace_id) × (app_key ≡ "sqag") × (row.intended_origin ≡ origin)
  pub can_launch : CanLaunch (launch_tables db (launch_of row now))
  pub backed : IsBacked row c db

with_membership-IsBacked :
    (g : AccessValidationGrantRecord) (db : Database) (o : Option Membership) (c : GrantContext)
    → ((m : Membership)
        → o ≡ some m
        → Memᴰ m db.memberships × (is_membership_of g.user_id g.workspace_id m ≡ true))
    → with_membership g o ≡ some c
    → IsBacked g c db
with_membership-IsBacked g db none c found h = absurd (ground arith)
with_membership-IsBacked g db (some m) c found h =
    elim (Bool-cases (not (membership_is_active m.status) || not (is_sqag_launch_role m.role))) [
      | inl e ↦
          absurd (let k : ◌≡◌ {A = Option GrantContext} none (some c) = rw e at h in ground arith)
      | inr e ↦
          let (a, b) = or_false _ _ e in
          let (there, belongs) = found m refl in
          let built : ◌≡◌ {A = Option GrantContext}
              (some (record {
                user_id = g.user_id;
                workspace_id = g.workspace_id;
                app_key = "sqag";
                launch_token_expires_at = g.launch_token_expires_at;
                current_role = m.role;
              }))
              (some c) =
            rw e at h in
          record {
            membership = m;
            there = there;
            belongs = belongs;
            active = true_of_not _ a;
            launching = true_of_not _ b;
            role = ground arith;
            user = ground arith;
            workspace = ground arith;
          }
    ]

module _ (d : Driver) (g : GrantSettings) (id w key : String) (now : Timestamp) (db : Database)
    (keyed : IsKeyed db) where
  abbrev Valid : Option GrantContext → Database → Type 0
  Valid a t =
      (c : GrantContext) → a ≡ some c → (t ≡ db) × IsLive g.intended_sqag_origin id w key now c db

  nothing : {s : Database} → Ensures (pure none) s Valid
  nothing = ensures_pure λ c e. absurd (ground arith)

  module _ (row : AccessValidationGrantRecord) (there : Memᴰ row db.access_validation_grants)
      (same_id : row.id ≡ id)
      (usable : is_unusable_grant (drizzle_repositories d) (service_dependencies d g) w key row
        ≡ false) where
    live :
        (c : GrantContext)
        → CanLaunch (launch_tables db (launch_of row now))
        → IsBacked row c db
        → IsLive g.intended_sqag_origin id w key now c db
    live c can backed =
        let (kept, u1) = or_false _ _ usable in
        let (used, u2) = or_false _ _ u1 in
        let (in_workspace, u3) = or_false _ _ u2 in
        let (of_app, of_origin) = or_false _ _ u3 in
        record {
          row = row;
          there = there;
          same_id = same_id;
          usable = (kept, true_of_not _ used);
          meant_for = (
            eq_of_== _ _ (true_of_not _ in_workspace),
            eq_of_== _ _ (true_of_not _ of_app),
            eq_of_== _ _ (true_of_not _ of_origin),
          );
          can_launch = can;
          backed = backed;
        }

    decided :
        (a : ProtectedAppAccessDecisionResult)
        → (was_allowed a ≡ true) ↔ CanLaunch (launch_tables db (launch_of row now))
        → Ensures (with_decision (drizzle_repositories d) (service_dependencies d g) row a) db Valid
    decided (denied reason decision) iff = nothing
    decided (allowed a) iff =
        ensures_read
          (ensures_ask
            (λ s. d.select_one (is_membership_of row.user_id row.workspace_id) s.memberships) db)
          λ o found. ensures_pure λ c e. (
            refl,
            live c (iff.0 refl) (
                with_membership-IsBacked row db o c
                  (λ m i.
                    d.select_one-some (is_membership_of row.user_id row.workspace_id) db.memberships
                      m (found ∙ ap ok i))
                  e),
          )

  found_row :
      (o : Option AccessValidationGrantRecord)
      → d.select_one (λ x. x.id == id) db.access_validation_grants ≡ ok o
      → Ensures
          (with_grant (drizzle_repositories d) (service_dependencies d g) w key now o)
          db
          Valid
  found_row none h = nothing
  found_row (some row) h =
      ensures_if (is_unusable_grant (drizzle_repositories d) (service_dependencies d g) w key row) _
        _ (λ _. nothing)
        λ usable.
          ensures_read (ensures_ask (λ s. d.select_one (λ x. x.id == row.session_id) s.sessions) db)
            λ s _.
              ensures_read (ensures_ask (λ s. d.select_one (λ x. x.id == row.user_id) s.users) db)
                λ u _.
                  ensures_read
                    (ensures_ask (λ s. d.select_one (λ x. x.id == row.workspace_id) s.workspaces)
                      db)
                    λ workspace _.
                      ensures_read
                        (ensures_ask (λ s. d.select_one (λ x. x.id == row.app_id) s.apps) db)
                        λ a _.
                          ensures_if (are_rows_missing row s u workspace a) _ _ (λ _. nothing)
                            λ _.
                              let (there, same) =
                                d.select_one-some (λ x. x.id == id) db.access_validation_grants row
                                  h in
                              ensures_read
                                (record {
                                  at = λ r t i.
                                      decide_protected_app_access_iff d db keyed (launch_of row now)
                                        r t i;
                                })
                                λ r iff. decided row there (eq_of_== row.id id same) usable r iff

  pub validate_grant-IsLive :
      Ensures
        (validate_grant (drizzle_repositories d) (service_dependencies d g) id w key now)
        db
        Valid
  unfolding validate_grant
  validate_grant-IsLive =
      ensures_read (ensures_ask (λ s. d.select_one (λ x. x.id == id) s.access_validation_grants) db)
        λ o h. found_row o h

module _ (d : Driver) (g : GrantSettings) (input : ValidateAccessValidationGrantInput)
    (db : Database) (keyed : IsKeyed db) where
  abbrev Answer : Option GrantContext → Database → Type 0
  Answer = Valid d g input.validation_grant_id input.workspace_id input.app_key input.now db keyed

  ensures-Answer : Ensures (validate_stored_grant d g input) db Answer
  unfolding validate_access_validation_grant
  ensures-Answer =
      ensures_if (not (valid_grant_id input.validation_grant_id)) _ _
        (λ _. ensures_pure λ c e. absurd (ground arith))
        λ _.
          ensures_returning none (λ t c e. absurd (ground arith))
            (validate_grant-IsLive d g input.validation_grant_id input.workspace_id input.app_key
              input.now db keyed)

-- A grant is found valid only if the table holds it consumed and not revoked, for the workspace, the app
-- and the configured origin, its session may still launch the app, and its user is an active admin or
-- operator of the workspace in the role that is answered; validation changes nothing.
pub validate_stored_grant-IsLive :
    (d : Driver) (g : GrantSettings) (input : ValidateAccessValidationGrantInput) (c : GrantContext)
    (db db' : Database)
    → IsKeyed db
    → validate_stored_grant d g input db ≡ (ok (some c), db')
    → (db' ≡ db)
      × IsLive g.intended_sqag_origin input.validation_grant_id input.workspace_id input.app_key
          input.now c db
validate_stored_grant-IsLive d g input c db db' keyed h =
    (ensures-Answer d g input db keyed).at (some c) db' h c refl
