-- ===== src/Services/Launch/Keeps.antt =====
-- The launch services of src/platform keep a used token used, however they end.
use swooshz_platform.Base.{
  ◌≡◌, refl, ◌+◌, ◌*◌, suc, zero, String, not, Option, none, some, is_some, ltb, List, head?, ◌==◌,
}
use swooshz_platform.Base.Text.{trim, is_empty, is_blank, utf16_length}
use swooshz_platform.Time.{
  Seconds, Timestamp, at, malformed, pos, negsuc, not_finite, at_or_before, to_iso_string,
}
use swooshz_platform.Errors.{Exn}
use swooshz_platform.Io.{Outcome, ok, thrown, Io}
use swooshz_platform.Io.Keeps.{
  Keeps, Keeps-pure, Keeps-throw, Keeps-required, Keeps-catching, Keeps-if, Keeps-bind,
}
use swooshz_platform.Accounts.{Session, User, Workspace, App, Membership}
use swooshz_platform.Access.{BillingGate}
use swooshz_platform.Driver.{Driver, Written}
use swooshz_platform.Ports.{AppLaunchTokenRecord, AccessValidationGrantRecord}
use swooshz_platform.Db.Statements.{Database, write, app_launch_tokens_clash}
use swooshz_platform.Db.Apps.{drizzle_app_launch_tokens}
use swooshz_platform.Db.Repositories.{drizzle_repositories}
use swooshz_platform.Services.AppAccess.{
  AllowedAccess, ProtectedAppAccessDecisionResult, allowed, denied,
}
use swooshz_platform.Services.AppAccess.Keeps.{Keeps-ask, decide_protected_app_access-Keeps}
use swooshz_platform.Services.Launch.{
  AppLaunchIntentInput, non_blank_safely, get_expires_at_safely, issue_for, issue_if_allowed,
  create_app_launch_intent,
}
use swooshz_platform.Services.Launch.Consume.{
  AppLaunchTokenConsumeInput, LaunchContext, issue_access_validation_grant, issue_grant,
  use_with_membership, use_if_allowed, use_in_context, check_context, consume_found,
  consume_app_launch_token,
}
use swooshz_platform.Services.Launch.Commands.{
  GrantSettings, LaunchCommand, issue, consume, grant_dependencies, perform_launch,
}
use swooshz_platform.Services.Launch.Spent.{
  IsSpent, is_use_of, use_row, update-IsSpent, insert-IsSpent,
}

-- The property that is kept.
abbrev pub Spent : String → Database → Type 0
Spent hash db = IsSpent hash db.app_launch_tokens

module _ {h : String} where
  source-Keeps : {A : Type 0} {r : Outcome A} → Keeps (Spent h) (λ db. (r, db))
  source-Keeps = record { at = λ s k. k }

  non_blank_safely-Keeps :
      (e : Exn) {m : Io Database String}
      → Keeps (Spent h) m
      → Keeps (Spent h) (non_blank_safely e m)
  non_blank_safely-Keeps e k =
      Keeps-catching _ (Keeps-bind k λ v. Keeps-if (is_blank v) Keeps-throw Keeps-pure)

  get_expires_at_safely-Keeps :
      (e : Exn) (now : Timestamp) (ttl : Seconds)
      → Keeps (Spent h) (get_expires_at_safely e now ttl)
  get_expires_at_safely-Keeps e (at now) (pos (suc s)) =
      Keeps-required _ (to_iso_string (now + suc s * 1000))
  get_expires_at_safely-Keeps e (at now) (pos zero) = Keeps-throw
  get_expires_at_safely-Keeps e (at now) (negsuc s) = Keeps-throw
  get_expires_at_safely-Keeps e (at now) not_finite = Keeps-throw
  get_expires_at_safely-Keeps e malformed ttl = Keeps-throw

  written :
      (w : Written AppLaunchTokenRecord) (db : Database)
      → ((rows table : List AppLaunchTokenRecord) → w ≡ ok (rows, table) → IsSpent h table)
      → Spent h db
      → Spent h (write (λ t b. record b { app_launch_tokens = t }) w db).1
  written (ok (rows, table)) db k s = k rows table refl
  written (thrown e) db k s = s

  granted :
      (w : Written AccessValidationGrantRecord) (db : Database)
      → Spent h db
      → Spent h (write (λ t b. record b { access_validation_grants = t }) w db).1
  granted (ok (rows, table)) db s = s
  granted (thrown e) db s = s

  module _ (d : Driver) where
    create-Keeps :
        (row : AppLaunchTokenRecord) → Keeps (Spent h) ((drizzle_app_launch_tokens d).create row)
    create-Keeps row =
        Keeps-bind
          (record {
            at = λ db s.
                written (d.insert app_launch_tokens_clash row db.app_launch_tokens) db
                  (λ rows table e.
                    let (_, grown, free) =
                      d.insert_rows app_launch_tokens_clash row db.app_launch_tokens rows table e in
                    insert-IsSpent row s grown free)
                  s;
          })
          λ rows. Keeps-required _ (head? rows)

    consume_unconsumed-Keeps :
        (id : String) (now : Timestamp)
        → Keeps (Spent h) ((drizzle_app_launch_tokens d).consume_unconsumed id now)
    consume_unconsumed-Keeps id now =
        Keeps-bind
          (record {
            at = λ db s.
                written (d.update (is_use_of id) (use_row now) db.app_launch_tokens) db
                  (λ rows table e.
                    let (_, grown) =
                      d.update_rows (is_use_of id) (use_row now) db.app_launch_tokens rows table
                        e in
                    update-IsSpent id now s grown)
                  s;
          })
          λ rows. Keeps-pure

    issue_for-Keeps :
        (token id : Outcome String) (hash : String → Outcome String) (input : AppLaunchIntentInput)
        (ttl : Seconds) (access : AllowedAccess)
        → Keeps (Spent h) (
            issue_for
              (drizzle_repositories d)
              (drizzle_app_launch_tokens d)
              (record {
                create_token = λ db. (token, db);
                hash_token = λ raw db. (hash raw, db);
                create_id = λ db. (id, db);
              })
              input
              ttl
              access)
    issue_for-Keeps token id hash input ttl access =
        Keeps-bind (Keeps-catching _ (Keeps-bind Keeps-ask λ found. Keeps-required _ found)) λ app.
          Keeps-bind (get_expires_at_safely-Keeps _ input.now ttl) λ expires_at.
            Keeps-bind (non_blank_safely-Keeps _ source-Keeps) λ raw.
              Keeps-bind (non_blank_safely-Keeps _ source-Keeps) λ hashed.
                Keeps-bind (Keeps-catching _ source-Keeps)
                  λ fresh. Keeps-bind (Keeps-catching _ (create-Keeps _)) λ _. Keeps-pure

    pub issue_grant-Keeps :
        (hash : String → Outcome String) (gate : Option BillingGate) (grants : Option GrantSettings)
        (token : AppLaunchTokenRecord) (now : Timestamp)
        → Keeps (Spent h) (
            issue_grant
              (drizzle_repositories d)
              (drizzle_app_launch_tokens d)
              (λ raw db. (hash raw, db))
              gate
              (grant_dependencies d grants)
              token
              now)
    unfolding issue_access_validation_grant
    issue_grant-Keeps hash gate none token now = Keeps-pure
    issue_grant-Keeps hash gate (some g) token now =
        Keeps-bind
          (Keeps-bind source-Keeps λ id. Keeps-if (ltb (utf16_length id) 32) Keeps-throw (
            Keeps-bind (record { at = λ db s. granted _ db s })
              λ rows. Keeps-required _ (head? rows)))
          λ _. Keeps-pure

    issue_if_allowed-Keeps :
        (token id : Outcome String) (hash : String → Outcome String) (input : AppLaunchIntentInput)
        (ttl : Seconds) (r : ProtectedAppAccessDecisionResult)
        → Keeps (Spent h) (
            issue_if_allowed
              (drizzle_repositories d)
              (drizzle_app_launch_tokens d)
              (record {
                create_token = λ db. (token, db);
                hash_token = λ raw db. (hash raw, db);
                create_id = λ db. (id, db);
              })
              input
              ttl
              r)
    issue_if_allowed-Keeps token id hash input ttl (allowed a) =
        issue_for-Keeps token id hash input ttl a
    issue_if_allowed-Keeps token id hash input ttl (denied reason decision) = Keeps-pure

    module _ (hash : String → Outcome String) (gate : Option BillingGate)
        (grants : Option GrantSettings) (input : AppLaunchTokenConsumeInput) where
      use_with_membership-Keeps :
          (token : AppLaunchTokenRecord) (c : LaunchContext) (m : Option Membership)
          → Keeps (Spent h) (
              use_with_membership
                (drizzle_repositories d)
                (drizzle_app_launch_tokens d)
                (λ raw db. (hash raw, db))
                gate
                (grant_dependencies d grants)
                input
                token
                c
                m)
      use_with_membership-Keeps token c none = Keeps-pure
      use_with_membership-Keeps token c (some m) =
          Keeps-bind (Keeps-catching _ (consume_unconsumed-Keeps token.id input.now)) λ used.
            Keeps-if (not (is_some used)) Keeps-pure
              (Keeps-bind (issue_grant-Keeps hash gate grants token input.now) λ _. Keeps-pure)

      use_if_allowed-Keeps :
          (token : AppLaunchTokenRecord) (c : LaunchContext) (r : ProtectedAppAccessDecisionResult)
          → Keeps (Spent h) (
              use_if_allowed
                (drizzle_repositories d)
                (drizzle_app_launch_tokens d)
                (λ raw db. (hash raw, db))
                gate
                (grant_dependencies d grants)
                input
                token
                c
                r)
      use_if_allowed-Keeps token c (denied reason decision) = Keeps-pure
      use_if_allowed-Keeps token c (allowed a) =
          Keeps-bind (Keeps-catching _ Keeps-ask) λ m. use_with_membership-Keeps token c m

      use_in_context-Keeps :
          (token : AppLaunchTokenRecord) (c : LaunchContext)
          → Keeps (Spent h) (
              use_in_context
                (drizzle_repositories d)
                (drizzle_app_launch_tokens d)
                (λ raw db. (hash raw, db))
                gate
                (grant_dependencies d grants)
                input
                token
                c)
      use_in_context-Keeps token c = Keeps-if (not (c.app.key == input.app_key)) Keeps-pure (
          Keeps-bind (Keeps-catching _ (decide_protected_app_access-Keeps d _))
            λ r. use_if_allowed-Keeps token c r)

      check_context-Keeps :
          (token : AppLaunchTokenRecord) (s : Option Session) (u : Option User)
          (w : Option Workspace) (a : Option App)
          → Keeps (Spent h) (
              check_context
                (drizzle_repositories d)
                (drizzle_app_launch_tokens d)
                (λ raw db. (hash raw, db))
                gate
                (grant_dependencies d grants)
                input
                token
                s
                u
                w
                a)
      check_context-Keeps token none u w a = Keeps-pure
      check_context-Keeps token (some s) none w a =
          Keeps-if (is_some s.revoked_at) Keeps-pure
            (Keeps-if (at_or_before s.expires_at input.now) Keeps-pure Keeps-pure)
      check_context-Keeps token (some s) (some u) none a =
          Keeps-if (is_some s.revoked_at) Keeps-pure
            (Keeps-if (at_or_before s.expires_at input.now) Keeps-pure Keeps-pure)
      check_context-Keeps token (some s) (some u) (some w) none =
          Keeps-if (is_some s.revoked_at) Keeps-pure
            (Keeps-if (at_or_before s.expires_at input.now) Keeps-pure Keeps-pure)
      check_context-Keeps token (some s) (some u) (some w) (some a) =
          Keeps-if (is_some s.revoked_at) Keeps-pure (
            Keeps-if (at_or_before s.expires_at input.now) Keeps-pure (
              use_in_context-Keeps token
                (record { session = s; user = u; workspace = w; app = a })))

      consume_found-Keeps :
          (o : Option AppLaunchTokenRecord)
          → Keeps (Spent h) (
              consume_found
                (drizzle_repositories d)
                (drizzle_app_launch_tokens d)
                (λ raw db. (hash raw, db))
                gate
                (grant_dependencies d grants)
                input
                o)
      consume_found-Keeps none = Keeps-pure
      consume_found-Keeps (some token) =
          Keeps-if (at_or_before token.expires_at input.now) Keeps-pure (
            Keeps-if (is_some token.consumed_at) Keeps-pure (
              Keeps-if (is_some token.revoked_at) Keeps-pure (
                Keeps-bind (Keeps-catching _ Keeps-ask) λ s.
                  Keeps-bind (Keeps-catching _ Keeps-ask) λ u.
                    Keeps-bind (Keeps-catching _ Keeps-ask) λ w.
                      Keeps-bind (Keeps-catching _ Keeps-ask)
                        λ a. check_context-Keeps token s u w a)))

    -- Every command keeps it.
    pub perform_launch-Keeps :
        (hash : String → Outcome String) (c : LaunchCommand)
        → Keeps (Spent h) (perform_launch d hash c)
    unfolding create_app_launch_intent consume_app_launch_token
    perform_launch-Keeps hash (issue gate ttl input token id) =
        Keeps-bind
          (Keeps-bind (Keeps-catching _ (decide_protected_app_access-Keeps d _))
            λ r. issue_if_allowed-Keeps token id hash input ttl r)
          λ _. Keeps-pure
    perform_launch-Keeps hash (consume gate grants input) =
        Keeps-bind
          (Keeps-if (is_empty (trim input.raw_launch_token)) Keeps-pure (
            Keeps-bind (non_blank_safely-Keeps _ source-Keeps) λ hashed.
              Keeps-bind (Keeps-catching _ Keeps-ask)
                λ found. consume_found-Keeps hash gate grants input found))
          λ _. Keeps-pure
