-- ===== src/Services/Launch/FirstUse.antt =====
-- The first use of a launch token: what src/platform/app-launch-token-consume-service.ts checked
-- before it let the token be used, and what it left.
use mathlib.Core.Path.{subst}
use swooshz_platform.Base.{
  ◌≡◌, refl, sym, ap, ◌∙◌, String, true, false, not, Option, none, some, is_some, Memᴰ, eq_of_==,
  arith, ◌==◌, if◌then◌else◌,
}
use swooshz_platform.Base.Text.{trim, is_empty}
use swooshz_platform.Time.{at_or_before}
use swooshz_platform.Io.{
  Outcome, ok, Io, pure, Ensures, ensures_pure, ensures_if, ensures_catching, ensures_bind,
  ensures_read, ensures_weaker,
}
use swooshz_platform.Io.Keeps.{Keeps}
use swooshz_platform.Accounts.{Session, User, Workspace, App, Membership}
use swooshz_platform.Access.{BillingGate}
use swooshz_platform.Access.Sound.{CanLaunch}
use swooshz_platform.Driver.{Driver}
use swooshz_platform.Ports.{AppLaunchTokenRecord}
use swooshz_platform.Db.Statements.{Database}
use swooshz_platform.Db.Triples.{ensures_ask, ensures_write}
use swooshz_platform.Db.Keyed.{IsKeyed, is_membership_of}
use swooshz_platform.Db.Apps.{drizzle_app_launch_tokens, is_unused}
use swooshz_platform.Db.Repositories.{drizzle_repositories}
use swooshz_platform.Services.AppAccess.{
  ProtectedAppAccessDecisionInput, ProtectedAppAccessDecisionResult, allowed, denied,
}
use swooshz_platform.Services.AppAccess.Allowed.{
  was_allowed, launch_tables, decide_protected_app_access_iff,
}
use swooshz_platform.Services.Launch.Consume.{
  AppLaunchTokenConsumeInput, AppLaunchTokenConsumeResult, AppLaunchTokenConsumeInvalidReason,
  LaunchContext, invalid, use_with_membership, use_if_allowed, use_in_context, check_context,
  consume_found, consume_app_launch_token,
}
use swooshz_platform.Services.Launch.Commands.{GrantSettings, grant_dependencies, trade_token}
use swooshz_platform.Services.Launch.Spent.{IsSpent, is_use_of, use_row, use-IsSpent}
use swooshz_platform.Services.Launch.Refused.{was_consumed, denied-not_consumed, ensures_hashed}
use swooshz_platform.Services.Launch.Keeps.{Spent, issue_grant-Keeps}

-- A token was used properly: the table held it unused and in time, its session may launch the app in
-- its workspace, and it is used up in the end.
pub record ProperUse (gate : Option BillingGate) (input : AppLaunchTokenConsumeInput)
    (hash : String) (db db' : Database) : Type 0 where
  pub token : AppLaunchTokenRecord
  pub there : Memᴰ token db.app_launch_tokens
  pub hashed : token.token_hash ≡ hash
  pub unused : is_unused token ≡ true
  pub in_time : at_or_before token.expires_at input.now ≡ false
  pub can_launch : CanLaunch (
      launch_tables db (record {
        session_id = token.session_id;
        selected_workspace_id = token.workspace_id;
        app_key = input.app_key;
        now = input.now;
        billing_gate = gate;
      }))
  pub spent : IsSpent hash db'.app_launch_tokens

module _ (d : Driver) (hash : String → Outcome String) (gate : Option BillingGate)
    (grants : Option GrantSettings) (input : AppLaunchTokenConsumeInput) (db : Database)
    (keyed : IsKeyed db) where
  abbrev Proper : String → AppLaunchTokenConsumeResult → Database → Type 0
  Proper h r db' = was_consumed r ≡ true → ProperUse gate input h db db'

  never :
      {h : String} {r : AppLaunchTokenConsumeResult} {s : Database}
      → was_consumed r ≡ false
      → Ensures (pure r) s (Proper h)
  never e = ensures_pure λ yes. absurd (ground (arith, e, yes))

  open_session :
      {h : String} {m : Io Database AppLaunchTokenConsumeResult} (s : Session)
      → Ensures m db (Proper h)
      → Ensures
          (if is_some s.revoked_at
            then pure (invalid AppLaunchTokenConsumeInvalidReason.revoked_session)
            else if at_or_before s.expires_at input.now
            then pure (invalid AppLaunchTokenConsumeInvalidReason.expired_session)
            else m)
          db
          (Proper h)
  open_session s k =
      ensures_if (is_some s.revoked_at) _ _ (λ _. never refl)
        λ _. ensures_if (at_or_before s.expires_at input.now) _ _ (λ _. never refl) λ _. k

  ensures-Spent :
      {h : String} {A : Type 0} {m : Io Database A} {s : Database}
      → Keeps (Spent h) m
      → Spent h s
      → Ensures m s (λ _ t. Spent h t)
  ensures-Spent {h} k s = record { at = λ a t e. subst (Spent h) (ap (λ p. p.1) e) (k.at _ s) }

  module _ (token : AppLaunchTokenRecord) (there : Memᴰ token db.app_launch_tokens)
      (unused : is_unused token ≡ true) (in_time : at_or_before token.expires_at input.now ≡ false)
      (c : LaunchContext) where
    abbrev asked : ProtectedAppAccessDecisionInput
    asked = record {
      session_id = token.session_id;
      selected_workspace_id = token.workspace_id;
      app_key = c.app.key;
      now = input.now;
      billing_gate = gate;
    }

    use_with_membership-Proper :
        (m : Option Membership)
        → c.app.key ≡ input.app_key
        → CanLaunch (launch_tables db asked)
        → Ensures
            (use_with_membership
              (drizzle_repositories d)
              (drizzle_app_launch_tokens d)
              (λ raw db. (hash raw, db))
              gate
              (grant_dependencies d grants)
              input
              token
              c
              m)
            db
            (Proper token.token_hash)
    use_with_membership-Proper none key can = never refl
    use_with_membership-Proper (some m) key can =
        ensures_bind {P = λ _ t. Spent token.token_hash t}
          (ensures_catching _ _ (
            ensures_bind
              (ensures_write (λ t b. record b { app_launch_tokens = t })
                (λ s. d.update (is_use_of token.id) (use_row input.now) s.app_launch_tokens) db)
              λ rows t (table, w, e). ensures_pure (
                let (_, grown) =
                  d.update_rows (is_use_of token.id) (use_row input.now) db.app_launch_tokens rows
                    table w in
                subst (Spent token.token_hash) (sym e) (
                  use-IsSpent token input.now (keyed.launch_token_hashes token.token_hash) there
                    unused grown))))
          λ used t spent.
            ensures_if (not (is_some used)) _ _ (λ _. never refl)
              λ _.
                ensures_bind
                  (ensures-Spent (issue_grant-Keeps d hash gate grants token input.now) spent)
                  λ _ u left. ensures_pure λ _. record {
                    token = token;
                    there = there;
                    hashed = refl;
                    unused = unused;
                    in_time = in_time;
                    can_launch =
                        subst (λ k. CanLaunch (launch_tables db (record asked { app_key = k }))) key
                          can;
                    spent = left;
                  }

    use_if_allowed-Proper :
        (r : ProtectedAppAccessDecisionResult)
        → c.app.key ≡ input.app_key
        → (was_allowed r ≡ true → CanLaunch (launch_tables db asked))
        → Ensures
            (use_if_allowed
              (drizzle_repositories d)
              (drizzle_app_launch_tokens d)
              (λ raw db. (hash raw, db))
              gate
              (grant_dependencies d grants)
              input
              token
              c
              r)
            db
            (Proper token.token_hash)
    use_if_allowed-Proper (denied reason decision) key can =
        never (denied-not_consumed reason decision)
    use_if_allowed-Proper (allowed a) key can =
        ensures_read
          (ensures_catching _ _ (
            ensures_ask
              (λ s. d.select_one (is_membership_of c.user.id c.workspace.id) s.memberships) db))
          λ m _. use_with_membership-Proper m key (can refl)

    use_in_context-Proper :
        Ensures
          (use_in_context
            (drizzle_repositories d)
            (drizzle_app_launch_tokens d)
            (λ raw db. (hash raw, db))
            gate
            (grant_dependencies d grants)
            input
            token
            c)
          db
          (Proper token.token_hash)
    use_in_context-Proper =
        ensures_if (not (c.app.key == input.app_key)) _ _ (λ _. never refl)
          λ same.
            ensures_read {P = λ r. was_allowed r ≡ true → CanLaunch (launch_tables db asked)}
              (ensures_catching _ _ (record {
                at = λ r t h.
                    let (kept, iff) = decide_protected_app_access_iff d db keyed asked r t h in
                    (kept, iff.0);
              }))
              λ r can. use_if_allowed-Proper r (eq_of_== _ _ (ground (arith, same))) can

  module _ (token : AppLaunchTokenRecord) (there : Memᴰ token db.app_launch_tokens)
      (unused : is_unused token ≡ true)
      (in_time : at_or_before token.expires_at input.now ≡ false) where
    check_context-Proper :
        (s : Option Session) (u : Option User) (w : Option Workspace) (a : Option App)
        → Ensures
            (check_context
              (drizzle_repositories d)
              (drizzle_app_launch_tokens d)
              (λ raw db. (hash raw, db))
              gate
              (grant_dependencies d grants)
              input
              token
              s
              u
              w
              a)
            db
            (Proper token.token_hash)
    check_context-Proper none u w a = never refl
    check_context-Proper (some s) none w a = open_session s (never refl)
    check_context-Proper (some s) (some u) none a = open_session s (never refl)
    check_context-Proper (some s) (some u) (some w) none = open_session s (never refl)
    check_context-Proper (some s) (some u) (some w) (some a) = open_session s (
        use_in_context-Proper token there unused in_time
          (record { session = s; user = u; workspace = w; app = a }))

  consume_found-Proper :
      (h : String) (o : Option AppLaunchTokenRecord)
      → ((token : AppLaunchTokenRecord)
          → o ≡ some token
          → Memᴰ token db.app_launch_tokens × (token.token_hash ≡ h))
      → Ensures
          (consume_found
            (drizzle_repositories d)
            (drizzle_app_launch_tokens d)
            (λ raw db. (hash raw, db))
            gate
            (grant_dependencies d grants)
            input
            o)
          db
          (Proper h)
  consume_found-Proper h none found = never refl
  consume_found-Proper h (some token) found =
      let (there, same) = found token refl in
      ensures_if (at_or_before token.expires_at input.now) _ _ (λ _. never refl)
        λ in_time.
          ensures_if (is_some token.consumed_at) _ _ (λ _. never refl)
            λ fresh.
              ensures_if (is_some token.revoked_at) _ _ (λ _. never refl)
                λ open_token.
                  ensures_read
                    (ensures_catching _ _ (
                      ensures_ask (λ s. d.select_one (λ r. r.id == token.session_id) s.sessions)
                        db))
                    λ s _.
                      ensures_read
                        (ensures_catching _ _
                          (ensures_ask (λ s. d.select_one (λ r. r.id == token.user_id) s.users) db))
                        λ u _.
                          ensures_read
                            (ensures_catching _ _ (
                              ensures_ask
                                (λ s. d.select_one (λ r. r.id == token.workspace_id) s.workspaces)
                                db))
                            λ w _.
                              ensures_read
                                (ensures_catching _ _ (
                                  ensures_ask (λ s. d.select_one (λ r. r.id == token.app_id) s.apps)
                                    db))
                                λ a _.
                                  ensures_weaker
                                    (check_context-Proper token there
                                      (ground (arith, fresh, open_token)) in_time s u w a)
                                    λ r t q. subst (λ k. Proper k r t) same q

  pub trade_token-Proper :
      (h : String)
      → hash (trim input.raw_launch_token) ≡ ok h
      → Ensures (trade_token d hash gate grants input) db (Proper h)
  unfolding consume_app_launch_token
  trade_token-Proper h hashed =
      ensures_if (is_empty (trim input.raw_launch_token)) _ _ (λ _. never refl)
        λ _.
          ensures_read {P = λ v. v ≡ h}
            (ensures_hashed hash (trim input.raw_launch_token) h hashed _ db)
            λ v same.
              ensures_read
                (ensures_catching _ _
                  (ensures_ask (λ s. d.select_one (λ t. t.token_hash == v) s.app_launch_tokens) db))
                λ o e. consume_found-Proper h o λ token j.
                  let (there, eq) =
                    d.select_one-some (λ (t : AppLaunchTokenRecord). t.token_hash == v)
                      db.app_launch_tokens token (e ∙ ap ok j) in
                  (there, eq_of_== _ _ eq ∙ same)
