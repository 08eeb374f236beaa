-- ===== src/Services/Launch/Refused.antt =====
-- A used launch token is refused by src/platform/app-launch-token-consume-service.ts.
use swooshz_platform.Base.{
  ◌≡◌, refl, ap, ◌∙◌, String, Bool, true, false, Option, none, some, is_some, Memᴰ, eq_of_==, arith,
  ◌==◌,
}
use swooshz_platform.Base.Text.{trim, is_empty, is_blank}
use swooshz_platform.Time.{at_or_before}
use swooshz_platform.Io.{
  Outcome, ok, Ensures, ensures_pure, ensures_throw, ensures_if, ensures_catching, ensures_read,
}
use swooshz_platform.Errors.{Exn}
use swooshz_platform.Access.{BillingGate, AccessDecision}
use swooshz_platform.Driver.{Driver}
use swooshz_platform.Ports.{AppLaunchTokenRecord}
use swooshz_platform.Db.Statements.{Database}
use swooshz_platform.Db.Triples.{ensures_ask}
use swooshz_platform.Db.Apps.{drizzle_app_launch_tokens}
use swooshz_platform.Db.Repositories.{drizzle_repositories}
use swooshz_platform.Services.AppAccess.{
  ProtectedAppAccessDeniedReason, missing_session, revoked_session, expired_session,
  app_access_denied,
}
use swooshz_platform.Services.Launch.{non_blank_safely}
use swooshz_platform.Services.Launch.Consume.{
  AppLaunchTokenConsumeInput, AppLaunchTokenConsumeResult, consumed, invalid_reason, consume_found,
  consume_app_launch_token,
}
use swooshz_platform.Services.Launch.Commands.{GrantSettings, grant_dependencies, trade_token}
use swooshz_platform.Services.Launch.Keeps.{Spent}

abbrev pub was_consumed : AppLaunchTokenConsumeResult → Bool
was_consumed (consumed c) = true
was_consumed _ = false

pub denied-not_consumed :
    (reason : ProtectedAppAccessDeniedReason) (decision : Option AccessDecision)
    → was_consumed (invalid_reason reason decision) ≡ false
denied-not_consumed missing_session decision = refl
denied-not_consumed revoked_session decision = refl
denied-not_consumed expired_session decision = refl
denied-not_consumed app_access_denied decision = refl

-- The hash of a token, and the test that it is not blank.
module _ (hash : String → Outcome String) where
  ensures_hash :
      (raw : String) (db : Database)
      → Ensures (λ (s : Database). (hash raw, s)) db (λ v t. (t ≡ db) × (hash raw ≡ ok v))
  ensures_hash raw db = record { at = λ v t h. (ground arith, ground arith) }

  pub ensures_hashed :
      (raw h : String)
      → hash raw ≡ ok h
      → (e : Exn) (db : Database)
      → Ensures
          (non_blank_safely e (λ (s : Database). (hash raw, s)))
          db
          (λ v t. (t ≡ db) × (v ≡ h))
  ensures_hashed raw h hashed e db = ensures_catching _ _ (
      ensures_read (ensures_hash raw db) λ v i.
        ensures_if (is_blank v) _ _ (λ _. ensures_throw) λ _. ensures_pure (refl, ground arith))

-- A used token is refused.
module _ (d : Driver) (hash : String → Outcome String) (gate : Option BillingGate)
    (grants : Option GrantSettings) (input : AppLaunchTokenConsumeInput) (db : Database) where
  abbrev Refused : AppLaunchTokenConsumeResult → Database → Type 0
  Refused r _ = was_consumed r ≡ false

  consume_found-Refused :
      (h : String) (o : Option AppLaunchTokenRecord)
      → Spent h db
      → ((token : AppLaunchTokenRecord)
          → o ≡ some token
          → Memᴰ token db.app_launch_tokens × (token.token_hash ≡ h))
      → Ensures
          (consume_found
            (drizzle_repositories d)
            (drizzle_app_launch_tokens d)
            (λ raw db. (hash raw, db))
            gate
            (grant_dependencies d grants)
            input
            o)
          db
          Refused
  consume_found-Refused h none s found = ensures_pure refl
  consume_found-Refused h (some token) s found =
      let (there, same) = found token refl in
      let used = s.all_consumed token there same in
      ensures_if (at_or_before token.expires_at input.now) _ _ (λ _. ensures_pure refl)
        λ _.
          ensures_if (is_some token.consumed_at) _ _ (λ _. ensures_pure refl)
            λ unused. absurd (ground (arith, used, unused))

  pub trade_token-Refused :
      (h : String)
      → hash (trim input.raw_launch_token) ≡ ok h
      → Spent h db
      → Ensures (trade_token d hash gate grants input) db Refused
  unfolding consume_app_launch_token
  trade_token-Refused h hashed s =
      ensures_if (is_empty (trim input.raw_launch_token)) _ _ (λ _. ensures_pure refl)
        λ _.
          ensures_read {P = λ v. v ≡ h}
            (ensures_hashed hash (trim input.raw_launch_token) h hashed _ db)
            λ v same.
              ensures_read
                (ensures_catching _ _
                  (ensures_ask (λ s. d.select_one (λ t. t.token_hash == v) s.app_launch_tokens) db))
                λ o e. consume_found-Refused h o s λ token j.
                  let (there, eq) =
                    d.select_one-some (λ (t : AppLaunchTokenRecord). t.token_hash == v)
                      db.app_launch_tokens token (e ∙ ap ok j) in
                  (there, eq_of_== _ _ eq ∙ same)
