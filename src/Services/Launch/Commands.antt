-- ===== src/Services/Launch/Commands.antt =====
-- The launch services on the database, as commands: `createAppLaunchIntent` and
-- `consumeAppLaunchToken` over the Drizzle repositories. What the random sources and the hash give is
-- part of the input: they may throw, and they do not touch the database.
use swooshz_platform.Base.{String, Option, none, some, List, [], ◌∷◌}
use swooshz_platform.Time.{Seconds}
use swooshz_platform.Io.{Outcome, Io}
use swooshz_platform.Access.{BillingGate}
use swooshz_platform.Driver.{Driver}
use swooshz_platform.Db.Statements.{Database}
use swooshz_platform.Db.Apps.{drizzle_app_launch_tokens, drizzle_access_validation_grants}
use swooshz_platform.Db.Repositories.{drizzle_repositories}
use swooshz_platform.Services.Admin.Commands.{done}
use swooshz_platform.Services.Launch.{
  AppLaunchIntentInput, AppLaunchIntentResult, create_app_launch_intent,
}
use swooshz_platform.Services.Launch.Consume.{
  AccessValidationGrantDependencies, AppLaunchTokenConsumeInput, AppLaunchTokenConsumeResult,
  consume_app_launch_token,
}

-- The origin that grants are meant for, and what the factory of their ids gives.
pub record GrantSettings : Type 0 where
  pub intended_sqag_origin : String
  pub grant_id : Outcome String

pub data LaunchCommand : Type 0 where
  issue :
      Option BillingGate
      → Seconds
      → AppLaunchIntentInput
      → Outcome String
      → Outcome String
      → LaunchCommand
  consume : Option BillingGate → Option GrantSettings → AppLaunchTokenConsumeInput → LaunchCommand

module _ (d : Driver) where
  abbrev pub grant_dependencies :
      Option GrantSettings → Option (AccessValidationGrantDependencies Database)
  grant_dependencies none = none
  grant_dependencies (some g) = some (record {
    access_validation_grants = drizzle_access_validation_grants d;
    intended_sqag_origin = g.intended_sqag_origin;
    grant_id_factory = λ db. (g.grant_id, db);
  })

  module _ (hash : String → Outcome String) where
    abbrev pub issue_token :
        Option BillingGate
        → Seconds
        → AppLaunchIntentInput
        → Outcome String
        → Outcome String
        → Io Database AppLaunchIntentResult
    issue_token gate ttl input token id =
        create_app_launch_intent (drizzle_repositories d) (drizzle_app_launch_tokens d)
          (record {
            create_token = λ db. (token, db);
            hash_token = λ raw db. (hash raw, db);
            create_id = λ db. (id, db);
          })
          gate ttl input

    abbrev pub trade_token :
        Option BillingGate
        → Option GrantSettings
        → AppLaunchTokenConsumeInput
        → Io Database AppLaunchTokenConsumeResult
    trade_token gate grants input =
        consume_app_launch_token (drizzle_repositories d) (drizzle_app_launch_tokens d)
          (λ raw db. (hash raw, db)) gate (grant_dependencies grants) input

    abbrev pub perform_launch : LaunchCommand → Io Database (Unit {0})
    perform_launch (issue gate ttl input token id) = done (issue_token gate ttl input token id)
    perform_launch (consume gate grants input) = done (trade_token gate grants input)

    -- Commands one after the other, whatever becomes of each.
    unfoldable pub perform_launches : List LaunchCommand → Database → Database
    perform_launches [] db = db
    perform_launches (c ∷ cs) db = perform_launches cs (perform_launch c db).1
