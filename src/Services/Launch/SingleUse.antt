-- ===== src/Services/Launch/SingleUse.antt =====
-- What a launch token is good for: src/platform/app-launch-token-consume-service.ts lets one be used
-- once, in time, and by a session that may launch the app.
use swooshz_platform.Base.{◌≡◌, String, true, false, Option, List, [], ◌∷◌}
use swooshz_platform.Base.Text.{trim}
use swooshz_platform.Io.{Outcome, ok}
use swooshz_platform.Access.{BillingGate}
use swooshz_platform.Driver.{Driver}
use swooshz_platform.Db.Statements.{Database}
use swooshz_platform.Db.Keyed.{IsKeyed}
use swooshz_platform.Services.Launch.Consume.{
  AppLaunchTokenConsumeInput, AppLaunchTokenConsumeResult,
}
use swooshz_platform.Services.Launch.Commands.{
  GrantSettings, LaunchCommand, trade_token, perform_launch, perform_launches,
}
use swooshz_platform.Services.Launch.Refused.{was_consumed, trade_token-Refused}
use swooshz_platform.Services.Launch.FirstUse.{ProperUse, trade_token-Proper}
use swooshz_platform.Services.Launch.Keeps.{Spent, perform_launch-Keeps}

module _ (d : Driver) (hash : String → Outcome String) where
  perform_launches-Spent :
      {h : String} (cs : List LaunchCommand) (db : Database)
      → Spent h db
      → Spent h (perform_launches d hash cs db)
  unfolding perform_launches
  perform_launches-Spent [] db s = s
  perform_launches-Spent (c ∷ cs) db s =
      perform_launches-Spent cs (perform_launch d hash c db).1
        ((perform_launch-Keeps d hash c).at db s)

  module _ (gate : Option BillingGate) (grants : Option GrantSettings)
      (input : AppLaunchTokenConsumeInput) (h : String)
      (hashed : hash (trim input.raw_launch_token) ≡ ok h) (db : Database) (keyed : IsKeyed db)
      (r : AppLaunchTokenConsumeResult) (db' : Database)
      (traded : trade_token d hash gate grants input db ≡ (ok r, db'))
      (granted : was_consumed r ≡ true) where
    -- Where consumeAppLaunchToken answers `consumed`, over the Drizzle repositories and given the
    -- unique indexes, the table held a token of that hash that was neither consumed nor revoked nor
    -- expired, its session may launch the app that asks in the workspace of the token, and in the end
    -- every token of that hash is consumed.
    pub trade_token-ProperUse : ProperUse gate input h db db'
    trade_token-ProperUse =
        (trade_token-Proper d hash gate grants input db keyed h hashed).at r db' traded granted

    -- A launch token is used once: over the Drizzle repositories and given the unique indexes, after an
    -- answer `consumed`, whatever tokens are then issued and consumed, no later call with a token of
    -- the same hash is answered `consumed`.
    pub trade_token-once :
        (cs : List LaunchCommand) (gate' : Option BillingGate) (grants' : Option GrantSettings)
        (again : AppLaunchTokenConsumeInput)
        → hash (trim again.raw_launch_token) ≡ ok h
        → (r' : AppLaunchTokenConsumeResult) (later : Database)
        → trade_token d hash gate' grants' again (perform_launches d hash cs db') ≡ (ok r', later)
        → was_consumed r' ≡ false
    trade_token-once cs gate' grants' again same r' later second =
        let spent = perform_launches-Spent cs db' trade_token-ProperUse.spent in
        (trade_token-Refused d hash gate' grants' again (perform_launches d hash cs db') h same
            spent).at
          r' later second
