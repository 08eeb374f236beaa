-- ===== src/Tests/Launch.antt =====
-- Launch tokens: one is used, and then refused.
use swooshz_platform.Base.{◌≡◌, refl, String, false, none, some, [], ◌∷◌, ◌==◌}
use swooshz_platform.Base.Text.{trim, trim_start, trim_end, is_blank}
use swooshz_platform.Time.{at}
use swooshz_platform.Io.{Outcome, ok, ◌>>=◌}
use swooshz_platform.Ports.{AppLaunchTokenRecord}
use swooshz_platform.Db.Statements.{Database}
use swooshz_platform.Db.Keyed.{IsKeyed}
use swooshz_platform.Access.{decide_app_access}
use swooshz_platform.Services.AppAccess.{decide_protected_app_access, decide_platform_app_access}
use swooshz_platform.Services.Launch.Consume.{
  AppLaunchTokenConsumeInput, AppLaunchTokenConsumeResult, consumed, invalid, consumed_launch_token,
  consume_app_launch_token,
}
use swooshz_platform.Services.Launch.Commands.{trade_token, perform_launches}
use swooshz_platform.Services.Launch.Refused.{was_consumed}
use swooshz_platform.Services.Launch.FirstUse.{ProperUse}
use swooshz_platform.Services.Launch.SingleUse.{trade_token-ProperUse, trade_token-once}
use swooshz_platform.Accounts.{admin}
use swooshz_platform.Tests.ListDriver.{list_driver}
use swooshz_platform.Tests.Samples.{ada, acme, sqag, platform, platform-IsKeyed, one_row}

abbrev ticket : AppLaunchTokenRecord
ticket = record {
  id = "token-1";
  session_id = "session-ada";
  user_id = "user-ada";
  workspace_id = "workspace-acme";
  app_id = "app-sqag";
  token_hash = "raw-1";
  created_at = at 40;
  expires_at = at 1_000;
  consumed_at = none;
  revoked_at = none;
}

abbrev ready : Database
ready = record platform { app_launch_tokens = ticket ∷ [] }

ready-IsKeyed : IsKeyed ready
ready-IsKeyed = record {
  user_ids = platform-IsKeyed.user_ids;
  session_ids = platform-IsKeyed.session_ids;
  workspace_ids = platform-IsKeyed.workspace_ids;
  membership_ids = platform-IsKeyed.membership_ids;
  membership_users = platform-IsKeyed.membership_users;
  app_ids = platform-IsKeyed.app_ids;
  app_keys = platform-IsKeyed.app_keys;
  entitlements = platform-IsKeyed.entitlements;
  launch_token_ids = λ k. one_row (λ (t : AppLaunchTokenRecord). t.id == k) ticket;
  launch_token_hashes = λ k. one_row (λ (t : AppLaunchTokenRecord). t.token_hash == k) ticket;
}

abbrev plain_hash : String → Outcome String
plain_hash raw = ok raw

abbrev trade : AppLaunchTokenConsumeInput
trade = record { raw_launch_token = " raw-1"; app_key = "sqag"; now = at 50 }

abbrev answer : AppLaunchTokenConsumeResult
answer = consumed (record {
  user_id = ada.id;
  email = ada.email;
  display_name = ada.display_name;
  status = ada.status;
  workspace_id = acme.id;
  workspace_slug = acme.slug;
  workspace_name = acme.display_name;
  app_key = sqag.key;
  app_name = sqag.name;
  membership_role = admin;
  launch_token_expires_at = at 1_000;
  validation_grant_id = none;
})

abbrev traded : Database
traded = record ready { app_launch_tokens = record ticket { consumed_at = some (at 50) } ∷ [] }

trade_hash : plain_hash (trim trade.raw_launch_token) ≡ ok "raw-1"
unfolding trim trim_start trim_end
trade_hash = refl

trade_run : trade_token list_driver plain_hash none none trade ready ≡ (ok answer, traded)
unfolding consume_app_launch_token decide_protected_app_access decide_platform_app_access
    decide_app_access trim trim_start trim_end is_blank ◌>>=◌
trade_run = refl

trade_again_run :
    trade_token list_driver plain_hash none none trade
      (perform_launches list_driver plain_hash [] traded)
    ≡ (ok (invalid consumed_launch_token), traded)
unfolding perform_launches consume_app_launch_token trim trim_start trim_end is_blank ◌>>=◌
trade_again_run = refl

trade_token-ProperUse_example : ProperUse none trade "raw-1" ready traded
trade_token-ProperUse_example =
    trade_token-ProperUse list_driver plain_hash none none trade "raw-1" trade_hash ready
      ready-IsKeyed answer traded trade_run refl

trade_token-once_example : was_consumed (invalid consumed_launch_token) ≡ false
trade_token-once_example =
    trade_token-once list_driver plain_hash none none trade "raw-1" trade_hash ready ready-IsKeyed
      answer traded trade_run refl [] none none trade trade_hash (invalid consumed_launch_token)
      traded trade_again_run
