-- ===== src/Tests/Access.antt =====
-- The launch decision.
use swooshz_platform.Base.{◌≡◌, ◌↔◌, refl, true, none}
use swooshz_platform.Time.{at}
use swooshz_platform.Io.{ok}
use swooshz_platform.Access.{decide_app_access, decision, AccessDecisionResult}
use swooshz_platform.Access.Sound.{CanLaunch, decide_app_access_iff}
use swooshz_platform.Db.Repositories.{drizzle_repositories}
use swooshz_platform.Services.AppAccess.{
  ProtectedAppAccessDecisionInput, ProtectedAppAccessDecisionResult, allowed,
  decide_protected_app_access, decide_platform_app_access,
}
use swooshz_platform.Services.AppAccess.Tables.{whole_tables, decide_platform_app_access-eq}
use swooshz_platform.Services.AppAccess.Allowed.{
  was_allowed, launch_tables, platform_input, decide_protected_app_access_iff,
  HasUniqueRows-of_IsKeyed,
}
use swooshz_platform.Tests.ListDriver.{list_driver}
use swooshz_platform.Tests.Samples.{platform, platform-IsKeyed}

abbrev launch_request : ProtectedAppAccessDecisionInput
launch_request = record {
  session_id = "session-ada";
  selected_workspace_id = "workspace-acme";
  app_key = "sqag";
  now = at 50;
  billing_gate = none;
}

abbrev launch_grant : ProtectedAppAccessDecisionResult
launch_grant = allowed (record {
  session_id = "session-ada";
  user_id = "user-ada";
  workspace_id = "workspace-acme";
  app_key = "sqag";
  decision = decision AccessDecisionResult.allowed;
})

launch_run :
    decide_protected_app_access (drizzle_repositories list_driver) launch_request platform
    ≡ (ok launch_grant, platform)
unfolding decide_protected_app_access decide_platform_app_access decide_app_access
launch_run = refl

decide_protected_app_access_iff_example :
    (platform ≡ platform)
    × ((was_allowed launch_grant ≡ true) ↔ CanLaunch (launch_tables platform launch_request))
decide_protected_app_access_iff_example =
    decide_protected_app_access_iff list_driver platform platform-IsKeyed launch_request
      launch_grant platform launch_run

platform_run :
    decide_platform_app_access
      (drizzle_repositories list_driver)
      (platform_input launch_request)
      platform
    ≡ (ok (decision AccessDecisionResult.allowed), platform)
unfolding decide_platform_app_access decide_app_access
platform_run = refl

decide_platform_app_access-eq_example :
    (platform ≡ platform)
    × (decision AccessDecisionResult.allowed
        ≡ decide_app_access (whole_tables platform (platform_input launch_request)))
decide_platform_app_access-eq_example =
    decide_platform_app_access-eq list_driver platform platform-IsKeyed
      (platform_input launch_request) (decision AccessDecisionResult.allowed) platform platform_run

decide_app_access_iff_example :
    ((decide_app_access (launch_tables platform launch_request)).allowed ≡ true)
    ↔ CanLaunch (launch_tables platform launch_request)
decide_app_access_iff_example =
    decide_app_access_iff (launch_tables platform launch_request)
      (HasUniqueRows-of_IsKeyed platform (platform_input launch_request) platform-IsKeyed)
