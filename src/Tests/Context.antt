-- ===== src/Tests/Context.antt =====
-- The session context of the small platform.
use swooshz_platform.Base.{◌≡◌, refl, none, some, [], ◌∷◌}
use swooshz_platform.Time.{at}
use swooshz_platform.Io.{ok, ◌>>=◌}
use swooshz_platform.Db.Repositories.{drizzle_repositories}
use swooshz_platform.Services.SessionContext.{
  PlatformSessionContextInput, AuthenticatedContext, authenticated, workspace_summary,
  get_platform_session_context,
}
use swooshz_platform.Services.SessionContext.Shown.{
  IsContextOf, get_platform_session_context-IsContextOf,
}
use swooshz_platform.Tests.ListDriver.{list_driver}
use swooshz_platform.Tests.Samples.{
  platform, ada, ada_session, ada_membership, acme, sqag, acme_sqag,
}

abbrev visit : PlatformSessionContextInput
visit = record {
  session_id = "session-ada";
  now = at 60;
  selected_workspace_id = some "workspace-other";
}

abbrev shown : AuthenticatedContext
shown = record {
  expires_at = at 100_000;
  user = record {
    user_id = "user-ada";
    email = "ada@swooshz.test";
    display_name = "Ada";
    status = ada.status;
  };
  selected_workspace_id = none;
  workspaces =
      workspace_summary ada_session ada acme ada_membership (sqag ∷ []) (acme_sqag ∷ []) (at 60)
      ∷ [];
}

context_run :
    get_platform_session_context (drizzle_repositories list_driver) visit platform
    ≡ (ok (authenticated shown), platform)
unfolding get_platform_session_context ◌>>=◌
context_run = refl

get_platform_session_context-IsContextOf_example :
    (platform ≡ platform) × IsContextOf visit shown platform
get_platform_session_context-IsContextOf_example =
    get_platform_session_context-IsContextOf list_driver platform visit shown platform context_run
