-- ===== src/Tests/SignIn.antt =====
-- Sign-in: of a known user, and of an approved one where an id cannot be made; and sign-out.
use swooshz_platform.Base.{false, ◌≡◌, ◌⊎◌, refl, String, none, some, [], ◌∷◌}
use swooshz_platform.Base.Text.{trim, trim_start, trim_end}
use swooshz_platform.Time.{at, pos}
use swooshz_platform.Errors.{plain, auth_callback, membership_approval_acceptance_failed}
use swooshz_platform.Io.{ok, thrown, ◌>>=◌}
use swooshz_platform.Accounts.{Session, operator}
use swooshz_platform.Ports.{ProviderIdentity, WorkspaceMembershipApprovalRecord, pending}
use swooshz_platform.Db.Statements.{Database}
use swooshz_platform.Db.Repositories.{run_attempts, drizzle_repositories}
use swooshz_platform.Auth.Resolver.{
  AuthenticatedPlatformIdentityInput, AuthCallbackPlatformIdentityResolution,
}
use swooshz_platform.Auth.Resolver.SignIn.{
  resolve_pending_approved_identity, resolve_authenticated_identity,
}
use swooshz_platform.Auth.Resolver.Stored.{IdSources, sign_in, IsSessionOf}
use swooshz_platform.Auth.Resolver.Admitted.{IsKnown, IsApproved, sign_in-admitted}
use swooshz_platform.Auth.Resolver.Undone.{sign_in-undone}
use swooshz_platform.Services.AppAccess.{
  ProtectedAppAccessDecisionInput, denied, revoked_session, decide_protected_app_access,
}
use swooshz_platform.Services.AppAccess.Allowed.{was_allowed}
use swooshz_platform.Auth.Sessions.{SessionRevocationInput, revoked, revoke_platform_session}
use swooshz_platform.Auth.Sessions.Over.{revoke_session, revoke_session-denies}
use swooshz_platform.Tests.ListDriver.{list_driver}
use swooshz_platform.Tests.Samples.{platform, platform-IsKeyed, ada_session}

abbrev same_letters : String → String
same_letters s = s

abbrev link : ProviderIdentity
link = record {
  id = "identity-ada";
  user_id = "user-ada";
  provider_key = "swooshz";
  provider_subject = "subject-ada";
  created_at = at 10;
  updated_at = at 10;
}

abbrev arrival : String → String → AuthenticatedPlatformIdentityInput
arrival subject email = record {
  identity = record {
    provider_key = "swooshz";
    provider_subject = subject;
    verified_email = some email;
    display_name = none;
    metadata = [];
  };
  state_reference = record {
    provider_key = "swooshz";
    state_hash = "state-1";
    nonce_hash = "nonce-1";
  };
  now = at 70;
}

abbrev sources : IdSources
sources = record {
  session_id = λ _. ok "session-new";
  user_id = λ _. ok "user-new";
  provider_identity_id = λ _. ok "identity-new";
  membership_id = λ _. thrown plain;
  audit_event_id = λ _. ok "event-new";
  session_duration_ms = pos 1_000;
}

abbrev new_session : Session
new_session = record {
  id = "session-new";
  user_id = "user-ada";
  created_at = at 70;
  expires_at = at 1_070;
  last_seen_at = at 70;
  revoked_at = none;
}

abbrev resolution : AuthCallbackPlatformIdentityResolution
resolution = record {
  platform_user_id = "user-ada";
  provider_identity_id = "identity-ada";
  session = new_session;
  workspace_membership_granted = none;
}

abbrev linked : Database
linked = record platform { provider_identities = link ∷ [] }

abbrev signed_in : Database
signed_in = record linked { sessions = new_session ∷ ada_session ∷ [] }

known_run :
    sign_in list_driver same_letters sources (arrival "subject-ada" "ada@swooshz.test") linked
    ≡ (ok resolution, signed_in)
unfolding resolve_authenticated_identity ◌>>=◌
known_run = refl

sign_in-admitted_example :
    IsSessionOf "user-ada" (at 70) new_session signed_in
    × (IsKnown (arrival "subject-ada" "ada@swooshz.test") "user-ada" linked
        ⊎ IsApproved same_letters (arrival "subject-ada" "ada@swooshz.test") linked)
sign_in-admitted_example =
    sign_in-admitted list_driver linked same_letters sources
      (arrival "subject-ada" "ada@swooshz.test") resolution signed_in known_run

abbrev approval : WorkspaceMembershipApprovalRecord
approval = record {
  id = "approval-bob";
  workspace_id = "workspace-acme";
  email = "bob@swooshz.test";
  role = operator;
  status = pending;
  requested_by_user_id = some "user-ada";
  created_at = at 30;
  updated_at = at 30;
  accepted_at = none;
  revoked_at = none;
  accepted_user_id = none;
  revoked_by_user_id = none;
}

abbrev awaiting : Database
awaiting = record linked { membership_approvals = approval ∷ [] }

-- The user and the link were written in the transaction before the id of the membership failed.
failed_run :
    sign_in list_driver same_letters sources (arrival "subject-bob" "bob@swooshz.test") awaiting
    ≡ (thrown (auth_callback membership_approval_acceptance_failed), awaiting)
unfolding resolve_authenticated_identity resolve_pending_approved_identity run_attempts trim
    trim_start trim_end ◌>>=◌
failed_run = refl

sign_in-undone_example : awaiting ≡ awaiting
sign_in-undone_example =
    sign_in-undone list_driver awaiting same_letters sources
      (arrival "subject-bob" "bob@swooshz.test")
      (auth_callback membership_approval_acceptance_failed) awaiting failed_run

abbrev sign_out : SessionRevocationInput
sign_out = record { session_id = "session-ada"; now = at 90 }

abbrev signed_out : Database
signed_out = record platform { sessions = record ada_session { revoked_at = some (at 90) } ∷ [] }

abbrev launch_of_ada : ProtectedAppAccessDecisionInput
launch_of_ada = record {
  session_id = "session-ada";
  selected_workspace_id = "workspace-acme";
  app_key = "sqag";
  now = at 95;
  billing_gate = none;
}

sign_out_run :
    revoke_session list_driver sign_out platform ≡ (ok (revoked "session-ada" (at 90)), signed_out)
unfolding revoke_platform_session ◌>>=◌
sign_out_run = refl

denied_run :
    decide_protected_app_access (drizzle_repositories list_driver) launch_of_ada signed_out
    ≡ (ok (denied revoked_session none), signed_out)
unfolding decide_protected_app_access ◌>>=◌
denied_run = refl

revoke_session-denies_example : was_allowed (denied revoked_session none) ≡ false
revoke_session-denies_example =
    revoke_session-denies list_driver sign_out (revoked "session-ada" (at 90)) platform signed_out
      (platform-IsKeyed.session_ids "session-ada") sign_out_run refl launch_of_ada refl
      (denied revoked_session none) signed_out denied_run
