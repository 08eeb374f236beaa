-- ===== src/Tests/Callback.antt =====
-- The states of sign-ins, and a callback that completes.
use swooshz_platform.Base.{◌≡◌, refl, ◌≤◌, String, false, none, some, Option, [], ◌∷◌, length}
use swooshz_platform.Base.Text.{trim, trim_start, trim_end, is_blank}
use swooshz_platform.Time.{at}
use swooshz_platform.Io.{Outcome, ok, Io, pure, ◌>>=◌}
use swooshz_platform.AuthStates.{StoredAuthState, AuthStateLookupInput}
use swooshz_platform.Db.Statements.{Database}
use swooshz_platform.Db.AuthStates.{
  max_persisted_auth_states, bounded_store, new_state_row, consume_state_row,
}
use swooshz_platform.Db.AuthStates.Once.{
  store_state, consume_state, perform_states, begin, consume_state-once,
}
use swooshz_platform.Db.AuthStates.Bound.{store_state-bound}
use swooshz_platform.Auth.Resolver.{
  AuthProviderIdentity, AuthenticatedPlatformIdentityInput, AuthCallbackPlatformIdentityResolution,
}
use swooshz_platform.Auth.Callback.{
  OidcTokenExchangeInput, OidcTokenExchangeResult, OidcVerifyTokensInput, AuthCallbackServiceInput,
  AuthCallbackServiceResult, handle_auth_callback,
}
use swooshz_platform.Auth.Callback.Proper.{
  IsExpected, finish_sign_in, handle_auth_callback-IsExpected,
}
use swooshz_platform.Tests.ListDriver.{list_driver}
use swooshz_platform.Tests.Samples.{platform, ada_session}

abbrev begun : String → StoredAuthState
begun hash = record {
  provider_key = "swooshz";
  state_hash = hash;
  nonce_hash = "nonce-1";
  redirect_uri = "https://platform.test/api/platform/auth/callback";
  created_at = at 40;
  expires_at = at 640;
}

abbrev waiting : Database
waiting = record platform { auth_states = new_state_row (begun "state-1") ∷ [] }

abbrev finished : Database
finished = record platform {
  auth_states = consume_state_row (at 50) (new_state_row (begun "state-1")) ∷ [];
}

abbrev begun_again : Database
begun_again = record platform { auth_states = new_state_row (begun "state-2") ∷ [] }

abbrev lookup : AuthStateLookupInput
lookup = record { provider_key = "swooshz"; state_hash = "state-1"; now = at 50 }

store_run : store_state list_driver (begun "state-1") platform ≡ (ok (begun "state-1"), waiting)
unfolding bounded_store ◌>>=◌
store_run = refl

store_state-bound_example : length waiting.auth_states ≤ max_persisted_auth_states
store_state-bound_example =
    store_state-bound list_driver (begun "state-1") (begun "state-1") platform waiting store_run

consume_run : consume_state list_driver lookup waiting ≡ (ok (some (begun "state-1")), finished)
unfolding ◌>>=◌
consume_run = refl

consume_again_run :
    consume_state list_driver
      (record lookup { now = at 60 })
      (perform_states list_driver (begin (begun "state-2") ∷ []) finished)
    ≡ (ok none, begun_again)
unfolding perform_states bounded_store ◌>>=◌
consume_again_run = refl

consume_state-once_example : ◌≡◌ {A = Option StoredAuthState} none none
consume_state-once_example =
    consume_state-once list_driver lookup (begun "state-1") waiting finished consume_run
      (begin (begun "state-2") ∷ []) refl (at 60) none begun_again consume_again_run

abbrev same_letters : String → String
same_letters s = s

abbrev plain_reference : String → Outcome String
plain_reference s = ok s

abbrev tokens : OidcTokenExchangeInput → Io Database OidcTokenExchangeResult
tokens input =
    pure (record { provider_key = "swooshz"; received_at = input.now; expires_at = none })

abbrev identity_of_ada : AuthProviderIdentity
identity_of_ada = record {
  provider_key = "swooshz";
  provider_subject = "subject-ada";
  verified_email = none;
  display_name = none;
  metadata = [];
}

abbrev verified : OidcVerifyTokensInput → Io Database AuthProviderIdentity
verified input = pure identity_of_ada

abbrev resolution : AuthCallbackPlatformIdentityResolution
resolution = record {
  platform_user_id = "user-ada";
  provider_identity_id = "identity-ada";
  session = ada_session;
  workspace_membership_granted = none;
}

abbrev resolved :
    AuthenticatedPlatformIdentityInput → Io Database AuthCallbackPlatformIdentityResolution
resolved input = pure resolution

abbrev coming_back : AuthCallbackServiceInput
coming_back = record {
  params = record { code_value = some "code-1"; state = some "state-1"; error = none };
  now = at 50;
}

abbrev result : AuthCallbackServiceResult
result = record {
  platform_user_id = "user-ada";
  provider_identity = record {
    id = "identity-ada";
    provider_key = "swooshz";
    provider_subject = "subject-ada";
  };
  session = ada_session;
  verified_email = none;
  display_name = none;
  workspace_membership_granted = false;
  app_access_granted = false;
}

callback_run :
    finish_sign_in list_driver same_letters "swooshz" plain_reference tokens verified resolved
      coming_back waiting
    ≡ (ok result, finished)
unfolding handle_auth_callback trim trim_start trim_end is_blank ◌>>=◌
callback_run = refl

handle_auth_callback-IsExpected_example : IsExpected "swooshz" plain_reference coming_back waiting
handle_auth_callback-IsExpected_example =
    handle_auth_callback-IsExpected list_driver same_letters "swooshz" plain_reference tokens
      verified resolved coming_back result waiting finished callback_run
