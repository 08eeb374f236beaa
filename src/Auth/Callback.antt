-- ===== src/Auth/Callback.antt =====
-- src/auth/callback.ts and src/auth/callback-service.ts: the end of a sign-in. The adapter of the provider
-- is reached over the network, so that its two calls are ports.
pub mod Proper
use swooshz_platform.Base.{
  String, Bool, true, false, not, ◌&&◌, ◌||◌, Option, none, some, ◌==◌, if◌then◌else◌, leb,
}
use swooshz_platform.Base.Text.{trim, is_empty, is_blank}
use swooshz_platform.Time.{Timestamp, at_or_before}
use swooshz_platform.Errors.{
  auth_callback, provider_error, missing_code, missing_state, missing_stored_state, expired_state,
  auth_config, invalid_provider_key, auth_provider, invalid_verified_identity,
}
use swooshz_platform.Io.{Io, pure, throw, ◌>>=◌, ◌>>◌}
use swooshz_platform.Accounts.{Session}
use swooshz_platform.AuthStates.{StoredAuthState, AuthStateLookupInput}
use swooshz_platform.Http.Patterns.{is_code, every_code, char_count}
use swooshz_platform.Services.Admin.Approvals.{normalize_email}
use swooshz_platform.Auth.Resolver.{
  AuthProviderIdentity, AuthStateReference, AuthenticatedPlatformIdentityInput,
  AuthCallbackPlatformIdentityResolution,
}
use Prim.Native.Char.{Char, code}

pub record AuthCallbackParams : Type 0 where
  pub code_value : String
  pub state : String

-- `error_description` and `errorDescription` are never read.
pub record RawAuthCallbackParams : Type 0 where
  pub code_value : Option String
  pub state : Option String
  pub error : Option String

pub record OidcTokenExchangeInput : Type 0 where
  pub provider_key : String
  pub code_value : String
  pub redirect_uri : String
  pub now : Timestamp

-- `tokenSetRef` is always `adapter_internal`.
pub record OidcTokenExchangeResult : Type 0 where
  pub provider_key : String
  pub received_at : Timestamp
  pub expires_at : Option Timestamp

pub record OidcVerifyTokensInput : Type 0 where
  pub provider_key : String
  pub token_exchange : OidcTokenExchangeResult
  pub expected_nonce_hash : Option String

-- `OidcVerifiedIdentity` has the fields of `AuthProviderIdentity`.
pub record AuthCallbackServiceDependencies (S : Type 0) : Type 0 where
  pub provider_key : String
  pub exchange_code_for_tokens : OidcTokenExchangeInput → Io S OidcTokenExchangeResult
  pub verify_tokens : OidcVerifyTokensInput → Io S AuthProviderIdentity
  pub consume_state : AuthStateLookupInput → Io S (Option StoredAuthState)
  pub state_reference_factory : String → Io S String
  pub resolve_authenticated_identity :
      AuthenticatedPlatformIdentityInput → Io S AuthCallbackPlatformIdentityResolution

pub record AuthCallbackServiceInput : Type 0 where
  pub params : RawAuthCallbackParams
  pub now : Timestamp

pub record AuthCallbackProviderIdentityResult : Type 0 where
  pub id : String
  pub provider_key : String
  pub provider_subject : String

pub record AuthCallbackServiceResult : Type 0 where
  pub platform_user_id : String
  pub provider_identity : AuthCallbackProviderIdentityResult
  pub session : Session
  pub verified_email : Option String
  pub display_name : Option String
  pub workspace_membership_granted : Bool
  pub app_access_granted : Bool

-- `value?.trim()`, where an empty text counts as none
abbrev pub trimmed : Option String → Option String
trimmed none = none
trimmed (some v) = if is_blank v then none else some (trim v)

-- A value that is there and not empty.
abbrev pub is_set : Option String → Bool
is_set none = false
is_set (some v) = not (is_empty v)

abbrev pub params_of : {S : Type 0} → Option String → Option String → Io S AuthCallbackParams
params_of none state = throw (auth_callback missing_code)
params_of (some code_value) none = throw (auth_callback missing_state)
params_of (some code_value) (some state) = pure (record { code_value = code_value; state = state })

abbrev pub parse_auth_callback_params :
    {S : Type 0} → RawAuthCallbackParams → Io S AuthCallbackParams
parse_auth_callback_params params =
    if is_set params.error
    then throw (auth_callback provider_error)
    else params_of (trimmed params.code_value) (trimmed params.state)

-- `assertStoredStateUsable`
abbrev pub assert_stored_state_usable :
    {S : Type 0} → Option StoredAuthState → String → String → Timestamp → Io S StoredAuthState
assert_stored_state_usable none provider_key state_hash now =
    throw (auth_callback missing_stored_state)
assert_stored_state_usable (some s) provider_key state_hash now =
    if not (s.provider_key == provider_key) || not (s.state_hash == state_hash)
    then throw (auth_callback missing_stored_state)
    else if at_or_before s.expires_at now
    then throw (auth_callback expired_state)
    else pure s

abbrev pub is_lower_letter : Char → Bool
is_lower_letter c = leb b'a' (code c) && leb (code c) b'z'

-- `/^[a-z][a-z0-9-]{1,63}$/`
abbrev pub is_provider_key : String → Bool
is_provider_key String.[] = false
is_provider_key (String.◌∷◌ c rest) =
    is_lower_letter c
    && (every_code
          (λ k. (leb b'a' k && leb k b'z') || ((leb b'0' k && leb k b'9') || is_code b'-' k)) rest
        && (leb 1 (char_count rest) && leb (char_count rest) 63))

abbrev pub verified_email_of : (String → String) → Option String → Option String
verified_email_of to_lower_case none = none
verified_email_of to_lower_case (some email) =
    if is_empty email then none else some (normalize_email to_lower_case email)

module _ {S : Type 0} (to_lower_case : String → String) where
  abbrev pub normalize_provider_key : String → Io S String
  normalize_provider_key value =
      let normalized = to_lower_case (trim value) in
      if not (is_provider_key normalized)
      then throw (auth_config invalid_provider_key)
      else pure normalized

  abbrev pub create_auth_provider_identity : AuthProviderIdentity → Io S AuthProviderIdentity
  create_auth_provider_identity identity = do
    provider_key ← normalize_provider_key identity.provider_key
    if is_blank identity.provider_subject
        then throw (auth_provider invalid_verified_identity)
        else pure (record {
          provider_key = provider_key;
          provider_subject = trim identity.provider_subject;
          verified_email = verified_email_of to_lower_case identity.verified_email;
          display_name = trimmed identity.display_name;
          metadata = identity.metadata;
        })

  module _ (deps : AuthCallbackServiceDependencies S) where
    abbrev pub callback_result :
        AuthProviderIdentity → AuthCallbackPlatformIdentityResolution → AuthCallbackServiceResult
    callback_result identity resolution = record {
      platform_user_id = resolution.platform_user_id;
      provider_identity = record {
        id = resolution.provider_identity_id;
        provider_key = identity.provider_key;
        provider_subject = identity.provider_subject;
      };
      session = resolution.session;
      verified_email = identity.verified_email;
      display_name = identity.display_name;
      workspace_membership_granted = elim resolution.workspace_membership_granted [
        | none ↦ false
        | some b ↦ b
      ];
      app_access_granted = false;
    }

    -- From the stored state on.
    abbrev pub finish_callback :
        AuthCallbackParams → Timestamp → StoredAuthState → Io S AuthCallbackServiceResult
    finish_callback params now stored = do
      token_exchange ← deps.exchange_code_for_tokens (record {
        provider_key = deps.provider_key;
        code_value = params.code_value;
        redirect_uri = stored.redirect_uri;
        now = now;
      })
      verified ← deps.verify_tokens (record {
        provider_key = deps.provider_key;
        token_exchange = token_exchange;
        expected_nonce_hash = some stored.nonce_hash;
      })
      identity ← create_auth_provider_identity verified
      resolution ← deps.resolve_authenticated_identity (record {
        identity = identity;
        state_reference = record {
          provider_key = stored.provider_key;
          state_hash = stored.state_hash;
          nonce_hash = stored.nonce_hash;
        };
        now = now;
      })
      pure (callback_result identity resolution)

    unfoldable pub handle_auth_callback : AuthCallbackServiceInput → Io S AuthCallbackServiceResult
    handle_auth_callback input = do
      params ← parse_auth_callback_params input.params
      state_hash ← deps.state_reference_factory params.state
      found ←
          deps.consume_state
            (record { provider_key = deps.provider_key; state_hash = state_hash; now = input.now })
      stored ← assert_stored_state_usable found deps.provider_key state_hash input.now
      finish_callback params input.now stored
