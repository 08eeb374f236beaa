-- ===== src/Errors.antt =====
-- The error classes of the services with their codes (the `...ServiceError` and `Auth...Error`
-- classes at the top of the services).
pub data ProtectedAccessError : Type 0 where
  session_lookup_failed app_access_decision_failed : ProtectedAccessError

pub data LaunchIntentError : Type 0 where
  access_decision_failed app_lookup_failed invalid_expiry launch_token_factory_failed :
      LaunchIntentError
  launch_token_hash_failed launch_token_store_failed : LaunchIntentError

pub data LaunchConsumeError : Type 0 where
  launch_token_hash_failed launch_token_lookup_failed context_lookup_failed : LaunchConsumeError
  access_decision_failed launch_token_consume_failed : LaunchConsumeError

pub data CsrfServiceError : Type 0 where
  invalid_session invalid_expiry token_factory_failed token_hash_failed token_store_failed :
      CsrfServiceError

pub data AuthSessionError : Type 0 where
  session_lookup_failed session_revocation_failed : AuthSessionError

pub data AuthConfigError : Type 0 where
  missing_required_env invalid_provider_key invalid_url session_secret_too_short : AuthConfigError
  invalid_allowed_email invalid_allowed_domain : AuthConfigError

pub data AuthProviderError : Type 0 where
  invalid_verified_identity provider_verification_failed : AuthProviderError

pub data AuthCallbackError : Type 0 where
  provider_error missing_code missing_state missing_stored_state expired_state : AuthCallbackError
  provider_identity_rejected email_not_allowed domain_not_allowed : AuthCallbackError
  onboarding_approval_required verified_email_required provider_identity_link_failed :
      AuthCallbackError
  membership_approval_acceptance_failed session_creation_failed user_not_active : AuthCallbackError
  invalid_platform_identity_state : AuthCallbackError

pub data SessionContextError : Type 0 where
  context_lookup_failed : SessionContextError

pub data AdminError : Type 0 where
  not_authorized not_found invalid_role invalid_entitlement_status membership_conflict : AdminError
  approval_conflict last_admin_required self_change_not_allowed repository_failure : AdminError

-- What a call may throw: an error of one of the classes, the driver's serialization failure (SQL
-- state 40001), or any other error.
pub data Exn : Type 0 where
  plain range_error serialization_failure : Exn
  protected_access : ProtectedAccessError → Exn
  launch_intent : LaunchIntentError → Exn
  launch_consume : LaunchConsumeError → Exn
  admin : AdminError → Exn
  csrf_service : CsrfServiceError → Exn
  auth_session : AuthSessionError → Exn
  auth_callback : AuthCallbackError → Exn
  auth_config : AuthConfigError → Exn
  auth_provider : AuthProviderError → Exn
  session_context : SessionContextError → Exn
