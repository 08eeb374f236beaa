-- ===== src/Auth/Resolver.antt =====
-- src/auth/platform-identity-resolver.ts: an identity that the provider verified gets a session, if it
-- is known and belongs to a workspace, or if its email was approved.
pub mod Approved
pub mod SignIn
pub mod Stored
pub mod Admitted
pub mod Undone
use swooshz_platform.Base.{
  ℕ, ◌+◌, ◌-◌, suc, String, Bool, true, false, not, ◌&&◌, ◌||◌, Option, none, some, is_some, List,
  [], ◌∷◌, filter, leb, ◌==◌, if◌then◌else◌,
}
use swooshz_platform.Base.Text.{trim, is_empty}
use swooshz_platform.Time.{
  Timestamp, at, malformed, Seconds, pos, negsuc, not_finite, to_iso_string,
}
use swooshz_platform.Errors.{
  Exn, range_error, auth_callback, AuthCallbackError, provider_identity_link_failed,
  onboarding_approval_required, invalid_platform_identity_state, user_not_active,
  membership_approval_acceptance_failed, session_creation_failed,
}
use swooshz_platform.Io.{Io, pure, throw, required, rescue, catching, ◌>>=◌, ◌>>◌}
use swooshz_platform.Accounts.{
  User, UserStatus, Membership, MembershipStatus, Session, AuditEvent, Role, MetadataValue, text,
  user_is_active, workspace_is_active, membership_is_active, is_admin, Workspace, unsupported,
}
use swooshz_platform.Ports.{
  ProviderIdentity, WorkspaceMembershipApprovalRecord, accepted, UserRepository,
  ProviderIdentityRepository, SessionRepository, WorkspaceRepository, MembershipRepository,
  WorkspaceMembershipApprovalRepository, AuditEventRepository, PlatformRepositories,
  WorkspaceAdminTransactionRepository,
}
use swooshz_platform.Db.Statements.{is_pending}
use swooshz_platform.Services.Admin.{is_supported_role}
use swooshz_platform.Services.Admin.Approvals.{no_identities, normalize_email}

-- `AuthProviderIdentity` of src/auth/oidc.ts
pub record AuthProviderIdentity : Type 0 where
  pub provider_key : String
  pub provider_subject : String
  pub verified_email : Option String
  pub display_name : Option String
  pub metadata : List (String × MetadataValue)

pub record AuthStateReference : Type 0 where
  pub provider_key : String
  pub state_hash : String
  pub nonce_hash : String

pub record AuthenticatedPlatformIdentityInput : Type 0 where
  pub identity : AuthProviderIdentity
  pub state_reference : AuthStateReference
  pub now : Timestamp

pub record AuthCallbackPlatformIdentityResolution : Type 0 where
  pub platform_user_id : String
  pub provider_identity_id : String
  pub session : Session
  pub workspace_membership_granted : Option Bool

-- The repository of transactions is an argument of its own.
pub record PlatformIdentitySessionResolverRepositories (S : Type 0) : Type 0 where
  pub users : UserRepository S
  pub provider_identities : ProviderIdentityRepository S
  pub sessions : SessionRepository S
  pub workspaces : Option (WorkspaceRepository S)
  pub memberships : Option (MembershipRepository S)
  pub membership_approvals : Option (WorkspaceMembershipApprovalRepository S)
  pub audit_events : Option (AuditEventRepository S)

-- `ProviderIdentityIdFactoryInput` has the same fields.
pub record SessionIdFactoryInput : Type 0 where
  pub user_id : String
  pub provider_key : String
  pub provider_subject : String
  pub now : Timestamp

pub record UserIdFactoryInput : Type 0 where
  pub provider_key : String
  pub provider_subject : String
  pub verified_email : String
  pub now : Timestamp

-- `MembershipApprovalAuditEventIdFactoryInput` has the same fields.
pub record MembershipIdFactoryInput : Type 0 where
  pub approval_id : String
  pub user_id : String
  pub workspace_id : String
  pub now : Timestamp

-- The factories of ids, and how long a session lasts, in milliseconds.
pub record PlatformIdentityFactories (S : Type 0) : Type 0 where
  pub session_id_factory : SessionIdFactoryInput → Io S String
  pub user_id_factory : UserIdFactoryInput → Io S String
  pub provider_identity_id_factory : SessionIdFactoryInput → Io S String
  pub membership_id_factory : Option (MembershipIdFactoryInput → Io S String)
  pub audit_event_id_factory : Option (MembershipIdFactoryInput → Io S String)
  pub session_duration_ms : Seconds

abbrev pub sign_in_approval_required_error : Exn
sign_in_approval_required_error = auth_callback onboarding_approval_required

abbrev pub membership_approval_acceptance_error : Exn
membership_approval_acceptance_error = auth_callback membership_approval_acceptance_failed

abbrev pub link_failed : Exn
link_failed = auth_callback provider_identity_link_failed

-- `new Date(Date.parse(timestamp) + milliseconds).toISOString()`; `none` is its `RangeError`.
abbrev pub add_milliseconds : Timestamp → Seconds → Option Timestamp
add_milliseconds (at ms) (pos n) = to_iso_string (ms + n)
add_milliseconds (at ms) (negsuc n) = if leb (suc n) ms then to_iso_string (ms - suc n) else none
add_milliseconds (at ms) not_finite = none
add_milliseconds malformed n = none

-- The error that leaves the transaction.
abbrev pub acceptance_error_of : Exn → Exn
acceptance_error_of (auth_callback onboarding_approval_required) =
    auth_callback onboarding_approval_required
acceptance_error_of _ = membership_approval_acceptance_error

abbrev pub non_empty : String → Option String
non_empty s = if is_empty s then none else some s

abbrev pub read_verified_email : (String → String) → Option String → Option String
read_verified_email to_lower_case none = none
read_verified_email to_lower_case (some value) =
    if is_empty value then none else non_empty (normalize_email to_lower_case value)

-- `displayName?.trim() || verifiedEmail`
abbrev pub display_name_or : String → Option String → String
display_name_or email none = email
display_name_or email (some name) = if is_empty (trim name) then email else trim name

-- An approval that no one asked for lets the first admin in.
abbrev pub is_bootstrap : WorkspaceMembershipApprovalRecord → Bool
is_bootstrap a = is_admin a.role && not (is_some a.requested_by_user_id)

abbrev pub is_only : String → List WorkspaceMembershipApprovalRecord → Bool
is_only id (a ∷ []) = a.id == id
is_only id _ = false

abbrev pub is_nothing : List Membership → Bool
is_nothing [] = true
is_nothing (_ ∷ _) = false

-- The last test of an approval.
abbrev pub is_unacceptable :
    WorkspaceMembershipApprovalRecord
    → List Membership
    → List WorkspaceMembershipApprovalRecord
    → Bool
is_unacceptable a memberships pending =
    if is_bootstrap a && is_nothing memberships
    then not (is_only a.id (filter is_bootstrap pending))
    else not (is_some a.requested_by_user_id) || not (is_supported_role a.role)

abbrev pub is_settled : WorkspaceMembershipApprovalRecord → Bool
is_settled a = not (is_pending a.status) || (is_some a.revoked_at || is_some a.accepted_at)

abbrev pub is_closed : Option Workspace → Bool
is_closed none = true
is_closed (some w) = not (workspace_is_active w.status)

abbrev pub given_or {ℓ} : {A : Type ℓ} → Option A → Option A → Option A
given_or (some a) other = some a
given_or none other = other
