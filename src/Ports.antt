-- ===== src/Ports.antt =====
-- src/platform/repositories.ts: the records of the platform's tables, and the repository ports behind
-- which the services reach them. A port's methods are actions over the state `S` that they share.
use swooshz_platform.Base.{ℕ, String, Option, List}
use swooshz_platform.Time.{Timestamp}
use swooshz_platform.Io.{Io}
use swooshz_platform.Accounts.{
  User, Workspace, Membership, MembershipStatus, Role, Session, App, AppEntitlement,
  EntitlementStatus, AuditEvent,
}

pub record ProviderIdentity : Type 0 where
  pub id : String
  pub user_id : String
  pub provider_key : String
  pub provider_subject : String
  pub created_at : Timestamp
  pub updated_at : Timestamp

pub data WorkspaceMembershipApprovalStatus : Type 0 where
  pending accepted revoked : WorkspaceMembershipApprovalStatus

pub record WorkspaceMembershipApprovalRecord : Type 0 where
  pub id : String
  pub workspace_id : String
  pub email : String
  pub role : Role
  pub status : WorkspaceMembershipApprovalStatus
  pub requested_by_user_id : Option String
  pub created_at : Timestamp
  pub updated_at : Timestamp
  pub accepted_at : Option Timestamp
  pub revoked_at : Option Timestamp
  pub accepted_user_id : Option String
  pub revoked_by_user_id : Option String

-- A field of type `T | null` that may be left out: `none` is `undefined`.
pub record WorkspaceMembershipApprovalStatusTimestamps : Type 0 where
  pub updated_at : Timestamp
  pub accepted_at : Option (Option Timestamp)
  pub revoked_at : Option (Option Timestamp)
  pub accepted_user_id : Option (Option String)
  pub revoked_by_user_id : Option (Option String)

pub record AppLaunchTokenRecord : Type 0 where
  pub id : String
  pub session_id : String
  pub user_id : String
  pub workspace_id : String
  pub app_id : String
  pub token_hash : String
  pub created_at : Timestamp
  pub expires_at : Timestamp
  pub consumed_at : Option Timestamp
  pub revoked_at : Option Timestamp

pub record AccessValidationGrantRecord : Type 0 where
  pub id : String
  pub session_id : String
  pub user_id : String
  pub workspace_id : String
  pub app_id : String
  pub intended_origin : String
  pub launch_token_expires_at : Timestamp
  pub handle_hash : Option String
  pub created_at : Timestamp
  pub handle_expires_at : Option Timestamp
  pub consumed_at : Option Timestamp
  pub revoked_at : Option Timestamp

pub record MembershipRemovalTarget : Type 0 where
  pub id : String
  pub workspace_id : String
  pub user_id : String
  pub role : Role
  pub status : MembershipStatus

pub record UserRepository (S : Type 0) : Type 0 where
  pub find_by_id : String → Io S (Option User)
  pub find_by_normalized_email : String → Io S (Option User)
  pub create : User → Io S User

pub record ProviderIdentityRepository (S : Type 0) : Type 0 where
  pub find_by_provider_subject : String → String → Io S (Option ProviderIdentity)
  pub list_for_user : String → Io S (List ProviderIdentity)
  pub create : ProviderIdentity → Io S ProviderIdentity

pub record SessionRepository (S : Type 0) : Type 0 where
  pub find_by_id : String → Io S (Option Session)
  pub create : Session → Io S Session
  pub revoke : String → Timestamp → Io S (Option Session)
  pub revoke_active_for_user : String → Timestamp → Io S (List Session)

pub record WorkspaceRepository (S : Type 0) : Type 0 where
  pub find_by_id : String → Io S (Option Workspace)
  pub find_by_slug : String → Io S (Option Workspace)
  pub lock_for_admin_mutation : String → Io S (Unit {0})
  pub create : Workspace → Io S Workspace

pub record MembershipRepository (S : Type 0) : Type 0 where
  pub find_for_user_in_workspace : String → String → Io S (Option Membership)
  pub list_for_user : String → Io S (List Membership)
  pub list_for_workspace : String → Io S (List Membership)
  pub create : Membership → Io S Membership
  pub update_role : String → Role → Timestamp → Io S (Option Membership)
  pub update_status : String → MembershipStatus → Timestamp → Io S (Option Membership)
  pub remove_if_current_target : MembershipRemovalTarget → Io S (Option Membership)

pub record WorkspaceMembershipApprovalRepository (S : Type 0) : Type 0 where
  pub find_by_id : String → Io S (Option WorkspaceMembershipApprovalRecord)
  pub find_pending_for_workspace_email :
      String → String → Io S (Option WorkspaceMembershipApprovalRecord)
  pub list_pending_for_email : String → Io S (List WorkspaceMembershipApprovalRecord)
  pub list_pending_for_workspace : String → Io S (List WorkspaceMembershipApprovalRecord)
  pub create : WorkspaceMembershipApprovalRecord → Io S WorkspaceMembershipApprovalRecord
  pub update_pending_status :
      String
      → WorkspaceMembershipApprovalStatus
      → WorkspaceMembershipApprovalStatusTimestamps
      → Io S (Option WorkspaceMembershipApprovalRecord)

pub record AppRepository (S : Type 0) : Type 0 where
  pub find_by_key : String → Io S (Option App)
  pub find_by_id : String → Io S (Option App)
  pub list_all : Io S (List App)
  pub create : App → Io S App

pub record AppEntitlementRepository (S : Type 0) : Type 0 where
  pub find_for_workspace_app : String → String → Io S (Option AppEntitlement)
  pub list_for_workspace : String → Io S (List AppEntitlement)
  pub create : AppEntitlement → Io S AppEntitlement
  pub update_status :
      String → EntitlementStatus → Option String → Timestamp → Io S (Option AppEntitlement)

pub record AuditEventRepository (S : Type 0) : Type 0 where
  pub append : AuditEvent → Io S AuditEvent
  pub list_for_workspace : String → ℕ → Io S (List AuditEvent)

pub record AppLaunchTokenRepository (S : Type 0) : Type 0 where
  pub create : AppLaunchTokenRecord → Io S AppLaunchTokenRecord
  pub find_by_token_hash : String → Io S (Option AppLaunchTokenRecord)
  pub consume_unconsumed : String → Timestamp → Io S (Option AppLaunchTokenRecord)

pub record AccessValidationGrantRepository (S : Type 0) : Type 0 where
  pub create : AccessValidationGrantRecord → Io S AccessValidationGrantRecord
  pub find_by_id : String → Io S (Option AccessValidationGrantRecord)
  pub register_handle : String → String → Timestamp → Io S (Option AccessValidationGrantRecord)
  pub consume_by_handle_hash : String → Timestamp → Io S (Option AccessValidationGrantRecord)
  pub revoke : String → Timestamp → Io S (Option AccessValidationGrantRecord)

-- The launch tokens and the grants, which only some services take, are arguments of their own.
pub record PlatformRepositories (S : Type 0) : Type 0 where
  pub users : UserRepository S
  pub provider_identities : Option (ProviderIdentityRepository S)
  pub sessions : SessionRepository S
  pub workspaces : WorkspaceRepository S
  pub memberships : MembershipRepository S
  pub membership_approvals : Option (WorkspaceMembershipApprovalRepository S)
  pub apps : AppRepository S
  pub app_entitlements : AppEntitlementRepository S
  pub audit_events : Option (AuditEventRepository S)

-- `WorkspaceAdminTransactionRepository`: it hands the operation the repositories of the transaction.
pub record WorkspaceAdminTransactionRepository (S : Type 0) : Type 1 where
  pub run : {A : Type 0} → (PlatformRepositories S → Io S A) → Io S A
