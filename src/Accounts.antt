-- ===== src/Accounts.antt =====
-- src/accounts/types.ts and src/apps/types.ts: users, workspaces, memberships, sessions, audit events,
-- apps and entitlements.
--
-- A status or role read from a request is a text that the type checker takes for one of the union's
-- members. `unsupported` stands for all texts outside the union of roles, which `assertValidRole`
-- guards against.
use swooshz_platform.Base.{String, Bool, true, false, Option, List}
use swooshz_platform.Time.{Timestamp}

pub data UserStatus : Type 0 where
  active invited disabled : UserStatus

pub data WorkspaceStatus : Type 0 where
  active suspended archived : WorkspaceStatus

pub data MembershipStatus : Type 0 where
  active disabled : MembershipStatus

pub data Role : Type 0 where
  admin operator viewer unsupported : Role

pub data AppStatus : Type 0 where
  available private_preview disabled : AppStatus

pub data EntitlementStatus : Type 0 where
  enabled disabled trial suspended : EntitlementStatus

pub record User : Type 0 where
  pub id : String
  pub email : String
  pub display_name : String
  pub status : UserStatus
  pub created_at : Timestamp
  pub updated_at : Timestamp
  pub last_login_at : Option Timestamp

pub record Workspace : Type 0 where
  pub id : String
  pub slug : String
  pub display_name : String
  pub status : WorkspaceStatus
  pub created_at : Timestamp
  pub updated_at : Timestamp

pub record Membership : Type 0 where
  pub id : String
  pub workspace_id : String
  pub user_id : String
  pub role : Role
  pub status : MembershipStatus
  pub created_at : Timestamp
  pub updated_at : Timestamp

pub record Session : Type 0 where
  pub id : String
  pub user_id : String
  pub created_at : Timestamp
  pub expires_at : Timestamp
  pub last_seen_at : Timestamp
  pub revoked_at : Option Timestamp

-- A value of `metadata: Record<string, unknown>`; a number by its JSON text.
pub data MetadataValue : Type 0 where
  null : MetadataValue
  text : String → MetadataValue
  number : String → MetadataValue
  flag : Bool → MetadataValue
  structure : MetadataValue

pub record AuditEvent : Type 0 where
  pub id : String
  pub workspace_id : Option String
  pub actor_user_id : Option String
  pub event_type : String
  pub target_type : String
  pub target_id : String
  pub created_at : Timestamp
  pub metadata : List (String × MetadataValue)

pub record App : Type 0 where
  pub id : String
  pub key : String
  pub name : String
  pub status : AppStatus
  pub launch_url : Option String
  pub created_at : Timestamp
  pub updated_at : Timestamp

pub record AppEntitlement : Type 0 where
  pub id : String
  pub workspace_id : String
  pub app_id : String
  pub status : EntitlementStatus
  pub granted_by_user_id : Option String
  pub created_at : Timestamp
  pub updated_at : Timestamp

-- `user.status === UserStatus.Active`
abbrev pub user_is_active : UserStatus → Bool
user_is_active UserStatus.active = true
user_is_active _ = false

abbrev pub workspace_is_active : WorkspaceStatus → Bool
workspace_is_active WorkspaceStatus.active = true
workspace_is_active _ = false

abbrev pub membership_is_active : MembershipStatus → Bool
membership_is_active MembershipStatus.active = true
membership_is_active MembershipStatus.disabled = false

abbrev pub is_admin : Role → Bool
is_admin admin = true
is_admin _ = false
