-- ===== src/Auth/Resolver/Approved.antt =====
-- The parts of src/auth/platform-identity-resolver.ts that sign in an identity whose email was approved:
-- its approvals are tested and accepted, and it is linked to a user.
use swooshz_platform.Base.{
  String, Bool, not, Option, none, some, is_some, List, [], ◌∷◌, if◌then◌else◌,
}
use swooshz_platform.Time.{Timestamp}
use swooshz_platform.Errors.{range_error, auth_callback, user_not_active, session_creation_failed}
use swooshz_platform.Io.{Io, pure, throw, required, rescue, ◌>>=◌, ◌>>◌}
use swooshz_platform.Accounts.{
  User, UserStatus, MembershipStatus, Session, AuditEvent, text, user_is_active,
}
use swooshz_platform.Ports.{
  ProviderIdentity, WorkspaceMembershipApprovalRecord, accepted, WorkspaceRepository,
  MembershipRepository, WorkspaceMembershipApprovalRepository,
}
use swooshz_platform.Services.Admin.{role_text}
use swooshz_platform.Services.Admin.Approvals.{no_identities}
use swooshz_platform.Auth.Resolver.{
  AuthenticatedPlatformIdentityInput, PlatformIdentitySessionResolverRepositories,
  SessionIdFactoryInput, MembershipIdFactoryInput, PlatformIdentityFactories,
  membership_approval_acceptance_error, link_failed, add_milliseconds, display_name_or,
  is_unacceptable, is_settled, is_closed,
}

abbrev pub session_factory_input :
    String → AuthenticatedPlatformIdentityInput → SessionIdFactoryInput
session_factory_input user_id input = record {
  user_id = user_id;
  provider_key = input.identity.provider_key;
  provider_subject = input.identity.provider_subject;
  now = input.now;
}

abbrev pub membership_factory_input :
    WorkspaceMembershipApprovalRecord → User → Timestamp → MembershipIdFactoryInput
membership_factory_input approval user now = record {
  approval_id = approval.id;
  user_id = user.id;
  workspace_id = approval.workspace_id;
  now = now;
}

abbrev pub accepted_event :
    String → WorkspaceMembershipApprovalRecord → User → Timestamp → AuditEvent
accepted_event id approval user now = record {
  id = id;
  workspace_id = some approval.workspace_id;
  actor_user_id = some user.id;
  event_type = "workspace.membership_approval.accepted";
  target_type = "membership_approval";
  target_id = approval.id;
  created_at = now;
  metadata =
      ("newRole", role_text approval.role)
      ∷ ("newStatus", text "active")
      ∷ ("targetUserId", text user.id)
      ∷ ("source", text "provider_backed_sign_in")
      ∷ [];
}

-- A repository or a factory that the acceptance cannot do without.
abbrev pub needed : {S A : Type 0} → Option A → Io S A
needed o = required membership_approval_acceptance_error o

abbrev pub refuse_acceptance : {S : Type 0} → Bool → Io S (Unit {0})
refuse_acceptance refused = if refused then throw membership_approval_acceptance_error else pure tt

abbrev pub assert_user_can_create_session : {S : Type 0} → User → Io S (Unit {0})
assert_user_can_create_session user =
    if not (user_is_active user.status) then throw (auth_callback user_not_active) else pure tt

module _ {S : Type 0} (r : PlatformIdentitySessionResolverRepositories S)
    (factories : PlatformIdentityFactories S) where
  abbrev pub find_user_by_normalized_email_safely : String → Io S (Option User)
  find_user_by_normalized_email_safely email =
      rescue link_failed (r.users.find_by_normalized_email email)

  abbrev pub create_session : String → AuthenticatedPlatformIdentityInput → Io S Session
  create_session user_id input = do
    id ← factories.session_id_factory (session_factory_input user_id input)
    expires_at ← required range_error (add_milliseconds input.now factories.session_duration_ms)
    rescue (auth_callback session_creation_failed) (
        r.sessions.create (record {
          id = id;
          user_id = user_id;
          created_at = input.now;
          expires_at = expires_at;
          last_seen_at = input.now;
          revoked_at = none;
        }))

  abbrev pub create_provider_identity :
      String → AuthenticatedPlatformIdentityInput → Io S ProviderIdentity
  create_provider_identity user_id input = rescue link_failed do
    id ← factories.provider_identity_id_factory (session_factory_input user_id input)
    r.provider_identities.create (record {
      id = id;
      user_id = user_id;
      provider_key = input.identity.provider_key;
      provider_subject = input.identity.provider_subject;
      created_at = input.now;
      updated_at = input.now;
    })

  abbrev pub create_new_user : AuthenticatedPlatformIdentityInput → String → Io S User
  create_new_user input verified_email = rescue link_failed do
    id ← factories.user_id_factory (record {
      provider_key = input.identity.provider_key;
      provider_subject = input.identity.provider_subject;
      verified_email = verified_email;
      now = input.now;
    })
    r.users.create (record {
      id = id;
      email = verified_email;
      display_name = display_name_or verified_email input.identity.display_name;
      status = UserStatus.active;
      created_at = input.now;
      updated_at = input.now;
      last_login_at = some input.now;
    })

  abbrev pub create_user_for_new_provider_identity :
      AuthenticatedPlatformIdentityInput → String → Io S User
  create_user_for_new_provider_identity input verified_email = do
    existing ← find_user_by_normalized_email_safely verified_email
    if is_some existing then throw link_failed else create_new_user input verified_email

  abbrev pub link_existing_user : User → Io S User
  link_existing_user user = do
    assert_user_can_create_session user
    identities ← r.provider_identities.list_for_user user.id
    if not (no_identities identities) then throw link_failed else pure user

  abbrev pub user_or_new : AuthenticatedPlatformIdentityInput → String → Option User → Io S User
  user_or_new input verified_email none = create_user_for_new_provider_identity input verified_email
  user_or_new input verified_email (some user) = link_existing_user user

  abbrev pub find_or_create_pending_approved_user :
      AuthenticatedPlatformIdentityInput → String → Io S User
  find_or_create_pending_approved_user input verified_email = do
    existing ← find_user_by_normalized_email_safely verified_email
    user_or_new input verified_email existing

  abbrev pub refuse_if_member : MembershipRepository S → String → Option User → Io S (Unit {0})
  refuse_if_member memberships workspace_id none = pure tt
  refuse_if_member memberships workspace_id (some user) = do
    found ← memberships.find_for_user_in_workspace user.id workspace_id
    refuse_acceptance (is_some found)

  -- One round of the loop of `assertApprovalsCanBeAccepted`.
  abbrev pub assert_approval_can_be_accepted :
      WorkspaceRepository S
      → MembershipRepository S
      → WorkspaceMembershipApprovalRepository S
      → String
      → WorkspaceMembershipApprovalRecord
      → Io S (Unit {0})
  assert_approval_can_be_accepted workspaces memberships approvals verified_email a = do
    refuse_acceptance (is_settled a)
    workspace ← workspaces.find_by_id a.workspace_id
    refuse_acceptance (is_closed workspace)
    members ← memberships.list_for_workspace a.workspace_id
    waiting ← approvals.list_pending_for_workspace a.workspace_id
    refuse_acceptance (is_unacceptable a members waiting)
    existing ← find_user_by_normalized_email_safely verified_email
    refuse_if_member memberships a.workspace_id existing

  abbrev pub assert_each :
      WorkspaceRepository S
      → MembershipRepository S
      → WorkspaceMembershipApprovalRepository S
      → String
      → List WorkspaceMembershipApprovalRecord
      → Io S (Unit {0})
  assert_each workspaces memberships approvals verified_email [] = pure tt
  assert_each workspaces memberships approvals verified_email (a ∷ rest) = do
    assert_approval_can_be_accepted workspaces memberships approvals verified_email a
    assert_each workspaces memberships approvals verified_email rest

  abbrev pub assert_approvals_can_be_accepted :
      List WorkspaceMembershipApprovalRecord → String → Io S (Unit {0})
  assert_approvals_can_be_accepted list verified_email = do
    workspaces ← needed r.workspaces
    memberships ← needed r.memberships
    approvals ← needed r.membership_approvals
    assert_each workspaces memberships approvals verified_email list

  abbrev pub accept_pending_approval :
      WorkspaceMembershipApprovalRecord
      → User
      → AuthenticatedPlatformIdentityInput
      → Io S (Unit {0})
  accept_pending_approval approval user input = do
    memberships ← needed r.memberships
    approvals ← needed r.membership_approvals
    audit_events ← needed r.audit_events
    membership_id_factory ← needed factories.membership_id_factory
    audit_event_id_factory ← needed factories.audit_event_id_factory
    id ← membership_id_factory (membership_factory_input approval user input.now)
    _ ← memberships.create (record {
      id = id;
      workspace_id = approval.workspace_id;
      user_id = user.id;
      role = approval.role;
      status = MembershipStatus.active;
      created_at = input.now;
      updated_at = input.now;
    })
    updated ← approvals.update_pending_status approval.id accepted (record {
      updated_at = input.now;
      accepted_at = some (some input.now);
      revoked_at = none;
      accepted_user_id = some (some user.id);
      revoked_by_user_id = none;
    })
    refuse_acceptance (not (is_some updated))
    event_id ← audit_event_id_factory (membership_factory_input approval user input.now)
    _ ← audit_events.append (accepted_event event_id approval user input.now)
    pure tt

  abbrev pub accept_each :
      List WorkspaceMembershipApprovalRecord
      → User
      → AuthenticatedPlatformIdentityInput
      → Io S (Unit {0})
  accept_each [] user input = pure tt
  accept_each (a ∷ rest) user input = do
    accept_pending_approval a user input
    accept_each rest user input
