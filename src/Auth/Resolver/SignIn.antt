-- ===== src/Auth/Resolver/SignIn.antt =====
-- `resolveAuthenticatedIdentity` and `resolvePendingApprovedIdentity` of
-- src/auth/platform-identity-resolver.ts.
use swooshz_platform.Base.{String, true, not, Option, none, some, List, [], ◌∷◌, if◌then◌else◌}
use swooshz_platform.Errors.{auth_callback, invalid_platform_identity_state}
use swooshz_platform.Io.{Io, pure, throw, required, rescue, catching, ◌>>=◌, ◌>>◌}
use swooshz_platform.Accounts.{Membership, membership_is_active}
use swooshz_platform.Ports.{
  ProviderIdentity, WorkspaceMembershipApprovalRecord, WorkspaceRepository, MembershipRepository,
  WorkspaceMembershipApprovalRepository, PlatformRepositories, WorkspaceAdminTransactionRepository,
}
use swooshz_platform.Auth.Resolver.{
  AuthenticatedPlatformIdentityInput, AuthCallbackPlatformIdentityResolution,
  PlatformIdentitySessionResolverRepositories, PlatformIdentityFactories,
  sign_in_approval_required_error, link_failed, acceptance_error_of, read_verified_email, is_closed,
  given_or,
}
use swooshz_platform.Auth.Resolver.Approved.{
  needed, assert_user_can_create_session, create_session, create_provider_identity,
  find_or_create_pending_approved_user, assert_approvals_can_be_accepted, accept_each,
}

-- `{ ...dependencies.repositories, ...transactionRepositories }`
abbrev pub with_transaction :
    {S : Type 0}
    → PlatformIdentitySessionResolverRepositories S
    → PlatformRepositories S
    → PlatformIdentitySessionResolverRepositories S
with_transaction r t = record {
  users = t.users;
  provider_identities = elim t.provider_identities [ none ↦ r.provider_identities | some p ↦ p ];
  sessions = t.sessions;
  workspaces = some t.workspaces;
  memberships = some t.memberships;
  membership_approvals = given_or t.membership_approvals r.membership_approvals;
  audit_events = given_or t.audit_events r.audit_events;
}

module _ {S : Type 0} where
  -- The loop of `assertUserHasActiveWorkspaceMembership`: it returns at the first active membership in
  -- an active workspace.
  abbrev pub find_active_membership : WorkspaceRepository S → List Membership → Io S (Unit {0})
  find_active_membership workspaces [] = throw sign_in_approval_required_error
  find_active_membership workspaces (m ∷ ms) =
      let rest = find_active_membership workspaces ms in
      if not (membership_is_active m.status) then rest else do
        workspace ← rescue link_failed (workspaces.find_by_id m.workspace_id)
        if is_closed workspace then rest else pure tt

  abbrev pub assert_member_of :
      Option (MembershipRepository S) → Option (WorkspaceRepository S) → String → Io S (Unit {0})
  assert_member_of (some memberships) (some workspaces) user_id = do
    user_memberships ← rescue link_failed (memberships.list_for_user user_id)
    find_active_membership workspaces user_memberships
  assert_member_of (some memberships) none user_id = throw sign_in_approval_required_error
  assert_member_of none workspaces user_id = throw sign_in_approval_required_error

module _ {S : Type 0} (factories : PlatformIdentityFactories S) where
  module _ (r : PlatformIdentitySessionResolverRepositories S) where
    abbrev pub assert_user_has_active_workspace_membership : String → Io S (Unit {0})
    assert_user_has_active_workspace_membership = assert_member_of r.memberships r.workspaces

    abbrev pub resolve_known_identity :
        ProviderIdentity
        → AuthenticatedPlatformIdentityInput
        → Io S AuthCallbackPlatformIdentityResolution
    resolve_known_identity identity input = do
      found ← rescue link_failed (r.users.find_by_id identity.user_id)
      user ← required (auth_callback invalid_platform_identity_state) found
      assert_user_can_create_session user
      assert_user_has_active_workspace_membership user.id
      session ← create_session r factories user.id input
      pure (record {
        platform_user_id = user.id;
        provider_identity_id = identity.id;
        session = session;
        workspace_membership_granted = none;
      })

    -- The transaction from the list of approvals on; there is none to accept, or all of them are.
    abbrev pub accept_approvals :
        List WorkspaceMembershipApprovalRecord
        → AuthenticatedPlatformIdentityInput
        → String
        → Io S (Option AuthCallbackPlatformIdentityResolution)
    accept_approvals [] input verified_email = pure none
    accept_approvals (a ∷ rest) input verified_email = do
      assert_approvals_can_be_accepted r factories (a ∷ rest) verified_email
      user ← find_or_create_pending_approved_user r factories input verified_email
      linked ← create_provider_identity r factories user.id input
      accept_each r factories (a ∷ rest) user input
      session ← create_session r factories user.id input
      pure (
          some (record {
            platform_user_id = user.id;
            provider_identity_id = linked.id;
            session = session;
            workspace_membership_granted = some true;
          }))

    abbrev pub accept_pending :
        AuthenticatedPlatformIdentityInput
        → String
        → Io S (Option AuthCallbackPlatformIdentityResolution)
    accept_pending input verified_email = do
      approvals ← needed r.membership_approvals
      list ← approvals.list_pending_for_email verified_email
      accept_approvals list input verified_email

  module _ (to_lower_case : String → String) (r : PlatformIdentitySessionResolverRepositories S)
      (transactions : Option (WorkspaceAdminTransactionRepository S)) where
    abbrev pub resolve_in_transaction :
        Option (WorkspaceAdminTransactionRepository S)
        → Option (WorkspaceMembershipApprovalRepository S)
        → AuthenticatedPlatformIdentityInput
        → String
        → Io S (Option AuthCallbackPlatformIdentityResolution)
    resolve_in_transaction (some t) (some approvals) input verified_email =
        catching acceptance_error_of (
          t.run
            (λ repositories. accept_pending (with_transaction r repositories) input verified_email))
    resolve_in_transaction (some t) none input verified_email = pure none
    resolve_in_transaction none approvals input verified_email = pure none

    abbrev pub resolve_for_email :
        Option String
        → AuthenticatedPlatformIdentityInput
        → Io S (Option AuthCallbackPlatformIdentityResolution)
    resolve_for_email none input = pure none
    resolve_for_email (some verified_email) input =
        resolve_in_transaction transactions r.membership_approvals input verified_email

    unfoldable pub resolve_pending_approved_identity :
        AuthenticatedPlatformIdentityInput → Io S (Option AuthCallbackPlatformIdentityResolution)
    resolve_pending_approved_identity input =
        resolve_for_email (read_verified_email to_lower_case input.identity.verified_email) input

    abbrev pub resolve_unless_known :
        Option ProviderIdentity
        → AuthenticatedPlatformIdentityInput
        → Io S AuthCallbackPlatformIdentityResolution
    resolve_unless_known (some identity) input = resolve_known_identity r identity input
    resolve_unless_known none input = do
      resolution ← resolve_pending_approved_identity input
      required sign_in_approval_required_error resolution

    unfoldable pub resolve_authenticated_identity :
        AuthenticatedPlatformIdentityInput → Io S AuthCallbackPlatformIdentityResolution
    resolve_authenticated_identity input = do
      found ← rescue link_failed (
          r.provider_identities.find_by_provider_subject input.identity.provider_key
            input.identity.provider_subject)
      resolve_unless_known found input
