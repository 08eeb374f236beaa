-- ===== src/Tests/Admin.antt =====
-- The admin service: one admin disables a viewer and removes it again.
use swooshz_platform.Base.{
  ◌≡◌, refl, String, ◌==◌, [], ◌∷◌, Bool-cases, inl, inr, eq_of_==, arith, List, length,
}
use swooshz_platform.Time.{at}
use swooshz_platform.Io.{Outcome, ok, thrown, ◌>>=◌}
use swooshz_platform.Errors.{admin, last_admin_required}
use swooshz_platform.Accounts.{Membership, MembershipStatus, viewer}
use swooshz_platform.Db.Statements.{Database}
use swooshz_platform.Db.Repositories.{
  IsAtomic, IsRetried, run-IsRetried, run_attempts, drizzle_repositories, drizzle_transactions,
}
use swooshz_platform.Services.Admin.{WorkspaceAdminInput, require_admin_context}
use swooshz_platform.Services.Admin.Members.{
  WorkspaceMembershipInput, disabling, removal, disable_workspace_membership,
  remove_workspace_membership,
}
use swooshz_platform.Services.Admin.Step.{HasUniqueIds, HasActiveAdmin}
use swooshz_platform.Services.Admin.Commands.{
  AdminCommand, disable, remove, perform, perform_all, IsSettled,
}
use swooshz_platform.Services.Admin.History.{perform-IsSettled}
use swooshz_platform.Services.Admin.Invariant.{perform_all-HasActiveAdmin}
use swooshz_platform.Services.Admin.Log.{IsLogged, perform_all-IsLogged}
use swooshz_platform.Tests.ListDriver.{list_driver, contended_driver}
use swooshz_platform.Tests.Samples.{ada_membership, platform}

abbrev bob_membership : Membership
bob_membership = record {
  id = "membership-bob";
  workspace_id = "workspace-acme";
  user_id = "user-bob";
  role = viewer;
  status = MembershipStatus.active;
  created_at = at 10;
  updated_at = at 10;
}

abbrev staffed : Database
staffed = record platform { memberships = ada_membership ∷ bob_membership ∷ [] }

abbrev by_ada : WorkspaceAdminInput
by_ada = record { session_id = "session-ada"; workspace_id = "workspace-acme"; now = at 50 }

abbrev dismissal : WorkspaceMembershipInput
dismissal = record { base = by_ada; membership_id = "membership-bob"; audit_event_id = "event-1" }

abbrev farewell : WorkspaceMembershipInput
farewell = record { base = by_ada; membership_id = "membership-bob"; audit_event_id = "event-2" }

abbrev resignation : WorkspaceMembershipInput
resignation = record { base = by_ada; membership_id = "membership-ada"; audit_event_id = "event-3" }

abbrev lower : String → String
lower email = email

abbrev after : AdminCommand → Outcome (Unit {0}) × Database
after c = perform list_driver lower c staffed

staffed-HasUniqueIds : HasUniqueIds staffed.memberships
staffed-HasUniqueIds k = elim (Bool-cases ("membership-ada" == k)) [
  | inl e ↦ rw (← (eq_of_== "membership-ada" k e)) (omega arith)
  | inr e ↦ rw e (ground arith)
]

disabled_run : (after (disable dismissal)).0 ≡ ok tt
unfolding disable_workspace_membership disabling run_attempts require_admin_context ◌>>=◌
disabled_run = refl

perform-IsSettled_example :
    IsSettled staffed
      (disable dismissal)
      (after (disable dismissal)).0
      (after (disable dismissal)).1
perform-IsSettled_example =
    perform-IsSettled list_driver lower staffed (disable dismissal) (after (disable dismissal)).0
      (after (disable dismissal)).1 refl

-- An admin cannot disable itself.
resigned_run : (after (disable resignation)).0 ≡ thrown (admin last_admin_required)
unfolding disable_workspace_membership disabling run_attempts require_admin_context ◌>>=◌
resigned_run = refl

abbrev history : List AdminCommand
history = disable dismissal ∷ remove farewell ∷ disable resignation ∷ []

perform_all-HasActiveAdmin_example :
    HasUniqueIds (perform_all list_driver lower history staffed).memberships
    × ((v : String)
        → HasActiveAdmin v staffed.memberships
        → HasActiveAdmin v (perform_all list_driver lower history staffed).memberships)
perform_all-HasActiveAdmin_example =
    perform_all-HasActiveAdmin list_driver lower history staffed staffed-HasUniqueIds

-- Of three commands two return, and the log has their events.
perform_all-IsLogged_example :
    IsLogged list_driver lower history staffed (perform_all list_driver lower history staffed)
perform_all-IsLogged_example = perform_all-IsLogged list_driver lower history staffed

logged_run : length (perform_all list_driver lower history staffed).audit_events ≡ 2
unfolding perform_all remove_workspace_membership removal disable_workspace_membership disabling
    run_attempts require_admin_context ◌>>=◌
logged_run = refl

-- The first attempt fails and the second one commits.
abbrev attempt : Outcome Membership × Database
attempt = (drizzle_transactions contended_driver).run (disabling dismissal) staffed

attempt_run : attempt.1.audit_events ≡ (after (disable dismissal)).1.audit_events
unfolding disable_workspace_membership disabling run_attempts require_admin_context ◌>>=◌
attempt_run = refl

run-IsRetried_example :
    IsRetried contended_driver 0 2
      (disabling dismissal (drizzle_repositories contended_driver))
      staffed
      attempt.0
      attempt.1
    × IsAtomic
        (disabling dismissal (drizzle_repositories contended_driver))
        staffed
        attempt.0
        attempt.1
run-IsRetried_example =
    run-IsRetried contended_driver (disabling dismissal) staffed attempt.1 attempt.0 refl
