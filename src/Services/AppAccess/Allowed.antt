-- ===== src/Services/AppAccess/Allowed.antt =====
-- When the protected decision lets a session launch an app.
use swooshz_platform.Base.{
  ◌≡◌, ◌↔◌, ◌⊎◌, ap, String, Bool, true, false, Option, none, some, is_some, find, count_mono, inl,
  inr, Bool-cases, arith, ◌==◌,
}
use swooshz_platform.Base.Text.{is_empty}
use swooshz_platform.Time.{Timestamp, at, malformed, at_or_before, is_after}
use swooshz_platform.Io.{ok, Outcome-cases, ◌>>=◌}
use swooshz_platform.Accounts.{Session}
use swooshz_platform.Access.{
  DecideAppAccessInput, selected, is_session_usable, decide_app_access, is_active_membership_of,
}
use swooshz_platform.Access.Sound.{CanLaunch, HasUniqueRows, decide_app_access_iff}
use swooshz_platform.Driver.{Driver}
use swooshz_platform.Db.Statements.{Database}
use swooshz_platform.Db.Keyed.{IsKeyed, is_membership_of, select_one-eq-find}
use swooshz_platform.Db.Repositories.{drizzle_repositories}
use swooshz_platform.Services.AppAccess.{
  ProtectedAppAccessDecisionInput, ProtectedAppAccessDecisionResult, allowed, denied,
  decide_platform_app_access, gate_session, decide_protected_app_access,
  DecidePlatformAppAccessInput,
}
use swooshz_platform.Services.AppAccess.Tables.{
  session_row, whole_tables, member_of_active, decide_platform_app_access-eq,
}

abbrev pub was_allowed : ProtectedAppAccessDecisionResult → Bool
was_allowed (allowed a) = true
was_allowed (denied reason decision) = false

-- The input that the protected decision hands on.
abbrev pub platform_input : ProtectedAppAccessDecisionInput → DecidePlatformAppAccessInput
platform_input input = record {
  session_id = some input.session_id;
  selected_workspace_id = some input.selected_workspace_id;
  app_key = input.app_key;
  now = input.now;
  billing_gate = input.billing_gate;
}

abbrev pub launch_tables : Database → ProtectedAppAccessDecisionInput → DecideAppAccessInput
launch_tables db input = whole_tables db (platform_input input)

pub HasUniqueRows-of_IsKeyed :
    (db : Database) (input : DecidePlatformAppAccessInput)
    → IsKeyed db
    → HasUniqueRows (whole_tables db input)
HasUniqueRows-of_IsKeyed db input k = record {
  memberships = λ u w. omega (
    arith,
    count_mono (is_active_membership_of u w) (is_membership_of u w) db.memberships
        (member_of_active u w),
    k.membership_users u w,
  );
  workspaces = k.workspace_ids;
  apps = k.app_keys;
  entitlements = k.entitlements;
}

not_both : (a b : Timestamp) → at_or_before a b ≡ true → is_after a b ≡ false
not_both (at a) (at b) h = ground arith
not_both (at a) malformed h = ground arith
not_both malformed b h = ground arith

unusable_denied :
    (i : DecideAppAccessInput) (s : Session)
    → (i.session ≡ none) ⊎ (i.session ≡ some s)
    → is_session_usable s i.now ≡ false
    → (decide_app_access i).allowed ≡ false
unfolding decide_app_access
unusable_denied i s h u = ground arith

no_session_denied :
    (i : DecideAppAccessInput) → i.session ≡ none → (decide_app_access i).allowed ≡ false
unfolding decide_app_access
no_session_denied i h = rw h

-- A revoked session, or one that has expired, is not usable.
not_usable :
    (s : Session) (now : Timestamp)
    → (is_some s.revoked_at ≡ true) ⊎ (at_or_before s.expires_at now ≡ true)
    → is_session_usable s now ≡ false
not_usable s now (inl h) = rw h
not_usable s now (inr h) = ground (arith, not_both s.expires_at now)

row_of_select :
    (db : Database) (id : String) (o : Option Session)
    → find (λ s. s.id == id) db.sessions ≡ o
    → (session_row db (selected (some id)) ≡ none) ⊎ (session_row db (selected (some id)) ≡ o)
row_of_select db id o h = elim (Bool-cases (is_empty id)) [
  | inl e ↦ inl (rw e)
  | inr e ↦ inr (rw e h)
]

module _ (d : Driver) (db : Database) (keyed : IsKeyed db) where
  abbrev Agrees :
      ProtectedAppAccessDecisionInput → ProtectedAppAccessDecisionResult → Database → Type 0
  Agrees input r db' =
      (db' ≡ db) × (was_allowed r ≡ (decide_app_access (launch_tables db input)).allowed)

  -- The session passed the gate, and the decision was made.
  decided :
      (input : ProtectedAppAccessDecisionInput) (s : Session) (r : ProtectedAppAccessDecisionResult)
      (db' : Database)
      → is_some s.revoked_at ≡ false
      → at_or_before s.expires_at input.now ≡ false
      → gate_session (drizzle_repositories d) input s db ≡ (ok r, db')
      → Agrees input r db'
  unfolding ◌>>=◌
  decided input s r db' kept live h =
      let (o, db'') =
        decide_platform_app_access (drizzle_repositories d) (platform_input input) db in
      elim (Outcome-cases o) [
        | inr (x, p) ↦ ground arith
        | inl (decision, p) ↦
            let (same, eq) =
              decide_platform_app_access-eq d db keyed (platform_input input) decision db''
                (ap (λ v. (v, db'')) p) in
            ground arith
      ]

  gate_session-Agrees :
      (input : ProtectedAppAccessDecisionInput) (s : Session) (r : ProtectedAppAccessDecisionResult)
      (db' : Database)
      → ((launch_tables db input).session ≡ none) ⊎ ((launch_tables db input).session ≡ some s)
      → gate_session (drizzle_repositories d) input s db ≡ (ok r, db')
      → Agrees input r db'
  unfolding ◌>>=◌
  gate_session-Agrees input s r db' row h = elim (Bool-cases (is_some s.revoked_at)) [
    | inl revoked ↦ ground (
      arith,
      unusable_denied (launch_tables db input) s row (not_usable s input.now (inl revoked)),
    )
    | inr kept ↦ elim (Bool-cases (at_or_before s.expires_at input.now)) [
      | inl expired ↦ ground (
        arith,
        unusable_denied (launch_tables db input) s row (not_usable s input.now (inr expired)),
      )
      | inr live ↦ decided input s r db' kept live h
    ]
  ]

  decide_protected_app_access-Agrees :
      (input : ProtectedAppAccessDecisionInput) (r : ProtectedAppAccessDecisionResult)
      (db' : Database)
      → decide_protected_app_access (drizzle_repositories d) input db ≡ (ok r, db')
      → Agrees input r db'
  unfolding decide_protected_app_access
  decide_protected_app_access-Agrees input r db' h =
      let is_s = λ (s : Session). s.id == input.session_id in
      let found = λ (o : Option Session).
        select_one-eq-find d is_s db.sessions o (keyed.session_ids input.session_id) in
      elim (Outcome-cases (d.select_one is_s db.sessions)) [
        | inr (x, p) ↦ ground arith
        | inl (none, p) ↦
            let nothing = row_of_select db input.session_id none (found none p) in
            ground (arith, no_session_denied (launch_tables db input))
        | inl (some s, p) ↦
            gate_session-Agrees input s r db'
              (row_of_select db input.session_id (some s) (found (some s) p)) (ground arith)
      ]

  -- Over the Drizzle repositories, and given the unique indexes, the protected decision, where no lookup
  -- throws, changes nothing and allows the launch exactly when the tables hold a usable session of an
  -- active user, an active membership of that user in a launch role, an active workspace, an open app
  -- and a launchable entitlement that belong together, and no billing gate blocks.
  pub decide_protected_app_access_iff :
      (input : ProtectedAppAccessDecisionInput) (r : ProtectedAppAccessDecisionResult)
      (db' : Database)
      → decide_protected_app_access (drizzle_repositories d) input db ≡ (ok r, db')
      → (db' ≡ db) × ((was_allowed r ≡ true) ↔ CanLaunch (launch_tables db input))
  decide_protected_app_access_iff input r db' h =
      let (same, eq) = decide_protected_app_access-Agrees input r db' h in
      (
        same,
        rw eq (
            decide_app_access_iff (launch_tables db input)
              (HasUniqueRows-of_IsKeyed db (platform_input input) keyed)),
      )
