-- ===== src/Services/Admin/Refines/Parts.antt =====
-- Triples for the parts that the admin operations share: the lock, the target, the sessions that a
-- change ends and the audit event, and the step that they make up.
use swooshz_platform.Base.{
  ◌≡◌, refl, ap, String, not, some, List, ◌∷◌, Memᴰ, Permᴰ, filter, mem-perm, mem-filter, find,
  find-some, any, head?, eq_of_==, ◌==◌,
}
use swooshz_platform.Time.{Timestamp}
use swooshz_platform.Errors.{admin, repository_failure, plain}
use swooshz_platform.Io.{
  Io, Ensures, pure, ensures_read, ensures_found, ensures_unless, ensures_pure, ensures_required,
  ensures_bind, ensures_known, ensures_if, ◌>>=◌, ◌>>◌,
}
use swooshz_platform.Accounts.{Membership, AuditEvent, membership_is_active}
use swooshz_platform.Driver.{Driver}
use swooshz_platform.Db.Statements.{Database, audit_events_clash}
use swooshz_platform.Db.Apps.{drizzle_audit_events}
use swooshz_platform.Db.Identity.{active_session_of, revoke_row}
use swooshz_platform.Db.Triples.{ensures_ask, ensures_write}
use swooshz_platform.Db.Repositories.{drizzle_repositories}
use swooshz_platform.Services.Admin.{
  WorkspaceAdminInput, AdminContext, find_target_membership, is_supported_role,
  require_admin_context, require_audit_repository, append_audit_event,
  revoke_sessions_without_active_memberships,
}
use swooshz_platform.Services.Admin.Step.{MembershipStep}
use swooshz_platform.Services.Admin.Authorized.{CanAdminister, require_admin_context-CanAdminister}

-- A step of an admin: authorized on the tables before it, confined to the memberships of the
-- workspace, and written to the audit log in the admin's name, as an event of one of the types.
pub record AdminStep (input : WorkspaceAdminInput) (types : String → Type 0) (db db' : Database)
    : Type 0 where
  pub context : AdminContext
  pub authorized : CanAdminister db input context
  pub event : AuditEvent
  pub event_actor : event.actor_user_id ≡ some context.actor.id
  pub event_workspace : event.workspace_id ≡ some input.workspace_id
  pub event_time : event.created_at ≡ input.now
  pub event_type : types event.event_type
  pub memberships :
      MembershipStep input.workspace_id context.actor.id db.memberships db'.memberships
  pub logged : Permᴰ db'.audit_events (event ∷ db.audit_events)
  pub users : db'.users ≡ db.users
  pub workspaces : db'.workspaces ≡ db.workspaces

-- The parts of the database that ending sessions leaves alone.
pub record SameButSessions (db t : Database) : Type 0 where
  pub users : t.users ≡ db.users
  pub workspaces : t.workspaces ≡ db.workspaces
  pub memberships : t.memberships ≡ db.memberships
  pub audit_events : t.audit_events ≡ db.audit_events

module _ (memberships : List Membership) (id : String) where
  -- The target is a membership of the list, with the id that was asked for.
  pub ensures_target_membership :
      {S : Type 0} {s : S}
      → Ensures
          (find_target_membership memberships id)
          s
          (λ m t. (t ≡ s) × (Memᴰ m memberships × (m.id ≡ id)))
  ensures_target_membership {s = s} =
      ensures_found _ (find (λ m. m.id == id) memberships) λ target found.
        ensures_unless (not (is_supported_role target.role)) _ _ λ _.
          let (there, same) = find-some (λ (m : Membership). m.id == id) memberships found in
          ensures_pure (refl, (there, eq_of_== _ _ same))

module _ (d : Driver) where
  pub ensures_lock :
      (id : String) (db : Database)
      → Ensures
          ((drizzle_repositories d).workspaces.lock_for_admin_mutation id)
          db
          (λ _ t. (t ≡ db) × Unit {0})
  ensures_lock id db =
      ensures_read (ensures_ask (λ s. d.select_one (λ w. w.id == id) s.workspaces) db)
        λ row e. ensures_found _ row λ w j. ensures_pure (refl, tt)

  pub ensures_revoke_sessions :
      (user_id : String) (now : Timestamp) (db : Database)
      → Ensures
          (revoke_sessions_without_active_memberships (drizzle_repositories d) user_id now)
          db
          (λ _ t. SameButSessions db t)
  ensures_revoke_sessions user_id now db =
      ensures_read (ensures_ask (λ s. d.select (λ m. m.user_id == user_id) s.memberships) db)
        λ remaining e.
          ensures_if (any (λ m. membership_is_active m.status) remaining) _ _
            (λ _.
              ensures_pure (record {
                users = refl;
                workspaces = refl;
                memberships = refl;
                audit_events = refl;
              }))
            (λ _.
              ensures_bind
                (ensures_write (λ rows b. record b { sessions = rows })
                  (λ s. d.update (active_session_of user_id) (revoke_row now) s.sessions) db)
                λ rows t (table, w, e). ensures_pure (record {
                  users = ap (λ (b : Database). b.users) e;
                  workspaces = ap (λ (b : Database). b.workspaces) e;
                  memberships = ap (λ (b : Database). b.memberships) e;
                  audit_events = ap (λ (b : Database). b.audit_events) e;
                }))

  pub ensures_audit :
      (event : AuditEvent) (db : Database)
      → Ensures (append_audit_event (drizzle_repositories d) event) db (λ _ t.
        (rows : List AuditEvent) × Permᴰ rows (event ∷ db.audit_events)
        × (t ≡ record db { audit_events = rows }))
  ensures_audit event db = ensures_known (admin repository_failure) (drizzle_audit_events d) _ (
      ensures_bind
        (ensures_bind
          (ensures_write (λ rows b. record b { audit_events = rows })
            (λ s. d.insert audit_events_clash event s.audit_events) db)
          λ rows t (table, w, e). ensures_required plain (head? rows) λ _ _.
            let (_, logged, _) =
              d.insert_rows audit_events_clash event db.audit_events rows table w in
            (table, logged, e))
        λ _ t q. ensures_pure q)

  -- What the operations on a membership have in common: the authorization, the lock and the target.
  pub ensures_target :
      {B : Type 0} {Q : B → Database → Type 0} (input : WorkspaceAdminInput) (id : String)
      (db : Database) (rest : AdminContext → List Membership → Membership → Io Database B)
      → ((context : AdminContext) (listed : List Membership) (target : Membership)
          → CanAdminister db input context
          → Permᴰ listed (filter (λ m. m.workspace_id == input.workspace_id) db.memberships)
          → Memᴰ target db.memberships
          → target.workspace_id ≡ input.workspace_id
          → target.id ≡ id
          → Ensures (rest context listed target) db Q)
      → Ensures
          (require_admin_context (drizzle_repositories d) input >>= λ context.
            (drizzle_repositories d).workspaces.lock_for_admin_mutation input.workspace_id
            >> (require_audit_repository (drizzle_repositories d) >>= λ _.
                ((drizzle_repositories d).memberships.list_for_workspace input.workspace_id
                  >>= λ listed.
                      (find_target_membership listed id >>= λ target. rest context listed target))))
          db
          Q
  ensures_target input id db rest k =
      ensures_read (require_admin_context-CanAdminister d db input) λ context can.
        ensures_read (ensures_lock input.workspace_id db) λ _ _.
          ensures_found (admin repository_failure) (drizzle_repositories d).audit_events λ _ _.
            ensures_read
              (ensures_ask (λ s. d.select (λ m. m.workspace_id == input.workspace_id) s.memberships)
                db)
              λ listed e.
                ensures_read {P = λ m. Memᴰ m listed × (m.id ≡ id)}
                  (ensures_target_membership listed id)
                  λ target (there, same).
                    let rows =
                      d.select_rows (λ m. m.workspace_id == input.workspace_id) db.memberships
                        listed e in
                    let (here, in_workspace) =
                      mem-filter (λ (m : Membership). m.workspace_id == input.workspace_id)
                        db.memberships (mem-perm rows there) in
                    k context listed target can rows here (eq_of_== _ _ in_workspace) same

  -- The end of an operation: its event is written, and the step is complete.
  pub ensures_logged :
      {A : Type 0} {types : String → Type 0} (input : WorkspaceAdminInput) (context : AdminContext)
      (event : AuditEvent) (value : A) (db t : Database)
      → CanAdminister db input context
      → (event.actor_user_id ≡ some context.actor.id)
        × ((event.workspace_id ≡ some input.workspace_id) × (event.created_at ≡ input.now))
      → types event.event_type
      → MembershipStep input.workspace_id context.actor.id db.memberships t.memberships
      → t.audit_events ≡ db.audit_events
      → t.users ≡ db.users
      → t.workspaces ≡ db.workspaces
      → Ensures
          (append_audit_event (drizzle_repositories d) event >> pure value)
          t
          (λ _ db'. AdminStep input types db db')
  ensures_logged input context event value db t can of_event type step log us ws =
      ensures_bind (ensures_audit event t) λ _ db' (rows, logged, e). ensures_pure (record {
        context = context;
        authorized = can;
        event = event;
        event_actor = of_event.0;
        event_workspace = of_event.1.0;
        event_time = of_event.1.1;
        event_type = type;
        memberships = rw e step;
        logged = rw (e, ← log) logged;
        users = rw e us;
        workspaces = rw e ws;
      })
