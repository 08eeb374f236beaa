-- ===== src/Services/Admin/Log.antt =====
-- What the operations of src/platform/workspace-admin-service.ts write to the audit log.
use mathlib.Core.Path.{subst}
use mathlib.Core.List.Permᴰ
use swooshz_platform.Base.{◌≡◌, refl, String, some, List, [], ◌∷◌, ◌++◌, Permᴰ}
use swooshz_platform.Errors.{AdminError, admin}
use swooshz_platform.Io.{Outcome, ok, thrown}
use swooshz_platform.Accounts.{AuditEvent}
use swooshz_platform.Driver.{Driver}
use swooshz_platform.Db.Statements.{Database}
use swooshz_platform.Services.Admin.{AdminContext}
use swooshz_platform.Services.Admin.Authorized.{CanAdminister}
use swooshz_platform.Services.Admin.Commands.{
  AdminCommand, admin_input, HasTypeOf, IsSettled, perform, perform_all,
}
use swooshz_platform.Services.Admin.History.{perform-IsSettled}

-- The event that a command leaves: of a user who may administer the workspace on the tables before it,
-- for that workspace, at the time of the call and of the command's type.
pub record IsEventOf (c : AdminCommand) (db : Database) (e : AuditEvent) : Type 0 where
  pub context : AdminContext
  pub authorized : CanAdminister db (admin_input c) context
  pub actor : e.actor_user_id ≡ some context.actor.id
  pub workspace : e.workspace_id ≡ some (admin_input c).workspace_id
  pub time : e.created_at ≡ (admin_input c).now
  pub type : HasTypeOf c e.event_type

module _ (d : Driver) (to_lower_case : String → String) where
  -- The events that commands leave, the first one first: one for each command that returns, none for
  -- one that throws.
  pub data Logs : List AdminCommand → Database → List AuditEvent → Type 0 where
    ended : {db : Database} → Logs [] db []
    written :
        {c : AdminCommand} {cs : List AdminCommand} {db t : Database} {e : AuditEvent}
        {es : List AuditEvent}
        → perform d to_lower_case c db ≡ (ok tt, t)
        → IsEventOf c db e
        → Logs cs t es
        → Logs (c ∷ cs) db (e ∷ es)
    refused :
        {c : AdminCommand} {cs : List AdminCommand} {db : Database} {es : List AuditEvent}
        → (code : AdminError) → perform d to_lower_case c db ≡ (thrown (admin code), db)
        → Logs cs db es
        → Logs (c ∷ cs) db es

  abbrev pub IsLogged : List AdminCommand → Database → Database → Type 0
  IsLogged cs db db' =
      (es : List AuditEvent) × Logs cs db es × Permᴰ db'.audit_events (es ++ db.audit_events)

  command-IsLogged :
      (c : AdminCommand) (cs : List AdminCommand) (db t db' : Database) (r : Outcome (Unit {0}))
      → perform d to_lower_case c db ≡ (r, t)
      → IsSettled db c r t
      → IsLogged cs t db'
      → IsLogged (c ∷ cs) db db'
  command-IsLogged c cs db t db' (ok a) h s (es, logs, p) = (
    s.event ∷ es,
    written h
        (record {
          context = s.context;
          authorized = s.authorized;
          actor = s.event_actor;
          workspace = s.event_workspace;
          time = s.event_time;
          type = s.event_type;
        })
        logs,
    Permᴰ.trans p
        (Permᴰ.trans (Permᴰ.append_left es s.logged) (Permᴰ.middle s.event es db.audit_events)),
  )
  command-IsLogged c cs db t db' (thrown e) h (same, (code, is_code)) (es, logs, p) = (
    es,
    refused code (rw (← is_code, h, same) refl) (subst (λ u. Logs cs u es) same logs),
    subst (λ (u : Database). Permᴰ db'.audit_events (es ++ u.audit_events)) same p,
  )

  -- The audit log is complete under sequences of operations of the admin service, whoever calls them
  -- and in whatever order: at the end it holds what it held at the start and, for each operation that
  -- returned, exactly one event of its type, of a user who was authorized on the tables before it, for
  -- the workspace and with the time of the call. An operation that threw has left no event and no change.
  pub perform_all-IsLogged :
      (cs : List AdminCommand) (db : Database) → IsLogged cs db (perform_all d to_lower_case cs db)
  unfolding perform_all
  perform_all-IsLogged [] db = ([], ended, Permᴰ.refl db.audit_events)
  perform_all-IsLogged (c ∷ cs) db =
      let (r, t) = perform d to_lower_case c db in
      command-IsLogged c cs db t (perform_all d to_lower_case cs t) r refl
        (perform-IsSettled d to_lower_case db c r t refl) (perform_all-IsLogged cs t)
