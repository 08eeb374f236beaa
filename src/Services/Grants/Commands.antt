-- ===== src/Services/Grants/Commands.antt =====
-- The service of src/platform/access-validation-grant-service.ts on the database, as commands. What the
-- factory of ids and the hasher of handles give is part of the input: they do not touch the database.
use swooshz_platform.Base.{String, Option, Bool, List, [], ◌∷◌}
use swooshz_platform.Time.{Timestamp}
use swooshz_platform.Io.{Outcome, Io}
use swooshz_platform.Driver.{Driver}
use swooshz_platform.Ports.{AppLaunchTokenRecord}
use swooshz_platform.Db.Statements.{Database}
use swooshz_platform.Db.Apps.{drizzle_access_validation_grants}
use swooshz_platform.Db.Repositories.{drizzle_repositories}
use swooshz_platform.Services.Admin.Commands.{done}
use swooshz_platform.Services.Launch.Commands.{GrantSettings}
use swooshz_platform.Services.Launch.Consume.{
  AccessValidationGrantDependencies, issue_access_validation_grant,
}
use swooshz_platform.Services.Grants.{
  RegisterFinalizationHandleInput, ConsumeFinalizationHandleInput,
  ValidateAccessValidationGrantInput, GrantContext, ConsumedHandle, register_finalization_handle,
  consume_finalization_handle, validate_access_validation_grant, revoke_access_validation_grant,
}

pub data GrantCommand : Type 0 where
  issue : AppLaunchTokenRecord → Timestamp → GrantCommand
  register : RegisterFinalizationHandleInput → GrantCommand
  consume : ConsumeFinalizationHandleInput → GrantCommand
  validate : ValidateAccessValidationGrantInput → GrantCommand
  revoke : String → Timestamp → GrantCommand

module _ (d : Driver) where
  abbrev pub service_dependencies : GrantSettings → AccessValidationGrantDependencies Database
  service_dependencies g = record {
    access_validation_grants = drizzle_access_validation_grants d;
    intended_sqag_origin = g.intended_sqag_origin;
    grant_id_factory = λ db. (g.grant_id, db);
  }

  abbrev pub register_handle : GrantSettings → RegisterFinalizationHandleInput → Io Database Bool
  register_handle g input =
      register_finalization_handle (drizzle_repositories d) (service_dependencies g) input

  abbrev pub validate_stored_grant :
      GrantSettings → ValidateAccessValidationGrantInput → Io Database (Option GrantContext)
  validate_stored_grant g input =
      validate_access_validation_grant (drizzle_repositories d) (service_dependencies g) input

  abbrev pub revoke_grant : GrantSettings → String → Timestamp → Io Database Bool
  revoke_grant g id now =
      revoke_access_validation_grant (drizzle_repositories d) (service_dependencies g) id now

  module _ (hash : String → Outcome String) where
    abbrev pub consume_handle :
        GrantSettings → ConsumeFinalizationHandleInput → Io Database (Option ConsumedHandle)
    consume_handle g input =
        consume_finalization_handle (drizzle_repositories d) (service_dependencies g)
          (λ raw db. (hash raw, db)) input

    abbrev pub perform_grant : GrantSettings → GrantCommand → Io Database (Unit {0})
    perform_grant g (issue token now) =
        done (issue_access_validation_grant (service_dependencies g) token now)
    perform_grant g (register input) = done (register_handle g input)
    perform_grant g (consume input) = done (consume_handle g input)
    perform_grant g (validate input) = done (validate_stored_grant g input)
    perform_grant g (revoke id now) = done (revoke_grant g id now)

    -- Commands one after the other, each with what its factory of ids gives, whatever becomes of each.
    unfoldable pub perform_grants : List (GrantSettings × GrantCommand) → Database → Database
    perform_grants [] db = db
    perform_grants ((g, c) ∷ cs) db = perform_grants cs (perform_grant g c db).1
