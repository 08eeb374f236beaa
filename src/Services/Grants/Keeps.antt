-- ===== src/Services/Grants/Keeps.antt =====
-- The grant service keeps a sealed grant sealed, whatever it is asked for and however that ends.
use swooshz_platform.Base.{
  ◌≡◌, refl, String, Bool, not, Option, none, some, ltb, List, [], ◌∷◌, head?, ◌==◌, ◌||◌,
}
use swooshz_platform.Base.Text.{utf16_length}
use swooshz_platform.Time.{Timestamp}
use swooshz_platform.Io.{returning_on_error, Outcome, ok, thrown, Io}
use swooshz_platform.Io.Keeps.{Keeps, Keeps-pure, Keeps-throw, Keeps-required, Keeps-if, Keeps-bind}
use swooshz_platform.Driver.{Driver, Written}
use swooshz_platform.Ports.{AccessValidationGrantRecord}
use swooshz_platform.Db.Statements.{Database, write, grants_clash}
use swooshz_platform.Db.Apps.{drizzle_access_validation_grants}
use swooshz_platform.Db.Repositories.{drizzle_repositories}
use swooshz_platform.Services.AppAccess.{ProtectedAppAccessDecisionResult, allowed, denied}
use swooshz_platform.Services.AppAccess.Keeps.{Keeps-ask, decide_protected_app_access-Keeps}
use swooshz_platform.Services.Launch.Commands.{GrantSettings}
use swooshz_platform.Services.Launch.Consume.{issue_access_validation_grant}
use swooshz_platform.Services.Grants.{
  RegisterFinalizationHandleInput, ConsumeFinalizationHandleInput, is_bad_registration,
  is_bad_expiry, is_unregistrable, register_found, register_finalization_handle, is_unusable_grant,
  are_rows_missing, with_decision, with_grant, validate_grant, valid_grant_id,
  validate_access_validation_grant, revoke_access_validation_grant, is_in_time, with_consumed,
  valid_handle, consume_finalization_handle,
}
use swooshz_platform.Services.Grants.Sealed.{IsSealed, IsGentle, update-IsSealed, insert-IsSealed}
use swooshz_platform.Services.Grants.Commands.{
  GrantCommand, issue, register, consume, validate, revoke, service_dependencies, perform_grant,
  perform_grants,
}

-- The changes of rows that the repository makes.
abbrev pub register_row :
    String → Timestamp → AccessValidationGrantRecord → AccessValidationGrantRecord
register_row hash expires g = record g { handle_hash = some hash; handle_expires_at = some expires }

abbrev pub consume_row : Timestamp → AccessValidationGrantRecord → AccessValidationGrantRecord
consume_row now g = record g { consumed_at = some now }

abbrev pub revoke_grant_row : Timestamp → AccessValidationGrantRecord → AccessValidationGrantRecord
revoke_grant_row now g = record g { revoked_at = some now }

-- A property of a grant that none of them ends.
pub record IsLasting (q : AccessValidationGrantRecord → Bool) : Type 0 where
  pub registered : (hash : String) (t : Timestamp) → IsGentle q (register_row hash t)
  pub consumed : (t : Timestamp) → IsGentle q (consume_row t)
  pub revoked : (t : Timestamp) → IsGentle q (revoke_grant_row t)

-- The property that is kept.
abbrev pub Sealed : (AccessValidationGrantRecord → Bool) → String → Database → Type 0
Sealed q id db = IsSealed q id db.access_validation_grants

module _ {q : AccessValidationGrantRecord → Bool} {id : String} where
  written :
      (w : Written AccessValidationGrantRecord) (db : Database)
      → ((rows table : List AccessValidationGrantRecord)
          → w ≡ ok (rows, table)
          → IsSealed q id table)
      → Sealed q id db
      → Sealed q id (write (λ t b. record b { access_validation_grants = t }) w db).1
  written (ok (rows, table)) db k s = k rows table refl
  written (thrown e) db k s = s

  returning_on_error-Keeps :
      {A : Type 0} (value : A) {m : Io Database A}
      → Keeps (Sealed q id) m
      → Keeps (Sealed q id) (returning_on_error value m)
  returning_on_error-Keeps value k = record { at = k.at }

  module _ (d : Driver) where
    changed :
        (p : AccessValidationGrantRecord → Bool)
        (f : AccessValidationGrantRecord → AccessValidationGrantRecord)
        → IsGentle q f
        → Keeps (Sealed q id) (λ db.
          write
            (λ t b. record b { access_validation_grants = t })
            (d.update p f db.access_validation_grants)
            db)
    changed p f gentle = record {
      at = λ db s.
          written (d.update p f db.access_validation_grants) db
            (λ rows table e.
              let (_, grown) = d.update_rows p f db.access_validation_grants rows table e in
              update-IsSealed p q f gentle s grown)
            s;
    }

    create-Keeps :
        (row : AccessValidationGrantRecord)
        → Keeps (Sealed q id) ((drizzle_access_validation_grants d).create row)
    create-Keeps row =
        Keeps-bind
          (record {
            at = λ db s.
                written (d.insert grants_clash row db.access_validation_grants) db
                  (λ rows table e.
                    let (_, grown, free) =
                      d.insert_rows grants_clash row db.access_validation_grants rows table e in
                    insert-IsSealed q row s grown free)
                  s;
          })
          λ rows. Keeps-required _ (head? rows)

    module _ (g : GrantSettings) where
      with_decision-Keeps :
          (row : AccessValidationGrantRecord) (a : ProtectedAppAccessDecisionResult)
          → Keeps
              (Sealed q id)
              (with_decision (drizzle_repositories d) (service_dependencies d g) row a)
      with_decision-Keeps row (denied reason decision) = Keeps-pure
      with_decision-Keeps row (allowed a) = Keeps-bind Keeps-ask λ m. Keeps-pure

      with_grant-Keeps :
          (w key : String) (now : Timestamp) (o : Option AccessValidationGrantRecord)
          → Keeps
              (Sealed q id)
              (with_grant (drizzle_repositories d) (service_dependencies d g) w key now o)
      with_grant-Keeps w key now none = Keeps-pure
      with_grant-Keeps w key now (some row) =
          Keeps-if (is_unusable_grant (drizzle_repositories d) (service_dependencies d g) w key row)
            Keeps-pure
            (Keeps-bind Keeps-ask λ s. Keeps-bind Keeps-ask λ u. Keeps-bind Keeps-ask λ workspace.
              Keeps-bind Keeps-ask λ a.
                Keeps-if (are_rows_missing row s u workspace a) Keeps-pure (
                  Keeps-bind (decide_protected_app_access-Keeps d _)
                    λ r. with_decision-Keeps row r))

      validate_grant-Keeps :
          (k w key : String) (now : Timestamp)
          → Keeps
              (Sealed q id)
              (validate_grant (drizzle_repositories d) (service_dependencies d g) k w key now)
      unfolding validate_grant
      validate_grant-Keeps k w key now = Keeps-bind Keeps-ask λ o. with_grant-Keeps w key now o

      register_found-Keeps :
          IsLasting q
          → (input : RegisterFinalizationHandleInput) (o : Option AccessValidationGrantRecord)
          → Keeps
              (Sealed q id)
              (register_found (drizzle_repositories d) (service_dependencies d g) input o)
      register_found-Keeps lasting input none = Keeps-pure
      register_found-Keeps lasting input (some row) =
          Keeps-if (is_unregistrable input row) Keeps-pure (
            Keeps-bind
              (Keeps-bind
                (changed _ _ (lasting.registered input.handle_hash_sha256 input.expires_at))
                λ rows. Keeps-pure)
              λ found. Keeps-pure)

      pub with_consumed-Keeps :
          (input : ConsumeFinalizationHandleInput) (o : Option AccessValidationGrantRecord)
          → Keeps
              (Sealed q id)
              (with_consumed (drizzle_repositories d) (service_dependencies d g) input o)
      with_consumed-Keeps input none = Keeps-pure
      with_consumed-Keeps input (some row) =
          Keeps-if
            (not (is_in_time row.handle_expires_at input.now)
              || not (row.intended_origin == input.intended_sqag_origin))
            Keeps-pure
            (Keeps-bind (validate_grant-Keeps row.id row.workspace_id "sqag" input.now)
              λ c. Keeps-pure)

      -- Every command keeps a lasting property of a grant.
      pub perform_grant-Keeps :
          IsLasting q
          → (hash : String → Outcome String) (c : GrantCommand)
          → Keeps (Sealed q id) (perform_grant d hash g c)
      unfolding issue_access_validation_grant register_finalization_handle
          consume_finalization_handle validate_access_validation_grant
          revoke_access_validation_grant
      perform_grant-Keeps lasting hash (issue token now) =
          Keeps-bind
            (Keeps-bind (record { at = λ s h. h })
              λ fresh. Keeps-if (ltb (utf16_length fresh) 32) Keeps-throw (create-Keeps _))
            λ _. Keeps-pure
      perform_grant-Keeps lasting hash (register input) =
          Keeps-bind
            (Keeps-if
              (is_bad_registration (drizzle_repositories d) (service_dependencies d g) input)
              Keeps-pure
              (Keeps-if (is_bad_expiry input.expires_at input.now) Keeps-pure
                (Keeps-bind Keeps-ask λ o. register_found-Keeps lasting input o)))
            λ _. Keeps-pure
      perform_grant-Keeps lasting hash (consume input) =
          Keeps-bind
            (Keeps-if
              (not (valid_handle input.raw_handle)
                || not (input.intended_sqag_origin == g.intended_sqag_origin))
              Keeps-pure
              (Keeps-bind (record { at = λ s h. h })
                λ hashed.
                  Keeps-bind
                    (Keeps-bind (changed _ _ (lasting.consumed input.now)) λ rows. Keeps-pure)
                    λ o. with_consumed-Keeps input o))
            λ _. Keeps-pure
      perform_grant-Keeps lasting hash (validate input) =
          Keeps-bind
            (Keeps-if (not (valid_grant_id input.validation_grant_id)) Keeps-pure (
              returning_on_error-Keeps _
                (validate_grant-Keeps _ input.workspace_id input.app_key input.now)))
            λ _. Keeps-pure
      perform_grant-Keeps lasting hash (revoke k now) =
          Keeps-bind
            (Keeps-if (not (valid_grant_id k)) Keeps-pure (
              Keeps-bind (Keeps-bind (changed _ _ (lasting.revoked now)) λ rows. Keeps-pure)
                λ o. Keeps-pure))
            λ _. Keeps-pure

    pub perform_grants-Keeps :
        IsLasting q
        → (hash : String → Outcome String) (cs : List (GrantSettings × GrantCommand))
          (db : Database)
        → Sealed q id db
        → Sealed q id (perform_grants d hash cs db)
    unfolding perform_grants
    perform_grants-Keeps lasting hash [] db s = s
    perform_grants-Keeps lasting hash ((g, c) ∷ cs) db s =
        perform_grants-Keeps lasting hash cs _ ((perform_grant-Keeps g lasting hash c).at db s)
