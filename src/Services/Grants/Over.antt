-- ===== src/Services/Grants/Over.antt =====
-- Revocation and single use of the grants of src/platform/access-validation-grant-service.ts.
use swooshz_platform.Base.{
  ◌≡◌, refl, ◌∙◌, String, Bool, true, false, ◌≤◌, count, none, some, List, Bool-cases, inl, inr,
  eq_of_==, arith, ◌==◌,
}
use swooshz_platform.Time.{Timestamp}
use swooshz_platform.Io.{Outcome, ok}
use swooshz_platform.Driver.{Driver}
use swooshz_platform.Ports.{AccessValidationGrantRecord}
use swooshz_platform.Db.Statements.{Database}
use swooshz_platform.Db.Apps.{is_open_grant}
use swooshz_platform.Services.Launch.Commands.{GrantSettings}
use swooshz_platform.Services.Grants.{
  ConsumeFinalizationHandleInput, ValidateAccessValidationGrantInput, ConsumedHandle,
}
use swooshz_platform.Services.Grants.Commands.{
  GrantCommand, validate_stored_grant, revoke_grant, consume_handle, perform_grants,
}
use swooshz_platform.Services.Grants.Keeps.{Sealed, perform_grants-Keeps}
use swooshz_platform.Services.Grants.Spent.{
  was_revoked, was_consumed, was_revoked-IsLasting, was_consumed-IsLasting, revoke_grant-Sealed,
  validate_stored_grant-revoked, consume_handle-IsOpen, consume_handle-Sealed,
}

module _ (d : Driver) (hash : String → Outcome String) where
  refused :
      (q : AccessValidationGrantRecord → Bool)
      → ((x : AccessValidationGrantRecord) → q x ≡ true → is_open_grant x ≡ false)
      → (id : String) (g : GrantSettings) (input : ConsumeFinalizationHandleInput)
        (c : ConsumedHandle) (db db' : Database)
      → Sealed q id db
      → consume_handle d hash g input db ≡ (ok (some c), db')
      → (c.validation_grant_id == id) ≡ false
  refused q shut id g input c db db' s h = elim (Bool-cases (c.validation_grant_id == id)) [
    | inr e ↦ e
    | inl e ↦
        let o = (consume_handle-IsOpen d hash g input db).at (some c) db' h c refl in
        let sealed : q o.row ≡ true =
          s.all o.row o.there (o.same_id ∙ eq_of_== c.validation_grant_id id e) in
        absurd (ground (arith, shut o.row sealed, o.open_before))
  ]

  revoke_grant-lasts :
      (g : GrantSettings) (id : String) (now : Timestamp) (db db1 : Database)
      → revoke_grant d g id now db ≡ (ok true, db1)
      → (cs : List (GrantSettings × GrantCommand))
      → Sealed was_revoked id (perform_grants d hash cs db1)
  revoke_grant-lasts g id now db db1 h cs =
      perform_grants-Keeps d was_revoked-IsLasting hash cs db1
        ((revoke_grant-Sealed d g id now db).at true db1 h refl)

  -- A grant that was revoked stays invalid: whatever grants are issued, registered, consumed, validated
  -- and revoked then, with whatever settings, its validation answers nothing, and never throws.
  pub revoke_grant-validate_stored_grant :
      (g : GrantSettings) (id : String) (now : Timestamp) (db db1 : Database)
      → revoke_grant d g id now db ≡ (ok true, db1)
      → (cs : List (GrantSettings × GrantCommand)) (g' : GrantSettings)
        (input : ValidateAccessValidationGrantInput)
      → input.validation_grant_id ≡ id
      → (validate_stored_grant d g' input (perform_grants d hash cs db1)).0 ≡ ok none
  revoke_grant-validate_stored_grant g id now db db1 h cs g' input e =
      validate_stored_grant-revoked d g' input _ (rw e (revoke_grant-lasts g id now db db1 h cs))

  -- A grant that was revoked is answered to no handle: whatever is done with grants then, a handle that
  -- is consumed is not answered with it.
  pub revoke_grant-consume_handle :
      (g : GrantSettings) (id : String) (now : Timestamp) (db db1 : Database)
      → revoke_grant d g id now db ≡ (ok true, db1)
      → (cs : List (GrantSettings × GrantCommand)) (g' : GrantSettings)
        (input : ConsumeFinalizationHandleInput) (c : ConsumedHandle) (db2 : Database)
      → consume_handle d hash g' input (perform_grants d hash cs db1) ≡ (ok (some c), db2)
      → (c.validation_grant_id == id) ≡ false
  revoke_grant-consume_handle g id now db db1 h cs g' input c db2 k =
      refused was_revoked (λ x e. ground arith) id g' input c _ db2
        (revoke_grant-lasts g id now db db1 h cs) k

  -- A handle is answered once: after an answer with a grant, and whatever is done with grants then, no
  -- handle is answered with that grant again. Grant ids are unique at the start, as the primary key says.
  pub consume_handle-once :
      (g : GrantSettings) (input : ConsumeFinalizationHandleInput) (c : ConsumedHandle)
      (db db1 : Database)
      → ((k : String)
          → count (λ (x : AccessValidationGrantRecord). x.id == k) db.access_validation_grants ≤ 1)
      → consume_handle d hash g input db ≡ (ok (some c), db1)
      → (cs : List (GrantSettings × GrantCommand)) (g' : GrantSettings)
        (input' : ConsumeFinalizationHandleInput) (c' : ConsumedHandle) (db2 : Database)
      → consume_handle d hash g' input' (perform_grants d hash cs db1) ≡ (ok (some c'), db2)
      → (c'.validation_grant_id == c.validation_grant_id) ≡ false
  consume_handle-once g input c db db1 unique h cs g' input' c' db2 k =
      refused was_consumed (λ x e. ground arith) c.validation_grant_id g' input' c' _ db2
        (perform_grants-Keeps d was_consumed-IsLasting hash cs db1
          ((consume_handle-Sealed d hash db unique g input).at (some c) db1 h c refl))
        k
