-- ===== src/Services/Grants/Spent.antt =====
-- Grants of src/platform/access-validation-grant-service.ts that are over: revoked, or their handle
-- consumed.
use mathlib.Core.Path.{subst}
use swooshz_platform.Base.{
  ◌≡◌, refl, sym, ap, ◌∙◌, String, Bool, true, not, ◌&&◌, ◌||◌, ◌≤◌, count, Option, none, some,
  is_some, List, Memᴰ, head?, update_where, Bool-cases, inl, inr, eq_of_==, ==-self, eq_iff,
  &&-true, arith, ◌==◌, unique_of_count,
}
use swooshz_platform.Time.{Timestamp}
use swooshz_platform.Io.{
  Outcome, Outcome-cases, ok, Io, Ensures, ensures_pure, ensures_if, ensures_bind, ensures_read,
  ensures_weaker, ◌>>=◌,
}
use swooshz_platform.Driver.{Driver}
use swooshz_platform.Ports.{AccessValidationGrantRecord}
use swooshz_platform.Db.Statements.{Database, column_eq}
use swooshz_platform.Db.Triples.{ensures_row}
use swooshz_platform.Db.Apps.{is_open_grant}
use swooshz_platform.Db.Repositories.{drizzle_repositories}
use swooshz_platform.Services.Launch.Commands.{GrantSettings}
use swooshz_platform.Services.Grants.{
  ConsumeFinalizationHandleInput, ValidateAccessValidationGrantInput, GrantContext, ConsumedHandle,
  valid_grant_id, valid_handle, is_in_time, with_consumed, validate_grant, handle_context,
  consume_finalization_handle, validate_access_validation_grant, revoke_access_validation_grant,
}
use swooshz_platform.Services.Grants.Sealed.{IsSealed, seal-IsSealed}
use swooshz_platform.Db.Rows.{update-row}
use swooshz_platform.Io.Keeps.{Keeps}
use swooshz_platform.Services.Grants.Keeps.{
  with_consumed-Keeps, IsLasting, Sealed, consume_row, revoke_grant_row,
}
use swooshz_platform.Services.Grants.Commands.{
  service_dependencies, validate_stored_grant, revoke_grant, consume_handle,
}

abbrev pub was_revoked : AccessValidationGrantRecord → Bool
was_revoked g = is_some g.revoked_at

abbrev pub was_consumed : AccessValidationGrantRecord → Bool
was_consumed g = is_some g.consumed_at

pub was_revoked-IsLasting : IsLasting was_revoked
was_revoked-IsLasting = record {
  registered = λ hash t. record { keeps_id = λ x. refl; keeps = λ x h. h };
  consumed = λ t. record { keeps_id = λ x. refl; keeps = λ x h. h };
  revoked = λ t. record { keeps_id = λ x. refl; keeps = λ x h. refl };
}

pub was_consumed-IsLasting : IsLasting was_consumed
was_consumed-IsLasting = record {
  registered = λ hash t. record { keeps_id = λ x. refl; keeps = λ x h. h };
  consumed = λ t. record { keeps_id = λ x. refl; keeps = λ x h. refl };
  revoked = λ t. record { keeps_id = λ x. refl; keeps = λ x h. h };
}

abbrev is_revocation_of : String → AccessValidationGrantRecord → Bool
is_revocation_of id g = (g.id == id) && not (is_some g.revoked_at)

abbrev is_consumption_of : String → AccessValidationGrantRecord → Bool
is_consumption_of hash g = column_eq g.handle_hash hash && is_open_grant g

revocation-revokes :
    (id : String) (now : Timestamp) (x : AccessValidationGrantRecord)
    → x.id ≡ id
    → was_revoked (update_where (is_revocation_of id) (revoke_grant_row now) x) ≡ true
revocation-revokes id now x e = elim (Bool-cases (is_revocation_of id x)) [
  | inl h ↦ rw h refl
  | inr h ↦ rw h (ground (arith, eq_iff x.id id))
]

module _ (d : Driver) where
  -- A revocation that succeeds seals the grant as revoked.
  pub revoke_grant-Sealed :
      (g : GrantSettings) (id : String) (now : Timestamp) (db : Database)
      → Ensures (revoke_grant d g id now) db (λ b t. b ≡ true → Sealed was_revoked id t)
  unfolding revoke_access_validation_grant
  revoke_grant-Sealed g id now db =
      ensures_if (not (valid_grant_id id)) _ _ (λ _. ensures_pure λ e. absurd (ground arith))
        λ _.
          ensures_row (λ t b. record b { access_validation_grants = t })
            (λ b. d.update (is_revocation_of id) (revoke_grant_row now) b.access_validation_grants)
            db _ λ rows table w. ensures_pure λ e. sealed rows table w (head? rows) refl e
    where
      sealed :
          (rows table : List AccessValidationGrantRecord)
          → d.update (is_revocation_of id) (revoke_grant_row now) db.access_validation_grants
            ≡ ok (rows, table)
          → (o : Option AccessValidationGrantRecord) → head? rows ≡ o
          → is_some o ≡ true
          → IsSealed was_revoked id table
      sealed rows table w none h e = absurd (ground arith)
      sealed rows table w (some r) h e =
          let (x, there, passes, _) =
            update-row d (is_revocation_of id) (revoke_grant_row now) db.access_validation_grants
              rows table w h in
          let same = eq_of_== x.id id (&&-true _ _ passes).0 in
          let (_, grown) =
            d.update_rows (is_revocation_of id) (revoke_grant_row now) db.access_validation_grants
              rows table w in
          subst (λ k. IsSealed was_revoked k table) same
            (seal-IsSealed (is_revocation_of id) was_revoked (revoke_grant_row now)
              (was_revoked-IsLasting.revoked now) x there
              (λ y n e. revocation-revokes id now y (e ∙ same)) grown)

  -- A revoked grant is not valid, also where the lookup throws.
  pub validate_stored_grant-revoked :
      (g : GrantSettings) (input : ValidateAccessValidationGrantInput) (db : Database)
      → Sealed was_revoked input.validation_grant_id db
      → (validate_stored_grant d g input db).0 ≡ ok none
  unfolding validate_access_validation_grant validate_grant ◌>>=◌
  validate_stored_grant-revoked g input db s =
      elim (Bool-cases (valid_grant_id input.validation_grant_id)) [
        | inr bad ↦ rw bad refl
        | inl good ↦ elim (Outcome-cases (d.select_one is_it db.access_validation_grants)) [
          | inr (e, h) ↦ rw good (rw h refl)
          | inl (none, h) ↦ rw good (rw h refl)
          | inl (some r, h) ↦
              let (there, same) = d.select_one-some is_it db.access_validation_grants r h in
              let gone : is_some r.revoked_at ≡ true = s.all r there (eq_of_== r.id _ same) in
              rw good (rw h (rw gone refl))
        ]
      ]
    where
      is_it : AccessValidationGrantRecord → Bool
      is_it x = x.id == input.validation_grant_id

-- There is an open grant with the id.
pub record IsOpen (id : String) (db : Database) : Type 0 where
  pub row : AccessValidationGrantRecord
  pub there : Memᴰ row db.access_validation_grants
  pub same_id : row.id ≡ id
  pub open_before : is_open_grant row ≡ true

-- An action that returns keeps what it always keeps.
ensures_kept :
    {S A : Type 0} {P : S → Type 0} {Q : A → S → Type 0} {m : Io S A} {s : S}
    → Keeps P m
    → P s
    → Ensures m s Q
    → Ensures m s (λ a t. Q a t × P t)
ensures_kept {P} k h e = record { at = λ a t i. (e.at a t i, subst P (ap (λ o. o.1) i) (k.at _ h)) }

module _ (d : Driver) (hash : String → Outcome String) where
  handle_context-id :
      (id : String) (o : Option GrantContext) (c : ConsumedHandle)
      → handle_context id o ≡ some c
      → c.validation_grant_id ≡ id
  handle_context-id id none c e = absurd (ground arith)
  handle_context-id id (some x) c e = ground arith

  with_consumed-id :
      (g : GrantSettings) (input : ConsumeFinalizationHandleInput)
      (o : Option AccessValidationGrantRecord) (db : Database)
      → Ensures
          (with_consumed (drizzle_repositories d) (service_dependencies d g) input o)
          db
          (λ a t.
            (c : ConsumedHandle)
            → a ≡ some c
            → (r : AccessValidationGrantRecord) × (o ≡ some r) × (c.validation_grant_id ≡ r.id))
  with_consumed-id g input none db = ensures_pure λ c e. absurd (ground arith)
  with_consumed-id g input (some r) db =
      ensures_if
        (not (is_in_time r.handle_expires_at input.now)
          || not (r.intended_origin == input.intended_sqag_origin))
        _ _ (λ _. ensures_pure λ c e. absurd (ground arith))
        λ _.
          ensures_bind {P = λ _ _. Unit {0}} (record { at = λ a t i. tt })
            λ a t _. ensures_pure λ c e. (r, refl, handle_context-id r.id a c e)

  -- An answer to a handle comes from the first row that was consumed.
  from_row :
      {Q : Option ConsumedHandle → Database → Type 0} (g : GrantSettings)
      (input : ConsumeFinalizationHandleInput) (db : Database)
      → ((t : Database) → Q none t)
      → ((h : String) (rows table : List AccessValidationGrantRecord)
          → d.update (is_consumption_of h) (consume_row input.now) db.access_validation_grants
            ≡ ok (rows, table)
          → (r : AccessValidationGrantRecord) → head? rows ≡ some r
          → Ensures
              (with_consumed (drizzle_repositories d) (service_dependencies d g) input (some r))
              (record db { access_validation_grants = table })
              Q)
      → Ensures (consume_handle d hash g input) db Q
  unfolding consume_finalization_handle
  from_row {Q} g input db nothing k =
      ensures_if
        (not (valid_handle input.raw_handle)
          || not (input.intended_sqag_origin == g.intended_sqag_origin))
        _ _ (λ _. ensures_pure (nothing db))
        λ _.
          ensures_read {P = λ _. Unit {0}} (record { at = λ a t i. (ground arith, tt) })
            λ h _.
              ensures_row (λ t b. record b { access_validation_grants = t })
                (λ b.
                  d.update (is_consumption_of h) (consume_row input.now) b.access_validation_grants)
                db _ λ rows table w. answered h rows table w (head? rows) refl
    where
      answered :
          (h : String) (rows table : List AccessValidationGrantRecord)
          → d.update (is_consumption_of h) (consume_row input.now) db.access_validation_grants
            ≡ ok (rows, table)
          → (o : Option AccessValidationGrantRecord) → head? rows ≡ o
          → Ensures
              (with_consumed (drizzle_repositories d) (service_dependencies d g) input o)
              (record db { access_validation_grants = table })
              Q
      answered h rows table w none e = ensures_pure (nothing _)
      answered h rows table w (some r) e = k h rows table w r e

  pub consume_handle-IsOpen :
      (g : GrantSettings) (input : ConsumeFinalizationHandleInput) (db : Database)
      → Ensures
          (consume_handle d hash g input)
          db
          (λ a t. (c : ConsumedHandle) → a ≡ some c → IsOpen c.validation_grant_id db)
  consume_handle-IsOpen g input db =
      from_row g input db (λ t c e. absurd (ground arith))
        λ h rows table w r e. ensures_weaker (with_consumed-id g input (some r) _) λ a t q c i.
          let (r', same, of_c) = q c i in
          let (x, there, passes, new) =
            update-row d (is_consumption_of h) (consume_row input.now) db.access_validation_grants
              rows table w e in
          let named : r.id ≡ c.validation_grant_id =
            ap (λ (z : AccessValidationGrantRecord). z.id) (let k : r ≡ r' = ground arith in k)
            ∙ sym of_c in
          record {
            row = x;
            there = there;
            same_id = ap (λ (z : AccessValidationGrantRecord). z.id) (sym new) ∙ named;
            open_before = (&&-true _ _ passes).1;
          }

  module _ (db : Database)
      (unique : (k : String)
        → count (λ (x : AccessValidationGrantRecord). x.id == k) db.access_validation_grants
          ≤ 1) where
    consumption-Sealed :
        (h : String) (now : Timestamp) (rows table : List AccessValidationGrantRecord)
        (r : AccessValidationGrantRecord)
        → d.update (is_consumption_of h) (consume_row now) db.access_validation_grants
          ≡ ok (rows, table)
        → head? rows ≡ some r
        → IsSealed was_consumed r.id table
    consumption-Sealed h now rows table r w e =
        let p = is_consumption_of h in
        let f = consume_row now in
        let (x, there, passes, same) =
          update-row d p f db.access_validation_grants rows table w e in
        let (_, grown) = d.update_rows p f db.access_validation_grants rows table w in
        subst (λ k. IsSealed was_consumed k table)
          (ap (λ (g : AccessValidationGrantRecord). g.id) (sym same))
          (seal-IsSealed p was_consumed f (was_consumed-IsLasting.consumed now) x there
            (λ y n i.
              let equal : y ≡ x =
                unique_of_count (λ (z : AccessValidationGrantRecord). z.id == x.id)
                  db.access_validation_grants (unique x.id) n there ((eq_iff y.id x.id).1 i)
                  (==-self x.id) in
              ap (λ z. was_consumed (update_where p f z)) equal ∙ rw passes refl)
            grown)

    -- An answer to a handle leaves its grant consumed.
    pub consume_handle-Sealed :
        (g : GrantSettings) (input : ConsumeFinalizationHandleInput)
        → Ensures
            (consume_handle d hash g input)
            db
            (λ a t. (c : ConsumedHandle) → a ≡ some c → Sealed was_consumed c.validation_grant_id t)
    consume_handle-Sealed g input =
        from_row g input db (λ t c e. absurd (ground arith))
          λ h rows table w r e.
            ensures_weaker
              (ensures_kept (with_consumed-Keeps {q = was_consumed} {id = r.id} d g input (some r))
                (consumption-Sealed h input.now rows table r w e)
                (with_consumed-id g input (some r) _))
              λ a t (q, kept) c i.
                let (r', same, of_c) = q c i in
                let named : r.id ≡ c.validation_grant_id =
                  ap (λ (z : AccessValidationGrantRecord). z.id)
                    (let k : r ≡ r' = ground arith in k)
                  ∙ sym of_c in
                subst (λ k. Sealed was_consumed k t) named kept
