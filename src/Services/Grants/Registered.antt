-- ===== src/Services/Grants/Registered.antt =====
-- Registration of a handle in src/platform/access-validation-grant-service.ts.
use mathlib.Core.Path.{subst}
use mathlib.Core.List.Permᴰ
use swooshz_platform.Base.{
  ℕ, ◌+◌, ◌≤◌, ◌<◌, ◌≡◌, refl, String, Bool, true, false, not, ◌&&◌, Option, none, some, is_some,
  List, Memᴰ, mem-perm, map, update_where, head?, count, unique_of_count, ==-self, eq_of_==,
  &&-true, arith, ◌==◌,
}
use swooshz_platform.Time.{Timestamp, at, malformed, is_after}
use swooshz_platform.Io.{ok, Ensures, ensures_pure, ensures_if, ensures_read}
use swooshz_platform.Driver.{Driver}
use swooshz_platform.Ports.{AccessValidationGrantRecord}
use swooshz_platform.Db.Statements.{Database}
use swooshz_platform.Db.Triples.{ensures_ask, ensures_row}
use swooshz_platform.Db.Apps.{is_open_grant}
use swooshz_platform.Db.Repositories.{drizzle_repositories}
use swooshz_platform.Services.Launch.Commands.{GrantSettings}
use swooshz_platform.Services.Grants.{
  RegisterFinalizationHandleInput, is_bad_registration, is_bad_expiry, is_unregistrable,
  register_found, register_finalization_handle, is_finite,
}
use swooshz_platform.Services.Grants.Commands.{service_dependencies, register_handle}
use swooshz_platform.Db.Rows.{mem_map-update_where}
use swooshz_platform.Db.Rows.{update-row}
use swooshz_platform.Services.Grants.Keeps.{register_row}

-- The handle ends after `now`, in five minutes at the latest, and not after the launch token.
pub record EndsInTime (now : ℕ) (expires launch : Timestamp) : Type 0 where
  pub end : ℕ
  pub last : ℕ
  pub ends : expires ≡ at end
  pub launch_ends : launch ≡ at last
  pub later : now < end
  pub soon : end ≤ now + 300_000
  pub not_after_launch : end ≤ last

ends_in_time :
    (now : ℕ) (expires launch : Timestamp)
    → is_bad_expiry expires (at now) ≡ false
    → is_finite launch ≡ true
    → is_after expires launch ≡ false
    → EndsInTime now expires launch
ends_in_time now (at expires) (at launch) bad finite late = record {
  end = expires;
  last = launch;
  ends = refl;
  launch_ends = refl;
  later = ground arith;
  soon = ground arith;
  not_after_launch = ground arith;
}
ends_in_time now (at expires) malformed bad finite late = absurd (ground arith)
ends_in_time now malformed launch bad finite late = absurd (ground arith)

abbrev is_registration_of : String → AccessValidationGrantRecord → Bool
is_registration_of id g = (g.id == id) && (not (is_some g.handle_hash) && is_open_grant g)

-- A grant of the table that was open and had no handle has one now, which ends in time.
pub record IsRegistered (origin : String) (input : RegisterFinalizationHandleInput) (now : ℕ)
    (db db' : Database) : Type 0 where
  pub row : AccessValidationGrantRecord
  pub there : Memᴰ row db.access_validation_grants
  pub same_id : row.id ≡ input.validation_grant_id
  pub open_before : is_open_grant row ≡ true
  pub no_handle : is_some row.handle_hash ≡ false
  pub meant_for :
      (row.intended_origin ≡ input.intended_sqag_origin) × (input.intended_sqag_origin ≡ origin)
  pub in_time : EndsInTime now input.expires_at row.launch_token_expires_at
  pub changed :
      Memᴰ (register_row input.handle_hash_sha256 input.expires_at row) db'.access_validation_grants

module _ (d : Driver) (g : GrantSettings) (input : RegisterFinalizationHandleInput) (now : ℕ)
    (db : Database) (clock : input.now ≡ at now)
    (unique : (k : String)
      → count (λ (x : AccessValidationGrantRecord). x.id == k) db.access_validation_grants ≤ 1)
    (good : is_bad_registration (drizzle_repositories d) (service_dependencies d g) input ≡ false)
    (expiry : is_bad_expiry input.expires_at input.now ≡ false) where
  abbrev Registers : Bool → Database → Type 0
  Registers b t = b ≡ true → IsRegistered g.intended_sqag_origin input now db t

  registered :
      (row : AccessValidationGrantRecord)
      → Memᴰ row db.access_validation_grants
      → row.id ≡ input.validation_grant_id
      → is_unregistrable input row ≡ false
      → (rows table : List AccessValidationGrantRecord)
      → d.update
          (is_registration_of row.id)
          (register_row input.handle_hash_sha256 input.expires_at)
          db.access_validation_grants
        ≡ ok (rows, table)
      → (r : AccessValidationGrantRecord) → head? rows ≡ some r
      → IsRegistered g.intended_sqag_origin input now db
          (record db { access_validation_grants = table })
  registered row there same_id fits rows table w r e =
      let p = is_registration_of row.id in
      let f = register_row input.handle_hash_sha256 input.expires_at in
      let (x, x_there, passes, _) = update-row d p f db.access_validation_grants rows table w e in
      let (_, grown) = d.update_rows p f db.access_validation_grants rows table w in
      let (of_id, rest) = &&-true _ _ passes in
      let equal : x ≡ row =
        unique_of_count (λ (z : AccessValidationGrantRecord). z.id == row.id)
          db.access_validation_grants (unique row.id) x_there there of_id (==-self row.id) in
      let hit : p row ≡ true = subst (λ z. p z ≡ true) equal passes in
      let (no_handle, is_open) =
        &&-true (not (is_some row.handle_hash)) (is_open_grant row)
          (&&-true (row.id == row.id) _ hit).1 in
      record {
        row = row;
        there = there;
        same_id = same_id;
        open_before = is_open;
        no_handle = ground (arith, no_handle);
        meant_for = (eq_of_== _ _ (ground (arith, fits)), eq_of_== _ _ (ground (arith, good)));
        in_time =
            ends_in_time now input.expires_at row.launch_token_expires_at
              (subst (λ t. is_bad_expiry input.expires_at t ≡ false) clock expiry)
              (ground (arith, fits)) (ground (arith, fits));
        changed = mem-perm (Permᴰ.symm grown) (
            subst (λ z. Memᴰ z (map (update_where p f) db.access_validation_grants)) (rw hit refl)
              (mem_map-update_where p f db.access_validation_grants there));
      }

  register_found-Registers :
      (o : Option AccessValidationGrantRecord)
      → d.select_one (λ x. x.id == input.validation_grant_id) db.access_validation_grants ≡ ok o
      → Ensures
          (register_found (drizzle_repositories d) (service_dependencies d g) input o)
          db
          Registers
  register_found-Registers none h = ensures_pure λ e. absurd (ground arith)
  register_found-Registers (some row) h =
      ensures_if (is_unregistrable input row) _ _ (λ _. ensures_pure λ e. absurd (ground arith))
        λ fits.
          let (there, same) =
            d.select_one-some (λ x. x.id == input.validation_grant_id) db.access_validation_grants
              row h in
          ensures_row (λ t b. record b { access_validation_grants = t })
            (λ b.
              d.update (is_registration_of row.id)
                (register_row input.handle_hash_sha256 input.expires_at) b.access_validation_grants)
            db _
            λ rows table w.
              ensures_pure
                (of_rows row there (eq_of_== row.id _ same) fits rows table w (head? rows) refl)
    where
      of_rows :
          (row : AccessValidationGrantRecord)
          → Memᴰ row db.access_validation_grants
          → row.id ≡ input.validation_grant_id
          → is_unregistrable input row ≡ false
          → (rows table : List AccessValidationGrantRecord)
          → d.update
              (is_registration_of row.id)
              (register_row input.handle_hash_sha256 input.expires_at)
              db.access_validation_grants
            ≡ ok (rows, table)
          → (o : Option AccessValidationGrantRecord) → head? rows ≡ o
          → Registers (is_some o) (record db { access_validation_grants = table })
      of_rows row there same fits rows table w none e k = absurd (ground arith)
      of_rows row there same fits rows table w (some r) e k =
          registered row there same fits rows table w r e

-- If the clock gives a date and grant ids are unique, as the primary key says, a handle is registered
-- only with a grant of the table that is open, has no handle and is meant for the configured origin; it
-- ends after now, in five minutes at the latest and not after the launch token; and the grant carries
-- it then.
pub register_handle-IsRegistered :
    (d : Driver) (g : GrantSettings) (input : RegisterFinalizationHandleInput) (now : ℕ)
    (db db' : Database)
    → input.now ≡ at now
    → ((k : String)
        → count (λ (x : AccessValidationGrantRecord). x.id == k) db.access_validation_grants ≤ 1)
    → register_handle d g input db ≡ (ok true, db')
    → IsRegistered g.intended_sqag_origin input now db db'
unfolding register_finalization_handle
register_handle-IsRegistered d g input now db db' clock unique h = answered.at true db' h refl
  where
    answered :
        Ensures
          (register_handle d g input)
          db
          (λ b t. b ≡ true → IsRegistered g.intended_sqag_origin input now db t)
    answered =
        ensures_if (is_bad_registration (drizzle_repositories d) (service_dependencies d g) input) _
          _ (λ _. ensures_pure λ e. absurd (ground arith))
          λ good.
            ensures_if (is_bad_expiry input.expires_at input.now) _ _
              (λ _. ensures_pure λ e. absurd (ground arith))
              λ expiry.
                ensures_read
                  (ensures_ask
                    (λ s.
                      d.select_one (λ x. x.id == input.validation_grant_id)
                        s.access_validation_grants)
                    db)
                  λ o found.
                    register_found-Registers d g input now db clock unique good expiry o found
