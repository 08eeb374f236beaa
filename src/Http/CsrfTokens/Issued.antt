-- ===== src/Http/CsrfTokens/Issued.antt =====
-- What a CSRF token of src/http/csrf-token-service.ts is good for, over the Drizzle repository: it is
-- valid for its session until it expires, and only a stored token of the session is.
use swooshz_platform.Base.{
  ◌≡◌, ◌⊎◌, inl, inr, refl, zero, suc, ◌+◌, ◌*◌, String, Bool, false, ◌&&◌, Option, none, some,
  Memᴰ, arith, ◌==◌, Bool-cases,
}
use swooshz_platform.Base.Text.{is_blank}
use swooshz_platform.Time.{
  Timestamp, at_or_before, Seconds, at, malformed, pos, negsuc, not_finite, to_iso_string,
}
use swooshz_platform.Errors.{Exn}
use swooshz_platform.Io.{
  Outcome, ok, thrown, Io, Outcome-cases, Ensures, ensures_if, ensures_pure, ensures_throw,
  ensures_bind, ensures_read, ensures_catching, ensures_required, ◌>>=◌,
}
use swooshz_platform.Csrf.{CsrfTokenRecord, browser_session}
use swooshz_platform.Driver.{Driver}
use swooshz_platform.Db.Statements.{Database}
use swooshz_platform.Db.Csrf.{drizzle_csrf_tokens, bounded_insert, is_inactive}
use swooshz_platform.Db.Csrf.Bound.{BoundedInsert, bounded_insert-BoundedInsert}
use swooshz_platform.Http.CsrfTokens.{
  IssueCsrfTokenForSessionInput, IssuedCsrfToken, CsrfTokenValidation, valid, invalid,
  validation_failed, inactive_token, expired_token, validity, issue_csrf_token_for_session,
  validate_for, validate,
}
use swooshz_platform.Services.Launch.{non_blank_safely, get_expires_at_safely}

module _ (d : Driver) (id_at_most : String → String → Bool) (hash : String → Outcome String) where
  -- The services over the database. What the random sources and the hash give is part of the input.
  abbrev pub issue_token :
      Outcome String → Outcome String → IssueCsrfTokenForSessionInput → Io Database IssuedCsrfToken
  issue_token token id input =
      issue_csrf_token_for_session (drizzle_csrf_tokens d id_at_most)
        (record {
          create_token = λ db. (token, db);
          hash_token = λ raw db. (hash raw, db);
          create_id = λ db. (id, db);
        })
        input

  abbrev pub check_token : String → Option String → Timestamp → Io Database CsrfTokenValidation
  check_token csrf_token session_id now =
      validate (drizzle_csrf_tokens d id_at_most) (λ raw db. (hash raw, db)) browser_session
        csrf_token session_id now

  pub record IsIssued (input : IssueCsrfTokenForSessionInput) (r : IssuedCsrfToken)
      (db db' : Database) : Type 0 where
    pub row : CsrfTokenRecord
    pub hashed : hash r.csrf_token ≡ ok row.token_hash
    pub session : row.session_id ≡ input.session_id
    pub created : row.created_at ≡ input.now
    pub expires : row.expires_at ≡ r.expires_at
    pub active : is_inactive row ≡ false
    pub present : is_blank input.session_id ≡ false
    pub stored : BoundedInsert row db.csrf_tokens db'.csrf_tokens

  ensures_source :
      {A : Type 0} (o : Outcome A) (db : Database)
      → Ensures (λ (s : Database). (o, s)) db (λ v t. (t ≡ db) × (o ≡ ok v))
  ensures_source o db = record { at = λ v t h. (ground arith, ground arith) }

  ensures_non_blank :
      (e : Exn) (o : Outcome String) (db : Database)
      → Ensures (non_blank_safely e (λ (s : Database). (o, s))) db (λ v t. (t ≡ db) × (o ≡ ok v))
  ensures_non_blank e o db = ensures_catching _ _ (
      ensures_read (ensures_source o db)
        λ v i. ensures_if (is_blank v) _ _ (λ _. ensures_throw) λ _. ensures_pure (refl, i))

  ensures_expiry :
      (e : Exn) (now : Timestamp) (ttl : Seconds) (db : Database)
      → Ensures (get_expires_at_safely e now ttl) db (λ v t. (t ≡ db) × Unit {0})
  ensures_expiry e (at now) (pos (suc s)) db =
      ensures_required _ (to_iso_string (now + suc s * 1000)) λ _ _. (refl, tt)
  ensures_expiry e (at now) (pos zero) db = ensures_throw
  ensures_expiry e (at now) (negsuc s) db = ensures_throw
  ensures_expiry e (at now) not_finite db = ensures_throw
  ensures_expiry e malformed ttl db = ensures_throw

  ensures_stored :
      (input : CsrfTokenRecord) (db : Database)
      → Ensures
          ((drizzle_csrf_tokens d id_at_most).create_bounded_for_session input)
          db
          (λ _ t. BoundedInsert input db.csrf_tokens t.csrf_tokens)
  ensures_stored input db = record {
    at = λ a t h.
        (bounded_insert-BoundedInsert d id_at_most input db).at a t
          (d.transaction_commits 0 (bounded_insert d id_at_most input) db t a h);
  }

  pub issue_token-IsIssued :
      (token id : Outcome String) (input : IssueCsrfTokenForSessionInput) (db : Database)
      → Ensures (issue_token token id input) db (λ r db'. IsIssued input r db db')
  unfolding issue_csrf_token_for_session
  issue_token-IsIssued token id input db =
      ensures_if (is_blank input.session_id) _ _ (λ _. ensures_throw)
        λ here. ensures_read (ensures_expiry _ input.now input.ttl_seconds db) λ expires_at _.
          ensures_read (ensures_non_blank _ token db) λ raw _.
            ensures_read (ensures_non_blank _ (hash raw) db) λ hashed e.
              ensures_read (ensures_catching _ _ (ensures_source id db)) λ fresh _.
                ensures_bind (ensures_catching _ _ (ensures_stored _ db)) λ _ t stored.
                  ensures_pure (record {
                    row = record {
                      id = fresh;
                      session_id = input.session_id;
                      token_hash = hashed;
                      purpose = input.purpose;
                      created_at = input.now;
                      expires_at = expires_at;
                      consumed_at = none;
                      revoked_at = none;
                      replaced_by_token_id = none;
                    };
                    hashed = e;
                    session = refl;
                    created = refl;
                    expires = refl;
                    active = refl;
                    present = here;
                    stored = stored;
                  })

  module _ (raw s : String) (now : Timestamp) (db : Database) where
    abbrev pub of_token : String → CsrfTokenRecord → Bool
    of_token h t = (t.session_id == s) && (t.token_hash == h)

    abbrev pub checked : Io Database CsrfTokenValidation
    checked =
        validate_for (drizzle_csrf_tokens d id_at_most) (λ r b. (hash r, b)) browser_session s raw
          now

    checked-unhashed :
        (e : Exn) → hash raw ≡ thrown e → checked db ≡ (ok (invalid validation_failed), db)
    unfolding ◌>>=◌
    checked-unhashed e h = rw h refl

    checked-failed :
        (h : String) (e : Exn)
        → hash raw ≡ ok h
        → d.select_one (of_token h) db.csrf_tokens ≡ thrown e
        → checked db ≡ (ok (invalid validation_failed), db)
    unfolding ◌>>=◌
    checked-failed h e i j = rw i (rw j refl)

    pub checked-found :
        (h : String) (o : Option CsrfTokenRecord)
        → hash raw ≡ ok h
        → d.select_one (of_token h) db.csrf_tokens ≡ ok o
        → checked db ≡ (ok (validity now o), db)
    unfolding ◌>>=◌
    checked-found h o i j = rw i (rw j refl)

    -- How a check ends: without an answer from the database, or as the record that was found says.
    pub checked-cases :
        (checked db ≡ (ok (invalid validation_failed), db))
        ⊎ ((h : String) × (o : Option CsrfTokenRecord) × (hash raw ≡ ok h)
            × (d.select_one (of_token h) db.csrf_tokens ≡ ok o)
            × (checked db ≡ (ok (validity now o), db)))
    checked-cases = elim (Outcome-cases (hash raw)) [
      | inr (e, i) ↦ inl (checked-unhashed e i)
      | inl (h, i) ↦ elim (Outcome-cases (d.select_one (of_token h) db.csrf_tokens)) [
        | inr (e, j) ↦ inl (checked-failed h e i j)
        | inl (o, j) ↦ inr (h, o, i, j, checked-found h o i j)
      ]
    ]

  -- The token stands in the table for the session, active and unexpired.
  pub record IsValidFor (raw s : String) (now : Timestamp) (db : Database) : Type 0 where
    pub hashed_as : String
    pub hashed : hash raw ≡ ok hashed_as
    pub row : CsrfTokenRecord
    pub there : Memᴰ row db.csrf_tokens
    pub session : row.session_id ≡ s
    pub row_hash : row.token_hash ≡ hashed_as
    pub active : is_inactive row ≡ false
    pub in_time : at_or_before row.expires_at now ≡ false

  pub validity-valid :
      (now : Timestamp) (o : Option CsrfTokenRecord)
      → validity now o ≡ valid
      → (r : CsrfTokenRecord) × (o ≡ some r)
        × (is_inactive r ≡ false)
        × (at_or_before r.expires_at now ≡ false)
  validity-valid now none h = absurd (ground arith)
  validity-valid now (some r) h = elim (Bool-cases (is_inactive r)) [
    | inl e ↦ absurd (let k : invalid inactive_token ≡ valid = rw e at h in ground arith)
    | inr e ↦ elim (Bool-cases (at_or_before r.expires_at now)) [
      | inl t ↦ absurd (let k : invalid expired_token ≡ valid = rw (e, t) at h in ground arith)
      | inr t ↦ (r, refl, e, t)
    ]
  ]
