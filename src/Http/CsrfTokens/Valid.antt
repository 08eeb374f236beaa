-- ===== src/Http/CsrfTokens/Valid.antt =====
-- Issue and validation of the CSRF tokens of src/http/csrf-token-service.ts taken together.
use mathlib.Core.Path.{subst}
use swooshz_platform.Base.{
  ◌≡◌, ◌⊎◌, inl, inr, refl, sym, ap, ◌∙◌, ◌≤◌, String, Bool, true, false, Option, none, some, List,
  Memᴰ, count, count_pos, Bool-cases, eq_of_==, eq_iff, &&-true, arith, ◌==◌,
}
use swooshz_platform.Base.Text.{is_blank}
use swooshz_platform.Time.{Timestamp, at_or_before}
use swooshz_platform.Io.{Outcome, ok}
use swooshz_platform.Csrf.{CsrfTokenRecord}
use swooshz_platform.Driver.{Driver}
use swooshz_platform.Db.Statements.{Database}
use swooshz_platform.Db.Csrf.{is_inactive, is_active_of}
use swooshz_platform.Http.CsrfTokens.{
  IssueCsrfTokenForSessionInput, IssuedCsrfToken, CsrfTokenValidation, valid, invalid,
  missing_session, validation_failed, validity, validate,
}
use swooshz_platform.Http.CsrfTokens.Later.{
  IsOnly, IssueCommand, AllFor, issue_all, issue_all-IsOnly, BoundedInsert-IsOnly,
}
use swooshz_platform.Http.CsrfTokens.Issued.{
  issue_token, check_token, checked, of_token, IsValidFor, checked-cases, validity-valid,
  issue_token-IsIssued,
}

module _ (d : Driver) (id_at_most : String → String → Bool) (hash : String → Outcome String) where
  checked-IsValidFor :
      (raw s : String) (now : Timestamp) (db db' : Database)
      → checked d id_at_most hash raw s now db db ≡ (ok valid, db')
      → (db' ≡ db) × IsValidFor d id_at_most hash raw s now db
  checked-IsValidFor raw s now db db' h = elim (checked-cases d id_at_most hash raw s now db) [
    | inl e ↦ absurd (ground arith)
    | inr (k, o, i, j, e) ↦
        let found : validity now o ≡ valid = ground arith in
        let left : db' ≡ db = ground arith in
        let (r, same, active, in_time) = validity-valid d id_at_most hash now o found in
        let (there, test) =
          d.select_one-some (of_token d id_at_most hash raw s now db k) db.csrf_tokens r
            (j ∙ ap ok same) in
        let (of_session, of_hash) = &&-true _ _ test in
        (
          left,
          record {
            hashed_as = k;
            hashed = i;
            row = r;
            there = there;
            session = eq_of_== _ _ of_session;
            row_hash = eq_of_== _ _ of_hash;
            active = active;
            in_time = in_time;
          },
        )
  ]

  -- The validator answers `valid` only for a session that is named, and only if the table holds a token
  -- of that session with the hash of the text, neither consumed nor revoked nor expired; it changes
  -- nothing.
  pub check_token-IsValidFor :
      (raw : String) (session : Option String) (now : Timestamp) (db db' : Database)
      → check_token d id_at_most hash raw session now db ≡ (ok valid, db')
      → (db' ≡ db) × ((s : String) × (session ≡ some s) × IsValidFor d id_at_most hash raw s now db)
  unfolding validate
  check_token-IsValidFor raw none now db db' h = absurd (ground arith)
  check_token-IsValidFor raw (some s) now db db' h = elim (Bool-cases (is_blank s)) [
    | inl e ↦ absurd (
        let k : ◌≡◌ {A = Outcome CsrfTokenValidation × Database} (ok (invalid missing_session), db)
            (ok valid, db') =
          rw e at h in
        ground arith)
    | inr e ↦
        let (left, v) = checked-IsValidFor raw s now db db' (rw e at h) in (left, (s, refl, v))
  ]

  module _ (s : String) (raw : String) (now until : Timestamp) (v : CsrfTokenValidation)
      (db : Database) (fresh : at_or_before until now ≡ false) where
    verdict :
        (row : CsrfTokenRecord)
        → row.session_id ≡ s
        → row.expires_at ≡ until
        → is_inactive row ≡ false
        → IsOnly row db.csrf_tokens
        → (k : String) → k ≡ row.token_hash
        → (o : Option CsrfTokenRecord)
        → d.select_one (of_token d id_at_most hash raw s now db k) db.csrf_tokens ≡ ok o
        → validity now o ≡ v
        → v ≡ valid
    verdict row session expires active only k same none j e =
        let test = of_token d id_at_most hash raw s now db k in
        let passes : test row ≡ true =
          ground (arith, eq_iff row.session_id s, eq_iff row.token_hash k) in
        absurd (
          omega (
            arith,
            d.select_one-none test db.csrf_tokens j,
            count_pos test db.csrf_tokens only.there passes,
          ))
    verdict row session expires active only k same (some x) j e =
        let (there, test) =
          d.select_one-some (of_token d id_at_most hash raw s now db k) db.csrf_tokens x j in
        let (of_session, of_hash) = &&-true _ _ test in
        let equal =
          only.alone x there (eq_of_== _ _ of_session ∙ sym session)
            (eq_of_== _ _ of_hash ∙ same) in
        sym e ∙ (ap (λ y. validity now (some y)) equal ∙ rw (active, expires, fresh) refl)

  -- A token that was issued is accepted: before it expires, and whatever tokens other sessions were
  -- issued or refused since, with the same hash or not, the validator finds it valid for its session,
  -- unless the lookup itself fails; the check changes nothing. A later issue for the same session is
  -- left out, since it may evict the token.
  pub issue_token-check_token :
      (token id : Outcome String) (input : IssueCsrfTokenForSessionInput) (r : IssuedCsrfToken)
      (is : List IssueCommand) (now : Timestamp) (v : CsrfTokenValidation) (db db' later : Database)
      → issue_token d id_at_most hash token id input db ≡ (ok r, db')
      → AllFor (λ s. (input.session_id == s) ≡ false) is
      → at_or_before r.expires_at now ≡ false
      → check_token d id_at_most hash r.csrf_token
          (some input.session_id)
          now
          (issue_all d id_at_most hash is db')
        ≡ (ok v, later)
      → (later ≡ issue_all d id_at_most hash is db')
        × ((v ≡ valid) ⊎ (v ≡ invalid validation_failed))
  unfolding validate
  issue_token-check_token token id input r is now v db db' later made others fresh h =
      let m = (issue_token-IsIssued d id_at_most hash token id input db).at r db' made in
      settled m.row m.hashed m.session m.expires m.active
        (issue_all-IsOnly d id_at_most hash m.row is db'
          (subst (λ k. AllFor (λ s. (k == s) ≡ false) is) (sym m.session) others)
          (BoundedInsert-IsOnly m.stored))
        (rw m.present at h)
    where
      settled :
          (row : CsrfTokenRecord)
          → hash r.csrf_token ≡ ok row.token_hash
          → row.session_id ≡ input.session_id
          → row.expires_at ≡ r.expires_at
          → is_inactive row ≡ false
          → IsOnly row (issue_all d id_at_most hash is db').csrf_tokens
          → checked d id_at_most hash r.csrf_token input.session_id now
              (issue_all d id_at_most hash is db')
              (issue_all d id_at_most hash is db')
            ≡ (ok v, later)
          → (later ≡ issue_all d id_at_most hash is db')
            × ((v ≡ valid) ⊎ (v ≡ invalid validation_failed))
      settled row hashed session expires active only h =
          let db1 = issue_all d id_at_most hash is db' in
          elim (checked-cases d id_at_most hash r.csrf_token input.session_id now db1) [
            | inl e ↦ (ground arith, inr (ground arith))
            | inr (k, o, i, j, e) ↦
                let same : k ≡ row.token_hash = ground (arith, i, hashed) in
                (
                  ground arith,
                  inl (
                      verdict input.session_id r.csrf_token now r.expires_at v db1 fresh row session
                        expires active only k same o j (ground arith)),
                )
          ]

  -- However many tokens a session asks for, at most eight of them are active at the time of the last
  -- issue.
  pub issue_token-bound :
      (token id : Outcome String) (input : IssueCsrfTokenForSessionInput) (r : IssuedCsrfToken)
      (db db' : Database)
      → issue_token d id_at_most hash token id input db ≡ (ok r, db')
      → count (is_active_of input.session_id input.now) db'.csrf_tokens ≤ 8
  issue_token-bound token id input r db db' made =
      let m = (issue_token-IsIssued d id_at_most hash token id input db).at r db' made in
      subst (λ s. count (is_active_of s input.now) db'.csrf_tokens ≤ 8) m.session
        (subst (λ n. count (is_active_of m.row.session_id n) db'.csrf_tokens ≤ 8) m.created
          m.stored.bound)

  -- A session cannot push out the tokens of another one: issuing a token keeps them.
  pub issue_token-keeps_others :
      (token id : Outcome String) (input : IssueCsrfTokenForSessionInput) (r : IssuedCsrfToken)
      (db db' : Database)
      → issue_token d id_at_most hash token id input db ≡ (ok r, db')
      → (t : CsrfTokenRecord) → Memᴰ t db.csrf_tokens
      → (t.session_id == input.session_id) ≡ false
      → Memᴰ t db'.csrf_tokens
  issue_token-keeps_others token id input r db db' made t there other =
      let m = (issue_token-IsIssued d id_at_most hash token id input db).at r db' made in
      m.stored.others t there (rw m.session other)
