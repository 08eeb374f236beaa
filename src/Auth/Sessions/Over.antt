-- ===== src/Auth/Sessions/Over.antt =====
-- A session that src/auth/session-revocation-service.ts revoked launches no app.
use mathlib.Core.Path.{subst}
use swooshz_platform.Base.{
  ◌≡◌, refl, sym, ap, ◌∙◌, ◌≤◌, String, Bool, true, false, Option, none, some, is_some, List, Memᴰ,
  mem-perm, count, unique_of_count, Bool-cases, inl, inr, eq_of_==, eq_iff, arith, ◌==◌,
}
use swooshz_platform.Time.{Timestamp}
use swooshz_platform.Io.{
  ok, Io, pure, Ensures, ensures_pure, ensures_if, ensures_bind, ensures_read, ensures_catching,
}
use swooshz_platform.Accounts.{Session}
use swooshz_platform.Driver.{Driver}
use swooshz_platform.Db.Statements.{Database}
use swooshz_platform.Db.Triples.{ensures_ask, ensures_write}
use swooshz_platform.Db.Rows.{mem_of_map-update_where}
use swooshz_platform.Db.Identity.{revoke_row, drizzle_sessions}
use swooshz_platform.Db.Repositories.{drizzle_repositories}
use swooshz_platform.Services.AppAccess.{
  ProtectedAppAccessDecisionInput, ProtectedAppAccessDecisionResult, denied, missing_session,
  gate_session, decide_protected_app_access,
}
use swooshz_platform.Services.AppAccess.Allowed.{was_allowed}
use swooshz_platform.Auth.Sessions.{
  SessionRevocationResult, SessionRevocationInput, revoked, already_revoked, not_found,
  revoke_found, revoke_if_found, revoke_platform_session,
}

-- Every session with the id is revoked.
pub record IsOver (id : String) (db : Database) : Type 0 where
  pub at : (x : Session) → Memᴰ x db.sessions → x.id ≡ id → is_some x.revoked_at ≡ true

abbrev pub was_found : SessionRevocationResult → Bool
was_found not_found = false
was_found (revoked id t) = true
was_found (already_revoked id t) = true

module _ (d : Driver) where
  abbrev pub revoke_session : SessionRevocationInput → Io Database SessionRevocationResult
  revoke_session = revoke_platform_session (drizzle_sessions d)

  revoked_rows :
      (id : String) (now : Timestamp) (db : Database) (rows table : List Session)
      → d.update (λ s. s.id == id) (revoke_row now) db.sessions ≡ ok (rows, table)
      → IsOver id (record db { sessions = table })
  revoked_rows id now db rows table w = record {
    at = λ y m e.
        let (_, grown) =
          d.update_rows (λ s. s.id == id) (revoke_row now) db.sessions rows table w in
        let (x, _, same) =
          mem_of_map-update_where (λ s. s.id == id) (revoke_row now) db.sessions
            (mem-perm grown m) in
        elim (Bool-cases (x.id == id)) [
          | inl hit ↦ ap (λ (s : Session). is_some s.revoked_at) same ∙ rw hit refl
          | inr miss ↦
              let kept : y ≡ x = same ∙ rw miss refl in
              absurd (
                let same_id : x.id ≡ id = ap (λ (s : Session). s.id) (sym kept) ∙ e in
                ground (arith, (eq_iff x.id id).1 same_id, miss))
        ];
  }

  revoke_session-IsOver :
      (input : SessionRevocationInput) (db : Database)
      → count (λ (s : Session). s.id == input.session_id) db.sessions ≤ 1
      → Ensures (revoke_session input) db (λ r t. was_found r ≡ true → IsOver input.session_id t)
  unfolding revoke_platform_session
  revoke_session-IsOver input db unique =
      ensures_read
        (ensures_catching _ _
          (ensures_ask (λ s. d.select_one (λ x. x.id == input.session_id) s.sessions) db))
        found
    where
      found_session :
          (s : Session)
          → d.select_one (λ x. x.id == input.session_id) db.sessions ≡ ok (some s)
          → (t : Option Timestamp) → s.revoked_at ≡ t
          → Ensures
              (revoke_found (drizzle_sessions d) input s t)
              db
              (λ r t. was_found r ≡ true → IsOver input.session_id t)
      found_session s h (some t) e = ensures_pure λ _.
          let (there, test) =
            d.select_one-some (λ (x : Session). x.id == input.session_id) db.sessions s h in
          record {
            at = λ x m same.
                let equal : x ≡ s =
                  unique_of_count (λ (y : Session). y.id == input.session_id) db.sessions unique m
                    there ((eq_iff x.id input.session_id).1 same) test in
                ap (λ (y : Session). is_some y.revoked_at) equal ∙ ap is_some e;
          }
      found_session s h none e =
          ensures_bind {P = λ _ t. IsOver input.session_id t}
            (ensures_catching _ _ (
              ensures_bind
                (ensures_write (λ t b. record b { sessions = t })
                  (λ b. d.update (λ x. x.id == input.session_id) (revoke_row input.now) b.sessions)
                  db)
                λ rows t (table, w, same). ensures_pure (
                  subst (IsOver input.session_id) (sym same)
                    (revoked_rows input.session_id input.now db rows table w))))
            λ o t is_over. ensures_pure λ _. is_over

      found :
          (o : Option Session)
          → d.select_one (λ x. x.id == input.session_id) db.sessions ≡ ok o
          → Ensures
              (revoke_if_found (drizzle_sessions d) input o)
              db
              (λ r t. was_found r ≡ true → IsOver input.session_id t)
      found none h = ensures_pure λ e. absurd (ground arith)
      found (some s) h = found_session s h s.revoked_at refl

  denied-IsOver :
      (input : ProtectedAppAccessDecisionInput) (db : Database)
      → IsOver input.session_id db
      → Ensures
          (decide_protected_app_access (drizzle_repositories d) input)
          db
          (λ a _. was_allowed a ≡ false)
  unfolding decide_protected_app_access
  denied-IsOver input db is_over =
      ensures_read
        (ensures_catching _ _
          (ensures_ask (λ s. d.select_one (λ x. x.id == input.session_id) s.sessions) db))
        go
    where
      go :
          (o : Option Session)
          → d.select_one (λ x. x.id == input.session_id) db.sessions ≡ ok o
          → Ensures
              (elim o [
                | none ↦ pure (denied missing_session none)
                | some s ↦ gate_session (drizzle_repositories d) input s
              ])
              db
              (λ a _. was_allowed a ≡ false)
      go none h = ensures_pure refl
      go (some s) h =
          let (there, test) =
            d.select_one-some (λ (x : Session). x.id == input.session_id) db.sessions s h in
          ensures_if (is_some s.revoked_at) _ _ (λ _. ensures_pure refl)
            λ live. absurd (ground (arith, is_over.at s there (eq_of_== _ _ test), live))

  -- A session that was revoked, now or before, launches nothing: where session ids are unique, and the
  -- service found the session, the protected decision for it that returns is a refusal, whatever it asks.
  pub revoke_session-denies :
      (input : SessionRevocationInput) (r : SessionRevocationResult) (db db' : Database)
      → count (λ (s : Session). s.id == input.session_id) db.sessions ≤ 1
      → revoke_session input db ≡ (ok r, db')
      → was_found r ≡ true
      → (asked : ProtectedAppAccessDecisionInput) → asked.session_id ≡ input.session_id
      → (a : ProtectedAppAccessDecisionResult) (db'' : Database)
      → decide_protected_app_access (drizzle_repositories d) asked db' ≡ (ok a, db'')
      → was_allowed a ≡ false
  revoke_session-denies input r db db' unique h found asked same a db'' k =
      (denied-IsOver asked db' (
          subst (λ i. IsOver i db') (sym same)
            ((revoke_session-IsOver input db unique).at r db' h found))).at
        a db'' k
