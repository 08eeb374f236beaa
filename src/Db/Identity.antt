-- ===== src/Db/Identity.antt =====
-- The repositories of users, provider identities and sessions in src/db/repositories.ts.
use swooshz_platform.Base.{String, Bool, not, ◌&&◌, some, head?, is_some, ◌==◌}
use swooshz_platform.Time.{Timestamp}
use swooshz_platform.Io.{pure, ◌>>=◌}
use swooshz_platform.Accounts.{Session}
use swooshz_platform.Ports.{UserRepository, ProviderIdentityRepository, SessionRepository}
use swooshz_platform.Driver.{Driver}
use swooshz_platform.Db.Statements.{
  Database, ask, write, one_required, users_clash, provider_identities_clash, sessions_clash,
}

abbrev pub revoke_row : Timestamp → Session → Session
revoke_row t s = record s { revoked_at = some t }

abbrev pub active_session_of : String → Session → Bool
active_session_of user_id s = (s.user_id == user_id) && not (is_some s.revoked_at)

module _ (d : Driver) where
  abbrev pub drizzle_users : UserRepository Database
  drizzle_users = record {
    find_by_id = λ id db. ask (d.select_one (λ u. u.id == id) db.users) db;
    find_by_normalized_email = λ email db. ask (d.select_one (λ u. u.email == email) db.users) db;
    create = λ user. do
      rows ← λ db. write (λ t b. record b { users = t }) (d.insert users_clash user db.users) db
      one_required rows;
  }

  abbrev pub drizzle_provider_identities : ProviderIdentityRepository Database
  drizzle_provider_identities = record {
    find_by_provider_subject = λ key subject db.
        ask
          (d.select_one (λ p. (p.provider_key == key) && (p.provider_subject == subject))
            db.provider_identities)
          db;
    list_for_user =
        λ user_id db. ask (d.select (λ p. p.user_id == user_id) db.provider_identities) db;
    create = λ identity. do
      rows ← λ db.
          write (λ t b. record b { provider_identities = t })
            (d.insert provider_identities_clash identity db.provider_identities) db
      one_required rows;
  }

  abbrev pub drizzle_sessions : SessionRepository Database
  drizzle_sessions = record {
    find_by_id = λ id db. ask (d.select_one (λ s. s.id == id) db.sessions) db;
    create = λ session. do
      rows ← λ db.
          write (λ t b. record b { sessions = t }) (d.insert sessions_clash session db.sessions) db
      one_required rows;
    revoke = λ id revoked_at. do
      rows ← λ db.
          write (λ t b. record b { sessions = t })
            (d.update (λ s. s.id == id) (revoke_row revoked_at) db.sessions) db
      pure (head? rows);
    revoke_active_for_user = λ user_id revoked_at db.
        write (λ t b. record b { sessions = t })
          (d.update (active_session_of user_id) (revoke_row revoked_at) db.sessions) db;
  }
