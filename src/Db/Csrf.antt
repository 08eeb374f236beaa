-- ===== src/Db/Csrf.antt =====
-- src/db/csrf-token-repository.ts: the CSRF tokens of a session, at most eight of them active.
pub mod Bound
use swooshz_platform.Base.{
  ℕ, zero, suc, ◌-◌, String, Bool, true, false, not, ◌&&◌, ◌||◌, Option, none, some, is_some, List,
  [], ◌∷◌, map, any, head?, length, drop, sort_by, ltb, leb, ◌==◌, if◌then◌else◌,
}
use swooshz_platform.Time.{Timestamp, at, malformed, at_or_before, is_after}
use swooshz_platform.Errors.{plain}
use swooshz_platform.Io.{Io, pure, throw, ◌>>=◌, ◌>>◌}
use swooshz_platform.Csrf.{CsrfTokenRecord, CsrfTokenRepository}
use swooshz_platform.Driver.{Driver}
use swooshz_platform.Db.Statements.{Database, ask, write, one_required, csrf_tokens_clash}

abbrev pub max_active_csrf_tokens_per_session_purpose : ℕ
max_active_csrf_tokens_per_session_purpose = 8

-- `isNotNull(consumedAt)` or `isNotNull(revokedAt)`
abbrev pub is_inactive : CsrfTokenRecord → Bool
is_inactive t = is_some t.consumed_at || is_some t.revoked_at

-- The rows of the first `delete`: those of the session that are no longer active.
abbrev pub is_stale_of : String → Timestamp → CsrfTokenRecord → Bool
is_stale_of session_id now t =
    (t.session_id == session_id) && (at_or_before t.expires_at now || is_inactive t)

-- The rows of the `select`: the active ones of the session.
abbrev pub is_active_of : String → Timestamp → CsrfTokenRecord → Bool
is_active_of session_id now t =
    (t.session_id == session_id) && (is_after t.expires_at now && not (is_inactive t))

-- `toTimestamp` throws on a date that is not one.
abbrev pub has_bad_date : CsrfTokenRecord → Bool
has_bad_date t = elim t.created_at [ at _ ↦ false | malformed ↦ true ]

abbrev pub created_ms : Timestamp → ℕ
created_ms (at ms) = ms
created_ms malformed = 0

-- `compareNewestFirst`, given the order of `localeCompare` on ids: whether the left row may stand
-- before the right one.
abbrev pub newest_first : (String → String → Bool) → CsrfTokenRecord → CsrfTokenRecord → Bool
newest_first id_at_most left right =
    if ltb (created_ms right.created_at) (created_ms left.created_at)
    then true
    else if ltb (created_ms left.created_at) (created_ms right.created_at)
    then false
    else id_at_most right.id left.id

-- `sort` calls the comparison where there are two rows or more.
abbrev pub select_oldest_csrf_token_ids :
    {S : Type 0} → (String → String → Bool) → List CsrfTokenRecord → ℕ → Io S (List String)
select_oldest_csrf_token_ids id_at_most rows retained =
    if ltb 1 (length rows) && any has_bad_date rows
    then throw plain
    else pure (map (λ t. t.id) (drop retained (sort_by (newest_first id_at_most) rows)))

-- `inArray(id, ids)` among the rows of the session
abbrev pub is_evicted_of : String → List String → CsrfTokenRecord → Bool
is_evicted_of session_id ids t = (t.session_id == session_id) && any (λ k. k == t.id) ids

abbrev pub put_csrf_tokens : List CsrfTokenRecord → Database → Database
put_csrf_tokens t b = record b { csrf_tokens = t }

module _ (d : Driver) (id_at_most : String → String → Bool) where
  -- The delete runs where there is something to evict.
  abbrev pub evict : String → List String → Io Database (Unit {0})
  evict session_id [] = pure tt
  evict session_id (k ∷ ids) = do
    _ ← λ db.
        write put_csrf_tokens (d.delete (is_evicted_of session_id (k ∷ ids)) db.csrf_tokens) db
    pure tt

  -- The body of the transaction.
  unfoldable pub bounded_insert : CsrfTokenRecord → Io Database CsrfTokenRecord
  bounded_insert input = do
    _ ← λ db.
        write put_csrf_tokens
          (d.delete (is_stale_of input.session_id input.created_at) db.csrf_tokens) db
    active ← λ db. ask (d.select (is_active_of input.session_id input.created_at) db.csrf_tokens) db
    ids ←
        select_oldest_csrf_token_ids id_at_most active
          (max_active_csrf_tokens_per_session_purpose - 1)
    evict input.session_id ids
    rows ← λ db. write put_csrf_tokens (d.insert csrf_tokens_clash input db.csrf_tokens) db
    one_required rows

  abbrev pub drizzle_csrf_tokens : CsrfTokenRepository Database
  drizzle_csrf_tokens = record {
    create_bounded_for_session = λ input. d.transaction 0 (bounded_insert input);
    find_by_session_and_token_hash = λ session_id hash purpose db.
        ask
          (d.select_one (λ t. (t.session_id == session_id) && (t.token_hash == hash))
            db.csrf_tokens)
          db;
  }
