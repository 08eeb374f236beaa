-- ===== src/Db/AuthStates.antt =====
-- src/db/auth-state-repository.ts: the states of sign-ins that were begun, at most ten thousand of them,
-- each consumed once.
pub mod Once
pub mod Bound
use swooshz_platform.Base.{
  ℕ, String, Bool, true, false, not, ◌&&◌, ◌||◌, Option, none, some, is_some, List, head?, length,
  take, leb, ◌==◌, if◌then◌else◌,
}
use swooshz_platform.Time.{Timestamp, at_or_before}
use swooshz_platform.Errors.{plain}
use swooshz_platform.Io.{Io, pure, throw, ◌>>=◌}
use swooshz_platform.AuthStates.{
  StoredAuthState, StoredAuthStateLifecycleRecord, AuthStateLookupInput, AuthStateRepository,
}
use swooshz_platform.Driver.{Driver}
use swooshz_platform.Db.Statements.{Database, ask, write, one_required, auth_states_clash}

abbrev pub max_persisted_auth_states : ℕ
max_persisted_auth_states = 10_000

-- `isNotNull(consumedAt)` or `isNotNull(revokedAt)`
abbrev pub is_spent : StoredAuthStateLifecycleRecord → Bool
is_spent s = is_some s.consumed_at || is_some s.revoked_at

-- The rows that `storeState` deletes.
abbrev pub is_over : Timestamp → StoredAuthStateLifecycleRecord → Bool
is_over now s = at_or_before s.expires_at now || is_spent s

abbrev pub has_key : String → String → StoredAuthStateLifecycleRecord → Bool
has_key key hash s = (s.provider_key == key) && (s.state_hash == hash)

abbrev pub is_state_of : AuthStateLookupInput → StoredAuthStateLifecycleRecord → Bool
is_state_of input = has_key input.provider_key input.state_hash

-- The rows that `consumeState` updates.
abbrev pub is_open_state_of : AuthStateLookupInput → StoredAuthStateLifecycleRecord → Bool
is_open_state_of input s = is_state_of input s && not (is_spent s)

abbrev pub consume_state_row :
    Timestamp → StoredAuthStateLifecycleRecord → StoredAuthStateLifecycleRecord
consume_state_row now s = record s { consumed_at = some now }

abbrev pub new_state_row : StoredAuthState → StoredAuthStateLifecycleRecord
new_state_row input = record { stored = input; consumed_at = none; revoked_at = none }

abbrev pub put_auth_states : List StoredAuthStateLifecycleRecord → Database → Database
put_auth_states t b = record b { auth_states = t }

-- `rows[0] ? toStoredAuthState(...) : null`
abbrev pub to_stored_auth_state : Option StoredAuthStateLifecycleRecord → Option StoredAuthState
to_stored_auth_state none = none
to_stored_auth_state (some s) = some s.stored

module _ (d : Driver) where
  abbrev pub insert_state : StoredAuthState → Io Database StoredAuthState
  insert_state input = do
    rows ← λ db.
        write put_auth_states (d.insert auth_states_clash (new_state_row input) db.auth_states) db
    row ← one_required rows
    pure row.stored

  -- The body of the transaction of `storeState`.
  unfoldable pub bounded_store : StoredAuthState → Io Database StoredAuthState
  bounded_store input = do
    _ ← λ db. write put_auth_states (d.delete (is_over input.created_at) db.auth_states) db
    retained ← λ db. ask (d.select (λ _. true) db.auth_states) db
    if leb max_persisted_auth_states (length (take max_persisted_auth_states retained))
        then throw plain
        else insert_state input

  abbrev pub consume_found_state :
      AuthStateLookupInput
      → Option StoredAuthStateLifecycleRecord
      → Io Database (Option StoredAuthState)
  consume_found_state input none = pure none
  consume_found_state input (some s) = if is_spent s then pure none else do
    rows ← λ db.
        write put_auth_states
          (d.update (is_open_state_of input) (consume_state_row input.now) db.auth_states) db
    pure (to_stored_auth_state (head? rows))

  abbrev pub drizzle_auth_state_store : AuthStateRepository Database
  drizzle_auth_state_store = record {
    store_state = λ input. d.transaction 0 (bounded_store input);
    consume_state = λ input. do
      found ← λ db. ask (d.select_one (is_state_of input) db.auth_states) db
      consume_found_state input found;
  }
