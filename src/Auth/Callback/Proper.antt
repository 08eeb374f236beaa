-- ===== src/Auth/Callback/Proper.antt =====
-- What a completed callback of src/auth/callback-service.ts over the store of
-- src/db/auth-state-repository.ts rests on.
use swooshz_platform.Base.{
  ◌≡◌, refl, sym, ap, ◌∙◌, String, true, false, not, ◌||◌, Option, none, some, Memᴰ, head?,
  eq_of_==, &&-true, arith, ◌==◌,
}
use swooshz_platform.Time.{Timestamp, at_or_before}
use swooshz_platform.Io.{
  Outcome, ok, Io, Ensures, ensures_pure, ensures_throw, ensures_if, ensures_bind, ensures_read,
}
use swooshz_platform.AuthStates.{
  StoredAuthState, StoredAuthStateLifecycleRecord, AuthStateLookupInput,
}
use swooshz_platform.Driver.{Driver}
use swooshz_platform.Db.Statements.{Database}
use swooshz_platform.Db.Triples.{ensures_ask, ensures_write}
use swooshz_platform.Db.Rows.{update-row}
use swooshz_platform.Db.AuthStates.{
  is_spent, is_state_of, is_open_state_of, consume_state_row, put_auth_states, to_stored_auth_state,
  consume_found_state,
}
use swooshz_platform.Db.AuthStates.Once.{consume_state}
use swooshz_platform.Auth.Resolver.{
  AuthProviderIdentity, AuthenticatedPlatformIdentityInput, AuthCallbackPlatformIdentityResolution,
}
use swooshz_platform.Auth.Callback.{
  AuthCallbackParams, OidcTokenExchangeInput, OidcTokenExchangeResult, OidcVerifyTokensInput,
  AuthCallbackServiceInput, AuthCallbackServiceResult, trimmed, is_set, params_of,
  parse_auth_callback_params, assert_stored_state_usable, handle_auth_callback,
}

-- The table held a state of the provider with the hash of the state that came back, unspent and in time.
pub record IsExpected (provider_key : String) (reference : String → Outcome String)
    (input : AuthCallbackServiceInput) (db : Database) : Type 0 where
  pub state : String
  pub given : trimmed input.params.state ≡ some state
  pub no_error : is_set input.params.error ≡ false
  pub hash : String
  pub hashed : reference state ≡ ok hash
  pub row : StoredAuthStateLifecycleRecord
  pub there : Memᴰ row db.auth_states
  pub same_provider : row.provider_key ≡ provider_key
  pub same_hash : row.state_hash ≡ hash
  pub unspent : is_spent row ≡ false
  pub in_time : at_or_before row.expires_at input.now ≡ false

-- The parameters that pass carry a state, and no error.
record Carries (input : AuthCallbackServiceInput) (params : AuthCallbackParams) : Type 0 where
  pub given : trimmed input.params.state ≡ some params.state
  pub no_error : is_set input.params.error ≡ false

ensures_params :
    (input : AuthCallbackServiceInput) (db : Database)
    → Ensures (parse_auth_callback_params input.params) db (λ p t. (t ≡ db) × Carries input p)
ensures_params input db =
    ensures_if (is_set input.params.error) _ _ (λ _. ensures_throw)
      λ no_error.
        parsed no_error (trimmed input.params.code_value) (trimmed input.params.state) refl
  where
    parsed :
        is_set input.params.error ≡ false
        → (c s : Option String) → trimmed input.params.state ≡ s
        → Ensures (params_of c s) db (λ p t. (t ≡ db) × Carries input p)
    parsed no_error none s e = ensures_throw
    parsed no_error (some c) none e = ensures_throw
    parsed no_error (some c) (some s) e =
        ensures_pure (refl, record { given = e; no_error = no_error })

module _ (d : Driver) where
  -- The state that is answered was an open one of the table.
  record Answers (input : AuthStateLookupInput) (s : StoredAuthState) (db : Database) : Type 0 where
    pub row : StoredAuthStateLifecycleRecord
    pub there : Memᴰ row db.auth_states
    pub is_open : is_open_state_of input row ≡ true
    pub same : row.stored ≡ s

  to_stored-some :
      (o : Option StoredAuthStateLifecycleRecord) (s : StoredAuthState)
      → to_stored_auth_state o ≡ some s
      → (r : StoredAuthStateLifecycleRecord) × (o ≡ some r) × (r.stored ≡ s)
  to_stored-some none s e = absurd (ground arith)
  to_stored-some (some r) s e = (r, refl, ground arith)

  consume_state-Answers :
      (input : AuthStateLookupInput) (db : Database)
      → Ensures
          (consume_state d input)
          db
          (λ o _. (s : StoredAuthState) → o ≡ some s → Answers input s db)
  consume_state-Answers input db =
      ensures_read (ensures_ask (λ s. d.select_one (is_state_of input) s.auth_states) db)
        λ o _. found o
    where
      found :
          (o : Option StoredAuthStateLifecycleRecord)
          → Ensures
              (consume_found_state d input o)
              db
              (λ a _. (s : StoredAuthState) → a ≡ some s → Answers input s db)
      found none = ensures_pure λ s e. absurd (ground arith)
      found (some x) =
          ensures_if (is_spent x) _ _ (λ _. ensures_pure λ s e. absurd (ground arith))
            λ _.
              ensures_bind
                (ensures_write put_auth_states
                  (λ b.
                    d.update (is_open_state_of input) (consume_state_row input.now) b.auth_states)
                  db)
                λ rows u (table, w, _). ensures_pure λ s e.
                  let (r, first, of_r) = to_stored-some (head? rows) s e in
                  let (y, there, passes, new) =
                    update-row d (is_open_state_of input) (consume_state_row input.now)
                      db.auth_states rows table w first in
                  record {
                    row = y;
                    there = there;
                    is_open = passes;
                    same = ap (λ (z : StoredAuthStateLifecycleRecord). z.stored) (sym new) ∙ of_r;
                  }

  module _ (to_lower_case : String → String) (provider_key : String)
      (reference : String → Outcome String)
      (exchange : OidcTokenExchangeInput → Io Database OidcTokenExchangeResult)
      (verify : OidcVerifyTokensInput → Io Database AuthProviderIdentity)
      (resolve : AuthenticatedPlatformIdentityInput
        → Io Database AuthCallbackPlatformIdentityResolution) where
    -- The service over the store of states, with any provider and any resolver of identities.
    abbrev pub finish_sign_in : AuthCallbackServiceInput → Io Database AuthCallbackServiceResult
    finish_sign_in = handle_auth_callback to_lower_case (record {
      provider_key = provider_key;
      exchange_code_for_tokens = exchange;
      verify_tokens = verify;
      consume_state = consume_state d;
      state_reference_factory = λ raw db. (reference raw, db);
      resolve_authenticated_identity = resolve;
    })

    ensures_usable :
        (o : Option StoredAuthState) (hash : String) (now : Timestamp) (t : Database)
        → Ensures
            (assert_stored_state_usable o provider_key hash now)
            t
            (λ s _. (o ≡ some s) × (at_or_before s.expires_at now ≡ false))
    ensures_usable none hash now t = ensures_throw
    ensures_usable (some s) hash now t =
        ensures_if (not (s.provider_key == provider_key) || not (s.state_hash == hash)) _ _
          (λ _. ensures_throw)
          λ _.
            ensures_if (at_or_before s.expires_at now) _ _ (λ _. ensures_throw)
              λ live. ensures_pure (refl, live)

    -- A callback that completes came back without an error, with a state whose hash the table held for the
    -- provider, neither spent nor expired, whatever the provider and the resolver do.
    pub handle_auth_callback-IsExpected :
        (input : AuthCallbackServiceInput) (r : AuthCallbackServiceResult) (db db' : Database)
        → finish_sign_in input db ≡ (ok r, db')
        → IsExpected provider_key reference input db
    unfolding handle_auth_callback
    handle_auth_callback-IsExpected input r db db' h = checked.at r db' h
      where
        checked :
            Ensures (finish_sign_in input) db (λ _ _. IsExpected provider_key reference input db)
        checked = ensures_read (ensures_params input db) λ params carries.
            ensures_read {P = λ hash. reference params.state ≡ ok hash}
              (record { at = λ v t i. (ground arith, ground arith) })
              λ hash hashed. ensures_bind (consume_state-Answers _ db) λ o t answers.
                ensures_bind (ensures_usable o hash input.now t) λ s u (same, live).
                  let a = answers s same in
                  let (of_key, unspent) = &&-true _ _ a.is_open in
                  let (of_provider, of_hash) = &&-true _ _ of_key in
                  record {
                    at = λ _ _ _. record {
                      state = params.state;
                      given = carries.given;
                      no_error = carries.no_error;
                      hash = hash;
                      hashed = hashed;
                      row = a.row;
                      there = a.there;
                      same_provider = eq_of_== _ _ of_provider;
                      same_hash = eq_of_== _ _ of_hash;
                      unspent = ground (arith, unspent);
                      in_time =
                          ap (λ (z : StoredAuthState). at_or_before z.expires_at input.now) a.same
                          ∙ live;
                    };
                  }
