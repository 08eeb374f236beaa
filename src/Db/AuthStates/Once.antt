-- ===== src/Db/AuthStates/Once.antt =====
-- The states of src/db/auth-state-repository.ts: a state is consumed once, and there are not too many.
use mathlib.Core.Path.{subst}
use swooshz_platform.Base.{
  ℕ, ◌≡◌, ◌⊎◌, inl, inr, refl, sym, ap, ◌∙◌, String, Bool, true, false, not, ◌&&◌, Option, none,
  some, List, [], ◌∷◌, Memᴰ, mem-perm, mem-filter, count, head?, length, take, leb, Bool-cases,
  arith, ◌==◌,
}
use swooshz_platform.Time.{Timestamp}
use swooshz_platform.Errors.{plain}
use swooshz_platform.Io.{
  Outcome, ok, thrown, Io, Ensures, ensures_pure, ensures_if, ensures_bind, ensures_read,
}
use swooshz_platform.Io.Keeps.{Keeps, Keeps-pure, Keeps-throw, Keeps-required, Keeps-if, Keeps-bind}
use swooshz_platform.AuthStates.{
  StoredAuthState, StoredAuthStateLifecycleRecord, AuthStateLookupInput,
}
use swooshz_platform.Driver.{Driver, Written}
use swooshz_platform.Db.Statements.{Database, write, ask, auth_states_clash}
use swooshz_platform.Db.Triples.{ensures_ask, ensures_write}
use swooshz_platform.Db.AuthStates.{
  max_persisted_auth_states, is_spent, is_over, has_key, is_state_of, is_open_state_of,
  consume_state_row, new_state_row, put_auth_states, insert_state, bounded_store,
  consume_found_state, drizzle_auth_state_store,
}
use swooshz_platform.Db.Rows.{mem_of_map-update_where}

-- Every state with the key and the hash was consumed or revoked.
pub record IsShut (key hash : String) (db : Database) : Type 0 where
  pub at :
      (x : StoredAuthStateLifecycleRecord)
      → Memᴰ x db.auth_states
      → has_key key hash x ≡ true
      → is_spent x ≡ true

-- What the store is asked for: a state of a sign-in that begins, or of one that ends.
pub data StateCommand : Type 0 where
  begin : StoredAuthState → StateCommand
  finish : AuthStateLookupInput → StateCommand

-- A sign-in begins with the key and the hash.
abbrev pub begins : String → String → StateCommand → Bool
begins key hash (begin input) = (input.provider_key == key) && (input.state_hash == hash)
begins key hash (finish input) = false

module _ (d : Driver) where
  abbrev pub store_state : StoredAuthState → Io Database StoredAuthState
  store_state = (drizzle_auth_state_store d).store_state

  abbrev pub consume_state : AuthStateLookupInput → Io Database (Option StoredAuthState)
  consume_state = (drizzle_auth_state_store d).consume_state

  abbrev pub perform_state : StateCommand → Database → Database
  perform_state (begin input) db = (store_state input db).1
  perform_state (finish input) db = (consume_state input db).1

  unfoldable pub perform_states : List StateCommand → Database → Database
  perform_states [] db = db
  perform_states (c ∷ cs) db = perform_states cs (perform_state c db)

module _ {P : Database → Type 0} where
  Keeps-transaction :
      {A : Type 0} (d : Driver) (n : ℕ) (m : Io Database A)
      → Keeps P m
      → Keeps P (d.transaction n m)
  Keeps-transaction d n m k = record {
    at = λ s h. ended s h (d.transaction n m s).0 (d.transaction n m s).1 refl;
  }
    where
      ended :
          (s : Database) → P s → (o : Outcome _) (t : Database) → d.transaction n m s ≡ (o, t) → P t
      ended s h (ok a) t e = subst P (ap (λ r. r.1) (d.transaction_commits n m s t a e)) (k.at s h)
      ended s h (thrown x) t e = subst P (sym (d.transaction_undone n m s t x e).0) h

count_none {ℓ} :
    {A : Type ℓ} (p : A → Bool) (x : A) (xs : List A)
    → count p (x ∷ xs) ≡ 0
    → (p x ≡ false) × (count p xs ≡ 0)
count_none p x xs h = elim (Bool-cases (p x)) [
  | inl e ↦ absurd (ground (arith, e, h))
  | inr e ↦ (e, ground (arith, e, h))
]

asked :
    {P : Database → Type 0} {A : Type 0} (f : Database → Outcome A) → Keeps P (λ db. ask (f db) db)
asked f = record { at = λ s h. h }

module _ {key hash : String} where
  written-IsShut :
      (f : List StoredAuthStateLifecycleRecord → Written StoredAuthStateLifecycleRecord)
      → ((t rows table : List StoredAuthStateLifecycleRecord)
          → f t ≡ ok (rows, table)
          → (y : StoredAuthStateLifecycleRecord) → Memᴰ y table
          → has_key key hash y ≡ true
          → is_spent y ≡ true
            ⊎ ((x : StoredAuthStateLifecycleRecord) × Memᴰ x t
                × (has_key key hash x ≡ true)
                × (is_spent x ≡ true → is_spent y ≡ true)))
      → Keeps (IsShut key hash) (λ db. write put_auth_states (f db.auth_states) db)
  written-IsShut f k = record { at = λ db s. done db s (f db.auth_states) refl }
    where
      done :
          (db : Database)
          → IsShut key hash db
          → (w : Written StoredAuthStateLifecycleRecord) → f db.auth_states ≡ w
          → IsShut key hash (write put_auth_states w db).1
      done db s (thrown e) h = s
      done db s (ok (rows, table)) h = record {
        at = λ y m of_key. elim (k db.auth_states rows table h y m of_key) [
          | inl spent ↦ spent
          | inr (x, n, same_key, follows) ↦ follows (s.at x n same_key)
        ];
      }

  module _ (d : Driver) where
    consume_state-Keeps :
        (input : AuthStateLookupInput) → Keeps (IsShut key hash) (consume_state d input)
    consume_state-Keeps input = Keeps-bind (record { at = λ s h. h }) found
      where
        found :
            (o : Option StoredAuthStateLifecycleRecord)
            → Keeps (IsShut key hash) (consume_found_state d input o)
        found none = Keeps-pure
        found (some s) = Keeps-if (is_spent s) Keeps-pure (
            Keeps-bind
              (written-IsShut (d.update (is_open_state_of input) (consume_state_row input.now))
                λ t rows table e y m of_key.
                  let (_, grown) =
                    d.update_rows (is_open_state_of input) (consume_state_row input.now) t rows
                      table e in
                  let (x, n, same) =
                    mem_of_map-update_where (is_open_state_of input) (consume_state_row input.now) t
                      (mem-perm grown m) in
                  elim (Bool-cases (is_open_state_of input x)) [
                    | inl hit ↦ inl (ap is_spent same ∙ rw hit refl)
                    | inr miss ↦
                        let kept : y ≡ x = same ∙ rw miss refl in
                        inr (
                          x,
                          n,
                          ap (has_key key hash) (sym kept) ∙ of_key,
                          λ spent. ap is_spent kept ∙ spent,
                        )
                  ])
              λ rows. Keeps-pure)

    insert_state-Keeps :
        (input : StoredAuthState)
        → begins key hash (begin input) ≡ false
        → Keeps (IsShut key hash) (insert_state d input)
    insert_state-Keeps input other =
        Keeps-bind
          (written-IsShut (d.insert auth_states_clash (new_state_row input))
            λ t rows table e y m of_key.
              let (_, grown, _) =
                d.insert_rows auth_states_clash (new_state_row input) t rows table e in
              elim (mem-perm grown m) [
                | Memᴰ.head same ↦ absurd (
                    let k : has_key key hash (new_state_row input) ≡ true =
                      ap (has_key key hash) (sym same) ∙ of_key in
                    ground arith)
                | Memᴰ.tail n ↦ inr (y, n, of_key, λ spent. spent)
              ])
          λ rows. Keeps-bind (Keeps-required plain (head? rows)) λ row. Keeps-pure

    bounded_store-Keeps :
        (input : StoredAuthState)
        → begins key hash (begin input) ≡ false
        → Keeps (IsShut key hash) (bounded_store d input)
    unfolding bounded_store
    bounded_store-Keeps input other =
        Keeps-bind
          (written-IsShut (d.delete (is_over input.created_at)) λ t rows table e y m of_key.
            let (_, left) = d.delete_rows (is_over input.created_at) t rows table e in
            let (there, _) =
              mem-filter (λ r. not (is_over input.created_at r)) t (mem-perm left m) in
            inr (y, there, of_key, λ spent. spent))
          λ _. Keeps-bind (asked λ db. d.select (λ _. true) db.auth_states) λ retained.
            Keeps-if
              (leb max_persisted_auth_states (length (take max_persisted_auth_states retained)))
              Keeps-throw (insert_state-Keeps input other)

    store_state-Keeps :
        (input : StoredAuthState)
        → begins key hash (begin input) ≡ false
        → Keeps (IsShut key hash) (store_state d input)
    store_state-Keeps input other =
        Keeps-transaction d 0 (bounded_store d input) (bounded_store-Keeps input other)

    pub perform_states-Keeps :
        (cs : List StateCommand) (db : Database)
        → count (begins key hash) cs ≡ 0
        → IsShut key hash db
        → IsShut key hash (perform_states d cs db)
    unfolding perform_states
    perform_states-Keeps [] db h s = s
    perform_states-Keeps (begin input ∷ cs) db h s =
        let (other, none_left) = count_none (begins key hash) (begin input) cs h in
        perform_states-Keeps cs _ none_left ((store_state-Keeps input other).at db s)
    perform_states-Keeps (finish input ∷ cs) db h s =
        perform_states-Keeps cs _ (ground arith) ((consume_state-Keeps input).at db s)

module _ (d : Driver) where
  -- A state that is answered was open, and every state of its key is spent then.
  consume_state-IsShut :
      (input : AuthStateLookupInput) (db : Database)
      → Ensures
          (consume_state d input)
          db
          (λ o t. (s : StoredAuthState) → o ≡ some s → IsShut input.provider_key input.state_hash t)
  consume_state-IsShut input db =
      ensures_bind {P = λ _ _. Unit {0}} (record { at = λ a t h. tt }) λ o t _. found o t
    where
      spent_of_miss :
          (z : StoredAuthStateLifecycleRecord)
          → is_state_of input z ≡ true
          → is_open_state_of input z ≡ false
          → is_spent z ≡ true
      spent_of_miss z of_key miss = elim (Bool-cases (is_spent z)) [
        | inl e ↦ e
        | inr e ↦ absurd (
            let k : is_open_state_of input z ≡ true = rw (of_key, e) refl in
            ground (arith, k, miss))
      ]

      found :
          (o : Option StoredAuthStateLifecycleRecord) (t : Database)
          → Ensures (consume_found_state d input o) t (λ a u.
            (s : StoredAuthState) → a ≡ some s → IsShut input.provider_key input.state_hash u)
      found none t = ensures_pure λ s e. absurd (ground arith)
      found (some x) t =
          ensures_if (is_spent x) _ _ (λ _. ensures_pure λ s e. absurd (ground arith))
            λ _.
              ensures_bind
                (ensures_write put_auth_states
                  (λ b.
                    d.update (is_open_state_of input) (consume_state_row input.now) b.auth_states)
                  t)
                λ rows u (table, w, same). ensures_pure λ s e.
                  subst (IsShut input.provider_key input.state_hash) (sym same) (record {
                    at = λ y m of_key.
                        let (_, grown) =
                          d.update_rows (is_open_state_of input) (consume_state_row input.now)
                            t.auth_states rows table w in
                        let (z, n, of_z) =
                          mem_of_map-update_where (is_open_state_of input)
                            (consume_state_row input.now) t.auth_states (mem-perm grown m) in
                        elim (Bool-cases (is_open_state_of input z)) [
                          | inl hit ↦ ap is_spent of_z ∙ rw hit refl
                          | inr miss ↦
                              let kept : y ≡ z = of_z ∙ rw miss refl in
                              let z_key : is_state_of input z ≡ true =
                                ap (is_state_of input) (sym kept) ∙ of_key in
                              ap is_spent kept ∙ spent_of_miss z z_key miss
                        ];
                  })

  consume_state-refused :
      (input : AuthStateLookupInput) (db : Database)
      → IsShut input.provider_key input.state_hash db
      → Ensures (consume_state d input) db (λ o _. o ≡ none)
  consume_state-refused input db shut =
      ensures_read (ensures_ask (λ s. d.select_one (is_state_of input) s.auth_states) db)
        λ o e. found o e
    where
      found :
          (o : Option StoredAuthStateLifecycleRecord)
          → d.select_one (is_state_of input) db.auth_states ≡ ok o
          → Ensures (consume_found_state d input o) db (λ a _. a ≡ none)
      found none e = ensures_pure refl
      found (some x) e =
          let (there, of_key) = d.select_one-some (is_state_of input) db.auth_states x e in
          ensures_if (is_spent x) _ _ (λ _. ensures_pure refl)
            λ k. absurd (let spent = shut.at x there of_key in ground (arith, spent, k))

  -- A state of a sign-in is consumed once: after it was answered, and whatever sign-ins with other states
  -- begin and whatever sign-ins end then, a lookup of the same provider and hash that returns answers
  -- nothing.
  pub consume_state-once :
      (input : AuthStateLookupInput) (s : StoredAuthState) (db db1 : Database)
      → consume_state d input db ≡ (ok (some s), db1)
      → (cs : List StateCommand) → count (begins input.provider_key input.state_hash) cs ≡ 0
      → (now : Timestamp) (o : Option StoredAuthState) (db2 : Database)
      → consume_state d (record input { now = now }) (perform_states d cs db1) ≡ (ok o, db2)
      → o ≡ none
  consume_state-once input s db db1 h cs others now o db2 k =
      (consume_state-refused (record input { now = now }) (perform_states d cs db1)
          (perform_states-Keeps d cs db1 others
            ((consume_state-IsShut input db).at (some s) db1 h s refl))).at
        o db2 k
