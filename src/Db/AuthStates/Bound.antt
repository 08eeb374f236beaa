-- ===== src/Db/AuthStates/Bound.antt =====
-- The capacity of src/db/auth-state-repository.ts.
use swooshz_platform.Base.{
  ◌≡◌, refl, ap, ◌∙◌, ◌≤◌, ◌<◌, ℕ, suc, zero, true, false, List, [], ◌∷◌, filter, Permᴰ, length,
  head?, take, leb, arith,
}
use swooshz_platform.Io.{
  ok, Ensures, ensures_pure, ensures_throw, ensures_if, ensures_bind, ensures_read,
  ensures_required,
}
use swooshz_platform.Errors.{plain}
use swooshz_platform.AuthStates.{StoredAuthState}
use swooshz_platform.Driver.{Driver}
use swooshz_platform.Db.Statements.{Database, auth_states_clash}
use swooshz_platform.Db.Triples.{ensures_ask, ensures_write}
use swooshz_platform.Db.AuthStates.{
  max_persisted_auth_states, new_state_row, put_auth_states, insert_state, bounded_store,
}
use swooshz_platform.Db.AuthStates.Once.{store_state}

length-perm {ℓ} : {A : Type ℓ} {xs ys : List A} → Permᴰ xs ys → length xs ≡ length ys
length-perm Permᴰ.nil = refl
length-perm (Permᴰ.cons e q) = ap suc (length-perm q)
length-perm (Permᴰ.swap e f) = refl
length-perm (Permᴰ.trans q r) = length-perm q ∙ length-perm r

filter-true {ℓ} : {A : Type ℓ} (xs : List A) → filter (λ _. true) xs ≡ xs
filter-true [] = refl
filter-true (x ∷ xs) = ap (λ l. x ∷ l) (filter-true xs)

-- A prefix that is not full is the whole list.
take_short {ℓ} : {A : Type ℓ} (n : ℕ) (xs : List A) → length (take n xs) < n → length xs < n
take_short zero xs h = absurd (omega (arith, h))
take_short (suc n) [] h = omega arith
take_short (suc n) (x ∷ xs) h = omega (arith, take_short n xs (omega (arith, h)))

room_left {ℓ} :
    {A : Type ℓ} (n : ℕ) (retained t : List A)
    → Permᴰ retained (filter (λ _. true) t)
    → leb n (length (take n retained)) ≡ false
    → length t < n
room_left n retained t e h =
    let short : length (take n retained) < n = ground (arith, h) in
    omega (arith, take_short n retained short, length-perm e, ap length (filter-true t))

module _ (d : Driver) where
  insert_bound :
      (n : ℕ) (input : StoredAuthState) (db : Database)
      → length db.auth_states < n
      → Ensures (insert_state d input) db (λ _ t. length t.auth_states ≤ n)
  insert_bound n input db room =
      ensures_bind
        (ensures_write put_auth_states
          (λ b. d.insert auth_states_clash (new_state_row input) b.auth_states) db)
        λ rows t (table, w, same).
          let (_, grown, _) =
            d.insert_rows auth_states_clash (new_state_row input) db.auth_states rows table w in
          let long : length t.auth_states ≡ suc (length db.auth_states) =
            ap (λ (b : Database). length b.auth_states) same ∙ length-perm grown in
          ensures_bind {P = λ _ u. u ≡ t} (ensures_required plain (head? rows) λ _ _. refl)
            λ row u e.
              ensures_pure
                (omega (arith, long, ap (λ (b : Database). length b.auth_states) e, room))

  -- After a sign-in began, at most ten thousand states are kept, however many there were.
  pub store_state-bound :
      (input s : StoredAuthState) (db db1 : Database)
      → store_state d input db ≡ (ok s, db1)
      → length db1.auth_states ≤ max_persisted_auth_states
  unfolding bounded_store
  store_state-bound input s db db1 h =
      (ensures_bind {P = λ _ _. Unit {0}} (record { at = λ a t i. tt })
          λ rows t _.
            ensures_read (ensures_ask (λ b. d.select (λ _. true) b.auth_states) t) λ retained e.
              ensures_if (leb 10_000 (length (take 10_000 retained))) _ _ (λ _. ensures_throw)
                λ room. insert_bound 10_000 input t (
                  room_left 10_000 retained t.auth_states
                    (d.select_rows (λ _. true) t.auth_states retained e) room)).at
        s db1 (d.transaction_commits 0 (bounded_store d input) db db1 s h)
