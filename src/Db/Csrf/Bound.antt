-- ===== src/Db/Csrf/Bound.antt =====
-- The bound of src/db/csrf-token-repository.ts on the active tokens of a session.
use swooshz_platform.Base.{
  ◌≡◌, refl, sym, ℕ, ◌+◌, ◌≤◌, String, Bool, true, false, not, ◌&&◌, List, [], ◌∷◌, map, Memᴰ,
  Permᴰ, any, filter, mem-perm, mem-filter, mem_filter_of_mem, count, count-perm, count-filter,
  count_mono, count-sort_by, count-drop, drop, sort_by, length, ltb, ==-self, arith, ◌==◌,
}
use mathlib.Core.Path.{subst}
use mathlib.Core.List.Permᴰ
use swooshz_platform.Io.{
  Ensures, ensures_bind, ensures_if, ensures_throw, ensures_pure, ensures_read, ensures_weaker,
}
use swooshz_platform.Csrf.{CsrfTokenRecord}
use swooshz_platform.Driver.{Driver}
use swooshz_platform.Db.Statements.{Database, csrf_tokens_clash}
use swooshz_platform.Db.Triples.{ensures_ask, ensures_write, ensures_insert, ensures_from}
use swooshz_platform.Db.Csrf.{
  is_active_of, is_stale_of, is_evicted_of, newest_first, has_bad_date,
  select_oldest_csrf_token_ids, evict, put_csrf_tokens, bounded_insert,
}

-- The ids of the rows are among the rows' ids.
any-map_id :
    (rows : List CsrfTokenRecord) (t : CsrfTokenRecord)
    → Memᴰ t rows
    → any (λ k. k == t.id) (map (λ (r : CsrfTokenRecord). r.id) rows) ≡ true
any-map_id [] t m = elim m [ ]
any-map_id (r ∷ rows) t (Memᴰ.head e) = rw (← e, ==-self t.id) refl
any-map_id (r ∷ rows) t (Memᴰ.tail m) = ground (arith, any-map_id rows t m)

count-zero_of_all {ℓ} :
    {A : Type ℓ} (p : A → Bool) (xs : List A) → ((x : A) → Memᴰ x xs → p x ≡ false) → count p xs ≡ 0
count-zero_of_all p [] h = refl
count-zero_of_all p (x ∷ xs) h =
    rw (h x (Memᴰ.head refl)) (count-zero_of_all p xs (λ y m. h y (Memᴰ.tail m)))

-- Of the rows that are kept, at most as many as are retained were listed.
kept_bound :
    (first : CsrfTokenRecord → CsrfTokenRecord → Bool) (n : ℕ) (rows : List CsrfTokenRecord)
    → count
        (λ t. not (
          any (λ k. k == t.id) (map (λ (r : CsrfTokenRecord). r.id) (drop n (sort_by first rows)))))
        rows
      ≤ n
kept_bound first n rows =
    let rest = drop n (sort_by first rows) in
    let kept = λ (t : CsrfTokenRecord).
      not (any (λ k. k == t.id) (map (λ (r : CsrfTokenRecord). r.id) rest)) in
    omega (
      arith,
      count-sort_by first kept rows,
      count-drop kept n (sort_by first rows),
      count-zero_of_all kept rest (λ t m. rw (any-map_id rest t m) refl),
    )

count_cons_le {ℓ} :
    {A : Type ℓ} (p : A → Bool) (x : A) (xs : List A) → count p (x ∷ xs) ≤ 1 + count p xs
count_cons_le p x xs = ground arith

filter_all {ℓ} :
    {A : Type ℓ} (p : A → Bool) (xs : List A) → ((x : A) → p x ≡ true) → filter p xs ≡ xs
filter_all p [] h = refl
filter_all p (x ∷ xs) h = rw (h x, filter_all p xs h) refl

-- What the transaction leaves: the new token among rows that do not clash with it, the rows of other
-- sessions, and at most eight active tokens of the session.
pub record BoundedInsert (input : CsrfTokenRecord) (old new : List CsrfTokenRecord) : Type 0 where
  pub rest : List CsrfTokenRecord
  pub grown : Permᴰ new (input ∷ rest)
  pub fresh : count (csrf_tokens_clash input) rest ≡ 0
  pub kept : (x : CsrfTokenRecord) → Memᴰ x rest → Memᴰ x old
  pub others :
      (x : CsrfTokenRecord) → Memᴰ x old → (x.session_id == input.session_id) ≡ false → Memᴰ x new
  pub bound : count (is_active_of input.session_id input.created_at) new ≤ 8

module _ (d : Driver) (id_at_most : String → String → Bool) where
  abbrev oldest : List CsrfTokenRecord → List String
  oldest rows = map (λ t. t.id) (drop 7 (sort_by (newest_first id_at_most) rows))

  ensures_oldest :
      (rows : List CsrfTokenRecord) (db : Database)
      → Ensures
          (select_oldest_csrf_token_ids id_at_most rows 7)
          db
          (λ ids t. (t ≡ db) × (ids ≡ oldest rows))
  ensures_oldest rows db =
      ensures_if (ltb 1 (length rows) && any has_bad_date rows) _ _ (λ _. ensures_throw)
        (λ _. ensures_pure (refl, refl))

  ensures_evict :
      (session_id : String) (ids : List String) (db : Database)
      → Ensures (evict d id_at_most session_id ids) db (λ _ t.
        (table : List CsrfTokenRecord) × (Permᴰ table
            (filter (λ r. not (is_evicted_of session_id ids r)) db.csrf_tokens)
          × (t ≡ put_csrf_tokens table db)))
  ensures_evict session_id [] db =
      let same =
        filter_all (λ r. not (is_evicted_of session_id [] r)) db.csrf_tokens (λ r. ground arith) in
      ensures_pure (db.csrf_tokens, (rw same (Permᴰ.refl db.csrf_tokens), refl))
  ensures_evict session_id (k ∷ ids) db =
      ensures_bind
        (ensures_write put_csrf_tokens
          (λ s. d.delete (is_evicted_of session_id (k ∷ ids)) s.csrf_tokens) db)
        λ rows t (table, w, e).
          let (_, left) =
            d.delete_rows (is_evicted_of session_id (k ∷ ids)) db.csrf_tokens rows table w in
          ensures_pure (table, (left, e))

  module _ (input : CsrfTokenRecord) (old one two new active : List CsrfTokenRecord) where
    let_through :
        Permᴰ one (filter (λ r. not (is_stale_of input.session_id input.created_at r)) old)
        → Permᴰ active (filter (is_active_of input.session_id input.created_at) one)
        → Permᴰ two (filter (λ r. not (is_evicted_of input.session_id (oldest active) r)) one)
        → Permᴰ new (input ∷ two)
        → count (csrf_tokens_clash input) two ≡ 0
        → BoundedInsert input old new
    let_through p1 pa p2 p3 fresh =
        let act = is_active_of input.session_id input.created_at in
        let kept = λ (t : CsrfTokenRecord). not (any (λ k. k == t.id) (oldest active)) in
        let hold =
          λ (r : CsrfTokenRecord). not (is_evicted_of input.session_id (oldest active) r) in
        record {
          rest = two;
          grown = p3;
          fresh = fresh;
          kept = λ x m.
              (mem-filter (λ r. not (is_stale_of input.session_id input.created_at r)) old
                (mem-perm p1 (mem-filter hold one (mem-perm p2 m)).0)).0;
          others = λ x m other. mem-perm (Permᴰ.symm p3) (
              Memᴰ.tail (
                mem-perm (Permᴰ.symm p2) (
                  mem_filter_of_mem hold one
                    (mem-perm (Permᴰ.symm p1) (
                      mem_filter_of_mem (λ r. not (is_stale_of input.session_id input.created_at r))
                        old m (rw other refl)))
                    (rw other refl))));
          bound = omega (
            arith,
            count-perm act p3,
            count_cons_le act input two,
            count-perm act p2,
            count-filter hold act one,
            count_mono (λ x. hold x && act x) (λ x. act x && kept x) one (λ x h. ground arith),
            count-filter act kept one,
            count-perm kept pa,
            kept_bound (newest_first id_at_most) 7 active,
          );
        }

  -- Where the transaction's body returns, it left at most eight active tokens of the session, the new
  -- one among them, and touched no other session.
  pub bounded_insert-BoundedInsert :
      (input : CsrfTokenRecord) (db : Database)
      → Ensures
          (bounded_insert d id_at_most input)
          db
          (λ _ t. BoundedInsert input db.csrf_tokens t.csrf_tokens)
  unfolding bounded_insert
  bounded_insert-BoundedInsert input db =
      ensures_bind
        (ensures_write put_csrf_tokens
          (λ s. d.delete (is_stale_of input.session_id input.created_at) s.csrf_tokens) db)
        λ rows t (one, w, e). ensures_from e (
          ensures_read
            (ensures_ask
              (λ s. d.select (is_active_of input.session_id input.created_at) s.csrf_tokens)
              (put_csrf_tokens one db))
            λ active ea. ensures_read (ensures_oldest active (put_csrf_tokens one db)) λ ids ei.
              ensures_bind (ensures_evict input.session_id ids (put_csrf_tokens one db))
                λ _ t2 (two, (p2, e2)). ensures_from e2 (
                  ensures_weaker
                    (ensures_insert d put_csrf_tokens (λ s. s.csrf_tokens) csrf_tokens_clash input
                      (put_csrf_tokens two db))
                    λ _ t3 (new, (p3, (fresh, e3))).
                      let (_, p1) =
                        d.delete_rows (is_stale_of input.session_id input.created_at) db.csrf_tokens
                          rows one w in
                      let pa =
                        d.select_rows (is_active_of input.session_id input.created_at) one active
                          ea in
                      subst (λ (s : Database). BoundedInsert input db.csrf_tokens s.csrf_tokens)
                        (sym e3)
                        (let_through input db.csrf_tokens one two new active p1 pa
                          (subst
                            (λ k.
                              Permᴰ two
                                (filter (λ r. not (is_evicted_of input.session_id k r)) one))
                            ei p2)
                          p3 fresh)))
