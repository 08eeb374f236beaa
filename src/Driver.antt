-- ===== src/Driver.antt =====
-- The SQL driver behind `DrizzleDatabase` (src/db/repositories.ts): drizzle-orm and Postgres are not
-- part of the repository, so they are a parameter with the laws of SQL that the code relies on.
--
-- A table is the list of its rows, in no particular order: every law is up to a permutation. A
-- statement that throws changes nothing. What may throw, and when, is left open.
use swooshz_platform.Base.{
  ℕ, ◌≡◌, ◌⊎◌, Bool, true, not, Option, none, some, List, [], ◌∷◌, map, Memᴰ, Permᴰ, filter, count,
  update_where,
}
use swooshz_platform.Errors.{Exn, plain, serialization_failure}
use swooshz_platform.Io.{Outcome, ok, thrown, Io}

-- The rows that `RETURNING` gives back, and the table after the statement.
abbrev pub Written : Type 0 → Type 0
Written R = Outcome (List R × List R)

pub record Driver : Type 1 where
  -- `select().from(table).where(p).limit(1)`, then `rows[0]`
  pub select_one : {R : Type 0} → (R → Bool) → List R → Outcome (Option R)
  -- `select().from(table).where(p)`
  pub select : {R : Type 0} → (R → Bool) → List R → Outcome (List R)
  -- `insert(table).values(row).returning()`; the first argument is the clash of two rows on a unique
  -- index of the table
  pub insert : {R : Type 0} → (R → R → Bool) → R → List R → Written R
  -- `update(table).set(f).where(p).returning()`
  pub update : {R : Type 0} → (R → Bool) → (R → R) → List R → Written R
  -- `delete(table).where(p).returning()`
  pub delete : {R : Type 0} → (R → Bool) → List R → Written R
  -- `transaction(operation, { isolationLevel: "serializable" })`; the number is that of the attempt,
  -- since what other connections do may let one attempt fail and the next commit
  pub transaction : {S A : Type 0} → ℕ → Io S A → Io S A
  pub select_one-some :
      {R : Type 0} (p : R → Bool) (t : List R) (r : R)
      → select_one p t ≡ ok (some r)
      → Memᴰ r t × (p r ≡ true)
  pub select_one-none :
      {R : Type 0} (p : R → Bool) (t : List R) → select_one p t ≡ ok none → count p t ≡ 0
  pub select_rows :
      {R : Type 0} (p : R → Bool) (t rs : List R) → select p t ≡ ok rs → Permᴰ rs (filter p t)
  pub insert_rows :
      {R : Type 0} (clash : R → R → Bool) (r : R) (t rs t' : List R)
      → insert clash r t ≡ ok (rs, t')
      → (rs ≡ r ∷ []) × Permᴰ t' (r ∷ t) × (count (clash r) t ≡ 0)
  pub update_rows :
      {R : Type 0} (p : R → Bool) (f : R → R) (t rs t' : List R)
      → update p f t ≡ ok (rs, t')
      → Permᴰ rs (map f (filter p t)) × Permᴰ t' (map (update_where p f) t)
  pub delete_rows :
      {R : Type 0} (p : R → Bool) (t rs t' : List R)
      → delete p t ≡ ok (rs, t')
      → Permᴰ rs (filter p t) × Permᴰ t' (filter (λ r. not (p r)) t)
  -- A transaction that commits has the effect of its operation run alone.
  pub transaction_commits :
      {S A : Type 0} (n : ℕ) (m : Io S A) (s s' : S) (a : A)
      → transaction n m s ≡ (ok a, s')
      → m s ≡ (ok a, s')
  -- A transaction that throws leaves no trace; the error is the operation's, or the driver's own.
  pub transaction_undone :
      {S A : Type 0} (n : ℕ) (m : Io S A) (s s' : S) (e : Exn)
      → transaction n m s ≡ (thrown e, s')
      → (s' ≡ s) × (((m s).0 ≡ thrown e) ⊎ ((e ≡ plain) ⊎ (e ≡ serialization_failure)))
