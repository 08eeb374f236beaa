-- ===== src/Db/Triples.antt =====
-- Triples for the statements that the repositories run.
use mathlib.Core.Path.{subst, subst₂}
use swooshz_platform.Base.{◌≡◌, refl, ap, sym, head?, Option, List, arith, ◌∷◌, count, Permᴰ, Bool}
use swooshz_platform.Io.{
  Outcome, ok, thrown, Io, Ensures, ensures_bind, ensures_required, ensures_pure, pure, ◌>>=◌,
}
use swooshz_platform.Db.Statements.{Database, ask, write, one_required}
use swooshz_platform.Driver.{Driver, Written}
use swooshz_platform.Errors.{plain}

module _ {A : Type 0} where
  -- A query returns what the driver returned, and changes nothing.
  pub ensures_ask :
      (f : Database → Outcome A) (db : Database)
      → Ensures (λ s. ask (f s) s) db (λ a t. (t ≡ db) × (f db ≡ ok a))
  ensures_ask f db = record { at = λ a t h. (ground arith, ground arith) }

module _ {R : Type 0} where
  settled :
      (put : List R → Database → Database) (w : Written R) (db : Database) (rows : List R)
      (db' : Database)
      → write put w db ≡ (ok rows, db')
      → (table : List R) × (w ≡ ok (rows, table)) × (db' ≡ put table db)
  settled put (ok (rs, t)) db rows db' h =
      let same : rs ≡ rows = ground arith in (t, ap (λ x. ok (x, t)) same, ground arith)
  settled put (thrown e) db rows db' h = absurd (ground arith)

  -- A write returns the driver's rows and puts the driver's table in place.
  pub ensures_write :
      (put : List R → Database → Database) (f : Database → Written R) (db : Database)
      → Ensures
          (λ s. write put (f s) s)
          db
          (λ rows db'. (table : List R) × (f db ≡ ok (rows, table)) × (db' ≡ put table db))
  ensures_write put f db = record { at = λ rows db' h. settled put (f db) db rows db' h }

module _ {S A : Type 0} {Q : A → S → Type 0} where
  pub ensures_from : {m : Io S A} {s t : S} → t ≡ s → Ensures m s Q → Ensures m t Q
  ensures_from {m} e h = subst (λ u. Ensures m u Q) (sym e) h

module _ {R B : Type 0} {Q : B → Database → Type 0} where
  -- A write whose first row is used: the rest starts from the new table.
  pub ensures_row :
      (put : List R → Database → Database) (f : Database → Written R) (db : Database)
      (g : Option R → Io Database B)
      → ((rows table : List R)
          → f db ≡ ok (rows, table)
          → Ensures (g (head? rows)) (put table db) Q)
      → Ensures (((λ s. write put (f s) s) >>= λ rows. pure (head? rows)) >>= g) db Q
  ensures_row put f db g k =
      ensures_bind
        (ensures_bind
          {P = λ rows t. (table : List R) × (f db ≡ ok (rows, table)) × (t ≡ put table db)}
          (ensures_write put f db)
          (λ rows t (table, e, et).
            ensures_pure
              {Q = λ o u.
                (rows : List R) × (table : List R) × (f db ≡ ok (rows, table))
                × (u ≡ put table db)
                × (o ≡ head? rows)}
              (rows, table, e, et, refl)))
        λ o t (rows, table, e, eu, eo).
          subst₂ (λ x u. Ensures (g x) u Q) (sym eo) (sym eu) (k rows table e)

module _ {R : Type 0} (d : Driver) where
  -- A row that went in is new, and stands in the table beside the old ones.
  pub ensures_insert :
      (put : List R → Database → Database) (get : Database → List R) (clash : R → R → Bool)
      (row : R) (db : Database)
      → Ensures
          ((λ s. write put (d.insert clash row (get s)) s) >>= λ rows. one_required rows)
          db
          (λ _ t.
            (table : List R) × (Permᴰ table (row ∷ get db)
              × ((count (clash row) (get db) ≡ 0) × (t ≡ put table db))))
  ensures_insert put get clash row db =
      ensures_bind (ensures_write put (λ s. d.insert clash row (get s)) db) λ rows t (table, w, e).
        ensures_required plain (head? rows) λ _ _.
          let (_, grown, free) = d.insert_rows clash row (get db) rows table w in
          (table, (grown, (free, e)))
