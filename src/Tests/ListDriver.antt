-- ===== src/Tests/ListDriver.antt =====
-- A driver on lists: it shows that the laws of `Driver` can be met, and lets the services run.
use mathlib.Core.List.Permᴰ
use swooshz_platform.Base.{
  ℕ, zero, suc, ◌≡◌, ◌⊎◌, refl, Bool, true, false, not, none, some, List, [], ◌∷◌, map, Memᴰ, Permᴰ,
  find, find-some, filter, any, count, update_where, Bool-cases, inl, inr, arith, if◌then◌else◌,
}
use swooshz_platform.Errors.{Exn, plain, serialization_failure}
use swooshz_platform.Io.{Outcome, ok, thrown, Io}
use swooshz_platform.Driver.{Driver, Written}

count-zero {ℓ} : {A : Type ℓ} (p : A → Bool) (t : List A) → any p t ≡ false → count p t ≡ 0
count-zero p [] h = refl
count-zero p (x ∷ t) h = ground (arith, count-zero p t)

module _ {R : Type 0} where
  abbrev insert_row : (R → R → Bool) → R → List R → Written R
  insert_row clash r t = if any (clash r) t then thrown plain else ok (r ∷ [], r ∷ t)

  pub found :
      (p : R → Bool) (t : List R) (r : R) → ok (find p t) ≡ ok (some r) → Memᴰ r t × (p r ≡ true)
  found p t r h = find-some p t (ground arith)

  pub not_found : (p : R → Bool) (t : List R) → ok (find p t) ≡ ok none → count p t ≡ 0
  not_found p [] h = refl
  not_found p (x ∷ t) h = elim (Bool-cases (p x)) [
    | inl e ↦ ground arith
    | inr e ↦ rw e (not_found p t (ground arith))
  ]

  pub selected_rows :
      (p : R → Bool) (t rs : List R) → ok (filter p t) ≡ ok rs → Permᴰ rs (filter p t)
  selected_rows p t rs h = let same : filter p t ≡ rs = ground arith in rw same (Permᴰ.refl rs)

  pub inserted_rows :
      (clash : R → R → Bool) (r : R) (t rs t' : List R)
      → insert_row clash r t ≡ ok (rs, t')
      → (rs ≡ r ∷ []) × Permᴰ t' (r ∷ t) × (count (clash r) t ≡ 0)
  inserted_rows clash r t rs t' h = elim (Bool-cases (any (clash r) t)) [
    | inl e ↦ ground arith
    | inr e ↦
        let row : rs ≡ r ∷ [] = ground arith in
        let table : t' ≡ r ∷ t = ground arith in
        (row, rw table (Permᴰ.refl (r ∷ t)), count-zero (clash r) t e)
  ]

  pub changed_rows :
      (a b rs t' : List R) → ◌≡◌ {A = Written R} (ok (a, b)) (ok (rs, t')) → Permᴰ rs a × Permᴰ t' b
  changed_rows a b rs t' h =
      let rows : a ≡ rs = ground arith in
      let table : b ≡ t' = ground arith in (rw rows (Permᴰ.refl rs), rw table (Permᴰ.refl t'))

module _ {S A : Type 0} where
  abbrev settle : Outcome A × S → S → Outcome A × S
  settle (ok a, s') s = (ok a, s')
  settle (thrown e, s') s = (thrown e, s)

  pub committed : (r : Outcome A × S) (s s' : S) (a : A) → settle r s ≡ (ok a, s') → r ≡ (ok a, s')
  committed (ok b, t) s s' a h = h
  committed (thrown e, t) s s' a h = ground arith

  pub undone :
      (r : Outcome A × S) (s s' : S) (e : Exn)
      → settle r s ≡ (thrown e, s')
      → (s' ≡ s) × ((r.0 ≡ thrown e) ⊎ ((e ≡ plain) ⊎ (e ≡ serialization_failure)))
  undone (ok b, t) s s' e h = ground arith
  undone (thrown x, t) s s' e h = (ground arith, inl (ground arith))

abbrev pub list_driver : Driver
list_driver = record {
  select_one = λ p t. ok (find p t);
  select = λ p t. ok (filter p t);
  insert = insert_row;
  update = λ p f t. ok (map f (filter p t), map (update_where p f) t);
  delete = λ p t. ok (filter p t, filter (λ r. not (p r)) t);
  transaction = λ n m s. settle (m s) s;
  select_one-some = found;
  select_one-none = not_found;
  select_rows = selected_rows;
  insert_rows = inserted_rows;
  update_rows =
      λ p f t rs t' h. changed_rows (map f (filter p t)) (map (update_where p f) t) rs t' h;
  delete_rows = λ p t rs t' h. changed_rows (filter p t) (filter (λ r. not (p r)) t) rs t' h;
  transaction_commits = λ n m s s' a h. committed (m s) s s' a h;
  transaction_undone = λ n m s s' e h. undone (m s) s s' e h;
}

-- The same tables where another connection makes the first attempt of a call fail.
abbrev contend : {S A : Type 0} → ℕ → Io S A → Io S A
contend zero m s = (thrown serialization_failure, s)
contend (suc n) m s = settle (m s) s

module _ {S A : Type 0} where
  pub contended_commits :
      (n : ℕ) (m : Io S A) (s s' : S) (a : A) → contend n m s ≡ (ok a, s') → m s ≡ (ok a, s')
  contended_commits zero m s s' a h = ground arith
  contended_commits (suc n) m s s' a h = committed (m s) s s' a h

  pub contended_undone :
      (n : ℕ) (m : Io S A) (s s' : S) (e : Exn)
      → contend n m s ≡ (thrown e, s')
      → (s' ≡ s) × (((m s).0 ≡ thrown e) ⊎ ((e ≡ plain) ⊎ (e ≡ serialization_failure)))
  contended_undone zero m s s' e h = (ground arith, inr (inr (ground arith)))
  contended_undone (suc n) m s s' e h = undone (m s) s s' e h

abbrev pub contended_driver : Driver
contended_driver = record list_driver {
  transaction = contend;
  transaction_commits = contended_commits;
  transaction_undone = contended_undone;
}
