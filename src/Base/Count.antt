-- ===== src/Base/Count.antt =====
-- How many rows of a table pass a test. Counts do not see the order of the rows.
use Prim.Native.Nat.{ℕ, suc, ◌+◌, ◌≤◌, ◌<◌}
use mathlib.Core.Path.{◌≡◌, refl, sym, ap, ◌∙◌}
use mathlib.Core.Logic.{inl, inr}
use mathlib.Core.Option.{Option, none, some}
use mathlib.Core.Bool.{Bool, true, false, ◌&&◌, not}
use mathlib.Core.List.{List, [], ◌∷◌, map, Memᴰ, Permᴰ}
use native.Mathlib.Omega.{arith}
use swooshz_platform.Base.Tests.{if◌then◌else◌, Bool-cases, Option-cases}
use swooshz_platform.Base.Lists.{filter, find, find-some, find-none}

module _ {ℓ} {A : Type ℓ} where
  abbrev pub count : (A → Bool) → List A → ℕ
  count p [] = 0
  count p (x ∷ xs) = let rest = count p xs in if p x then suc rest else rest

module _ {ℓ} {A : Type ℓ} (p : A → Bool) where
  pub count-perm : {xs ys : List A} → Permᴰ xs ys → count p xs ≡ count p ys
  count-perm Permᴰ.nil = refl
  count-perm (Permᴰ.cons e q) = rw e (ground (arith, count-perm q))
  count-perm (Permᴰ.swap e f) = rw (e, f) (ground arith)
  count-perm (Permᴰ.trans q r) = count-perm q ∙ count-perm r

  pub count_pos : (xs : List A) {x : A} → Memᴰ x xs → p x ≡ true → 0 < count p xs
  count_pos [] m h = elim m [ ]
  count_pos (y ∷ ys) (Memᴰ.head e) h = rw (← e, h) (omega arith)
  count_pos (y ∷ ys) (Memᴰ.tail m) h = ground (arith, count_pos ys m h)

  pub mem_of_count : (xs : List A) → 0 < count p xs → (x : A) × Memᴰ x xs × (p x ≡ true)
  mem_of_count [] h = absurd (omega arith)
  mem_of_count (y ∷ ys) h = elim (Bool-cases (p y)) [
    | inl e ↦ (y, Memᴰ.head refl, e)
    | inr e ↦ let (x, m, t) = mem_of_count ys (ground arith) in (x, Memᴰ.tail m, t)
  ]

  pub unique_of_count :
      (xs : List A) {x y : A}
      → count p xs ≤ 1
      → Memᴰ x xs
      → Memᴰ y xs
      → p x ≡ true
      → p y ≡ true
      → x ≡ y
  unique_of_count [] h m n px py = elim m [ ]
  unique_of_count (z ∷ zs) h (Memᴰ.head e) (Memᴰ.head f) px py = e ∙ sym f
  unique_of_count (z ∷ zs) {x} h (Memᴰ.head e) (Memᴰ.tail n) px py =
      let one : p z ≡ true = rw (← e) px in absurd (ground (arith, count_pos zs n py))
  unique_of_count (z ∷ zs) h (Memᴰ.tail m) (Memᴰ.head f) px py =
      let one : p z ≡ true = rw (← f) py in absurd (ground (arith, count_pos zs m px))
  unique_of_count (z ∷ zs) {x} {y} h (Memᴰ.tail m) (Memᴰ.tail n) px py =
      unique_of_count zs {x = x} {y = y} (ground arith) m n px py

  -- Where one row at most passes the test, `find` finds it.
  pub find_of_unique :
      (xs : List A) {x : A} → count p xs ≤ 1 → Memᴰ x xs → p x ≡ true → find p xs ≡ some x
  find_of_unique xs {x} h m px = elim (Option-cases (find p xs)) [
    | inl e ↦ cc (px, find-none p xs e x m)
    | inr (y, e) ↦
        let (n, py) = find-some p xs e in
        e ∙ ap some (unique_of_count xs {x = y} {y = x} h n m py px)
  ]

module _ {ℓ} {A : Type ℓ} (p q : A → Bool) where
  pub count_mono : (xs : List A) → ((x : A) → p x ≡ true → q x ≡ true) → count p xs ≤ count q xs
  count_mono [] h = omega arith
  count_mono (x ∷ xs) h = ground (arith, h x, count_mono xs h)

  pub count_split :
      (xs : List A) → count p xs ≡ count (λ x. p x && q x) xs + count (λ x. p x && not (q x)) xs
  count_split [] = refl
  count_split (x ∷ xs) = ground (arith, count_split xs)

  pub count-filter : (xs : List A) → count q (filter p xs) ≡ count (λ x. p x && q x) xs
  count-filter [] = refl
  count-filter (x ∷ xs) = ground (arith, count-filter xs)

module _ {ℓ} {A : Type ℓ} (p : A → Bool) where
  pub find-none_of_all : (xs : List A) → ((x : A) → Memᴰ x xs → p x ≡ false) → find p xs ≡ none
  find-none_of_all [] h = refl
  find-none_of_all (x ∷ xs) h =
      rw (h x (Memᴰ.head refl)) (find-none_of_all xs (λ y m. h y (Memᴰ.tail m)))

-- `value ? [value] : []`
abbrev pub singleton_of {ℓ} : {A : Type ℓ} → Option A → List A
singleton_of none = []
singleton_of (some a) = a ∷ []

-- Where one row at most has the key, `find` on that row alone is `find` on the table.
module _ {ℓ} {A : Type ℓ} (p key : A → Bool) (within : (x : A) → p x ≡ true → key x ≡ true) where
  find_in_found :
      (xs : List A) (y : A) → count key xs ≤ 1 → find key xs ≡ some y → find p (y ∷ []) ≡ find p xs
  find_in_found xs y h e =
      let (m, ky) = find-some key xs e in
      elim (Bool-cases (p y)) [
        | inl py ↦
            let one : count p xs ≤ 1 = omega (arith, count_mono p key xs within, h) in
            rw (py, find_of_unique p xs one m py)
        | inr np ↦ rw (
          np,
          find-none_of_all p xs (λ x n. elim (Bool-cases (p x)) [
            | inl px ↦ cc (ap p (unique_of_count key xs {x = x} {y = y} h n m (within x px) ky), np)
            | inr nx ↦ nx
          ]),
        )
      ]

  pub find-singleton_of-find :
      (xs : List A) → count key xs ≤ 1 → find p (singleton_of (find key xs)) ≡ find p xs
  find-singleton_of-find xs h = elim (Option-cases (find key xs)) [
    | inl e ↦ rw (
      e,
      find-none_of_all p xs (λ x m. elim (Bool-cases (p x)) [
        | inl px ↦ cc (within x px, find-none key xs e x m)
        | inr nx ↦ nx
      ]),
    )
    | inr (y, e) ↦ rw e (find_in_found xs y h e)
  ]

-- The rows that a statement `UPDATE ... SET f WHERE p` leaves behind.
abbrev pub update_where {ℓ} : {A : Type ℓ} → (A → Bool) → (A → A) → A → A
update_where p f r = if p r then f r else r

module _ {ℓ} {A : Type ℓ} (p q : A → Bool) (f : A → A) where
  pub count-map-update_where :
      (xs : List A)
      → count q (map (update_where p f) xs)
        ≡ count (λ x. p x && q (f x)) xs + count (λ x. q x && not (p x)) xs
  count-map-update_where [] = refl
  count-map-update_where (x ∷ xs) = ground (arith, count-map-update_where xs)
