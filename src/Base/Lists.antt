-- ===== src/Base/Lists.antt =====
-- JavaScript's `find`, `filter` and `some` on arrays, over Boolean tests.
use Prim.Native.Nat.{ℕ, suc}
use mathlib.Core.Path.{◌≡◌, refl, sym, ◌∙◌}
use mathlib.Core.Logic.{inl, inr}
use mathlib.Core.Bool.{Bool, true, false, ◌||◌}
use mathlib.Core.Option.{Option, none, some}
use mathlib.Core.List.{List, [], ◌∷◌, Memᴰ, Permᴰ}
use native.Mathlib.Omega.{arith}
use mathlib.Core.List.Memᴰ.{cases_cons}
use swooshz_platform.Base.Tests.{if◌then◌else◌, Bool-cases}

module _ {ℓ} {A : Type ℓ} where
  abbrev pub length : List A → ℕ
  length [] = 0
  length (x ∷ xs) = suc (length xs)

  abbrev pub head? : List A → Option A
  head? [] = none
  head? (x ∷ xs) = some x

  abbrev pub find : (A → Bool) → List A → Option A
  find p [] = none
  find p (x ∷ xs) = if p x then some x else find p xs

  abbrev pub filter : (A → Bool) → List A → List A
  filter p [] = []
  filter p (x ∷ xs) = let rest = filter p xs in if p x then x ∷ rest else rest

  -- `Array.prototype.some`
  abbrev pub any : (A → Bool) → List A → Bool
  any p [] = false
  any p (x ∷ xs) = p x || any p xs

module _ {ℓ} {A : Type ℓ} where
  pub find-some :
      (p : A → Bool) (xs : List A) {x : A} → find p xs ≡ some x → Memᴰ x xs × (p x ≡ true)
  find-some p [] h = ground arith
  find-some p (y ∷ ys) {x} h = elim (Bool-cases (p y)) [
    | inl e ↦ let same : y ≡ x = ground arith in (Memᴰ.head (sym same), ground arith)
    | inr e ↦ let (m, t) = find-some p ys {x = x} (ground arith) in (Memᴰ.tail m, t)
  ]

  pub find-none :
      (p : A → Bool) (xs : List A) → find p xs ≡ none → (x : A) → Memᴰ x xs → p x ≡ false
  find-none p [] h x m = elim m [ ]
  find-none p (y ∷ ys) h x (Memᴰ.head e) = ground arith
  find-none p (y ∷ ys) h x (Memᴰ.tail m) = find-none p ys (ground arith) x m

  pub mem-filter :
      (p : A → Bool) (xs : List A) {x : A} → Memᴰ x (filter p xs) → Memᴰ x xs × (p x ≡ true)
  mem-filter p [] m = elim m [ ]
  mem-filter p (y ∷ ys) {x} m = elim (Bool-cases (p y)) [
    | inl e ↦ elim (cases_cons (let n : Memᴰ x (y ∷ filter p ys) = rw e at m in n)) [
      | inl same ↦ (Memᴰ.head same, rw same e)
      | inr rest ↦ let (n, t) = mem-filter p ys rest in (Memᴰ.tail n, t)
    ]
    | inr e ↦ let (n, t) = mem-filter p ys (rw e at m) in (Memᴰ.tail n, t)
  ]

  pub mem_filter_of_mem :
      (p : A → Bool) (xs : List A) {x : A} → Memᴰ x xs → p x ≡ true → Memᴰ x (filter p xs)
  mem_filter_of_mem p [] m h = elim m [ ]
  mem_filter_of_mem p (y ∷ ys) (Memᴰ.head e) h = rw (← e, h) (Memᴰ.head refl)
  mem_filter_of_mem p (y ∷ ys) (Memᴰ.tail m) h = elim (Bool-cases (p y)) [
    | inl e ↦ rw e (Memᴰ.tail (mem_filter_of_mem p ys m h))
    | inr e ↦ rw e (mem_filter_of_mem p ys m h)
  ]

  pub any_of_mem : (p : A → Bool) (xs : List A) {x : A} → Memᴰ x xs → p x ≡ true → any p xs ≡ true
  any_of_mem p [] m h = elim m [ ]
  any_of_mem p (y ∷ ys) (Memᴰ.head e) h = rw (← e, h)
  any_of_mem p (y ∷ ys) (Memᴰ.tail m) h = ground (arith, any_of_mem p ys m h)

  pub mem_of_any :
      (p : A → Bool) (xs : List A) → any p xs ≡ true → (x : A) × Memᴰ x xs × (p x ≡ true)
  mem_of_any p [] h = ground arith
  mem_of_any p (y ∷ ys) h = elim (Bool-cases (p y)) [
    | inl e ↦ (y, Memᴰ.head refl, e)
    | inr e ↦ let (x, m, t) = mem_of_any p ys (ground arith) in (x, Memᴰ.tail m, t)
  ]

  pub mem-perm : {xs ys : List A} {x : A} → Permᴰ xs ys → Memᴰ x xs → Memᴰ x ys
  mem-perm Permᴰ.nil m = m
  mem-perm (Permᴰ.cons e p) (Memᴰ.head f) = Memᴰ.head (f ∙ e)
  mem-perm (Permᴰ.cons e p) (Memᴰ.tail m) = Memᴰ.tail (mem-perm p m)
  mem-perm (Permᴰ.swap e f) (Memᴰ.head g) = Memᴰ.tail (Memᴰ.head (g ∙ e))
  mem-perm (Permᴰ.swap e f) (Memᴰ.tail (Memᴰ.head g)) = Memᴰ.head (g ∙ f)
  mem-perm (Permᴰ.swap e f) (Memᴰ.tail (Memᴰ.tail m)) = Memᴰ.tail (Memᴰ.tail m)
  mem-perm (Permᴰ.trans p q) m = mem-perm q (mem-perm p m)
