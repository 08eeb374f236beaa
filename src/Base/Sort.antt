-- ===== src/Base/Sort.antt =====
-- `take`, `drop` and sorting on lists, over the native numbers. `sort` of JavaScript is stable: an
-- element moves before another only if the comparison puts it there.
use Prim.Native.Nat.{ℕ, zero, suc, ◌+◌, ◌≤◌}
use mathlib.Core.Path.{◌≡◌, refl}
use mathlib.Core.Bool.{Bool}
use mathlib.Core.List.{List, [], ◌∷◌}
use native.Mathlib.Omega.{arith}
use swooshz_platform.Base.Tests.{if◌then◌else◌}
use swooshz_platform.Base.Lists.{length}
use swooshz_platform.Base.Count.{count}

module _ {ℓ} {A : Type ℓ} where
  abbrev pub take : ℕ → List A → List A
  take zero xs = []
  take (suc n) [] = []
  take (suc n) (x ∷ xs) = x ∷ take n xs

  abbrev pub drop : ℕ → List A → List A
  drop zero xs = xs
  drop (suc n) [] = []
  drop (suc n) (x ∷ xs) = drop n xs

  -- `first a b`: `a` may stand before `b`.
  abbrev pub insert_by : (A → A → Bool) → A → List A → List A
  insert_by first x [] = x ∷ []
  insert_by first x (y ∷ ys) = if first x y then x ∷ y ∷ ys else y ∷ insert_by first x ys

  abbrev pub sort_by : (A → A → Bool) → List A → List A
  sort_by first [] = []
  sort_by first (x ∷ xs) = insert_by first x (sort_by first xs)

  count-insert_by :
      (first : A → A → Bool) (p : A → Bool) (x : A) (ys : List A)
      → count p (insert_by first x ys) ≡ count p (x ∷ ys)
  count-insert_by first p x [] = refl
  count-insert_by first p x (y ∷ ys) = ground (arith, count-insert_by first p x ys)

  -- Sorting keeps the elements.
  pub count-sort_by :
      (first : A → A → Bool) (p : A → Bool) (xs : List A) → count p (sort_by first xs) ≡ count p xs
  count-sort_by first p [] = refl
  count-sort_by first p (x ∷ xs) =
      ground (arith, count-insert_by first p x (sort_by first xs), count-sort_by first p xs)

  -- Beyond the first `n` elements, the count is that of the rest.
  pub count-drop : (p : A → Bool) (n : ℕ) (xs : List A) → count p xs ≤ n + count p (drop n xs)
  count-drop p zero xs = omega arith
  count-drop p (suc n) [] = omega arith
  count-drop p (suc n) (x ∷ xs) = ground (arith, count-drop p n xs)

  pub length-take : (n : ℕ) (xs : List A) → length (take n xs) ≤ n
  length-take zero xs = omega arith
  length-take (suc n) [] = omega arith
  length-take (suc n) (x ∷ xs) = omega (arith, length-take n xs)
