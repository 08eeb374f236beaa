-- ===== src/Db/Rows.antt =====
-- What an update of a table says of the rows that it changed.
use swooshz_platform.Base.{
  ◌≡◌, ap, refl, Bool, true, some, List, [], ◌∷◌, map, filter, Memᴰ, mem-perm, mem-filter, head?,
  update_where, arith,
}
use swooshz_platform.Io.{ok}
use swooshz_platform.Driver.{Driver}

mem_of_map {ℓ} :
    {A B : Type ℓ} (f : A → B) (xs : List A) {y : B}
    → Memᴰ y (map f xs)
    → (x : A) × Memᴰ x xs × (y ≡ f x)
mem_of_map f [] m = elim m [ ]
mem_of_map f (x ∷ xs) (Memᴰ.head e) = (x, Memᴰ.head refl, e)
mem_of_map f (x ∷ xs) (Memᴰ.tail m) = let (z, n, e) = mem_of_map f xs m in (z, Memᴰ.tail n, e)

mem_of_head {ℓ} : {A : Type ℓ} (xs : List A) {x : A} → head? xs ≡ some x → Memᴰ x xs
mem_of_head [] h = ground arith
mem_of_head (y ∷ ys) h = Memᴰ.head (ground arith)

pub mem_map-update_where {ℓ} :
    {A : Type ℓ} (p : A → Bool) (f : A → A) (t : List A) {x : A}
    → Memᴰ x t
    → Memᴰ (update_where p f x) (map (update_where p f) t)
mem_map-update_where p f [] m = elim m [ ]
mem_map-update_where p f (y ∷ t) (Memᴰ.head e) = Memᴰ.head (ap (update_where p f) e)
mem_map-update_where p f (y ∷ t) (Memᴰ.tail m) = Memᴰ.tail (mem_map-update_where p f t m)

pub mem_of_map-update_where {ℓ} :
    {A : Type ℓ} (p : A → Bool) (f : A → A) (t : List A) {y : A}
    → Memᴰ y (map (update_where p f) t)
    → (x : A) × Memᴰ x t × (y ≡ update_where p f x)
mem_of_map-update_where p f [] m = elim m [ ]
mem_of_map-update_where p f (x ∷ t) (Memᴰ.head e) = (x, Memᴰ.head refl, e)
mem_of_map-update_where p f (x ∷ t) (Memᴰ.tail m) =
    let (z, n, e) = mem_of_map-update_where p f t m in (z, Memᴰ.tail n, e)

-- The first row that an update returns is the new form of a row of the table.
pub update-row :
    {R : Type 0} (d : Driver) (p : R → Bool) (f : R → R) (t rows t' : List R) {r : R}
    → d.update p f t ≡ ok (rows, t')
    → head? rows ≡ some r
    → (x : R) × Memᴰ x t × (p x ≡ true) × (r ≡ f x)
update-row d p f t rows t' e h =
    let (given, _) = d.update_rows p f t rows t' e in
    let (x, m, same) = mem_of_map f (filter p t) (mem-perm given (mem_of_head rows h)) in
    let (there, passes) = mem-filter p t m in (x, there, passes, same)
