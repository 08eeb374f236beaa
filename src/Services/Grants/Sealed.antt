-- ===== src/Services/Grants/Sealed.antt =====
-- Grants of which a property lasts, in the table of grants of src/db/schema.ts.
use mathlib.Core.List.Permᴰ
use swooshz_platform.Base.{
  ◌≡◌, refl, sym, ap, ◌∙◌, String, Bool, true, List, ◌∷◌, map, Memᴰ, Permᴰ, mem-perm, count,
  count_pos, update_where, Bool-cases, inl, inr, eq_iff, arith,
}
use swooshz_platform.Ports.{AccessValidationGrantRecord}
use swooshz_platform.Db.Statements.{grants_clash}
use swooshz_platform.Db.Rows.{mem_map-update_where, mem_of_map-update_where}

-- There is a grant with the id, and every such grant has the property.
pub record IsSealed (q : AccessValidationGrantRecord → Bool) (id : String)
    (t : List AccessValidationGrantRecord) : Type 0 where
  pub holder : AccessValidationGrantRecord
  pub there : Memᴰ holder t
  pub same_id : holder.id ≡ id
  pub all : (x : AccessValidationGrantRecord) → Memᴰ x t → x.id ≡ id → q x ≡ true

-- A change of rows that keeps ids and the property.
pub record IsGentle (q : AccessValidationGrantRecord → Bool)
    (f : AccessValidationGrantRecord → AccessValidationGrantRecord) : Type 0 where
  pub keeps_id : (x : AccessValidationGrantRecord) → (f x).id ≡ x.id
  pub keeps : (x : AccessValidationGrantRecord) → q x ≡ true → q (f x) ≡ true

module _ (p q : AccessValidationGrantRecord → Bool)
    (f : AccessValidationGrantRecord → AccessValidationGrantRecord) (gentle : IsGentle q f) where
  pub updated-id : (x : AccessValidationGrantRecord) → (update_where p f x).id ≡ x.id
  updated-id x = elim (Bool-cases (p x)) [ inl e ↦ rw e (gentle.keeps_id x) | inr e ↦ rw e refl ]

  updated-keeps : (x : AccessValidationGrantRecord) → q x ≡ true → q (update_where p f x) ≡ true
  updated-keeps x h = elim (Bool-cases (p x)) [ inl e ↦ rw e (gentle.keeps x h) | inr e ↦ rw e h ]

  pub update-IsSealed :
      {id : String} {t t' : List AccessValidationGrantRecord}
      → IsSealed q id t
      → Permᴰ t' (map (update_where p f) t)
      → IsSealed q id t'
  update-IsSealed {id} {t} s e = record {
    holder = update_where p f s.holder;
    there = mem-perm (Permᴰ.symm e) (mem_map-update_where p f t s.there);
    same_id = updated-id s.holder ∙ s.same_id;
    all = λ y m h.
        let (x, n, same) = mem_of_map-update_where p f t (mem-perm e m) in
        let same_id =
          sym (updated-id x) ∙ (ap (λ (g : AccessValidationGrantRecord). g.id) (sym same) ∙ h) in
        ap q same ∙ updated-keeps x (s.all x n same_id);
  }

-- A new grant has a new id.
pub insert-IsSealed :
    (q : AccessValidationGrantRecord → Bool) {id : String} {t t' : List AccessValidationGrantRecord}
    (new : AccessValidationGrantRecord)
    → IsSealed q id t
    → Permᴰ t' (new ∷ t)
    → count (grants_clash new) t ≡ 0
    → IsSealed q id t'
insert-IsSealed q {id} {t} new s e free = record {
  holder = s.holder;
  there = mem-perm (Permᴰ.symm e) (Memᴰ.tail s.there);
  same_id = s.same_id;
  all = λ x m h. elim (mem-perm e m) [
    | Memᴰ.head same ↦
        let same_id : new.id ≡ s.holder.id =
          ap (λ (g : AccessValidationGrantRecord). g.id) (sym same) ∙ (h ∙ sym s.same_id) in
        let clash : grants_clash new s.holder ≡ true =
          rw ((eq_iff new.id s.holder.id).1 same_id) refl in
        absurd (omega (arith, free, count_pos (grants_clash new) t s.there clash))
    | Memᴰ.tail n ↦ s.all x n h
  ];
}

-- The change of every row with an id, where ids are unique or the rows that are not changed have the
-- property, seals it.
pub seal-IsSealed :
    (p q : AccessValidationGrantRecord → Bool)
    (f : AccessValidationGrantRecord → AccessValidationGrantRecord) (gentle : IsGentle q f)
    (g : AccessValidationGrantRecord) {t t' : List AccessValidationGrantRecord}
    → Memᴰ g t
    → ((x : AccessValidationGrantRecord) → Memᴰ x t → x.id ≡ g.id → q (update_where p f x) ≡ true)
    → Permᴰ t' (map (update_where p f) t)
    → IsSealed q g.id t'
seal-IsSealed p q f gentle g {t} there sealed e = record {
  holder = update_where p f g;
  there = mem-perm (Permᴰ.symm e) (mem_map-update_where p f t there);
  same_id = updated-id p q f gentle g;
  all = λ y m h.
      let (x, n, same) = mem_of_map-update_where p f t (mem-perm e m) in
      let same_id =
        sym (updated-id p q f gentle x)
        ∙ (ap (λ (r : AccessValidationGrantRecord). r.id) (sym same) ∙ h) in
      ap q same ∙ sealed x n same_id;
}
