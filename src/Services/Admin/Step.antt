-- ===== src/Services/Admin/Step.antt =====
-- What an admin operation may do to the memberships: an abstract step, and the invariants it keeps.
use mathlib.Core.Path.{subst}
use mathlib.Core.List.Permᴰ
use swooshz_platform.Base.{
  ◌≡◌, ◌≢◌, ◌⊎◌, [], ◌≤◌, ◌<◌, sym, ap, ◌∙◌, String, Bool, true, false, not, ◌&&◌, List, ◌∷◌, map,
  Memᴰ, Permᴰ, filter, mem_filter_of_mem, mem-perm, count, count-perm, count_pos, mem_of_count,
  count_mono, unique_of_count, update_where, count-map-update_where, count-filter, count_split,
  Bool-cases, inl, inr, eq_iff, ==-self, arith, ◌==◌,
}
use swooshz_platform.Accounts.{Membership}
use swooshz_platform.Db.Statements.{memberships_clash}
use swooshz_platform.Services.Admin.{is_active_admin}

-- The row of a membership is chosen by its id; an update leaves its id, workspace and user alone.
pub data MembershipStep (workspace_id actor_id : String) (t t' : List Membership) : Type 0 where
  kept : t' ≡ t → MembershipStep workspace_id actor_id t t'
  changed :
      (target : Membership) (f : Membership → Membership)
      → Memᴰ target t
      → target.workspace_id ≡ workspace_id
      → target.user_id ≢ actor_id
      → ((m : Membership)
          → ((f m).id ≡ m.id)
            × (((f m).workspace_id ≡ m.workspace_id) × ((f m).user_id ≡ m.user_id)))
      → Permᴰ t' (map (update_where (λ m. m.id == target.id) f) t)
      → MembershipStep workspace_id actor_id t t'
  removed :
      (target : Membership) (p : Membership → Bool)
      → Memᴰ target t
      → target.workspace_id ≡ workspace_id
      → target.user_id ≢ actor_id
      → ((m : Membership) → p m ≡ true → m.id ≡ target.id)
      → Permᴰ t' (filter (λ m. not (p m)) t)
      → MembershipStep workspace_id actor_id t t'
  added :
      (new : Membership)
      → new.workspace_id ≡ workspace_id
      → count (memberships_clash new) t ≡ 0
      → Permᴰ t' (new ∷ t)
      → MembershipStep workspace_id actor_id t t'

-- No two memberships share an id.
abbrev pub HasUniqueIds : List Membership → Type 0
HasUniqueIds t = (k : String) → count (λ m. m.id == k) t ≤ 1

abbrev pub is_active_admin_of : String → Membership → Bool
is_active_admin_of w m = (m.workspace_id == w) && is_active_admin m

abbrev pub HasActiveAdmin : String → List Membership → Type 0
HasActiveAdmin w t = 0 < count (is_active_admin_of w) t

mem_update_where :
    (p : Membership → Bool) (f : Membership → Membership) (t : List Membership) {m : Membership}
    → Memᴰ m t
    → p m ≡ false
    → Memᴰ m (map (update_where p f) t)
mem_update_where p f [] m h = elim m [ ]
mem_update_where p f (x ∷ t) (Memᴰ.head e) h =
    let same : p x ≡ false = rw (← e) h in rw same (Memᴰ.head e)
mem_update_where p f (x ∷ t) (Memᴰ.tail m) h = Memᴰ.tail (mem_update_where p f t m h)

-- The rows of other workspaces, and those of the actor, are not the target.
not_target :
    {w a : String} (t : List Membership) (target m : Membership)
    → HasUniqueIds t
    → Memᴰ target t
    → target.workspace_id ≡ w
    → target.user_id ≢ a
    → Memᴰ m t
    → (m.workspace_id ≢ w) ⊎ (m.user_id ≡ a)
    → m.id ≢ target.id
not_target t target m unique there tw tu here other same =
    let equal : m ≡ target =
      unique_of_count (λ (x : Membership). x.id == target.id) t (unique target.id) here there
        ((eq_iff m.id target.id).1 same) (==-self target.id) in
    elim other [
      | inl n ↦ n (ap (λ (x : Membership). x.workspace_id) equal ∙ tw)
      | inr u ↦ tu (ap (λ (x : Membership). x.user_id) (sym equal) ∙ u)
    ]

test_false : (s k : String) → s ≢ k → (s == k) ≡ false
test_false s k h = elim (Bool-cases (s == k)) [ inl e ↦ absurd (h ((eq_iff s k).0 e)) | inr e ↦ e ]

-- A row that is not the target survives every step.
survives :
    {w a : String} {t t' : List Membership} (m : Membership)
    → MembershipStep w a t t'
    → HasUniqueIds t
    → Memᴰ m t
    → (m.workspace_id ≢ w) ⊎ (m.user_id ≡ a)
    → Memᴰ m t'
survives m (kept e) unique here other = subst (Memᴰ m) (sym e) here
survives {t = t} m (changed target f there tw tu ids e) unique here other =
    let n = not_target t target m unique there tw tu here other in
    mem-perm (Permᴰ.symm e)
      (mem_update_where (λ x. x.id == target.id) f t here (test_false m.id target.id n))
survives {t = t} m (removed target p there tw tu hit e) unique here other =
    let n = not_target t target m unique there tw tu here other in
    mem-perm (Permᴰ.symm e) (
      mem_filter_of_mem (λ x. not (p x)) t here
        (elim (Bool-cases (p m)) [ inl h ↦ absurd (n (hit m h)) | inr h ↦ rw h ]))
survives m (added new w c e) unique here other = mem-perm (Permᴰ.symm e) (Memᴰ.tail here)

count_ids_update :
    (t : List Membership) (p : Membership → Bool) (f : Membership → Membership) (k : String)
    → ((m : Membership) → (f m).id ≡ m.id)
    → count (λ m. m.id == k) (map (update_where p f) t) ≤ count (λ m. m.id == k) t
count_ids_update t p f k ids =
    let q = λ (m : Membership). m.id == k in
    omega (
      arith,
      count-map-update_where p q f t,
      count_split q p t,
      count_mono (λ m. p m && q (f m)) (λ m. q m && p m) t (λ m h. ground (arith, ids m)),
    )

-- Every step keeps the ids of the memberships unique.
pub MembershipStep-HasUniqueIds :
    {w a : String} {t t' : List Membership}
    → MembershipStep w a t t'
    → HasUniqueIds t
    → HasUniqueIds t'
MembershipStep-HasUniqueIds (kept e) unique k = rw e (unique k)
MembershipStep-HasUniqueIds {t = t} (changed target f there tw tu ids e) unique k = omega (
  arith,
  unique k,
  count-perm (λ (m : Membership). m.id == k) e,
  count_ids_update t (λ m. m.id == target.id) f k (λ m. (ids m).0),
)
MembershipStep-HasUniqueIds {t = t} (removed target p there tw tu hit e) unique k =
    let q = λ (m : Membership). m.id == k in
    omega (
      arith,
      unique k,
      count-perm q e,
      count-filter (λ m. not (p m)) q t,
      count_mono (λ m. not (p m) && q m) q t (λ m h. ground arith),
    )
MembershipStep-HasUniqueIds {t = t} (added new w free e) unique k =
    let q = λ (m : Membership). m.id == k in
    elim (Bool-cases (new.id == k)) [
      | inl h ↦
          let none_left =
            count_mono q (memberships_clash new) t
              (λ m hm. ground (arith, eq_iff new.id k, eq_iff m.id k, eq_iff new.id m.id)) in
          rw (count-perm q e, h) (omega (arith, free, none_left))
      | inr h ↦ rw (count-perm q e, h) (unique k)
    ]

-- The actor is an active admin of the workspace, so every step leaves every workspace with an active
-- admin that had one.
pub MembershipStep-HasActiveAdmin :
    {w a : String} {t t' : List Membership} (actor : Membership)
    → MembershipStep w a t t'
    → HasUniqueIds t
    → Memᴰ actor t
    → actor.user_id ≡ a
    → is_active_admin_of w actor ≡ true
    → (v : String) → HasActiveAdmin v t
    → HasActiveAdmin v t'
MembershipStep-HasActiveAdmin {w} {a} {t} {t'} actor step unique here mine leads v h =
    elim (Bool-cases (v == w)) [
      | inl e ↦
          rw ((eq_iff v w).0 e)
            (count_pos (is_active_admin_of w) t' (survives actor step unique here (inr mine)) leads)
      | inr e ↦
          let (m, there, lead) = mem_of_count (is_active_admin_of v) t h in
          count_pos (is_active_admin_of v) t'
            (survives m step unique there
              (inl (λ same. ground (arith, eq_iff m.workspace_id v, eq_iff v w))))
            lead
    ]
