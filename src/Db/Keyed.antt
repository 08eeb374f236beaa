-- ===== src/Db/Keyed.antt =====
-- The unique indexes of src/db/schema.ts as a property of the tables, and what a lookup by a unique
-- key finds under it.
use swooshz_platform.Base.{
  ◌≤◌, ◌≡◌, String, Bool, ◌&&◌, Option, none, some, List, find, find_of_unique, find-none_of_all,
  count, count_pos, Bool-cases, inl, inr, arith, ◌==◌,
}
use swooshz_platform.Io.{ok}
use swooshz_platform.Accounts.{Membership}
use swooshz_platform.Access.{is_entitlement_of}
use swooshz_platform.Driver.{Driver}
use swooshz_platform.Db.Statements.{Database}

abbrev pub is_membership_of : String → String → Membership → Bool
is_membership_of user_id workspace_id m = (m.user_id == user_id) && (m.workspace_id == workspace_id)

pub record IsKeyed (db : Database) : Type 0 where
  pub user_ids : (k : String) → count (λ u. u.id == k) db.users ≤ 1
  pub session_ids : (k : String) → count (λ s. s.id == k) db.sessions ≤ 1
  pub workspace_ids : (k : String) → count (λ w. w.id == k) db.workspaces ≤ 1
  pub membership_ids : (k : String) → count (λ m. m.id == k) db.memberships ≤ 1
  pub membership_users : (u w : String) → count (is_membership_of u w) db.memberships ≤ 1
  pub app_ids : (k : String) → count (λ a. a.id == k) db.apps ≤ 1
  pub app_keys : (k : String) → count (λ a. a.key == k) db.apps ≤ 1
  pub entitlements : (w a : String) → count (is_entitlement_of w a) db.app_entitlements ≤ 1
  pub launch_token_ids : (k : String) → count (λ t. t.id == k) db.app_launch_tokens ≤ 1
  pub launch_token_hashes : (k : String) → count (λ t. t.token_hash == k) db.app_launch_tokens ≤ 1

-- A lookup by a unique key is `find` on the table.
pub select_one-eq-find :
    {R : Type 0} (d : Driver) (p : R → Bool) (t : List R) (o : Option R)
    → count p t ≤ 1
    → d.select_one p t ≡ ok o
    → find p t ≡ o
select_one-eq-find d p t (some r) h e =
    let (m, pr) = d.select_one-some p t r e in find_of_unique p t h m pr
select_one-eq-find d p t none h e = find-none_of_all p t (λ x m. elim (Bool-cases (p x)) [
  | inl px ↦ absurd (omega (arith, count_pos p t m px, d.select_one-none p t e))
  | inr nx ↦ nx
])
