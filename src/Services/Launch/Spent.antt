-- ===== src/Services/Launch/Spent.antt =====
-- Launch tokens that were used: a property of the table of tokens of src/db/schema.ts that the writes
-- of the repository keep.
use mathlib.Core.List.Permᴰ
use swooshz_platform.Base.{
  ◌≡◌, refl, sym, ap, ◌∙◌, String, Bool, true, ◌&&◌, some, is_some, List, ◌∷◌, map, Memᴰ, Permᴰ,
  mem-perm, count, count_pos, update_where, Bool-cases, inl, inr, eq_iff, arith, ◌==◌,
  unique_of_count, ◌≤◌, ==-self,
}
use swooshz_platform.Time.{Timestamp}
use swooshz_platform.Ports.{AppLaunchTokenRecord}
use swooshz_platform.Db.Statements.{app_launch_tokens_clash}
use swooshz_platform.Db.Apps.{is_unused}
use swooshz_platform.Db.Rows.{mem_map-update_where, mem_of_map-update_where}

-- There is a token with the hash, and every such token was consumed.
pub record IsSpent (hash : String) (t : List AppLaunchTokenRecord) : Type 0 where
  pub holder : AppLaunchTokenRecord
  pub there : Memᴰ holder t
  pub hashed : holder.token_hash ≡ hash
  pub all_consumed :
      (x : AppLaunchTokenRecord) → Memᴰ x t → x.token_hash ≡ hash → is_some x.consumed_at ≡ true

abbrev pub is_use_of : String → AppLaunchTokenRecord → Bool
is_use_of id t = (t.id == id) && is_unused t

abbrev pub use_row : Timestamp → AppLaunchTokenRecord → AppLaunchTokenRecord
use_row now t = record t { consumed_at = some now }

module _ (id : String) (now : Timestamp) where
  used-hash :
      (x : AppLaunchTokenRecord)
      → (update_where (is_use_of id) (use_row now) x).token_hash ≡ x.token_hash
  used-hash x = elim (Bool-cases (is_use_of id x)) [ inl e ↦ rw e refl | inr e ↦ rw e refl ]

  used-consumed :
      (x : AppLaunchTokenRecord)
      → is_some x.consumed_at ≡ true
      → is_some (update_where (is_use_of id) (use_row now) x).consumed_at ≡ true
  used-consumed x h = elim (Bool-cases (is_use_of id x)) [ inl e ↦ rw e refl | inr e ↦ rw e h ]

  -- Consuming some token leaves a used one used.
  pub update-IsSpent :
      {hash : String} {t t' : List AppLaunchTokenRecord}
      → IsSpent hash t
      → Permᴰ t' (map (update_where (is_use_of id) (use_row now)) t)
      → IsSpent hash t'
  update-IsSpent {hash} {t} {t'} s e = record {
    holder = update_where (is_use_of id) (use_row now) s.holder;
    there = mem-perm (Permᴰ.symm e) (mem_map-update_where (is_use_of id) (use_row now) t s.there);
    hashed = used-hash s.holder ∙ s.hashed;
    all_consumed = λ y m h.
        let (x, n, same) = mem_of_map-update_where (is_use_of id) (use_row now) t (mem-perm e m) in
        let same_hash =
          sym (used-hash x) ∙ (ap (λ (r : AppLaunchTokenRecord). r.token_hash) (sym same) ∙ h) in
        ap (λ (r : AppLaunchTokenRecord). is_some r.consumed_at) same
        ∙ used-consumed x (s.all_consumed x n same_hash);
  }

-- Issuing a token leaves a used one used: the hash of a new token is new.
pub insert-IsSpent :
    {hash : String} {t t' : List AppLaunchTokenRecord} (new : AppLaunchTokenRecord)
    → IsSpent hash t
    → Permᴰ t' (new ∷ t)
    → count (app_launch_tokens_clash new) t ≡ 0
    → IsSpent hash t'
insert-IsSpent {hash} {t} new s e free = record {
  holder = s.holder;
  there = mem-perm (Permᴰ.symm e) (Memᴰ.tail s.there);
  hashed = s.hashed;
  all_consumed = λ x m h. elim (mem-perm e m) [
    | Memᴰ.head same ↦
        let clash : app_launch_tokens_clash new s.holder ≡ true = ground (
          arith,
          eq_iff new.token_hash s.holder.token_hash,
          s.hashed,
          ap (λ (r : AppLaunchTokenRecord). r.token_hash) same,
          h,
        ) in
        absurd (omega (arith, free, count_pos (app_launch_tokens_clash new) t s.there clash))
    | Memᴰ.tail n ↦ s.all_consumed x n h
  ];
}

-- Consuming an unused token makes it a used one, where hashes are unique.
pub use-IsSpent :
    (token : AppLaunchTokenRecord) (now : Timestamp) {t t' : List AppLaunchTokenRecord}
    → count (λ x. x.token_hash == token.token_hash) t ≤ 1
    → Memᴰ token t
    → is_unused token ≡ true
    → Permᴰ t' (map (update_where (is_use_of token.id) (use_row now)) t)
    → IsSpent token.token_hash t'
use-IsSpent token now {t} {t'} unique there unused e = record {
  holder = update_where (is_use_of token.id) (use_row now) token;
  there = mem-perm (Permᴰ.symm e) (mem_map-update_where (is_use_of token.id) (use_row now) t there);
  hashed = used-hash token.id now token;
  all_consumed = λ y m h.
      let (x, n, same) =
        mem_of_map-update_where (is_use_of token.id) (use_row now) t (mem-perm e m) in
      let same_hash =
        sym (used-hash token.id now x)
        ∙ (ap (λ (r : AppLaunchTokenRecord). r.token_hash) (sym same) ∙ h) in
      let equal : x ≡ token =
        unique_of_count (λ (r : AppLaunchTokenRecord). r.token_hash == token.token_hash) t unique n
          there ((eq_iff x.token_hash token.token_hash).1 same_hash) (==-self token.token_hash) in
      let hit : is_use_of token.id token ≡ true = rw (==-self token.id) unused in
      ap (λ (r : AppLaunchTokenRecord). is_some r.consumed_at)
        (same ∙ ap (update_where (is_use_of token.id) (use_row now)) equal)
      ∙ rw hit refl;
}
