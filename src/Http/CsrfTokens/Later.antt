-- ===== src/Http/CsrfTokens/Later.antt =====
-- Tokens of src/http/csrf-token-service.ts that are issued one after the other: what a later issue for
-- another session leaves of a token.
use mathlib.Core.Path.{subst}
use mathlib.Core.List.Permᴰ
use swooshz_platform.Base.{
  ◌≡◌, refl, sym, ap, ◌∙◌, zero, suc, ◌+◌, ◌*◌, String, Bool, true, false, List, [], ◌∷◌, Memᴰ,
  mem-perm, count_pos, eq_iff, arith, ◌==◌,
}
use swooshz_platform.Base.Text.{is_blank}
use swooshz_platform.Time.{
  Timestamp, Seconds, at, malformed, pos, negsuc, not_finite, to_iso_string,
}
use swooshz_platform.Errors.{Exn}
use swooshz_platform.Io.{Outcome, ok, thrown}
use swooshz_platform.Io.Keeps.{
  Keeps, Keeps-pure, Keeps-throw, Keeps-required, Keeps-catching, Keeps-if, Keeps-bind,
}
use swooshz_platform.Csrf.{CsrfTokenRecord}
use swooshz_platform.Driver.{Driver}
use swooshz_platform.Db.Statements.{Database, csrf_tokens_clash}
use swooshz_platform.Db.Csrf.{drizzle_csrf_tokens, bounded_insert}
use swooshz_platform.Db.Csrf.Bound.{BoundedInsert, bounded_insert-BoundedInsert}
use swooshz_platform.Http.CsrfTokens.{IssueCsrfTokenForSessionInput, issue_csrf_token_for_session}
use swooshz_platform.Http.CsrfTokens.Issued.{issue_token}
use swooshz_platform.Services.Launch.{non_blank_safely, get_expires_at_safely}

-- The row stands in the table, and no other one has its session and its hash.
pub record IsOnly (row : CsrfTokenRecord) (t : List CsrfTokenRecord) : Type 0 where
  pub there : Memᴰ row t
  pub alone :
      (x : CsrfTokenRecord)
      → Memᴰ x t
      → x.session_id ≡ row.session_id
      → x.token_hash ≡ row.token_hash
      → x ≡ row

pub BoundedInsert-IsOnly :
    {row : CsrfTokenRecord} {old new : List CsrfTokenRecord}
    → BoundedInsert row old new
    → IsOnly row new
BoundedInsert-IsOnly {row} {old} {new} b = record {
  there = mem-perm (Permᴰ.symm b.grown) (Memᴰ.head refl);
  alone = λ x m same_session same_hash. elim (mem-perm b.grown m) [
    | Memᴰ.head e ↦ e
    | Memᴰ.tail n ↦
        let clash : csrf_tokens_clash row x ≡ true = ground (
          arith,
          eq_iff row.id x.id,
          eq_iff row.session_id x.session_id,
          eq_iff row.token_hash x.token_hash,
        ) in
        absurd (omega (arith, b.fresh, count_pos (csrf_tokens_clash row) b.rest n clash))
  ];
}

-- An issue for another session neither removes the row nor adds one like it.
BoundedInsert-keeps :
    {row input : CsrfTokenRecord} {old new : List CsrfTokenRecord}
    → (row.session_id == input.session_id) ≡ false
    → BoundedInsert input old new
    → IsOnly row old
    → IsOnly row new
BoundedInsert-keeps {row} {input} other b o = record {
  there = b.others row o.there other;
  alone = λ x m same_session same_hash. elim (mem-perm b.grown m) [
    | Memᴰ.head e ↦
        let same : row.session_id ≡ input.session_id =
          sym same_session ∙ ap (λ (y : CsrfTokenRecord). y.session_id) e in
        absurd (ground (arith, eq_iff row.session_id input.session_id, other, same))
    | Memᴰ.tail n ↦ o.alone x (b.kept x n) same_session same_hash
  ];
}

-- A call that issues a token, with what the random sources give it.
pub record IssueCommand : Type 0 where
  pub token : Outcome String
  pub id : Outcome String
  pub input : IssueCsrfTokenForSessionInput

-- All of the calls are for other sessions.
pub data AllFor (other : String → Type 0) : List IssueCommand → Type 0 where
  none_left : AllFor other []
  one_more :
      {i : IssueCommand} {is : List IssueCommand}
      → other i.input.session_id
      → AllFor other is
      → AllFor other (i ∷ is)

module _ (d : Driver) (id_at_most : String → String → Bool) (hash : String → Outcome String) where
  -- Calls one after the other, whatever becomes of each.
  unfoldable pub issue_all : List IssueCommand → Database → Database
  issue_all [] db = db
  issue_all (i ∷ is) db = issue_all is (issue_token d id_at_most hash i.token i.id i.input db).1

  module _ (row : CsrfTokenRecord) where
    abbrev Has : Database → Type 0
    Has db = IsOnly row db.csrf_tokens

    Keeps-source : {A : Type 0} (o : Outcome A) → Keeps Has (λ (s : Database). (o, s))
    Keeps-source o = record { at = λ s h. h }

    Keeps-non_blank :
        (e : Exn) (o : Outcome String) → Keeps Has (non_blank_safely e (λ (s : Database). (o, s)))
    Keeps-non_blank e o =
        Keeps-catching _
          (Keeps-bind (Keeps-source o) λ v. Keeps-if (is_blank v) Keeps-throw Keeps-pure)

    Keeps-expiry :
        (e : Exn) (now : Timestamp) (ttl : Seconds) → Keeps Has (get_expires_at_safely e now ttl)
    Keeps-expiry e (at now) (pos (suc s)) = Keeps-required _ (to_iso_string (now + suc s * 1000))
    Keeps-expiry e (at now) (pos zero) = Keeps-throw
    Keeps-expiry e (at now) (negsuc s) = Keeps-throw
    Keeps-expiry e (at now) not_finite = Keeps-throw
    Keeps-expiry e malformed ttl = Keeps-throw

    Keeps-stored :
        (input : CsrfTokenRecord)
        → (row.session_id == input.session_id) ≡ false
        → Keeps Has ((drizzle_csrf_tokens d id_at_most).create_bounded_for_session input)
    Keeps-stored input other = record {
      at = λ s h.
          ended s h (d.transaction 0 (bounded_insert d id_at_most input) s).0
            (d.transaction 0 (bounded_insert d id_at_most input) s).1 refl;
    }
      where
        ended :
            (s : Database)
            → Has s
            → (o : Outcome CsrfTokenRecord) (t : Database)
            → d.transaction 0 (bounded_insert d id_at_most input) s ≡ (o, t)
            → Has t
        ended s h (ok a) t e =
            BoundedInsert-keeps other
              ((bounded_insert-BoundedInsert d id_at_most input s).at a t
                (d.transaction_commits 0 (bounded_insert d id_at_most input) s t a e))
              h
        ended s h (thrown x) t e =
            subst Has (sym (d.transaction_undone 0 (bounded_insert d id_at_most input) s t x e).0) h

    Keeps-issue_token :
        (token id : Outcome String) (input : IssueCsrfTokenForSessionInput)
        → (row.session_id == input.session_id) ≡ false
        → Keeps Has (issue_token d id_at_most hash token id input)
    unfolding issue_csrf_token_for_session
    Keeps-issue_token token id input other = Keeps-if (is_blank input.session_id) Keeps-throw (
        Keeps-bind (Keeps-expiry _ input.now input.ttl_seconds) λ expires_at.
          Keeps-bind (Keeps-non_blank _ token) λ raw.
            Keeps-bind (Keeps-non_blank _ (hash raw)) λ hashed.
              Keeps-bind (Keeps-catching _ (Keeps-source id))
                λ fresh. Keeps-bind (Keeps-catching _ (Keeps-stored _ other)) λ _. Keeps-pure)

    pub issue_all-IsOnly :
        (is : List IssueCommand) (db : Database)
        → AllFor (λ s. (row.session_id == s) ≡ false) is
        → IsOnly row db.csrf_tokens
        → IsOnly row (issue_all is db).csrf_tokens
    unfolding issue_all
    issue_all-IsOnly [] db others h = h
    issue_all-IsOnly (i ∷ is) db (one_more other others) h =
        issue_all-IsOnly is _ others ((Keeps-issue_token i.token i.id i.input other).at db h)
