-- ===== src/Io.antt =====
-- Asynchronous calls that may throw. An action takes the state that it shares with other calls (the
-- database, for one) and returns a value or an error, with the state that it left. What was written
-- before a throw stays written, unless a transaction undoes it.
pub mod Keeps
pub mod Restores
use mathlib.Core.Path.{subst, subst₂}
use swooshz_platform.Base.{
  ◌≡◌, ◌∙◌, ◌⊎◌, inl, inr, refl, sym, ap, Bool, true, false, Option, none, some, arith,
  if◌then◌else◌,
}
use swooshz_platform.Errors.{Exn}

pub data Outcome (A : Type 0) : Type 0 where
  ok : A → Outcome A
  thrown : Exn → Outcome A

abbrev pub Io : Type 0 → Type 0 → Type 0
Io S A = S → Outcome A × S

abbrev pub replace_error : {A : Type 0} → (Exn → Exn) → Outcome A → Outcome A
replace_error f (ok a) = ok a
replace_error f (thrown e) = thrown (f e)

module _ {S A : Type 0} where
  abbrev pub pure : A → Io S A
  pure a s = (ok a, s)

  abbrev pub throw : Exn → Io S A
  throw e s = (thrown e, s)

  -- `value ?? throw`, `if (!value) throw`
  abbrev pub required : Exn → Option A → Io S A
  required e none = throw e
  required e (some a) = pure a

  -- `try { ... } catch (error) { throw f(error) }`
  abbrev pub catching : (Exn → Exn) → Io S A → Io S A
  catching f m s = let (r, s') = m s in (replace_error f r, s')

  -- `try { ... } catch { throw e }`
  abbrev pub rescue : Exn → Io S A → Io S A
  rescue e = catching (λ _. e)

module _ {S A B : Type 0} where
  abbrev pub proceed : Outcome A → (A → Io S B) → Io S B
  proceed (ok a) f s = f a s
  proceed (thrown e) f s = (thrown e, s)

  infixl 5 ◌>>=◌ ◌>>◌
  unfoldable pub ◌>>=◌ : Io S A → (A → Io S B) → Io S B
  ◌>>=◌ m f s = let (r, s') = m s in proceed r f s'

  abbrev pub ◌>>◌ : Io S A → Io S B → Io S B
  m >> n = m >>= λ _. n

-- `m` only reads: it leaves the state as it was.
abbrev pub Reads : {S A : Type 0} → Io S A → Type 0
Reads {S} m = (s : S) → (m s).1 ≡ s

pub Outcome-cases :
    {A : Type 0} (r : Outcome A) → ((a : A) × (r ≡ ok a)) ⊎ ((e : Exn) × (r ≡ thrown e))
Outcome-cases (ok a) = inl (a, refl)
Outcome-cases (thrown e) = inr (e, refl)

-- Inversion of a chain that returned: every part of it returned.
module _ {S A B : Type 0} where
  proceed_ok :
      (r : Outcome A) (t : S) (f : A → Io S B) (b : B) (s' : S)
      → proceed r f t ≡ (ok b, s')
      → (a : A) × (r ≡ ok a) × (f a t ≡ (ok b, s'))
  proceed_ok (ok a) t f b s' h = (a, refl, h)
  proceed_ok (thrown e) t f b s' h = ground arith

  pub bind_ok :
      (m : Io S A) (f : A → Io S B) (s : S) (b : B) (s' : S)
      → (m >>= f) s ≡ (ok b, s')
      → (a : A) × ((m s).0 ≡ ok a) × (f a (m s).1 ≡ (ok b, s'))
  unfolding ◌>>=◌
  bind_ok m f s b s' h = let (r, t) = m s in proceed_ok r t f b s' h

-- A triple for actions that return: whenever `m` returns `a` from the state `s`, leaving `s'`, the
-- postcondition holds of `a` and `s'`.
pub record Ensures {S A : Type 0} (m : Io S A) (s : S) (Q : A → S → Type 0) : Type 0 where
  pub at : (a : A) (s' : S) → m s ≡ (ok a, s') → Q a s'

module _ {S A : Type 0} {Q : A → S → Type 0} where
  pub ensures_pure : {a : A} {s : S} → Q a s → Ensures (pure a) s Q
  ensures_pure {a} {s} q = record {
    at = λ b s' h.
        let same : a ≡ b = ground arith in let left : s ≡ s' = ground arith in subst₂ Q same left q;
  }

  pub ensures_throw : {e : Exn} {s : S} → Ensures (throw {A = A} e) s Q
  ensures_throw = record { at = λ b s' h. absurd (ground arith) }

  pub ensures_required :
      (e : Exn) (o : Option A) {s : S} → ((a : A) → o ≡ some a → Q a s) → Ensures (required e o) s Q
  ensures_required e none k = ensures_throw
  ensures_required e (some a) k = ensures_pure (k a refl)

  pub ensures_if :
      (b : Bool) (m n : Io S A) {s : S}
      → (b ≡ true → Ensures m s Q)
      → (b ≡ false → Ensures n s Q)
      → Ensures (if b then m else n) s Q
  ensures_if true m n km kn = km refl
  ensures_if false m n km kn = kn refl

  pub ensures_catching :
      (f : Exn → Exn) (m : Io S A) {s : S} → Ensures m s Q → Ensures (catching f m) s Q
  ensures_catching f m {s} e = record { at = λ a s' h. e.at a s' (ground arith) }

  pub ensures_weaker :
      {m : Io S A} {s : S} {P : A → S → Type 0}
      → Ensures m s P
      → ((a : A) (t : S) → P a t → Q a t)
      → Ensures m s Q
  ensures_weaker e k = record { at = λ a t h. k a t (e.at a t h) }

module _ {S A B : Type 0} {Q : B → S → Type 0} where
  pub ensures_bind :
      {m : Io S A} {f : A → Io S B} {s : S} {P : A → S → Type 0}
      → Ensures m s P
      → ((a : A) (t : S) → P a t → Ensures (f a) t Q)
      → Ensures (m >>= f) s Q
  ensures_bind {m} {f} {s} em k = record {
    at = λ b s' h.
        let (a, r, rest) = bind_ok m f s b s' h in
        let t = (m s).1 in (k a t (em.at a t (ap (λ o. (o, t)) r))).at b s' rest;
  }

  -- A first part that only reads: the rest starts from the same state.
  pub ensures_read :
      {m : Io S A} {f : A → Io S B} {s : S} {P : A → Type 0}
      → Ensures m s (λ a t. (t ≡ s) × P a)
      → ((a : A) → P a → Ensures (f a) s Q)
      → Ensures (m >>= f) s Q
  ensures_read {m} {f} {s} em k =
      ensures_bind em (λ a t p. subst (λ u. Ensures (f a) u Q) (sym p.0) (k a p.1))

  pub ensures_known :
      (e : Exn) (a : A) (f : A → Io S B) {s : S}
      → Ensures (f a) s Q
      → Ensures (required e (some a) >>= f) s Q
  ensures_known e a f {s} k =
      ensures_bind (ensures_pure {Q = λ x t. (x ≡ a) × (t ≡ s)} (refl, refl))
        (λ x t p. subst₂ (λ y u. Ensures (f y) u Q) (sym p.0) (sym p.1) k)

  pub ensures_found :
      (e : Exn) (o : Option A) {f : A → Io S B} {s : S}
      → ((a : A) → o ≡ some a → Ensures (f a) s Q)
      → Ensures (required e o >>= f) s Q
  ensures_found e none k = ensures_bind {P = λ _ _. ⊥} ensures_throw (λ a t p. absurd p)
  ensures_found e (some b) {f} k = ensures_known e b f (k b refl)

module _ {S B : Type 0} {Q : B → S → Type 0} where
  -- A guard: the rest runs if the test fails.
  pub ensures_unless :
      (b : Bool) (e : Exn) (n : Io S B) {s : S}
      → (b ≡ false → Ensures n s Q)
      → Ensures ((if b then throw e else pure (let u : Unit {0} = tt in u)) >> n) s Q
  ensures_unless b e n {s} k =
      ensures_bind
        (ensures_if b (throw e) (pure tt) (λ _. ensures_throw)
          (λ h. ensures_pure {Q = λ x t. (t ≡ s) × (b ≡ false)} (refl, h)))
        (λ x t p. subst (λ u. Ensures n u Q) (sym p.0) (k p.1))

-- `try { ... } catch { return value }`
abbrev pub or_else : {A : Type 0} → A → Outcome A → Outcome A
or_else value (ok a) = ok a
or_else value (thrown e) = ok value

abbrev pub returning_on_error : {S A : Type 0} → A → Io S A → Io S A
returning_on_error value m s = let (r, t) = m s in (or_else value r, t)

pub ensures_returning :
    {S A : Type 0} {Q : A → S → Type 0} (value : A) {m : Io S A} {s : S}
    → ((t : S) → Q value t)
    → Ensures m s Q
    → Ensures (returning_on_error value m) s Q
ensures_returning {S} {A} {Q} value {m} {s} q e = record {
  at = λ a t h. settled (m s).0 (m s).1 a t refl h;
}
  where
    settled :
        (o : Outcome A) (u : S) (a : A) (t : S)
        → m s ≡ (o, u)
        → ◌≡◌ {A = Outcome A × S} (or_else value o, u) (ok a, t)
        → Q a t
    settled (ok b) u a t h k = e.at a t (h ∙ k)
    settled (thrown x) u a t h k =
        let same : value ≡ a = ground arith in subst (λ b. Q b t) same (q t)
