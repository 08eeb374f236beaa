-- ===== src/Io/Restores.antt =====
-- Actions that leave the state as it was where they throw.
use swooshz_platform.Base.{
  ◌≡◌, refl, sym, ap, ◌∙◌, Bool, true, false, Option, none, some, if◌then◌else◌, arith,
}
use swooshz_platform.Errors.{Exn}
use swooshz_platform.Io.{
  Outcome, ok, thrown, Io, pure, throw, required, catching, proceed, replace_error, Ensures, ◌>>=◌,
}

pub record Restores {S A : Type 0} (m : Io S A) (s : S) : Type 0 where
  pub at : (e : Exn) (s' : S) → m s ≡ (thrown e, s') → s' ≡ s

module _ {S A : Type 0} {s : S} where
  pub Restores-pure : {a : A} → Restores (pure a) s
  Restores-pure = record { at = λ e s' h. ground arith }

  pub Restores-throw : {e : Exn} → Restores (throw {A = A} e) s
  Restores-throw = record { at = λ e s' h. ground arith }

  pub Restores-source : {o : Outcome A} → Restores (λ (t : S). (o, t)) s
  Restores-source = record { at = λ e s' h. ground arith }

  pub Restores-required : (e : Exn) (o : Option A) → Restores (required e o) s
  Restores-required e none = Restores-throw
  Restores-required e (some a) = Restores-pure

  pub Restores-if :
      (b : Bool) {m n : Io S A}
      → (b ≡ true → Restores m s)
      → (b ≡ false → Restores n s)
      → Restores (if b then m else n) s
  Restores-if true km kn = km refl
  Restores-if false km kn = kn refl

  pub Restores-catching : (f : Exn → Exn) (m : Io S A) → Restores m s → Restores (catching f m) s
  Restores-catching f m k = record { at = λ e s' h. caught (m s).0 (m s).1 refl e s' h }
    where
      caught :
          (o : Outcome A) (t : S)
          → m s ≡ (o, t)
          → (e : Exn) (s' : S) → ◌≡◌ {A = Outcome A × S} (replace_error f o, t) (thrown e, s')
          → s' ≡ s
      caught (ok a) t i e s' h = absurd (ground arith)
      caught (thrown x) t i e s' h = let left : s' ≡ t = ground arith in left ∙ k.at x t i

module _ {S A B : Type 0} {s : S} where
  pub Restores-bind :
      (m : Io S A) (f : A → Io S B)
      → Restores m s
      → ((a : A) (t : S) → m s ≡ (ok a, t) → (e : Exn) (s' : S) → f a t ≡ (thrown e, s') → s' ≡ s)
      → Restores (m >>= f) s
  unfolding ◌>>=◌
  Restores-bind m f km kf = record { at = λ e s' h. ran (m s).0 (m s).1 refl e s' h }
    where
      ran :
          (o : Outcome A) (t : S)
          → m s ≡ (o, t)
          → (e : Exn) (s' : S) → proceed o f t ≡ (thrown e, s')
          → s' ≡ s
      ran (ok a) t i e s' h = kf a t i e s' h
      ran (thrown x) t i e s' h = let left : s' ≡ t = ground arith in left ∙ km.at x t i

  -- A first part that only reads.
  pub Restores-read :
      {m : Io S A} {f : A → Io S B} {P : A → Type 0}
      → Restores m s
      → Ensures m s (λ a t. (t ≡ s) × P a)
      → ((a : A) → P a → Restores (f a) s)
      → Restores (m >>= f) s
  Restores-read {m} {f} km em kf =
      Restores-bind m f km
        λ a t i e s' h. let (same, p) = em.at a t i in (kf a p).at e s' (ap (f a) (sym same) ∙ h)

  -- The rest does not throw.
  pub Restores-last : {m : Io S A} (g : A → B) → Restores m s → Restores (m >>= λ a. pure (g a)) s
  Restores-last {m} g km = Restores-bind m _ km λ a t i e s' h. absurd (ground arith)
