-- ===== src/Io/Keeps.antt =====
-- Actions that keep a property of the state, whether they return or throw.
use swooshz_platform.Base.{Bool, true, false, Option, none, some, if◌then◌else◌}
use swooshz_platform.Errors.{Exn}
use swooshz_platform.Io.{Outcome, ok, thrown, Io, pure, throw, required, catching, proceed, ◌>>=◌}

pub record Keeps {S A : Type 0} (P : S → Type 0) (m : Io S A) : Type 0 where
  pub at : (s : S) → P s → P (m s).1

module _ {S A : Type 0} {P : S → Type 0} where
  pub Keeps-pure : {a : A} → Keeps P (pure {S = S} a)
  Keeps-pure = record { at = λ s h. h }

  pub Keeps-throw : {e : Exn} → Keeps P (throw {S = S} {A = A} e)
  Keeps-throw = record { at = λ s h. h }

  pub Keeps-required : (e : Exn) (o : Option A) → Keeps P (required {S = S} e o)
  Keeps-required e none = Keeps-throw
  Keeps-required e (some a) = Keeps-pure

  pub Keeps-catching : (f : Exn → Exn) {m : Io S A} → Keeps P m → Keeps P (catching f m)
  Keeps-catching f k = record { at = k.at }

  pub Keeps-if : (b : Bool) {m n : Io S A} → Keeps P m → Keeps P n → Keeps P (if b then m else n)
  Keeps-if true km kn = km
  Keeps-if false km kn = kn

module _ {S A B : Type 0} {P : S → Type 0} where
  keeps_proceed :
      (r : Outcome A) (s : S) (f : A → Io S B)
      → ((a : A) → Keeps P (f a))
      → P s
      → P (proceed r f s).1
  keeps_proceed (ok a) s f k h = (k a).at s h
  keeps_proceed (thrown e) s f k h = h

  pub Keeps-bind :
      {m : Io S A} {f : A → Io S B} → Keeps P m → ((a : A) → Keeps P (f a)) → Keeps P (m >>= f)
  unfolding ◌>>=◌
  Keeps-bind {m} {f} km k = record { at = λ s h. keeps_proceed (m s).0 (m s).1 f k (km.at s h) }
