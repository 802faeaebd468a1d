-- ===== src/Prelude/Handlers.antt =====
-- What a handler keeps of its state, one rule for each way to build a handler.
use mathlib.Core.Path.{◌≡◌, refl}
use mathlib.Core.Bool.{Bool, true, false}
use hyperbytedb_operator.Prelude.Tests.{if◌then◌else◌}
use hyperbytedb_operator.Prelude.Outcome.{
  Failure, Result, ok, err, Exec, pure, throw, lift, gets, continue, ◌>>=◌, ◌>>◌,
}

pub record Keeps {S : Type 0} (P : S → Type 0) {A : Type 0} (m : Exec S A) : Type 0 where
  pub at : (p : S) → P p → P (m p).1

module _ {S A : Type 0} {P : S → Type 0} where
  pub Keeps-pure : (a : A) → Keeps P (pure a)
  Keeps-pure a = record { at = λ p h. h }

  pub Keeps-throw : (e : Failure) → Keeps P (throw {A = A} e)
  Keeps-throw e = record { at = λ p h. h }

  pub Keeps-lift : (r : Result A) → Keeps P (lift r)
  Keeps-lift r = record { at = λ p h. h }

  pub Keeps-gets : (f : S → A) → Keeps P (gets f)
  Keeps-gets f = record { at = λ p h. h }

  pub Keeps-if : (b : Bool) (m n : Exec S A) → Keeps P m → Keeps P n → Keeps P (if b then m else n)
  Keeps-if true m n km kn = km
  Keeps-if false m n km kn = kn

module _ {S A B : Type 0} {P : S → Type 0} where
  Keeps-continue :
      (r : Result A) (f : A → Exec S B) → ((a : A) → Keeps P (f a)) → Keeps P (continue r f)
  Keeps-continue (ok a) f h = h a
  Keeps-continue (err e) f h = record { at = λ p k. k }

  pub Keeps-bind :
      (m : Exec S A) (f : A → Exec S B) → Keeps P m → ((a : A) → Keeps P (f a)) → Keeps P (m >>= f)
  Keeps-bind m f km kf = record { at = λ p h. (Keeps-continue (m p).0 f kf).at (m p).1 (km.at p h) }

module _ {S A : Type 0} {P : S → Type 0} where
  pub Keeps-then : (m : Exec S (Unit {0})) (n : Exec S A) → Keeps P m → Keeps P n → Keeps P (m >> n)
  Keeps-then m n km kn = Keeps-bind m (λ _. n) km (λ _. kn)

-- A test, and the answer of a call, with what the branch learns from it.
module _ {S A : Type 0} {P : S → Type 0} where
  pub Keeps-test :
      (b : Bool) (m n : Exec S A)
      → (b ≡ true → Keeps P m)
      → (b ≡ false → Keeps P n)
      → Keeps P (if b then m else n)
  Keeps-test true m n km kn = km refl
  Keeps-test false m n km kn = kn refl

module _ {S A B : Type 0} {P : S → Type 0} where
  pub Keeps-answer :
      (r : Result A) (f : A → Exec S B)
      → ((a : A) → r ≡ ok a → Keeps P (f a))
      → Keeps P (lift r >>= f)
  Keeps-answer (ok a) f h = record { at = (h a refl).at }
  Keeps-answer (err e) f h = record { at = λ p k. k }

pub ruleset keeps_rules =
    (Keeps-pure, Keeps-throw, Keeps-lift, Keeps-gets, Keeps-if, Keeps-bind, Keeps-then)
