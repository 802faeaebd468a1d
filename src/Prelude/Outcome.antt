-- ===== src/Prelude/Outcome.antt =====
-- Calls that can fail. An error of the API server has the kinds that the controllers tell apart;
-- any other error, also of the database's HTTP client, is `other` with a number for its text.
use Prim.Native.Nat.{ℕ}
use mathlib.Core.Path.{◌≡◌, refl}
use mathlib.Core.Bool.{Bool, true, false}
use mathlib.Core.Option.{Option, none, some}

pub data Failure : Type 0 where
  not_found already_exists conflict : Failure
  other : ℕ → Failure

pub data Result {ℓ} (A : Type ℓ) : Type ℓ where
  ok : A → Result A
  err : Failure → Result A

-- apierrors.IsNotFound, IsAlreadyExists and IsConflict
abbrev pub is_not_found : Failure → Bool
is_not_found not_found = true
is_not_found _ = false

abbrev pub is_already_exists : Failure → Bool
is_already_exists already_exists = true
is_already_exists _ = false

abbrev pub is_conflict : Failure → Bool
is_conflict conflict = true
is_conflict _ = false

abbrev pub is_ok {ℓ} : {A : Type ℓ} → Result A → Bool
is_ok (ok _) = true
is_ok (err _) = false

-- An `error` result: `none` is nil.
abbrev pub check : Option Failure → Result (Unit {0})
check none = ok tt
check (some e) = err e

-- A handler that changes a state and may return an error: what was changed before stays changed.
abbrev pub Exec {ℓ} : Type ℓ → Type ℓ → Type ℓ
Exec S A = S → Result A × S

module _ {ℓ} {S A : Type ℓ} where
  abbrev pub pure : A → Exec S A
  pure a s = (ok a, s)

  abbrev pub throw : Failure → Exec S A
  throw e s = (err e, s)

  abbrev pub lift : Result A → Exec S A
  lift r s = (r, s)

  abbrev pub gets : (S → A) → Exec S A
  gets f s = (ok (f s), s)

abbrev pub modify : {S : Type 0} → (S → S) → Exec S (Unit {0})
modify f s = (ok tt, f s)

module _ {ℓ} {S A B : Type ℓ} where
  abbrev pub continue : Result A → (A → Exec S B) → Exec S B
  continue (ok a) f s = f a s
  continue (err e) f s = (err e, s)

  infixl 5 ◌>>=◌
  abbrev pub ◌>>=◌ : Exec S A → (A → Exec S B) → Exec S B
  ◌>>=◌ m f s = let (r, s') = m s in continue r f s'

infixl 5 ◌>>◌
abbrev pub ◌>>◌ : {S B : Type 0} → Exec S (Unit {0}) → Exec S B → Exec S B
m >> n = m >>= λ _. n

-- The state after a bind satisfies what both parts keep.
pub bind_keeps :
    {S A B : Type 0} (P : S → Type 0) (m : Exec S A) (f : A → Exec S B) (s : S)
    → P (m s).1
    → ((a : A) → P (f a (m s).1).1)
    → P ((m >>= f) s).1
bind_keeps {A = A} {B = B} P m f s h k = go (m s).0
  where
    go : (r : Result A) → P (continue r f (m s).1).1
    go (ok a) = k a
    go (err e) = h

pub then-pure-bind :
    {S A B : Type 0} (m : Exec S (Unit {0})) (a : A) (f : A → Exec S B) (s : S)
    → ((m >> pure a) >>= f) s ≡ (m >>= λ _. f a) s
then-pure-bind {S = S} {A = A} {B = B} m a f s = go (m s).0
  where
    go :
        (r : Result (Unit {0}))
        → (continue r (λ _. pure a) >>= f) (m s).1 ≡ continue r (λ _. f a) (m s).1
    go (ok _) = refl
    go (err e) = refl
