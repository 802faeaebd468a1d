-- ===== src/Image/Tags.antt =====
-- Trimming, and the last place of a character, in the texts of image names.
use mathlib.Core.Path.{subst}
use mathlib.Core.List.{reverse-reverse, reverse-cons}
use hyperbytedb_operator.Prelude.{
  ℕ, suc, ◌+◌, ◌<◌, ◌≡◌, ◌≢◌, refl, sym, ap, true, false, [], ◌∷◌, ◌++◌, reverse, none, some, ◌==◌,
  Option-cases, inl, inr, length, All, All-append, arith,
}
use hyperbytedb_operator.Image.{
  Text, is_space, drop_spaces, trim_space, has, before_at, last_index, drop,
}

-- No space, colon or "@" in it.
pub record IsPlain (c : ℕ) : Type 0 where
  pub visible : is_space c ≡ false
  pub no_colon : c ≢ b':'
  pub no_at : c ≢ b'@'

abbrev pub IsVisible : ℕ → Type 0
IsVisible c = is_space c ≡ false

drop_spaces-IsVisible : (t : Text) → All IsVisible t → drop_spaces t ≡ t
unfolding drop_spaces
drop_spaces-IsVisible [] h = refl
drop_spaces-IsVisible (c ∷ cs) h = rw h.0

All-reverse : (P : ℕ → Type 0) (t : Text) → All P t → All P (reverse t)
All-reverse P [] h = tt
All-reverse P (c ∷ cs) h =
    subst (All P) (sym (reverse-cons c cs))
      (All-append P (reverse cs) (c ∷ []) (All-reverse P cs h.1) (h.0, tt))

pub trim_space-IsVisible : (t : Text) → All IsVisible t → trim_space t ≡ t
unfolding trim_space
trim_space-IsVisible t h =
    rw (drop_spaces-IsVisible t h, drop_spaces-IsVisible (reverse t) (All-reverse IsVisible t h))
      (reverse-reverse t)

pub has-false : (c : ℕ) (t : Text) → All (λ d. d ≢ c) t → has c t ≡ false
unfolding has
has-false c [] h = refl
has-false c (d ∷ ds) h = let e : (d == c) ≡ false = ground (arith, h.0) in rw e (has-false c ds h.1)

pub before_at-IsPlain : (t : Text) → All (λ d. d ≢ b'@') t → before_at t ≡ t
unfolding before_at
before_at-IsPlain [] h = refl
before_at-IsPlain (c ∷ cs) h =
    let e : (c == b'@') ≡ false = ground (arith, h.0) in
    rw e (ap (λ t. c ∷ t) (before_at-IsPlain cs h.1))

pub last_index-none : (c : ℕ) (t : Text) → All (λ d. d ≢ c) t → last_index c t ≡ none
unfolding last_index
last_index-none c [] h = refl
last_index-none c (d ∷ ds) h =
    let e : (d == c) ≡ false = ground (arith, h.0) in rw (last_index-none c ds h.1, e) refl

pub last_index-append :
    (c : ℕ) (xs ys : Text) → last_index c ys ≡ none → last_index c (xs ++ ys) ≡ last_index c xs
unfolding last_index
last_index-append c [] ys h = h
last_index-append c (x ∷ xs) ys h = rw (last_index-append c xs ys h) refl

pub last_index-at :
    (c : ℕ) (xs ys : Text)
    → last_index c ys ≡ none
    → last_index c (xs ++ (c ∷ ys)) ≡ some (length xs)
unfolding last_index
last_index-at c [] ys h = let e : (c == c) ≡ true = ground arith in rw (h, e) refl
last_index-at c (x ∷ xs) ys h = rw (last_index-at c xs ys h) refl

pub last_index-lt : (c : ℕ) (xs : Text) (j : ℕ) → last_index c xs ≡ some j → j < length xs
unfolding last_index
last_index-lt c [] j h = cc
last_index-lt c (x ∷ xs) j h = elim (Option-cases (last_index c xs)) [
  | inl e ↦ ground arith
  | inr (i, e) ↦ ground (arith, last_index-lt c xs i e)
]

pub has-at : (c : ℕ) (xs ys : Text) → has c (xs ++ (c ∷ ys)) ≡ true
unfolding has
has-at c [] ys = ground arith
has-at c (x ∷ xs) ys = ground (arith, has-at c xs ys)

pub last_index-past :
    (c : ℕ) (xs ys : Text) (k : ℕ)
    → last_index c ys ≡ some k
    → last_index c (xs ++ ys) ≡ some (length xs + k)
unfolding last_index
last_index-past c [] ys k h = ground (arith, h)
last_index-past c (x ∷ xs) ys k h = rw (last_index-past c xs ys k h) (ap some (omega arith))

pub last_index-some : (c : ℕ) (xs ys : Text) → (k : ℕ) × (last_index c (xs ++ (c ∷ ys)) ≡ some k)
unfolding last_index
last_index-some c [] ys = elim (Option-cases (last_index c ys)) [
  | inl e ↦ let b : (c == c) ≡ true = ground arith in (0, rw (e, b) refl)
  | inr (i, e) ↦ (suc i, rw e refl)
]
last_index-some c (x ∷ xs) ys = let (k, e) = last_index-some c xs ys in (suc k, rw e refl)

pub drop-length : (xs ys : Text) → drop (length xs) (xs ++ ys) ≡ ys
drop-length [] ys = refl
drop-length (x ∷ xs) ys = drop-length xs ys
