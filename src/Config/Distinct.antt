-- ===== src/Config/Distinct.antt =====
-- Lists whose keys are drawn, in order, from a fixed list of distinct names have distinct keys.
use mathlib.Core.Path.{subst}
use hyperbytedb_operator.Prelude.{
  ◌≡◌, ◌≢◌, refl, sym, String, Bool, true, false, not, ◌&&◌, List, [], ◌∷◌, ◌++◌, Option, none,
  some, str_eq, ◌==◌, eq_iff, if◌then◌else◌, Bool-cases, inl, inr, All, arith,
}
use hyperbytedb_operator.Image.{Text, codes}
use hyperbytedb_operator.Prelude.Int.{ℤ, pos, ltb_ℤ}
use hyperbytedb_operator.Config.{Value, Section, Lines, line, if_positive, if_flag}
use hyperbytedb_operator.Config.Render.{if_num}

-- The keys of `xs` are among `names`, in their order.
pub data Draws {A : Type 0} (key : A → String) : List String → List A → Type 0 where
  nil : Draws key [] []
  skip :
      {name : String} {names : List String} {xs : List A}
      → Draws key names xs
      → Draws key (name ∷ names) xs
  take :
      {name : String} {names : List String} {x : A} {xs : List A}
      → key x ≡ name
      → Draws key names xs
      → Draws key (name ∷ names) (x ∷ xs)

-- No two have the same key.
abbrev pub IsDistinct : {A : Type 0} → (A → String) → List A → Type 0
IsDistinct key [] = Unit
IsDistinct key (x ∷ xs) = All (λ y. key y ≢ key x) xs × IsDistinct key xs

abbrev pub absent : String → List String → Bool
absent k [] = true
absent k (n ∷ ns) = not (str_eq n k) && absent k ns

abbrev pub distinct : List String → Bool
distinct [] = true
distinct (n ∷ ns) = absent n ns && distinct ns

module _ {A : Type 0} (key : A → String) where
  Draws-absent :
      (k : String) {names : List String} {xs : List A}
      → Draws key names xs
      → absent k names ≡ true
      → All (λ y. key y ≢ k) xs
  Draws-absent k nil h = tt
  Draws-absent k (skip d) h = Draws-absent k d (ground arith)
  Draws-absent k (take {name = n} e d) h =
      (λ q. ground (arith, eq_iff n k), Draws-absent k d (ground arith))

  Draws-IsDistinct :
      {names : List String} {xs : List A}
      → Draws key names xs
      → distinct names ≡ true
      → IsDistinct key xs
  Draws-IsDistinct nil h = tt
  Draws-IsDistinct (skip d) h = Draws-IsDistinct d (ground arith)
  Draws-IsDistinct (take {name = n} {xs = xs} e d) h = (
    subst (λ k. All (λ y. key y ≢ k) xs) (sym e) (Draws-absent n d (ground arith)),
    Draws-IsDistinct d (ground arith),
  )

-- A name that a line of the file can begin with: it is not empty, does not begin with "[", and has no space
-- and no newline.
abbrev pub is_plain : Text → Bool
is_plain [] = true
is_plain (c ∷ cs) = not (c == 10) && not (c == 32) && is_plain cs

abbrev pub is_name : Text → Bool
is_name [] = false
is_name (c ∷ cs) = not (c == b'[') && is_plain (c ∷ cs)

abbrev all_names : List String → Bool
all_names [] = true
all_names (n ∷ ns) = is_name (codes n) && all_names ns

abbrev pub are_usable : List String → Bool
are_usable ns = distinct ns && all_names ns

-- No two have the same key, and each key is a name.
abbrev pub IsNamed : {A : Type 0} → (A → String) → List A → Type 0
IsNamed key xs = IsDistinct key xs × All (λ x. is_name (codes (key x)) ≡ true) xs

module _ {A : Type 0} (key : A → String) where
  Draws-All :
      {ns : List String} {xs : List A}
      → Draws key ns xs
      → all_names ns ≡ true
      → All (λ x. is_name (codes (key x)) ≡ true) xs
  Draws-All nil h = tt
  Draws-All (skip {name = n} d) h = Draws-All d (ground arith)
  Draws-All (take {name = n} e d) h =
      (subst (λ k. is_name (codes k) ≡ true) (sym e) (ground arith), Draws-All d (ground arith))

  pub Draws-IsNamed :
      {ns : List String} {xs : List A} → Draws key ns xs → are_usable ns ≡ true → IsNamed key xs
  Draws-IsNamed {ns} d h = (Draws-IsDistinct key d (ground arith), Draws-All d (ground arith))

abbrev pub line_key : String × Value → String
line_key l = l.0

abbrev pub section_key : Section → String
section_key s = s.name

module _ {names : List String} where
  pub skip_all-nil : Draws line_key names []
  skip_all-nil = all_skipped names
    where
      all_skipped : (ns : List String) → Draws line_key ns []
      all_skipped [] = nil
      all_skipped (n ∷ ns) = skip (all_skipped ns)

module _ {names : List String} {xs : Lines} (k : String) (d : Draws line_key names xs) where
  pub draw-if_positive : (n : ℤ) → Draws line_key (k ∷ names) (if_positive k n ++ xs)
  draw-if_positive n = elim (Bool-cases (ltb_ℤ (pos 0) n)) [
    | inl b ↦ rw b (take refl d)
    | inr b ↦ rw b (skip d)
  ]

  pub draw-if_line :
      (b : Bool) (v : Value) → Draws line_key (k ∷ names) ((if b then line k v else []) ++ xs)
  draw-if_line true v = take refl d
  draw-if_line false v = skip d

  pub draw-if_flag : (o : Option Bool) → Draws line_key (k ∷ names) (if_flag k o ++ xs)
  draw-if_flag none = skip d
  draw-if_flag (some b) = take refl d

  pub draw-if_num : (o : Option ℤ) → Draws line_key (k ∷ names) (if_num k o ++ xs)
  draw-if_num none = skip d
  draw-if_num (some n) = take refl d

pub draw-last_positive : (k : String) (n : ℤ) → Draws line_key (k ∷ []) (if_positive k n)
draw-last_positive k n = elim (Bool-cases (ltb_ℤ (pos 0) n)) [
  | inl b ↦ rw b (take refl nil)
  | inr b ↦ rw b (skip nil)
]

pub draw-if :
    {names : List String} (b : Bool) (xs ys : Lines)
    → Draws line_key names xs
    → Draws line_key names ys
    → Draws line_key names (if b then xs else ys)
draw-if true xs ys dx dy = dx
draw-if false xs ys dx dy = dy
