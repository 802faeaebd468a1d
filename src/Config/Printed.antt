-- ===== src/Config/Printed.antt =====
-- What the printed configuration names, read line by line.
use Prim.Native.Char.{code}
use mathlib.Core.List.{append_assoc}
use package.text.Mathlib.TextEquality.{Char-path}
use hyperbytedb_operator.Prelude.{
  ℕ, ◌≡◌, ◌≢◌, refl, sym, ap, ◌∙◌, ◌==◌, true, false, String, List, [], ◌∷◌, ◌++◌, if◌then◌else◌,
  All, All-append, arith,
}
use hyperbytedb_operator.Prelude.Int.{ℤ}
use hyperbytedb_operator.Image.{Text, codes}
use hyperbytedb_operator.Config.{Value, num, text, flag, Section, Lines}
use hyperbytedb_operator.Config.Print.{
  print_value, print_lines, header, print_section, print_rest, print_sections,
}
use hyperbytedb_operator.Config.Distinct.{is_plain, is_name, line_key}

abbrev pub push : ℕ → List Text → List Text
push c [] = (c ∷ []) ∷ []
push c (l ∷ ls) = (c ∷ l) ∷ ls

-- The lines of a file.
unfoldable pub split : Text → List Text
split [] = []
split (c ∷ cs) = let rest = split cs in if c == b'\n' then [] ∷ rest else push c rest

-- The text before the first space.
unfoldable pub word : Text → Text
word [] = []
word (c ∷ cs) = let rest = word cs in if c == b' ' then [] else c ∷ rest

-- A table by its line, with a key of it, or with nothing for the line of the table.
abbrev pub Name : Type 0
Name = Text × Text

-- What the lines name, behind the line of a table: the line that begins with "[" names a table, a line
-- that is not empty and no table's names the key before its first space.
unfoldable pub names_of : Text → List Text → List Name
unfolding word
names_of table [] = []
names_of table ([] ∷ ls) = names_of table ls
names_of table ((c ∷ cs) ∷ ls) =
    let here = names_of table ls in
    let there = names_of (c ∷ cs) ls in
    if c == b'[' then (c ∷ cs, []) ∷ there else (table, word (c ∷ cs)) ∷ here

abbrev pub OneLine : Text → Type 0
OneLine t = All (λ c. c ≢ b'\n') t

split-line : (t u : Text) → OneLine t → split (t ++ (b'\n' ∷ u)) ≡ t ∷ split u
unfolding split
split-line [] u h = refl
split-line (c ∷ cs) u h =
    let e : (c == b'\n') ≡ false = ground (arith, h.0) in rw (e, split-line cs u h.1) refl

plain-OneLine : (t : Text) → is_plain t ≡ true → OneLine t
plain-OneLine [] h = tt
plain-OneLine (c ∷ cs) h = ((λ e. ground arith), plain-OneLine cs (ground arith))

word-plain : (t u : Text) → is_plain t ≡ true → word (t ++ (b' ' ∷ u)) ≡ t
unfolding word
word-plain [] u h = refl
word-plain (c ∷ cs) u h =
    let e : (c == b' ') ≡ false = ground arith in rw (e, word-plain cs u (ground arith)) refl

names_of-key :
    (table t u : Text) (ls : List Text)
    → is_name t ≡ true
    → names_of table ((t ++ (b' ' ∷ u)) ∷ ls) ≡ (table, t) ∷ names_of table ls
unfolding names_of
names_of-key table [] u ls h = cc
names_of-key table (c ∷ cs) u ls h =
    let e : (c == b'[') ≡ false = ground arith in
    rw e (ap (λ w. (table, w) ∷ names_of table ls) (word-plain (c ∷ cs) u (ground arith)))

name-plain : (t : Text) → is_name t ≡ true → is_plain t ≡ true
name-plain [] h = cc
name-plain (c ∷ cs) h = ground arith

pub codes-injective : (s t : String) → codes s ≡ codes t → s ≡ t
codes-injective String.[] String.[] e = refl
codes-injective String.[] (String.◌∷◌ d t) e = cc
codes-injective (String.◌∷◌ c s) String.[] e = cc
codes-injective (String.◌∷◌ c s) (String.◌∷◌ d t) e =
    let same : code c ≡ code d = cc in
    let rest : codes s ≡ codes t = cc in rw (Char-path c d same, codes-injective s t rest) refl

-- The text but for its last character.
but_last : Text → Text
but_last [] = []
but_last (c ∷ []) = []
but_last (c ∷ (d ∷ cs)) = c ∷ but_last (d ∷ cs)

but_last-append : (t : Text) (c : ℕ) → but_last (t ++ (c ∷ [])) ≡ t
unfolding but_last
but_last-append [] c = refl
but_last-append (d ∷ []) c = refl
but_last-append (d ∷ (e ∷ t)) c = ap (λ u. d ∷ u) (but_last-append (e ∷ t) c)

tail_of : Text → Text
tail_of [] = []
tail_of (c ∷ cs) = cs

pub header-injective : (a b : String) → header a ≡ header b → a ≡ b
unfolding tail_of
header-injective a b e = codes-injective a b (
    sym (but_last-append (codes a) b']')
    ∙ ap (λ t. but_last (tail_of t)) e
    ∙ but_last-append (codes b) b']')

-- What the sections name.
abbrev pub entries : Text → Lines → List Name
entries table [] = []
entries table (l ∷ ls) = (table, codes l.0) ∷ entries table ls

abbrev pub section_names : Section → List Name
section_names s = (header s.name, []) ∷ entries (header s.name) s.lines

abbrev pub all_names : List Section → List Name
all_names [] = []
all_names (s ∷ ss) = section_names s ++ all_names ss

-- A text of the spec without a newline.
abbrev pub IsOneLine : Value → Type 0
IsOneLine (num n) = Unit
IsOneLine (text t) = OneLine (codes t)
IsOneLine (flag b) = Unit

abbrev pub HasOneLines : Section → Type 0
HasOneLines s = All (λ l. IsOneLine l.1) s.lines

module _ (show : ℤ → Text) (decimal : (n : ℤ) → OneLine (show n)) where
  value-OneLine : (v : Value) → IsOneLine v → OneLine (print_value show v)
  unfolding print_value
  value-OneLine (num n) h = decimal n
  value-OneLine (text t) h = (
    (λ e. omega arith),
    All-append (λ c. c ≢ b'\n') (codes t) (b'"' ∷ []) h ((λ e. omega arith), tt),
  )
  value-OneLine (flag true) h = plain-OneLine (codes "true") refl
  value-OneLine (flag false) h = plain-OneLine (codes "false") refl

  abbrev line_text : String × Value → Text
  line_text (key, value) = codes key ++ (b' ' ∷ (b'=' ∷ (b' ' ∷ print_value show value)))

  print_line-append :
      (l : String × Value) (ls : Lines) (rest : Text)
      → print_lines show (l ∷ ls) ++ rest ≡ line_text l ++ (b'\n' ∷ (print_lines show ls ++ rest))
  unfolding print_lines
  print_line-append (key, value) ls rest = simp (append_assoc) refl

  names_of-lines :
      (table : Text) (ls : Lines) (rest : Text)
      → All (λ l. is_name (codes (line_key l)) ≡ true) ls
      → All (λ l. IsOneLine l.1) ls
      → names_of table (split (print_lines show ls ++ rest))
        ≡ entries table ls ++ names_of table (split rest)
  unfolding print_lines
  names_of-lines table [] rest h k = refl
  names_of-lines table ((key, value) ∷ ls) rest h k =
      let one : OneLine (line_text (key, value)) =
        All-append (λ c. c ≢ b'\n') (codes key) _
          (plain-OneLine (codes key) (name-plain (codes key) h.0))
          (
            (λ e. omega arith),
            ((λ e. omega arith), ((λ e. omega arith), value-OneLine value k.0)),
          ) in
      ap (λ t. names_of table (split t)) (print_line-append (key, value) ls rest)
      ∙ ap (names_of table) (split-line (line_text (key, value)) (print_lines show ls ++ rest) one)
      ∙ names_of-key table (codes key) _ _ h.0
      ∙ ap (λ ns. (table, codes key) ∷ ns) (names_of-lines table ls rest h.1 k.1)

  names_of-section :
      (table : Text) (s : Section) (rest : Text)
      → is_name (codes s.name) ≡ true
      → All (λ l. is_name (codes (line_key l)) ≡ true) s.lines
      → HasOneLines s
      → names_of table (split (print_section show s ++ rest))
        ≡ section_names s ++ names_of (header s.name) (split rest)
  unfolding print_section names_of
  names_of-section table s rest n h k =
      let one : OneLine (header s.name) = (
        (λ e. omega arith),
        All-append (λ c. c ≢ b'\n') (codes s.name) (b']' ∷ [])
            (plain-OneLine (codes s.name) (name-plain (codes s.name) n)) ((λ e. omega arith), tt),
      ) in
      ap (λ t. names_of table (split t))
        (append_assoc (header s.name) (b'\n' ∷ print_lines show s.lines) rest)
      ∙ ap (names_of table) (split-line (header s.name) (print_lines show s.lines ++ rest) one)
      ∙ ap (λ ns. (header s.name, []) ∷ ns) (names_of-lines (header s.name) s.lines rest h k)

  -- A section that is printed as it is written.
  abbrev pub IsPrintable : Section → Type 0
  IsPrintable s =
      (is_name (codes s.name) ≡ true)
      × All (λ l. is_name (codes (line_key l)) ≡ true) s.lines
      × HasOneLines s

  names_of-rest :
      (table : Text) (ss : List Section)
      → All IsPrintable ss
      → names_of table (split (print_rest show ss)) ≡ all_names ss
  unfolding print_rest split names_of
  names_of-rest table [] h = refl
  names_of-rest table (s ∷ ss) (h, hs) =
      names_of-section table s (print_rest show ss) h.0 h.1 h.2
      ∙ ap (λ ns. section_names s ++ ns) (names_of-rest (header s.name) ss hs)

  pub names_of-sections :
      (ss : List Section)
      → All IsPrintable ss
      → names_of [] (split (print_sections show ss)) ≡ all_names ss
  unfolding print_sections split names_of
  names_of-sections [] h = refl
  names_of-sections (s ∷ ss) (h, hs) =
      names_of-section [] s (print_rest show ss) h.0 h.1 h.2
      ∙ ap (λ ns. section_names s ++ ns) (names_of-rest (header s.name) ss hs)
