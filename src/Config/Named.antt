-- ===== src/Config/Named.antt =====
-- That config.toml as it is printed names no table and no key of a table twice: renderConfigTOML of
-- internal/hyperbytedb/configmap.go.
use mathlib.Core.Path.{subst}
use hyperbytedb_operator.Prelude.{
  ◌≡◌, ◌≢◌, refl, sym, ap, ◌∙◌, true, String, List, [], ◌∷◌, ◌++◌, All, All-append, All-map,
}
use hyperbytedb_operator.Prelude.Int.{ℤ}
use hyperbytedb_operator.Image.{Text, codes}
use hyperbytedb_operator.Config.{Section, Lines}
use hyperbytedb_operator.Config.Spec.{ConfigSpec}
use hyperbytedb_operator.Config.Render.{render_config, cluster_metadata_enabled}
use hyperbytedb_operator.Config.Print.{header, print_config}
use hyperbytedb_operator.Config.Distinct.{is_name, line_key, IsDistinct, section_key}
use hyperbytedb_operator.Config.Keys.{HasDistinctKeys}
use hyperbytedb_operator.Config.Laws.{render_with_cluster_enabled-IsNamed}
use hyperbytedb_operator.Config.Printed.{
  Name, split, names_of, OneLine, entries, section_names, all_names, HasOneLines, IsPrintable,
  header-injective, codes-injective, names_of-sections,
}

-- No two are equal.
abbrev pub Unrepeated : {A : Type 0} → List A → Type 0
Unrepeated [] = Unit
Unrepeated (x ∷ xs) = All (λ y. y ≢ x) xs × Unrepeated xs

Unrepeated-append :
    {A : Type 0} (xs ys : List A)
    → Unrepeated xs
    → Unrepeated ys
    → All (λ x. All (λ y. y ≢ x) ys) xs
    → Unrepeated (xs ++ ys)
Unrepeated-append [] ys hx hy h = hy
Unrepeated-append {A} (x ∷ xs) ys hx hy h =
    (All-append (λ (y : A). y ≢ x) xs ys hx.0 h.0, Unrepeated-append xs ys hx.1 hy h.1)

abbrev table : Name → Text
table n = n.0

abbrev key : Name → Text
key n = n.1

module _ (h : Text) where
  entries-key :
      (k : String) (ls : Lines)
      → All (λ l. line_key l ≢ k) ls
      → All (λ e. e ≢ (h, codes k)) (entries h ls)
  entries-key k [] d = tt
  entries-key k (l ∷ ls) d = ((λ e. d.0 (codes-injective l.0 k (ap key e))), entries-key k ls d.1)

  entries-Unrepeated : (ls : Lines) → IsDistinct line_key ls → Unrepeated (entries h ls)
  entries-Unrepeated [] d = tt
  entries-Unrepeated (l ∷ ls) d = (entries-key l.0 ls d.0, entries-Unrepeated ls d.1)

  is_name-ne-nil : (t : Text) → is_name t ≡ true → t ≢ []
  is_name-ne-nil [] n = cc
  is_name-ne-nil (c ∷ cs) n = λ e. cc

  entries-ne-table :
      (ls : Lines)
      → All (λ l. is_name (codes (line_key l)) ≡ true) ls
      → All (λ e. e ≢ (h, [])) (entries h ls)
  entries-ne-table [] n = tt
  entries-ne-table (l ∷ ls) n =
      ((λ e. is_name-ne-nil (codes l.0) n.0 (ap key e)), entries-ne-table ls n.1)

  entries-table : (ls : Lines) → All (λ e. table e ≡ h) (entries h ls)
  entries-table [] = tt
  entries-table (l ∷ ls) = (refl, entries-table ls)

  entries-other : (g : Text) (ls : Lines) → g ≢ h → All (λ e. table e ≢ h) (entries g ls)
  entries-other g [] n = tt
  entries-other g (l ∷ ls) n = (n, entries-other g ls n)

all_names-other :
    (n : String) (ss : List Section)
    → All (λ s. section_key s ≢ n) ss
    → All (λ e. table e ≢ header n) (all_names ss)
all_names-other n [] d = tt
all_names-other n (s ∷ ss) d =
    let other : header s.name ≢ header n = λ e. d.0 (header-injective s.name n e) in
    All-append (λ e. table e ≢ header n) (section_names s) (all_names ss)
      (other, entries-other (header n) (header s.name) s.lines other) (all_names-other n ss d.1)

section_names-Unrepeated : (s : Section) → HasDistinctKeys s → Unrepeated (section_names s)
section_names-Unrepeated s d =
    (entries-ne-table (header s.name) s.lines d.1, entries-Unrepeated (header s.name) s.lines d.0)

all_names-Unrepeated :
    (ss : List Section)
    → IsDistinct section_key ss
    → All HasDistinctKeys ss
    → Unrepeated (all_names ss)
all_names-Unrepeated [] d k = tt
all_names-Unrepeated (s ∷ ss) d k =
    let others = all_names-other s.name ss d.0 in
    Unrepeated-append (section_names s) (all_names ss) (section_names-Unrepeated s k.0)
      (all_names-Unrepeated ss d.1 k.1)
      (All-map (λ e. table e ≡ header s.name) (λ x. All (λ y. y ≢ x) (all_names ss))
        (section_names s)
        (λ x same.
          All-map (λ e. table e ≢ header s.name) (λ y. y ≢ x) (all_names ss)
            (λ y other e. other (ap table e ∙ same)) others)
        (refl, entries-table (header s.name) s.lines))

printable :
    (show : ℤ → Text) (decimal : (n : ℤ) → OneLine (show n)) (ss : List Section)
    → All (λ s. is_name (codes (section_key s)) ≡ true) ss
    → All HasDistinctKeys ss
    → All HasOneLines ss
    → All (IsPrintable show decimal) ss
printable show decimal [] n k o = tt
printable show decimal (s ∷ ss) n k o = ((n.0, k.0.1, o.0), printable show decimal ss n.1 k.1 o.1)

-- While fmt prints a number without a newline, and no text that is printed has one: the file, read line by
-- line, has no table twice, and no key twice in one table. A line that begins with "[" is taken to name a
-- table, and any other that is not empty to name the key before its first space, in the table before it.
pub print_config-Unrepeated :
    (show : ℤ → Text) (s : ConfigSpec)
    → ((n : ℤ) → OneLine (show n))
    → All HasOneLines (render_config s)
    → Unrepeated (names_of [] (split (print_config show s)))
unfolding print_config render_config
print_config-Unrepeated show s decimal one =
    let sections = render_config s in
    let named = render_with_cluster_enabled-IsNamed s (cluster_metadata_enabled s) in
    subst Unrepeated
      (sym (
        names_of-sections show decimal sections
          (printable show decimal sections named.0.1 named.1 one)))
      (all_names-Unrepeated sections named.0.0 named.1)
