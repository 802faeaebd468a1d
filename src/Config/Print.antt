-- ===== src/Config/Print.antt =====
-- How internal/hyperbytedb/configmap.go prints the sections of config.toml: a text is the list of its code
-- points, and fmt's `%d` is a parameter.
use hyperbytedb_operator.Prelude.{String, List, [], ◌∷◌, ◌++◌, true, false}
use hyperbytedb_operator.Prelude.Int.{ℤ}
use hyperbytedb_operator.Image.{Text, codes}
use hyperbytedb_operator.Config.{Value, num, text, flag, Section, Lines}
use hyperbytedb_operator.Config.Spec.{ConfigSpec}
use hyperbytedb_operator.Config.Render.{render_config}

abbrev pub header : String → Text
header name = b'[' ∷ (codes name ++ (b']' ∷ []))

module _ (show : ℤ → Text) where
  -- "%d", "\"%s\"" and "%t"
  unfoldable pub print_value : Value → Text
  print_value (num n) = show n
  print_value (text t) = b'"' ∷ (codes t ++ (b'"' ∷ []))
  print_value (flag true) = codes "true"
  print_value (flag false) = codes "false"

  unfoldable pub print_lines : Lines → Text
  unfolding print_value
  print_lines [] = []
  print_lines ((key, value) ∷ ls) =
      codes key ++ (codes " = " ++ (print_value value ++ (b'\n' ∷ print_lines ls)))

  unfoldable pub print_section : Section → Text
  unfolding print_lines
  print_section s = header s.name ++ (b'\n' ∷ print_lines s.lines)

  -- The sections behind the first have an empty line before them.
  unfoldable pub print_rest : List Section → Text
  unfolding print_section
  print_rest [] = []
  print_rest (s ∷ ss) = b'\n' ∷ (print_section s ++ print_rest ss)

  unfoldable pub print_sections : List Section → Text
  unfolding print_section print_rest
  print_sections [] = []
  print_sections (s ∷ ss) = print_section s ++ print_rest ss

  -- renderConfigTOML
  unfoldable pub print_config : ConfigSpec → Text
  unfolding print_sections render_config
  print_config s = print_sections (render_config s)
