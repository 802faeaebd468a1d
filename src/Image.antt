-- ===== src/Image.antt =====
-- internal/hyperbytedb/image.go, and the version of internal/hyperbytedb/compat.go. A text is the list
-- of its code points.
mod Tags
mod Laws
pub mod Versions
mod Aligned
mod Samples
use Prim.Native.Char.{code}
use hyperbytedb_operator.Prelude.{
  ℕ, zero, suc, String, Bool, true, false, ◌&&◌, ◌||◌, List, [], ◌∷◌, ◌++◌, reverse, Option, none,
  some, leb, ◌==◌, if◌then◌else◌,
}

abbrev pub Text : Type 0
Text = List ℕ

abbrev pub codes : String → Text
codes String.[] = []
codes (String.◌∷◌ c s) = code c ∷ codes s

-- unicode.IsSpace
unfoldable pub is_space : ℕ → Bool
is_space c =
    (leb 9 c && leb c 13)
    || c == 32
    || c == 0x85
    || c == 0xa0
    || c == 0x1680
    || (leb 0x2000 c && leb c 0x200a)
    || c == 0x2028
    || c == 0x2029
    || c == 0x202f
    || c == 0x205f
    || c == 0x3000

unfoldable pub drop_spaces : Text → Text
drop_spaces [] = []
drop_spaces (c ∷ cs) = let rest = drop_spaces cs in if is_space c then rest else c ∷ cs

-- strings.TrimSpace
unfoldable pub trim_space : Text → Text
unfolding drop_spaces
trim_space t = reverse (drop_spaces (reverse (drop_spaces t)))

-- strings.TrimPrefix(v, "v")
unfoldable pub trim_v : Text → Text
trim_v [] = []
trim_v (c ∷ cs) = if c == b'v' then cs else c ∷ cs

abbrev pub is_empty : Text → Bool
is_empty [] = true
is_empty (c ∷ cs) = false

-- strings.Contains of a text of one character
unfoldable pub has : ℕ → Text → Bool
has c [] = false
has c (d ∷ ds) = (d == c) || has c ds

abbrev pub default_image_tag : Text
default_image_tag = codes "latest"

abbrev pub default_hyperbytedb_repo : Text
default_hyperbytedb_repo = codes "hyperbytedb"

abbrev pub default_proxy_repo : Text
default_proxy_repo = codes "ghcr.io/hyperbyte-cloud/hyperbytedb-proxy"

unfoldable pub normalize_version_tag : Text → Text
unfolding trim_space trim_v
normalize_version_tag version =
    let v = trim_space version in if is_empty v then default_image_tag else trim_v v

abbrev pub join_tag : Text → Text → Text
join_tag repo tag = repo ++ (b':' ∷ tag)

-- The tag of the version, where there is one.
unfoldable pub tag_of : Text → Text
unfolding normalize_version_tag
tag_of version = if is_empty version then default_image_tag else normalize_version_tag version

unfoldable pub resolve_component_image : (image version default_repo : Text) → Text
unfolding tag_of trim_space has
resolve_component_image image version default_repo =
    let img = trim_space image in
    if is_empty img
    then join_tag default_repo (tag_of version)
    else if has b':' img
    then img
    else join_tag img (tag_of version)

unfoldable pub resolve_hyperbytedb_image : (image version : Text) → Text
unfolding resolve_component_image
resolve_hyperbytedb_image image version =
    resolve_component_image image version default_hyperbytedb_repo

-- `image` is that of spec.proxy, if there is one.
unfoldable pub resolve_proxy_image : (image : Option Text) (version : Text) → Text
unfolding resolve_component_image
resolve_proxy_image none version = resolve_component_image [] version default_proxy_repo
resolve_proxy_image (some image) version = resolve_component_image image version default_proxy_repo

-- The text before the first "@".
unfoldable pub before_at : Text → Text
before_at [] = []
before_at (c ∷ cs) = let rest = before_at cs in if c == b'@' then [] else c ∷ rest

abbrev pub later_index : Option ℕ → Bool → Option ℕ
later_index (some i) here = some (suc i)
later_index none here = if here then some 0 else none

-- strings.LastIndex of a text of one character; `none` is -1.
unfoldable pub last_index : ℕ → Text → Option ℕ
last_index c [] = none
last_index c (d ∷ ds) = later_index (last_index c ds) (d == c)

abbrev pub drop : ℕ → Text → Text
drop zero cs = cs
drop (suc n) [] = []
drop (suc n) (c ∷ cs) = drop n cs

-- The text behind the colon, if that is behind the slash.
abbrev pub behind : Option ℕ → Option ℕ → Text → Text
behind none slash image = []
behind (some i) none image = drop (suc i) image
behind (some i) (some j) image = if leb i j then [] else drop (suc i) image

unfoldable pub image_tag : Text → Text
unfolding trim_space before_at last_index
image_tag image =
    let name = before_at (trim_space image) in
    behind (last_index b':' name) (last_index b'/' name) name
