-- ===== src/Image/Samples.antt =====
-- Images and versions of concrete clusters.
use hyperbytedb_operator.Prelude.{
  ◌≡◌, refl, Bool, true, ◌&&◌, ◌==◌, not, [], ◌∷◌, Option, none, some, leb, All, if◌then◌else◌,
  arith,
}
use hyperbytedb_operator.Image.{
  Text, codes, is_space, trim_v, default_hyperbytedb_repo, default_proxy_repo,
  resolve_component_image, image_tag, resolve_hyperbytedb_image,
}
use hyperbytedb_operator.Image.Tags.{IsPlain}
use hyperbytedb_operator.Image.Laws.{IsTagChar, wanted_tag, image_tag-resolve_component_image}
use hyperbytedb_operator.Image.Versions.{
  Cluster, Semver, resolve_database_version, resolve_proxy_version,
}
use hyperbytedb_operator.Image.Aligned.{
  plain_char, plain_text, plain_text-IsPlain, proxy_repo-IsPlain, resolve_proxy_version-aligned,
}

abbrev version : Text
version = codes "v0.9.1"

abbrev tag_text : Text → Bool
tag_text [] = true
tag_text (c ∷ cs) = (plain_char c && not (c == b'/')) && tag_text cs

tag_text-IsTag : (t : Text) → tag_text t ≡ true → All IsTagChar t
unfolding plain_char
tag_text-IsTag [] h = tt
tag_text-IsTag (c ∷ cs) h = (
  record {
    plain = record { visible = ground arith; no_colon = ground arith; no_at = ground arith };
    no_slash = ground arith;
  },
  tag_text-IsTag cs (ground arith),
)

repo-IsPlain : All IsPlain default_hyperbytedb_repo
unfolding plain_text plain_char is_space
repo-IsPlain = plain_text-IsPlain default_hyperbytedb_repo refl

version-IsTag : All IsTagChar version
unfolding plain_char is_space
version-IsTag = tag_text-IsTag version refl

resolves : resolve_hyperbytedb_image [] version ≡ codes "hyperbytedb:0.9.1"
unfolding resolve_hyperbytedb_image resolve_component_image is_space
resolves = refl

image_tag-resolve_component_image_example :
    image_tag (resolve_component_image default_hyperbytedb_repo version default_hyperbytedb_repo)
    ≡ wanted_tag version
image_tag-resolve_component_image_example =
    image_tag-resolve_component_image default_hyperbytedb_repo version default_hyperbytedb_repo
      repo-IsPlain repo-IsPlain version-IsTag

-- A text that begins with a digit is a version, and versions are not ordered.
abbrev starts_with_digit : Text → Option Text
starts_with_digit [] = none
starts_with_digit (c ∷ cs) = if leb b'0' c && leb c b'9' then some (c ∷ cs) else none

abbrev semver : Semver
semver = record { Version = Text; parse = starts_with_digit; leb = λ a b. true }

abbrev cluster : Cluster
cluster = record {
  annotation = [];
  version = version;
  image = [];
  proxy_image = some default_proxy_repo;
}

resolve_proxy_version-aligned_example :
    resolve_proxy_version semver cluster ≡ (resolve_database_version semver cluster).version
unfolding trim_v
resolve_proxy_version-aligned_example =
    resolve_proxy_version-aligned semver cluster refl proxy_repo-IsPlain tt version-IsTag refl
