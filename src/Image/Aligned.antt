-- ===== src/Image/Aligned.antt =====
-- The version of the proxy follows that of the database.
use hyperbytedb_operator.Prelude.{
  ◌≡◌, refl, sym, ap, ◌∙◌, ℕ, Bool, true, not, ◌&&◌, ◌==◌, arith, [], ◌∷◌, Option, none, some, All,
  All-map,
}
use hyperbytedb_operator.Image.{
  Text, is_space, trim_v, default_hyperbytedb_repo, default_proxy_repo, resolve_hyperbytedb_image,
  resolve_proxy_image, image_tag,
}
use hyperbytedb_operator.Image.Tags.{IsPlain, IsVisible, trim_space-IsVisible}
use hyperbytedb_operator.Image.Laws.{
  IsTagChar, wanted_tag, trim_v-All, image_tag-resolve_component_image,
}
use hyperbytedb_operator.Image.Versions.{
  Source, annotation, spec_version, tag, assumed, Cluster, Semver, DatabaseVersion,
  parse_database_version, or_parsed, first_version, resolve_database_version, or_database,
  resolve_proxy_version, latest_database_version,
}

unfoldable pub plain_char : ℕ → Bool
plain_char c = not (is_space c) && not (c == b':') && not (c == b'@')

unfoldable pub plain_text : Text → Bool
plain_text [] = true
plain_text (c ∷ cs) = plain_char c && plain_text cs

pub plain_text-IsPlain : (t : Text) → plain_text t ≡ true → All IsPlain t
unfolding plain_text plain_char
plain_text-IsPlain [] h = tt
plain_text-IsPlain (c ∷ cs) h = (
  record { visible = ground arith; no_colon = ground arith; no_at = ground arith },
  plain_text-IsPlain cs (ground arith),
)

pub proxy_repo-IsPlain : All IsPlain default_proxy_repo
unfolding plain_text plain_char is_space
proxy_repo-IsPlain = plain_text-IsPlain default_proxy_repo refl

hyperbytedb_repo-IsPlain : All IsPlain default_hyperbytedb_repo
unfolding plain_text plain_char is_space
hyperbytedb_repo-IsPlain = plain_text-IsPlain default_hyperbytedb_repo refl

module _ (v : Semver) where
  parse-wanted_tag :
      (d : ℕ) (ds : Text)
      → All IsTagChar (d ∷ ds)
      → trim_v (trim_v (d ∷ ds)) ≡ trim_v (d ∷ ds)
      → parse_database_version v (wanted_tag (d ∷ ds)) ≡ parse_database_version v (d ∷ ds)
  unfolding parse_database_version
  parse-wanted_tag d ds h e =
      let seen = All-map IsTagChar IsVisible (d ∷ ds) (λ c k. k.plain.visible) h in
      ap v.parse (
        ap trim_v (trim_space-IsVisible (trim_v (d ∷ ds)) (trim_v-All IsVisible (d ∷ ds) seen))
        ∙ e
        ∙ ap trim_v (sym (trim_space-IsVisible (d ∷ ds) seen)))

  or_parsed-nil :
      (source : Source) (later : DatabaseVersion v) (parsed : Option v.Version)
      → or_parsed v source [] later parsed ≡ later
  unfolding or_parsed
  or_parsed-nil source later none = refl
  or_parsed-nil source later (some version) = refl

  abbrev version_of : DatabaseVersion v → Option v.Version
  version_of d = d.version

  -- The candidates behind the annotation, and behind the version.
  abbrev by_tag : Text → Option v.Version → DatabaseVersion v
  by_tag tagged parsed =
      or_parsed v tag tagged
        (record {
          version = parse_database_version v latest_database_version;
          source = assumed;
          raw = latest_database_version;
        })
        parsed

  abbrev by_version : (version tagged : Text) → Option v.Version → DatabaseVersion v
  by_version version tagged parsed =
      or_parsed v spec_version version (by_tag tagged (parse_database_version v tagged)) parsed

  first_version-by_version :
      (version tagged : Text)
      → first_version v [] version tagged
        ≡ by_version version tagged (parse_database_version v version)
  unfolding first_version
  first_version-by_version version tagged = or_parsed-nil annotation _ _

  by_tag-some :
      (c : ℕ) (cs : Text) (parsed : v.Version)
      → version_of (by_tag (c ∷ cs) (some parsed)) ≡ some parsed
  unfolding or_parsed
  by_tag-some c cs parsed = refl

  by_version-some :
      (c : ℕ) (cs tagged : Text) (parsed : v.Version)
      → version_of (by_version (c ∷ cs) tagged (some parsed)) ≡ some parsed
  unfolding or_parsed
  by_version-some c cs tagged parsed = refl

  -- With a tag that says the version, the version is parsed from the spec or from the tag.
  first_version-wanted_tag :
      (version : Text) (parsed : v.Version)
      → All IsTagChar version
      → trim_v (trim_v version) ≡ trim_v version
      → parse_database_version v (wanted_tag version) ≡ some parsed
      → version_of (first_version v [] version (wanted_tag version)) ≡ some parsed
  first_version-wanted_tag [] parsed h e k =
      ap version_of (first_version-by_version [] (wanted_tag []) ∙ or_parsed-nil spec_version _ _)
      ∙ ap (λ o. version_of (by_tag (wanted_tag []) o)) k
      ∙ by_tag-some _ _ parsed
  first_version-wanted_tag (d ∷ ds) parsed h e k =
      ap version_of (first_version-by_version (d ∷ ds) (wanted_tag (d ∷ ds)))
      ∙ ap (λ o. version_of (by_version (d ∷ ds) (wanted_tag (d ∷ ds)) o))
          (sym (parse-wanted_tag d ds h e) ∙ k)
      ∙ by_version-some d ds (wanted_tag (d ∷ ds)) parsed

-- The spec has no proxy, or one whose image is a repository without a colon, or empty: no tag is pinned.
abbrev pub IsUnpinned : Option Text → Type 0
IsUnpinned none = Unit
IsUnpinned (some image) = All IsPlain image

unpinned_tag :
    (image : Option Text) (version : Text)
    → IsUnpinned image
    → All IsTagChar version
    → image_tag (resolve_proxy_image image version) ≡ wanted_tag version
unfolding resolve_proxy_image
unpinned_tag none version h hv =
    image_tag-resolve_component_image [] version default_proxy_repo tt proxy_repo-IsPlain hv
unpinned_tag (some image) version h hv =
    image_tag-resolve_component_image image version default_proxy_repo h proxy_repo-IsPlain hv

module _ (c : Cluster) (hp : IsUnpinned c.proxy_image) (hi : All IsPlain c.image)
    (hv : All IsTagChar c.version) where
  proxy_tag : image_tag (resolve_proxy_image c.proxy_image c.version) ≡ wanted_tag c.version
  proxy_tag = unpinned_tag c.proxy_image c.version hp hv

  database_tag : image_tag (resolve_hyperbytedb_image c.image c.version) ≡ wanted_tag c.version
  unfolding resolve_hyperbytedb_image
  database_tag =
      image_tag-resolve_component_image c.image c.version default_hyperbytedb_repo hi
        hyperbytedb_repo-IsPlain hv

-- Where the spec has no proxy, or one whose image has no tag (it is empty or without space, colon and
-- "@"), the operator takes the proxy for the same version as the database. This is for a cluster
-- without the version annotation, whose own image is such a one too, and whose version has no space,
-- colon, "@" or "/" and at most one leading "v".
pub resolve_proxy_version-aligned :
    (v : Semver) (c : Cluster)
    → c.annotation ≡ []
    → IsUnpinned c.proxy_image
    → All IsPlain c.image
    → All IsTagChar c.version
    → trim_v (trim_v c.version) ≡ trim_v c.version
    → resolve_proxy_version v c ≡ (resolve_database_version v c).version
unfolding resolve_proxy_version resolve_database_version
resolve_proxy_version-aligned v c ha hp hi hv e =
    let wanted = wanted_tag c.version in
    let database : resolve_database_version v c ≡ first_version v [] c.version wanted =
      ap
        (λ a. first_version v a c.version (image_tag (resolve_hyperbytedb_image c.image c.version)))
        ha
      ∙ ap (λ t. first_version v [] c.version t) (database_tag c hp hi hv) in
    ap (λ t. or_database v c (parse_database_version v t)) (proxy_tag c hp hi hv)
    ∙ aligned_by v c wanted (parse_database_version v wanted) refl
        λ parsed k. ap (version_of v) database ∙ first_version-wanted_tag v c.version parsed hv e k
  where
    aligned_by :
        (v : Semver) (c : Cluster) (wanted : Text) (o : Option v.Version)
        → parse_database_version v wanted ≡ o
        → ((parsed : v.Version)
            → parse_database_version v wanted ≡ some parsed
            → (resolve_database_version v c).version ≡ some parsed)
        → or_database v c o ≡ (resolve_database_version v c).version
    aligned_by v c wanted none k found = refl
    aligned_by v c wanted (some parsed) k found = sym (found parsed k)
