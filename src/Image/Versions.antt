-- ===== src/Image/Versions.antt =====
-- internal/hyperbytedb/compat.go: the version that a cluster is rendered for, and what it has. The
-- versions of the semver library, its parser and its comparison are parameters.
use hyperbytedb_operator.Prelude.{
  Bool, true, false, not, List, [], ◌∷◌, Option, none, some, if◌then◌else◌,
}
use hyperbytedb_operator.Image.{
  Text, codes, trim_space, trim_v, is_empty, image_tag, resolve_hyperbytedb_image,
  resolve_proxy_image,
}

pub data Capability : Type 0 where
  split_chdb_pools auto_query_pool sharding control_listener : Capability
  evacuate_together cluster_auth proxy_admin_listener : Capability

-- Capability values compare as the texts that they are.
unfoldable pub since : Capability → Text
since cluster_auth = codes "0.9.1-beta"
since _ = codes "0.9.0-beta"

-- CompatibilityMatrix, in its order
abbrev pub capabilities : List Capability
capabilities =
    split_chdb_pools ∷ auto_query_pool ∷ sharding ∷ control_listener ∷ evacuate_together
    ∷ cluster_auth ∷ proxy_admin_listener ∷ []

abbrev pub latest_database_version : Text
latest_database_version = codes "0.9.3-beta"

abbrev pub oldest_database_version : Text
oldest_database_version = codes "0.8.0"

pub data Source : Type 0 where
  annotation spec_version tag assumed : Source

-- The fields of a cluster that versions are read from; "" where one is not set.
pub record Cluster : Type 0 where
  pub annotation : Text
  pub version : Text
  pub image : Text
  pub proxy_image : Option Text

pub data Reason : Type 0 where
  supported is_assumed older_than_supported newer_than_known : Reason

-- semver: NewVersion and Compare
pub record Semver : Type 1 where
  pub Version : Type 0
  pub parse : Text → Option Version
  pub leb : Version → Version → Bool

module _ (v : Semver) where
  pub record DatabaseVersion : Type 0 where
    pub version : Option v.Version
    pub source : Source
    pub raw : Text

  unfoldable pub parse_database_version : Text → Option v.Version
  parse_database_version raw = v.parse (trim_v (trim_space raw))

  -- One candidate, in front of what the later ones lead to.
  unfoldable pub or_parsed : Source → Text → DatabaseVersion → Option v.Version → DatabaseVersion
  or_parsed source raw later none = later
  or_parsed source raw later (some version) =
      if is_empty raw then later else record { version = some version; source = source; raw = raw }

  -- The loop over the candidates: the annotation, the version of the spec, and the image's tag.
  unfoldable pub first_version : (annotated version tagged : Text) → DatabaseVersion
  unfolding or_parsed parse_database_version
  first_version annotated version tagged =
      or_parsed annotation annotated
        (or_parsed spec_version version
          (or_parsed tag tagged
            (record {
              version = parse_database_version latest_database_version;
              source = assumed;
              raw = latest_database_version;
            })
            (parse_database_version tagged))
          (parse_database_version version))
        (parse_database_version annotated)

  unfoldable pub resolve_database_version : Cluster → DatabaseVersion
  unfolding first_version
  resolve_database_version c =
      first_version c.annotation c.version (image_tag (resolve_hyperbytedb_image c.image c.version))

  unfoldable pub or_database : Cluster → Option v.Version → Option v.Version
  or_database c (some version) = some version
  or_database c none = (resolve_database_version c).version

  unfoldable pub resolve_proxy_version : Cluster → Option v.Version
  unfolding or_database
  resolve_proxy_version c =
      or_database c
        (parse_database_version (image_tag (resolve_proxy_image c.proxy_image c.version)))

  abbrev pub at_least : Option v.Version → Option v.Version → Bool
  at_least (some a) (some b) = v.leb b a
  at_least _ _ = false

  unfoldable pub version_supports : Option v.Version → Capability → Bool
  unfolding parse_database_version
  version_supports version capability = at_least version (parse_database_version (since capability))

  unfoldable pub missing : Option v.Version → List Capability → List Capability
  unfolding version_supports
  missing version [] = []
  missing version (k ∷ ks) =
      let rest = missing version ks in if version_supports version k then rest else k ∷ rest

  abbrev pub is_assumed_source : Source → Bool
  is_assumed_source assumed = true
  is_assumed_source _ = false

  -- CompatibilitySummary: the reason, and what is not rendered for the version.
  unfoldable pub compatibility_summary : Cluster → Reason × List Capability
  unfolding resolve_database_version missing
  compatibility_summary c =
      let d = resolve_database_version c in
      (
        if is_assumed_source d.source
            then is_assumed
            else if not (at_least d.version (v.parse oldest_database_version))
            then older_than_supported
            else if not (at_least (v.parse latest_database_version) d.version)
            then newer_than_known
            else supported,
        missing d.version capabilities,
      )
