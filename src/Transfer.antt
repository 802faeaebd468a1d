-- ===== src/Transfer.antt =====
-- Backups in S3: where they are, of internal/controller/s3_transfer.go, and buildBackupS3Path of
-- internal/controller/hyperbytedbbackup_controller.go.
pub mod Scripts
pub mod Jobs
mod Laws
mod Round
mod Samples
use Prim.Native.String.{◌++◌ as text_append}
use hyperbytedb_operator.Prelude.{
  ℕ, String, Bool, true, false, not, ◌&&◌, List, [], ◌∷◌, ◌++◌, reverse, str_eq, ◌==◌,
  if◌then◌else◌,
}
use hyperbytedb_operator.Image.{Text, codes, is_empty}
use hyperbytedb_operator.Restore.{S3Source}
use hyperbytedb_operator.Workload.{Env, text, secret_key}

unfoldable pub s3_region : S3Source → String
s3_region s3 = if str_eq s3.region "" then "us-east-1" else s3.region

unfoldable pub s3_endpoint : S3Source → String
s3_endpoint s3 =
    if not (str_eq s3.endpoint "")
    then s3.endpoint
    else if not (str_eq s3.region "") && not (str_eq s3.region "us-east-1")
    then text_append "https://s3." (text_append s3.region ".amazonaws.com")
    else "https://s3.amazonaws.com"

-- The rest behind the slashes at the front.
unfoldable pub drop_slashes : Text → Text
drop_slashes [] = []
drop_slashes (c ∷ cs) = let rest = drop_slashes cs in if c == b'/' then rest else c ∷ cs

-- strings.Trim of slashes
unfoldable pub trim_slashes : Text → Text
unfolding drop_slashes
trim_slashes t = reverse (drop_slashes (reverse (drop_slashes t)))

unfoldable pub s3_prefix : Text → Text
unfolding trim_slashes
s3_prefix prefix = if is_empty (trim_slashes prefix) then [] else trim_slashes prefix ++ b'/' ∷ []

-- strings.TrimSuffix of one slash
unfoldable pub trim_suffix : Text → Text
trim_suffix [] = []
trim_suffix (c ∷ cs) =
    let rest = trim_suffix cs in if is_empty cs && c == b'/' then [] else c ∷ rest

unfoldable pub build_backup_s3_path : Text → Text → Text
unfolding trim_suffix
build_backup_s3_path bucket prefix =
    if is_empty prefix then bucket else bucket ++ b'/' ∷ trim_suffix prefix

-- The environment of the S3 client, but for S3_PREFIX, which is `s3_prefix`.
unfoldable pub s3_env : S3Source → Env
unfolding s3_endpoint s3_region
s3_env s3 =
    ("S3_ENDPOINT", text (s3_endpoint s3))
    ∷ ("S3_BUCKET", text s3.bucket)
    ∷ ("AWS_DEFAULT_REGION", text (s3_region s3))
    ∷ ("AWS_CONFIG_FILE", text "/tmp/aws-config")
    ∷ ((if not (str_eq s3.endpoint "") then ("S3_PATH_STYLE", text "1") ∷ [] else [])
        ++ (if not (str_eq s3.credentials_secret_name "")
            then ("AWS_ACCESS_KEY_ID", secret_key s3.credentials_secret_name "access_key_id")
              ∷ ("AWS_SECRET_ACCESS_KEY", secret_key s3.credentials_secret_name "secret_access_key")
              ∷ []
            else []))
