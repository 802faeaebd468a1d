-- ===== src/Transfer/Jobs.antt =====
-- The pods of the backup and restore jobs: buildBackupJob of
-- internal/controller/hyperbytedbbackup_controller.go, buildRestoreJob of
-- internal/controller/hyperbytedbrestore_controller.go, and the volumes and mounts of
-- internal/controller/s3_transfer.go. What the containers run is in Scripts.
use hyperbytedb_operator.Prelude.{ℕ, String, Bool, true, false, List, [], ◌∷◌}
use hyperbytedb_operator.Restore.{S3Source}
use hyperbytedb_operator.Workload.{VolumeMount, Env}
use hyperbytedb_operator.Workload.Database.{mount}
use hyperbytedb_operator.Transfer.{s3_env}

-- An empty directory, or the claim "data-<cluster>-<ordinal>".
pub data JobVolume : Type 0 where
  empty_dir : (name : String) → JobVolume
  claim_of : (name cluster : String) → (ordinal : ℕ) → (read_only : Bool) → JobVolume

pub record JobContainer : Type 0 where
  pub name : String
  pub image : String
  pub env : Env
  pub volume_mounts : List VolumeMount

pub record Job : Type 0 where
  pub backoff_limit : ℕ
  pub init_container : JobContainer
  pub container : JobContainer
  pub volumes : List JobVolume

abbrev pub s3_client_image : String
s3_client_image = "amazon/aws-cli:2.38.5"

unfoldable pub snapshot_volume : JobVolume
snapshot_volume = empty_dir "snapshot"

unfoldable pub data_volume : String → ℕ → Bool → JobVolume
data_volume cluster ordinal read_only = claim_of "data" cluster ordinal read_only

unfoldable pub snapshot_backup_init_container : String → JobContainer
snapshot_backup_init_container image = record {
  name = "snapshot";
  image = image;
  env = [];
  volume_mounts =
      mount "data" "/var/lib/hyperbytedb" true ∷ mount "snapshot" "/snapshot" false ∷ [];
}

unfoldable pub s3_upload_container : S3Source → JobContainer
unfolding s3_env
s3_upload_container s3 = record {
  name = "upload";
  image = s3_client_image;
  env = s3_env s3;
  volume_mounts = mount "snapshot" "/snapshot" true ∷ [];
}

unfoldable pub s3_download_init_container : S3Source → JobContainer
unfolding s3_env
s3_download_init_container s3 = record {
  name = "download";
  image = s3_client_image;
  env = s3_env s3;
  volume_mounts = mount "snapshot" "/snapshot" false ∷ [];
}

unfoldable pub restore_data_container : String → JobContainer
restore_data_container image = record {
  name = "restore";
  image = image;
  env = [];
  volume_mounts =
      mount "data" "/var/lib/hyperbytedb" false ∷ mount "snapshot" "/snapshot" true ∷ [];
}

-- `image` is what ResolveHyperbytedbImage returns.
unfoldable pub build_backup_job : (cluster image : String) → S3Source → Job
unfolding snapshot_backup_init_container s3_upload_container data_volume snapshot_volume
build_backup_job cluster image s3 = record {
  backoff_limit = 3;
  init_container = snapshot_backup_init_container image;
  container = s3_upload_container s3;
  volumes = data_volume cluster 0 true ∷ snapshot_volume ∷ [];
}

unfoldable pub build_restore_job : (cluster image : String) → S3Source → ℕ → Job
unfolding s3_download_init_container restore_data_container data_volume snapshot_volume
build_restore_job cluster image s3 ordinal = record {
  backoff_limit = 2;
  init_container = s3_download_init_container s3;
  container = restore_data_container image;
  volumes = data_volume cluster ordinal false ∷ snapshot_volume ∷ [];
}
