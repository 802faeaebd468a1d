-- ===== src/Transfer/Samples.antt =====
-- A backup with a retention of two days, under a prefix with three folders, and the jobs of a cluster.
use hyperbytedb_operator.Prelude.{
  ℕ, ◌-◌, ◌*◌, ◌≡◌, refl, String, Bool, true, false, not, str_eq, [], ◌∷◌, none, ltb, arith,
}
use hyperbytedb_operator.Prelude.Int.{ℤ, pos, pos_part}
use hyperbytedb_operator.Image.{codes}
use hyperbytedb_operator.Restore.{S3Source}
use hyperbytedb_operator.Transfer.{s3_prefix, build_backup_s3_path}
use hyperbytedb_operator.Transfer.Scripts.{
  Folder, stamped, named, Prefix, upload, download, restore_dir,
}
use hyperbytedb_operator.Transfer.Jobs.{build_backup_job, build_restore_job}
use hyperbytedb_operator.Transfer.Laws.{written, IsProvided, build_restore_job-written}
use hyperbytedb_operator.Transfer.Round.{restore_dir-upload}

-- The contents of a folder are a text; "" has no manifest. Days are hundreds of the time.
abbrev under : Prefix String
under = record {
  folders = (stamped 500, "old") ∷ (named "notes", "notes") ∷ (stamped 900, "recent") ∷ [];
  root = "";
}

abbrev days_ago : ℤ → ℕ → ℕ
days_ago d t = t - pos_part d * 100

abbrev has_manifest : String → Bool
has_manifest s = not (str_eq s "")

abbrev all_removed : Folder → Bool
all_removed f = true

abbrev by_time : Folder → Folder → Bool
by_time (stamped t) (stamped u) = ltb t u
by_time _ _ = false

-- The old backup goes, the new one comes.
cleaned :
    (upload days_ago all_removed none none (pos 2) 1000 "new" under).1.folders
    ≡ (named "notes", "notes") ∷ (stamped 900, "recent") ∷ (stamped 1000, "new") ∷ []
unfolding upload
cleaned = refl

restore_dir-upload_example :
    restore_dir by_time has_manifest
      (download "" true (upload days_ago all_removed none none (pos 2) 1000 "new" under).1)
    ≡ "new"
restore_dir-upload_example =
    restore_dir-upload days_ago all_removed none (pos 2) 1000 "new" "" under by_time has_manifest
      (λ d. omega arith) (omega arith, (tt, (omega arith, tt))) refl refl

abbrev destination : S3Source
destination = record {
  bucket = "backups";
  prefix = "/metrics/";
  region = "eu-west-1";
  endpoint = "";
  credentials_secret_name = "s3";
}

-- The path in the status has a slash more than the place of the backups.
path_differs :
    (build_backup_s3_path (codes "backups") (codes "/metrics/") ≡ codes "backups//metrics")
    × (s3_prefix (codes "/metrics/") ≡ codes "metrics/")
unfolding build_backup_s3_path s3_prefix
path_differs = (refl, refl)

build_restore_job-written_example :
    let backup = build_backup_job "metrics" "hyperbytedb:0.9.0" destination in
    let restore = build_restore_job "metrics" "hyperbytedb:0.9.0" destination 2 in
    (written backup ≡ [])
    × (written restore ≡ ("metrics", 2) ∷ [])
    × IsProvided backup backup.init_container
    × IsProvided backup backup.container
    × IsProvided restore restore.init_container
    × IsProvided restore restore.container
build_restore_job-written_example =
    build_restore_job-written "metrics" "hyperbytedb:0.9.0" destination 2
