-- ===== src/Transfer/Laws.antt =====
-- What the pods of the backup and restore jobs can read and write, and where the backups are.
use hyperbytedb_operator.Prelude.{
  ℕ, ◌≡◌, refl, String, Bool, true, false, ◌||◌, List, [], ◌∷◌, ◌++◌, str_eq, All, if◌then◌else◌,
}
use hyperbytedb_operator.Restore.{S3Source}
use hyperbytedb_operator.Workload.{VolumeMount}
use hyperbytedb_operator.Transfer.Jobs.{
  JobVolume, empty_dir, claim_of, JobContainer, Job, build_backup_job, build_restore_job,
}

-- The claim that a mount writes to, if its volume is one and neither forbids it.
abbrev pub Writes : Type 0
Writes = List (String × ℕ)

abbrev writes_through : String → List JobVolume → Writes
writes_through name [] = []
writes_through name (empty_dir n ∷ vs) = writes_through name vs
writes_through name (claim_of n cluster ordinal true ∷ vs) = writes_through name vs
writes_through name (claim_of n cluster ordinal false ∷ vs) =
    let rest = writes_through name vs in if str_eq n name then (cluster, ordinal) ∷ rest else rest

abbrev writes_of : List VolumeMount → List JobVolume → Writes
writes_of [] vs = []
writes_of (m ∷ ms) vs =
    let rest = writes_of ms vs in if m.read_only then rest else writes_through m.name vs ++ rest

-- The data volumes, by cluster and ordinal, that a job can write.
abbrev pub written : Job → Writes
written j =
    writes_of j.init_container.volume_mounts j.volumes
    ++ writes_of j.container.volume_mounts j.volumes

abbrev names : JobVolume → String
names (empty_dir n) = n
names (claim_of n cluster ordinal read_only) = n

abbrev is_provided : List JobVolume → VolumeMount → Bool
is_provided [] m = false
is_provided (v ∷ vs) m = str_eq (names v) m.name || is_provided vs m

abbrev pub IsProvided : Job → JobContainer → Type 0
IsProvided j c = All (λ m. is_provided j.volumes m ≡ true) c.volume_mounts

-- A backup writes to no volume of the database, and the restore of an ordinal only to the volume of that
-- ordinal; and every mount of their containers has its volume.
pub build_restore_job-written :
    (cluster image : String) (s3 : S3Source) (ordinal : ℕ)
    → let backup = build_backup_job cluster image s3 in
      let restore = build_restore_job cluster image s3 ordinal in
      (written backup ≡ [])
      × (written restore ≡ (cluster, ordinal) ∷ [])
      × IsProvided backup backup.init_container
      × IsProvided backup backup.container
      × IsProvided restore restore.init_container
      × IsProvided restore restore.container
unfolding build_backup_job build_restore_job
build_restore_job-written cluster image s3 ordinal =
    (refl, refl, (refl, (refl, tt)), (refl, tt), (refl, tt), (refl, (refl, tt)))
