-- ===== src/Backup/Samples.antt =====
-- A backup whose job has succeeded.
use hyperbytedb_operator.Prelude.{◌≡◌, refl, All, none, some, ok, []}
use hyperbytedb_operator.Backup.{Status, World, running, completed, reconcile}
use hyperbytedb_operator.Backup.Laws.{IsDue, begin, reconcile-IsDue}

abbrev world : World
world = record {
  now = 9;
  schedule = "";
  get_cluster = none;
  get_job = ok (record { succeeded = 1; failed = 0 });
  get_cron_job = none;
  s3_path = "bucket/prefix";
  answer = λ c. none;
}

abbrev status : Status
status = record {
  phase = running;
  start_time = some 3;
  completion_time = none;
  backup_path = "";
  conditions = [];
}

completes : (reconcile world running (begin status)).1.stored.phase ≡ completed
unfolding reconcile
completes = refl

reconcile-IsDue_example : All (IsDue world running) (reconcile world running (begin status)).1.calls
reconcile-IsDue_example = reconcile-IsDue world status
