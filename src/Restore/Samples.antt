-- ===== src/Restore/Samples.antt =====
-- A restore whose two jobs have succeeded.
use hyperbytedb_operator.Prelude.{ℕ, ◌<◌, ◌≡◌, refl, inl, arith, All, none, some, ok, [], ◌∷◌}
use hyperbytedb_operator.Restore.{
  S3Source, Status, World, unset, restoring, restore_jobs_created, completed, reconcile,
  resolve_s3_source, check_restore_job, handle_scale_up, set_restore_phase,
}
use hyperbytedb_operator.Restore.Completes.{IsCooperative, after_reconcile, reconcile-completes}
use hyperbytedb_operator.Restore.Laws.{IsJustified, begin, reconcile-Justified}
use hyperbytedb_operator.Restore.Jobs.{IsRestored}

abbrev source : S3Source
source = record {
  bucket = "b";
  prefix = "p";
  region = "";
  endpoint = "";
  credentials_secret_name = "s";
}

abbrev world : World
world = record {
  now = 9;
  source = some source;
  get_cluster = ok (some 2);
  get_backup = ok source;
  get_sts = ok 0;
  get_job = λ i. ok (record { succeeded = 1; failed = 0 });
  answer = λ c. none;
}

abbrev status : Status
status = record {
  phase = restoring;
  conditions = (restoring, restore_jobs_created) ∷ [];
  start_time = some 3;
  completion_time = none;
  restored_pvcs = 2;
}

completes : (reconcile world restoring (begin status)).1.stored.phase ≡ completed
unfolding reconcile resolve_s3_source check_restore_job handle_scale_up set_restore_phase
completes = refl

reconcile-Justified_example :
    All (IsJustified world restoring) (reconcile world restoring (begin status)).1.calls
reconcile-Justified_example = reconcile-Justified world status

abbrev fresh : Status
fresh = record {
  phase = unset;
  conditions = [];
  start_time = none;
  completion_time = none;
  restored_pvcs = 0;
}

source_found : resolve_s3_source world ≡ ok source
unfolding resolve_s3_source
source_found = refl

abbrev cooperative : IsCooperative world
cooperative = record {
  replicas = some 2;
  source = source;
  answers = λ c. refl;
  cluster = refl;
  resolved = source_found;
  ready = 0;
  found = refl;
}

restored : (i : ℕ) → i < 2 → IsRestored world i
restored i l = (record { succeeded = 1; failed = 0 }, refl, omega arith, refl)

reconcile-completes_example :
    (after_reconcile world (after_reconcile world (after_reconcile world fresh))).phase ≡ completed
reconcile-completes_example =
    reconcile-completes world world world fresh cooperative cooperative refl cooperative restored
      (inl refl)
