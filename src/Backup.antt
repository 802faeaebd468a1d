-- ===== src/Backup.antt =====
-- The backup controller, internal/controller/hyperbytedbbackup_controller.go, over the status of
-- api/v1alpha1/hyperbytedbbackup_types.go.
mod Laws
mod Samples
use hyperbytedb_operator.Prelude.{
  ℕ, ◌*◌, String, Bool, true, false, List, [], ◌∷◌, ◌++◌, Option, none, some, str_eq, ltb,
  if◌then◌else◌, Failure, Result, ok, err, is_not_found, check, Exec, pure, throw, modify, ◌>>=◌,
  ◌>>◌,
}
use hyperbytedb_operator.Kube.{second}

-- "" is `unset`.
pub data Phase : Type 0 where
  unset pending running completed failed : Phase

-- The condition set last, with its status.
pub data Condition : Type 0 where
  ready_cluster_not_found complete_succeeded complete_failed scheduled : Condition

pub record Status : Type 0 where
  pub phase : Phase
  pub start_time : Option ℕ
  pub completion_time : Option ℕ
  pub backup_path : String
  pub conditions : List Condition

-- The Job of the backup, with the counts of its pods.
pub record Job : Type 0 where
  pub succeeded : ℕ
  pub failed : ℕ

pub data Call : Type 0 where
  create_job create_cron_job update_cron_job : Call
  update_status : Status → Call

pub record World : Type 0 where
  pub now : ℕ
  pub schedule : String
  -- the Get of the cluster: its error, if any
  pub get_cluster : Option Failure
  pub get_job : Result Job
  pub get_cron_job : Option Failure
  -- buildBackupS3Path
  pub s3_path : String
  pub answer : Call → Option Failure

-- The status in memory, what the API server has stored of it, and the calls made, in order.
pub record Pass : Type 0 where
  pub status : Status
  pub stored : Status
  pub calls : List Call

abbrev pub Step : Type 0 → Type 0
Step A = Exec Pass A

-- The RequeueAfter of a ctrl.Result; `none` is the empty result.
abbrev pub Requeue : Type 0
Requeue = Option ℕ

abbrev pub is_over : Phase → Bool
is_over completed = true
is_over failed = true
is_over _ = false

module _ (w : World) where
  abbrev pub call : Call → Step (Unit {0})
  call c p = (check (w.answer c), record p { calls = p.calls ++ (c ∷ []) })

  -- A change of the status, and r.Status().Update, whose error is dropped.
  unfoldable pub store : (Status → Status) → Step (Unit {0})
  store f p =
      let s = f p.status in
      (
        ok tt,
        record {
          status = s;
          stored = elim (w.answer (update_status s)) [ none ↦ s | some e ↦ p.stored ];
          calls = p.calls ++ (update_status s ∷ []);
        },
      )

  unfoldable pub start_job : Step Requeue
  unfolding store
  start_job = do
    call create_job
    store (λ s. record s { phase = running; start_time = some w.now })
    pure (some (10 * second))

  -- a job that was found
  unfoldable pub read_job : Job → Step Requeue
  unfolding store
  read_job job =
      if ltb 0 job.succeeded
      then (do
        store (λ s. record s {
          phase = completed;
          completion_time = some w.now;
          backup_path = w.s3_path;
          conditions = s.conditions ++ (complete_succeeded ∷ []);
        })
        pure none)
      else if ltb 0 job.failed
      then (do
        store
            (λ s. record s { phase = failed; conditions = s.conditions ++ (complete_failed ∷ []) })
        pure none)
      else pure (some (10 * second))

  unfoldable pub reconcile_job : Phase → Result Job → Step Requeue
  unfolding start_job read_job
  reconcile_job phase (ok job) = read_job job
  reconcile_job phase (err e) =
      if is_not_found e then (if is_over phase then pure none else start_job) else throw e

  unfoldable pub reconcile_cron_job : Option Failure → Step Requeue
  unfolding store
  reconcile_cron_job none = do call update_cron_job; pure none
  reconcile_cron_job (some e) =
      if is_not_found e
      then (do
        call create_cron_job
        store (λ s. record s { phase = running; conditions = s.conditions ++ (scheduled ∷ []) })
        pure none)
      else throw e

  unfoldable pub with_cluster : Phase → Option Failure → Step Requeue
  unfolding reconcile_job reconcile_cron_job
  with_cluster phase (some e) =
      if is_not_found e
      then (do
        store (λ s. record s {
          phase = failed;
          conditions = s.conditions ++ (ready_cluster_not_found ∷ []);
        })
        pure none)
      else throw e
  with_cluster phase none =
      if str_eq w.schedule ""
      then reconcile_job phase w.get_job
      else reconcile_cron_job w.get_cron_job

  -- Reconcile, of a backup that exists.
  unfoldable pub reconcile : Phase → Step Requeue
  unfolding with_cluster
  reconcile phase = with_cluster phase w.get_cluster
