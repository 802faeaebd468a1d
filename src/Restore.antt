-- ===== src/Restore.antt =====
-- The restore controller, internal/controller/hyperbytedbrestore_controller.go, over the status of
-- api/v1alpha1/hyperbytedbrestore_types.go. A restore job is named by its ordinal.
mod Jobs
mod Laws
mod Completes
mod Samples
use hyperbytedb_operator.Prelude.{
  ℕ, zero, suc, ◌+◌, ◌*◌, String, Bool, true, false, not, ◌&&◌, ◌||◌, List, [], ◌∷◌, ◌++◌, Option,
  none, some, ltb, ◌==◌, if◌then◌else◌, Failure, Result, ok, err, is_not_found, is_already_exists,
  check, Exec, pure, throw, lift, modify, ◌>>=◌, ◌>>◌,
}
use hyperbytedb_operator.Kube.{second}
use hyperbytedb_operator.Ordinals.{ordinals}

-- "" is `unset`.
pub data Phase : Type 0 where
  unset pending scale_down restoring completed failed : Phase

pub data Reason : Type 0 where
  cluster_not_found source_resolution_failed scaling_down restore_jobs_created : Reason
  restore_failed restore_complete : Reason

pub record Status : Type 0 where
  pub phase : Phase
  -- the conditions set, the newest last; each has the name of its phase and is True
  pub conditions : List (Phase × Reason)
  pub start_time : Option ℕ
  pub completion_time : Option ℕ
  pub restored_pvcs : ℕ

pub record S3Source : Type 0 where
  pub bucket : String
  pub prefix : String
  pub region : String
  pub endpoint : String
  pub credentials_secret_name : String

pub record Job : Type 0 where
  pub succeeded : ℕ
  pub failed : ℕ

pub data Call : Type 0 where
  -- r.Update of the StatefulSet, with .spec.replicas
  update_sts : (replicas : ℕ) → Call
  create_job : (ordinal : ℕ) → S3Source → Call
  update_status : Status → Call

pub record World : Type 0 where
  pub now : ℕ
  -- spec.source
  pub source : Option S3Source
  -- the .spec.replicas of the cluster
  pub get_cluster : Result (Option ℕ)
  -- the S3 destination of the backup
  pub get_backup : Result S3Source
  -- the .status.readyReplicas of the StatefulSet
  pub get_sts : Result ℕ
  pub get_job : ℕ → Result Job
  pub answer : Call → Option Failure

-- The restore in memory, what the API server has stored of its status, and the calls made, in order.
pub record Pass : Type 0 where
  pub status : Status
  pub stored : Status
  pub calls : List Call

abbrev pub Step : Type 0 → Type 0
Step A = Exec Pass A

-- The RequeueAfter of a ctrl.Result; `none` is the empty result.
abbrev pub Requeue : Type 0
Requeue = Option ℕ

abbrev pub replicas_of : Option ℕ → ℕ
replicas_of none = 1
replicas_of (some n) = n

module _ (w : World) where
  abbrev pub call : Call → Step (Unit {0})
  call c p = (check (w.answer c), record p { calls = p.calls ++ (c ∷ []) })

  -- r.Status().Update, whose error is dropped.
  unfoldable pub store_status : Step (Unit {0})
  store_status p = (
    ok tt,
    record p {
      stored = elim (w.answer (update_status p.status)) [ none ↦ p.status | some e ↦ p.stored ];
      calls = p.calls ++ (update_status p.status ∷ []);
    },
  )

  unfoldable pub set_restore_phase : Phase → Reason → Step (Unit {0})
  unfolding store_status
  set_restore_phase phase reason = do
    modify (λ p. record p {
      status = record (p.status) {
        phase = phase;
        conditions = p.status.conditions ++ ((phase, reason) ∷ []);
      };
    })
    store_status

  resolve_from : Option S3Source → Result S3Source
  resolve_from (some s) = ok s
  resolve_from none = w.get_backup

  -- resolveS3Source
  unfoldable pub resolve_s3_source : Result S3Source
  unfolding resolve_from
  resolve_s3_source = resolve_from w.source

  unfoldable pub handle_scale_down : Step Requeue
  handle_scale_down = do
    _ ← lift w.get_sts
    call (update_sts 0)
    modify (λ p. record p { status = record (p.status) { start_time = some w.now } })
    set_restore_phase scale_down scaling_down
    pure (some (5 * second))

  -- A create, whose answer "already exists" counts as done.
  abbrev create_restore_job : S3Source → ℕ → Step (Unit {0})
  create_restore_job source i p = (
    elim (w.answer (create_job i source)) [
      | none ↦ ok tt
      | some e ↦ if is_already_exists e then ok tt else err e
    ],
    record p { calls = p.calls ++ (create_job i source ∷ []) },
  )

  unfoldable pub create_restore_jobs : S3Source → List ℕ → Step (Unit {0})
  create_restore_jobs source [] = pure tt
  create_restore_jobs source (i ∷ is) = create_restore_job source i >> create_restore_jobs source is

  -- The part of checkScaleDown behind the test for ready replicas.
  unfoldable pub start_jobs : ℕ → S3Source → Step Requeue
  unfolding create_restore_jobs
  start_jobs replicas source = do
    create_restore_jobs source (ordinals replicas)
    modify (λ p. record p { status = record (p.status) { restored_pvcs = replicas } })
    set_restore_phase restoring restore_jobs_created
    pure (some (10 * second))

  unfoldable pub check_scale_down : ℕ → S3Source → Step Requeue
  check_scale_down replicas source = do
    ready ← lift w.get_sts
    if ltb 0 ready then pure (some (5 * second)) else start_jobs replicas source

  unfoldable pub handle_scale_up : ℕ → Step Requeue
  handle_scale_up replicas = do
    _ ← lift w.get_sts
    call (update_sts replicas)
    modify (λ p. record p { status = record (p.status) { completion_time = some w.now } })
    set_restore_phase completed restore_complete
    pure none

pub record Progress : Type 0 where
  pub all_done : Bool
  pub any_failed : Bool

abbrev pub count_job : Result Job → Result Progress → Result Progress
count_job r (err e) = err e
count_job (ok j) (ok t) = ok (record {
  all_done = t.all_done && not (j.succeeded == 0 && j.failed == 0);
  any_failed = t.any_failed || ltb 0 j.failed;
})
count_job (err e) (ok t) = if is_not_found e then ok (record t { all_done = false }) else err e

module _ (w : World) where
  -- The loop of checkRestoreJob over the ordinals below `n`. It ends at the first error.
  unfoldable pub job_progress : ℕ → Result Progress
  job_progress zero = ok (record { all_done = true; any_failed = false })
  job_progress (suc i) = count_job (w.get_job i) (job_progress i)

  unfoldable pub after_jobs : ℕ → Progress → Step Requeue
  after_jobs replicas t =
      if t.any_failed
      then (do set_restore_phase w failed restore_failed; pure none)
      else if t.all_done
      then handle_scale_up w replicas
      else pure (some (10 * second))

  unfoldable pub check_restore_job : ℕ → Step Requeue
  unfolding after_jobs job_progress
  check_restore_job replicas = do t ← lift (job_progress replicas); after_jobs replicas t

  -- The `switch restore.Status.Phase`, and the early return of a restore that is over.
  unfoldable pub by_phase : Phase → ℕ → S3Source → Step Requeue
  by_phase unset replicas source = handle_scale_down w
  by_phase pending replicas source = handle_scale_down w
  by_phase scale_down replicas source = check_scale_down w replicas source
  by_phase restoring replicas source = check_restore_job replicas
  by_phase _ replicas source = pure none

  unfoldable pub with_cluster : Phase → Result (Option ℕ) → Result S3Source → Step Requeue
  unfolding by_phase
  with_cluster phase (err e) source = do set_restore_phase w failed cluster_not_found; pure none
  with_cluster phase (ok replicas) (err e) = do
    set_restore_phase w failed source_resolution_failed
    pure none
  with_cluster phase (ok replicas) (ok source) = by_phase phase (replicas_of replicas) source

  -- Reconcile, of a restore that exists.
  unfoldable pub reconcile : Phase → Step Requeue
  unfolding with_cluster
  reconcile completed = pure none
  reconcile failed = pure none
  reconcile phase = with_cluster phase w.get_cluster (resolve_s3_source w)
