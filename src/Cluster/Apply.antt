-- ===== src/Cluster/Apply.antt =====
-- reconcileStatefulSet of internal/controller/hyperbytedbcluster_controller.go.
use hyperbytedb_operator.Prelude.{
  ℕ, Bool, true, false, not, List, [], ◌∷◌, ◌++◌, Option, none, some, str_eq, if◌then◌else◌, Result,
  ok, err, is_not_found, Exec, throw,
}
use hyperbytedb_operator.Rolling.State.{RollingRestartState}
use hyperbytedb_operator.Rolling.Handlers.{rollout_partition}
use hyperbytedb_operator.Resources.{Op, create, update, delete}
use hyperbytedb_operator.Cluster.State.{StsSpec, Sts, Cluster, World}

-- stsReconcileResult
pub record StsReconcileResult : Type 0 where
  pub spec_replicas : ℕ
  pub ready_replicas : ℕ
  pub status_replicas : ℕ
  pub recreating : Bool

abbrev pub Step : Type 0 → Type 0
Step A = Exec (List (Op StsSpec)) A

-- BuildStatefulSet, with the partition that the proxy's coordination keeps.
unfoldable pub desired_sts : Cluster → Option RollingRestartState → StsSpec
desired_sts c restart = record {
  replicas = c.replicas;
  partition = if c.proxy_enabled then some (rollout_partition restart c.replicas) else none;
  pod_management_policy = c.pod_management_policy;
  template = c.template;
  termination_grace_period_seconds = c.termination_grace_period_seconds;
}

-- A write, and the result where it is not refused.
unfoldable pub write_sts : World → Op StsSpec → StsReconcileResult → Step StsReconcileResult
write_sts w op result calls =
    (elim (w.sts_answer op) [ none ↦ ok result | some e ↦ err e ], calls ++ (op ∷ []))

-- Delete with orphaned pods, whose answer "not found" counts as done.
unfoldable pub recreate_sts : World → Step StsReconcileResult
recreate_sts w calls =
    let recreating : StsReconcileResult = record {
      spec_replicas = 0;
      ready_replicas = 0;
      status_replicas = 0;
      recreating = true;
    } in
    (
      elim (w.sts_answer delete) [
        | none ↦ ok recreating
        | some e ↦ if is_not_found e then ok recreating else err e
      ],
      calls ++ (delete ∷ []),
    )

-- The mutable fields are copied onto the StatefulSet that is there; its grace period stays.
unfoldable pub updated_sts : (existing desired : StsSpec) → StsSpec
updated_sts existing desired = record existing {
  replicas = desired.replicas;
  partition = desired.partition;
  template = desired.template;
}

unfoldable pub apply_sts : World → StsSpec → Result Sts → Step StsReconcileResult
unfolding write_sts recreate_sts updated_sts
apply_sts w desired (ok existing) =
    if not (str_eq existing.spec.pod_management_policy desired.pod_management_policy)
    then recreate_sts w
    else write_sts w (update (updated_sts existing.spec desired)) (record {
      spec_replicas = desired.replicas;
      ready_replicas = existing.ready_replicas;
      status_replicas = existing.status_replicas;
      recreating = false;
    })
apply_sts w desired (err e) =
    if is_not_found e
    then write_sts w (create desired) (record {
      spec_replicas = desired.replicas;
      ready_replicas = 0;
      status_replicas = 0;
      recreating = false;
    })
    else throw e

unfoldable pub reconcile_stateful_set :
    Cluster → World → Option RollingRestartState → Step StsReconcileResult
unfolding desired_sts apply_sts
reconcile_stateful_set c w restart = apply_sts w (desired_sts c restart) w.get_sts
