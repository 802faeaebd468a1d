-- ===== src/Cluster/Effects.antt =====
-- What a call of a pass may rely on: the StatefulSet is written, and pods and claims are deleted, only
-- behind the scale-down hooks.
use mathlib.Core.List.{append_assoc}
use hyperbytedb_operator.Prelude.{
  ℕ, ◌<◌, ◌≡◌, refl, ap, ◌∙◌, false, not, List, [], ◌++◌, map, Option, str_eq, Bool-cases,
  Option-cases, inl, inr, not_found, already_exists, conflict, other, Result, ok, err, is_not_found,
  All, arith, eq_iff,
}
use hyperbytedb_operator.Rolling.State.{RollingRestartState}
use hyperbytedb_operator.ScaleDown.Hooks.{run_scale_down_cluster_hooks}
use hyperbytedb_operator.ScaleDown.HookLaws.{Shrinks}
use hyperbytedb_operator.ScaleDown.Stuck.{IsStuck}
use hyperbytedb_operator.Volumes.Laws.{IsOrphan}
use hyperbytedb_operator.Resources.{Op, create, update, delete}
use hyperbytedb_operator.Cluster.State.{
  StsSpec, Sts, Effect, hook, sts, delete_pod, delete_claim, Cluster, World,
}
use hyperbytedb_operator.Cluster.Apply.{
  StsReconcileResult, desired_sts, write_sts, recreate_sts, apply_sts, updated_sts,
  reconcile_stateful_set,
}

abbrev pub prev_of : Result ℕ → ℕ
prev_of (ok n) = n
prev_of (err e) = 0

module _ (c : Cluster) (w : World) where
  -- .spec.replicas of the StatefulSet before the pass
  abbrev pub prev : ℕ
  prev = prev_of w.prev_replicas

  abbrev pub hook_calls : List Effect
  hook_calls = map hook (run_scale_down_cluster_hooks w.hooks prev c.replicas).1

  -- The hooks have let go: their calls are in the log, and a smaller cluster has been released.
  pub record IsReleased (log : List Effect) : Type 0 where
    pub before : List Effect
    pub after : List Effect
    pub made : log ≡ (before ++ hook_calls) ++ after
    pub shrinks :
        c.replicas < prev
        → Shrinks w.hooks prev c.replicas (run_scale_down_cluster_hooks w.hooks prev c.replicas).1

  pub IsReleased-append : (log more : List Effect) → IsReleased log → IsReleased (log ++ more)
  IsReleased-append log more r = record {
    before = r.before;
    after = r.after ++ more;
    made = ap (λ l. l ++ more) r.made ∙ append_assoc (r.before ++ hook_calls) r.after more;
    shrinks = r.shrinks;
  }

  -- The StatefulSet that is built for the cluster, but for the partition and the grace period.
  pub record IsBuilt (s : StsSpec) : Type 0 where
    pub replicas : s.replicas ≡ c.replicas
    pub template : s.template ≡ c.template
    pub policy : s.pod_management_policy ≡ c.pod_management_policy

  abbrev pub WritesBuilt : Op StsSpec → Type 0
  WritesBuilt (create s) = IsBuilt s × (w.get_sts ≡ err not_found)
  WritesBuilt (update s) =
      IsBuilt s
      × ((e : Sts) × (w.get_sts ≡ ok e)
          × (s.termination_grace_period_seconds ≡ e.spec.termination_grace_period_seconds))
  WritesBuilt delete = Unit

  -- What is asked of a call, with the calls before it.
  abbrev pub IsAllowed : List Effect → Effect → Type 0
  IsAllowed log (sts op) = IsReleased log × WritesBuilt op
  IsAllowed log (delete_pod pod) = IsReleased log × ((n : ℕ) × IsStuck w.stuck c.replicas n pod)
  IsAllowed log (delete_claim i) = IsReleased log × IsOrphan prev c.replicas i
  IsAllowed log _ = Unit

  -- The writes of the StatefulSet, and their result.
  abbrev pub IsFull : Result StsReconcileResult → Type 0
  IsFull (ok r) = (r.recreating ≡ false) → r.spec_replicas ≡ c.replicas
  IsFull (err e) = Unit

  apply_sts-WritesBuilt :
      (desired : StsSpec) (r : Result Sts)
      → w.get_sts ≡ r
      → IsBuilt desired
      → All WritesBuilt (apply_sts w desired r []).1
  unfolding apply_sts updated_sts
  apply_sts-WritesBuilt desired (ok s) g e =
      elim (Bool-cases (not (str_eq s.spec.pod_management_policy desired.pod_management_policy))) [
        | inl b ↦ rw b (tt, tt)
        | inr b ↦
            let same : s.spec.pod_management_policy ≡ desired.pod_management_policy =
              ground (arith, eq_iff s.spec.pod_management_policy desired.pod_management_policy) in
            rw b (
              (
                record { replicas = e.replicas; template = e.template; policy = same ∙ e.policy },
                (s, g, refl),
              ),
              tt,
            )
      ]
  apply_sts-WritesBuilt desired (err not_found) g e = ((e, g), tt)
  apply_sts-WritesBuilt desired (err already_exists) g e = tt
  apply_sts-WritesBuilt desired (err conflict) g e = tt
  apply_sts-WritesBuilt desired (err (other n)) g e = tt

  write_sts-IsFull :
      (op : Op StsSpec) (r : StsReconcileResult)
      → r.spec_replicas ≡ c.replicas
      → IsFull (write_sts w op r []).0
  unfolding write_sts
  write_sts-IsFull op r e = elim (Option-cases (w.sts_answer op)) [
    | inl a ↦ rw a (λ _. e)
    | inr (f, a) ↦ rw a tt
  ]

  recreate_sts-IsFull : IsFull (recreate_sts w []).0
  unfolding recreate_sts
  recreate_sts-IsFull = elim (Option-cases (w.sts_answer delete)) [
    | inl a ↦ rw a (λ e. cc)
    | inr (f, a) ↦ elim (Bool-cases (is_not_found f)) [
      | inl b ↦ rw (a, b) (λ e. cc)
      | inr b ↦ rw (a, b) tt
    ]
  ]

  apply_sts-IsFull :
      (desired : StsSpec) (r : Result Sts)
      → desired.replicas ≡ c.replicas
      → IsFull (apply_sts w desired r []).0
  unfolding apply_sts
  apply_sts-IsFull desired (ok s) e =
      elim (Bool-cases (not (str_eq s.spec.pod_management_policy desired.pod_management_policy))) [
        | inl b ↦ rw b recreate_sts-IsFull
        | inr b ↦ rw b (write_sts-IsFull _ _ e)
      ]
  apply_sts-IsFull desired (err not_found) e = write_sts-IsFull _ _ e
  apply_sts-IsFull desired (err already_exists) e = tt
  apply_sts-IsFull desired (err conflict) e = tt
  apply_sts-IsFull desired (err (other n)) e = tt

  pub reconcile_stateful_set-WritesBuilt :
      (restart : Option RollingRestartState)
      → All WritesBuilt (reconcile_stateful_set c w restart []).1
  unfolding reconcile_stateful_set
  reconcile_stateful_set-WritesBuilt restart =
      apply_sts-WritesBuilt (desired_sts c restart) w.get_sts refl
        (record { replicas = refl; template = refl; policy = refl })

  pub reconcile_stateful_set-IsFull :
      (restart : Option RollingRestartState) → IsFull (reconcile_stateful_set c w restart []).0
  unfolding reconcile_stateful_set
  reconcile_stateful_set-IsFull restart = apply_sts-IsFull (desired_sts c restart) w.get_sts refl
