-- ===== src/ScaleDown/Stuck.antt =====
-- deleteStuckDepartedPods and stuckDepartedPods of
-- internal/controller/hyperbytedbcluster_controller.go.
use hyperbytedb_operator.Prelude.{
  ℕ, zero, suc, ◌+◌, ◌-◌, ◌≤◌, ◌<◌, ◌≡◌, refl, false, ◌||◌, List, [], ◌∷◌, ◌++◌, Option, none, some,
  leb, if◌then◌else◌, Failure, Result, ok, err, is_not_found, Exec, pure, throw, ◌>>◌, Bool-cases,
  not_found, bind_keeps, arith, All, All-append, inl, inr,
}
use hyperbytedb_operator.Kube.{Pod, is_pod_ready}

-- The API server: a pod by its ordinal, and the error, if any, of a delete.
pub record World : Type 0 where
  pub get_pod : ℕ → Result Pod
  pub delete : Pod → Option Failure

-- The pods deleted so far, in order.
abbrev pub Step : Type 0 → Type 0
Step A = Exec (List Pod) A

unfoldable pub stuck_departed_pods : List Pod → List Pod
stuck_departed_pods [] = []
stuck_departed_pods (pod ∷ pods) =
    let rest = stuck_departed_pods pods in
    if pod.deleting || is_pod_ready pod then rest else pod ∷ rest

module _ (w : World) where
  -- What is found at one ordinal, in front of the rest: a pod that is gone is passed over.
  unfoldable pub add_found : Result Pod → Result (List Pod) → Result (List Pod)
  add_found (ok pod) (ok pods) = ok (pod ∷ pods)
  add_found (ok pod) (err e) = err e
  add_found (err e) rest = if is_not_found e then rest else err e

  -- The pods of the `count` ordinals from `i` on.
  unfoldable pub departed_pods : (i count : ℕ) → Result (List Pod)
  unfolding add_found
  departed_pods i zero = ok []
  departed_pods i (suc count) = add_found (w.get_pod i) (departed_pods (suc i) count)

  -- A delete, whose answer "not found" counts as done.
  unfoldable pub delete_pod : Pod → Step (Unit {0})
  delete_pod pod deleted = (
    elim (w.delete pod) [ none ↦ ok tt | some e ↦ if is_not_found e then ok tt else err e ],
    deleted ++ (pod ∷ []),
  )

  unfoldable pub delete_each : List Pod → Step (Unit {0})
  unfolding delete_pod
  delete_each [] = pure tt
  delete_each (pod ∷ pods) = delete_pod pod >> delete_each pods

  abbrev pub delete_stuck : Result (List Pod) → Step (Unit {0})
  delete_stuck (ok pods) = delete_each (stuck_departed_pods pods)
  delete_stuck (err e) = throw e

  unfoldable pub delete_stuck_departed_pods : (spec_replicas status_replicas : ℕ) → Step (Unit {0})
  unfolding departed_pods delete_each
  delete_stuck_departed_pods spec_replicas status_replicas =
      if leb status_replicas spec_replicas
      then pure tt
      else delete_stuck (departed_pods spec_replicas (status_replicas - spec_replicas))

-- A pod above .spec.replicas that the StatefulSet controller waits on: not ready, and not being
-- deleted.
pub record IsStuck (w : World) (spec_replicas status_replicas : ℕ) (pod : Pod) : Type 0 where
  pub ordinal : ℕ
  pub above : spec_replicas ≤ ordinal
  pub below : ordinal < status_replicas
  pub found : w.get_pod ordinal ≡ ok pod
  pub unready : is_pod_ready pod ≡ false
  pub kept : pod.deleting ≡ false

-- A pod that was read at an ordinal from `lo` up to `hi`.
record At (w : World) (lo hi : ℕ) (pod : Pod) : Type 0 where
  ordinal : ℕ
  above : lo ≤ ordinal
  below : ordinal < hi
  found : w.get_pod ordinal ≡ ok pod

abbrev OnOk : (List Pod → Type 0) → Result (List Pod) → Type 0
OnOk P (ok pods) = P pods
OnOk P (err e) = Unit

module _ (w : World) where
  At-up :
      (lo hi hi' : ℕ) (pods : List Pod)
      → hi ≡ hi'
      → All (At w (suc lo) hi) pods
      → All (At w lo hi') pods
  At-up lo hi hi' [] e h = tt
  At-up lo hi hi' (pod ∷ pods) e h = (
    record { ordinal = h.0.ordinal; above = omega arith; below = omega arith; found = h.0.found },
    At-up lo hi hi' pods e h.1,
  )

  add_found-At :
      (i count : ℕ) (r : Result Pod) (rest : Result (List Pod))
      → w.get_pod i ≡ r
      → OnOk (All (At w (suc i) (suc i + count))) rest
      → OnOk (All (At w i (i + suc count))) (add_found w r rest)
  unfolding add_found
  add_found-At i count (ok pod) (ok pods) e h = (
    record { ordinal = i; above = omega arith; below = omega arith; found = e },
    At-up i (suc i + count) (i + suc count) pods (omega arith) h,
  )
  add_found-At i count (ok pod) (err f) e h = tt
  add_found-At i count (err not_found) (ok pods) e h =
      At-up i (suc i + count) (i + suc count) pods (omega arith) h
  add_found-At i count (err not_found) (err f) e h = tt
  add_found-At i count (err _) rest e h = tt

  departed-At : (i count : ℕ) → OnOk (All (At w i (i + count))) (departed_pods w i count)
  unfolding departed_pods
  departed-At i zero = tt
  departed-At i (suc count) =
      add_found-At i count (w.get_pod i) (departed_pods w (suc i) count) refl
        (departed-At (suc i) count)

  stuck_departed_pods-IsStuck :
      (lo hi : ℕ) (pods : List Pod)
      → All (At w lo hi) pods
      → All (IsStuck w lo hi) (stuck_departed_pods pods)
  unfolding stuck_departed_pods
  stuck_departed_pods-IsStuck lo hi [] h = tt
  stuck_departed_pods-IsStuck lo hi (pod ∷ pods) h =
      elim (Bool-cases (pod.deleting || is_pod_ready pod)) [
        | inl b ↦ rw b (stuck_departed_pods-IsStuck lo hi pods h.1)
        | inr b ↦ rw b (
          record {
            ordinal = h.0.ordinal;
            above = h.0.above;
            below = h.0.below;
            found = h.0.found;
            unready = ground arith;
            kept = ground arith;
          },
          stuck_departed_pods-IsStuck lo hi pods h.1,
        )
      ]

  delete_each-All :
      (P : Pod → Type 0) (pods deleted : List Pod)
      → All P pods
      → All P deleted
      → All P (delete_each w pods deleted).1
  unfolding delete_each
  delete_each-All P [] deleted h k = k
  delete_each-All P (pod ∷ pods) deleted h k =
      let k' = All-append P deleted (pod ∷ []) k (h.0, tt) in
      bind_keeps (All P) (delete_pod w pod) (λ _. delete_each w pods) deleted k'
        (λ _. delete_each-All P pods (deleted ++ (pod ∷ [])) h.1 k')

  delete_stuck-All :
      (lo hi : ℕ) (r : Result (List Pod))
      → OnOk (All (At w lo hi)) r
      → All (IsStuck w lo hi) (delete_stuck w r []).1
  delete_stuck-All lo hi (ok pods) h =
      delete_each-All (IsStuck w lo hi) (stuck_departed_pods pods) []
        (stuck_departed_pods-IsStuck lo hi pods h) tt
  delete_stuck-All lo hi (err e) h = tt

-- Only stuck pods are deleted: pods of an ordinal at or above .spec.replicas and below the number of
-- pods that the StatefulSet has, which are unready and not already being deleted.
pub delete_stuck_departed_pods-IsStuck :
    (w : World) (spec_replicas status_replicas : ℕ)
    → All
        (IsStuck w spec_replicas status_replicas)
        (delete_stuck_departed_pods w spec_replicas status_replicas []).1
unfolding delete_stuck_departed_pods
delete_stuck_departed_pods-IsStuck w lo hi = elim (Bool-cases (leb hi lo)) [
  | inl b ↦ rw b tt
  | inr b ↦
      let sum : lo + (hi - lo) ≡ hi = ground arith in
      rw b (
        delete_stuck-All w lo hi (departed_pods w lo (hi - lo))
          (rw sum at (departed-At w lo (hi - lo))))
]
