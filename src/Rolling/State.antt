-- ===== src/Rolling/State.antt =====
-- What a pass of reconcileRollingRestart reads and changes: RollingRestartState of
-- api/v1alpha1/hyperbytedbcluster_types.go, the answers that it gets and the calls that it makes.
-- A pod of the StatefulSet is named by its ordinal.
use hyperbytedb_operator.Prelude.{
  ℕ, ◌*◌, String, Bool, List, [], ◌∷◌, ◌++◌, Option, none, some, Failure, Result, ok, err, check,
  Exec, modify,
}
use hyperbytedb_operator.Kube.{Pod, StatefulSet, second}

pub data Phase : Type 0 where
  excluding draining waiting_ready including completed : Phase

pub record RollingRestartState : Type 0 where
  pub current_ordinal : ℕ
  pub total_ordinals : ℕ
  pub phase : Phase
  pub phase_started_at : ℕ
  pub old_pod_ip : String
  pub exclude_confirmed : Bool

pub record StsResult : Type 0 where
  pub spec_replicas : ℕ
  pub ready_replicas : ℕ

-- A call that changes something outside of the operator.
pub data Call : Type 0 where
  update_status : Option RollingRestartState → Call
  patch_partition : ℕ → Call
  exclude include : (proxy backend : String) → Call

-- What one pass meets: the time, and the answers of the API server and of the proxies.
pub record World : Type 0 where
  pub now : ℕ
  -- .spec.cluster.drainWaitSecs; a negative value acts as 0
  pub drain_wait_secs : ℕ
  -- the StatefulSet as reconcileRollingRestart reads it, and as releaseOrdinal reads it again
  pub get_sts : Result StatefulSet
  pub get_sts_again : Result StatefulSet
  pub get_pod : ℕ → Result Pod
  pub list_proxies : Result (List Pod)
  -- the error, if any, that answers a call
  pub answer : Call → Option Failure

-- The state of a pass: cluster.Status.RollingRestart in memory, what the API server has stored of
-- it, and the calls made so far, in order.
pub record Pass : Type 0 where
  pub status : Option RollingRestartState
  pub stored : Option RollingRestartState
  pub calls : List Call

abbrev pub Step : Type 0 → Type 0
Step A = Exec Pass A

-- A *ctrl.Result, with its RequeueAfter.
abbrev pub Requeue : Type 0
Requeue = Option ℕ

abbrev pub requeue_3s : Requeue
requeue_3s = some (3 * second)

abbrev pub proxy_call_timeout : ℕ
proxy_call_timeout = 120 * second

abbrev pub pod_restart_allowance : ℕ
pod_restart_allowance = 600 * second

abbrev pub call : World → Call → Step (Unit {0})
call w c p = (check (w.answer c), record p { calls = p.calls ++ (c ∷ []) })

-- r.Status().Update
store_answer : Option Failure → Call → Step (Unit {0})
store_answer none c p = (ok tt, record p { stored = p.status; calls = p.calls ++ (c ∷ []) })
store_answer (some e) c p = (err e, record p { calls = p.calls ++ (c ∷ []) })

unfoldable pub store_status : World → Step (Unit {0})
unfolding store_answer
store_status w p = store_answer (w.answer (update_status p.status)) (update_status p.status) p

abbrev pub set_state : RollingRestartState → Step (Unit {0})
set_state s = modify (λ p. record p { status = some s })

-- A pass that starts from what the API server has stored.
abbrev pub begin : Option RollingRestartState → Pass
begin status = record { status = status; stored = status; calls = [] }
