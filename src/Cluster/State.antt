-- ===== src/Cluster/State.antt =====
-- What a pass of HyperbytedbClusterReconciler.Reconcile reads and changes. The status is that of
-- api/v1alpha1/hyperbytedbcluster_types.go; a condition is a field of its own, with its status and
-- its reason.
use hyperbytedb_operator.Prelude.{
  ℕ, ◌*◌, String, Bool, true, List, [], ◌∷◌, ◌++◌, map, Option, none, some, Failure, Result, ok,
  err, Exec,
}
use hyperbytedb_operator.Prelude.Int.{ℤ}
use hyperbytedb_operator.Kube.{Pod, second}
use hyperbytedb_operator.Client.{SyncManifest}
use hyperbytedb_operator.Members.{MemberStatus, ClusterState}
use hyperbytedb_operator.Replication.{ReplicationState}
use hyperbytedb_operator.Resources.{Op, Api, Service, Autoscaling, Hpa, AuthSecret, Draws}
use hyperbytedb_operator.Resources.Proxy.{Deployment}
use hyperbytedb_operator.Webhook.{TlsSpec}
use hyperbytedb_operator.Failover.{FailoverSpec}
use hyperbytedb_operator.Members
use hyperbytedb_operator.Membership
use hyperbytedb_operator.Failover
use hyperbytedb_operator.Volumes
use hyperbytedb_operator.ScaleDown
use hyperbytedb_operator.Rolling

-- ClusterPhase
pub data Phase : Type 0 where
  pending initializing running scaling upgrading failed : Phase

-- A condition of the status.
pub record Cond : Type 0 where
  pub status : Bool
  pub reason : String

pub record Status : Type 0 where
  pub phase : Phase
  pub replicas : ℕ
  pub ready_replicas : ℕ
  pub config_hash : String
  pub members : List MemberStatus
  pub cluster_state : ClusterState
  pub formed : Option Membership.ClusterFormed
  pub replication_state : Option ReplicationState
  pub failover_count : ℕ
  pub rolling_restart : Option Rolling.State.RollingRestartState
  pub is_paused : Bool
  pub degraded : Option Cond
  pub available : Option Cond
  pub database_version : Option Cond

-- The StatefulSet as the controller writes it. `template` stands for the fields of the pod template that
-- an update copies, which are all that are built but the grace period.
pub record StsSpec : Type 0 where
  pub replicas : ℕ
  pub partition : Option ℕ
  pub pod_management_policy : String
  pub template : String
  pub termination_grace_period_seconds : ℤ

pub record Sts : Type 0 where
  pub spec : StsSpec
  pub ready_replicas : ℕ
  pub status_replicas : ℕ

-- A call that changes something outside of the operator.
pub data Effect : Type 0 where
  -- r.Update, with or without the finalizer
  update_cluster : (finalizer : Bool) → Effect
  -- r.Status().Update
  update_status : Status → Effect
  tls : Op String → Effect
  auth : Op AuthSecret → Effect
  config_map legacy_peers monitor : Op String → Effect
  headless client_service proxy_service : Op Service → Effect
  pdb : Op ℤ → Effect
  hpa : Op Hpa → Effect
  proxy_deployment : Op (Deployment String) → Effect
  hook : ScaleDown.Hooks.Call → Effect
  sts : Op StsSpec → Effect
  delete_pod : Pod → Effect
  rolling : Rolling.State.Call → Effect
  delete_claim : ℕ → Effect
  member : Membership.Call → Effect
  fail_over : ℕ → Effect

-- The cluster's spec, and the objects that the builders of internal/hyperbytedb make of it.
pub record Cluster : Type 0 where
  pub paused : Bool
  pub deleting : Bool
  pub has_finalizer : Bool
  -- .spec.replicas, or 1
  pub replicas : ℕ
  -- ClusterAuthEnabled and ProxyEnabled
  pub auth_enabled : Bool
  pub proxy_enabled : Bool
  pub service_monitor : Bool
  pub tls_spec : Option TlsSpec
  pub autoscaling : Option Autoscaling
  pub auto_failover : Option FailoverSpec
  pub config_hash : String
  pub config : String
  pub headless_service : Service
  pub client_service : Service
  pub proxy_service : Service
  pub proxy_deployment : Deployment String
  pub monitor : String
  pub pod_management_policy : String
  pub template : String
  pub termination_grace_period_seconds : ℤ
  -- the reason of CompatibilitySummary
  pub version_reason : String

-- What a pass meets: the answers of the API server and of the nodes, with the cluster token in their
-- requests.
pub record World : Type 0 where
  pub get_cluster : Option Failure
  pub update_cluster : Option Failure
  -- .spec.replicas of the StatefulSet as Reconcile reads it first; the API server fills it in
  pub prev_replicas : Result ℕ
  pub tls : Api String
  -- BuildSelfSignedTLSSecret
  pub built : Result String
  pub auth : Api AuthSecret
  pub draws : Draws
  pub config_map : Api String
  -- whether two ConfigMaps have equal data
  pub same : String → String → Bool
  pub legacy_peers : Api String
  pub headless : Api Service
  pub client : Api Service
  pub hooks : ScaleDown.Hooks.World
  pub get_sts : Result Sts
  pub sts_answer : Op StsSpec → Option Failure
  pub stuck : ScaleDown.Stuck.World
  pub proxy_service : Api Service
  pub proxy_deployment : Api (Deployment String)
  pub rolling : Rolling.State.World
  pub claims : Volumes.World
  pub monitor : Api String
  pub pdb : Api ℤ
  pub hpa : Api Hpa
  pub members : Members.World
  pub membership : Membership.World
  pub manifests : ℕ → Result SyncManifest
  pub failover : Failover.World
  -- whether updateStatus reads a StatefulSet with a rolling update
  pub rolling_upgrade : Bool

-- cluster.Status in memory, and the calls made so far, in order.
pub record Pass : Type 0 where
  pub status : Status
  pub log : List Effect

-- ctrl.Result and error
pub record Outcome : Type 0 where
  pub requeue : Option ℕ
  pub error : Option Failure

-- The rest of a pass.
abbrev pub Flow : Type 0
Flow = Pass → Outcome × Pass

abbrev pub done : Option ℕ → Flow
done requeue p = (record { requeue = requeue; error = none }, p)

abbrev pub fails : Failure → Flow
fails e p = (record { requeue = none; error = some e }, p)

abbrev pub seconds : ℕ → Option ℕ
seconds n = some (n * second)

-- The calls of a component, in its order.
abbrev pub note : {C : Type 0} → (C → Effect) → List C → Pass → Pass
note tag calls p = record p { log = p.log ++ map tag calls }

-- r.Status().Update, whose error is not looked at
abbrev pub store : Pass → Pass
store p = record p { log = p.log ++ (update_status p.status ∷ []) }

abbrev pub set_status : (Status → Status) → Pass → Pass
set_status f p = record p { status = f p.status }

-- setFailedStatus
unfoldable pub set_failed_status : String → Failure → Flow
set_failed_status reason e p = (
  record { requeue = seconds 30; error = some e },
  store (
      set_status
        (λ s. record s {
          phase = failed;
          degraded = some (record { status = true; reason = reason });
        })
        p),
)

-- updatePhase
unfoldable pub update_phase : Phase → Pass → Pass
update_phase phase p = store (set_status (λ s. record s { phase = phase }) p)

-- A step whose error ends the pass in Failed, and one whose error is only logged.
abbrev pub proceed : {A : Type 0} → String → Result A → (A → Flow) → Flow
proceed reason (ok a) next = next a
proceed reason (err e) next = set_failed_status reason e

abbrev pub must : {C A : Type 0} → (C → Effect) → String → Exec (List C) A → (A → Flow) → Flow
must tag reason m next p = let (r, calls) = m [] in proceed reason r next (note tag calls p)

abbrev pub try : {C A : Type 0} → (C → Effect) → Exec (List C) A → Flow → Flow
try tag m next p = next (note tag (m []).1 p)
