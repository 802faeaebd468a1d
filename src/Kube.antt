-- ===== src/Kube.antt =====
-- The Kubernetes objects that several controllers read, cut down to the fields that they use, and
-- the tests on pods of internal/controller/hyperbytedbcluster_controller.go. A missing label reads
-- as "", as in a Go map.
use hyperbytedb_operator.Prelude.{
  ℕ, String, Bool, true, false, ◌&&◌, ◌||◌, List, [], ◌∷◌, Option, str_eq, if◌then◌else◌,
}

pub record Condition : Type 0 where
  pub type : String
  pub status : String

pub record ContainerStatus : Type 0 where
  pub name : String
  pub running : Bool

pub record Pod : Type 0 where
  pub name : String
  pub ip : String
  pub deleting : Bool
  pub revision : String
  pub conditions : List Condition
  pub containers : List ContainerStatus

pub record StatefulSet : Type 0 where
  pub update_revision : String
  pub current_revision : String
  pub replicas : ℕ
  pub ready_replicas : ℕ
  pub updated_replicas : ℕ
  -- .spec.updateStrategy.rollingUpdate, and its partition
  pub rolling_update : Option (Option ℕ)

-- time.Second: times and durations are numbers of nanoseconds.
abbrev pub second : ℕ
second = 1000000000

any_ready : List Condition → Bool
any_ready [] = false
any_ready (c ∷ cs) = if str_eq c.type "Ready" && str_eq c.status "True" then true else any_ready cs

unfoldable pub is_pod_ready : Pod → Bool
unfolding any_ready
is_pod_ready pod = any_ready pod.conditions

-- The first container named "proxy" decides.
proxy_container_running : List ContainerStatus → Bool
proxy_container_running [] = false
proxy_container_running (c ∷ cs) =
    if str_eq c.name "proxy" then c.running else proxy_container_running cs

unfoldable pub proxy_running : Pod → Bool
unfolding proxy_container_running
proxy_running pod =
    if str_eq pod.ip "" || pod.deleting then false else proxy_container_running pod.containers
