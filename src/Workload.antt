-- ===== src/Workload.antt =====
-- What the builders of internal/hyperbytedb/statefulset.go and internal/hyperbytedb/proxy.go make: the
-- pods of a StatefulSet and of a Deployment. A field that only the user sets and that is passed on as it
-- is (resources, tolerations, pull secrets, constraints, an affinity) is a text that stands for it.
pub mod Database
pub mod Template
pub mod Proxies
pub mod Hook
pub mod Laws
mod Agreement
pub mod Samples
use hyperbytedb_operator.Prelude.{ℕ, String, Bool, List, [], Option}
use hyperbytedb_operator.Prelude.Int.{ℤ}
use hyperbytedb_operator.Services.{Labels}

-- A value is a text, a number, an address on all interfaces with a port, a key of a Secret, or a field
-- of the pod.
pub data EnvValue : Type 0 where
  text : String → EnvValue
  number : ℤ → EnvValue
  listen : ℤ → EnvValue
  secret_key : (secret key : String) → EnvValue
  field : String → EnvValue

abbrev pub Env : Type 0
Env = List (String × EnvValue)

pub data VolumeSource : Type 0 where
  config_map secret : String → VolumeSource
  empty_dir : VolumeSource
  -- as the user has it
  other_source : String → VolumeSource

pub record Volume : Type 0 where
  pub name : String
  pub source : VolumeSource

pub record VolumeMount : Type 0 where
  pub name : String
  pub mount_path : String
  pub read_only : Bool

-- A GET of a path at the port of a name. A failure threshold of 0 is one that is not set.
pub record Probe : Type 0 where
  pub path : String
  pub port : String
  pub https : Bool
  pub initial_delay_seconds : ℕ
  pub period_seconds : ℕ
  pub timeout_seconds : ℕ
  pub failure_threshold : ℕ

abbrev pub Ports : Type 0
Ports = List (String × ℤ)

-- clusterPreStopScript: after the drain request it waits at most so many seconds for the node to
-- report that it is leaving. `with_token` is whether the requests carry the cluster token.
pub record PreStop : Type 0 where
  pub port : ℤ
  pub wait_secs : ℕ
  pub with_token : Bool

-- The scripts of the init containers. That of the node writes the address of the pod, of the headless
-- Service, the namespace and the port, and its node id, which is its ordinal plus 1.
pub data Script : Type 0 where
  init_node_id : (service namespace : String) → (port : ℤ) → Script
  init_entrypoint : Script

pub record InitContainer : Type 0 where
  pub name : String
  pub image : String
  pub script : Script
  pub volume_mounts : List VolumeMount

pub record Container : Type 0 where
  pub name : String
  pub image : String
  pub image_pull_policy : String
  -- [] where the image's own command runs
  pub command : List String
  pub env : Env
  pub ports : Ports
  pub volume_mounts : List VolumeMount
  pub startup_probe : Option Probe
  pub liveness_probe : Probe
  pub readiness_probe : Probe
  pub resources : String
  pub pre_stop : Option PreStop

-- The user's affinity; or pods are kept apart, where possible, from those with the labels.
pub data Affinity : Type 0 where
  user_affinity : String → Affinity
  spread : Labels → Affinity

pub record PodTemplate : Type 0 where
  pub labels : Labels
  pub annotations : Labels
  pub termination_grace_period_seconds : ℤ
  pub image_pull_secrets : String
  pub init_containers : List InitContainer
  pub container : Container
  pub volumes : List Volume
  pub tolerations : String
  pub affinity : Option Affinity
  pub topology_spread_constraints : String
