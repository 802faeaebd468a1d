-- ===== src/Workload/Database.antt =====
-- BuildStatefulSet with podManagementPolicy, clusterPreStopScript and containerPorts, of
-- internal/hyperbytedb/statefulset.go, and authEnv of internal/hyperbytedb/auth.go.
use Prim.Native.String.{◌++◌ as text_append}
use hyperbytedb_operator.Prelude.{
  ℕ, String, Bool, true, false, ◌&&◌, List, [], ◌∷◌, ◌++◌, Option, none, some, if◌then◌else◌,
}
use hyperbytedb_operator.Prelude.Int.{ℤ}
use hyperbytedb_operator.Config.{server_port, control_port, control_listener_enabled, or_text}
use hyperbytedb_operator.Config.Spec.{ConfigSpec}
use hyperbytedb_operator.Config.Render.{cluster_metadata_enabled}
use hyperbytedb_operator.Services.{Labels, common_labels, database_pod_labels}
use hyperbytedb_operator.Services
use hyperbytedb_operator.Workload.{
  Env, text, secret_key, config_map, secret, empty_dir, Volume, VolumeMount, Probe, Ports, PreStop,
  init_node_id, init_entrypoint, InitContainer, Container,
}

-- spec.storage.volumeClaimTemplate: a size that is not zero, and a storage class
pub record ClaimTemplate : Type 0 where
  pub size : Option String
  pub storage_class_name : Option String

-- A cluster. `service` has its name and its pod labels, and `config` the fields that config.toml has
-- too; `image` is what ResolveHyperbytedbImage returns.
pub record Cluster : Type 0 where
  pub service : Services.Cluster
  pub namespace : String
  pub config : ConfigSpec
  pub image : String
  pub image_pull_policy : String
  pub tls_secret_name : String
  pub credentials_secret_name : String
  -- Supports, of the cluster token
  pub supports_cluster_auth : Bool
  pub additional_volumes : List Volume
  pub additional_volume_mounts : List VolumeMount
  pub resources : String
  pub volume_claim_template : ClaimTemplate
  pub pod_annotations : Labels
  pub image_pull_secrets : String
  pub tolerations : String
  pub affinity : Option String
  pub topology_spread_constraints : String
  -- whether the parallel-pods annotation is "true"
  pub parallel_pods : Bool

abbrev pub drain_ack_wait_secs : ℕ
drain_ack_wait_secs = 90

abbrev pub pod_termination_grace_secs : ℕ
pod_termination_grace_secs = 120

abbrev pub headless_service_name : String → String
headless_service_name name = text_append name "-headless"

unfoldable pub cluster_auth_enabled : Cluster → Bool
cluster_auth_enabled c = c.config.auth_enabled && c.supports_cluster_auth

abbrev pub auth_secret_name : Cluster → String
auth_secret_name c = or_text c.credentials_secret_name (text_append c.service.name "-auth")

unfoldable pub auth_env : Cluster → Env
auth_env c =
    ("HYPERBYTEDB__AUTH__CLUSTER_TOKEN", secret_key (auth_secret_name c) "cluster-token")
    ∷ ("HYPERBYTEDB__AUTH__ADMIN_USERNAME", secret_key (auth_secret_name c) "admin-username")
    ∷ ("HYPERBYTEDB__AUTH__ADMIN_PASSWORD", secret_key (auth_secret_name c) "admin-password")
    ∷ []

-- The volumes, then the mounts of the database container: each time the operator's, that of TLS, and
-- the user's.
unfoldable pub pod_volumes : Cluster → List Volume
pod_volumes c =
    record { name = "config"; source = config_map (text_append c.service.name "-config") }
    ∷ record { name = "shared"; source = empty_dir }
    ∷ record { name = "entrypoint"; source = empty_dir }
    ∷ ((if c.config.server.tls_enabled
          then record {
            name = "tls";
            source = secret (or_text c.tls_secret_name (text_append c.service.name "-tls"));
          }
            ∷ []
          else [])
        ++ c.additional_volumes)

abbrev pub mount : String → String → Bool → VolumeMount
mount name path read_only = record { name = name; mount_path = path; read_only = read_only }

unfoldable pub container_mounts : Cluster → List VolumeMount
container_mounts c =
    mount "data" "/var/lib/hyperbytedb" false
    ∷ mount "config" "/etc/hyperbytedb" true
    ∷ mount "shared" "/shared" true
    ∷ mount "entrypoint" "/entrypoint" true
    ∷ ((if c.config.server.tls_enabled then mount "tls" "/etc/hyperbytedb/tls" true ∷ [] else [])
        ++ c.additional_volume_mounts)

unfoldable pub init_containers : Cluster → List InitContainer
init_containers c =
    record {
      name = "init-node-id";
      image = "busybox:1.36";
      script =
          init_node_id (headless_service_name c.service.name) c.namespace
            (server_port c.config.server);
      volume_mounts = mount "shared" "/shared" false ∷ [];
    }
    ∷ record {
      name = "init-entrypoint";
      image = "busybox:1.36";
      script = init_entrypoint;
      volume_mounts = mount "entrypoint" "/entrypoint" false ∷ [];
    }
    ∷ []

unfoldable pub container_env : Cluster → Env
unfolding cluster_auth_enabled auth_env
container_env c =
    ("HYPERBYTEDB__STORAGE__WAL_DIR", text "/var/lib/hyperbytedb/wal")
    ∷ ("HYPERBYTEDB__STORAGE__META_DIR", text "/var/lib/hyperbytedb/meta")
    ∷ (
      "HYPERBYTEDB__CHDB__SESSION_DATA_PATH",
      text (or_text c.config.chdb.session_data_path "/var/lib/hyperbytedb/chdb"),
    )
    ∷ ("HYPERBYTEDB__LOGGING__LEVEL", text (or_text c.config.logging_level "info"))
    ∷ (if cluster_auth_enabled c then auth_env c else [])

unfoldable pub container_ports : ℤ → Bool → ℤ → Ports
container_ports port control_listener control =
    ("http", port) ∷ (if control_listener then ("control", control) ∷ [] else [])

-- ControlListenerEnabled for the cluster as it is.
abbrev pub control_listener : ConfigSpec → Bool
control_listener s = control_listener_enabled s (cluster_metadata_enabled s)

unfoldable pub liveness_probe : ConfigSpec → Probe
unfolding control_listener_enabled cluster_metadata_enabled
liveness_probe s = record {
  path = "/ping";
  port = if control_listener s then "control" else "http";
  https = if control_listener s then false else s.server.tls_enabled;
  initial_delay_seconds = 15;
  period_seconds = 10;
  timeout_seconds = 3;
  failure_threshold = 0;
}

unfoldable pub readiness_probe : ConfigSpec → Probe
readiness_probe s = record {
  path = "/health";
  port = "http";
  https = s.server.tls_enabled;
  initial_delay_seconds = 5;
  period_seconds = 5;
  timeout_seconds = 3;
  failure_threshold = 0;
}

unfoldable pub startup_probe : ConfigSpec → Probe
unfolding readiness_probe
startup_probe s = record (readiness_probe s) { path = "/ping"; failure_threshold = 120 }

unfoldable pub cluster_pre_stop : ℤ → Bool → PreStop
cluster_pre_stop port cluster_auth = record {
  port = port;
  wait_secs = drain_ack_wait_secs;
  with_token = cluster_auth;
}

unfoldable pub main_container : Cluster → Container
unfolding container_env container_ports container_mounts startup_probe liveness_probe
    readiness_probe cluster_pre_stop
main_container c = record {
  name = "hyperbytedb";
  image = c.image;
  image_pull_policy = or_text c.image_pull_policy "IfNotPresent";
  command = "sh" ∷ "/entrypoint/start.sh" ∷ [];
  env = container_env c;
  ports =
      container_ports (server_port c.config.server) (control_listener c.config)
        (control_port c.config.server);
  volume_mounts = container_mounts c;
  startup_probe = some (startup_probe c.config);
  liveness_probe = liveness_probe c.config;
  readiness_probe = readiness_probe c.config;
  resources = c.resources;
  pre_stop =
      if cluster_metadata_enabled c.config
      then some (cluster_pre_stop (server_port c.config.server) (cluster_auth_enabled c))
      else none;
}
