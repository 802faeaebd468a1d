-- ===== src/Workload/Samples.antt =====
-- A cluster of three pods with TLS, and its proxies.
use Prim.Native.String.{◌++◌ as text_append}
use hyperbytedb_operator.Prelude.{
  ℕ, suc, ◌+◌, ◌^◌, ◌<◌, ◌≡◌, ◌↔◌, refl, Bool, true, false, [], ◌∷◌, none, some, All, ltb,
  if◌then◌else◌,
}
use hyperbytedb_operator.Prelude.Int.{ℤ, pos}
use hyperbytedb_operator.Config.{num, server_port, control_port, server_section}
use hyperbytedb_operator.Config.Render.{cluster_metadata_enabled, cluster_section}
use hyperbytedb_operator.Config.Samples.{spec}
use hyperbytedb_operator.Services.{build_proxy_service, proxy_admin_port}
use hyperbytedb_operator.Services.Samples.{cluster}
use hyperbytedb_operator.Workload.{other_source, text, number, listen, PreStop}
use hyperbytedb_operator.Workload.Database
use hyperbytedb_operator.Workload.Database.{
  mount, control_listener, main_container, cluster_pre_stop,
}
use hyperbytedb_operator.Workload.Template.{build_stateful_set, pod_template}
use hyperbytedb_operator.Workload.Proxies
use hyperbytedb_operator.Workload.Proxies.{build_proxy_deployment}
use hyperbytedb_operator.Workload.Hook.{run_pre_stop, slept}
use hyperbytedb_operator.Workload.Laws.{
  IsProvided, build_stateful_set-IsMounted, port_of, line_of, build_stateful_set-IsProbed,
  with_replicas, mode, template_of, build_stateful_set-replicas,
}
use hyperbytedb_operator.Workload.Agreement.{
  env_of, Fits, build_proxy_deployment-Agrees, SetsPositive, build_proxy_deployment-IsPositive,
}

abbrev pub database : Database.Cluster
database = record {
  service = record cluster { port = 9000 };
  namespace = "monitoring";
  config = spec;
  image = "hyperbytedb:0.9.0";
  image_pull_policy = "";
  tls_secret_name = "";
  credentials_secret_name = "";
  supports_cluster_auth = true;
  additional_volumes = record { name = "scratch"; source = other_source "emptyDir" } ∷ [];
  additional_volume_mounts = mount "scratch" "/scratch" false ∷ [];
  resources = "";
  volume_claim_template = record { size = some "50Gi"; storage_class_name = none };
  pod_annotations = [];
  image_pull_secrets = "";
  tolerations = "";
  affinity = none;
  topology_spread_constraints = "";
  parallel_pods = false;
}

abbrev proxies : Proxies.Cluster
proxies = record {
  service = record cluster { port = 9000 };
  namespace = "monitoring";
  image = "hyperbytedb-proxy:0.9.0";
  server_request_timeout_secs = pos 30;
  logging_format = "json";
  proxy = record {
    replicas = none;
    image_pull_policy = "";
    hold_timeout_secs = pos 0;
    max_retries = pos 0;
    shutdown_grace_secs = pos 45;
    request_timeout_secs = pos 0;
    health_path = "";
    pod_annotations = [];
    resources = "";
    image_pull_secrets = "";
  };
}

build_stateful_set-IsMounted_example :
    All
      (IsProvided (build_stateful_set database "1f"))
      (build_stateful_set database "1f").template.container.volume_mounts
    × All
        (λ i. All (IsProvided (build_stateful_set database "1f")) i.volume_mounts)
        (build_stateful_set database "1f").template.init_containers
build_stateful_set-IsMounted_example = build_stateful_set-IsMounted database "1f" (refl, tt)

build_stateful_set-IsProbed_example :
    let container = (build_stateful_set database "1f").template.container in
    (port_of container.liveness_probe.port container.ports
      ≡ some (if control_listener spec then control_port spec.server else server_port spec.server))
    × (line_of "control_port" (cluster_section spec (cluster_metadata_enabled spec)).lines
        ≡ (if control_listener spec then some (num (control_port spec.server)) else none))
    × (line_of "port" (server_section spec.server).lines ≡ some (num (server_port spec.server)))
    × (port_of container.readiness_probe.port container.ports ≡ some (server_port spec.server))
    × (container.liveness_probe.https
        ≡ (if control_listener spec then false else spec.server.tls_enabled))
build_stateful_set-IsProbed_example = build_stateful_set-IsProbed database "1f"

build_stateful_set-replicas_example :
    (template_of (λ sections. "1f") (with_replicas database 5)
      ≡ template_of (λ sections. "1f") database)
    ↔ (mode (with_replicas database 5) ≡ mode database)
build_stateful_set-replicas_example = build_stateful_set-replicas (λ sections. "1f") database 5

abbrev hook : PreStop
hook = record { port = pos 9000; wait_secs = 90; with_token = true }

has_hook : (build_stateful_set database "1f").template.container.pre_stop ≡ some hook
unfolding build_stateful_set pod_template main_container cluster_pre_stop
    Database.cluster_auth_enabled cluster_metadata_enabled server_port
has_hook = refl

-- A node that leaves in the third round.
abbrev leaves : ℕ → Bool
leaves i = ltb 2 i

stops_early : slept (run_pre_stop hook leaves) ≡ 2
unfolding run_pre_stop slept
stops_early = refl

fits : Fits database proxies
unfolding server_port
fits = record { name = refl; namespace = refl; port = refl }

build_proxy_deployment-Agrees_example :
    let sts = build_stateful_set database "1f" in
    let container = (build_proxy_deployment proxies).template.container in
    (env_of "HYPERBYTEDB_PROXY_BACKEND_SERVICE" container.env
      ≡ some (
          text (
            text_append sts.service_name
              (text_append "." (text_append "monitoring" ".svc.cluster.local")))))
    × ((n : ℤ) × (env_of "HYPERBYTEDB_PROXY_BACKEND_PORT" container.env ≡ some (number n))
        × (port_of "http" sts.template.container.ports ≡ some n))
    × ((n : ℕ) × (env_of "HYPERBYTEDB_PROXY_LISTEN" container.env ≡ some (listen (pos n)))
        × (port_of "http" container.ports ≡ some (pos n))
        × ((build_proxy_service proxies.service).ports ≡ ("http", n) ∷ []))
    × (port_of container.liveness_probe.port container.ports
        ≡ some (pos (proxy_admin_port proxies.service)))
    × (container.readiness_probe.port ≡ container.liveness_probe.port)
    × (proxies.service.admin_listener ≡ true
        → env_of "HYPERBYTEDB_PROXY_ADMIN_LISTEN" container.env
          ≡ some (listen (pos (proxy_admin_port proxies.service))))
build_proxy_deployment-Agrees_example = build_proxy_deployment-Agrees database proxies "1f" fits

build_proxy_deployment-IsPositive_example :
    let template = (build_proxy_deployment proxies).template in
    SetsPositive "HYPERBYTEDB_PROXY_REQUEST_TIMEOUT_SECS" template.container.env
    × ((n : ℕ) × (env_of "HYPERBYTEDB_PROXY_SHUTDOWN_GRACE_SECS" template.container.env
          ≡ some (number (pos (suc n))))
        × (suc n + 10 < 2 ^ 31 → template.termination_grace_period_seconds ≡ pos (suc n + 10)))
build_proxy_deployment-IsPositive_example = build_proxy_deployment-IsPositive proxies
