-- ===== src/Workload/Proxies.antt =====
-- BuildProxyDeployment of internal/hyperbytedb/proxy.go.
use Prim.Native.String.{◌++◌ as text_append}
use hyperbytedb_operator.Prelude.{
  ℕ, ◌+◌, ◌-◌, ◌^◌, String, Bool, false, not, ◌&&◌, List, [], ◌∷◌, ◌++◌, Option, none, some, str_eq,
  ltb, if◌then◌else◌,
}
use hyperbytedb_operator.Prelude.Int.{ℤ, pos, negsuc, eqb_ℤ, leb_ℤ}
use hyperbytedb_operator.Config.{or_int, or_text}
use hyperbytedb_operator.Services.{
  Labels, proxy_labels, proxy_pod_labels, proxy_port, proxy_admin_port, proxy_container_ports,
  proxy_probe_port,
}
use hyperbytedb_operator.Services
use hyperbytedb_operator.Workload.{
  Env, text, number, listen, field, Probe, Ports, Container, spread, PodTemplate,
}
use hyperbytedb_operator.Workload.Database.{headless_service_name}

-- spec.proxy beside what `Services` has of it, or an empty one where it is not set.
pub record ProxySpec : Type 0 where
  pub replicas : Option ℕ
  pub image_pull_policy : String
  pub hold_timeout_secs : ℤ
  pub max_retries : ℤ
  pub shutdown_grace_secs : ℤ
  pub request_timeout_secs : ℤ
  pub health_path : String
  pub pod_annotations : Labels
  pub resources : String
  pub image_pull_secrets : String

-- A cluster. `service` has the names, the labels and the ports; `image` is what ResolveProxyImage
-- returns.
pub record Cluster : Type 0 where
  pub service : Services.Cluster
  pub namespace : String
  pub image : String
  -- spec.server.requestTimeoutSecs
  pub server_request_timeout_secs : ℤ
  pub logging_format : String
  pub proxy : ProxySpec

pub record Deployment : Type 0 where
  pub replicas : ℕ
  pub selector : Labels
  pub max_unavailable : ℕ
  pub max_surge : ℕ
  pub template : PodTemplate

unfoldable pub backend_service : Cluster → String
backend_service c =
    text_append (headless_service_name c.service.name)
      (text_append "." (text_append c.namespace ".svc.cluster.local"))

unfoldable pub hold_secs : ProxySpec → ℤ
hold_secs p = or_int p.hold_timeout_secs (pos 30)

unfoldable pub max_retries : ProxySpec → ℤ
max_retries p =
    if leb_ℤ (pos 0) p.max_retries && not (eqb_ℤ p.max_retries (pos 0))
    then p.max_retries
    else pos 2

unfoldable pub grace_secs : ProxySpec → ℤ
grace_secs p = or_int p.shutdown_grace_secs (pos 30)

unfoldable pub request_timeout : Cluster → ℤ
request_timeout c =
    or_int c.proxy.request_timeout_secs (or_int c.server_request_timeout_secs (pos 60))

-- The sum of two int32 that are not negative, of which `b` is small.
unfoldable pub add_int32 : ℤ → ℕ → ℤ
add_int32 (pos a) b = if ltb (a + b) (2 ^ 31) then pos (a + b) else negsuc (2 ^ 32 - 1 - (a + b))
add_int32 (negsuc a) b = if ltb a b then pos (b - a - 1) else negsuc (a - b)

abbrev pub when : Bool → Env → Env
when b env = if b then env else []

unfoldable pub proxy_env : Cluster → Env
unfolding proxy_port proxy_admin_port backend_service hold_secs max_retries grace_secs
    request_timeout
proxy_env c =
    ("HYPERBYTEDB_PROXY_LISTEN", listen (pos (proxy_port c.service)))
    ∷ ("HYPERBYTEDB_PROXY_BACKEND_SERVICE", text (backend_service c))
    ∷ ("HYPERBYTEDB_PROXY_BACKEND_PORT", number (pos c.service.port))
    ∷ ("HYPERBYTEDB_PROXY_HEALTH_PATH", text (or_text c.proxy.health_path "/health"))
    ∷ ("HYPERBYTEDB_PROXY_HOLD_TIMEOUT_SECS", number (hold_secs c.proxy))
    ∷ ("HYPERBYTEDB_PROXY_MAX_RETRIES", number (max_retries c.proxy))
    ∷ ("HYPERBYTEDB_PROXY_SHUTDOWN_GRACE_SECS", number (grace_secs c.proxy))
    ∷ ("HYPERBYTEDB_PROXY_REQUEST_TIMEOUT_SECS", number (request_timeout c))
    ∷ ("HYPERBYTEDB_PROXY_SELF_IP", field "status.podIP")
    ∷ (when (str_eq c.logging_format "json") (("LOG_FORMAT", text "json") ∷ [])
        ++ when c.service.admin_listener
            (("HYPERBYTEDB_PROXY_ADMIN_LISTEN", listen (pos (proxy_admin_port c.service))) ∷ []))

unfoldable pub proxy_probe : Cluster → String → ℕ → ℕ → Probe
unfolding proxy_probe_port
proxy_probe c path initial_delay period = record {
  path = path;
  port = proxy_probe_port c.service;
  https = false;
  initial_delay_seconds = initial_delay;
  period_seconds = period;
  timeout_seconds = 2;
  failure_threshold = 0;
}

abbrev signed : List (String × ℕ) → Ports
signed [] = []
signed ((name, p) ∷ ps) = (name, pos p) ∷ signed ps

unfoldable pub proxy_container : Cluster → Container
unfolding proxy_env proxy_probe proxy_container_ports
proxy_container c = record {
  name = "proxy";
  image = c.image;
  image_pull_policy = or_text c.proxy.image_pull_policy "IfNotPresent";
  command = [];
  env = proxy_env c;
  ports = signed (proxy_container_ports c.service);
  volume_mounts = [];
  startup_probe = none;
  liveness_probe = proxy_probe c "/healthz" 2 10;
  readiness_probe = proxy_probe c "/readyz" 1 2;
  resources = c.proxy.resources;
  pre_stop = none;
}

unfoldable pub build_proxy_deployment : Cluster → Deployment
unfolding proxy_container proxy_labels proxy_pod_labels grace_secs add_int32
build_proxy_deployment c = record {
  replicas = elim c.proxy.replicas [ none ↦ 2 | some n ↦ n ];
  selector = proxy_labels c.service;
  max_unavailable = 0;
  max_surge = 1;
  template = record {
    labels = proxy_pod_labels c.service;
    annotations = c.proxy.pod_annotations;
    termination_grace_period_seconds = add_int32 (grace_secs c.proxy) 10;
    image_pull_secrets = c.proxy.image_pull_secrets;
    init_containers = [];
    container = proxy_container c;
    volumes = [];
    tolerations = "";
    affinity = some (spread (proxy_labels c.service));
    topology_spread_constraints = "";
  };
}
