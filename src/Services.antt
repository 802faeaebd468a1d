-- ===== src/Services.antt =====
-- The Services of a cluster and the labels of its pods: internal/hyperbytedb/labels.go,
-- internal/hyperbytedb/service.go, and the labels, the ports and the Service of
-- internal/hyperbytedb/proxy.go and internal/hyperbytedb/statefulset.go. A map is an association list
-- in which the first pair of a key counts. The target of a port, which is the container port of its
-- name, is left out.
mod Laws
pub mod Monitor
pub mod Samples
use hyperbytedb_operator.Prelude.{
  ℕ, suc, String, Bool, true, false, not, ◌&&◌, List, [], ◌∷◌, ◌++◌, Option, none, some, str_eq,
  ◌==◌, if◌then◌else◌,
}
use hyperbytedb_operator.Prelude.Int.{ℤ, pos, pos_part, ltb_ℤ}
use hyperbytedb_operator.Resources.{Service}
use hyperbytedb_operator.Resources.Proxy.{lookup}

abbrev pub Labels : Type 0
Labels = List (String × String)

-- spec.proxy, where it is set
pub record ProxySpec : Type 0 where
  pub enabled : Bool
  pub port : ℕ
  pub service_type : String
  pub node_port : ℤ
  pub pod_labels : Labels

-- The fields of a cluster; `port` is ServerPort, and `admin_listener` is ProxySupports of the proxy's
-- admin listener.
pub record Cluster : Type 0 where
  pub name : String
  pub port : ℕ
  pub pod_labels : Labels
  pub proxy : Option ProxySpec
  pub admin_listener : Bool

unfoldable pub common_labels : Cluster → Labels
common_labels c =
    ("app.kubernetes.io/name", "hyperbytedb")
    ∷ ("app.kubernetes.io/instance", c.name)
    ∷ ("app.kubernetes.io/managed-by", "hyperbytedb-operator")
    ∷ []

unfoldable pub proxy_labels : Cluster → Labels
proxy_labels c =
    ("app.kubernetes.io/name", "hyperbytedb-proxy")
    ∷ ("app.kubernetes.io/instance", c.name)
    ∷ ("app.kubernetes.io/managed-by", "hyperbytedb-operator")
    ∷ ("app.kubernetes.io/component", "proxy")
    ∷ []

-- ProxyEnabled
unfoldable pub proxy_enabled : Option ProxySpec → Bool
proxy_enabled none = true
proxy_enabled (some p) = p.enabled

unfoldable pub proxy_port : Cluster → ℕ
proxy_port c = elim c.proxy [ none ↦ c.port | some p ↦ if p.port == 0 then c.port else p.port ]

abbrev pub proxy_admin_listen_port : ℕ
proxy_admin_listen_port = 8087

unfoldable pub proxy_admin_port : Cluster → ℕ
unfolding proxy_port
proxy_admin_port c =
    if not c.admin_listener
    then proxy_port c
    else if proxy_port c == proxy_admin_listen_port
    then suc proxy_admin_listen_port
    else proxy_admin_listen_port

-- BuildHeadlessService has no type: its ClusterIP is None.
unfoldable pub build_headless_service : Cluster → Service
unfolding common_labels
build_headless_service c = record {
  type = "";
  labels = common_labels c;
  ports = ("http", c.port) ∷ [];
  node_port = pos 0;
  selector = common_labels c;
}

unfoldable pub build_client_service : Cluster → Service
unfolding common_labels
build_client_service c = record {
  type = "ClusterIP";
  labels = common_labels c;
  ports = ("http", c.port) ∷ [];
  node_port = pos 0;
  selector = common_labels c;
}

unfoldable pub service_type : Option ProxySpec → String
service_type none = "ClusterIP"
service_type (some p) = if str_eq p.service_type "" then "ClusterIP" else p.service_type

-- The node port that a user asks for counts for that type only.
unfoldable pub node_port : String → Option ProxySpec → ℤ
node_port type none = pos 0
node_port type (some p) =
    if str_eq type "NodePort" && ltb_ℤ (pos 0) p.node_port then p.node_port else pos 0

unfoldable pub build_proxy_service : Cluster → Service
unfolding proxy_labels proxy_port service_type node_port
build_proxy_service c = record {
  type = service_type c.proxy;
  labels = proxy_labels c;
  ports = ("http", proxy_port c) ∷ [];
  node_port = node_port (service_type c.proxy) c.proxy;
  selector = proxy_labels c;
}

-- The labels of the pods of BuildStatefulSet and of BuildProxyDeployment: the user's come last.
unfoldable pub database_pod_labels : Cluster → Labels
unfolding common_labels
database_pod_labels c = c.pod_labels ++ common_labels c

abbrev pub user_labels : Option ProxySpec → Labels
user_labels none = []
user_labels (some p) = p.pod_labels

unfoldable pub proxy_pod_labels : Cluster → Labels
unfolding proxy_labels
proxy_pod_labels c = user_labels c.proxy ++ proxy_labels c

-- The ports of the proxy container, and the name of the one that its probes use.
unfoldable pub proxy_container_ports : Cluster → List (String × ℕ)
unfolding proxy_port proxy_admin_port
proxy_container_ports c =
    ("http", proxy_port c) ∷ (if c.admin_listener then ("admin", proxy_admin_port c) ∷ [] else [])

unfoldable pub proxy_probe_port : Cluster → String
proxy_probe_port c = if c.admin_listener then "admin" else "http"
