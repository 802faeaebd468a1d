-- ===== src/Services/Monitor.antt =====
-- The ServiceMonitor, internal/hyperbytedb/servicemonitor.go, and what Prometheus scrapes for it.
use text.Mathlib.TextPositions.{eq_refl}
use hyperbytedb_operator.Prelude.{
  ℕ, suc, String, not, is_none, ◌+◌, ◌&&◌, ◌≡◌, refl, List, [], ◌∷◌, if◌then◌else◌,
}
use hyperbytedb_operator.Resources.{Service}
use hyperbytedb_operator.Services.{
  Labels, Cluster, common_labels, proxy_labels, build_headless_service, build_client_service,
  build_proxy_service, database_pod_labels, proxy_pod_labels,
}
use hyperbytedb_operator.Services.Laws.{
  selects, port_of, KeepsLabels, database_name, database_instance, database_manager, proxy_name,
}

pub record Endpoint : Type 0 where
  pub port : String
  pub path : String
  pub interval : String

-- The namespace that it is for is that of the cluster.
pub record ServiceMonitor : Type 0 where
  pub labels : Labels
  pub match_labels : Labels
  pub endpoints : List Endpoint

unfoldable pub build_service_monitor : Cluster → ServiceMonitor
unfolding common_labels
build_service_monitor c = record {
  labels = common_labels c;
  match_labels = common_labels c;
  endpoints = record { port = "http"; path = "/metrics"; interval = "15s" } ∷ [];
}

-- The targets that a pod is of the endpoint: one for each Service that the ServiceMonitor matches, that
-- has the port and that selects the pod.
abbrev targets : ServiceMonitor → Endpoint → List Service → Labels → ℕ
targets m e [] pod = 0
targets m e (s ∷ services) pod =
    let rest = targets m e services pod in
    if selects m.match_labels s.labels
      && not (is_none (port_of e.port s.ports))
      && selects s.selector pod
    then suc rest
    else rest

abbrev scrapes : ServiceMonitor → List Endpoint → List Service → Labels → ℕ
scrapes m [] services pod = 0
scrapes m (e ∷ endpoints) services pod = targets m e services pod + scrapes m endpoints services pod

abbrev services : Cluster → List Service
services c = build_headless_service c ∷ build_client_service c ∷ build_proxy_service c ∷ []

-- Where no label of a user overrides one of the operator's, a database pod is a target twice, by way of
-- the headless Service and of the client Service, and a proxy pod never.
build_service_monitor-scrapes :
    (c : Cluster)
    → KeepsLabels c
    → let m = build_service_monitor c in
      (scrapes m m.endpoints (services c) (database_pod_labels c) ≡ 2)
      × (scrapes m m.endpoints (services c) (proxy_pod_labels c) ≡ 0)
unfolding build_service_monitor build_headless_service build_client_service build_proxy_service
    common_labels proxy_labels
build_service_monitor-scrapes c k = (
  rw (eq_refl c.name, database_name c k, database_instance c k, database_manager c k)
      (rw (eq_refl c.name) refl),
  rw (eq_refl c.name, proxy_name c k) refl,
)
