-- ===== src/Services/Laws.antt =====
-- Which pods the Services select, and that the ports fit together.
use text.Mathlib.TextPositions.{eq_refl}
use hyperbytedb_operator.Prelude.{
  ℕ, ◌≡◌, ◌≢◌, refl, ap, ◌∙◌, String, Bool, true, false, ◌&&◌, List, [], ◌∷◌, ◌++◌, Option, none,
  some, str_eq, if◌then◌else◌, Bool-cases, inl, inr, arith,
}
use hyperbytedb_operator.Resources.Proxy.{lookup}
use hyperbytedb_operator.Resources.Laws.{lookup-append, or_else}
use hyperbytedb_operator.Services.{
  Labels, Cluster, common_labels, proxy_labels, build_headless_service, build_proxy_service,
  database_pod_labels, proxy_pod_labels, user_labels, proxy_port, proxy_admin_port,
  proxy_container_ports, proxy_probe_port,
}

abbrev pub is_value : Option String → String → Bool
is_value none v = false
is_value (some w) v = str_eq w v

-- Whether a Service with the selector takes a pod with the labels.
abbrev pub selects : Labels → Labels → Bool
selects [] labels = true
selects ((k, v) ∷ s) labels = is_value (lookup k labels) v && selects s labels

-- No label of a user overrides one of the operator's.
pub record KeepsLabels (c : Cluster) : Type 0 where
  pub name : lookup "app.kubernetes.io/name" c.pod_labels ≡ none
  pub instance_name : lookup "app.kubernetes.io/instance" c.pod_labels ≡ none
  pub managed_by : lookup "app.kubernetes.io/managed-by" c.pod_labels ≡ none
  pub proxy_name : lookup "app.kubernetes.io/name" (user_labels c.proxy) ≡ none

kept :
    (k : String) (user own : Labels) → lookup k user ≡ none → lookup k (user ++ own) ≡ lookup k own
kept k user own h = lookup-append k user own ∙ ap (λ o. or_else o (lookup k own)) h

module _ (c : Cluster) (k : KeepsLabels c) where
  pub database_name : lookup "app.kubernetes.io/name" (database_pod_labels c) ≡ some "hyperbytedb"
  unfolding database_pod_labels common_labels
  database_name = kept "app.kubernetes.io/name" c.pod_labels (common_labels c) k.name

  pub database_instance : lookup "app.kubernetes.io/instance" (database_pod_labels c) ≡ some c.name
  unfolding database_pod_labels common_labels
  database_instance =
      kept "app.kubernetes.io/instance" c.pod_labels (common_labels c) k.instance_name

  pub database_manager :
      lookup "app.kubernetes.io/managed-by" (database_pod_labels c) ≡ some "hyperbytedb-operator"
  unfolding database_pod_labels common_labels
  database_manager = kept "app.kubernetes.io/managed-by" c.pod_labels (common_labels c) k.managed_by

  pub proxy_name : lookup "app.kubernetes.io/name" (proxy_pod_labels c) ≡ some "hyperbytedb-proxy"
  unfolding proxy_pod_labels proxy_labels
  proxy_name = kept "app.kubernetes.io/name" (user_labels c.proxy) (proxy_labels c) k.proxy_name

-- Where no label of a user overrides one of the operator's, the headless Service, by which the proxies
-- find their backends, selects every database pod, and it selects no proxy pod; and the Service of the
-- proxies selects no database pod.
pub build_headless_service-selects :
    (c : Cluster)
    → KeepsLabels c
    → (selects (build_headless_service c).selector (database_pod_labels c) ≡ true)
      × (selects (build_headless_service c).selector (proxy_pod_labels c) ≡ false)
      × (selects (build_proxy_service c).selector (database_pod_labels c) ≡ false)
unfolding build_headless_service build_proxy_service common_labels proxy_labels
build_headless_service-selects c k = (
  rw (database_name c k, database_instance c k, database_manager c k) (rw (eq_refl c.name) refl),
  rw (proxy_name c k) refl,
  rw (database_name c k) refl,
)

abbrev pub port_of : String → List (String × ℕ) → Option ℕ
port_of name [] = none
port_of name ((n, p) ∷ ps) = if str_eq n name then some p else port_of name ps

-- The port that the proxy's probes name is a port of its container, the admin port; and with a
-- listener of its own that is not the port of the clients.
proxy_probe_port_lem :
    (c : Cluster)
    → (port_of (proxy_probe_port c) (proxy_container_ports c) ≡ some (proxy_admin_port c))
      × (c.admin_listener ≡ true → proxy_admin_port c ≢ proxy_port c)
unfolding proxy_probe_port proxy_container_ports proxy_admin_port
proxy_probe_port_lem c = elim (Bool-cases c.admin_listener) [
  | inl b ↦ (simp (b) refl, λ _. ground arith)
  | inr b ↦ (simp (b) refl, λ e. cc)
]
