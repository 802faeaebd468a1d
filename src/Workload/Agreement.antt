-- ===== src/Workload/Agreement.antt =====
-- How the pods fit together: the stop of a database pod with its grace period, and the proxies with
-- their Service and with the database.
use Prim.Native.String.{◌++◌ as text_append}
use hyperbytedb_operator.Prelude.{
  ℕ, zero, suc, ◌+◌, ◌^◌, ◌≤◌, ◌<◌, ◌≡◌, refl, sym, ap, ◌∙◌, String, Bool, true, [], ◌∷◌, Option,
  none, some, str_eq, if◌then◌else◌, Bool-cases, inl, inr, arith,
}
use hyperbytedb_operator.Prelude.Int.{ℤ, pos, negsuc, pos_part}
use hyperbytedb_operator.Config.{server_port, or_int}
use hyperbytedb_operator.Config.Render.{cluster_metadata_enabled}
use hyperbytedb_operator.Services.{
  build_proxy_service, proxy_admin_port, proxy_container_ports, proxy_port, proxy_probe_port,
}
use hyperbytedb_operator.Workload.{EnvValue, Env, text, number, listen, PreStop}
use hyperbytedb_operator.Workload.Database
use hyperbytedb_operator.Workload.Database.{
  cluster_pre_stop, container_ports, main_container, drain_ack_wait_secs,
}
use hyperbytedb_operator.Workload.Template.{build_stateful_set, pod_template}
use hyperbytedb_operator.Workload.Proxies
use hyperbytedb_operator.Workload.Proxies.{
  ProxySpec, add_int32, backend_service, build_proxy_deployment, grace_secs, hold_secs, max_retries,
  request_timeout, proxy_container, proxy_env, proxy_probe,
}
use hyperbytedb_operator.Workload.Hook.{await_leaving, run_pre_stop, slept}
use hyperbytedb_operator.Workload.Laws.{port_of}

await_leaving-le :
    (s : PreStop) (leaving : ℕ → Bool) (rounds i : ℕ)
    → slept (await_leaving s leaving rounds i) ≤ rounds
unfolding await_leaving slept
await_leaving-le s leaving zero i = omega arith
await_leaving-le s leaving (suc rounds) i =
    ground (arith, await_leaving-le s leaving rounds (i + 1))

await_leaving-ends :
    (s : PreStop) (leaving : ℕ → Bool) (rounds i k : ℕ)
    → k < rounds
    → leaving (i + k) ≡ true
    → slept (await_leaving s leaving rounds i) ≤ k
unfolding await_leaving slept
await_leaving-ends s leaving zero i k h e = absurd (omega (arith, h))
await_leaving-ends s leaving (suc rounds) i zero h e =
    let same : i ≡ i + 0 = omega arith in rw (ap leaving same ∙ e) (omega arith)
await_leaving-ends s leaving (suc rounds) i (suc k) h e =
    let same : i + 1 + k ≡ i + suc k = omega arith in
    let e' : leaving (i + 1 + k) ≡ true = ap leaving same ∙ e in
    ground (arith, await_leaving-ends s leaving rounds (i + 1) k (omega (arith, h)) e')

abbrev wait_of : Option PreStop → ℕ
wait_of none = 90
wait_of (some s) = s.wait_secs

wait_secs-of :
    (c : Database.Cluster) (hash : String) (s : PreStop)
    → (build_stateful_set c hash).template.container.pre_stop ≡ some s
    → s.wait_secs ≡ 90
unfolding build_stateful_set pod_template main_container cluster_pre_stop
wait_secs-of c hash s e =
    sym (ap wait_of e) ∙ elim (Bool-cases (cluster_metadata_enabled c.config)) [
      | inl b ↦ simp (b) refl
      | inr b ↦ simp (b) refl
    ]

-- The stop of a pod that drains first leaves time before the kubelet kills it: the hook sleeps for at
-- least ten seconds less than the grace period of the pod, and for at most `k` seconds if the node
-- reports in a round `k + 1` that it is leaving.
pub run_pre_stop-slept :
    (c : Database.Cluster) (hash : String) (s : PreStop) (leaving : ℕ → Bool)
    → (build_stateful_set c hash).template.container.pre_stop ≡ some s
    → (slept (run_pre_stop s leaving) + 10
        ≤ pos_part (build_stateful_set c hash).template.termination_grace_period_seconds)
      × ((k : ℕ) → k < 90 → leaving (1 + k) ≡ true → slept (run_pre_stop s leaving) ≤ k)
unfolding build_stateful_set pod_template run_pre_stop slept
run_pre_stop-slept c hash s leaving e =
    let w = wait_secs-of c hash s e in
    (
      omega (arith, w, await_leaving-le s leaving s.wait_secs 1),
      λ k h l. await_leaving-ends s leaving s.wait_secs 1 k (omega (arith, w, h)) l,
    )

abbrev pub env_of : String → Env → Option EnvValue
env_of name [] = none
env_of name ((n, v) ∷ e) = if str_eq n name then some v else env_of name e

-- The proxies and the database of one cluster, as the two builders see it.
pub record Fits (d : Database.Cluster) (p : Proxies.Cluster) : Type 0 where
  pub name : p.service.name ≡ d.service.name
  pub namespace : p.namespace ≡ d.namespace
  pub port : pos p.service.port ≡ server_port d.config.server

-- The proxies find the database and are found: they look for their backends under the name that the
-- StatefulSet gives to its pods, at the port that the database's container has; they listen at the port
-- that their Service and their container have under one name; and they are probed at a port of their
-- container, where they listen too: their admin listener, if they have one.
pub build_proxy_deployment-Agrees :
    (d : Database.Cluster) (p : Proxies.Cluster) (hash : String)
    → Fits d p
    → let sts = build_stateful_set d hash in
      let container = (build_proxy_deployment p).template.container in
      (env_of "HYPERBYTEDB_PROXY_BACKEND_SERVICE" container.env
        ≡ some (
            text (
              text_append sts.service_name
                (text_append "." (text_append d.namespace ".svc.cluster.local")))))
      × ((n : ℤ) × (env_of "HYPERBYTEDB_PROXY_BACKEND_PORT" container.env ≡ some (number n))
          × (port_of "http" sts.template.container.ports ≡ some n))
      × ((n : ℕ) × (env_of "HYPERBYTEDB_PROXY_LISTEN" container.env ≡ some (listen (pos n)))
          × (port_of "http" container.ports ≡ some (pos n))
          × ((build_proxy_service p.service).ports ≡ ("http", n) ∷ []))
      × (port_of container.liveness_probe.port container.ports
          ≡ some (pos (proxy_admin_port p.service)))
      × (container.readiness_probe.port ≡ container.liveness_probe.port)
      × (p.service.admin_listener ≡ true
          → env_of "HYPERBYTEDB_PROXY_ADMIN_LISTEN" container.env
            ≡ some (listen (pos (proxy_admin_port p.service))))
unfolding build_stateful_set build_proxy_deployment proxy_container proxy_env backend_service
    pod_template main_container container_ports build_proxy_service proxy_container_ports
    proxy_probe_port proxy_admin_port proxy_probe
build_proxy_deployment-Agrees d p hash f = (
  simp (f.name, f.namespace) refl,
  (server_port d.config.server, simp (f.port) refl, refl),
  (proxy_port p.service, refl, refl, refl),
  elim (Bool-cases p.service.admin_listener) [ inl b ↦ simp (b) refl | inr b ↦ simp (b) refl ],
  refl,
  λ b. elim (Bool-cases (str_eq p.logging_format "json")) [
    | inl j ↦ simp (b, j) refl
    | inr j ↦ simp (b, j) refl
  ],
)

abbrev pub IsPositive : ℤ → Type 0
IsPositive n = (m : ℕ) × (n ≡ pos (suc m))

or_int-IsPositive : (n d : ℤ) → IsPositive d → IsPositive (or_int n d)
or_int-IsPositive (pos zero) d h = h
or_int-IsPositive (pos (suc m)) d h = (m, ground arith)
or_int-IsPositive (negsuc m) d h = ground (arith, h)

-- The value of a setting of the proxy is a number above 0.
abbrev pub SetsPositive : String → Env → Type 0
SetsPositive name env = (n : ℤ) × (env_of name env ≡ some (number n)) × IsPositive n

add_int32-small : (a b : ℕ) → a + b < 2 ^ 31 → add_int32 (pos a) b ≡ pos (a + b)
unfolding add_int32
add_int32-small a b h = ground (arith, h)

-- The request timeout of the proxies and the time in which they let requests end are numbers above 0 in
-- their environment, also where the specs of the proxies and of the server leave them out; and the
-- kubelet leaves the proxies ten seconds more than the latter, while that sum is below 2^31.
pub build_proxy_deployment-IsPositive :
    (c : Proxies.Cluster)
    → let template = (build_proxy_deployment c).template in
      SetsPositive "HYPERBYTEDB_PROXY_REQUEST_TIMEOUT_SECS" template.container.env
      × ((n : ℕ) × (env_of "HYPERBYTEDB_PROXY_SHUTDOWN_GRACE_SECS" template.container.env
            ≡ some (number (pos (suc n))))
          × (suc n + 10 < 2 ^ 31 → template.termination_grace_period_seconds ≡ pos (suc n + 10)))
unfolding build_proxy_deployment proxy_container proxy_env request_timeout grace_secs add_int32
build_proxy_deployment-IsPositive c =
    let (n, g) = or_int-IsPositive c.proxy.shutdown_grace_secs (pos 30) (29, refl) in
    (
      (
        _,
        refl,
        or_int-IsPositive c.proxy.request_timeout_secs _
            (or_int-IsPositive c.server_request_timeout_secs (pos 60) (59, refl)),
      ),
      (
        n,
        ap (λ v. some (number v)) g,
        λ h. ap (λ v. add_int32 v 10) g ∙ add_int32-small (suc n) 10 h,
      ),
    )
