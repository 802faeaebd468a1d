-- ===== src/Webhook/Laws.antt =====
-- The two webhooks together, and what an accepted cluster satisfies.
use hyperbytedb_operator.Prelude.{
  ◌≡◌, refl, ◌≢◌, ◌↔◌, if◌then◌else◌, ◌⊎◌, String, false, Option, none, some, arith, eq_iff, str_eq,
}
use hyperbytedb_operator.Prelude.Int.{ℤ, pos, eqb_ℤ, ◌≤ℤ◌}
use hyperbytedb_operator.Failover.{FailoverSpec}
use hyperbytedb_operator.Webhook.{
  validate_port, validate_issuer, or_default, default_failover, ClusterSpec, TlsSpec,
  CertManagerIssuerRef, AutoscalingSpec, ShardingSpec, default_cluster, validate_cluster,
  validate_autoscaling, validate_failover, validate_tls, validate_sharding, warn, or_else,
}

validate_port-default :
    (port : ℤ) → validate_port (if eqb_ℤ port (pos 0) then pos 8086 else port) ≡ validate_port port
unfolding validate_port
validate_port-default port = ground arith

validate_failover-default :
    (f : Option FailoverSpec)
    → validate_failover (some (or_else f default_failover)) ≡ validate_failover f
unfolding validate_failover
validate_failover-default none = refl
validate_failover-default (some f) = refl

-- Defaulting changes neither the warnings nor the error of the validation: a cluster is accepted
-- after it exactly if it was before.
pub validate_cluster-default_cluster :
    (c : ClusterSpec) → validate_cluster (default_cluster c) ≡ validate_cluster c
unfolding validate_cluster default_cluster
validate_cluster-default_cluster c =
    cc (validate_port-default c.port, validate_failover-default c.failover)

or_default_idem :
    (s d : String) → str_eq d "" ≡ false → or_default (or_default s d) d ≡ or_default s d
or_default_idem s d e = ground arith

-- Defaulting twice is defaulting once.
pub default_cluster_idem :
    (c : ClusterSpec) → default_cluster (default_cluster c) ≡ default_cluster c
unfolding default_cluster
default_cluster_idem c = ground (
  arith,
  or_default_idem c.log_level "info" refl,
  or_default_idem c.log_format "text" refl,
  or_default_idem c.retention_interval "60s" refl,
)

-- What the validation asks of each part.
abbrev AutoscalingOk : Option AutoscalingSpec → Type 0
AutoscalingOk none = Unit
AutoscalingOk (some a) =
    (a.enabled ≡ false) ⊎ ((pos 1 ≤ℤ a.max_replicas) × (a.min_replicas ≤ℤ a.max_replicas))

abbrev FailoverOk : Option FailoverSpec → Type 0
FailoverOk none = Unit
FailoverOk (some f) =
    (f.enabled ≡ false)
    ⊎ (((f.failover_timeout_secs ≤ℤ pos 0) ⊎ (pos 60 ≤ℤ f.failover_timeout_secs))
        × (pos 1 ≤ℤ f.max_failover_count))

abbrev IssuerOk : Option CertManagerIssuerRef → Type 0
IssuerOk none = Unit
IssuerOk (some r) = (r.name ≢ "") × ((r.kind ≡ "Issuer") ⊎ (r.kind ≡ "ClusterIssuer"))

abbrev TlsOk : Option TlsSpec → Type 0
TlsOk none = Unit
TlsOk (some t) = (t.enabled ≡ false) ⊎ IssuerOk t.cert_manager_issuer_ref

-- a < b, where both are set
abbrev Below : ℤ → ℤ → Type 0
Below a b = (a ≤ℤ pos 0) ⊎ (b ≤ℤ pos 0) ⊎ (¬ (b ≤ℤ a))

abbrev ShardingOk : Option ShardingSpec → Type 0
ShardingOk none = Unit
ShardingOk (some s) =
    Below s.region_merge_series s.region_split_series
    × Below s.region_split_series s.region_max_series

pub record IsAcceptable (c : ClusterSpec) : Type 0 where
  pub replicas : pos 1 ≤ℤ or_else c.replicas (pos 1)
  pub port : (c.port ≡ pos 0) ⊎ ((pos 1 ≤ℤ c.port) × (c.port ≤ℤ pos 65535))
  pub autoscaling : AutoscalingOk c.autoscaling
  pub failover : FailoverOk c.failover
  pub tls : TlsOk c.tls
  pub sharding : ShardingOk c.sharding

autoscaling_iff : (a : Option AutoscalingSpec) → (validate_autoscaling a ≡ none) ↔ AutoscalingOk a
unfolding validate_autoscaling
autoscaling_iff none = ((λ _. tt), (λ _. refl))
autoscaling_iff (some a) = ground arith

failover_iff : (f : Option FailoverSpec) → (validate_failover f ≡ none) ↔ FailoverOk f
unfolding validate_failover
failover_iff none = ((λ _. tt), (λ _. refl))
failover_iff (some f) = ground arith

sharding_iff : (s : Option ShardingSpec) → (validate_sharding s ≡ none) ↔ ShardingOk s
unfolding validate_sharding
sharding_iff none = ((λ _. tt), (λ _. refl))
sharding_iff (some s) = ground arith

tls_iff : (t : Option TlsSpec) → (validate_tls t ≡ none) ↔ TlsOk t
unfolding validate_tls
tls_iff none = ((λ _. tt), (λ _. refl))
tls_iff (some t) =
    elim t.cert_manager_issuer_ref
      as (λ r.
        ((if t.enabled then validate_issuer r else none) ≡ none)
        ↔ ((t.enabled ≡ false) ⊎ IssuerOk r)) [
          | none ↦ ground arith
          | some r ↦
              ground
                (arith, eq_iff r.name "", eq_iff r.kind "Issuer", eq_iff r.kind "ClusterIssuer")
        ]

port_iff : (p : ℤ) → (validate_port p ≡ none) ↔ ((p ≡ pos 0) ⊎ ((pos 1 ≤ℤ p) × (p ≤ℤ pos 65535)))
unfolding validate_port
port_iff p = ground arith

-- A cluster is accepted, with or without a warning, exactly if every part of it is in order.
pub validate_cluster_iff : (c : ClusterSpec) → ((validate_cluster c).error ≡ none) ↔ IsAcceptable c
unfolding validate_cluster warn
validate_cluster_iff c = (
  (λ h. ground (
    arith,
    port_iff c.port,
    autoscaling_iff c.autoscaling,
    failover_iff c.failover,
    tls_iff c.tls,
    sharding_iff c.sharding,
  )),
  (λ h. ground (
    arith,
    h,
    port_iff c.port,
    autoscaling_iff c.autoscaling,
    failover_iff c.failover,
    tls_iff c.tls,
    sharding_iff c.sharding,
  )),
)
