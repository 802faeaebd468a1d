-- ===== src/Webhook.antt =====
-- The defaulting and validating webhook of api/v1alpha1/hyperbytedbcluster_webhook.go, over the
-- fields of HyperbytedbClusterSpec (api/v1alpha1/hyperbytedbcluster_types.go) that it reads or
-- writes. int32 and int64 fields are integers; the storage size is a number of bytes.
mod Laws
mod Samples
use hyperbytedb_operator.Prelude.{
  ℕ, ◌*◌, ◌^◌, String, Bool, true, false, not, ◌&&◌, ◌||◌, List, [], ◌∷◌, Option, none, some,
  str_eq, if◌then◌else◌,
}
use hyperbytedb_operator.Prelude.Int.{ℤ, pos, ltb_ℤ, leb_ℤ, eqb_ℤ}
use hyperbytedb_operator.Failover.{FailoverSpec}

pub record CertManagerIssuerRef : Type 0 where
  pub name : String
  pub kind : String

pub record TlsSpec : Type 0 where
  pub enabled : Bool
  pub secret_name : String
  pub cert_manager_issuer_ref : Option CertManagerIssuerRef

pub record AutoscalingSpec : Type 0 where
  pub enabled : Bool
  pub min_replicas : ℤ
  pub max_replicas : ℤ

pub record ShardingSpec : Type 0 where
  pub region_split_series : ℤ
  pub region_max_series : ℤ
  pub region_merge_series : ℤ

pub record ClusterSpec : Type 0 where
  pub replicas : Option ℤ
  pub port : ℤ
  pub tls : Option TlsSpec
  pub volume_size : Option ℕ
  pub log_level : String
  pub log_format : String
  pub sharding : Option ShardingSpec
  pub retention_interval : String
  pub autoscaling : Option AutoscalingSpec
  pub failover : Option FailoverSpec
  -- spec.proxy, and its Enabled
  pub proxy_enabled : Option Bool

abbrev pub or_else {ℓ} : {A : Type ℓ} → Option A → A → A
or_else none d = d
or_else (some a) d = a

abbrev pub or_default : String → String → String
or_default s d = if str_eq s "" then d else s

-- resource.MustParse("10Gi")
abbrev default_size : ℕ
default_size = 10 * 2 ^ 30

abbrev pub default_failover : FailoverSpec
default_failover = record {
  enabled = true;
  max_failover_count = pos 1;
  failover_timeout_secs = pos 300;
}

-- Default
unfoldable pub default_cluster : ClusterSpec → ClusterSpec
default_cluster c = record c {
  replicas = some (or_else c.replicas (pos 1));
  port = if eqb_ℤ c.port (pos 0) then pos 8086 else c.port;
  volume_size = some (or_else c.volume_size default_size);
  log_level = or_default c.log_level "info";
  log_format = or_default c.log_format "text";
  failover = some (or_else c.failover default_failover);
  retention_interval = or_default c.retention_interval "60s";
  proxy_enabled = some (or_else c.proxy_enabled true);
}

pub data Invalid : Type 0 where
  replicas_below_one server_port autoscaling_max autoscaling_min_above_max : Invalid
  failover_timeout failover_count issuer_name issuer_kind : Invalid
  merge_not_below_split split_not_below_max : Invalid

-- The warnings, and the error if any.
pub record Verdict : Type 0 where
  pub warnings : List String
  pub error : Option Invalid

unfoldable pub validate_sharding : Option ShardingSpec → Option Invalid
validate_sharding none = none
validate_sharding (some s) =
    if ltb_ℤ (pos 0) s.region_merge_series
      && ltb_ℤ (pos 0) s.region_split_series
      && leb_ℤ s.region_split_series s.region_merge_series
    then some merge_not_below_split
    else if ltb_ℤ (pos 0) s.region_split_series
        && ltb_ℤ (pos 0) s.region_max_series
        && leb_ℤ s.region_max_series s.region_split_series
    then some split_not_below_max
    else none

unfoldable pub validate_autoscaling : Option AutoscalingSpec → Option Invalid
validate_autoscaling none = none
validate_autoscaling (some a) =
    if not a.enabled
    then none
    else if ltb_ℤ a.max_replicas (pos 1)
    then some autoscaling_max
    else if ltb_ℤ a.max_replicas a.min_replicas
    then some autoscaling_min_above_max
    else none

unfoldable pub validate_failover : Option FailoverSpec → Option Invalid
validate_failover none = none
validate_failover (some f) =
    if not f.enabled
    then none
    else if ltb_ℤ (pos 0) f.failover_timeout_secs && ltb_ℤ f.failover_timeout_secs (pos 60)
    then some failover_timeout
    else if ltb_ℤ f.max_failover_count (pos 1)
    then some failover_count
    else none

validate_issuer : Option CertManagerIssuerRef → Option Invalid
validate_issuer none = none
validate_issuer (some ref) =
    if str_eq ref.name ""
    then some issuer_name
    else if not (str_eq ref.kind "Issuer") && not (str_eq ref.kind "ClusterIssuer")
    then some issuer_kind
    else none

unfoldable pub validate_tls : Option TlsSpec → Option Invalid
unfolding validate_issuer
validate_tls none = none
validate_tls (some t) = if t.enabled then validate_issuer t.cert_manager_issuer_ref else none

unfoldable pub validate_port : ℤ → Option Invalid
validate_port port =
    if not (eqb_ℤ port (pos 0)) && (ltb_ℤ port (pos 1) || ltb_ℤ (pos 65535) port)
    then some server_port
    else none

-- the first error of two checks in order
abbrev pub first : Option Invalid → Option Invalid → Option Invalid
first (some e) later = some e
first none later = later

abbrev two_node_warning : String
two_node_warning = "2-node clusters cannot tolerate any node failure; consider 3+ replicas"

-- The checks before the warning return no warnings; the sharding check returns them.
unfoldable pub warn : ℤ → Option Invalid → Option Invalid → Verdict
warn replicas (some e) sharding = record { warnings = []; error = some e }
warn replicas none sharding = record {
  warnings = if eqb_ℤ replicas (pos 2) then two_node_warning ∷ [] else [];
  error = sharding;
}

unfoldable pub validate_cluster : ClusterSpec → Verdict
validate_cluster c =
    let replicas = or_else c.replicas (pos 1) in
    warn replicas
      (first (if ltb_ℤ replicas (pos 1) then some replicas_below_one else none) (
        first (validate_port c.port) (
          first (validate_autoscaling c.autoscaling)
            (first (validate_failover c.failover) (validate_tls c.tls)))))
      (validate_sharding c.sharding)
