-- ===== src/Webhook/Samples.antt =====
-- A small cluster, with nothing set but its replicas and its failover.
use hyperbytedb_operator.Prelude.{◌≡◌, ◌↔◌, none, some, true}
use hyperbytedb_operator.Prelude.Int.{pos}
use hyperbytedb_operator.Webhook.{ClusterSpec, default_cluster, validate_cluster}
use hyperbytedb_operator.Webhook.Laws.{
  IsAcceptable, validate_cluster-default_cluster, validate_cluster_iff,
}

abbrev cluster : ClusterSpec
cluster = record {
  replicas = some (pos 2);
  port = pos 0;
  tls = none;
  volume_size = none;
  log_level = "";
  log_format = "";
  sharding = none;
  retention_interval = "";
  autoscaling = none;
  failover =
      some (record { enabled = true; max_failover_count = pos 1; failover_timeout_secs = pos 30 });
  proxy_enabled = none;
}

validate_cluster-default_cluster_example :
    validate_cluster (default_cluster cluster) ≡ validate_cluster cluster
validate_cluster-default_cluster_example = validate_cluster-default_cluster cluster

validate_cluster_iff_example : ((validate_cluster cluster).error ≡ none) ↔ IsAcceptable cluster
validate_cluster_iff_example = validate_cluster_iff cluster
