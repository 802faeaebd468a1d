-- ===== src/Config/Spec.antt =====
-- The fields of a cluster's spec that config.toml is rendered from, of
-- api/v1alpha1/hyperbytedbcluster_types.go. An int field is 0 and a text "" where it is not set, and a
-- pointer is an `Option`.
use hyperbytedb_operator.Prelude.{ℕ, String, Bool, Option}
use hyperbytedb_operator.Prelude.Int.{ℤ}

pub record ServerSpec : Type 0 where
  pub port : ℤ
  pub max_body_size_bytes : ℤ
  pub request_timeout_secs : ℤ
  pub query_timeout_secs : ℤ
  pub max_concurrent_queries : ℤ
  -- TLS is set and enabled
  pub tls_enabled : Bool

pub record FlushSpec : Type 0 where
  pub interval_secs : ℤ
  pub max_points_per_batch : ℤ
  pub wal_batch_size : ℤ
  pub wal_batch_delay_us : ℤ
  pub arrow_wal_enabled : Option Bool

pub record ChdbSpec : Type 0 where
  pub session_data_path : String
  pub pool_size : ℤ
  pub query_pool_size : ℤ
  pub write_pool_size : ℤ

pub record LimitsSpec : Type 0 where
  -- spec.cardinality
  pub max_tag_values_per_measurement : ℤ
  pub max_measurements_per_database : ℤ
  -- spec.statementSummary
  pub summary_enabled : Option Bool
  pub summary_max_entries : ℤ
  -- spec.hintedHandoff
  pub handoff_enabled : Option Bool
  pub max_hints_per_peer : ℤ
  pub max_hint_age_secs : ℤ
  -- spec.rateLimit
  pub rate_enabled : Option Bool
  pub max_requests_per_second : ℤ
  -- spec.retention
  pub retention_enabled : Option Bool
  pub retention_interval : String

-- intstr.IntOrString
pub data IntOrString : Type 0 where
  int : ℤ → IntOrString
  string : String → IntOrString

pub record ReplicationSpec : Type 0 where
  pub mode : String
  pub ack_timeout_ms : ℤ
  -- SyncQuorum is set, and so is its MinAcks
  pub min_acks : Option IntOrString

pub record ClusterModeSpec : Type 0 where
  pub heartbeat_interval_secs : ℤ
  pub heartbeat_miss_threshold : ℤ
  pub replication_max_retries : ℤ
  pub replication_queue_depth : ℤ
  pub replication_max_inflight_batches : ℤ
  pub replication_max_coalesce_body_bytes : ℤ
  pub replicate_receiver_queue_depth : ℤ
  pub replication_truncate_stale_peer_multiplier : ℤ
  pub raft_heartbeat_interval_ms : ℤ
  pub raft_election_timeout_ms : ℤ
  pub raft_snapshot_threshold : ℤ
  pub replication : Option ReplicationSpec

pub record ShardingSpec : Type 0 where
  pub enabled : Bool
  pub replication_factor : ℤ
  pub region_split_series : ℤ
  pub region_max_series : ℤ
  pub region_merge_series : ℤ
  pub split_merge_interval_secs : ℤ
  pub schedule_limit : ℤ
  pub heartbeat_interval_secs : ℤ
  pub bootstrap_timeout_ms : ℤ
  pub primary_failover_after_secs : ℤ
  pub add_peer_proposals_enabled : Option Bool
  pub remove_peer_proposals_enabled : Option Bool
  pub scatter_peer_timeout_ms : ℤ
  pub scatter_max_peer_attempts : ℤ
  pub load_split_qps_threshold : Option ℤ
  pub max_regions_per_measurement : ℤ

pub record ConfigSpec : Type 0 where
  -- .spec.replicas, or 1
  pub replicas : ℕ
  pub server : ServerSpec
  pub wal_format : String
  pub flush : FlushSpec
  pub chdb : ChdbSpec
  pub auth_enabled : Bool
  pub logging_level : String
  pub logging_format : String
  pub limits : LimitsSpec
  pub cluster : ClusterModeSpec
  pub sharding : Option ShardingSpec
  -- whether the control-listener annotation is "true"
  pub control_listener : Bool
  -- Supports, of the capabilities that the file depends on
  pub split_chdb_pools : Bool
  pub auto_query_pool : Bool
  pub supports_sharding : Bool
  pub supports_control_listener : Bool
