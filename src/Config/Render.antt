-- ===== src/Config/Render.antt =====
-- The sections of config.toml on the cluster and on sharding, the whole file, and ConfigHash, of
-- internal/hyperbytedb/configmap.go. The digest itself is a parameter.
use hyperbytedb_operator.Prelude.{
  String, Bool, false, ◌||◌, List, [], ◌∷◌, ◌++◌, Option, none, some, ltb, if◌then◌else◌,
}
use hyperbytedb_operator.Prelude.Int.{ℤ, pos}
use hyperbytedb_operator.Config.Spec.{
  IntOrString, int, string, ReplicationSpec, ClusterModeSpec, ShardingSpec, ConfigSpec,
}
use hyperbytedb_operator.Config.{
  Value, num, text, flag, Section, Lines, line, or_int, or_text, if_positive, if_flag, section,
  control_port, control_listener_enabled, server_section, storage_section, flush_section,
  chdb_section, auth_section, cardinality_section, logging_section, statement_summary_section,
  hinted_handoff_section, rate_limit_section, retention_section,
}

abbrev pub sharding_is_enabled : Option ShardingSpec → Bool
sharding_is_enabled none = false
sharding_is_enabled (some s) = s.enabled

unfoldable pub cluster_metadata_enabled : ConfigSpec → Bool
cluster_metadata_enabled s = ltb 1 s.replicas || sharding_is_enabled s.sharding

unfoldable pub tuning_lines : ClusterModeSpec → Lines
tuning_lines s =
    ("heartbeat_interval_secs", num (or_int s.heartbeat_interval_secs (pos 2)))
    ∷ ("heartbeat_miss_threshold", num (or_int s.heartbeat_miss_threshold (pos 5)))
    ∷ ("replication_max_retries", num (or_int s.replication_max_retries (pos 5)))
    ∷ ("replication_queue_depth", num (or_int s.replication_queue_depth (pos 8192)))
    ∷ ("replication_max_inflight_batches", num (or_int s.replication_max_inflight_batches (pos 8)))
    ∷ (
      "replication_max_coalesce_body_bytes",
      num (or_int s.replication_max_coalesce_body_bytes (pos 8388608)),
    )
    ∷ ("replicate_receiver_queue_depth", num (or_int s.replicate_receiver_queue_depth (pos 1024)))
    ∷ (
      "replication_truncate_stale_peer_multiplier",
      num (or_int s.replication_truncate_stale_peer_multiplier (pos 2)),
    )
    ∷ (if_positive "raft_heartbeat_interval_ms" s.raft_heartbeat_interval_ms
        ++ (if_positive "raft_election_timeout_ms" s.raft_election_timeout_ms
            ++ if_positive "raft_snapshot_threshold" s.raft_snapshot_threshold))

unfoldable pub cluster_section : ConfigSpec → Bool → Section
unfolding control_port control_listener_enabled tuning_lines
cluster_section s cluster_enabled = section "cluster" (
    ("enabled", flag cluster_enabled)
    ∷ ("peers", text "")
    ∷ ("replication_log_dir", text "/var/lib/hyperbytedb/replication_log")
    ∷ ("raft_dir", text "/var/lib/hyperbytedb/raft")
    ∷ ((if control_listener_enabled s cluster_enabled
          then line "control_port" (num (control_port s.server))
          else [])
        ++ tuning_lines s.cluster))

unfoldable pub min_acks_value : IntOrString → Value
min_acks_value (int n) = num n
min_acks_value (string s) = text s

unfoldable pub sync_quorum_section : Option IntOrString → List Section
unfolding min_acks_value
sync_quorum_section none = []
sync_quorum_section (some acks) =
    section "cluster.replication.sync_quorum" (line "min_acks" (min_acks_value acks)) ∷ []

unfoldable pub replication_sections : Option ReplicationSpec → List Section
unfolding sync_quorum_section
replication_sections none = []
replication_sections (some r) =
    section "cluster.replication"
      (("mode", text (or_text r.mode "async")) ∷ if_positive "ack_timeout_ms" r.ack_timeout_ms)
    ∷ sync_quorum_section r.min_acks

abbrev pub if_num : String → Option ℤ → Lines
if_num key none = []
if_num key (some n) = line key (num n)

unfoldable pub sharding_lines : ShardingSpec → Lines
sharding_lines s =
    ("enabled", flag s.enabled)
    ∷ (if_positive "replication_factor" s.replication_factor
        ++ (if_positive "region_split_series" s.region_split_series
            ++ (if_positive "region_max_series" s.region_max_series
                ++ (if_positive "region_merge_series" s.region_merge_series
                    ++ (if_positive "split_merge_interval_secs" s.split_merge_interval_secs
                        ++ (if_positive "schedule_limit" s.schedule_limit
                            ++ (if_positive "heartbeat_interval_secs" s.heartbeat_interval_secs
                                ++ (if_positive "bootstrap_timeout_ms" s.bootstrap_timeout_ms
                                    ++ (if_positive "primary_failover_after_secs"
                                          s.primary_failover_after_secs
                                        ++ (if_flag "add_peer_proposals_enabled"
                                              s.add_peer_proposals_enabled
                                            ++ (if_flag "remove_peer_proposals_enabled"
                                                  s.remove_peer_proposals_enabled
                                                ++ (if_positive "scatter_peer_timeout_ms"
                                                      s.scatter_peer_timeout_ms
                                                    ++ (if_positive "scatter_max_peer_attempts"
                                                          s.scatter_max_peer_attempts
                                                        ++ (if_num "load_split_qps_threshold"
                                                            s.load_split_qps_threshold
                                                            ++ if_positive
                                                            "max_regions_per_measurement"
                                                            s.max_regions_per_measurement))))))))))))))

unfoldable pub sharding_section : Bool → Option ShardingSpec → List Section
unfolding sharding_lines
sharding_section supported none = []
sharding_section supported (some s) =
    if supported then section "sharding" (sharding_lines s) ∷ [] else []

-- renderConfigTOMLWithClusterEnabled: what it writes, before a section and its lines are printed.
unfoldable pub render_with_cluster_enabled : ConfigSpec → Bool → List Section
unfolding server_section storage_section flush_section chdb_section auth_section cardinality_section
    logging_section statement_summary_section hinted_handoff_section rate_limit_section
    retention_section cluster_section replication_sections sharding_section
render_with_cluster_enabled s cluster_enabled =
    server_section s.server
    ∷ storage_section s
    ∷ flush_section s.flush
    ∷ chdb_section s
    ∷ auth_section s
    ∷ cardinality_section s.limits
    ∷ logging_section s
    ∷ statement_summary_section s.limits
    ∷ hinted_handoff_section s.limits
    ∷ (rate_limit_section s.limits
        ++ (retention_section s.limits
            ∷ cluster_section s cluster_enabled
            ∷ (replication_sections s.cluster.replication
                ++ sharding_section s.supports_sharding s.sharding)))

unfoldable pub render_config : ConfigSpec → List Section
unfolding render_with_cluster_enabled cluster_metadata_enabled
render_config s = render_with_cluster_enabled s (cluster_metadata_enabled s)

-- ConfigHash, where `digest` stands for the printing, SHA-256 and the first 8 bytes in hexadecimal.
unfoldable pub config_hash : (digest : List Section → String) → ConfigSpec → String
unfolding render_with_cluster_enabled
config_hash digest s = digest (render_with_cluster_enabled s false)
