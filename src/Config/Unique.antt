-- ===== src/Config/Unique.antt =====
-- The keys of the sections of config.toml on the cluster, and of all sections.
use hyperbytedb_operator.Prelude.{
  refl, String, Bool, true, false, ◌&&◌, is_none, List, [], ◌∷◌, ◌++◌, Option, none, some,
  Bool-cases, inl, inr, All, All-append,
}
use hyperbytedb_operator.Prelude.Int.{pos, eqb_ℤ}
use hyperbytedb_operator.Config.Spec.{
  LimitsSpec, IntOrString, ReplicationSpec, ClusterModeSpec, ShardingSpec, ConfigSpec,
}
use hyperbytedb_operator.Config.{
  Section, num, text, or_text, if_flag, if_positive, rate_limit_section, control_listener_enabled,
  control_port,
}
use hyperbytedb_operator.Config.Render.{
  tuning_lines, cluster_section, sync_quorum_section, replication_sections, sharding_lines,
  sharding_section, render_with_cluster_enabled,
}
use hyperbytedb_operator.Config.Distinct.{
  Draws, take, IsNamed, Draws-IsNamed, line_key, draw-if_positive, draw-if_line, draw-if_flag,
  draw-if_num, draw-last_positive,
}
use hyperbytedb_operator.Config.Keys.{
  HasDistinctKeys, by_keys, server-HasDistinctKeys, storage-HasDistinctKeys, flush-HasDistinctKeys,
  chdb-HasDistinctKeys, auth-HasDistinctKeys, cardinality-HasDistinctKeys, logging-HasDistinctKeys,
  statement_summary-HasDistinctKeys, hinted_handoff-HasDistinctKeys, retention-HasDistinctKeys,
}

abbrev tuning_keys : List String
tuning_keys =
    "heartbeat_interval_secs" ∷ "heartbeat_miss_threshold" ∷ "replication_max_retries"
    ∷ "replication_queue_depth" ∷ "replication_max_inflight_batches"
    ∷ "replication_max_coalesce_body_bytes" ∷ "replicate_receiver_queue_depth"
    ∷ "replication_truncate_stale_peer_multiplier" ∷ "raft_heartbeat_interval_ms"
    ∷ "raft_election_timeout_ms" ∷ "raft_snapshot_threshold" ∷ []

tuning-Draws : (s : ClusterModeSpec) → Draws line_key tuning_keys (tuning_lines s)
unfolding tuning_lines
tuning-Draws s = take refl (
    take refl (
      take refl (
        take refl (
          take refl (
            take refl (
              take refl (
                take refl (
                  draw-if_positive "raft_heartbeat_interval_ms"
                    (draw-if_positive "raft_election_timeout_ms"
                      (draw-last_positive "raft_snapshot_threshold" s.raft_snapshot_threshold)
                      s.raft_election_timeout_ms)
                    s.raft_heartbeat_interval_ms))))))))

cluster-HasDistinctKeys :
    (s : ConfigSpec) (cluster_enabled : Bool) → HasDistinctKeys (cluster_section s cluster_enabled)
unfolding cluster_section
cluster-HasDistinctKeys s cluster_enabled =
    by_keys
      ("enabled" ∷ "peers" ∷ "replication_log_dir" ∷ "raft_dir" ∷ "control_port" ∷ tuning_keys)
      (cluster_section s cluster_enabled)
      (take refl (
        take refl (
          take refl (
            take refl (
              draw-if_line "control_port" (tuning-Draws s.cluster)
                (control_listener_enabled s cluster_enabled) (num (control_port s.server)))))))
      refl

sharding-HasDistinctKeys : (s : ShardingSpec) → IsNamed line_key (sharding_lines s)
unfolding sharding_lines
sharding-HasDistinctKeys s =
    Draws-IsNamed line_key
      {ns = "enabled" ∷ "replication_factor" ∷ "region_split_series" ∷ "region_max_series"
        ∷ "region_merge_series" ∷ "split_merge_interval_secs" ∷ "schedule_limit"
        ∷ "heartbeat_interval_secs" ∷ "bootstrap_timeout_ms" ∷ "primary_failover_after_secs"
        ∷ "add_peer_proposals_enabled" ∷ "remove_peer_proposals_enabled" ∷ "scatter_peer_timeout_ms"
        ∷ "scatter_max_peer_attempts" ∷ "load_split_qps_threshold" ∷ "max_regions_per_measurement"
        ∷ []}
      {xs = sharding_lines s}
      (take refl (
        draw-if_positive "replication_factor"
          (draw-if_positive "region_split_series"
            (draw-if_positive "region_max_series"
              (draw-if_positive "region_merge_series"
                (draw-if_positive "split_merge_interval_secs"
                  (draw-if_positive "schedule_limit"
                    (draw-if_positive "heartbeat_interval_secs"
                      (draw-if_positive "bootstrap_timeout_ms"
                        (draw-if_positive "primary_failover_after_secs"
                          (draw-if_flag "add_peer_proposals_enabled"
                            (draw-if_flag "remove_peer_proposals_enabled"
                              (draw-if_positive "scatter_peer_timeout_ms"
                                (draw-if_positive "scatter_max_peer_attempts"
                                  (draw-if_num "load_split_qps_threshold"
                                    (draw-last_positive "max_regions_per_measurement"
                                      s.max_regions_per_measurement)
                                    s.load_split_qps_threshold)
                                  s.scatter_max_peer_attempts)
                                s.scatter_peer_timeout_ms)
                              s.remove_peer_proposals_enabled)
                            s.add_peer_proposals_enabled)
                          s.primary_failover_after_secs)
                        s.bootstrap_timeout_ms)
                      s.heartbeat_interval_secs)
                    s.schedule_limit)
                  s.split_merge_interval_secs)
                s.region_merge_series)
              s.region_max_series)
            s.region_split_series)
          s.replication_factor))
      refl

abbrev AllDistinct : List Section → Type 0
AllDistinct ss = All HasDistinctKeys ss

rate_limit-AllDistinct : (s : LimitsSpec) → AllDistinct (rate_limit_section s)
unfolding rate_limit_section
rate_limit-AllDistinct s =
    elim (Bool-cases (is_none s.rate_enabled && eqb_ℤ s.max_requests_per_second (pos 0))) [
      | inl b ↦ rw b tt
      | inr b ↦ rw b (
        Draws-IsNamed line_key {ns = "enabled" ∷ "max_requests_per_second" ∷ []}
            {xs = if_flag "enabled" s.rate_enabled
              ++ if_positive "max_requests_per_second" s.max_requests_per_second}
            (draw-if_flag "enabled"
              (draw-last_positive "max_requests_per_second" s.max_requests_per_second)
              s.rate_enabled)
            refl,
        tt,
      )
    ]

sync_quorum-AllDistinct : (o : Option IntOrString) → AllDistinct (sync_quorum_section o)
unfolding sync_quorum_section
sync_quorum-AllDistinct none = tt
sync_quorum-AllDistinct (some acks) = (((tt, tt), (refl, tt)), tt)

replication-AllDistinct : (o : Option ReplicationSpec) → AllDistinct (replication_sections o)
unfolding replication_sections
replication-AllDistinct none = tt
replication-AllDistinct (some r) = (
  Draws-IsNamed line_key {ns = "mode" ∷ "ack_timeout_ms" ∷ []}
      {xs = ("mode", text (or_text r.mode "async")) ∷ if_positive "ack_timeout_ms" r.ack_timeout_ms}
      (take refl (draw-last_positive "ack_timeout_ms" r.ack_timeout_ms)) refl,
  sync_quorum-AllDistinct r.min_acks,
)

sharding-AllDistinct :
    (supported : Bool) (o : Option ShardingSpec) → AllDistinct (sharding_section supported o)
unfolding sharding_section
sharding-AllDistinct supported none = tt
sharding-AllDistinct true (some s) = (sharding-HasDistinctKeys s, tt)
sharding-AllDistinct false (some s) = tt

pub render-AllDistinct :
    (s : ConfigSpec) (cluster_enabled : Bool)
    → AllDistinct (render_with_cluster_enabled s cluster_enabled)
unfolding render_with_cluster_enabled
render-AllDistinct s cluster_enabled = (
  server-HasDistinctKeys s.server,
  (
    storage-HasDistinctKeys s,
    (
      flush-HasDistinctKeys s.flush,
      (
        chdb-HasDistinctKeys s,
        (
          auth-HasDistinctKeys s,
          (
            cardinality-HasDistinctKeys s.limits,
            (
              logging-HasDistinctKeys s,
              (
                statement_summary-HasDistinctKeys s.limits,
                (
                  hinted_handoff-HasDistinctKeys s.limits,
                  All-append HasDistinctKeys (rate_limit_section s.limits) _
                      (rate_limit-AllDistinct s.limits)
                      (
                        retention-HasDistinctKeys s.limits,
                        (
                          cluster-HasDistinctKeys s cluster_enabled,
                          All-append HasDistinctKeys (replication_sections s.cluster.replication) _
                              (replication-AllDistinct s.cluster.replication)
                              (sharding-AllDistinct s.supports_sharding s.sharding),
                        ),
                      ),
                ),
              ),
            ),
          ),
        ),
      ),
    ),
  ),
)
