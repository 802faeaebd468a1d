-- ===== src/Cluster/Finish.antt =====
-- The end of a pass of Reconcile: the members, the failover and updateStatus, of
-- internal/controller/hyperbytedbcluster_controller.go.
use hyperbytedb_operator.Prelude.{
  String, Bool, false, not, ◌&&◌, some, str_eq, ltb, ◌==◌, if◌then◌else◌,
}
use hyperbytedb_operator.Members.{collect_member_statuses, derive_cluster_state}
use hyperbytedb_operator.Membership.{reconcile_cluster_membership}
use hyperbytedb_operator.Replication.{monitor_replication_health}
use hyperbytedb_operator.Failover.{handle_auto_failover}
use hyperbytedb_operator.Cluster.State.{
  Phase, running, scaling, upgrading, initializing, failed, Status, member, fail_over, Cluster,
  World, Pass, Flow, done, seconds, note, store, set_status,
}
use hyperbytedb_operator.Cluster.Apply.{StsReconcileResult}

-- The phase while not all replicas are ready.
unfoldable pub unready_phase : Bool → Phase → Phase
unready_phase rolling_upgrade failed = failed
unready_phase rolling_upgrade scaling = scaling
unready_phase rolling_upgrade _ = if rolling_upgrade then upgrading else initializing

unfoldable pub settled_status : Bool → StsReconcileResult → String → Status → Status
unfolding unready_phase
settled_status rolling_upgrade r config_hash s =
    let all_ready = (r.ready_replicas == r.spec_replicas) && ltb 0 r.spec_replicas in
    record s {
      replicas = r.spec_replicas;
      ready_replicas = r.ready_replicas;
      config_hash = config_hash;
      phase = if all_ready then running else unready_phase rolling_upgrade s.phase;
      available = some (record {
        status = all_ready;
        reason = if all_ready then "AllReplicasReady" else "ReplicasNotReady";
      });
    }

unfoldable pub update_status : World → StsReconcileResult → String → Pass → Pass
unfolding settled_status
update_status w r config_hash p =
    store (set_status (settled_status w.rolling_upgrade r config_hash) p)

module _ (c : Cluster) (w : World) where
  -- Step 12: the members, and the condition DatabaseVersion.
  unfoldable pub observe_members : Pass → Pass
  observe_members p =
      let members = collect_member_statuses w.members c.replicas in
      set_status
        (λ s. record s {
          members = members;
          cluster_state = derive_cluster_state members;
          database_version = some (record {
            status = not (str_eq c.version_reason "OlderThanSupported");
            reason = c.version_reason;
          });
        })
        p

  -- Step 13
  unfoldable pub form_cluster : Pass → Pass
  form_cluster p =
      let o = reconcile_cluster_membership w.membership c.replicas p.status.members in
      note member o.calls
        (set_status (λ s. record s { formed = some o.formed; members = o.members }) p)

  -- Step 14
  unfoldable pub compare_nodes : Pass → Pass
  compare_nodes p =
      let (state, members) = monitor_replication_health w.manifests c.replicas p.status.members in
      set_status (λ s. record s { replication_state = some state; members = members }) p

  -- Step 15, with the members of the status, whose slice it shares; an error is only logged.
  unfoldable pub replace_member : Pass → Pass
  replace_member p =
      let o =
        handle_auto_failover w.failover c.auto_failover p.status.failover_count p.status.members in
      note fail_over o.deleted (set_status (λ s. record s { failover_count = o.failover_count }) p)

  unfoldable pub reconciled : Pass → Pass
  reconciled p =
      set_status
        (λ s. record s { degraded = some (record { status = false; reason = "Reconciled" }) }) p

  -- Steps 12 to 14; the last two only where there are several nodes.
  unfoldable pub observed : Pass → Pass
  unfolding observe_members form_cluster compare_nodes
  observed p =
      let seen = observe_members p in
      if ltb 1 c.replicas then compare_nodes (form_cluster seen) else seen

  -- Steps 12 to 16.
  unfoldable pub finish : StsReconcileResult → Flow
  unfolding observed replace_member reconciled update_status
  finish r p =
      done (seconds 30) (update_status w r c.config_hash (reconciled (replace_member (observed p))))
