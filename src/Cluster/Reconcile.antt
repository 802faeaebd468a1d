-- ===== src/Cluster/Reconcile.antt =====
-- Reconcile, from its end to its start.
use hyperbytedb_operator.Prelude.{
  ℕ, Bool, true, false, not, [], ◌∷◌, Option, none, some, ltb, ◌==◌, if◌then◌else◌, Failure, Result,
  ok, err, is_not_found, is_conflict,
}
use hyperbytedb_operator.Prelude.Int.{pos}
use hyperbytedb_operator.Resources.{
  reconcile_tls, reconcile_auth_secret, reconcile_config_map, cleanup_legacy_peers_config_map,
  reconcile_service, reconcile_service_monitor, reconcile_pdb, reconcile_hpa,
}
use hyperbytedb_operator.Resources.Proxy.{reconcile_proxy}
use hyperbytedb_operator.ScaleDown.Hooks.{run_scale_down_cluster_hooks}
use hyperbytedb_operator.ScaleDown.Stuck.{delete_stuck_departed_pods}
use hyperbytedb_operator.Rolling.Coordinate.{reconcile_rolling_restart}
use hyperbytedb_operator.Rolling
use hyperbytedb_operator.Volumes.{cleanup_orphan_pvcs}
use hyperbytedb_operator.Cluster.State.{
  scaling, Cluster, World, Flow, update_cluster, tls, auth, config_map, legacy_peers, monitor,
  headless, client_service, proxy_service, pdb, hpa, proxy_deployment, hook, sts, delete_pod,
  rolling, delete_claim, done, fails, seconds, note, store, set_status, set_failed_status,
  update_phase, must, try,
}
use hyperbytedb_operator.Cluster.Apply.{StsReconcileResult, reconcile_stateful_set}
use hyperbytedb_operator.Cluster.Finish.{finish}

module _ (c : Cluster) (w : World) where
  -- Steps 8 to 11. Their errors are only logged.
  unfoldable pub keep_objects : ℕ → Flow → Flow
  keep_objects prev next =
      let last =
        try pdb (reconcile_pdb w.pdb (pos c.replicas))
          (try hpa (reconcile_hpa w.hpa c.autoscaling) next) in
      let watched =
        if c.service_monitor
        then try monitor (reconcile_service_monitor w.monitor c.monitor) last
        else last in
      if ltb c.replicas prev
      then try delete_claim (cleanup_orphan_pvcs w.claims prev c.replicas) watched
      else watched

  -- Step 7
  unfoldable pub after_rolling : ℕ → StsReconcileResult → Flow
  unfolding keep_objects finish update_phase
  after_rolling prev r p =
      if not (r.spec_replicas == c.replicas)
      then done (seconds 5) (update_phase scaling p)
      else keep_objects prev (finish c w r) p

  -- The result of step 6b. An error ends the pass, and so does a result that is not nil.
  unfoldable pub rolled : Result (Option ℕ) → Flow → Flow
  unfolding set_failed_status
  rolled (err e) next = set_failed_status "RollingRestartFailed" e
  rolled (ok (some wait)) next = done (some wait)
  rolled (ok none) next = next

  -- Step 6b: the restart reads and changes .status.rollingRestart.
  unfoldable pub roll : StsReconcileResult → Flow → Flow
  unfolding rolled
  roll r next p =
      let start : Rolling.State.Pass = record {
        status = p.status.rolling_restart;
        stored = p.status.rolling_restart;
        calls = [];
      } in
      let result : Rolling.State.StsResult = record {
        spec_replicas = r.spec_replicas;
        ready_replicas = r.ready_replicas;
      } in
      let (answer, after) = reconcile_rolling_restart w.rolling result c.replicas start in
      rolled answer next
        (note rolling after.calls (set_status (λ s. record s { rolling_restart = after.status }) p))

  -- Step 6a'. An error is only logged.
  unfoldable pub put_proxy : Flow → Flow
  put_proxy next p =
      let (services, deployments) =
        (reconcile_proxy w.proxy_service c.proxy_service w.proxy_deployment c.proxy_deployment
          ([], [])).1 in
      next (note proxy_deployment deployments (note proxy_service services p))

  -- Steps 6a to 6b.
  unfoldable pub after_sts : ℕ → StsReconcileResult → Flow
  unfolding after_rolling roll put_proxy
  after_sts prev r =
      if r.recreating
      then done (seconds 2)
      else must delete_pod "ScaleDownFailed"
          (delete_stuck_departed_pods w.stuck r.spec_replicas r.status_replicas)
          (λ _.
            if c.proxy_enabled
            then put_proxy (roll r (after_rolling prev r))
            else after_rolling prev r)

  -- The answer of step 6: a conflict is tried again.
  unfoldable pub applied : ℕ → Result StsReconcileResult → Flow
  unfolding after_sts set_failed_status
  applied prev (ok r) = after_sts prev r
  applied prev (err e) =
      if is_conflict e then done (seconds 1) else set_failed_status "StatefulSetFailed" e

  unfoldable pub apply : ℕ → Flow
  unfolding applied
  apply prev p =
      let (r, ops) = reconcile_stateful_set c w p.status.rolling_restart [] in
      applied prev r (note sts ops p)

  -- Step 5b: .spec.replicas is held while a departing node is not ready to go.
  unfoldable pub shrink : ℕ → Flow
  unfolding apply
  shrink prev p =
      let (released, calls) = run_scale_down_cluster_hooks w.hooks prev c.replicas in
      (if released then apply prev else done (seconds 10)) (note hook calls p)

  -- Steps 2 to 5.
  unfoldable pub configure : ℕ → Flow
  unfolding shrink set_failed_status
  configure prev =
      must config_map "ConfigMapFailed" (reconcile_config_map w.config_map w.same c.config) λ _.
        try legacy_peers (cleanup_legacy_peers_config_map w.legacy_peers) (
          must headless "HeadlessServiceFailed" (reconcile_service w.headless c.headless_service)
            λ _.
              must client_service "ClientServiceFailed"
                (reconcile_service w.client c.client_service) λ _. shrink prev)

  -- Steps 1 and 1b.
  unfoldable pub secure : ℕ → Flow
  unfolding configure set_failed_status
  secure prev = must tls "TLSFailed" (reconcile_tls w.tls w.built c.tls_spec) λ _.
      if c.auth_enabled
      then must auth "AuthSecretFailed" (reconcile_auth_secret w.auth w.draws) (λ _. configure prev)
      else configure prev

  -- The first read of the StatefulSet.
  unfoldable pub look_up : Result ℕ → Flow
  unfolding secure set_failed_status
  look_up (ok prev) = secure prev
  look_up (err e) =
      if is_not_found e then secure 0 else set_failed_status "StatefulSetLookupFailed" e

  unfoldable pub or_fail : Option Failure → Flow → Flow
  or_fail none next = next
  or_fail (some e) next = fails e

  -- r.Update of the cluster, whose answer is taken to leave the status in memory as it is.
  unfoldable pub write_cluster : Bool → Flow → Flow
  unfolding or_fail
  write_cluster finalizer next p =
      or_fail w.update_cluster next (note update_cluster (finalizer ∷ []) p)

  unfoldable pub maintain : Flow
  unfolding look_up write_cluster
  maintain =
      if c.deleting
      then (if c.has_finalizer then write_cluster false (done none) else done none)
      else if c.has_finalizer
      then look_up w.prev_replicas
      else write_cluster true (look_up w.prev_replicas)

  unfoldable pub begin : Flow
  unfolding maintain
  begin p =
      if c.paused
      then done none (store (set_status (λ s. record s { is_paused = true }) p))
      else maintain (set_status (λ s. record s { is_paused = false }) p)

  unfoldable pub found : Option Failure → Flow
  unfolding begin
  found none = begin
  found (some e) = if is_not_found e then done none else fails e

  unfoldable pub reconcile : Flow
  unfolding found
  reconcile = found w.get_cluster
