-- ===== src/Rolling/Handlers.antt =====
-- The phases of a rolling restart: rollingRestartExcluding, rollingRestartDraining,
-- rollingRestartRelease and rollingRestartWaitingReady, with releaseOrdinal and the calls to the
-- proxies, of internal/controller/hyperbytedbcluster_controller.go. A test `time.Since(t) < d` is
-- written `now < t + d`, which is the same on the integers and does not subtract.
use hyperbytedb_operator.Prelude.{
  ℕ, ◌+◌, ◌-◌, ◌*◌, String, Bool, true, false, not, ◌&&◌, ◌||◌, List, [], ◌∷◌, Option, none, some,
  str_eq, ltb, leb, if◌then◌else◌, Result, ok, err, is_not_found, pure, throw, lift, ◌>>=◌, ◌>>◌,
}
use hyperbytedb_operator.Kube.{Pod, second, is_pod_ready, proxy_running}
use hyperbytedb_operator.Rolling.State.{
  Phase, excluding, draining, waiting_ready, completed, RollingRestartState, World, Step, Requeue,
  requeue_3s, Call, exclude, include, patch_partition, call, store_status, set_state,
  proxy_call_timeout, pod_restart_allowance,
}

-- The partition that a phase asks for.
unfoldable pub partition_at : Phase → ℕ → ℕ
partition_at completed ordinal = 0
partition_at waiting_ready ordinal = ordinal
partition_at _ ordinal = ordinal + 1

-- rolloutPartition
unfoldable pub rollout_partition : Option RollingRestartState → ℕ → ℕ
unfolding partition_at
rollout_partition none replicas = replicas
rollout_partition (some s) replicas = partition_at s.phase s.current_ordinal

-- Whether the StatefulSet's partition is set and not above the ordinal.
unfoldable pub already_released : Option (Option ℕ) → ℕ → Bool
already_released (some (some partition)) ordinal = leb partition ordinal
already_released _ ordinal = false

module _ (w : World) where
  unfoldable pub release_ordinal : ℕ → Step (Unit {0})
  unfolding already_released
  release_ordinal ordinal = do
    sts ← lift (w.get_sts_again)
    if already_released sts.rolling_update ordinal
        then pure tt
        else call w (patch_partition ordinal)

  -- The loop of forEachRunningProxy: it stops at the first error.
  unfoldable pub send_each : (String → Call) → List Pod → Step (Unit {0})
  unfolding proxy_running
  send_each send [] = pure tt
  send_each send (pod ∷ pods) =
      let rest = send_each send pods in
      if proxy_running pod then call w (send pod.ip) >> rest else rest

  unfoldable pub for_each_running_proxy : (String → Call) → Step (Unit {0})
  for_each_running_proxy send = do pods ← lift (w.list_proxies); send_each send pods

  unfoldable pub exclude_from_all_proxies : String → Step (Unit {0})
  exclude_from_all_proxies backend = for_each_running_proxy (λ proxy. exclude proxy backend)

  unfoldable pub include_from_all_proxies : String → Step (Unit {0})
  include_from_all_proxies backend = for_each_running_proxy (λ proxy. include proxy backend)

  abbrev pub enter : RollingRestartState → Phase → RollingRestartState
  enter s phase = record s { phase = phase; phase_started_at = w.now }

  unfoldable pub rolling_restart_release : RollingRestartState → Step Requeue
  rolling_restart_release s = do
    release_ordinal s.current_ordinal
    set_state (enter s waiting_ready)
    store_status w
    pure requeue_3s

  -- What follows the exclude: `sent` is its outcome.
  unfoldable pub after_exclude : RollingRestartState → Result (Unit {0}) → Step Requeue
  after_exclude s (ok _) = do
    set_state (enter (record s { exclude_confirmed = true }) draining)
    store_status w
    pure requeue_3s
  after_exclude s (err _) =
      if ltb w.now (s.phase_started_at + proxy_call_timeout)
      then pure requeue_3s
      else (do set_state (enter s draining); store_status w; pure requeue_3s)

  -- A call whose error is handled.
  abbrev pub try_call : Step (Unit {0}) → Step (Result (Unit {0}))
  try_call m p = let (r, p') = m p in (ok r, p')

  unfoldable pub exclude_pod : RollingRestartState → String → Step Requeue
  unfolding after_exclude
  exclude_pod s pod_ip = do
    set_state (record s { old_pod_ip = pod_ip })
    sent ← try_call (exclude_from_all_proxies pod_ip)
    after_exclude (record s { old_pod_ip = pod_ip }) sent

  unfoldable pub excluding_found : RollingRestartState → String → Result Pod → Step Requeue
  excluding_found s update_revision (err e) =
      if is_not_found e then rolling_restart_release s else throw e
  excluding_found s update_revision (ok pod) =
      if not (str_eq update_revision "") && str_eq pod.revision update_revision
      then rolling_restart_release s
      else if str_eq pod.ip ""
      then pure requeue_3s
      else exclude_pod s pod.ip

  unfoldable pub rolling_restart_excluding : RollingRestartState → String → Step Requeue
  unfolding excluding_found
  rolling_restart_excluding s update_revision =
      excluding_found s update_revision (w.get_pod s.current_ordinal)

  -- A drain wait of zero means ten seconds.
  abbrev pub drain_wait : ℕ
  drain_wait =
      if leb (w.drain_wait_secs * second) 0 then 10 * second else w.drain_wait_secs * second

  unfoldable pub rolling_restart_draining : RollingRestartState → Step Requeue
  rolling_restart_draining s =
      if ltb w.now (s.phase_started_at + drain_wait)
      then pure (some (s.phase_started_at + drain_wait + second - w.now))
      else rolling_restart_release s

  -- The pod is back: on to the next ordinal, or done after ordinal 0.
  unfoldable pub next_ordinal : RollingRestartState → Step Requeue
  next_ordinal s =
      if leb s.current_ordinal 0
      then (do set_state (enter s completed); store_status w; pure requeue_3s)
      else (do
        set_state (record s {
          current_ordinal = s.current_ordinal - 1;
          phase = excluding;
          phase_started_at = w.now;
          old_pod_ip = "";
          exclude_confirmed = false;
        })
        store_status w
        pure requeue_3s)

  unfoldable pub after_include : RollingRestartState → Result (Unit {0}) → Step Requeue
  after_include s (ok _) = next_ordinal s
  after_include s (err _) =
      if ltb w.now (s.phase_started_at + (proxy_call_timeout + pod_restart_allowance))
      then pure requeue_3s
      else next_ordinal s

  unfoldable pub waiting_found : RollingRestartState → String → Result Pod → Step Requeue
  waiting_found s update_revision (err e) = if is_not_found e then pure requeue_3s else throw e
  waiting_found s update_revision (ok pod) =
      if not (str_eq update_revision "") && not (str_eq pod.revision update_revision)
      then pure requeue_3s
      else if not (is_pod_ready pod) || pod.deleting
      then pure requeue_3s
      else if str_eq pod.ip ""
      then pure requeue_3s
      else (do sent ← try_call (include_from_all_proxies pod.ip); after_include s sent)

  unfoldable pub rolling_restart_waiting_ready : RollingRestartState → String → Step Requeue
  unfolding waiting_found
  rolling_restart_waiting_ready s update_revision =
      waiting_found s update_revision (w.get_pod s.current_ordinal)
