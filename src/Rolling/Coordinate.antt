-- ===== src/Rolling/Coordinate.antt =====
-- reconcileRollingRestart with tryClearCompletedRollingRestart and ensureRollingRestartState, of
-- internal/controller/hyperbytedbcluster_controller.go.
use hyperbytedb_operator.Prelude.{
  ℕ, ◌-◌, String, Bool, true, false, not, ◌&&◌, Option, none, some, str_eq, ◌==◌, if◌then◌else◌,
  is_none, pure, lift, gets, modify, ◌>>=◌, ◌>>◌,
}
use hyperbytedb_operator.Kube.{StatefulSet}
use hyperbytedb_operator.Rolling.State.{
  Phase, excluding, draining, waiting_ready, including, completed, RollingRestartState, StsResult,
  World, Step, Requeue, requeue_3s, store_status, set_state,
}
use hyperbytedb_operator.Rolling.Handlers.{
  rolling_restart_excluding, rolling_restart_draining, rolling_restart_waiting_ready,
}

unfoldable pub rolling_upgrade : StatefulSet → Bool
rolling_upgrade sts =
    not (str_eq sts.update_revision "") && not (str_eq sts.update_revision sts.current_revision)

is_completed : Phase → Bool
is_completed completed = true
is_completed _ = false

is_excluding : Phase → Bool
is_excluding excluding = true
is_excluding _ = false

-- A completed restart with every pod ready and updated.
unfoldable pub clearable : Option RollingRestartState → StsResult → StatefulSet → Bool
unfolding is_completed
clearable none result sts = false
clearable (some s) result sts =
    is_completed s.phase
    && (result.ready_replicas == result.spec_replicas
        && sts.ready_replicas == sts.replicas
        && sts.updated_replicas == sts.replicas)

-- A restart that has excluded nothing yet, where no update is pending.
unfoldable pub abandoned : Option RollingRestartState → StatefulSet → Bool
unfolding is_excluding rolling_upgrade
abandoned none sts = false
abandoned (some s) sts =
    not (rolling_upgrade sts) && is_excluding s.phase && not s.exclude_confirmed

unfoldable pub initial_state : ℕ → ℕ → RollingRestartState
initial_state now replicas = record {
  current_ordinal = replicas - 1;
  total_ordinals = replicas;
  phase = excluding;
  phase_started_at = now;
  old_pod_ip = "";
  exclude_confirmed = false;
}

module _ (w : World) where
  unfoldable pub clear_status : Step (Unit {0})
  clear_status = do modify (λ p. record p { status = none }); store_status w

  unfoldable pub try_clear_completed_rolling_restart : StsResult → StatefulSet → Step Bool
  unfolding clearable
  try_clear_completed_rolling_restart result sts = do
    status ← gets (λ p. p.status)
    if clearable status result sts then clear_status >> pure true else pure false

  -- The second test of the source for a nil state cannot succeed after the first.
  unfoldable pub ensure_state : Option RollingRestartState → ℕ → Step RollingRestartState
  unfolding initial_state
  ensure_state (some s) replicas = pure s
  ensure_state none replicas = do
    set_state (initial_state w.now replicas)
    store_status w
    pure (initial_state w.now replicas)

  unfoldable pub ensure_rolling_restart_state : ℕ → Step RollingRestartState
  unfolding ensure_state
  ensure_rolling_restart_state replicas = do
    status ← gets (λ p. p.status)
    ensure_state status replicas

  -- The `switch state.Phase`.
  unfoldable pub run_phase : Phase → RollingRestartState → String → Step Requeue
  run_phase excluding s update_revision = rolling_restart_excluding w s update_revision
  run_phase draining s update_revision = rolling_restart_draining w s
  run_phase waiting_ready s update_revision = rolling_restart_waiting_ready w s update_revision
  run_phase completed s update_revision = pure requeue_3s
  run_phase including s update_revision = pure none

  unfoldable pub coordinate : StatefulSet → ℕ → Step Requeue
  unfolding run_phase
  coordinate sts replicas = do
    s ← ensure_rolling_restart_state replicas
    run_phase s.phase s sts.update_revision

  unfoldable pub clear_or_coordinate : StatefulSet → ℕ → Step Requeue
  unfolding abandoned coordinate
  clear_or_coordinate sts replicas = do
    status ← gets (λ p. p.status)
    if abandoned status sts then clear_status >> pure none else coordinate sts replicas

  unfoldable pub after_clear : StatefulSet → ℕ → Bool → Step Requeue
  after_clear sts replicas true = pure none
  after_clear sts replicas false = clear_or_coordinate sts replicas

  unfoldable pub after_read :
      StsResult → ℕ → Option RollingRestartState → StatefulSet → Step Requeue
  unfolding after_clear
  after_read result replicas status sts =
      if not (rolling_upgrade sts) && is_none status
      then pure none
      else (try_clear_completed_rolling_restart result sts >>= after_clear sts replicas)

  unfoldable pub reconcile_rolling_restart : StsResult → ℕ → Step Requeue
  unfolding after_read
  reconcile_rolling_restart result replicas = do
    sts ← lift (w.get_sts)
    status ← gets (λ p. p.status)
    after_read result replicas status sts
