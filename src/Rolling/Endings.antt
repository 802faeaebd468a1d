-- ===== src/Rolling/Endings.antt =====
-- A rolling restart of the last of three pods that ends, with one pass in which the pod is not yet back.
use hyperbytedb_operator.Prelude.{
  ℕ, ◌*◌, ◌≡◌, refl, [], ◌∷◌, List, none, some, true, false, ok, Any, arith,
}
use hyperbytedb_operator.Kube.{Pod, StatefulSet, second, is_pod_ready}
use hyperbytedb_operator.Rolling.State.{completed, draining, RollingRestartState, store_status}
use hyperbytedb_operator.Rolling.Coordinate.{
  reconcile_rolling_restart, rolling_upgrade, try_clear_completed_rolling_restart,
  clear_or_coordinate, ensure_rolling_restart_state, clear_status,
}
use hyperbytedb_operator.Rolling.Handlers.{
  rolling_restart_draining, rolling_restart_release, release_ordinal, rolling_restart_waiting_ready,
  include_from_all_proxies, for_each_running_proxy, send_each, after_include, next_ordinal,
}
use hyperbytedb_operator.Rolling.Advance.{Obeys, drained, back, settled}
use hyperbytedb_operator.Rolling.Order.{SawBack, drive-SawBack}
use hyperbytedb_operator.Rolling.Ends.{
  Input, next_stored, drive, Favoured, over, other, counts, drive-ends,
}

abbrev sts_at : ℕ → StatefulSet
sts_at updated = record {
  update_revision = "new";
  current_revision = "old";
  replicas = 3;
  ready_replicas = 3;
  updated_replicas = updated;
  rolling_update = some (some 1);
}

abbrev pod_at : Pod
pod_at = record {
  name = "db-0";
  ip = "10.0.0.1";
  deleting = false;
  revision = "new";
  conditions = (record { type = "Ready"; status = "True" }) ∷ [];
  containers = [];
}

-- At so many seconds, with so many pods updated and the pod ready or not.
abbrev input_at : ℕ → ℕ → Pod → Input
input_at secs updated pod = record {
  world = record {
    now = secs * second;
    drain_wait_secs = 30;
    get_sts = ok (sts_at updated);
    get_sts_again = ok (sts_at updated);
    get_pod = λ i. ok pod;
    list_proxies = ok [];
    answer = λ c. none;
  };
  result = record { spec_replicas = 3; ready_replicas = 3 };
  replicas = 3;
}

abbrev last_draining : RollingRestartState
last_draining = record {
  current_ordinal = 0;
  total_ordinals = 3;
  phase = draining;
  phase_started_at = 60 * second;
  old_pod_ip = "10.0.0.1";
  exclude_confirmed = true;
}

abbrev passes : List Input
passes =
    input_at 100 2 pod_at
    ∷ input_at 110 2 (record pod_at { conditions = [] })
    ∷ input_at 900 3 pod_at
    ∷ input_at 910 3 pod_at
    ∷ []

Obeys-input_at :
    (secs updated : ℕ) (pod : Pod) (ordinal : ℕ) → Obeys (input_at secs updated pod).world ordinal
Obeys-input_at secs updated pod ordinal = record {
  stores = λ status. refl;
  again = sts_at updated;
  reads_again = refl;
  patches = refl;
}

passes-Favoured : Favoured passes (some last_draining) 3
unfolding next_stored reconcile_rolling_restart rolling_upgrade try_clear_completed_rolling_restart
    clear_or_coordinate ensure_rolling_restart_state clear_status rolling_restart_draining
    rolling_restart_release release_ordinal rolling_restart_waiting_ready include_from_all_proxies
    for_each_running_proxy send_each after_include next_ordinal is_pod_ready store_status
passes-Favoured =
    counts {i = input_at 100 2 pod_at}
      (record {
        sts = sts_at 2;
        reads = refl;
        obeys = Obeys-input_at 100 2 pod_at 0;
        shows = drained (omega arith);
      })
      (other (
        counts {i = input_at 900 3 pod_at}
          (record {
            sts = sts_at 3;
            reads = refl;
            obeys = Obeys-input_at 900 3 pod_at 0;
            shows = back pod_at refl refl refl refl refl (omega arith);
          })
          (counts {i = input_at 910 3 pod_at}
            (record {
              sts = sts_at 3;
              reads = refl;
              obeys = Obeys-input_at 910 3 pod_at 0;
              shows = settled refl refl refl;
            })
            over)))

drive-ends_example : drive passes (some last_draining) ≡ none
drive-ends_example = drive-ends passes (some last_draining) 3 passes-Favoured (omega arith)

abbrev first_three : List Input
first_three =
    input_at 100 2 pod_at
    ∷ input_at 110 2 (record pod_at { conditions = [] })
    ∷ input_at 900 3 pod_at
    ∷ []

abbrev last_completed : RollingRestartState
last_completed = record last_draining { phase = completed; phase_started_at = 900 * second }

completes : drive first_three (some last_draining) ≡ some last_completed
unfolding drive next_stored reconcile_rolling_restart rolling_upgrade
    try_clear_completed_rolling_restart clear_or_coordinate ensure_rolling_restart_state
    clear_status rolling_restart_draining rolling_restart_release release_ordinal
    rolling_restart_waiting_ready include_from_all_proxies for_each_running_proxy send_each
    after_include next_ordinal is_pod_ready store_status
completes = refl

drive-SawBack_example : Any (SawBack 0) first_three
drive-SawBack_example =
    drive-SawBack first_three last_draining last_completed 0 completes (omega arith) (omega arith)
