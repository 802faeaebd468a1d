-- ===== src/Rolling/Samples.antt =====
-- Passes of the rolling restart on a cluster of three pods.
use hyperbytedb_operator.Prelude.{
  ℕ, ◌+◌, ◌*◌, ◌≡◌, refl, Bool, List, [], ◌∷◌, none, some, true, false, Result, ok, arith,
}
use hyperbytedb_operator.Kube.{Pod, StatefulSet, second}
use hyperbytedb_operator.Rolling.State.{
  excluding, draining, waiting_ready, RollingRestartState, StsResult, World, begin, store_status,
}
use hyperbytedb_operator.Rolling.Coordinate.{
  reconcile_rolling_restart, rolling_upgrade, try_clear_completed_rolling_restart,
  clear_or_coordinate, ensure_rolling_restart_state,
}
use hyperbytedb_operator.Rolling.Handlers.{
  rolling_restart_draining, rolling_restart_release, release_ordinal, rolling_restart_excluding,
  exclude_pod, exclude_from_all_proxies, for_each_running_proxy, send_each,
}
use hyperbytedb_operator.Rolling.Position.{view}
use hyperbytedb_operator.Rolling.Told.{Told}
use hyperbytedb_operator.Rolling.Handover.{reconcile_rolling_restart-Told}
use hyperbytedb_operator.Client.Requests.{Request, Reply, exclude_backend, read_exclude}
use hyperbytedb_operator.Client.{exclude_proxy_backend}
use hyperbytedb_operator.Rolling.Answered.{
  with_client, client_answer, AllOut, reconcile_rolling_restart-AllOut,
}
use hyperbytedb_operator.Rolling.Refines.{OnTrack, reconcile_rolling_restart-OnTrack}
use hyperbytedb_operator.Rolling.Patched.{patches}
use hyperbytedb_operator.Rolling.Release.{Guarded, reconcile_rolling_restart-Guarded}

abbrev sts : StatefulSet
sts = record {
  update_revision = "new";
  current_revision = "old";
  replicas = 3;
  ready_replicas = 3;
  updated_replicas = 1;
  rolling_update = some (some 2);
}

abbrev pod : Pod
pod = record {
  name = "db-1";
  ip = "10.0.0.1";
  deleting = false;
  revision = "old";
  conditions = [];
  containers = [];
}

abbrev world : World
world = record {
  now = 100 * second;
  drain_wait_secs = 30;
  get_sts = ok sts;
  get_sts_again = ok sts;
  get_pod = λ i. ok pod;
  list_proxies = ok [];
  answer = λ c. none;
}

abbrev in_draining : RollingRestartState
in_draining = record {
  current_ordinal = 1;
  total_ordinals = 3;
  phase = draining;
  phase_started_at = 60 * second;
  old_pod_ip = "10.0.0.1";
  exclude_confirmed = true;
}

abbrev all_ready : StsResult
all_ready = record { spec_replicas = 3; ready_replicas = 3 }

-- After its drain wait the pod is released.
released :
    patches (reconcile_rolling_restart world all_ready 3 (begin (some in_draining))).1.calls
    ≡ 1 ∷ []
unfolding reconcile_rolling_restart rolling_upgrade try_clear_completed_rolling_restart
    clear_or_coordinate ensure_rolling_restart_state rolling_restart_draining
    rolling_restart_release release_ordinal store_status
released = refl

reconcile_rolling_restart-OnTrack_example :
    OnTrack 3 1
      (view (some in_draining))
      (reconcile_rolling_restart world all_ready 3 (begin (some in_draining))).1
reconcile_rolling_restart-OnTrack_example =
    reconcile_rolling_restart-OnTrack world all_ready 3 (some in_draining)

reconcile_rolling_restart-Guarded_example :
    Guarded world in_draining "new"
      (reconcile_rolling_restart world all_ready 3 (begin (some in_draining))).1
reconcile_rolling_restart-Guarded_example =
    reconcile_rolling_restart-Guarded world all_ready 3 (some in_draining) sts refl

abbrev in_waiting : RollingRestartState
in_waiting = record in_draining { phase = waiting_ready; phase_started_at = 100 * second }

-- The pod of ordinal 1 is excluded, with one proxy that runs and one that does not.
abbrev proxy : Bool → Pod
proxy running = record {
  name = "proxy";
  ip = "10.0.1.1";
  deleting = false;
  revision = "";
  conditions = [];
  containers = record { name = "proxy"; running = running } ∷ [];
}

abbrev proxied : World
proxied = record world { list_proxies = ok (proxy true ∷ proxy false ∷ []) }

abbrev in_excluding : RollingRestartState
in_excluding = record in_draining { phase = excluding; old_pod_ip = ""; exclude_confirmed = false }

abbrev after_excluding : RollingRestartState
after_excluding = record in_draining { phase_started_at = 100 * second }

drains :
    (reconcile_rolling_restart proxied all_ready 3 (begin (some in_excluding))).1.status
    ≡ some after_excluding
unfolding reconcile_rolling_restart rolling_upgrade try_clear_completed_rolling_restart
    clear_or_coordinate ensure_rolling_restart_state rolling_restart_excluding exclude_pod
    exclude_from_all_proxies for_each_running_proxy send_each store_status
drains = refl

reconcile_rolling_restart-Told_example :
    Told proxied in_excluding excluding draining
      (reconcile_rolling_restart proxied all_ready 3 (begin (some in_excluding))).1.calls
reconcile_rolling_restart-Told_example =
    reconcile_rolling_restart-Told proxied all_ready 3 (some in_excluding) after_excluding drains

-- The same pass with the client, and proxies that have excluded the pod already.
abbrev conflict : Request → ℕ → Result Reply × ℕ
conflict r asked = (ok (record { code = 409; body = "excluded"; body_error = none }), asked + 1)

abbrev asked : World
asked = with_client conflict (λ proxy. 0) 8087 proxied

drains_asked :
    (reconcile_rolling_restart asked all_ready 3 (begin (some in_excluding))).1.status
    ≡ some after_excluding
unfolding reconcile_rolling_restart rolling_upgrade try_clear_completed_rolling_restart
    clear_or_coordinate ensure_rolling_restart_state rolling_restart_excluding exclude_pod
    exclude_from_all_proxies for_each_running_proxy send_each store_status client_answer
    exclude_backend read_exclude exclude_proxy_backend
drains_asked = refl

reconcile_rolling_restart-AllOut_example :
    (pod : Pod) × (world.get_pod 1 ≡ ok pod)
    × ((pods : List Pod) × (proxied.list_proxies ≡ ok pods)
        × AllOut conflict
            (λ proxy. 0)
            8087
            pod.ip
            pods
            (reconcile_rolling_restart asked all_ready 3 (begin (some in_excluding))).1.calls)
reconcile_rolling_restart-AllOut_example =
    reconcile_rolling_restart-AllOut conflict (λ proxy. 0) 8087 proxied all_ready 3
      (some in_excluding) after_excluding drains_asked refl refl (omega arith)
