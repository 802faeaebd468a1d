-- ===== src/ScaleDown/Samples.antt =====
-- A scale-down from three pods to one, with the nodes 3 and 2 leaving.
use hyperbytedb_operator.Prelude.{
  ◌⊎◌, ℕ, ◌≡◌, refl, ◌↔◌, true, false, [], ◌∷◌, List, map, none, some, inl, All, ok, arith, Result,
  err, not_found, zero, suc,
}
use hyperbytedb_operator.Kube.{Pod, is_pod_ready}
use hyperbytedb_operator.ScaleDown.Plan.{DepartingNode, departure_plan, departing_node_action}
use hyperbytedb_operator.ScaleDown.PlanLaws.{IsReleased, Tells, Due}
use hyperbytedb_operator.ScaleDown.Probing.{departure_plan-Due}
use hyperbytedb_operator.ScaleDown.Hooks
use hyperbytedb_operator.ScaleDown.Hooks.{run_scale_down_cluster_hooks, probe, observe}
use hyperbytedb_operator.ScaleDown.HookLaws.{Shrinks, run_scale_down_cluster_hooks-Shrinks}
use hyperbytedb_operator.ScaleDown.Held.{
  IsHolding, IsTelling, run_scale_down_cluster_hooks-IsHolding,
}
use hyperbytedb_operator.ScaleDown.Stuck
use hyperbytedb_operator.ScaleDown.Stuck.{IsStuck, delete_stuck_departed_pods}
use hyperbytedb_operator.ScaleDown.Swept.{In, delete_stuck_departed_pods-exactly}

abbrev active : DepartingNode
active = record { state = "active"; reachable = true }

abbrev gone : DepartingNode
gone = record { state = ""; reachable = false }

abbrev nodes : List DepartingNode
nodes = gone ∷ active ∷ active ∷ []

told : Tells 1 (departure_plan nodes false)
unfolding departure_plan departing_node_action
told = inl refl

abbrev world : Hooks.World
world = record {
  together = false;
  health = λ i. ok "leaving";
  leader = λ calls i. ok (some 1);
  answer = λ calls c. none;
}

departure_plan-Due_example :
    (((departure_plan (probe world (2 ∷ 1 ∷ [])) false).evacuated ≡ true)
      ↔ All IsReleased (map (observe world) (2 ∷ 1 ∷ [])))
    × ((d : ℕ)
        → Tells d (departure_plan (probe world (2 ∷ 1 ∷ [])) false)
          ↔ Due false (map (observe world) (2 ∷ 1 ∷ [])) d)
departure_plan-Due_example = departure_plan-Due world (2 ∷ 1 ∷ [])

passes : (run_scale_down_cluster_hooks world 3 1).0 ≡ true
unfolding run_scale_down_cluster_hooks departure_plan probe Hooks.departing_ordinals
    departing_node_action Hooks.remove_departed_voters Hooks.raft_leader_host
passes = refl

run_scale_down_cluster_hooks-Shrinks_example :
    Shrinks world 3 1 (run_scale_down_cluster_hooks world 3 1).1
run_scale_down_cluster_hooks-Shrinks_example =
    run_scale_down_cluster_hooks-Shrinks world 3 1 (omega arith) passes

abbrev pod : Pod
pod = record {
  name = "db-1";
  ip = "10.0.0.1";
  deleting = false;
  revision = "old";
  conditions = [];
  containers = [];
}

-- Pod 1 is unready, and pod 2 is gone already.
abbrev found : ℕ → Result Pod
found (suc (suc zero)) = err not_found
found _ = ok pod

abbrev pods : Stuck.World
pods = record { get_pod = found; delete = λ p. none }

swept : (delete_stuck_departed_pods pods 1 3 []).0 ≡ ok tt
unfolding delete_stuck_departed_pods Stuck.stuck_departed_pods is_pod_ready
swept = refl

delete_stuck_departed_pods-exactly_example :
    IsStuck pods 1 3 pod ↔ In pod (delete_stuck_departed_pods pods 1 3 []).1
delete_stuck_departed_pods-exactly_example = delete_stuck_departed_pods-exactly pods 1 3 swept pod

-- A node that still holds its regions.
abbrev busy : Hooks.World
busy = record world { health = λ i. ok "decommissioning" }

held : (run_scale_down_cluster_hooks busy 3 1).0 ≡ false
unfolding run_scale_down_cluster_hooks departure_plan probe Hooks.departing_ordinals
    departing_node_action
held = refl

run_scale_down_cluster_hooks-IsHolding_example :
    All IsHolding (run_scale_down_cluster_hooks busy 3 1).1
    × (All IsReleased (map (observe busy) (Hooks.departing_ordinals 3 1))
        ⊎ All IsTelling (run_scale_down_cluster_hooks busy 3 1).1)
run_scale_down_cluster_hooks-IsHolding_example =
    run_scale_down_cluster_hooks-IsHolding busy 3 1 held
