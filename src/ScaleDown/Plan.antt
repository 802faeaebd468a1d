-- ===== src/ScaleDown/Plan.antt =====
-- departurePlan and departingNodeAction, and isDepartedState, of
-- internal/controller/hyperbytedbcluster_controller.go: which departing nodes to tell to leave.
use hyperbytedb_operator.Prelude.{
  ℕ, suc, String, Bool, true, false, not, ◌||◌, List, [], ◌∷◌, str_eq, if◌then◌else◌,
}

pub record DepartingNode : Type 0 where
  pub state : String
  pub reachable : Bool

abbrev pub node_state_decommissioning : String
node_state_decommissioning = "decommissioning"

abbrev pub node_state_leaving : String
node_state_leaving = "leaving"

pub record NodeAction : Type 0 where
  pub decommission : Bool
  pub gate : Bool

unfoldable pub departing_node_action : String → Bool → NodeAction
departing_node_action state reachable =
    if not reachable
    then record { decommission = false; gate = false }
    else if str_eq state node_state_leaving
    then record { decommission = false; gate = false }
    else if str_eq state node_state_decommissioning
    then record { decommission = false; gate = true }
    else record { decommission = true; gate = true }

pub record Plan : Type 0 where
  -- the places of the nodes to tell to decommission
  pub tell : List ℕ
  pub evacuated : Bool

abbrev add_told : Bool → ℕ → List ℕ → List ℕ
add_told told i rest = if told then i ∷ rest else rest

-- The loop from index `i` on. A node that gates ends it, unless the nodes leave together.
unfoldable pub plan_from : Bool → ℕ → List DepartingNode → Plan
plan_from together i [] = record { tell = []; evacuated = true }
plan_from together i (n ∷ ns) =
    let act = departing_node_action n.state n.reachable in
    let rest = plan_from together (suc i) ns in
    if act.gate
    then record {
      tell = add_told act.decommission i (if together then rest.tell else []);
      evacuated = false;
    }
    else record { tell = add_told act.decommission i rest.tell; evacuated = rest.evacuated }

unfoldable pub departure_plan : List DepartingNode → Bool → Plan
unfolding plan_from
departure_plan nodes together = plan_from together 0 nodes

-- isDepartedState
unfoldable pub is_departed_state : String → Bool
is_departed_state state = str_eq state node_state_leaving || str_eq state node_state_decommissioning
