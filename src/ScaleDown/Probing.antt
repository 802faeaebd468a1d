-- ===== src/ScaleDown/Probing.antt =====
-- That the probing of the departing nodes, which stops early, leads to the right plan.
use hyperbytedb_operator.Prelude.{ℕ, suc, ◌≡◌, refl, ◌↔◌, true, List, [], ◌∷◌, map, arith, All}
use mathlib.Core.Path.{subst, sym}
use hyperbytedb_operator.ScaleDown.Plan.{departing_node_action, plan_from, departure_plan}
use hyperbytedb_operator.ScaleDown.Hooks.{World, observe, probe}
use hyperbytedb_operator.ScaleDown.PlanLaws.{IsReleased, Tells, Due, departure_plan_lem}

module _ (w : World) where
  plan_from-probe :
      (i : ℕ) (ords : List ℕ)
      → plan_from w.together i (probe w ords) ≡ plan_from w.together i (map (observe w) ords)
  unfolding probe plan_from departing_node_action
  plan_from-probe i [] = refl
  plan_from-probe i (o ∷ os) = ground (arith, plan_from-probe (suc i) os)

  -- The early end of the probing loop does not change the plan: it is the plan for all of the
  -- departing nodes.
  pub departure_plan-probe :
      (ords : List ℕ)
      → departure_plan (probe w ords) w.together ≡ departure_plan (map (observe w) ords) w.together
  unfolding departure_plan
  departure_plan-probe ords = plan_from-probe 0 ords

-- The plan of a pass, whose probing stops early, is right about all of the departing nodes: it tells
-- exactly those that are due, each by its place among them (the nodes that hold data, and where they
-- do not leave together only behind nodes that are released), and it calls them evacuated exactly if
-- every one that answers is leaving.
pub departure_plan-Due :
    (w : World) (ords : List ℕ)
    → (((departure_plan (probe w ords) w.together).evacuated ≡ true)
        ↔ All IsReleased (map (observe w) ords))
      × ((d : ℕ)
          → Tells d (departure_plan (probe w ords) w.together)
            ↔ Due w.together (map (observe w) ords) d)
departure_plan-Due w ords =
    subst
      (λ plan.
        ((plan.evacuated ≡ true) ↔ All IsReleased (map (observe w) ords))
        × ((d : ℕ) → Tells d plan ↔ Due w.together (map (observe w) ords) d))
      (sym (departure_plan-probe w ords)) (departure_plan_lem (map (observe w) ords) w.together)
