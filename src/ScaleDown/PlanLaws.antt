-- ===== src/ScaleDown/PlanLaws.antt =====
-- What the plan of a scale-down says.
use hyperbytedb_operator.Prelude.{
  ℕ, zero, suc, ◌+◌, ◌≡◌, refl, ap, ◌≢◌, ◌↔◌, ◌⊎◌, inl, inr, Bool, true, false, List, [], ◌∷◌,
  arith, All, Any, eq_iff, if◌then◌else◌,
}
use mathlib.Core.Path.{subst}
use hyperbytedb_operator.ScaleDown.Plan.{
  DepartingNode, Plan, departing_node_action, plan_from, departure_plan, node_state_leaving,
}

-- The node holds nothing that a scale-down could lose: it has left, or does not answer.
abbrev pub IsReleased : DepartingNode → Type 0
IsReleased n = n.reachable ≡ true → n.state ≡ node_state_leaving

-- The node answers, and is neither leaving nor decommissioning.
abbrev pub IsHolding : DepartingNode → Type 0
IsHolding n = (n.reachable ≡ true) × (n.state ≢ node_state_leaving) × (n.state ≢ "decommissioning")

gate-IsReleased :
    (n : DepartingNode) → (departing_node_action n.state n.reachable).gate ≡ false → IsReleased n
unfolding departing_node_action
gate-IsReleased n h = ground (arith, eq_iff n.state "leaving", eq_iff n.state "decommissioning")

IsReleased-gate :
    (n : DepartingNode) → IsReleased n → (departing_node_action n.state n.reachable).gate ≡ false
unfolding departing_node_action
IsReleased-gate n h = ground (arith, eq_iff n.state "leaving", eq_iff n.state "decommissioning")

told-IsHolding :
    (n : DepartingNode)
    → (departing_node_action n.state n.reachable).decommission ≡ true
    → IsHolding n
unfolding departing_node_action
told-IsHolding n h = ground (arith, eq_iff n.state "leaving", eq_iff n.state "decommissioning")

holding-told :
    (n : DepartingNode)
    → IsHolding n
    → (departing_node_action n.state n.reachable).decommission ≡ true
unfolding departing_node_action
holding-told n h = ground (arith, eq_iff n.state "leaving", eq_iff n.state "decommissioning")

told-gates :
    (n : DepartingNode)
    → (departing_node_action n.state n.reachable).gate ≡ false
    → (departing_node_action n.state n.reachable).decommission ≡ false
unfolding departing_node_action
told-gates n h = ground arith

plan_from-evacuated :
    (together : Bool) (i : ℕ) (ns : List DepartingNode)
    → ((plan_from together i ns).evacuated ≡ true) ↔ All IsReleased ns
unfolding plan_from
plan_from-evacuated together i [] = ((λ _. tt), (λ _. refl))
plan_from-evacuated together i (n ∷ ns) =
    let ih = plan_from-evacuated together (suc i) ns in
    ((λ h. ground (arith, gate-IsReleased n, ih)), (λ h. ground (arith, IsReleased-gate n h.0, ih)))

plan_from-nil :
    (together : Bool) (i : ℕ) (ns : List DepartingNode)
    → (plan_from together i ns).evacuated ≡ true
    → (plan_from together i ns).tell ≡ []
unfolding plan_from
plan_from-nil together i [] h = refl
plan_from-nil together i (n ∷ ns) h =
    ground (arith, told-gates n, plan_from-nil together (suc i) ns)

-- Where all have evacuated nobody is told anything.
pub tell-nil :
    (nodes : List DepartingNode) (together : Bool)
    → (departure_plan nodes together).evacuated ≡ true
    → (departure_plan nodes together).tell ≡ []
unfolding departure_plan
tell-nil nodes together = plan_from-nil together 0 nodes

-- One step of the loop, by the tests of its first node.
abbrev step_plan : (told gate together : Bool) → ℕ → Plan → Plan
step_plan told gate together i rest =
    if gate
    then record {
      tell =
          if told
          then i ∷ (if together then rest.tell else [])
          else (if together then rest.tell else []);
      evacuated = false;
    }
    else record { tell = if told then i ∷ rest.tell else rest.tell; evacuated = rest.evacuated }

abbrev pub Tells : ℕ → Plan → Type 0
Tells j plan = Any (λ i. j ≡ i) plan.tell

module _ (j i : ℕ) (rest : Plan) where
  step-Tells :
      (told gate together : Bool)
      → Tells j (step_plan told gate together i rest)
      → ((told ≡ true) × (j ≡ i)) ⊎ (((gate ≡ false) ⊎ (together ≡ true)) × Tells j rest)
  step-Tells true true true (inl e) = inl (refl, e)
  step-Tells true true true (inr m) = inr (inr refl, m)
  step-Tells true true false (inl e) = inl (refl, e)
  step-Tells true true false (inr m) = elim m [ ]
  step-Tells false true true m = inr (inr refl, m)
  step-Tells false true false m = elim m [ ]
  step-Tells true false together (inl e) = inl (refl, e)
  step-Tells true false together (inr m) = inr (inl refl, m)
  step-Tells false false together m = inr (inl refl, m)

  Tells-step_first : (gate together : Bool) → j ≡ i → Tells j (step_plan true gate together i rest)
  Tells-step_first true together e = inl e
  Tells-step_first false together e = inl e

  Tells-step_rest :
      (told gate together : Bool)
      → (gate ≡ false) ⊎ (together ≡ true)
      → Tells j rest
      → Tells j (step_plan told gate together i rest)
  Tells-step_rest true true true h m = inr m
  Tells-step_rest false true true h m = m
  Tells-step_rest told true false h m = absurd (elim h [ inl e ↦ cc | inr e ↦ cc ])
  Tells-step_rest true false together h m = inr m
  Tells-step_rest false false together h m = m

-- Node `d` of the list is to be told: it holds data, and unless all leave together, every node
-- before it is released.
abbrev pub Due : Bool → List DepartingNode → ℕ → Type 0
Due together [] d = ⊥
Due together (n ∷ ns) zero = IsHolding n
Due together (n ∷ ns) (suc d) = ((together ≡ true) ⊎ IsReleased n) × Due together ns d

tells-Due :
    (together : Bool) (i : ℕ) (ns : List DepartingNode) (j : ℕ)
    → Tells j (plan_from together i ns)
    → (d : ℕ) × (j ≡ i + d) × Due together ns d
unfolding plan_from
tells-Due together i [] j m = elim m [ ]
tells-Due together i (n ∷ ns) j m =
    let act = departing_node_action n.state n.reachable in
    elim (step-Tells j i (plan_from together (suc i) ns) act.decommission act.gate together m) [
      | inl (t, e) ↦ (0, omega arith, told-IsHolding n t)
      | inr (g, m') ↦
          let (d, e, h) = tells-Due together (suc i) ns j m' in
          (suc d, omega arith, (elim g [ inl o ↦ inr (gate-IsReleased n o) | inr o ↦ inl o ], h))
    ]

due-Tells :
    (together : Bool) (i : ℕ) (ns : List DepartingNode) (d : ℕ)
    → Due together ns d
    → Tells (i + d) (plan_from together i ns)
unfolding plan_from
due-Tells together i [] d h = elim h [ ]
due-Tells together i (n ∷ ns) zero h = rw (holding-told n h) (
    Tells-step_first (i + 0) i (plan_from together (suc i) ns)
      (departing_node_action n.state n.reachable).gate together (omega arith))
due-Tells together i (n ∷ ns) (suc d) h =
    let act = departing_node_action n.state n.reachable in
    Tells-step_rest (i + suc d) i (plan_from together (suc i) ns) act.decommission act.gate together
      (elim h.0 [ inl o ↦ inr o | inr o ↦ inl (IsReleased-gate n o) ])
      (subst (λ k. Tells k (plan_from together (suc i) ns)) (omega arith)
        (due-Tells together (suc i) ns d h.1))

-- The plan tells exactly the nodes that are due, each by its place in the list, and calls the
-- departing nodes evacuated exactly if every one that answers is leaving.
pub departure_plan_lem :
    (nodes : List DepartingNode) (together : Bool)
    → (((departure_plan nodes together).evacuated ≡ true) ↔ All IsReleased nodes)
      × ((d : ℕ) → Tells d (departure_plan nodes together) ↔ Due together nodes d)
unfolding departure_plan
departure_plan_lem nodes together = (
  plan_from-evacuated together 0 nodes,
  λ d. (
    (λ m.
        let (k, e, h) = tells-Due together 0 nodes d m in
        subst (Due together nodes) (omega arith) h),
    (λ h.
        subst (λ k. Tells k (plan_from together 0 nodes)) (omega arith)
          (due-Tells together 0 nodes d h)),
  ),
)

IsHolding-not_IsReleased : (n : DepartingNode) → IsHolding n → (false ≡ true) ⊎ IsReleased n → ⊥
IsHolding-not_IsReleased n h (inl e) = cc
IsHolding-not_IsReleased n h (inr r) = h.1 (r h.0)

Due-unique : (nodes : List DepartingNode) (d e : ℕ) → Due false nodes d → Due false nodes e → d ≡ e
Due-unique (n ∷ ns) zero zero h k = refl
Due-unique (n ∷ ns) zero (suc e) h (r, k) = absurd (IsHolding-not_IsReleased n h r)
Due-unique (n ∷ ns) (suc d) zero (r, h) k = absurd (IsHolding-not_IsReleased n k r)
Due-unique (n ∷ ns) (suc d) (suc e) h k = ap suc (Due-unique ns d e h.1 k.1)
Due-unique [] d e h k = elim h [ ]

-- One at a time, at most one node is told to leave.
pub departure_plan-one :
    (nodes : List DepartingNode) (d e : ℕ)
    → Tells d (departure_plan nodes false)
    → Tells e (departure_plan nodes false)
    → d ≡ e
departure_plan-one nodes d e h k =
    Due-unique nodes d e (((departure_plan_lem nodes false).1 d).0 h)
      (((departure_plan_lem nodes false).1 e).0 k)
