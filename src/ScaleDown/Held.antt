-- ===== src/ScaleDown/Held.antt =====
-- What the hooks have done when they hold a scale-down.
use hyperbytedb_operator.Prelude.{
  ℕ, suc, ◌≡◌, false, List, [], ◌∷◌, ◌++◌, map, Option, none, some, ◌⊎◌, inl, inr, get_elem?, leb,
  ltb, ◌||◌, Bool-cases, All, All-append, Result, ok, err, Keeps, Keeps-then, Keeps-pure,
}
use hyperbytedb_operator.ScaleDown.Plan.{departure_plan}
use hyperbytedb_operator.ScaleDown.PlanLaws.{IsReleased}
use hyperbytedb_operator.ScaleDown.Probing.{departure_plan-Due}
use hyperbytedb_operator.ScaleDown.Hooks.{
  Call, decommission, remove, leave, World, observe, probe, departing_ordinals, tell_decommission,
  raft_leader_host, remove_via, remove_departed_voters, finish_hooks, drop_departed,
  run_scale_down_cluster_hooks,
}

-- a call that leaves the voters and the survivors' membership alone
abbrev pub IsTelling : Call → Type 0
IsTelling (decommission i) = Unit
IsTelling _ = ⊥

-- a call that leaves the survivors' membership alone
abbrev pub IsHolding : Call → Type 0
IsHolding (leave i j) = ⊥
IsHolding _ = Unit

IsTelling-IsHolding : (calls : List Call) → All IsTelling calls → All IsHolding calls
IsTelling-IsHolding [] h = tt
IsTelling-IsHolding (decommission i ∷ cs) h = (tt, IsTelling-IsHolding cs h.1)
IsTelling-IsHolding (remove l i ∷ cs) h = elim h.0 [ ]
IsTelling-IsHolding (leave l i ∷ cs) h = elim h.0 [ ]

module _ (w : World) where
  tell-IsTelling :
      (ords is : List ℕ) (calls : List Call)
      → All IsTelling calls
      → All IsTelling (tell_decommission w ords is calls).1
  unfolding tell_decommission
  tell-IsTelling ords [] calls h = h
  tell-IsTelling ords (i ∷ is) calls h =
      elim (get_elem? ords i)
        as (λ found.
          All IsTelling
            (tell_decommission w ords is
              (elim found [ some o ↦ calls ++ (decommission o ∷ []) | none ↦ calls ])).1) [
                | none ↦ tell-IsTelling ords is calls h
                | some o ↦
                    tell-IsTelling ords is (calls ++ (decommission o ∷ []))
                      (All-append IsTelling calls (decommission o ∷ []) h (tt, tt))
              ]

  remove_via-IsHolding :
      (l : Option ℕ) (id : ℕ) (calls : List Call)
      → All IsHolding calls
      → All IsHolding (remove_via w l id calls).1
  unfolding remove_via
  remove_via-IsHolding none id calls h = h
  remove_via-IsHolding (some l) id calls h =
      All-append IsHolding calls (remove l id ∷ []) h (tt, tt)

  remove-IsHolding : (n : ℕ) (ids : List ℕ) → Keeps (All IsHolding) (remove_departed_voters w n ids)
  unfolding remove_departed_voters
  remove-IsHolding n [] = Keeps-pure tt
  remove-IsHolding n (id ∷ ids) =
      Keeps-then _ _
        (record { at = λ calls h. remove_via-IsHolding (raft_leader_host w n calls) id calls h })
        (remove-IsHolding n ids)

  finish-IsHolding :
      (prev desired : ℕ) (r : Result (Unit {0})) (made : List Call)
      → All IsHolding made
      → (finish_hooks prev desired r made).0 ≡ false
      → All IsHolding (finish_hooks prev desired r made).1
  unfolding finish_hooks
  finish-IsHolding prev desired (ok _) made h e = cc
  finish-IsHolding prev desired (err f) made h e = h

  drop-IsHolding :
      (prev desired : ℕ) (calls : List Call)
      → All IsHolding calls
      → (drop_departed w prev desired calls).0 ≡ false
      → All IsHolding (drop_departed w prev desired calls).1
  unfolding drop_departed
  drop-IsHolding prev desired calls h e =
      let ids = map suc (departing_ordinals prev desired) in
      let (r, made) = remove_departed_voters w prev ids calls in
      finish-IsHolding prev desired r made ((remove-IsHolding prev ids).at calls h) e

-- When the hooks hold .spec.replicas, no survivor has been told that a node is gone. And every
-- departing node that answers the health request is leaving, or nothing at all was done but to tell
-- departing nodes to decommission: no node was removed from the voters.
pub run_scale_down_cluster_hooks-IsHolding :
    (w : World) (prev desired : ℕ)
    → (run_scale_down_cluster_hooks w prev desired).0 ≡ false
    → All IsHolding (run_scale_down_cluster_hooks w prev desired).1
      × (All IsReleased (map (observe w) (departing_ordinals prev desired))
          ⊎ All IsTelling (run_scale_down_cluster_hooks w prev desired).1)
unfolding run_scale_down_cluster_hooks
run_scale_down_cluster_hooks-IsHolding w prev desired h =
    let ords = departing_ordinals prev desired in
    let plan = departure_plan (probe w ords) w.together in
    let told = tell-IsTelling w ords plan.tell [] tt in
    let quiet = IsTelling-IsHolding (tell_decommission w ords plan.tell []).1 told in
    elim (Bool-cases (leb prev desired || ltb prev 1)) [
      | inl b ↦ cc (rw b at h)
      | inr b ↦ elim (Bool-cases plan.evacuated) [
        | inl e ↦
            let h' : (drop_departed w prev desired (tell_decommission w ords plan.tell []).1).0
                ≡ false =
              rw (b, e) at h in
            rw (b, e)
              (
                drop-IsHolding w prev desired (tell_decommission w ords plan.tell []).1 quiet h',
                inl ((departure_plan-Due w ords).0.0 e),
              )
        | inr e ↦ rw (b, e) (quiet, inr told)
      ]
    ]
