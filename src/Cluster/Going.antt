-- ===== src/Cluster/Going.antt =====
-- What holds in the middle of a pass and at its end, and that the last steps of a pass lead from one
-- to the other.
use hyperbytedb_operator.Prelude.{
  ℕ, ◌≡◌, refl, inl, inr, String, List, [], ◌∷◌, ◌++◌, map, Option, ltb, Bool-cases, Failure, All,
}
use mathlib.Core.Path.{subst}
use hyperbytedb_operator.Cluster.State.{
  Phase, Status, Effect, update_status, member, fail_over, Cluster, World, Pass, Outcome,
  set_failed_status, done,
}
use hyperbytedb_operator.Cluster.Apply.{StsReconcileResult}
use hyperbytedb_operator.Cluster.Finish.{
  settled_status, observe_members, form_cluster, compare_nodes, replace_member, observed,
  reconciled, finish,
}
use hyperbytedb_operator.Cluster.Finish
use hyperbytedb_operator.Cluster.Rules.{AllIn, AllIn-append, AllIn-tag, Meets}
use hyperbytedb_operator.Cluster.Effects.{IsAllowed}
use hyperbytedb_operator.Cluster.Outcomes.{IsSettled, Reported, settled_status-IsSettled}

module _ (c : Cluster) (w : World) (ph : Phase) where
  -- In a pass: the calls so far are allowed, `T` holds of them, and the phase is still `ph`.
  abbrev pub Held : (List Effect → Type 0) → List Effect → Phase → Type 0
  Held T log phase = AllIn (IsAllowed c w) [] log × T log × (phase ≡ ph)

  abbrev pub Going : (List Effect → Type 0) → Pass → Type 0
  Going T p = Held T p.log p.status.phase

  abbrev pub Ends : Outcome → Pass → Type 0
  Ends o p = AllIn (IsAllowed c w) [] p.log × Reported ph o.requeue o.error p

  abbrev pub IsStable : (List Effect → Type 0) → Type 0
  IsStable T = (log more : List Effect) → T log → T (log ++ more)

  pub note-Held :
      {C : Type 0} (tag : C → Effect) (T : List Effect → Type 0) (R : C → Type 0) (calls : List C)
      → IsStable T
      → ((log : List Effect) (x : C) → T log → R x → IsAllowed c w log (tag x))
      → All R calls
      → (log : List Effect) (phase : Phase) → Held T log phase
      → Held T (log ++ map tag calls) phase
  note-Held tag T R calls keep each h log phase g = (
    AllIn-append (IsAllowed c w) [] log (map tag calls) g.0
        (AllIn-tag (IsAllowed c w) tag T R log calls keep each g.1 h),
    keep log (map tag calls) g.1,
    g.2,
  )

  All-tt : {C : Type 0} (calls : List C) → All (λ (x : C). Unit {0}) calls
  All-tt [] = tt
  All-tt (x ∷ xs) = (tt, All-tt xs)

  -- Calls that need no leave.
  pub free-Held :
      {C : Type 0} (tag : C → Effect) (T : List Effect → Type 0) (calls : List C)
      → IsStable T
      → ((log : List Effect) (x : C) → IsAllowed c w log (tag x))
      → (log : List Effect) (phase : Phase) → Held T log phase
      → Held T (log ++ map tag calls) phase
  free-Held tag T calls keep each =
      note-Held tag T (λ _. Unit {0}) calls keep (λ log x _ _. each log x) (All-tt calls)

  pub store-AllIn :
      (log : List Effect) (s : Status)
      → AllIn (IsAllowed c w) [] log
      → AllIn (IsAllowed c w) [] (log ++ (update_status s ∷ []))
  store-AllIn log s h = AllIn-append (IsAllowed c w) [] log (update_status s ∷ []) h (tt, tt)

  pub failed-Ends :
      (T : List Effect → Type 0) (reason : String) (e : Failure)
      → Meets (Going T) Ends (set_failed_status reason e)
  unfolding set_failed_status
  failed-Ends T reason e = record {
    at = λ p g. (store-AllIn p.log _ g.0, ((refl, (reason, refl)), (p.log, refl), refl));
  }

  pub done-Ends :
      (T : List Effect → Type 0) (requeue : Option ℕ) → Meets (Going T) Ends (done requeue)
  done-Ends T requeue = record { at = λ p g. (g.0, inl g.2) }

  module _ (T : List Effect → Type 0) (keep : IsStable T) where
    observe_members-Going : (p : Pass) → Going T p → Going T (observe_members c w p)
    unfolding observe_members
    observe_members-Going p g = g

    form_cluster-Going : (p : Pass) → Going T p → Going T (form_cluster c w p)
    unfolding form_cluster
    form_cluster-Going p g = free-Held member T _ keep (λ log x. tt) p.log p.status.phase g

    compare_nodes-Going : (p : Pass) → Going T p → Going T (compare_nodes c w p)
    unfolding compare_nodes
    compare_nodes-Going p g = g

    replace_member-Going : (p : Pass) → Going T p → Going T (replace_member c w p)
    unfolding replace_member
    replace_member-Going p g = free-Held fail_over T _ keep (λ log x. tt) p.log p.status.phase g

    observed-Going : (p : Pass) → Going T p → Going T (observed c w p)
    unfolding observed
    observed-Going p g = elim (Bool-cases (ltb 1 c.replicas)) [
      | inl b ↦ rw b (
          compare_nodes-Going (form_cluster c w (observe_members c w p))
            (form_cluster-Going (observe_members c w p) (observe_members-Going p g)))
      | inr b ↦ rw b (observe_members-Going p g)
    ]

    pub finish-Ends : (r : StsReconcileResult) → Meets (Going T) Ends (finish c w r)
    unfolding finish Finish.update_status reconciled
    finish-Ends r = record {
      at = λ p g.
          let p' = replace_member c w (observed c w p) in
          let g' = replace_member-Going (observed c w p) (observed-Going p g) in
          (
            store-AllIn p'.log _ g'.0,
            inr (
              subst
                  (λ q.
                    IsSettled q
                      (settled_status w.rolling_upgrade r c.config_hash (reconciled c w p').status))
                  g'.2
                  (settled_status-IsSettled w.rolling_upgrade r c.config_hash
                    (reconciled c w p').status refl),
              (p'.log, refl),
            ),
          );
    }
