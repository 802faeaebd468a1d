-- ===== src/ScaleDown/HookLaws.antt =====
-- What holds when .spec.replicas may shrink, and when it may not.
use hyperbytedb_operator.Prelude.{
  ℕ, zero, suc, ◌≤◌, ◌<◌, ◌≡◌, refl, inl, inr, true, false, List, [], ◌∷◌, ◌++◌, map, reverse,
  Option, some, none, arith, All, Bool-cases, if◌then◌else◌, ◌||◌, leb, ltb, Failure, Result, ok,
  err, check, continue, ◌>>◌,
}
use native.Mathlib.Decide.{ℕ_discrete}
use hyperbytedb_operator.ScaleDown.Plan.{Plan, departure_plan}
use hyperbytedb_operator.Ordinals.{ordinals}
use hyperbytedb_operator.ScaleDown.Hooks.{
  World, Call, remove, observe, probe, departing_ordinals, tell_decommission, raft_leader_host,
  remove_via, remove_departed_voters, leave_calls, finish_hooks, drop_departed,
  run_scale_down_cluster_hooks,
}
use hyperbytedb_operator.ScaleDown.Probing.{departure_plan-probe}
use hyperbytedb_operator.ScaleDown.PlanLaws.{IsReleased, tell-nil, departure_plan_lem}

-- The removals of `ids` in order, each through the leader that is visible then, and each granted.
pub data Removed (w : World) (n : ℕ) : List Call → List ℕ → List Call → Type 0 where
  done : {calls : List Call} → Removed w n calls [] calls
  next :
      {calls calls' : List Call} {l id : ℕ} {ids : List ℕ}
      → raft_leader_host w n calls ≡ some l
      → w.answer calls (remove l id) ≡ none
      → Removed w n (calls ++ (remove l id ∷ [])) ids calls'
      → Removed w n calls (id ∷ ids) calls'

module _ (w : World) (n : ℕ) where
  first_removal :
      (id : ℕ) (ids : List ℕ) (calls : List Call) (leader : Option ℕ)
      → raft_leader_host w n calls ≡ leader
      → ((calls' : List Call)
          → (remove_departed_voters w n ids calls').0 ≡ ok tt
          → Removed w n calls' ids (remove_departed_voters w n ids calls').1)
      → (((λ c. remove_via w leader id c) >> remove_departed_voters w n ids) calls).0 ≡ ok tt
      → Removed w n calls
          (id ∷ ids)
          (((λ c. remove_via w leader id c) >> remove_departed_voters w n ids) calls).1
  unfolding remove_via
  first_removal id ids calls none e ih = λ h. cc
  first_removal id ids calls (some l) e ih = go (w.answer calls (remove l id)) refl
    where
      calls' : List Call
      calls' = calls ++ (remove l id ∷ [])

      go :
          (a : Option Failure)
          → w.answer calls (remove l id) ≡ a
          → (continue (check a) (λ _. remove_departed_voters w n ids) calls').0 ≡ ok tt
          → Removed w n calls
              (id ∷ ids)
              (continue (check a) (λ _. remove_departed_voters w n ids) calls').1
      go none a h = next e a (ih calls' h)
      go (some f) a h = cc

  remove-Removed :
      (ids : List ℕ) (calls : List Call)
      → (remove_departed_voters w n ids calls).0 ≡ ok tt
      → Removed w n calls ids (remove_departed_voters w n ids calls).1
  unfolding remove_departed_voters
  remove-Removed [] calls h = done
  remove-Removed (id ∷ ids) calls h =
      first_removal id ids calls (raft_leader_host w n calls) refl (remove-Removed ids) h

-- Every ordinal from `desired` up to `prev` is among the departing ones.
All-departing_ordinals :
    (P : ℕ → Type 0) (prev desired : ℕ)
    → All P (departing_ordinals prev desired)
    → (i : ℕ) → desired ≤ i
    → i < prev
    → P i
unfolding departing_ordinals
All-departing_ordinals P zero desired h i le lt = absurd (omega arith)
All-departing_ordinals P (suc k) desired h i le lt =
    let t : leb desired k ≡ true = ground arith in
    let h' : All P (k ∷ departing_ordinals k desired) = rw t at h in
    elim (ℕ_discrete i k) [
      | yes e ↦ rw e h'.0
      | no ne ↦ All-departing_ordinals P k desired h'.1 i le (omega arith)
    ]

All-observe :
    (w : World) (ords : List ℕ)
    → All IsReleased (map (observe w) ords)
    → All (λ i. IsReleased (observe w i)) ords
All-observe w [] h = tt
All-observe w (o ∷ os) h = (h.0, All-observe w os h.1)

-- The survivors' notices: each departed ordinal to each ordinal that stays.
abbrev pub notices : ℕ → ℕ → List Call
notices prev desired = leave_calls (ordinals desired) (reverse (departing_ordinals prev desired))

-- What has happened when the hooks let .spec.replicas shrink from `prev` to `desired`.
pub record Shrinks (w : World) (prev desired : ℕ) (calls : List Call) : Type 0 where
  pub released : (i : ℕ) → desired ≤ i → i < prev → IsReleased (observe w i)
  pub removals : List Call
  pub removed : Removed w prev [] (map suc (departing_ordinals prev desired)) removals
  pub made : calls ≡ removals ++ notices prev desired

abbrev plan_of : World → ℕ → ℕ → Plan
plan_of w prev desired = departure_plan (probe w (departing_ordinals prev desired)) w.together

told-nil : (w : World) (ords told : List ℕ) → told ≡ [] → (tell_decommission w ords told []).1 ≡ []
unfolding tell_decommission
told-nil w ords told e = rw e

module _ (w : World) (prev desired : ℕ) where
  drop-Shrinks :
      ((i : ℕ) → desired ≤ i → i < prev → IsReleased (observe w i))
      → (drop_departed w prev desired []).0 ≡ true
      → Shrinks w prev desired (drop_departed w prev desired []).1
  unfolding drop_departed finish_hooks
  drop-Shrinks released h = go (remove_departed_voters w prev ids []).0 refl h
    where
      ids : List ℕ
      ids = map suc (departing_ordinals prev desired)

      go :
          (r : Result (Unit {0}))
          → (remove_departed_voters w prev ids []).0 ≡ r
          → (finish_hooks prev desired r (remove_departed_voters w prev ids []).1).0 ≡ true
          → Shrinks w prev desired
              (finish_hooks prev desired r (remove_departed_voters w prev ids []).1).1
      go (ok u) e h = record {
        released = released;
        removals = (remove_departed_voters w prev ids []).1;
        removed = remove-Removed w prev ids [] e;
        made = refl;
      }
      go (err f) e h = cc

  pub evacuated-IsReleased :
      (plan_of w prev desired).evacuated ≡ true
      → (i : ℕ) → desired ≤ i
      → i < prev
      → IsReleased (observe w i)
  evacuated-IsReleased e =
      let ords = departing_ordinals prev desired in
      All-departing_ordinals (λ i. IsReleased (observe w i)) prev desired
        (All-observe w ords (
          (departure_plan_lem (map (observe w) ords) w.together).0.0
            (rw departure_plan-probe at e)))

  past_gate :
      let calls =
        (tell_decommission w
          (departing_ordinals prev desired)
          (plan_of w prev desired).tell
          []).1 in
      let result =
        if (plan_of w prev desired).evacuated
        then drop_departed w prev desired calls
        else (false, calls) in
      result.0 ≡ true → Shrinks w prev desired result.1
  past_gate h = elim (Bool-cases (plan_of w prev desired).evacuated) [
    | inl e ↦
        let none_told =
          told-nil w (departing_ordinals prev desired) (plan_of w prev desired).tell
            (tell-nil _ w.together e) in
        rw (e, none_told) (drop-Shrinks (evacuated-IsReleased e) (rw (e, none_told) at h))
    | inr e ↦ cc (rw e at h)
  ]

-- .spec.replicas shrinks only when every departing pod that answers reports "leaving", and every
-- departing node id was removed from the Raft voters, from the highest down, each through the
-- leader that was visible at that moment and with a grant. No pod was told to decommission in that
-- pass, and the survivors are told of the departed nodes last.
pub run_scale_down_cluster_hooks-Shrinks :
    (w : World) (prev desired : ℕ)
    → desired < prev
    → (run_scale_down_cluster_hooks w prev desired).0 ≡ true
    → Shrinks w prev desired (run_scale_down_cluster_hooks w prev desired).1
unfolding run_scale_down_cluster_hooks
run_scale_down_cluster_hooks-Shrinks w prev desired lt h =
    let shrinks : (leb prev desired || ltb prev 1) ≡ false = ground arith in
    rw shrinks (past_gate w prev desired (rw shrinks at h))
