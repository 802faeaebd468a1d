-- ===== src/ScaleDown/Hooks.antt =====
-- runScaleDownClusterHooks, removeDepartedVoters and raftLeaderHost of
-- internal/controller/hyperbytedbcluster_controller.go. A pod is named by its ordinal, and a host of
-- the map `hosts` by its node id, which is the ordinal plus 1.
use hyperbytedb_operator.Prelude.{
  ℕ, zero, suc, String, Bool, true, false, not, ◌&&◌, ◌||◌, List, [], ◌∷◌, ◌++◌, map, reverse,
  Option, none, some, str_eq, ltb, leb, if◌then◌else◌, get_elem?, Failure, other, Result, ok, err,
  is_ok, check, Exec, pure, ◌>>◌,
}
use hyperbytedb_operator.Ordinals.{ordinals}
use hyperbytedb_operator.ScaleDown.Plan.{DepartingNode, node_state_leaving, departure_plan}

pub data Call : Type 0 where
  -- DecommissionNode, to the pod of an ordinal
  decommission : (ordinal : ℕ) → Call
  -- RemoveClusterNode, through the leader's host
  remove : (leader id : ℕ) → Call
  -- LeaveNode, to the pod of a surviving ordinal
  leave : (survivor departed : ℕ) → Call

-- What the nodes answer. An answer may depend on the calls made before it: removing the leader
-- makes it step down.
pub record World : Type 0 where
  -- EvacuateTogether
  pub together : Bool
  -- the "state" of GetNodeHealth, by ordinal
  pub health : ℕ → Result String
  -- the LeaderID of GetClusterLeader, asked at the host of a node id
  pub leader : List Call → ℕ → Result (Option ℕ)
  pub answer : List Call → Call → Option Failure

-- The calls made so far, in order.
abbrev pub Step : Type 0 → Type 0
Step A = Exec (List Call) A

abbrev health_state : Result String → String
health_state (ok state) = state
health_state (err e) = ""

-- A node as its health shows it.
abbrev pub observe : World → ℕ → DepartingNode
observe w i = record { state = health_state (w.health i); reachable = is_ok (w.health i) }

-- The ordinals that leave, from the highest down: prev - 1, …, desired.
unfoldable pub departing_ordinals : ℕ → ℕ → List ℕ
departing_ordinals zero desired = []
departing_ordinals (suc i) desired =
    let rest = departing_ordinals i desired in if leb desired i then i ∷ rest else []

-- The node ids of the first `n` ordinals, ascending: the sorted keys of `hosts`.
unfoldable pub node_ids : ℕ → List ℕ
unfolding ordinals
node_ids n = map suc (ordinals n)

abbrev is_host : ℕ → ℕ → Bool
is_host n id = leb 1 id && leb id n

-- One host's answer: its leader, if that is a host, and else what the later hosts say.
unfoldable pub or_later : ℕ → Result (Option ℕ) → Option ℕ → Option ℕ
or_later n (ok (some l)) later = if is_host n l then some l else later
or_later n _ later = later

module _ (w : World) where
  -- The first loop of runScaleDownClusterHooks. One at a time, it ends at the first node that
  -- answers and still holds data.
  unfoldable pub probe : List ℕ → List DepartingNode
  probe [] = []
  probe (i ∷ is) =
      let n = observe w i in
      let rest = probe is in
      if not w.together && n.reachable && not (str_eq n.state node_state_leaving)
      then n ∷ []
      else n ∷ rest

  unfoldable pub tell_decommission : List ℕ → List ℕ → Step (Unit {0})
  tell_decommission ords [] = pure tt
  tell_decommission ords (i ∷ is) = λ calls.
      tell_decommission ords is
        (elim (get_elem? ords i) [ some o ↦ calls ++ (decommission o ∷ []) | none ↦ calls ])

  -- raftLeaderHost, where `hosts` holds the ids 1, …, n; `none` is "no raft leader visible".
  unfoldable pub first_leader : ℕ → List Call → List ℕ → Option ℕ
  unfolding or_later
  first_leader n calls [] = none
  first_leader n calls (id ∷ ids) = or_later n (w.leader calls id) (first_leader n calls ids)

  unfoldable pub raft_leader_host : ℕ → List Call → Option ℕ
  unfolding first_leader node_ids
  raft_leader_host n calls = first_leader n calls (node_ids n)

  unfoldable pub remove_via : Option ℕ → ℕ → Step (Unit {0})
  remove_via none id calls = (err (other 0), calls)
  remove_via (some l) id calls = (check (w.answer calls (remove l id)), calls ++ (remove l id ∷ []))

  -- The leader is looked up again before every removal.
  unfoldable pub remove_departed_voters : ℕ → List ℕ → Step (Unit {0})
  unfolding remove_via
  remove_departed_voters n [] = pure tt
  remove_departed_voters n (id ∷ ids) =
      (λ calls. remove_via (raft_leader_host n calls) id calls) >> remove_departed_voters n ids

-- The calls of the last loop: each departed ordinal, from the lowest up, to each survivor. Their
-- errors are only logged.
unfoldable pub leave_calls : List ℕ → List ℕ → List Call
leave_calls survivors [] = []
leave_calls survivors (i ∷ is) = map (λ j. leave j (suc i)) survivors ++ leave_calls survivors is

-- What follows the removals: `r` is their outcome.
unfoldable pub finish_hooks : ℕ → ℕ → Result (Unit {0}) → List Call → Bool × List Call
finish_hooks prev desired (err e) calls = (false, calls)
finish_hooks prev desired (ok _) calls =
    (true, calls ++ leave_calls (ordinals desired) (reverse (departing_ordinals prev desired)))

module _ (w : World) where
  -- Behind the gate: drop the departing nodes from the voters, then tell the survivors.
  unfoldable pub drop_departed : ℕ → ℕ → List Call → Bool × List Call
  unfolding finish_hooks
  drop_departed prev desired calls =
      let (r, calls') =
        remove_departed_voters w prev (map suc (departing_ordinals prev desired)) calls in
      finish_hooks prev desired r calls'

  -- runScaleDownClusterHooks: whether .spec.replicas may shrink, and the calls made.
  unfoldable pub run_scale_down_cluster_hooks : ℕ → ℕ → Bool × List Call
  unfolding drop_departed
  run_scale_down_cluster_hooks prev desired =
      let ords = departing_ordinals prev desired in
      let plan = departure_plan (probe w ords) w.together in
      let calls = (tell_decommission w ords plan.tell []).1 in
      if leb prev desired || ltb prev 1
      then (true, [])
      else if plan.evacuated
      then drop_departed prev desired calls
      else (false, calls)
