-- ===== src/Membership.antt =====
-- reconcileClusterMembership and findLeader of internal/controller/hyperbytedbcluster_controller.go.
-- A host is named by the ordinal of its pod; node ids are ordinals plus 1.
mod Known
mod Adds
mod Leader
mod Laws
mod Complete
mod Samples
use hyperbytedb_operator.Prelude.{
  ℕ, zero, suc, ◌+◌, Bool, true, false, not, ◌&&◌, ◌||◌, List, [], ◌∷◌, ◌++◌, map, Option, none,
  some, is_none, leb, ◌==◌, if◌then◌else◌, length, Failure, Result, ok, err,
}
use hyperbytedb_operator.Prelude.Int.{ℤ, pos, negsuc}
use hyperbytedb_operator.Client.{NodeInfo}
use hyperbytedb_operator.ScaleDown.Plan.{is_departed_state}
use hyperbytedb_operator.Ordinals.{ordinals}
use hyperbytedb_operator.Members.{MemberStatus}

-- AddClusterNode, sent to the leader's host, with promotion
pub data Call : Type 0 where
  add_node : (leader id : ℕ) → Call

-- The answers of GetClusterNodes and of GetClusterLeader by ordinal, and the error, if any, of an
-- add-node, which may depend on those sent before it.
pub record World : Type 0 where
  pub nodes : ℕ → Result (List NodeInfo)
  pub leader : ℕ → Result (Option ℕ)
  pub answer : List Call → Call → Option Failure

pub record PodView : Type 0 where
  pub ordinal : ℕ
  pub node_id : ℕ
  pub reachable : Bool
  pub nodes : List NodeInfo

unfoldable pub new_view : ℕ → Result (List NodeInfo) → PodView
new_view i (ok nodes) = record { ordinal = i; node_id = suc i; reachable = true; nodes = nodes }
new_view i (err e) = record { ordinal = i; node_id = suc i; reachable = false; nodes = [] }

unfoldable pub views_of : World → ℕ → List PodView
views_of w replicas = map (λ i. new_view i (w.nodes i)) (ordinals replicas)

-- The host of a node id, in front of what to answer if there is none.
unfoldable pub find_view : ℕ → List PodView → Option (ℕ × ℕ) → Option (ℕ × ℕ)
find_view id [] other = other
find_view id (v ∷ vs) other =
    let rest = find_view id vs other in if v.node_id == id then some (v.ordinal, id) else rest

-- What one pod makes of its answer; `later` is what the later pods lead to.
unfoldable pub leader_by :
    List PodView → PodView → Result (Option ℕ) → Option (ℕ × ℕ) → Option (ℕ × ℕ)
unfolding find_view
leader_by all v (ok (some id)) later =
    if id == v.node_id then some (v.ordinal, id) else find_view id all later
leader_by all v _ later = later

-- findLeader over the views that are left: the host and the id.
unfoldable pub find_leader : World → List PodView → List PodView → Option (ℕ × ℕ)
unfolding leader_by
find_leader w all [] = none
find_leader w all (v ∷ vs) =
    let later = find_leader w all vs in
    if not v.reachable then later else leader_by all v (w.leader v.ordinal) later

-- A map[uint64]bool as the list of its keys.
unfoldable pub is_known : List ℕ → ℕ → Bool
is_known [] id = false
is_known (k ∷ ks) id = (k == id) || is_known ks id

unfoldable pub put : ℕ → List ℕ → List ℕ
unfolding is_known
put id ids = if is_known ids id then ids else id ∷ ids

unfoldable pub put_nodes : List NodeInfo → List ℕ → List ℕ
unfolding put
put_nodes [] ids = ids
put_nodes (n ∷ ns) ids = put_nodes ns (if is_departed_state n.state then ids else put n.node_id ids)

unfoldable pub put_views : ℕ → List PodView → List ℕ → List ℕ
unfolding put_nodes
put_views host [] ids = ids
put_views host (v ∷ vs) ids =
    put_views host vs (if v.ordinal == host then put_nodes v.nodes ids else ids)

-- knownIDs
unfoldable pub known_ids : ℕ → ℕ → List PodView → List ℕ
unfolding put_views
known_ids host id views = put id (put_views host views [])

module _ (w : World) (host : ℕ) (known : List ℕ) where
  -- whether add-node is sent for a pod
  unfoldable pub is_missing : PodView → Bool
  is_missing v = v.reachable && not (is_known known v.node_id)

  -- The loop that sends add-node: allMembers, and the calls after those made before.
  unfoldable pub add_missing : List PodView → List Call → Bool × List Call
  unfolding is_missing
  add_missing [] calls = (true, calls)
  add_missing (v ∷ vs) calls =
      let c = add_node host v.node_id in
      let calls' = if is_missing v then calls ++ (c ∷ []) else calls in
      let fine = v.reachable && (is_known known v.node_id || is_none (w.answer calls c)) in
      let (all, made) = add_missing vs calls' in (fine && all, made)

-- int32(len(nodes)) - 1
unfoldable pub peers : List NodeInfo → ℤ
peers [] = negsuc 0
peers (n ∷ ns) = pos (length ns)

-- The first member with the node id gets the count.
unfoldable pub set_peers : ℕ → ℤ → List MemberStatus → List MemberStatus
set_peers id count [] = []
set_peers id count (m ∷ ms) =
    let rest = set_peers id count ms in
    if m.node_id == id then record m { peer_count = count } ∷ ms else m ∷ rest

unfoldable pub set_peer_counts : List PodView → List MemberStatus → List MemberStatus
unfolding set_peers peers
set_peer_counts [] members = members
set_peer_counts (v ∷ vs) members =
    set_peer_counts vs
      (if v.reachable then set_peers v.node_id (peers v.nodes) members else members)

-- The condition ClusterFormed: True for `all_nodes_members`, else False.
pub data ClusterFormed : Type 0 where
  no_leader all_nodes_members : ClusterFormed
  membership_incomplete : (known : ℕ) → ClusterFormed

pub record Outcome : Type 0 where
  pub formed : ClusterFormed
  pub calls : List Call
  pub members : List MemberStatus

-- The part behind the leader's discovery.
unfoldable pub with_leader : World → ℕ → List MemberStatus → List PodView → Option (ℕ × ℕ) → Outcome
unfolding known_ids add_missing set_peer_counts
with_leader w replicas members views none = record {
  formed = no_leader;
  calls = [];
  members = members;
}
with_leader w replicas members views (some (host, id)) =
    let known = known_ids host id views in
    let (all, calls) = add_missing w host known views [] in
    record {
      formed =
          if all && leb replicas (length known)
          then all_nodes_members
          else membership_incomplete (length known);
      calls = calls;
      members = set_peer_counts views members;
    }

unfoldable pub reconcile_cluster_membership : World → ℕ → List MemberStatus → Outcome
unfolding views_of find_leader with_leader
reconcile_cluster_membership w replicas members =
    let views = views_of w replicas in
    with_leader w replicas members views (find_leader w views views)
