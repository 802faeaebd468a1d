-- ===== src/Membership/Laws.antt =====
-- Whom the leader is asked to add, and when the cluster counts as formed.
use hyperbytedb_operator.Prelude.{
  ℕ, suc, ◌<◌, ◌≡◌, refl, ◌⊎◌, inl, inr, true, List, [], Option, none, some, arith, All, Result, ok,
  err,
}
use hyperbytedb_operator.Client.{NodeInfo}
use hyperbytedb_operator.Ordinals.{map-ordinals-at, map-ordinals-Any}
use hyperbytedb_operator.Members.{MemberStatus}
use hyperbytedb_operator.Membership.{
  Call, add_node, World, new_view, views_of, find_leader, known_ids, add_missing, all_nodes_members,
  with_leader, reconcile_cluster_membership,
}
use hyperbytedb_operator.Membership.Known.{IsMember, known-IsMember, IsMember-known}
use hyperbytedb_operator.Membership.Adds.{
  Accepted, Joined, Missing, add_missing-Joined, add_missing-Missing,
}
use hyperbytedb_operator.Membership.Leader.{IsLeader, Leads, views-IsView, find_leader-Leads}

-- The pod of an ordinal answers, and the leader counts it as a member or has just accepted it.
abbrev pub HasJoined : World → (host id : ℕ) → List Call → ℕ → Type 0
HasJoined w host id calls i =
    ((ns : List NodeInfo) × (w.nodes i ≡ ok ns))
    × (IsMember w host id (suc i) ⊎ Accepted w calls (add_node host (suc i)))

-- What a cluster that counts as formed has.
pub record IsFormed (w : World) (replicas : ℕ) (calls : List Call) : Type 0 where
  pub host : ℕ
  pub id : ℕ
  pub leads : IsLeader w replicas host id
  pub joined : (i : ℕ) → i < replicas → HasJoined w host id calls i

-- Why an add-node is sent.
pub record IsAsked (w : World) (replicas : ℕ) (c : Call) : Type 0 where
  pub host : ℕ
  pub id : ℕ
  pub leads : IsLeader w replicas host id
  pub ordinal : ℕ
  pub below : ordinal < replicas
  pub answers : (ns : List NodeInfo) × (w.nodes ordinal ≡ ok ns)
  pub call : c ≡ add_node host (suc ordinal)
  pub unknown : ¬ IsMember w host id (suc ordinal)

Joined-of :
    (w : World) (replicas host id : ℕ) (calls : List Call) (i : ℕ)
    → (r : Result (List NodeInfo)) → w.nodes i ≡ r
    → Joined w host (known_ids host id (views_of w replicas)) calls (new_view i r)
    → HasJoined w host id calls i
unfolding new_view
Joined-of w replicas host id calls i (err f) e (up, j) = cc
Joined-of w replicas host id calls i (ok ns) e (up, j) =
    ((ns, e), elim j [ inl k ↦ inl (known-IsMember w replicas host id (suc i) k) | inr a ↦ inr a ])

IsAsked-of :
    (w : World) (replicas host id : ℕ) (c : Call) (i : ℕ)
    → IsLeader w replicas host id
    → i < replicas
    → (r : Result (List NodeInfo)) → w.nodes i ≡ r
    → Missing w host (known_ids host id (views_of w replicas)) c (new_view i r)
    → IsAsked w replicas c
unfolding new_view
IsAsked-of w replicas host id c i lead l (err f) e m = cc m.1
IsAsked-of w replicas host id c i lead l (ok ns) e m = record {
  host = host;
  id = id;
  leads = lead;
  ordinal = i;
  below = l;
  answers = (ns, e);
  call = m.0;
  unknown = λ k. let known = IsMember-known w replicas host id (suc i) lead.1 k in cc (known, m.2);
}

module _ (w : World) (replicas : ℕ) (members : List MemberStatus) where
  with_leader-IsFormed :
      (found : Option (ℕ × ℕ))
      → Leads w replicas found
      → (with_leader w replicas members (views_of w replicas) found).formed ≡ all_nodes_members
      → IsFormed w replicas (with_leader w replicas members (views_of w replicas) found).calls
  unfolding with_leader views_of
  with_leader-IsFormed none lead h = cc
  with_leader-IsFormed (some (host, id)) lead h =
      let known = known_ids host id (views_of w replicas) in
      let result = add_missing w host known (views_of w replicas) [] in
      let all : result.0 ≡ true = ground arith in
      let joined = add_missing-Joined w host known (views_of w replicas) [] result.1 all refl in
      record {
        host = host;
        id = id;
        leads = lead;
        joined = λ i l. Joined-of w replicas host id result.1 i (w.nodes i) refl (
            map-ordinals-at (λ i. new_view i (w.nodes i)) (Joined w host known result.1) replicas
              joined i l);
      }

  with_leader-IsAsked :
      (found : Option (ℕ × ℕ))
      → Leads w replicas found
      → All (IsAsked w replicas) (with_leader w replicas members (views_of w replicas) found).calls
  unfolding with_leader views_of
  with_leader-IsAsked none lead = tt
  with_leader-IsAsked (some (host, id)) lead =
      let known = known_ids host id (views_of w replicas) in
      add_missing-Missing w host known (views_of w replicas) [] (IsAsked w replicas)
        (λ c a.
          let (i, l, m) =
            map-ordinals-Any (λ i. new_view i (w.nodes i)) (Missing w host known c) replicas a in
          IsAsked-of w replicas host id c i lead l (w.nodes i) refl m)
        tt

-- The condition ClusterFormed is set to True only if the pod that leads the cluster was found, and
-- every pod below the replica count answers and is a member: the leader itself, a node that the
-- leader lists as one that has not departed, or a node that the leader has accepted in this pass.
pub reconcile_cluster_membership-IsFormed :
    (w : World) (replicas : ℕ) (members : List MemberStatus)
    → (reconcile_cluster_membership w replicas members).formed ≡ all_nodes_members
    → IsFormed w replicas (reconcile_cluster_membership w replicas members).calls
unfolding reconcile_cluster_membership
reconcile_cluster_membership-IsFormed w replicas members =
    let views = views_of w replicas in
    let fine = views-IsView w replicas in
    with_leader-IsFormed w replicas members (find_leader w views views)
      (find_leader-Leads w replicas views fine views fine)

-- Each add-node goes to the pod that leads, as a pod that answers reports it, and is for a pod below
-- the replica count that answers and is neither the leader nor listed by it as a member: a node that
-- the leader lists as departed is asked for again, and a pod above the replica count never is.
pub reconcile_cluster_membership-IsAsked :
    (w : World) (replicas : ℕ) (members : List MemberStatus)
    → All (IsAsked w replicas) (reconcile_cluster_membership w replicas members).calls
unfolding reconcile_cluster_membership
reconcile_cluster_membership-IsAsked w replicas members =
    let views = views_of w replicas in
    let fine = views-IsView w replicas in
    with_leader-IsAsked w replicas members (find_leader w views views)
      (find_leader-Leads w replicas views fine views fine)
