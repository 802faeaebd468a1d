-- ===== src/Membership/Samples.antt =====
-- Three pods: the first leads and lists itself and a departed third; the second is not listed.
use mathlib.Core.Path.{subst}
use hyperbytedb_operator.Prelude.{
  sym, Result, List, Any, inl, inr, arith, ℕ, suc, ◌≡◌, refl, [], ◌∷◌, none, some, All, ok, err,
}
use hyperbytedb_operator.Ordinals.{ordinals}
use hyperbytedb_operator.Client.{NodeInfo}
use hyperbytedb_operator.ScaleDown.Plan.{is_departed_state}
use hyperbytedb_operator.Membership.{
  World, add_node, all_nodes_members, reconcile_cluster_membership, new_view, find_leader, views_of,
}
use hyperbytedb_operator.Membership.Known.{IsMember, HasMember}
use hyperbytedb_operator.Membership.Complete.{reconcile_cluster_membership-asks}
use hyperbytedb_operator.Membership.Laws.{
  IsFormed, IsAsked, reconcile_cluster_membership-IsFormed, reconcile_cluster_membership-IsAsked,
}

abbrev node : ℕ → NodeInfo
node i = record { node_id = suc i; addr = ""; state = "active" }

abbrev world : World
world = record {
  nodes = λ i. ok (node 0 ∷ record (node 2) { state = "leaving" } ∷ []);
  leader = λ i. ok (some 1);
  answer = λ calls c. none;
}

asks : (reconcile_cluster_membership world 3 []).calls ≡ add_node 0 2 ∷ add_node 0 3 ∷ []
unfolding reconcile_cluster_membership ordinals new_view is_departed_state
asks = refl

reconcile_cluster_membership-IsAsked_example :
    All (IsAsked world 3) (reconcile_cluster_membership world 3 []).calls
reconcile_cluster_membership-IsAsked_example = reconcile_cluster_membership-IsAsked world 3 []

-- all three are listed
abbrev listed : World
listed = record world { nodes = λ i. ok (node 0 ∷ node 1 ∷ node 2 ∷ []) }

formed : (reconcile_cluster_membership listed 3 []).formed ≡ all_nodes_members
unfolding reconcile_cluster_membership ordinals new_view is_departed_state
formed = refl

reconcile_cluster_membership-IsFormed_example :
    IsFormed listed 3 (reconcile_cluster_membership listed 3 []).calls
reconcile_cluster_membership-IsFormed_example =
    reconcile_cluster_membership-IsFormed listed 3 [] formed

finds : find_leader world (views_of world 3) (views_of world 3) ≡ some (0, 1)
unfolding find_leader views_of ordinals new_view
finds = refl

abbrev ListsThird : Result (List NodeInfo) → Type 0
ListsThird (ok ns) = HasMember 3 ns
ListsThird (err e) = ⊥

not_listed : ¬ ListsThird (world.nodes 0)
unfolding is_departed_state
not_listed (inl (e, a)) = omega (arith, e)
not_listed (inr (inl (e, a))) = cc a
not_listed (inr (inr a)) = elim a [ ]

-- the third node is listed, as one that is leaving
out : ¬ IsMember world 0 1 3
out (inl e) = omega (arith, e)
out (inr (ns, e, m)) = not_listed (subst ListsThird (sym e) m)

reconcile_cluster_membership-asks_example :
    Any (λ c. c ≡ add_node 0 3) (reconcile_cluster_membership world 3 []).calls
reconcile_cluster_membership-asks_example =
    reconcile_cluster_membership-asks world 3 [] 0 1 2
      (node 0 ∷ record (node 2) { state = "leaving" } ∷ []) finds (omega arith) refl out
