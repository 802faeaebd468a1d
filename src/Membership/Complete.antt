-- ===== src/Membership/Complete.antt =====
-- Every pod that is missing is asked for.
use hyperbytedb_operator.Prelude.{
  ℕ, suc, ◌<◌, ◌≡◌, refl, sym, ◌∙◌, inl, inr, true, List, [], ◌∷◌, ◌++◌, some, All, Any, Bool-cases,
  Result, ok, err,
}
use mathlib.Core.Path.{subst}
use mathlib.Core.List.{append_assoc}
use hyperbytedb_operator.Client.{NodeInfo}
use hyperbytedb_operator.Ordinals.{map-ordinals-at}
use hyperbytedb_operator.Members.{MemberStatus}
use hyperbytedb_operator.Membership.{
  Call, add_node, World, PodView, new_view, views_of, find_leader, is_known, known_ids, is_missing,
  add_missing, with_leader, reconcile_cluster_membership,
}
use hyperbytedb_operator.Membership.Known.{IsMember, known-IsMember}
use hyperbytedb_operator.Membership.Adds.{add_missing-extends}

Any-middle : {A : Type 0} (c : A) (before after : List A) → Any (λ x. x ≡ c) (before ++ (c ∷ after))
Any-middle c [] after = inl refl
Any-middle c (b ∷ before) after = inr (Any-middle c before after)

-- If the pod is missing, its add-node is among the calls.
abbrev Asked : World → ℕ → List ℕ → List Call → PodView → Type 0
Asked w host known final v =
    is_missing w host known v ≡ true → Any (λ c. c ≡ add_node host v.node_id) final

module _ (w : World) (host : ℕ) (known : List ℕ) where
  add_missing-Asked :
      (vs : List PodView) (calls final : List Call)
      → final ≡ (add_missing w host known vs calls).1
      → All (Asked w host known final) vs
  unfolding add_missing
  add_missing-Asked [] calls final e = tt
  add_missing-Asked (v ∷ vs) calls final e = elim (Bool-cases (is_missing w host known v)) [
    | inl b ↦
        let c = add_node host v.node_id in
        let e' : final ≡ (add_missing w host known vs (calls ++ (c ∷ []))).1 = rw b at e in
        let (more, e'') = add_missing-extends w host known vs (calls ++ (c ∷ [])) in
        let made : final ≡ calls ++ (c ∷ more) = e' ∙ e'' ∙ append_assoc calls (c ∷ []) more in
        (
          (λ h. rw made (Any-middle c calls more)),
          add_missing-Asked vs (calls ++ (c ∷ [])) final e',
        )
    | inr b ↦
        let e' : final ≡ (add_missing w host known vs calls).1 = rw b at e in
        ((λ h. cc), add_missing-Asked vs calls final e')
  ]

missing_of :
    (w : World) (replicas host id i : ℕ) (r : Result (List NodeInfo)) (ns : List NodeInfo)
    → r ≡ ok ns
    → ¬ IsMember w host id (suc i)
    → is_missing w host (known_ids host id (views_of w replicas)) (new_view i r) ≡ true
unfolding is_missing new_view
missing_of w replicas host id i (err f) ns e out = cc
missing_of w replicas host id i (ok ms) ns e out =
    elim (Bool-cases (is_known (known_ids host id (views_of w replicas)) (suc i))) [
      | inl b ↦ absurd (out (known-IsMember w replicas host id (suc i) b))
      | inr b ↦ rw b refl
    ]

node_of : (i : ℕ) (r : Result (List NodeInfo)) → (new_view i r).node_id ≡ suc i
unfolding new_view
node_of i (ok ns) = refl
node_of i (err e) = refl

with_leader-asks :
    (w : World) (replicas : ℕ) (members : List MemberStatus) (host id i : ℕ) (ns : List NodeInfo)
    → i < replicas
    → w.nodes i ≡ ok ns
    → ¬ IsMember w host id (suc i)
    → Any
        (λ c. c ≡ add_node host (suc i))
        (with_leader w replicas members (views_of w replicas) (some (host, id))).calls
unfolding with_leader views_of
with_leader-asks w replicas members host id i ns l e out =
    let views = views_of w replicas in
    let known = known_ids host id views in
    let final = (add_missing w host known views []).1 in
    let asked =
      map-ordinals-at (λ i. new_view i (w.nodes i)) (Asked w host known final) replicas
        (add_missing-Asked w host known views [] final refl) i l in
    subst (λ k. Any (λ c. c ≡ add_node host k) final) (node_of i (w.nodes i))
      (asked (missing_of w replicas host id i (w.nodes i) ns e out))

-- If a leader is found, an add-node is sent to it for each pod below the replica count that answers
-- and is neither the leader nor listed by it as a current member.
pub reconcile_cluster_membership-asks :
    (w : World) (replicas : ℕ) (members : List MemberStatus) (host id i : ℕ) (ns : List NodeInfo)
    → find_leader w (views_of w replicas) (views_of w replicas) ≡ some (host, id)
    → i < replicas
    → w.nodes i ≡ ok ns
    → ¬ IsMember w host id (suc i)
    → Any (λ c. c ≡ add_node host (suc i)) (reconcile_cluster_membership w replicas members).calls
unfolding reconcile_cluster_membership
reconcile_cluster_membership-asks w replicas members host id i ns found l e out =
    subst
      (λ leader.
        Any (λ c. c ≡ add_node host (suc i))
          (with_leader w replicas members (views_of w replicas) leader).calls)
      (sym found) (with_leader-asks w replicas members host id i ns l e out)
