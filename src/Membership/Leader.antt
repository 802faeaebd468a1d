-- ===== src/Membership/Leader.antt =====
-- Which leader findLeader finds.
use hyperbytedb_operator.Prelude.{
  ℕ, suc, ◌<◌, ◌≡◌, refl, sym, ◌∙◌, inl, inr, true, List, [], ◌∷◌, Option, none, some, ◌==◌, arith,
  All, Bool-cases, Result, ok, err,
}
use hyperbytedb_operator.Client.{NodeInfo}
use hyperbytedb_operator.Ordinals.{map-ordinals-All}
use hyperbytedb_operator.Membership.{
  World, PodView, new_view, views_of, find_view, leader_by, find_leader,
}

-- A pod that answers reports the leader `id`.
abbrev pub Reported : World → (replicas id : ℕ) → Type 0
Reported w replicas id =
    (i : ℕ) × (i < replicas)
    × ((ns : List NodeInfo) × (w.nodes i ≡ ok ns))
    × (w.leader i ≡ ok (some id))

-- A pod that answers reports the leader `id`, and it is the node id of the pod `host`.
abbrev pub IsLeader : World → (replicas host id : ℕ) → Type 0
IsLeader w replicas host id = (id ≡ suc host) × (host < replicas) × Reported w replicas id

abbrev pub Leads : World → ℕ → Option (ℕ × ℕ) → Type 0
Leads w replicas none = Unit
Leads w replicas (some (host, id)) = IsLeader w replicas host id

-- What is true of each view.
abbrev pub IsView : World → ℕ → PodView → Type 0
IsView w replicas v =
    (v.node_id ≡ suc v.ordinal)
    × (v.ordinal < replicas)
    × (v.reachable ≡ true → (ns : List NodeInfo) × (w.nodes v.ordinal ≡ ok ns))

module _ (w : World) (replicas : ℕ) where
  new_view-IsView :
      (i : ℕ) (r : Result (List NodeInfo))
      → i < replicas
      → w.nodes i ≡ r
      → IsView w replicas (new_view i r)
  unfolding new_view
  new_view-IsView i (ok ns) l e = (refl, l, λ _. (ns, e))
  new_view-IsView i (err f) l e = (refl, l, λ h. cc)

  pub views-IsView : All (IsView w replicas) (views_of w replicas)
  unfolding views_of
  views-IsView =
      map-ordinals-All (λ i. new_view i (w.nodes i)) (IsView w replicas) replicas
        (λ i l. new_view-IsView i (w.nodes i) l refl)

  find_view-Leads :
      (id : ℕ) (vs : List PodView) (other : Option (ℕ × ℕ))
      → Reported w replicas id
      → All (IsView w replicas) vs
      → Leads w replicas other
      → Leads w replicas (find_view id vs other)
  unfolding find_view
  find_view-Leads id [] other rep h k = k
  find_view-Leads id (v ∷ vs) other rep h k = elim (Bool-cases (v.node_id == id)) [
    | inl b ↦ let e : v.node_id ≡ id = ground arith in rw b (sym e ∙ h.0.0, h.0.1, rep)
    | inr b ↦ rw b (find_view-Leads id vs other rep h.1 k)
  ]

  module _ (all : List PodView) (fine : All (IsView w replicas) all) where
    leader_by-Leads :
        (v : PodView) (r : Result (Option ℕ)) (later : Option (ℕ × ℕ))
        → IsView w replicas v
        → v.reachable ≡ true
        → w.leader v.ordinal ≡ r
        → Leads w replicas later
        → Leads w replicas (leader_by all v r later)
    unfolding leader_by
    leader_by-Leads v (err f) later h up e k = k
    leader_by-Leads v (ok none) later h up e k = k
    leader_by-Leads v (ok (some id)) later h up e k =
        let rep : Reported w replicas id = (v.ordinal, h.1, h.2 up, e) in
        elim (Bool-cases (id == v.node_id)) [
          | inl b ↦ let same : id ≡ v.node_id = ground arith in rw b (same ∙ h.0, h.1, rep)
          | inr b ↦ rw b (find_view-Leads id all later rep fine k)
        ]

    pub find_leader-Leads :
        (vs : List PodView) → All (IsView w replicas) vs → Leads w replicas (find_leader w all vs)
    unfolding find_leader
    find_leader-Leads [] h = tt
    find_leader-Leads (v ∷ vs) h =
        let ih = find_leader-Leads vs h.1 in
        elim (Bool-cases v.reachable) [
          | inl b ↦
              simp b (leader_by-Leads v (w.leader v.ordinal) (find_leader w all vs) h.0 b refl ih)
          | inr b ↦ simp b ih
        ]
