-- ===== src/Membership/Known.antt =====
-- The node ids that the leader counts as members.
use hyperbytedb_operator.Prelude.{
  ℕ, ◌<◌, ◌≡◌, refl, sym, ◌⊎◌, inl, inr, true, false, List, [], ◌∷◌, ◌==◌, if◌then◌else◌, arith,
  Any, Bool-cases, Result, ok, err,
}
use hyperbytedb_operator.Client.{NodeInfo}
use hyperbytedb_operator.Ordinals.{map-ordinals-has, map-ordinals-Any}
use hyperbytedb_operator.ScaleDown.Plan.{is_departed_state}
use hyperbytedb_operator.Membership.{
  World, PodView, new_view, views_of, is_known, put, put_nodes, put_views, known_ids,
}

-- Among `nodes` is a current member, not a departed one, with the node id.
abbrev pub HasMember : ℕ → List NodeInfo → Type 0
HasMember id = Any (λ n. (n.node_id ≡ id) × (is_departed_state n.state ≡ false))

is_known-put :
    (id : ℕ) (ids : List ℕ) (k : ℕ)
    → is_known (put id ids) k ≡ true
    → (k ≡ id) ⊎ (is_known ids k ≡ true)
unfolding put is_known
is_known-put id ids k h = ground arith

is_known-put_nodes :
    (ns : List NodeInfo) (ids : List ℕ) (k : ℕ)
    → is_known (put_nodes ns ids) k ≡ true
    → HasMember k ns ⊎ (is_known ids k ≡ true)
unfolding put_nodes
is_known-put_nodes [] ids k h = inr h
is_known-put_nodes (n ∷ ns) ids k h = elim (Bool-cases (is_departed_state n.state)) [
  | inl b ↦ ground (arith, is_known-put_nodes ns ids k)
  | inr b ↦
      ground (arith, is_known-put_nodes ns (put n.node_id ids) k, is_known-put n.node_id ids k)
]

is_known-put_views :
    (host : ℕ) (vs : List PodView) (ids : List ℕ) (k : ℕ)
    → is_known (put_views host vs ids) k ≡ true
    → Any (λ v. (v.ordinal ≡ host) × HasMember k v.nodes) vs ⊎ (is_known ids k ≡ true)
unfolding put_views
is_known-put_views host [] ids k h = inr h
is_known-put_views host (v ∷ vs) ids k h = elim (Bool-cases (v.ordinal == host)) [
  | inl b ↦ ground (
    arith,
    is_known-put_views host vs (put_nodes v.nodes ids) k,
    is_known-put_nodes v.nodes ids k,
  )
  | inr b ↦ ground (arith, is_known-put_views host vs ids k)
]

-- The pod of an ordinal is a member in the eyes of the leader: it is the leader, or the leader's
-- pod lists it as a member that has not departed.
abbrev pub IsMember : World → (host id : ℕ) → ℕ → Type 0
IsMember w host id k = (k ≡ id) ⊎ ((ns : List NodeInfo) × (w.nodes host ≡ ok ns) × HasMember k ns)

viewed :
    (w : World) (host i k : ℕ) (r : Result (List NodeInfo))
    → w.nodes i ≡ r
    → ((new_view i r).ordinal ≡ host) × HasMember k (new_view i r).nodes
    → (ns : List NodeInfo) × (w.nodes host ≡ ok ns) × HasMember k ns
unfolding new_view
viewed w host i k (ok ns) e (same, m) = (ns, rw (sym same) e, m)
viewed w host i k (err f) e (same, m) = elim m [ ]

pub known-IsMember :
    (w : World) (replicas host id k : ℕ)
    → is_known (known_ids host id (views_of w replicas)) k ≡ true
    → IsMember w host id k
unfolding known_ids views_of is_known
known-IsMember w replicas host id k h =
    let views = views_of w replicas in
    elim (is_known-put id (put_views host views []) k h) [
      | inl e ↦ inl e
      | inr e ↦ elim (is_known-put_views host views [] k e) [
        | inl a ↦
            let (i, l, v) =
              map-ordinals-Any (λ i. new_view i (w.nodes i))
                (λ v. (v.ordinal ≡ host) × HasMember k v.nodes) replicas a in
            inr (viewed w host i k (w.nodes i) refl v)
        | inr none_known ↦ cc
      ]
    ]

is_known-put_same : (id : ℕ) (ids : List ℕ) → is_known (put id ids) id ≡ true
unfolding put is_known
is_known-put_same id ids = ground arith

is_known-put_keeps :
    (id : ℕ) (ids : List ℕ) (k : ℕ) → is_known ids k ≡ true → is_known (put id ids) k ≡ true
unfolding put is_known
is_known-put_keeps id ids k h = ground arith

put_nodes-keeps :
    (ns : List NodeInfo) (ids : List ℕ) (k : ℕ)
    → is_known ids k ≡ true
    → is_known (put_nodes ns ids) k ≡ true
unfolding put_nodes
put_nodes-keeps [] ids k h = h
put_nodes-keeps (n ∷ ns) ids k h = elim (Bool-cases (is_departed_state n.state)) [
  | inl b ↦ rw b (put_nodes-keeps ns ids k h)
  | inr b ↦ rw b (put_nodes-keeps ns (put n.node_id ids) k (is_known-put_keeps n.node_id ids k h))
]

put_nodes-has :
    (ns : List NodeInfo) (ids : List ℕ) (k : ℕ)
    → HasMember k ns
    → is_known (put_nodes ns ids) k ≡ true
unfolding put_nodes
put_nodes-has [] ids k a = elim a [ ]
put_nodes-has (n ∷ ns) ids k (inl (e, b)) =
    let h : is_known (put n.node_id ids) k ≡ true = rw (sym e) (is_known-put_same n.node_id ids) in
    rw b (put_nodes-keeps ns (put n.node_id ids) k h)
put_nodes-has (n ∷ ns) ids k (inr a) =
    put_nodes-has ns (if is_departed_state n.state then ids else put n.node_id ids) k a

put_views-keeps :
    (host : ℕ) (vs : List PodView) (ids : List ℕ) (k : ℕ)
    → is_known ids k ≡ true
    → is_known (put_views host vs ids) k ≡ true
unfolding put_views
put_views-keeps host [] ids k h = h
put_views-keeps host (v ∷ vs) ids k h = elim (Bool-cases (v.ordinal == host)) [
  | inl b ↦
      rw b (put_views-keeps host vs (put_nodes v.nodes ids) k (put_nodes-keeps v.nodes ids k h))
  | inr b ↦ rw b (put_views-keeps host vs ids k h)
]

put_views-has :
    (host : ℕ) (vs : List PodView) (ids : List ℕ) (k : ℕ)
    → Any (λ v. (v.ordinal ≡ host) × HasMember k v.nodes) vs
    → is_known (put_views host vs ids) k ≡ true
unfolding put_views
put_views-has host [] ids k a = elim a [ ]
put_views-has host (v ∷ vs) ids k (inl (e, m)) =
    let b : (v.ordinal == host) ≡ true = ground arith in
    rw b (put_views-keeps host vs (put_nodes v.nodes ids) k (put_nodes-has v.nodes ids k m))
put_views-has host (v ∷ vs) ids k (inr a) =
    put_views-has host vs (if v.ordinal == host then put_nodes v.nodes ids else ids) k a

viewed_at :
    (w : World) (host k : ℕ) (ns : List NodeInfo)
    → w.nodes host ≡ ok ns
    → HasMember k ns
    → ((new_view host (w.nodes host)).ordinal ≡ host)
      × HasMember k (new_view host (w.nodes host)).nodes
unfolding new_view
viewed_at w host k ns e m = rw e (refl, m)

pub IsMember-known :
    (w : World) (replicas host id k : ℕ)
    → host < replicas
    → IsMember w host id k
    → is_known (known_ids host id (views_of w replicas)) k ≡ true
unfolding known_ids views_of
IsMember-known w replicas host id k l (inl e) =
    rw e (is_known-put_same id (put_views host (views_of w replicas) []))
IsMember-known w replicas host id k l (inr (ns, e, m)) =
    let a =
      map-ordinals-has (λ i. new_view i (w.nodes i)) (λ v. (v.ordinal ≡ host) × HasMember k v.nodes)
        replicas host l (viewed_at w host k ns e m) in
    is_known-put_keeps id (put_views host (views_of w replicas) []) k
      (put_views-has host (views_of w replicas) [] k a)
