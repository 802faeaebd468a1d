-- ===== src/Members/Laws.antt =====
-- What the high-level cluster state says of the members.
use hyperbytedb_operator.Prelude.{
  ◌+◌, ◌≤◌, ◌<◌, ◌≡◌, refl, ◌≢◌, ◌↔◌, ◌⊎◌, ◌||◌, true, false, List, [], ◌∷◌, arith, All, Any,
  length, str_eq,
}
use hyperbytedb_operator.Members.{
  MemberStatus, healthy_count, syncing_count, ClusterState, unknown, healthy, recovering, degraded,
  unavailable, derive_cluster_state,
}

abbrev pub IsHealthy : MemberStatus → Type 0
IsHealthy m = m.health ≡ true

-- The member is catching up: unhealthy, in one of the four spellings of its state.
abbrev pub IsSyncing : MemberStatus → Type 0
IsSyncing m =
    (m.health ≡ false)
    × ((str_eq m.state "Syncing"
          || str_eq m.state "Joining"
          || str_eq m.state "syncing"
          || str_eq m.state "joining")
        ≡ true)

counts-le : (ms : List MemberStatus) → healthy_count ms + syncing_count ms ≤ length ms
unfolding healthy_count syncing_count
counts-le [] = omega arith
counts-le (m ∷ ms) = ground (arith, counts-le ms)

All-IsHealthy : (ms : List MemberStatus) → (healthy_count ms ≡ length ms) ↔ All IsHealthy ms
unfolding healthy_count
All-IsHealthy [] = ((λ _. tt), (λ _. refl))
All-IsHealthy (m ∷ ms) = ground (arith, All-IsHealthy ms, counts-le ms)

abbrev pub Accounted : MemberStatus → Type 0
Accounted m = IsHealthy m ⊎ IsSyncing m

All-Accounted :
    (ms : List MemberStatus) → (healthy_count ms + syncing_count ms ≡ length ms) ↔ All Accounted ms
unfolding healthy_count syncing_count
All-Accounted [] = ((λ _. tt), (λ _. refl))
All-Accounted (m ∷ ms) = ground (arith, All-Accounted ms, counts-le ms)

Any-IsHealthy : (ms : List MemberStatus) → (0 < healthy_count ms) ↔ Any IsHealthy ms
unfolding healthy_count
Any-IsHealthy [] = ((λ h. omega arith), (λ h. elim h [ ]))
Any-IsHealthy (m ∷ ms) = ground (arith, Any-IsHealthy ms)

Any-IsSyncing : (ms : List MemberStatus) → (0 < syncing_count ms) ↔ Any IsSyncing ms
unfolding syncing_count
Any-IsSyncing [] = ((λ h. omega arith), (λ h. elim h [ ]))
Any-IsSyncing (m ∷ ms) = ground (arith, Any-IsSyncing ms)

-- What each cluster state claims of the members.
abbrev pub Describes : ClusterState → List MemberStatus → Type 0
Describes unknown ms = ms ≡ []
Describes healthy ms = (ms ≢ []) × All IsHealthy ms
Describes recovering ms = Any IsSyncing ms × All Accounted ms
Describes degraded ms = Any IsHealthy ms × ¬ All Accounted ms
Describes unavailable ms = (ms ≢ []) × ¬ Any IsHealthy ms × ¬ All Accounted ms

-- The derived state is true of the members: "Healthy" if all are healthy, "Recovering" if some are
-- syncing and all others healthy, "Degraded" if some are healthy and some are neither,
-- "Unavailable" if none is healthy and some are not even syncing, "Unknown" if there are none.
pub derive_cluster_state-Describes :
    (members : List MemberStatus) → Describes (derive_cluster_state members) members
unfolding derive_cluster_state
derive_cluster_state-Describes [] = refl
derive_cluster_state-Describes (m ∷ ms) =
    let members = m ∷ ms in
    ground (
      arith,
      counts-le members,
      All-IsHealthy members,
      All-Accounted members,
      Any-IsHealthy members,
      Any-IsSyncing members,
    )
