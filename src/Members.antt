-- ===== src/Members.antt =====
-- The members' statuses of internal/hyperbytedb/member.go. A pod is named by its ordinal.
mod Laws
mod Samples
use hyperbytedb_operator.Prelude.{
  ℕ, suc, ◌+◌, String, Bool, true, false, not, ◌&&◌, ◌||◌, List, [], ◌∷◌, map, str_eq, ltb, ◌==◌,
  if◌then◌else◌, length, Result, ok, err,
}
use hyperbytedb_operator.Prelude.Int.{ℤ, pos}
use hyperbytedb_operator.Client.{HealthStatus}
use hyperbytedb_operator.Ordinals.{ordinals}

pub record MemberStatus : Type 0 where
  pub ordinal : ℕ
  pub node_id : ℕ
  pub state : String
  pub health : Bool
  pub wal_sequence : ℤ
  pub parquet_files : ℤ
  pub peer_count : ℤ
  pub last_transition_time : ℕ

-- The health of a pod by its ordinal, and the time at which it is asked.
pub record World : Type 0 where
  pub health : ℕ → Result HealthStatus
  pub clock : ℕ → ℕ

abbrev is_healthy_status : String → Bool
is_healthy_status s = str_eq s "pass" || str_eq s "Active" || str_eq s "active"

unfoldable pub new_member : ℕ → ℕ → Result HealthStatus → MemberStatus
new_member i now (err e) = record {
  ordinal = i;
  node_id = suc i;
  state = "Unreachable";
  health = false;
  wal_sequence = pos 0;
  parquet_files = pos 0;
  peer_count = pos 0;
  last_transition_time = now;
}
new_member i now (ok hs) = record {
  ordinal = i;
  node_id = suc i;
  state = hs.status;
  health = is_healthy_status hs.status;
  wal_sequence = pos 0;
  parquet_files = pos 0;
  peer_count = pos 0;
  last_transition_time = now;
}

-- CollectMemberStatuses
unfoldable pub collect_member_statuses : World → ℕ → List MemberStatus
unfolding new_member ordinals
collect_member_statuses w replicas =
    map (λ i. new_member i (w.clock i) (w.health i)) (ordinals replicas)

abbrev is_syncing_state : String → Bool
is_syncing_state s =
    str_eq s "Syncing" || str_eq s "Joining" || str_eq s "syncing" || str_eq s "joining"

-- The counters of DeriveClusterState's loop.
unfoldable pub healthy_count : List MemberStatus → ℕ
healthy_count [] = 0
healthy_count (m ∷ ms) = let n = healthy_count ms in if m.health then suc n else n

unfoldable pub syncing_count : List MemberStatus → ℕ
syncing_count [] = 0
syncing_count (m ∷ ms) =
    let n = syncing_count ms in
    if m.health then n else if is_syncing_state m.state then suc n else n

pub data ClusterState : Type 0 where
  unknown healthy recovering degraded unavailable : ClusterState

unfoldable pub derive_cluster_state : List MemberStatus → ClusterState
unfolding healthy_count syncing_count
derive_cluster_state members =
    if length members == 0
    then unknown
    else if healthy_count members == length members
    then healthy
    else if ltb 0 (syncing_count members)
        && healthy_count members + syncing_count members == length members
    then recovering
    else if ltb 0 (healthy_count members)
    then degraded
    else unavailable

-- FindUnhealthyMembers
unfoldable pub find_unhealthy_members : List MemberStatus → List MemberStatus
find_unhealthy_members [] = []
find_unhealthy_members (m ∷ ms) =
    let rest = find_unhealthy_members ms in if m.health then rest else m ∷ rest
