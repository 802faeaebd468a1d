-- ===== src/Replication.antt =====
-- monitorReplicationHealth of internal/controller/hyperbytedbcluster_controller.go. A host is named
-- by the ordinal of its pod. Counts of files are int32, so they wrap.
mod Laws
mod Samples
use hyperbytedb_operator.Prelude.{
  ℕ, suc, ◌+◌, ◌-◌, ◌*◌, ◌/◌, ◌%◌, ◌^◌, String, Bool, true, false, ◌&&◌, List, [], ◌∷◌, ltb, ◌==◌,
  if◌then◌else◌, Result, ok, err,
}
use hyperbytedb_operator.Prelude.Int.{ℤ, pos, negsuc, pos_part, ltb_ℤ}
use hyperbytedb_operator.Client.{SyncManifest, total_parquet_files}
use hyperbytedb_operator.Members.{MemberStatus}
use hyperbytedb_operator.Ordinals.{ordinals}

-- int32(n) of a number that is not negative
unfoldable pub int32_of : ℕ → ℤ
int32_of n = let low = n % 2 ^ 32 in if ltb low (2 ^ 31) then pos low else negsuc (2 ^ 32 - 1 - low)

-- Division by 10 of Go, which cuts off towards zero.
unfoldable pub div10 : ℤ → ℤ
div10 (pos n) = pos (n / 10)
div10 (negsuc n) = if ltb (suc n) 10 then pos 0 else negsuc (suc n / 10 - 1)

-- The hosts that answered, with their file counts.
unfoldable pub file_counts : (ℕ → Result SyncManifest) → List ℕ → List ℤ
unfolding int32_of
file_counts get [] = []
file_counts get (i ∷ is) =
    let rest = file_counts get is in
    elim (get i) [ ok m ↦ int32_of (total_parquet_files m) ∷ rest | err _ ↦ rest ]

-- The first member with the node id gets what its manifest says.
unfoldable pub set_manifest : ℕ → SyncManifest → List MemberStatus → List MemberStatus
unfolding int32_of
set_manifest id manifest [] = []
set_manifest id manifest (m ∷ ms) =
    let rest = set_manifest id manifest ms in
    if m.node_id == id
    then record m {
      wal_sequence = pos manifest.wal_last_seq;
      parquet_files = int32_of (total_parquet_files manifest);
    }
      ∷ ms
    else m ∷ rest

unfoldable pub set_manifests :
    (ℕ → Result SyncManifest) → List ℕ → List MemberStatus → List MemberStatus
unfolding set_manifest
set_manifests get [] members = members
set_manifests get (i ∷ is) members =
    set_manifests get is (elim (get i) [ ok m ↦ set_manifest (suc i) m members | err _ ↦ members ])

unfoldable pub max_files : ℤ → List ℤ → ℤ
max_files acc [] = acc
max_files acc (c ∷ cs) = max_files (if ltb_ℤ acc c then c else acc) cs

unfoldable pub min_files : ℤ → List ℤ → ℤ
min_files acc [] = acc
min_files acc (c ∷ cs) = min_files (if ltb_ℤ c acc then c else acc) cs

-- Status.ReplicationState, and with it the condition ReplicationHealthy: Unknown, True, False and
-- False, with the reasons InsufficientData, InSync, LargeDataGap and DataLag.
pub data ReplicationState : Type 0 where
  unknown healthy diverged lagging : ReplicationState

-- Both products and quotients are taken only of a count above 0.
unfoldable pub grade : (min max : ℤ) → ReplicationState
unfolding int32_of div10
grade min max =
    if ltb_ℤ (pos 0) max && ltb_ℤ min (pos (pos_part max / 2))
    then diverged
    else if ltb_ℤ (pos 0) max && ltb_ℤ min (div10 (int32_of (pos_part max * 8)))
    then lagging
    else healthy

unfoldable pub grade_counts : List ℤ → ReplicationState
unfolding max_files min_files grade
grade_counts [] = unknown
grade_counts (c ∷ []) = unknown
grade_counts (c ∷ d ∷ cs) = grade (min_files c (d ∷ cs)) (max_files c (d ∷ cs))

-- The state and the members' statuses after a pass.
unfoldable pub monitor_replication_health :
    (ℕ → Result SyncManifest) → ℕ → List MemberStatus → ReplicationState × List MemberStatus
unfolding ordinals file_counts set_manifests grade_counts
monitor_replication_health get replicas members = (
  grade_counts (file_counts get (ordinals replicas)),
  set_manifests get (ordinals replicas) members,
)
