-- ===== src/Rolling/Partition.antt =====
-- The partition that rolloutPartition keeps in the StatefulSet, along the moves of a restart.
use hyperbytedb_operator.Prelude.{ℕ, ◌+◌, ◌<◌, ◌≡◌, refl, ◌⊎◌, inl, inr, Option, none, some, arith}
use hyperbytedb_operator.Rolling.State.{RollingRestartState, waiting_ready}
use hyperbytedb_operator.Rolling.Handlers.{partition_at, rollout_partition}
use hyperbytedb_operator.Rolling.Position.{
  Position, idle, at, view, Move, start, abandon, excluded, skip, drained, next, finish, clear,
}

unfoldable pub partition_of : ℕ → Position → ℕ
unfolding partition_at
partition_of replicas idle = replicas
partition_of replicas (at phase o) = partition_at phase o

rollout_partition-view :
    (replicas : ℕ) (status : Option RollingRestartState)
    → rollout_partition status replicas ≡ partition_of replicas (view status)
unfolding rollout_partition partition_of
rollout_partition-view replicas none = refl
rollout_partition-view replicas (some s) = refl

-- The partition stays, or falls by one to the ordinal of a pod that is now waited for.
abbrev pub Lowers : (before after : ℕ) → Position → Type 0
Lowers before after b = (after ≡ before) ⊎ ((after + 1 ≡ before) × (b ≡ at waiting_ready after))

Move-Lowers :
    (replicas : ℕ) (a b : Position)
    → 0 < replicas
    → Move replicas a b
    → (b ≡ idle) ⊎ Lowers (partition_of replicas a) (partition_of replicas b) b
unfolding partition_of
Move-Lowers replicas a b pos (start e) = inr (inl (omega arith))
Move-Lowers replicas a b pos abandon = inl refl
Move-Lowers replicas a b pos excluded = inr (inl refl)
Move-Lowers replicas a b pos skip = inr (inr (refl, refl))
Move-Lowers replicas a b pos drained = inr (inr (refl, refl))
Move-Lowers replicas a b pos (next e) = inr (inl (omega arith))
Move-Lowers replicas a b pos (finish e) = inr (inl (omega arith))
Move-Lowers replicas a b pos clear = inl refl

-- Along each move of a restart that does not end it, the partition that is kept in the StatefulSet
-- never rises. It falls by at most one, and only by the move that releases the pod of the new
-- partition: all pods above it were released before.
pub rollout_partition-Lowers :
    (replicas : ℕ) (s s' : Option RollingRestartState)
    → 0 < replicas
    → Move replicas (view s) (view s')
    → (view s' ≡ idle)
      ⊎ Lowers (rollout_partition s replicas) (rollout_partition s' replicas) (view s')
rollout_partition-Lowers replicas s s' pos m =
    rw (rollout_partition-view replicas s, rollout_partition-view replicas s')
      (Move-Lowers replicas (view s) (view s') pos m)
