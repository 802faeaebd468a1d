-- ===== src/Replication/Samples.antt =====
-- Replication states of concrete clusters.
use hyperbytedb_operator.Prelude.{
  ◌≡◌, ◌<◌, ◌^◌, refl, ℕ, zero, suc, String, List, [], ◌∷◌, Result, ok, err, other, arith, All,
}
use hyperbytedb_operator.Client.{SyncManifest, total_parquet_files}
use hyperbytedb_operator.Ordinals.{ordinals}
use hyperbytedb_operator.Replication.{lagging, monitor_replication_health}
use hyperbytedb_operator.Replication.Laws.{totals, Reports, monitor_replication_health-Reports}

abbrev manifest : List String → SyncManifest
manifest files = record {
  wal_last_seq = 7;
  databases = record { measurements = record { parquet_files = files } ∷ [] } ∷ [];
}

-- Pod 0 has four files, pod 1 does not answer, and pod 2 has two.
abbrev lagging_pair : ℕ → Result SyncManifest
lagging_pair zero = ok (manifest ("a" ∷ "b" ∷ "c" ∷ "d" ∷ []))
lagging_pair (suc zero) = err (other 1)
lagging_pair (suc (suc i)) = ok (manifest ("a" ∷ "b" ∷ []))

lagging_pair_state : (monitor_replication_health lagging_pair 3 []).0 ≡ lagging
unfolding monitor_replication_health total_parquet_files
lagging_pair_state = refl

small : All (λ c. c < 2 ^ 28) (totals lagging_pair (ordinals 3))
unfolding ordinals total_parquet_files
small = (omega arith, (omega arith, tt))

monitor_replication_health_example :
    Reports (totals lagging_pair (ordinals 3)) (monitor_replication_health lagging_pair 3 []).0
monitor_replication_health_example = monitor_replication_health-Reports lagging_pair 3 [] small
