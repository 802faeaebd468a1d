-- ===== src/Members/Samples.antt =====
-- A healthy member beside a syncing one.
use hyperbytedb_operator.Prelude.{true, false, [], ◌∷◌, List}
use hyperbytedb_operator.Prelude.Int.{pos}
use hyperbytedb_operator.Members.{MemberStatus, derive_cluster_state}
use hyperbytedb_operator.Members.Laws.{Describes, derive_cluster_state-Describes}

abbrev member : MemberStatus
member = record {
  ordinal = 0;
  node_id = 1;
  state = "Active";
  health = true;
  wal_sequence = pos 0;
  parquet_files = pos 0;
  peer_count = pos 0;
  last_transition_time = 7;
}

abbrev members : List MemberStatus
members =
    member ∷ record member { ordinal = 1; node_id = 2; state = "Syncing"; health = false } ∷ []

derive_cluster_state-Describes_example : Describes (derive_cluster_state members) members
derive_cluster_state-Describes_example = derive_cluster_state-Describes members
