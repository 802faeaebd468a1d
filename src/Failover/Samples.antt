-- ===== src/Failover/Samples.antt =====
-- An unreachable member, on a cluster that fails over after five minutes.
use hyperbytedb_operator.Prelude.{
  ℕ, ◌*◌, ◌+◌, ◌<◌, ◌≡◌, ◌⊎◌, refl, true, false, [], ◌∷◌, none, some, ok, err, other, arith,
}
use hyperbytedb_operator.Prelude.Int.{pos}
use hyperbytedb_operator.Kube.{Pod, second}
use hyperbytedb_operator.Members
use hyperbytedb_operator.Members.{MemberStatus, collect_member_statuses}
use hyperbytedb_operator.Failover.{
  FailoverSpec, World, handle_auto_failover, max_failovers, failover_timeout,
}
use hyperbytedb_operator.Failover.Laws.{
  AtMostOne, handle_auto_failover-AtMostOne, handle_auto_failover-fresh,
}

abbrev pod : Pod
pod = record {
  name = "db-1";
  ip = "10.0.0.1";
  deleting = false;
  revision = "old";
  conditions = [];
  containers = [];
}

abbrev spec : FailoverSpec
spec = record { enabled = true; max_failover_count = pos 1; failover_timeout_secs = pos 300 }

abbrev world : World
world = record { now = 400 * second; get_pod = λ i. ok pod; delete = λ i. none }

abbrev member : MemberStatus
member = record {
  ordinal = 1;
  node_id = 2;
  state = "Unreachable";
  health = false;
  wal_sequence = pos 0;
  parquet_files = pos 0;
  peer_count = pos 0;
  last_transition_time = 50 * second;
}

-- A member that has been unhealthy for long enough is deleted.
fails_over : (handle_auto_failover world (some spec) 0 (member ∷ [])).deleted ≡ 1 ∷ []
unfolding handle_auto_failover Members.find_unhealthy_members
fails_over = refl

handle_auto_failover-AtMostOne_example :
    let r = handle_auto_failover world (some spec) 0 (member ∷ []) in
    ((r.deleted ≡ []) × (r.failover_count ≡ 0))
    ⊎ ((spec.enabled ≡ true)
        × (0 < max_failovers spec)
        × AtMostOne world (failover_timeout spec) 0 (member ∷ []) r)
handle_auto_failover-AtMostOne_example = handle_auto_failover-AtMostOne world spec 0 (member ∷ [])

-- nobody answers, from the second 399 on
abbrev silent : Members.World
silent = record { health = λ i. err (other 0); clock = λ i. 399 * second }

soon : (i : ℕ) → world.now < silent.clock i + failover_timeout spec
unfolding failover_timeout
soon i = omega arith

handle_auto_failover-fresh_example :
    ((handle_auto_failover world (some spec) 0 (collect_member_statuses silent 3)).deleted ≡ [])
    × ((handle_auto_failover world (some spec) 0 (collect_member_statuses silent 3)).failover_count
        ≡ 0)
handle_auto_failover-fresh_example = handle_auto_failover-fresh world silent spec 0 3 soon
