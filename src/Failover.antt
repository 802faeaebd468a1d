-- ===== src/Failover.antt =====
-- handleAutoFailover of internal/controller/hyperbytedbcluster_controller.go. A pod is named by its
-- ordinal. int32 fields that a user sets are signed.
mod Laws
mod Samples
use hyperbytedb_operator.Prelude.{
  ℕ, suc, ◌+◌, ◌*◌, String, Bool, true, false, not, ◌&&◌, ◌||◌, List, [], ◌∷◌, ◌++◌, Option, none,
  some, str_eq, ltb, leb, if◌then◌else◌, Failure, Result, ok, err, is_not_found,
}
use hyperbytedb_operator.Prelude.Int.{ℤ, pos, pos_part, leb_ℤ}
use hyperbytedb_operator.Kube.{Pod, second}
use hyperbytedb_operator.Members.{MemberStatus, find_unhealthy_members}

pub record FailoverSpec : Type 0 where
  pub enabled : Bool
  pub max_failover_count : ℤ
  pub failover_timeout_secs : ℤ

pub record World : Type 0 where
  pub now : ℕ
  pub get_pod : ℕ → Result Pod
  pub delete : ℕ → Option Failure

-- The outcome: an error if any, Status.FailoverCount, and the ordinals of the pods deleted, in order.
pub record Outcome : Type 0 where
  pub error : Option Failure
  pub failover_count : ℕ
  pub deleted : List ℕ

unfoldable pub max_failovers : FailoverSpec → ℕ
max_failovers spec =
    if leb_ℤ spec.max_failover_count (pos 0) then 1 else pos_part spec.max_failover_count

unfoldable pub failover_timeout : FailoverSpec → ℕ
failover_timeout spec =
    (if leb_ℤ spec.failover_timeout_secs (pos 0) then 300 else pos_part spec.failover_timeout_secs)
    * second

module _ (w : World) where
  -- The delete of a pod that was found; "not found" counts as done.
  unfoldable pub delete_answer : ℕ → ℕ → Option Failure → Outcome
  delete_answer count i none = record { error = none; failover_count = suc count; deleted = i ∷ [] }
  delete_answer count i (some e) =
      if is_not_found e
      then record { error = none; failover_count = suc count; deleted = i ∷ [] }
      else record { error = some e; failover_count = count; deleted = i ∷ [] }

  -- A member whose time is over: `later` is what the loop does with the members behind it.
  unfoldable pub fail_over : ℕ → ℕ → Result Pod → Outcome → Outcome
  unfolding delete_answer
  fail_over count i (err e) later =
      if is_not_found e
      then later
      else record { error = some e; failover_count = count; deleted = [] }
  fail_over count i (ok pod) later = delete_answer count i (w.delete i)

  -- The loop over the unhealthy members: syncing members get time, and one failover ends it.
  unfoldable pub fail_over_first : ℕ → ℕ → List MemberStatus → Outcome
  unfolding fail_over
  fail_over_first timeout count [] = record { error = none; failover_count = count; deleted = [] }
  fail_over_first timeout count (m ∷ ms) =
      let later = fail_over_first timeout count ms in
      if str_eq m.state "Syncing" || str_eq m.state "Joining"
      then later
      else if ltb w.now (m.last_transition_time + timeout)
      then later
      else fail_over count m.ordinal (w.get_pod m.ordinal) later

  unfoldable pub handle_auto_failover : Option FailoverSpec → ℕ → List MemberStatus → Outcome
  unfolding fail_over_first max_failovers failover_timeout
  handle_auto_failover none count members = record {
    error = none;
    failover_count = count;
    deleted = [];
  }
  handle_auto_failover (some spec) count members =
      if not spec.enabled
      then record { error = none; failover_count = count; deleted = [] }
      else if leb (max_failovers spec) count
      then record { error = none; failover_count = count; deleted = [] }
      else fail_over_first (failover_timeout spec) count (find_unhealthy_members members)
