-- ===== src/Workload/Hook.antt =====
-- What the script of clusterPreStopScript in internal/hyperbytedb/statefulset.go does, as calls of the
-- node. The time that the calls themselves take is left out.
use hyperbytedb_operator.Prelude.{ℕ, zero, suc, ◌+◌, Bool, List, [], ◌∷◌, if◌then◌else◌}
use hyperbytedb_operator.Prelude.Int.{ℤ}
use hyperbytedb_operator.Workload.{PreStop}

pub data Action : Type 0 where
  drain ask : (port : ℤ) → (with_token : Bool) → Action
  sleep : Action

-- The rounds that are left, from round `i` on: it asks, ends if the node is leaving, and else sleeps.
unfoldable pub await_leaving : PreStop → (leaving : ℕ → Bool) → ℕ → ℕ → List Action
await_leaving s leaving zero i = []
await_leaving s leaving (suc rounds) i =
    let rest = await_leaving s leaving rounds (i + 1) in
    ask s.port s.with_token ∷ (if leaving i then [] else sleep ∷ rest)

unfoldable pub run_pre_stop : PreStop → (leaving : ℕ → Bool) → List Action
unfolding await_leaving
run_pre_stop s leaving = drain s.port s.with_token ∷ await_leaving s leaving s.wait_secs 1

-- The seconds that it sleeps.
unfoldable pub slept : List Action → ℕ
slept [] = 0
slept (sleep ∷ actions) = suc (slept actions)
slept (_ ∷ actions) = slept actions
