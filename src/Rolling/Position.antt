-- ===== src/Rolling/Position.antt =====
-- The abstract restart: the position of a RollingRestartState, with its times and addresses left
-- out, and the moves between positions.
use hyperbytedb_operator.Prelude.{ℕ, suc, ◌+◌, ◌-◌, ◌≡◌, Option, none, some}
use hyperbytedb_operator.Rolling.State.{
  Phase, excluding, draining, waiting_ready, completed, RollingRestartState,
}

pub data Position : Type 0 where
  idle : Position
  at : Phase → ℕ → Position

abbrev pub view : Option RollingRestartState → Position
view none = idle
view (some s) = at s.phase s.current_ordinal

-- One move of a restart over `replicas` pods. Pods are taken from the highest ordinal down; a pod
-- is released by the move to `waiting_ready`.
pub data Move (replicas : ℕ) : Position → Position → Type 0 where
  start : {o : ℕ} → o ≡ replicas - 1 → Move replicas idle (at excluding o)
  abandon : {o : ℕ} → Move replicas (at excluding o) idle
  excluded : {o : ℕ} → Move replicas (at excluding o) (at draining o)
  skip : {o : ℕ} → Move replicas (at excluding o) (at waiting_ready o)
  drained : {o : ℕ} → Move replicas (at draining o) (at waiting_ready o)
  next : {o m : ℕ} → o ≡ m + 1 → Move replicas (at waiting_ready o) (at excluding m)
  finish : {o : ℕ} → o ≡ 0 → Move replicas (at waiting_ready o) (at completed o)
  clear : {o : ℕ} → Move replicas (at completed o) idle

-- At most so many moves.
pub data Within (replicas : ℕ) (a : Position) : ℕ → Position → Type 0 where
  here : {k : ℕ} → Within replicas a k a
  more :
      {k : ℕ} {b c : Position}
      → Within replicas a k b
      → Move replicas b c
      → Within replicas a (suc k) c

pub Within-of_eq : {n k : ℕ} {a b : Position} → b ≡ a → Within n a k b
Within-of_eq e = rw e here

Within-weaken :
    {n : ℕ} {a : Position} {k : ℕ} {b : Position} → Within n a k b → Within n a (suc k) b
Within-weaken here = here
Within-weaken (more m e) = more (Within-weaken m) e

pub Within-after :
    {n : ℕ} {a : Position} {k : ℕ} {b c : Position}
    → Within n a k b
    → Within n b 1 c
    → Within n a (suc k) c
Within-after m here = Within-weaken m
Within-after m (more here e) = more m e
