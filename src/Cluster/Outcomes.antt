-- ===== src/Cluster/Outcomes.antt =====
-- What the status says after a pass: setFailedStatus and updateStatus.
use hyperbytedb_operator.Prelude.{
  ℕ, ◌<◌, ◌≡◌, ◌≢◌, refl, ◌⊎◌, inl, inr, String, Bool, true, false, ◌&&◌, List, [], ◌∷◌, ◌++◌,
  Option, none, some, ltb, ◌==◌, Bool-cases, Failure, arith,
}
use hyperbytedb_operator.Cluster.State.{
  Phase, pending, initializing, running, scaling, upgrading, failed, Status, Effect, update_status,
  Pass, seconds,
}
use hyperbytedb_operator.Cluster.Apply.{StsReconcileResult}
use hyperbytedb_operator.Cluster.Finish.{unready_phase, settled_status}

-- The phase that follows `ph` while a replica is not ready: Failed and Scaling stay.
abbrev pub Unready : Phase → Phase → Type 0
Unready failed s = s ≡ failed
Unready scaling s = s ≡ scaling
Unready _ s = (s ≡ upgrading) ⊎ (s ≡ initializing)

-- A status that a whole pass has written, from the phase `ph`.
pub record IsSettled (ph : Phase) (s : Status) : Type 0 where
  pub reconciled : s.degraded ≡ some (record { status = false; reason = "Reconciled" })
  pub phase :
      ((s.phase ≡ running) × (s.ready_replicas ≡ s.replicas) × (0 < s.replicas))
      ⊎ (((s.ready_replicas ≢ s.replicas) ⊎ (s.replicas ≡ 0)) × Unready ph s.phase)

-- A status with the error in it: the phase Failed, and the condition Degraded with a reason.
abbrev pub IsFailed : Status → Type 0
IsFailed s =
    (s.phase ≡ failed)
    × ((reason : String) × (s.degraded ≡ some (record { status = true; reason = reason })))

-- The last call of the pass writes the status.
abbrev pub IsStored : List Effect → Status → Type 0
IsStored log s = (before : List Effect) × (log ≡ before ++ (update_status s ∷ []))

-- What the outcome of a pass from the phase `ph` says of the status.
abbrev pub Reported : Phase → Option ℕ → Option Failure → Pass → Type 0
Reported ph requeue (some e) p =
    IsFailed p.status × IsStored p.log p.status × (requeue ≡ seconds 30)
Reported ph requeue none p =
    (p.status.phase ≡ ph) ⊎ (IsSettled ph p.status × IsStored p.log p.status)

unready_phase-Unready :
    (rolling_upgrade : Bool) (ph : Phase) → Unready ph (unready_phase rolling_upgrade ph)
unfolding unready_phase
unready_phase-Unready rolling_upgrade failed = refl
unready_phase-Unready rolling_upgrade scaling = refl
unready_phase-Unready true pending = inl refl
unready_phase-Unready false pending = inr refl
unready_phase-Unready true initializing = inl refl
unready_phase-Unready false initializing = inr refl
unready_phase-Unready true running = inl refl
unready_phase-Unready false running = inr refl
unready_phase-Unready true upgrading = inl refl
unready_phase-Unready false upgrading = inr refl

unready : (ready spec : ℕ) → ((ready == spec) && ltb 0 spec) ≡ false → (ready ≢ spec) ⊎ (spec ≡ 0)
unready ready spec h = elim (Bool-cases (ready == spec)) [
  | inl b ↦ inr (ground arith)
  | inr b ↦ inl (λ e. ground arith)
]

pub settled_status-IsSettled :
    (rolling_upgrade : Bool) (r : StsReconcileResult) (config_hash : String) (s : Status)
    → s.degraded ≡ some (record { status = false; reason = "Reconciled" })
    → IsSettled s.phase (settled_status rolling_upgrade r config_hash s)
unfolding settled_status
settled_status-IsSettled rolling_upgrade r config_hash s e =
    elim (Bool-cases ((r.ready_replicas == r.spec_replicas) && ltb 0 r.spec_replicas)) [
      | inl b ↦ rw b (record { reconciled = e; phase = inl (refl, ground arith, ground arith) })
      | inr b ↦ rw b (record {
        reconciled = e;
        phase = inr (
          unready r.ready_replicas r.spec_replicas b,
          unready_phase-Unready rolling_upgrade s.phase,
        );
      })
    ]
