-- ===== src/Rolling/Handover.antt =====
-- That reconcileRollingRestart goes on to a drain, and past a pod, only behind the proxies:
-- internal/controller/hyperbytedbcluster_controller.go.
use mathlib.Core.Path.{subst}
use hyperbytedb_operator.Prelude.{
  ℕ, ◌≡◌, refl, String, not, ◌&&◌, [], ◌∷◌, Option, none, some, inl, inr, is_none, Result, ok, err,
  Bool-cases, Option-cases, ◌>>◌, ◌>>=◌, pure, then-pure-bind,
}
use hyperbytedb_operator.Kube.{StatefulSet}
use hyperbytedb_operator.Rolling.State.{
  RollingRestartState, StsResult, World, Pass, Requeue, update_status, store_status, begin,
}
use hyperbytedb_operator.Rolling.Coordinate.{
  run_phase, coordinate, ensure_state, ensure_rolling_restart_state, initial_state, clear_status,
  clear_or_coordinate, after_clear, after_read, try_clear_completed_rolling_restart,
  reconcile_rolling_restart, abandoned, clearable, rolling_upgrade,
}
use hyperbytedb_operator.Rolling.Release.{subject}
use hyperbytedb_operator.Rolling.Told.{Told, Tells, Told-same}
use hyperbytedb_operator.Rolling.Phases.{run_phase-Tells}

module _ (w : World) where
  clear-Tells :
      (s : RollingRestartState) (m : Requeue) (p : Pass)
      → Tells w s s.phase
          ((clear_status w >> pure m) p).1.status
          ((clear_status w >> pure m) p).1.calls
  unfolding clear_status store_status
  clear-Tells s m p = elim (Option-cases (w.answer (update_status none))) [
    | inl a ↦ rw a tt
    | inr (f, a) ↦ rw a tt
  ]

  coordinate_from-Tells :
      (replicas : ℕ) (status : Option RollingRestartState) (revision : String)
      → let s = subject w replicas status in
        let m = ensure_state w status replicas >>= λ s. run_phase w s.phase s revision in
        Tells w s s.phase (m (begin status)).1.status (m (begin status)).1.calls
  unfolding ensure_state store_status
  coordinate_from-Tells replicas (some s) revision =
      run_phase-Tells w s revision (begin (some s)) refl s.phase refl
  coordinate_from-Tells replicas none revision =
      let s = initial_state w.now replicas in
      elim (Option-cases (w.answer (update_status (some s)))) [
        | inl a ↦
            let p : Pass = record {
              status = some s;
              stored = some s;
              calls = update_status (some s) ∷ [];
            } in
            rw a (run_phase-Tells w s revision p refl s.phase refl)
        | inr (f, a) ↦ rw a (Told-same w s s.phase (update_status (some s) ∷ []))
      ]

  module _ (result : StsResult) (replicas : ℕ) (status : Option RollingRestartState) where
    abbrev Fine : Pass → Type 0
    Fine p = let s = subject w replicas status in Tells w s s.phase p.status p.calls

    begin-Tells : Fine (begin status)
    begin-Tells = go status
      where
        go :
            (status : Option RollingRestartState)
            → let s = subject w replicas status in Tells w s s.phase status []
        go none = tt
        go (some s) = Told-same w s s.phase []

    clear_or_coordinate-Tells :
        (sts : StatefulSet) → Fine (clear_or_coordinate w sts replicas (begin status)).1
    unfolding clear_or_coordinate coordinate ensure_rolling_restart_state
    clear_or_coordinate-Tells sts = elim (Bool-cases (abandoned status sts)) [
      | inl e ↦ rw e (clear-Tells (subject w replicas status) none (begin status))
      | inr e ↦ rw e (coordinate_from-Tells replicas status sts.update_revision)
    ]

    after_read-Tells :
        (sts : StatefulSet) → Fine (after_read w result replicas status sts (begin status)).1
    unfolding after_read try_clear_completed_rolling_restart after_clear
    after_read-Tells sts = elim (Bool-cases (not (rolling_upgrade sts) && is_none status)) [
      | inl e ↦ rw e begin-Tells
      | inr e ↦ rw e (elim (Bool-cases (clearable status result sts)) [
        | inl c ↦
            rw (c, then-pure-bind) (clear-Tells (subject w replicas status) none (begin status))
        | inr c ↦ rw c (clear_or_coordinate-Tells sts)
      ])
    ]

    read-Tells :
        (r : Result StatefulSet)
        → w.get_sts ≡ r
        → Fine (reconcile_rolling_restart w result replicas (begin status)).1
    unfolding reconcile_rolling_restart
    read-Tells (ok sts) e = simp e (after_read-Tells sts)
    read-Tells (err f) e = simp e begin-Tells

-- A pass that takes a restart from excluding a pod to draining it has sent the exclude of that pod's
-- address to every running proxy of the list that it read, and each has acknowledged it; or the time
-- for the proxies is over. A pass that leaves a pod behind, for the next one or for the end of the
-- restart, has read it as ready and not being deleted, and has the same for its include, with the
-- time for the restart of the pod added.
pub reconcile_rolling_restart-Told :
    (w : World) (result : StsResult) (replicas : ℕ) (status : Option RollingRestartState)
    (t : RollingRestartState)
    → (reconcile_rolling_restart w result replicas (begin status)).1.status ≡ some t
    → Told w
        (subject w replicas status)
        (subject w replicas status).phase
        t.phase
        (reconcile_rolling_restart w result replicas (begin status)).1.calls
reconcile_rolling_restart-Told w result replicas status t e =
    let s = subject w replicas status in
    subst
      (λ after.
        Tells w s s.phase after
          (reconcile_rolling_restart w result replicas (begin status)).1.calls)
      e (read-Tells w result replicas status w.get_sts refl)
