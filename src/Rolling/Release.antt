-- ===== src/Rolling/Release.antt =====
-- When a pass releases a pod: the patches of the StatefulSet's partition among its calls.
use hyperbytedb_operator.Prelude.{
  ℕ, ◌+◌, ◌≤◌, ◌≡◌, refl, String, ◌≢◌, List, [], ◌∷◌, Option, none, some, ◌⊎◌, inl, inr, arith,
  Result, ok, err, Option-cases, is_none, then-pure-bind, bind_keeps, pure, ◌>>◌, ◌>>=◌, Bool-cases,
  ltb, ◌&&◌, not, str_eq, eq_iff, not_found,
}
use hyperbytedb_operator.Kube.{Pod, StatefulSet}
use hyperbytedb_operator.Rolling.State.{
  Phase, excluding, draining, RollingRestartState, World, Pass, Step, update_status,
  patch_partition, set_state, store_status, waiting_ready, completed, including, Requeue,
  requeue_3s, StsResult,
}
use hyperbytedb_operator.Rolling.Coordinate.{
  run_phase, coordinate, ensure_state, ensure_rolling_restart_state, initial_state, clear_status,
  clear_or_coordinate, after_clear, after_read, try_clear_completed_rolling_restart,
  reconcile_rolling_restart, abandoned, clearable, rolling_upgrade,
}
use hyperbytedb_operator.Rolling.Handlers.{
  enter, release_ordinal, rolling_restart_release, exclude_pod, excluding_found,
  rolling_restart_excluding, drain_wait, rolling_restart_draining,
}
use hyperbytedb_operator.Rolling.State.{begin}
use hyperbytedb_operator.Prelude.{Keeps, Keeps-then, Keeps-if, Keeps-pure}
use hyperbytedb_operator.Rolling.Patched.{
  patches, Patched, patches-append, store_status-Patched, waiting-Patched, exclude_pod-Patched,
  patched_rules,
}

-- Nothing was patched, or the partition `o` alone.
abbrev AtMost : ℕ → Pass → Type 0
AtMost o p = (patches p.calls ≡ []) ⊎ (patches p.calls ≡ o ∷ [])

module _ (w : World) where
  release_ordinal-AtMost : (o : ℕ) (p : Pass) → Patched [] p → AtMost o (release_ordinal w o p).1
  unfolding release_ordinal
  release_ordinal-AtMost o p h = ground (arith, patches-append p.calls (patch_partition o ∷ []))

  rest-AtMost :
      (o : ℕ) {A : Type 0} (m : Step A) (p : Pass)
      → ((ks : List ℕ) → Keeps (Patched ks) m)
      → AtMost o p
      → AtMost o (m p).1
  rest-AtMost o m p k (inl h) = inl ((k []).at p h)
  rest-AtMost o m p k (inr h) = inr ((k (o ∷ [])).at p h)

  -- what rollingRestartRelease does behind the patch
  abbrev enter_waiting : RollingRestartState → Step Requeue
  enter_waiting s = do set_state (enter w s waiting_ready); store_status w; pure requeue_3s

  enter_waiting-Patched :
      {ks : List ℕ} (s : RollingRestartState) → Keeps (Patched ks) (enter_waiting s)
  enter_waiting-Patched s = search patched_rules

  release-AtMost :
      (s : RollingRestartState) (p : Pass)
      → Patched [] p
      → AtMost s.current_ordinal (rolling_restart_release w s p).1
  unfolding rolling_restart_release
  release-AtMost s p h =
      let o = s.current_ordinal in
      let first = release_ordinal-AtMost o p h in
      bind_keeps (AtMost o) (release_ordinal w o) (λ _. enter_waiting s) p first
        (λ _.
          rest-AtMost o (enter_waiting s) (release_ordinal w o p).1 (λ ks. enter_waiting-Patched s)
            first)

-- The test that lets a pass release the pod of `s`: the pod is gone or already runs the update
-- revision, or its drain wait is over.
abbrev pub ReleaseAllowed : World → RollingRestartState → String → Type 0
ReleaseAllowed w s revision =
    ((s.phase ≡ excluding) × (w.get_pod s.current_ordinal ≡ err not_found))
    ⊎ ((s.phase ≡ excluding)
        × ((pod : Pod) × (w.get_pod s.current_ordinal ≡ ok pod)
            × (revision ≢ "")
            × (pod.revision ≡ revision)))
    ⊎ ((s.phase ≡ draining) × (s.phase_started_at + drain_wait w ≤ w.now))

-- A pass patches nothing, or the ordinal of `s`, if that is allowed.
abbrev pub Guarded : World → RollingRestartState → String → Pass → Type 0
Guarded w s revision p =
    (patches p.calls ≡ [])
    ⊎ ((patches p.calls ≡ s.current_ordinal ∷ []) × ReleaseAllowed w s revision)

module _ (w : World) (s : RollingRestartState) (revision : String) (p : Pass)
    (clean : Patched [] p) where
  release-Guarded :
      ReleaseAllowed w s revision → Guarded w s revision (rolling_restart_release w s p).1
  release-Guarded a = elim (release-AtMost w s p clean) [ inl h ↦ inl h | inr h ↦ inr (h, a) ]

  excluding-Guarded :
      (r : Result Pod)
      → w.get_pod s.current_ordinal ≡ r
      → s.phase ≡ excluding
      → Guarded w s revision (excluding_found w s revision r p).1
  unfolding excluding_found
  excluding-Guarded (err not_found) e ph = release-Guarded (inl (ph, e))
  excluding-Guarded (err _) e ph = inl clean
  excluding-Guarded (ok pod) e ph =
      elim (Bool-cases (not (str_eq revision "") && str_eq pod.revision revision)) [
        | inl b ↦ rw b (
            release-Guarded (
              inr (
                inl (
                  ph,
                  (
                    pod,
                    e,
                    ground (arith, eq_iff revision ""),
                    ground (arith, eq_iff pod.revision revision),
                  ),
                ))))
        | inr b ↦ rw b (
            inl (
              (Keeps-if (str_eq pod.ip "") (pure requeue_3s) (exclude_pod w s pod.ip)
                  (Keeps-pure requeue_3s) (exclude_pod-Patched w s pod.ip)).at
                p clean))
      ]

  run_phase-Guarded :
      (phase : Phase) → s.phase ≡ phase → Guarded w s revision (run_phase w phase s revision p).1
  unfolding run_phase rolling_restart_excluding rolling_restart_draining
  run_phase-Guarded excluding e = excluding-Guarded (w.get_pod s.current_ordinal) refl e
  run_phase-Guarded draining e = elim (Bool-cases (ltb w.now (s.phase_started_at + drain_wait w))) [
    | inl b ↦ rw b (inl clean)
    | inr b ↦ rw b (release-Guarded (inr (inr (e, ground arith))))
  ]
  run_phase-Guarded waiting_ready e = inl ((waiting-Patched w s revision).at p clean)
  run_phase-Guarded completed e = inl clean
  run_phase-Guarded including e = inl clean

-- The restart that a pass works on: the stored one, or the one that it begins.
abbrev pub subject : World → ℕ → Option RollingRestartState → RollingRestartState
subject w replicas (some s) = s
subject w replicas none = initial_state w.now replicas

module _ (w : World) where
  clear-Patched : {ks : List ℕ} → Keeps (Patched ks) (clear_status w)
  unfolding clear_status
  clear-Patched = record { at = λ p h. (store_status-Patched w).at (record p { status = none }) h }

  coordinate_from-Guarded :
      (replicas : ℕ) (status : Option RollingRestartState) (revision : String)
      → Guarded w
          (subject w replicas status)
          revision
          ((ensure_state w status replicas >>= λ s. run_phase w s.phase s revision)
            (begin status)).1
  unfolding ensure_state store_status
  coordinate_from-Guarded replicas (some s) revision =
      run_phase-Guarded w s revision (begin (some s)) refl s.phase refl
  coordinate_from-Guarded replicas none revision =
      let s = initial_state w.now replicas in
      elim (Option-cases (w.answer (update_status (some s)))) [
        | inl a ↦
            let p : Pass = record {
              status = some s;
              stored = some s;
              calls = update_status (some s) ∷ [];
            } in
            rw a (run_phase-Guarded w s revision p refl s.phase refl)
        | inr (f, a) ↦ rw a (inl refl)
      ]

  module _ (result : StsResult) (replicas : ℕ) (status : Option RollingRestartState)
      (sts : StatefulSet) where
    abbrev Fine : Pass → Type 0
    Fine = Guarded w (subject w replicas status) sts.update_revision

    clear_or_coordinate-Guarded : Fine (clear_or_coordinate w sts replicas (begin status)).1
    unfolding clear_or_coordinate coordinate ensure_rolling_restart_state
    clear_or_coordinate-Guarded = elim (Bool-cases (abandoned status sts)) [
      | inl e ↦ rw e (
          inl (
            (Keeps-then (clear_status w) (pure none) clear-Patched (Keeps-pure none)).at
              (begin status) refl))
      | inr e ↦ rw e (coordinate_from-Guarded replicas status sts.update_revision)
    ]

    after_read-Guarded : Fine (after_read w result replicas status sts (begin status)).1
    unfolding after_read try_clear_completed_rolling_restart after_clear
    after_read-Guarded = elim (Bool-cases (not (rolling_upgrade sts) && is_none status)) [
      | inl e ↦ rw e (inl refl)
      | inr e ↦ rw e (elim (Bool-cases (clearable status result sts)) [
        | inl c ↦
            rw (c, then-pure-bind)
              (inl (
                (Keeps-then (clear_status w) (pure none) clear-Patched (Keeps-pure none)).at
                  (begin status) refl))
        | inr c ↦ rw c clear_or_coordinate-Guarded
      ])
    ]

-- A pass that reads the StatefulSet `sts` lowers the partition to the ordinal of the restart that it
-- works on, once, or not at all. It does so only while that pod is being excluded and is gone or
-- already runs the update revision, or while it drains and its drain wait is over: no other pod is
-- ever released, and none before its drain.
pub reconcile_rolling_restart-Guarded :
    (w : World) (result : StsResult) (replicas : ℕ) (status : Option RollingRestartState)
    (sts : StatefulSet)
    → w.get_sts ≡ ok sts
    → Guarded w
        (subject w replicas status)
        sts.update_revision
        (reconcile_rolling_restart w result replicas (begin status)).1
unfolding reconcile_rolling_restart
reconcile_rolling_restart-Guarded w result replicas status sts e =
    simp e (after_read-Guarded w result replicas status sts)
