-- ===== src/Rolling/Advance.antt =====
-- How many moves a rolling restart has left, and the phase handlers that make one.
use hyperbytedb_operator.Prelude.{
  ℕ, ◌+◌, ◌-◌, ◌*◌, ◌≤◌, ◌<◌, ◌≡◌, String, true, false, Option, none, some, str_eq, Result, ok, err,
  not_found, arith, Bool-cases, inl, inr,
}
use hyperbytedb_operator.Kube.{Pod, StatefulSet, is_pod_ready}
use hyperbytedb_operator.Rolling.State.{
  Phase, excluding, draining, waiting_ready, including, completed, RollingRestartState, StsResult,
  World, Pass, update_status, patch_partition, store_status, Step, proxy_call_timeout,
  pod_restart_allowance,
}
use hyperbytedb_operator.Rolling.Handlers.{
  release_ordinal, rolling_restart_release, enter, after_exclude, exclude_pod, excluding_found,
  rolling_restart_excluding, drain_wait, rolling_restart_draining, next_ordinal, after_include,
  waiting_found, rolling_restart_waiting_ready, exclude_from_all_proxies, include_from_all_proxies,
}
use hyperbytedb_operator.Rolling.Position.{Position, idle, at, view, Move, Within, here, more}

-- The moves that a restart has left at most.
abbrev pub moves_left : Position → ℕ
moves_left idle = 0
moves_left (at excluding o) = 3 * o + 4
moves_left (at draining o) = 3 * o + 3
moves_left (at waiting_ready o) = 3 * o + 2
moves_left (at including o) = 3 * o + 2
moves_left (at completed o) = 1

abbrev pub left : Option RollingRestartState → ℕ
left status = moves_left (view status)

Move-less :
    {n : ℕ} {f : Phase} {o : ℕ} {b : Position}
    → Move n (at f o) b
    → moves_left b < moves_left (at f o)
Move-less Move.abandon = omega arith
Move-less Move.excluded = omega arith
Move-less Move.skip = omega arith
Move-less Move.drained = omega arith
Move-less (Move.next e) = omega arith
Move-less (Move.finish e) = omega arith
Move-less Move.clear = omega arith

pub Within-le :
    {n : ℕ} {f : Phase} {o : ℕ} {b : Position}
    → Within n (at f o) 1 b
    → moves_left b ≤ moves_left (at f o)
Within-le here = omega arith
Within-le (more here m) = omega (arith, Move-less m)

-- The StatefulSet's partition can be lowered to the ordinal, and the status be stored.
pub record Obeys (w : World) (ordinal : ℕ) : Type 0 where
  pub stores : (status : Option RollingRestartState) → w.answer (update_status status) ≡ none
  pub again : StatefulSet
  pub reads_again : w.get_sts_again ≡ ok again
  pub patches : w.answer (patch_partition ordinal) ≡ none

-- What the cluster has to show in a phase for the restart to go on: the phase has had its time, and
-- the pod is gone or has an address; or it is back, updated and ready; or all pods are.
pub data Shows (w : World) (result : StsResult) (sts : StatefulSet) (s : RollingRestartState)
    : Phase → Type 0 where
  gone : w.get_pod s.current_ordinal ≡ err not_found → Shows w result sts s excluding
  addressed :
      (pod : Pod)
      → w.get_pod s.current_ordinal ≡ ok pod
      → str_eq pod.ip "" ≡ false
      → s.phase_started_at + proxy_call_timeout ≤ w.now
      → Shows w result sts s excluding
  drained : s.phase_started_at + drain_wait w ≤ w.now → Shows w result sts s draining
  back :
      (pod : Pod)
      → w.get_pod s.current_ordinal ≡ ok pod
      → str_eq pod.ip "" ≡ false
      → str_eq pod.revision sts.update_revision ≡ true
      → is_pod_ready pod ≡ true
      → pod.deleting ≡ false
      → s.phase_started_at + (proxy_call_timeout + pod_restart_allowance) ≤ w.now
      → Shows w result sts s waiting_ready
  settled :
      result.ready_replicas ≡ result.spec_replicas
      → sts.ready_replicas ≡ sts.replicas
      → sts.updated_replicas ≡ sts.replicas
      → Shows w result sts s completed

module _ (w : World) (s : RollingRestartState) (obeys : Obeys w s.current_ordinal) where
  abbrev Stores : {A : Type 0} → Step A → Phase → Type 0
  Stores m f = (p : Pass) → left (m p).1.stored < left (some (record s { phase = f }))

  release-Stores-draining : Stores (rolling_restart_release w s) draining
  unfolding rolling_restart_release store_status release_ordinal
  release-Stores-draining p =
      let h = obeys.stores (some (enter w s waiting_ready)) in
      ground (arith, h, obeys.reads_again, obeys.patches)

  release-Stores-excluding : Stores (rolling_restart_release w s) excluding
  release-Stores-excluding p = omega (arith, release-Stores-draining p)

  pub draining-Stores :
      s.phase_started_at + drain_wait w ≤ w.now → Stores (rolling_restart_draining w s) draining
  unfolding rolling_restart_draining
  draining-Stores late p = ground (arith, release-Stores-draining p)

  after_exclude-Stores :
      (ip : String) (r : Result (Unit {0}))
      → s.phase_started_at + proxy_call_timeout ≤ w.now
      → Stores (after_exclude w (record s { old_pod_ip = ip }) r) excluding
  unfolding after_exclude store_status
  after_exclude-Stores ip (ok _) late p =
      let h =
        obeys.stores
          (some (enter w (record s { old_pod_ip = ip; exclude_confirmed = true }) draining)) in
      ground (arith, h)
  after_exclude-Stores ip (err e) late p =
      let h = obeys.stores (some (enter w (record s { old_pod_ip = ip }) draining)) in
      ground (arith, h)

  exclude_pod-Stores :
      (ip : String)
      → s.phase_started_at + proxy_call_timeout ≤ w.now
      → Stores (exclude_pod w s ip) excluding
  unfolding exclude_pod
  exclude_pod-Stores ip late p =
      let m =
        exclude_from_all_proxies w ip (record p { status = some (record s { old_pod_ip = ip }) }) in
      after_exclude-Stores ip m.0 late m.1

  pub excluding-Stores :
      {result : StsResult} {sts : StatefulSet}
      → Shows w result sts s excluding
      → Stores (rolling_restart_excluding w s sts.update_revision) excluding
  unfolding rolling_restart_excluding excluding_found
  excluding-Stores (gone e) p = rw e (release-Stores-excluding p)
  excluding-Stores (addressed pod e ip late) p =
      rw e (ground (arith, ip, release-Stores-excluding p, exclude_pod-Stores pod.ip late p))

  next_ordinal-Stores : Stores (next_ordinal w s) waiting_ready
  unfolding next_ordinal store_status
  next_ordinal-Stores p = ground (
    arith,
    obeys.stores (some (enter w s completed)),
    obeys.stores (
        some (record s {
          current_ordinal = s.current_ordinal - 1;
          phase = excluding;
          phase_started_at = w.now;
          old_pod_ip = "";
          exclude_confirmed = false;
        })),
  )

  after_include-Stores :
      (r : Result (Unit {0}))
      → s.phase_started_at + (proxy_call_timeout + pod_restart_allowance) ≤ w.now
      → Stores (after_include w s r) waiting_ready
  unfolding after_include
  after_include-Stores (ok _) late p = next_ordinal-Stores p
  after_include-Stores (err e) late p = ground (arith, next_ordinal-Stores p)

  pub waiting-Stores :
      {result : StsResult} {sts : StatefulSet}
      → Shows w result sts s waiting_ready
      → Stores (rolling_restart_waiting_ready w s sts.update_revision) waiting_ready
  unfolding rolling_restart_waiting_ready waiting_found
  waiting-Stores {sts = sts} (back pod e ip revision ready alive late) p =
      let m = include_from_all_proxies w pod.ip p in
      rw (e, ready, alive, ip, revision)
        (elim (Bool-cases (str_eq sts.update_revision "")) [
          | inl b ↦ rw b (after_include-Stores m.0 late m.1)
          | inr b ↦ rw b (after_include-Stores m.0 late m.1)
        ])
