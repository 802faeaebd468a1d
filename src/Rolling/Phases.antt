-- ===== src/Rolling/Phases.antt =====
-- What each phase of reconcileRollingRestart, of internal/controller/hyperbytedbcluster_controller.go,
-- has told the proxies.
use mathlib.Core.Path.{subst}
use hyperbytedb_operator.Prelude.{
  ◌+◌, ◌-◌, ◌≤◌, ◌≡◌, refl, sym, String, true, false, not, ◌&&◌, ◌||◌, List, Option, none, some,
  inl, inr, arith, ltb, leb, str_eq, Result, ok, err, Bool-cases, Keeps, is_not_found,
}
use hyperbytedb_operator.Kube.{Pod, is_pod_ready}
use hyperbytedb_operator.Rolling.State.{
  Phase, excluding, draining, waiting_ready, including, completed, RollingRestartState, World, Pass,
  Call, exclude, include, store_status, proxy_call_timeout, pod_restart_allowance,
}
use hyperbytedb_operator.Rolling.Handlers.{
  enter, for_each_running_proxy, exclude_from_all_proxies, include_from_all_proxies, after_exclude,
  exclude_pod, excluding_found, rolling_restart_excluding, rolling_restart_draining, next_ordinal,
  after_include, waiting_found, rolling_restart_waiting_ready,
}
use hyperbytedb_operator.Rolling.Coordinate.{run_phase}
use hyperbytedb_operator.Rolling.Fans.{
  FannedOut, for_each_running_proxy-FannedOut, store_status-FannedOut,
}
use hyperbytedb_operator.Rolling.Told.{
  Told, Tells, Told-same, Quiet, Included, for_each-OfStatus, set_and_store-Tells, release-Tells,
}

module _ (w : World) (s : RollingRestartState) (revision : String) (p : Pass)
    (here : p.status ≡ some s) where
  -- The status is still that of `s`, where a fan-out has ended.
  same :
      (before : Phase) (send : String → Call) (t : RollingRestartState) (q : Pass)
      → s.phase ≡ before
      → t.phase ≡ s.phase
      → q.status ≡ some t
      → Tells w s before
          (for_each_running_proxy w send q).1.status
          (for_each_running_proxy w send q).1.calls
  same before send t q e e' k =
      rw ((for_each-OfStatus w (λ st. st ≡ some t) send).at q k, e', e)
        (Told-same w s before (for_each_running_proxy w send q).1.calls)

  unchanged : (before : Phase) → s.phase ≡ before → Tells w s before p.status p.calls
  unchanged before e =
      rw (here) (subst (λ ph. Told w s before ph p.calls) (sym e) (Told-same w s before p.calls))

  excluding-Quiet : s.phase ≡ excluding → Quiet w s excluding p.status
  excluding-Quiet e = rw (here) (λ calls. subst (λ ph. Told w s excluding ph calls) (sym e) tt)

  after_exclude-Tells :
      (pod : Pod) (t : RollingRestartState) (r : Result (Unit {0})) (q : Pass)
      → w.get_pod s.current_ordinal ≡ ok pod
      → t.phase_started_at ≡ s.phase_started_at
      → (r ≡ ok tt → FannedOut w (λ proxy. exclude proxy pod.ip) q.calls)
      → Tells w s excluding q.status q.calls
      → Tells w s excluding (after_exclude w t r q).1.status (after_exclude w t r q).1.calls
  unfolding after_exclude
  after_exclude-Tells pod t (ok _) q found start fan k =
      set_and_store-Tells w s excluding (FannedOut w (λ proxy. exclude proxy pod.ip))
        (enter w (record t { exclude_confirmed = true }) draining) q
        (store_status-FannedOut w (λ proxy. exclude proxy pod.ip)) (fan refl)
        (λ calls f. (pod, found, inl f))
  after_exclude-Tells pod t (err f) q found start fan k =
      elim (Bool-cases (ltb w.now (t.phase_started_at + proxy_call_timeout))) [
        | inl b ↦ rw b k
        | inr b ↦
            let late : s.phase_started_at + proxy_call_timeout ≤ w.now = ground arith in
            rw b (
              set_and_store-Tells w s excluding (λ calls. Unit) (enter w t draining) q
                (record { at = λ q h. tt }) tt (λ calls h. (pod, found, inr late)))
      ]

  exclude_pod-Tells :
      (pod : Pod)
      → w.get_pod s.current_ordinal ≡ ok pod
      → s.phase ≡ excluding
      → Tells w s excluding (exclude_pod w s pod.ip p).1.status (exclude_pod w s pod.ip p).1.calls
  unfolding exclude_pod exclude_from_all_proxies
  exclude_pod-Tells pod found e =
      let send : String → Call = λ proxy. exclude proxy pod.ip in
      let t = record s { old_pod_ip = pod.ip } in
      let q : Pass = record p { status = some t } in
      after_exclude-Tells pod t (for_each_running_proxy w send q).0
        (for_each_running_proxy w send q).1 found refl
        (λ done. for_each_running_proxy-FannedOut w send q done)
        (same excluding send t q e refl refl)

  excluding_found-Tells :
      (r : Result Pod)
      → w.get_pod s.current_ordinal ≡ r
      → s.phase ≡ excluding
      → Tells w s excluding
          (excluding_found w s revision r p).1.status
          (excluding_found w s revision r p).1.calls
  unfolding excluding_found
  excluding_found-Tells (err f) found e = elim (Bool-cases (is_not_found f)) [
    | inl b ↦ rw b (release-Tells w s excluding p (excluding-Quiet e) (λ calls. tt))
    | inr b ↦ rw b (unchanged excluding e)
  ]
  excluding_found-Tells (ok pod) found e =
      elim (Bool-cases (not (str_eq revision "") && str_eq pod.revision revision)) [
        | inl b ↦ rw b (release-Tells w s excluding p (excluding-Quiet e) (λ calls. tt))
        | inr b ↦ rw b (elim (Bool-cases (str_eq pod.ip "")) [
          | inl c ↦ rw c (unchanged excluding e)
          | inr c ↦ rw c (exclude_pod-Tells pod found e)
        ])
      ]

  next_ordinal-Tells :
      (P : List Call → Type 0) (q : Pass)
      → Keeps (λ (q : Pass). P q.calls) (store_status w)
      → P q.calls
      → ((calls : List Call) → P calls → Included w s calls)
      → Tells w s waiting_ready (next_ordinal w s q).1.status (next_ordinal w s q).1.calls
  unfolding next_ordinal
  next_ordinal-Tells P q keeps h told = elim (Bool-cases (leb s.current_ordinal 0)) [
    | inl b ↦ rw b (set_and_store-Tells w s waiting_ready P (enter w s completed) q keeps h told)
    | inr b ↦
        let t = record s {
          current_ordinal = s.current_ordinal - 1;
          phase = excluding;
          phase_started_at = w.now;
          old_pod_ip = "";
          exclude_confirmed = false;
        } in
        rw b (set_and_store-Tells w s waiting_ready P t q keeps h told)
  ]

  after_include-Tells :
      (pod : Pod) (r : Result (Unit {0})) (q : Pass)
      → w.get_pod s.current_ordinal ≡ ok pod
      → is_pod_ready pod ≡ true
      → pod.deleting ≡ false
      → (r ≡ ok tt → FannedOut w (λ proxy. include proxy pod.ip) q.calls)
      → Tells w s waiting_ready q.status q.calls
      → Tells w s waiting_ready (after_include w s r q).1.status (after_include w s r q).1.calls
  unfolding after_include
  after_include-Tells pod (ok _) q found ready stays fan k =
      let send : String → Call = λ proxy. include proxy pod.ip in
      next_ordinal-Tells (FannedOut w send) q (store_status-FannedOut w send) (fan refl)
        (λ calls f. (pod, found, ready, stays, inl f))
  after_include-Tells pod (err f) q found ready stays fan k =
      let limit = proxy_call_timeout + pod_restart_allowance in
      elim (Bool-cases (ltb w.now (s.phase_started_at + limit))) [
        | inl b ↦ rw b k
        | inr b ↦
            let late : s.phase_started_at + limit ≤ w.now = ground arith in
            rw b (
              next_ordinal-Tells (λ calls. Unit) q (record { at = λ q h. tt }) tt
                (λ calls h. (pod, found, ready, stays, inr late)))
      ]

  waiting_found-Tells :
      (r : Result Pod)
      → w.get_pod s.current_ordinal ≡ r
      → s.phase ≡ waiting_ready
      → Tells w s waiting_ready
          (waiting_found w s revision r p).1.status
          (waiting_found w s revision r p).1.calls
  unfolding waiting_found include_from_all_proxies
  waiting_found-Tells (err f) found e = elim (Bool-cases (is_not_found f)) [
    | inl b ↦ rw b (unchanged waiting_ready e)
    | inr b ↦ rw b (unchanged waiting_ready e)
  ]
  waiting_found-Tells (ok pod) found e =
      let stay = unchanged waiting_ready e in
      elim (Bool-cases (not (str_eq revision "") && not (str_eq pod.revision revision))) [
        | inl b ↦ rw b stay
        | inr b ↦ rw b (elim (Bool-cases (not (is_pod_ready pod) || pod.deleting)) [
          | inl c ↦ rw c stay
          | inr c ↦ rw c (elim (Bool-cases (str_eq pod.ip "")) [
            | inl d ↦ rw d stay
            | inr d ↦
                let send : String → Call = λ proxy. include proxy pod.ip in
                rw d (
                  after_include-Tells pod (for_each_running_proxy w send p).0
                    (for_each_running_proxy w send p).1 found (ground arith) (ground arith)
                    (λ done. for_each_running_proxy-FannedOut w send p done)
                    (same waiting_ready send s p e refl here))
          ])
        ])
      ]

  draining-Tells :
      (status : Option RollingRestartState) (calls : List Call) → Tells w s draining status calls
  draining-Tells none calls = tt
  draining-Tells (some t) calls = tt

  pub run_phase-Tells :
      (phase : Phase)
      → s.phase ≡ phase
      → Tells w s phase
          (run_phase w phase s revision p).1.status
          (run_phase w phase s revision p).1.calls
  unfolding run_phase rolling_restart_excluding rolling_restart_draining
      rolling_restart_waiting_ready
  run_phase-Tells excluding e = excluding_found-Tells (w.get_pod s.current_ordinal) refl e
  run_phase-Tells draining e =
      draining-Tells (rolling_restart_draining w s p).1.status
        (rolling_restart_draining w s p).1.calls
  run_phase-Tells waiting_ready e = waiting_found-Tells (w.get_pod s.current_ordinal) refl e
  run_phase-Tells completed e = unchanged completed e
  run_phase-Tells including e = unchanged including e
