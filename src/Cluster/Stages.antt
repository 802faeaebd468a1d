-- ===== src/Cluster/Stages.antt =====
-- The steps behind the scale-down hooks.
use hyperbytedb_operator.Prelude.{
  ℕ, ◌≡◌, String, false, not, List, [], Option, none, some, ltb, ◌==◌, if◌then◌else◌, Failure,
  Result, ok, err, is_conflict, Exec, All, All-map, arith,
}
use hyperbytedb_operator.Prelude.Int.{pos}
use hyperbytedb_operator.ScaleDown.Stuck.{
  delete_stuck_departed_pods, delete_stuck_departed_pods-IsStuck,
}
use hyperbytedb_operator.Resources.{reconcile_pdb, reconcile_hpa, reconcile_service_monitor}
use hyperbytedb_operator.Resources.Proxy.{reconcile_proxy}
use hyperbytedb_operator.Rolling
use hyperbytedb_operator.Rolling.Coordinate.{reconcile_rolling_restart}
use hyperbytedb_operator.ScaleDown.Stuck.{IsStuck}
use hyperbytedb_operator.Volumes.{cleanup_orphan_pvcs}
use hyperbytedb_operator.Volumes.Laws.{IsOrphan, cleanup_orphan_pvcs-IsOrphan}
use hyperbytedb_operator.Cluster.State.{
  Phase, Effect, monitor, proxy_service, pdb, hpa, proxy_deployment, sts, delete_pod, rolling,
  delete_claim, Cluster, World, Pass, Outcome, Flow, note, set_status, set_failed_status, done,
  seconds, must, try,
}
use hyperbytedb_operator.Cluster.Apply.{StsReconcileResult, reconcile_stateful_set}
use hyperbytedb_operator.Cluster.Finish.{finish}
use hyperbytedb_operator.Cluster.Reconcile.{
  keep_objects, after_rolling, rolled, roll, put_proxy, after_sts, applied, apply,
}
use hyperbytedb_operator.Cluster.Rules.{Meets, Meets-if, Meets-must, Meets-try}
use hyperbytedb_operator.Cluster.Effects.{
  prev, IsReleased, IsReleased-append, WritesBuilt, IsAllowed, IsFull,
  reconcile_stateful_set-WritesBuilt, reconcile_stateful_set-IsFull,
}
use hyperbytedb_operator.Cluster.Going.{
  Going, Ends, note-Held, free-Held, failed-Ends, done-Ends, finish-Ends,
}

module _ (c : Cluster) (w : World) (ph : Phase) where
  abbrev pub Behind : Pass → Type 0
  Behind = Going c w ph (IsReleased c w)

  abbrev End : Outcome → Pass → Type 0
  End = Ends c w ph

  note-Behind :
      {C : Type 0} (tag : C → Effect) (R : C → Type 0) (calls : List C)
      → ((log : List Effect) (x : C) → IsReleased c w log → R x → IsAllowed c w log (tag x))
      → All R calls
      → (p : Pass) → Behind p
      → Behind (note tag calls p)
  note-Behind tag R calls each h p =
      note-Held c w ph tag (IsReleased c w) R calls (IsReleased-append c w) each h p.log
        p.status.phase

  free-Behind :
      {C : Type 0} (tag : C → Effect) (calls : List C)
      → ((log : List Effect) (x : C) → IsAllowed c w log (tag x))
      → (p : Pass) → Behind p
      → Behind (note tag calls p)
  free-Behind tag calls each p =
      free-Held c w ph tag (IsReleased c w) calls (IsReleased-append c w) each p.log p.status.phase

  failed-Behind : (reason : String) (e : Failure) → Meets Behind End (set_failed_status reason e)
  failed-Behind = failed-Ends c w ph (IsReleased c w)

  try-Behind :
      {C A : Type 0} (tag : C → Effect) (m : Exec (List C) A) (next : Flow)
      → ((log : List Effect) (x : C) → IsAllowed c w log (tag x))
      → Meets Behind End next
      → Meets Behind End (try tag m next)
  try-Behind tag m next each h = Meets-try tag m next (free-Behind tag (m []).1 each) h

  keep_objects-Ends :
      (next : Flow) → Meets Behind End next → Meets Behind End (keep_objects c w (prev c w) next)
  unfolding keep_objects
  keep_objects-Ends next h =
      let hpas = try hpa (reconcile_hpa w.hpa c.autoscaling) next in
      let pdbs = try pdb (reconcile_pdb w.pdb (pos c.replicas)) hpas in
      let last : Meets Behind End pdbs =
        try-Behind pdb (reconcile_pdb w.pdb (pos c.replicas)) hpas (λ log x. tt)
          (try-Behind hpa (reconcile_hpa w.hpa c.autoscaling) next (λ log x. tt) h) in
      let monitors = try monitor (reconcile_service_monitor w.monitor c.monitor) pdbs in
      let watched = if c.service_monitor then monitors else pdbs in
      let watch : Meets Behind End watched =
        Meets-if c.service_monitor monitors pdbs
          (λ _.
            try-Behind monitor (reconcile_service_monitor w.monitor c.monitor) pdbs (λ log x. tt)
              last)
          (λ _. last) in
      let claims = cleanup_orphan_pvcs w.claims (prev c w) c.replicas in
      Meets-if (ltb c.replicas (prev c w)) (try delete_claim claims watched) watched
        (λ b.
          Meets-try delete_claim claims watched
            (note-Behind delete_claim (IsOrphan (prev c w) c.replicas) (claims []).1
              (λ log i t o. (t, o))
              (cleanup_orphan_pvcs-IsOrphan w.claims (prev c w) c.replicas (ground arith)))
            watch)
        (λ _. watch)

  after_rolling-Ends :
      (r : StsReconcileResult)
      → r.spec_replicas ≡ c.replicas
      → Meets Behind End (after_rolling c w (prev c w) r)
  unfolding after_rolling
  after_rolling-Ends r e =
      let same : not (r.spec_replicas == c.replicas) ≡ false = ground arith in
      let rest =
        keep_objects-Ends (finish c w r)
          (finish-Ends c w ph (IsReleased c w) (IsReleased-append c w) r) in
      record { at = λ p g. rw same (rest.at p g) }

  rolled-Ends :
      (answer : Result (Option ℕ)) (next : Flow)
      → Meets Behind End next
      → Meets Behind End (rolled c w answer next)
  unfolding rolled
  rolled-Ends (err e) next h = failed-Behind "RollingRestartFailed" e
  rolled-Ends (ok (some wait)) next h = done-Ends c w ph (IsReleased c w) (some wait)
  rolled-Ends (ok none) next h = h

  roll-Ends :
      (r : StsReconcileResult) (next : Flow)
      → Meets Behind End next
      → Meets Behind End (roll c w r next)
  unfolding roll
  roll-Ends r next h = record {
    at = λ p g.
        let start : Rolling.State.Pass = record {
          status = p.status.rolling_restart;
          stored = p.status.rolling_restart;
          calls = [];
        } in
        let result : Rolling.State.StsResult = record {
          spec_replicas = r.spec_replicas;
          ready_replicas = r.ready_replicas;
        } in
        let (answer, after) = reconcile_rolling_restart w.rolling result c.replicas start in
        let p' = set_status (λ s. record s { rolling_restart = after.status }) p in
        (rolled-Ends answer next h).at (note rolling after.calls p')
          (free-Behind rolling after.calls (λ log x. tt) p' g);
  }

  put_proxy-Ends : (next : Flow) → Meets Behind End next → Meets Behind End (put_proxy c w next)
  unfolding put_proxy
  put_proxy-Ends next h = record {
    at = λ p g.
        let (services, deployments) =
          (reconcile_proxy w.proxy_service c.proxy_service w.proxy_deployment c.proxy_deployment
            ([], [])).1 in
        h.at (note proxy_deployment deployments (note proxy_service services p)) (
          free-Behind proxy_deployment deployments (λ log x. tt) (note proxy_service services p)
            (free-Behind proxy_service services (λ log x. tt) p g));
  }

  proxied-Ends :
      (r : StsReconcileResult)
      → r.spec_replicas ≡ c.replicas
      → Meets Behind End (
          if c.proxy_enabled
          then put_proxy c w (roll c w r (after_rolling c w (prev c w) r))
          else after_rolling c w (prev c w) r)
  proxied-Ends r e =
      let rest = after_rolling c w (prev c w) r in
      Meets-if c.proxy_enabled (put_proxy c w (roll c w r rest)) rest
        (λ _. put_proxy-Ends (roll c w r rest) (roll-Ends r rest (after_rolling-Ends r e)))
        (λ _. after_rolling-Ends r e)

  stuck-IsStuck :
      (r : StsReconcileResult)
      → r.spec_replicas ≡ c.replicas
      → All
          (λ pod. (n : ℕ) × IsStuck w.stuck c.replicas n pod)
          (delete_stuck_departed_pods w.stuck r.spec_replicas r.status_replicas []).1
  stuck-IsStuck r e = rw e (
      All-map (IsStuck w.stuck c.replicas r.status_replicas)
        (λ pod. (n : ℕ) × IsStuck w.stuck c.replicas n pod)
        (delete_stuck_departed_pods w.stuck c.replicas r.status_replicas []).1
        (λ pod k. (r.status_replicas, k))
        (delete_stuck_departed_pods-IsStuck w.stuck c.replicas r.status_replicas))

  after_sts-Ends :
      (r : StsReconcileResult)
      → (r.recreating ≡ false → r.spec_replicas ≡ c.replicas)
      → Meets Behind End (after_sts c w (prev c w) r)
  unfolding after_sts
  after_sts-Ends r full =
      let stuck = delete_stuck_departed_pods w.stuck r.spec_replicas r.status_replicas in
      let rest : Unit {0} → Flow = λ _.
        if c.proxy_enabled
        then put_proxy c w (roll c w r (after_rolling c w (prev c w) r))
        else after_rolling c w (prev c w) r in
      Meets-if r.recreating (done (seconds 2)) (must delete_pod "ScaleDownFailed" stuck rest)
        (λ _. done-Ends c w ph (IsReleased c w) (seconds 2))
        (λ b.
          Meets-must delete_pod "ScaleDownFailed" stuck rest
            (note-Behind delete_pod (λ pod. (n : ℕ) × IsStuck w.stuck c.replicas n pod) (stuck []).1
              (λ log pod t k. (t, k)) (stuck-IsStuck r (full b)))
            (failed-Behind "ScaleDownFailed") (λ _ _. proxied-Ends r (full b)))

  applied-Ends :
      (r : Result StsReconcileResult) → IsFull c w r → Meets Behind End (applied c w (prev c w) r)
  unfolding applied
  applied-Ends (ok r) full = after_sts-Ends r full
  applied-Ends (err e) full =
      Meets-if (is_conflict e) (done (seconds 1)) (set_failed_status "StatefulSetFailed" e)
        (λ _. done-Ends c w ph (IsReleased c w) (seconds 1))
        (λ _. failed-Behind "StatefulSetFailed" e)

  pub apply-Ends : Meets Behind End (apply c w (prev c w))
  unfolding apply
  apply-Ends = record {
    at = λ p g.
        let (r, ops) = reconcile_stateful_set c w p.status.rolling_restart [] in
        (applied-Ends r (reconcile_stateful_set-IsFull c w p.status.rolling_restart)).at
          (note sts ops p)
          (note-Behind sts (WritesBuilt c w) ops (λ log x t h. (t, h))
            (reconcile_stateful_set-WritesBuilt c w p.status.rolling_restart) p g);
  }
