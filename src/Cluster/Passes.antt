-- ===== src/Cluster/Passes.antt =====
-- The steps before the scale-down hooks, and a whole pass.
use hyperbytedb_operator.Prelude.{
  ℕ, ◌≡◌, refl, sym, ◌⊎◌, inl, inr, String, Bool, true, false, List, [], ◌∷◌, ◌++◌, Option, none,
  some, if◌then◌else◌, Bool-cases, Failure, not_found, already_exists, conflict, other, Result, ok,
  err, is_not_found, Exec,
}
use mathlib.Core.Path.{subst}
use hyperbytedb_operator.ScaleDown.Hooks.{run_scale_down_cluster_hooks}
use hyperbytedb_operator.ScaleDown.HookLaws.{run_scale_down_cluster_hooks-Shrinks}
use hyperbytedb_operator.Cluster.State.{
  Phase, Status, Effect, update_cluster, tls, auth, config_map, legacy_peers, headless,
  client_service, hook, Cluster, World, Pass, Outcome, Flow, note, set_status, set_failed_status,
  done, fails, must, try,
}
use hyperbytedb_operator.Cluster.Reconcile.{
  keep_objects, after_rolling, rolled, roll, put_proxy, after_sts, applied, apply, shrink,
  configure, secure, look_up, or_fail, write_cluster, maintain, found, reconcile,
}
use hyperbytedb_operator.Cluster.Reconcile
use hyperbytedb_operator.Cluster.Rules.{AllIn, Meets, Meets-if, Meets-must, Meets-try}
use hyperbytedb_operator.Cluster.Effects.{prev, prev_of, IsReleased, IsAllowed}
use hyperbytedb_operator.Cluster.Outcomes.{Reported}
use hyperbytedb_operator.Cluster.Going.{Going, Ends, free-Held, failed-Ends, done-Ends, store-AllIn}
use mathlib.Core.List.{append-nil}
use hyperbytedb_operator.Resources.{
  reconcile_tls, reconcile_auth_secret, reconcile_config_map, cleanup_legacy_peers_config_map,
  reconcile_service,
}
use hyperbytedb_operator.Cluster.Stages.{apply-Ends}

-- Before the hooks nothing is known of the log.
abbrev pub Free : List Effect → Type 0
Free log = Unit

Free-IsStable : (log more : List Effect) → Free log → Free (log ++ more)
Free-IsStable log more t = tt

module _ (c : Cluster) (w : World) (ph : Phase) where
  abbrev pub Before : Pass → Type 0
  Before = Going c w ph Free

  abbrev End : Outcome → Pass → Type 0
  End = Ends c w ph

  failed-Before : (reason : String) (e : Failure) → Meets Before End (set_failed_status reason e)
  failed-Before = failed-Ends c w ph Free

  note-Before :
      {C : Type 0} (tag : C → Effect) (calls : List C)
      → ((log : List Effect) (x : C) → IsAllowed c w log (tag x))
      → (p : Pass) → Before p
      → Before (note tag calls p)
  note-Before tag calls each p =
      free-Held c w ph tag Free calls Free-IsStable each p.log p.status.phase

  must-Before :
      {C A : Type 0} (tag : C → Effect) (reason : String) (m : Exec (List C) A) (next : A → Flow)
      → ((log : List Effect) (x : C) → IsAllowed c w log (tag x))
      → ((a : A) → Meets Before End (next a))
      → Meets Before End (must tag reason m next)
  must-Before tag reason m next each h =
      Meets-must tag reason m next (note-Before tag (m []).1 each) (failed-Before reason)
        (λ a _. h a)

  shrink-Ends : Meets Before End (shrink c w (prev c w))
  unfolding shrink
  shrink-Ends = record {
    at = λ p g.
        let calls = (run_scale_down_cluster_hooks w.hooks (prev c w) c.replicas).1 in
        let p' = note hook calls p in
        let g' = note-Before hook calls (λ log x. tt) p g in
        elim (Bool-cases (run_scale_down_cluster_hooks w.hooks (prev c w) c.replicas).0) [
          | inl b ↦
              let released : IsReleased c w p'.log = record {
                before = p.log;
                after = [];
                made = sym (append-nil p'.log);
                shrinks =
                    λ lt. run_scale_down_cluster_hooks-Shrinks w.hooks (prev c w) c.replicas lt b;
              } in
              rw b ((apply-Ends c w ph).at p' (g'.0, released, g'.2))
          | inr b ↦ rw b (g'.0, inl g'.2)
        ];
  }

  configure-Ends : Meets Before End (configure c w (prev c w))
  unfolding configure
  configure-Ends =
      let legacy = cleanup_legacy_peers_config_map w.legacy_peers in
      let clients : Unit {0} → Flow = λ _.
        must client_service "ClientServiceFailed" (reconcile_service w.client c.client_service)
          (λ _. shrink c w (prev c w)) in
      let services =
        must headless "HeadlessServiceFailed" (reconcile_service w.headless c.headless_service)
          clients in
      must-Before config_map "ConfigMapFailed" (reconcile_config_map w.config_map w.same c.config)
        (λ _. try legacy_peers legacy services) (λ log x. tt)
        (λ _.
          Meets-try legacy_peers legacy services
            (note-Before legacy_peers (legacy []).1 (λ log x. tt))
            (must-Before headless "HeadlessServiceFailed"
              (reconcile_service w.headless c.headless_service) clients (λ log x. tt)
              (λ _.
                must-Before client_service "ClientServiceFailed"
                  (reconcile_service w.client c.client_service) (λ _. shrink c w (prev c w))
                  (λ log x. tt) (λ _. shrink-Ends))))

  secure-Ends : Meets Before End (secure c w (prev c w))
  unfolding secure
  secure-Ends =
      let with_token =
        must auth "AuthSecretFailed" (reconcile_auth_secret w.auth w.draws)
          (λ _. configure c w (prev c w)) in
      must-Before tls "TLSFailed" (reconcile_tls w.tls w.built c.tls_spec)
        (λ _. if c.auth_enabled then with_token else configure c w (prev c w)) (λ log x. tt)
        (λ _.
          Meets-if c.auth_enabled with_token (configure c w (prev c w))
            (λ _.
              must-Before auth "AuthSecretFailed" (reconcile_auth_secret w.auth w.draws)
                (λ _. configure c w (prev c w)) (λ log x. tt) (λ _. configure-Ends))
            (λ _. configure-Ends))

  look_up-Ends : (r : Result ℕ) → prev c w ≡ prev_of r → Meets Before End (look_up c w r)
  unfolding look_up
  look_up-Ends (ok n) e = subst (λ k. Meets Before End (secure c w k)) e secure-Ends
  look_up-Ends (err not_found) e = subst (λ k. Meets Before End (secure c w k)) e secure-Ends
  look_up-Ends (err already_exists) e = failed-Before "StatefulSetLookupFailed" already_exists
  look_up-Ends (err conflict) e = failed-Before "StatefulSetLookupFailed" conflict
  look_up-Ends (err (other n)) e = failed-Before "StatefulSetLookupFailed" (other n)

  -- An error of the cluster's own Get or Update is returned as it is.
  abbrev pub IsOwn : Outcome → Type 0
  IsOwn o =
      (e : Failure) × (o.error ≡ some e) × ((w.get_cluster ≡ some e) ⊎ (w.update_cluster ≡ some e))

  abbrev pub Concludes : Outcome → Pass → Type 0
  Concludes o p =
      AllIn (IsAllowed c w) [] p.log
      × (Reported ph o.requeue o.error p ⊎ (IsOwn o × (p.status.phase ≡ ph)))

  concludes : (f : Flow) → Meets Before End f → Meets Before Concludes f
  concludes f h = record { at = λ p g. let r = h.at p g in (r.0, inl r.1) }

  fails-Concludes :
      (e : Failure)
      → (w.get_cluster ≡ some e) ⊎ (w.update_cluster ≡ some e)
      → Meets Before Concludes (fails e)
  fails-Concludes e own = record { at = λ p g. (g.0, inr ((e, refl, own), g.2)) }

  or_fail-Concludes :
      (answer : Option Failure) (next : Flow)
      → w.update_cluster ≡ answer
      → Meets Before Concludes next
      → Meets Before Concludes (or_fail c w answer next)
  unfolding or_fail
  or_fail-Concludes none next e h = h
  or_fail-Concludes (some f) next e h = fails-Concludes f (inr e)

  write_cluster-Concludes :
      (finalizer : Bool) (next : Flow)
      → Meets Before Concludes next
      → Meets Before Concludes (write_cluster c w finalizer next)
  unfolding write_cluster
  write_cluster-Concludes finalizer next h = record {
    at = λ p g.
        (or_fail-Concludes w.update_cluster next refl h).at (note update_cluster (finalizer ∷ []) p)
          (note-Before update_cluster (finalizer ∷ []) (λ log x. tt) p g);
  }

  done-Concludes : (requeue : Option ℕ) → Meets Before Concludes (done requeue)
  done-Concludes requeue = concludes (done requeue) (done-Ends c w ph Free requeue)

  maintain-Concludes : Meets Before Concludes (maintain c w)
  unfolding maintain
  maintain-Concludes =
      let rest = look_up c w w.prev_replicas in
      let looks = concludes rest (look_up-Ends w.prev_replicas refl) in
      let finalized = if c.has_finalizer then rest else write_cluster c w true rest in
      let deleted = if c.has_finalizer then write_cluster c w false (done none) else done none in
      Meets-if c.deleting deleted finalized
        (λ _.
          Meets-if c.has_finalizer (write_cluster c w false (done none)) (done none)
            (λ _. write_cluster-Concludes false (done none) (done-Concludes none))
            (λ _. done-Concludes none))
        (λ _.
          Meets-if c.has_finalizer rest (write_cluster c w true rest) (λ _. looks)
            (λ _. write_cluster-Concludes true rest looks))

  begin-Concludes : Meets Before Concludes (Reconcile.begin c w)
  unfolding Reconcile.begin
  begin-Concludes = record {
    at = λ p g. elim (Bool-cases c.paused) [
      | inl b ↦ simp (b) (store-AllIn c w ph p.log _ g.0, inl (inl g.2))
      | inr b ↦
          simp (b) (maintain-Concludes.at (set_status (λ s. record s { is_paused = false }) p) g)
    ];
  }

  found-Concludes :
      (answer : Option Failure) → w.get_cluster ≡ answer → Meets Before Concludes (found c w answer)
  unfolding found
  found-Concludes none e = begin-Concludes
  found-Concludes (some f) e =
      Meets-if (is_not_found f) (done none) (fails f) (λ _. done-Concludes none)
        (λ _. fails-Concludes f (inl e))

-- A pass that starts from a status.
abbrev pub start : Status → Pass
start s = record { status = s; log = [] }

pub reconcile-Concludes :
    (c : Cluster) (w : World) (s : Status)
    → Concludes c w s.phase (reconcile c w (start s)).0 (reconcile c w (start s)).1
unfolding reconcile
reconcile-Concludes c w s =
    (found-Concludes c w s.phase w.get_cluster refl).at (start s) (tt, tt, refl)
