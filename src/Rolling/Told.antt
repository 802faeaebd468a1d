-- ===== src/Rolling/Told.antt =====
-- The proxies before a pod drains and behind its return, in reconcileRollingRestart of
-- internal/controller/hyperbytedbcluster_controller.go.
use hyperbytedb_operator.Prelude.{
  ℕ, ◌+◌, ◌≤◌, ◌≡◌, String, true, false, List, [], ◌∷◌, Option, none, some, ◌⊎◌, inl, inr, ok,
  Option-cases, bind_keeps, ◌>>◌, Keeps, Keeps-then, Keeps-if, Keeps-pure, Keeps-lift, Keeps-bind,
  pure,
}
use hyperbytedb_operator.Kube.{Pod, is_pod_ready}
use hyperbytedb_operator.Rolling.State.{
  Phase, excluding, draining, waiting_ready, including, completed, RollingRestartState, World, Pass,
  Call, Step, Requeue, update_status, exclude, include, call, store_status, set_state, requeue_3s,
  proxy_call_timeout, pod_restart_allowance, patch_partition,
}
use hyperbytedb_operator.Rolling.Handlers.{
  enter, send_each, for_each_running_proxy, release_ordinal, rolling_restart_release,
}
use hyperbytedb_operator.Rolling.Fans.{FannedOut}

module _ (w : World) (s : RollingRestartState) where
  -- Why the pod of `s` may drain: every running proxy has acknowledged its exclude, or the time for
  -- that is over.
  abbrev pub Excluded : List Call → Type 0
  Excluded calls =
      (pod : Pod) × (w.get_pod s.current_ordinal ≡ ok pod)
      × (FannedOut w (λ proxy. exclude proxy pod.ip) calls
          ⊎ (s.phase_started_at + proxy_call_timeout ≤ w.now))

  -- Why the restart may leave the pod of `s`: it is ready and stays, and every running proxy has
  -- acknowledged its include, or the time for that is over.
  abbrev pub Included : List Call → Type 0
  Included calls =
      (pod : Pod) × (w.get_pod s.current_ordinal ≡ ok pod)
      × (is_pod_ready pod ≡ true)
      × (pod.deleting ≡ false)
      × (FannedOut w (λ proxy. include proxy pod.ip) calls
          ⊎ (s.phase_started_at + (proxy_call_timeout + pod_restart_allowance) ≤ w.now))

  abbrev pub FromExcluding : Phase → List Call → Type 0
  FromExcluding draining calls = Excluded calls
  FromExcluding excluding calls = Unit
  FromExcluding waiting_ready calls = Unit
  FromExcluding including calls = Unit
  FromExcluding completed calls = Unit

  abbrev pub FromWaiting : Phase → List Call → Type 0
  FromWaiting excluding calls = Included calls
  FromWaiting completed calls = Included calls
  FromWaiting draining calls = Unit
  FromWaiting waiting_ready calls = Unit
  FromWaiting including calls = Unit

  -- What a change from one phase to another rests on.
  abbrev pub Told : (before after : Phase) → List Call → Type 0
  Told excluding after calls = FromExcluding after calls
  Told waiting_ready after calls = FromWaiting after calls
  Told draining after calls = Unit
  Told including after calls = Unit
  Told completed after calls = Unit

  -- so for the status in memory
  abbrev pub Tells : Phase → Option RollingRestartState → List Call → Type 0
  Tells before none calls = Unit
  Tells before (some t) calls = Told before t.phase calls

  pub Told-same : (phase : Phase) (calls : List Call) → Told phase phase calls
  Told-same excluding calls = tt
  Told-same draining calls = tt
  Told-same waiting_ready calls = tt
  Told-same including calls = tt
  Told-same completed calls = tt

-- What is known of the status stays known.
abbrev pub OfStatus : (Option RollingRestartState → Type 0) → Pass → Type 0
OfStatus Q p = Q p.status

module _ (w : World) (Q : Option RollingRestartState → Type 0) where
  call-OfStatus : (c : Call) → Keeps (OfStatus Q) (call w c)
  call-OfStatus c = record { at = λ p h. h }

  pub store_status-OfStatus : Keeps (OfStatus Q) (store_status w)
  unfolding store_status
  store_status-OfStatus = record {
    at = λ p h. elim (Option-cases (w.answer (update_status p.status))) [
      | inl a ↦ rw a h
      | inr (f, a) ↦ rw a h
    ];
  }

  release_ordinal-OfStatus : (o : ℕ) → Keeps (OfStatus Q) (release_ordinal w o)
  unfolding release_ordinal
  release_ordinal-OfStatus o =
      Keeps-bind _ _ (Keeps-lift w.get_sts_again)
        (λ sts. Keeps-if _ _ _ (Keeps-pure tt) (call-OfStatus (patch_partition o)))

  send_each-OfStatus :
      (send : String → Call) (pods : List Pod) → Keeps (OfStatus Q) (send_each w send pods)
  unfolding send_each
  send_each-OfStatus send [] = Keeps-pure tt
  send_each-OfStatus send (pod ∷ pods) =
      let ih = send_each-OfStatus send pods in
      Keeps-if _ _ _ (Keeps-then _ _ (call-OfStatus (send pod.ip)) ih) ih

  pub for_each-OfStatus :
      (send : String → Call) → Keeps (OfStatus Q) (for_each_running_proxy w send)
  unfolding for_each_running_proxy
  for_each-OfStatus send =
      Keeps-bind _ _ (Keeps-lift w.list_proxies) (λ pods. send_each-OfStatus send pods)

module _ (w : World) (s : RollingRestartState) (before : Phase) where
  -- The status is in a phase that rests on nothing.
  abbrev pub Quiet : Option RollingRestartState → Type 0
  Quiet status = (calls : List Call) → Tells w s before status calls

  -- The end of a handler: a status is set and stored.
  abbrev pub set_and_store : RollingRestartState → Step Requeue
  set_and_store t = do set_state t; store_status w; pure requeue_3s

  pub set_and_store-Tells :
      (P : List Call → Type 0) (t : RollingRestartState) (p : Pass)
      → Keeps (λ (q : Pass). P q.calls) (store_status w)
      → P p.calls
      → ((calls : List Call) → P calls → Told w s before t.phase calls)
      → Tells w s before (set_and_store t p).1.status (set_and_store t p).1.calls
  unfolding store_status
  set_and_store-Tells P t p keeps h tells =
      let p' : Pass = record p { status = some t } in
      let k = keeps.at p' h in
      elim (Option-cases (w.answer (update_status (some t)))) [
        | inl a ↦ rw a (tells _ (rw a at k))
        | inr (f, a) ↦ rw a (tells _ (rw a at k))
      ]

  pub release-Tells :
      (p : Pass)
      → Quiet p.status
      → ((calls : List Call) → Told w s before waiting_ready calls)
      → Tells w s before
          (rolling_restart_release w s p).1.status
          (rolling_restart_release w s p).1.calls
  unfolding rolling_restart_release
  release-Tells p q h =
      bind_keeps (λ (p : Pass). Tells w s before p.status p.calls)
        (release_ordinal w s.current_ordinal) (λ _. set_and_store (enter w s waiting_ready)) p
        ((release_ordinal-OfStatus w Quiet s.current_ordinal).at p q
          (release_ordinal w s.current_ordinal p).1.calls)
        (λ _.
          set_and_store-Tells (λ calls. Unit) (enter w s waiting_ready)
            (release_ordinal w s.current_ordinal p).1 (record { at = λ q k. tt }) tt
            (λ calls k. h calls))
