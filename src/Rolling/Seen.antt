-- ===== src/Rolling/Seen.antt =====
-- A restart goes on to the next pod only behind a pod that is back.
use hyperbytedb_operator.Prelude.{
  ℕ, suc, ◌-◌, ◌≡◌, refl, sym, ap, String, true, false, List, [], ◌∷◌, Option, none, some, ◌⊎◌, inl,
  inr, arith, Result, ok, err, str_eq, Option-cases, not, ◌&&◌, ◌||◌, leb, Keeps, Keeps-bind,
  Keeps-then, Keeps-if, Keeps-pure, Keeps-lift, Keeps-throw, Keeps-test, pure, ◌>>=◌, ◌>>◌,
  if◌then◌else◌, is_not_found,
}
use hyperbytedb_operator.Kube.{Pod, is_pod_ready}
use hyperbytedb_operator.Rolling.State.{
  Phase, excluding, draining, waiting_ready, including, completed, RollingRestartState, World, Pass,
  Call, update_status, exclude, include, call, set_state, store_status, requeue_3s,
}
use hyperbytedb_operator.Rolling.Handlers.{
  send_each, for_each_running_proxy, exclude_from_all_proxies, include_from_all_proxies, try_call,
  enter, after_exclude, exclude_pod, after_include, next_ordinal, waiting_found, release_ordinal,
  rolling_restart_release, excluding_found, rolling_restart_draining,
}
use hyperbytedb_operator.Rolling.Patched.{Keeps-try}

-- How many pods a restart has still to bring back.
abbrev pub pending_at : Phase → ℕ → ℕ
pending_at completed o = 0
pending_at excluding o = suc o
pending_at draining o = suc o
pending_at waiting_ready o = suc o
pending_at including o = suc o

abbrev pub pending : RollingRestartState → ℕ
pending s = pending_at s.phase s.current_ordinal

-- The pod of the ordinal was read: it is ready, not being deleted, and of the update revision, if one
-- is known.
pub record IsBack (w : World) (revision : String) (ordinal : ℕ) : Type 0 where
  pub pod : Pod
  pub reads : w.get_pod ordinal ≡ ok pod
  pub ready : is_pod_ready pod ≡ true
  pub stays : pod.deleting ≡ false
  pub updated : (str_eq revision "" ≡ true) ⊎ (str_eq pod.revision revision ≡ true)

-- As many pods are pending as before, or one less, which is back; or the restart is over.
abbrev pub Advances : World → String → ℕ → Option RollingRestartState → Type 0
Advances w revision k none = Unit {0}
Advances w revision k (some t) =
    (pending t ≡ k) ⊎ ((k ≡ suc (pending t)) × IsBack w revision (pending t))

-- so in memory and in the API server
abbrev pub Follows : World → String → ℕ → Pass → Type 0
Follows w revision k p = Advances w revision k p.status × Advances w revision k p.stored

module _ (w : World) (revision : String) {k : ℕ} where
  call-Follows : (c : Call) → Keeps (Follows w revision k) (call w c)
  call-Follows c = record { at = λ p h. h }

  set_state-Follows :
      (s : RollingRestartState)
      → Advances w revision k (some s)
      → Keeps (Follows w revision k) (set_state s)
  set_state-Follows s a = record { at = λ p h. (a, h.1) }

  pub store_status-Follows : Keeps (Follows w revision k) (store_status w)
  unfolding store_status
  store_status-Follows = record {
    at = λ p h. elim (Option-cases (w.answer (update_status p.status))) [
      | inl a ↦ rw a (h.0, h.0)
      | inr (f, a) ↦ rw a h
    ];
  }

  send_each-Follows :
      (send : String → Call) (pods : List Pod)
      → Keeps (Follows w revision k) (send_each w send pods)
  unfolding send_each
  send_each-Follows send [] = Keeps-pure tt
  send_each-Follows send (pod ∷ pods) =
      let ih = send_each-Follows send pods in
      Keeps-if _ _ _ (Keeps-then _ _ (call-Follows (send pod.ip)) ih) ih

  exclude-Follows : (ip : String) → Keeps (Follows w revision k) (exclude_from_all_proxies w ip)
  unfolding exclude_from_all_proxies for_each_running_proxy
  exclude-Follows ip =
      Keeps-bind _ _ (Keeps-lift w.list_proxies) (send_each-Follows (λ proxy. exclude proxy ip))

  include-Follows : (ip : String) → Keeps (Follows w revision k) (include_from_all_proxies w ip)
  unfolding include_from_all_proxies for_each_running_proxy
  include-Follows ip =
      Keeps-bind _ _ (Keeps-lift w.list_proxies) (send_each-Follows (λ proxy. include proxy ip))

  release_ordinal-Follows : (o : ℕ) → Keeps (Follows w revision k) (release_ordinal w o)
  unfolding release_ordinal
  release_ordinal-Follows o =
      Keeps-bind _ _ (Keeps-lift w.get_sts_again)
        (λ sts. Keeps-if _ _ _ (Keeps-pure tt) (call-Follows _))

  stored-Follows :
      (t : RollingRestartState)
      → Advances w revision k (some t)
      → Keeps (Follows w revision k) (do set_state t; store_status w; pure requeue_3s)
  stored-Follows t a =
      Keeps-then _ _ (set_state-Follows t a)
        (Keeps-then _ _ store_status-Follows (Keeps-pure requeue_3s))

module _ (w : World) (revision : String) (s : RollingRestartState) where
  release-Follows : Keeps (Follows w revision (suc s.current_ordinal)) (rolling_restart_release w s)
  unfolding rolling_restart_release
  release-Follows =
      Keeps-then _ _ (release_ordinal-Follows w revision s.current_ordinal)
        (stored-Follows w revision (enter w s waiting_ready) (inl refl))

  after_exclude-Follows :
      (ip : String) (r : Result (Unit {0}))
      → Keeps
          (Follows w revision (suc s.current_ordinal))
          (after_exclude w (record s { old_pod_ip = ip }) r)
  unfolding after_exclude
  after_exclude-Follows ip (ok _) =
      let t = record s { old_pod_ip = ip; exclude_confirmed = true } in
      stored-Follows w revision (enter w t draining) (inl refl)
  after_exclude-Follows ip (err _) =
      let t = record s { old_pod_ip = ip } in
      Keeps-if _ _ _ (Keeps-pure requeue_3s)
        (stored-Follows w revision (enter w t draining) (inl refl))

  exclude_pod-Follows :
      (ip : String)
      → s.phase ≡ excluding
      → Keeps (Follows w revision (suc s.current_ordinal)) (exclude_pod w s ip)
  unfolding exclude_pod
  exclude_pod-Follows ip e =
      Keeps-then _ _ (set_state-Follows w revision (record s { old_pod_ip = ip }) (inl (rw e refl)))
        (Keeps-bind _ _ (Keeps-try w _ (exclude-Follows w revision ip)) (after_exclude-Follows ip))

  pub excluding-Follows :
      (r : Result Pod)
      → s.phase ≡ excluding
      → Keeps (Follows w revision (suc s.current_ordinal)) (excluding_found w s revision r)
  unfolding excluding_found
  excluding-Follows (err e) h = Keeps-if (is_not_found e) _ _ release-Follows (Keeps-throw e)
  excluding-Follows (ok pod) h =
      Keeps-if _ _ _ release-Follows
        (Keeps-if _ _ _ (Keeps-pure requeue_3s) (exclude_pod-Follows pod.ip h))

  pub draining-Follows :
      Keeps (Follows w revision (suc s.current_ordinal)) (rolling_restart_draining w s)
  unfolding rolling_restart_draining
  draining-Follows = Keeps-if _ _ _ (Keeps-pure _) release-Follows

  -- a state in which the pod is no longer pending
  fewer :
      (t : RollingRestartState)
      → IsBack w revision s.current_ordinal
      → pending t ≡ s.current_ordinal
      → Keeps
          (Follows w revision (suc s.current_ordinal))
          (do set_state t; store_status w; pure requeue_3s)
  fewer t b e = stored-Follows w revision t (inr (ap suc (sym e), rw e b))

  next_ordinal-Follows :
      IsBack w revision s.current_ordinal
      → Keeps (Follows w revision (suc s.current_ordinal)) (next_ordinal w s)
  unfolding next_ordinal
  next_ordinal-Follows b =
      Keeps-test (leb s.current_ordinal 0) _ _
        (λ z. let none_left : 0 ≡ s.current_ordinal = ground arith in fewer _ b none_left)
        (λ z.
          let one_less : suc (s.current_ordinal - 1) ≡ s.current_ordinal = ground arith in
          fewer _ b one_less)

  after_include-Follows :
      (r : Result (Unit {0}))
      → IsBack w revision s.current_ordinal
      → Keeps (Follows w revision (suc s.current_ordinal)) (after_include w s r)
  unfolding after_include
  after_include-Follows (ok _) b = next_ordinal-Follows b
  after_include-Follows (err _) b = Keeps-if _ _ _ (Keeps-pure requeue_3s) (next_ordinal-Follows b)

  back_now :
      (pod : Pod)
      → IsBack w revision s.current_ordinal
      → Keeps (Follows w revision (suc s.current_ordinal)) (
          if str_eq pod.ip ""
          then pure requeue_3s
          else (try_call w (include_from_all_proxies w pod.ip) >>= after_include w s))
  back_now pod b = Keeps-if (str_eq pod.ip "") _ _ (Keeps-pure requeue_3s) (
      Keeps-bind _ _ (Keeps-try w _ (include-Follows w revision pod.ip))
        (λ sent. after_include-Follows sent b))

  pub waiting-Follows :
      (r : Result Pod)
      → w.get_pod s.current_ordinal ≡ r
      → Keeps (Follows w revision (suc s.current_ordinal)) (waiting_found w s revision r)
  unfolding waiting_found
  waiting-Follows (err e) h = Keeps-if (is_not_found e) _ _ (Keeps-pure requeue_3s) (Keeps-throw e)
  waiting-Follows (ok pod) h =
      Keeps-test (not (str_eq revision "") && not (str_eq pod.revision revision)) _ _
        (λ _. Keeps-pure requeue_3s)
        (λ u.
          Keeps-test (not (is_pod_ready pod) || pod.deleting) _ _ (λ _. Keeps-pure requeue_3s)
            (λ v.
              let b : IsBack w revision s.current_ordinal = record {
                pod = pod;
                reads = h;
                ready = ground arith;
                stays = ground arith;
                updated = ground arith;
              } in
              back_now pod b))
