-- ===== src/Rolling/Answered.antt =====
-- A pass of reconcileRollingRestart with the client that asks its proxies: excludeFromAllProxies and
-- includeFromAllProxies of internal/controller/hyperbytedbcluster_controller.go call the client of
-- internal/hyperbytedb/client.go. How a proxy answers a request is a parameter.
use hyperbytedb_operator.Prelude.{
  ℕ, ◌+◌, ◌<◌, ◌≡◌, ◌⊎◌, inl, inr, String, Bool, true, ◌==◌, ◌&&◌, List, [], ◌∷◌, Option, none,
  some, Bool-cases, Failure, Result, ok, err, All, Any, arith,
}
use hyperbytedb_operator.Kube.{Pod, proxy_running}
use hyperbytedb_operator.Client.{exclude_proxy_backend}
use hyperbytedb_operator.Client.Requests.{
  Request, Reply, contains, read_exclude, exclude_request, exclude_backend, include_backend,
}
use hyperbytedb_operator.Rolling.State.{
  excluding, draining, RollingRestartState, StsResult, World, Call, update_status, patch_partition,
  exclude, include, begin, proxy_call_timeout,
}
use hyperbytedb_operator.Rolling.Coordinate.{reconcile_rolling_restart}
use hyperbytedb_operator.Rolling.Release.{subject}
use hyperbytedb_operator.Rolling.Fans.{AllAcked}
use hyperbytedb_operator.Rolling.Told.{Told}
use hyperbytedb_operator.Rolling.Handover.{reconcile_rolling_restart-Told}

-- The proxy does not route to the backend: it has excluded it now or before, or has it not in its pool.
abbrev pub IsOut : Result Reply → Type 0
IsOut (ok r) =
    (r.code ≡ 200)
    ⊎ ((r.code ≡ 409) ⊎ ((r.code ≡ 404) × (contains r.body "not found in pool" ≡ true)))
IsOut (err e) = ⊥

code-IsOut :
    (code : ℕ) (missing : Bool)
    → exclude_proxy_backend (ok code) missing ≡ none
    → (code ≡ 200) ⊎ ((code ≡ 409) ⊎ ((code ≡ 404) × (missing ≡ true)))
unfolding exclude_proxy_backend
code-IsOut code missing h = elim (Bool-cases (code == 200)) [
  | inl b ↦ inl (ground arith)
  | inr b ↦ inr (elim (Bool-cases (code == 409)) [
    | inl c ↦ inl (ground arith)
    | inr c ↦ elim (Bool-cases (code == 404 && missing)) [
      | inl d ↦ inr (ground arith)
      | inr d ↦ absurd (ground arith)
    ]
  ])
]

read_exclude-IsOut : (a : Result Reply) → read_exclude a ≡ none → IsOut a
unfolding read_exclude
read_exclude-IsOut (ok r) h = code-IsOut r.code (contains r.body "not found in pool") h
read_exclude-IsOut (err e) h = cc

-- `at` is the state in which the proxy of an address is asked, and `port` the proxies' port.
module _ {S : Type 0} (send : Request → S → Result Reply × S) (at : String → S) (port : ℕ) where
  -- The answer to a call: that of the client where it goes to a proxy.
  unfoldable pub client_answer : (others : Call → Option Failure) → Call → Option Failure
  unfolding exclude_backend include_backend
  client_answer others (exclude proxy backend) =
      (exclude_backend send proxy port backend (at proxy)).0
  client_answer others (include proxy backend) =
      (include_backend send proxy port backend (at proxy)).0
  client_answer others (update_status s) = others (update_status s)
  client_answer others (patch_partition n) = others (patch_partition n)

  -- The world, whose proxies are asked by the client.
  abbrev pub with_client : World → World
  with_client w = record w { answer = client_answer w.answer }

  -- Each running proxy has been sent the exclude, and has answered that the backend is out.
  abbrev pub AllOut : String → List Pod → List Call → Type 0
  AllOut ip pods calls =
      All
        (λ (proxy : Pod).
          proxy_running proxy ≡ true
          → Any (λ d. d ≡ exclude proxy.ip ip) calls
            × IsOut (send (exclude_request proxy.ip port ip) (at proxy.ip)).0)
        pods

  exclude-IsOut :
      (others : Call → Option Failure) (proxy ip : String)
      → client_answer others (exclude proxy ip) ≡ none
      → IsOut (send (exclude_request proxy port ip) (at proxy)).0
  unfolding client_answer exclude_backend
  exclude-IsOut others proxy ip h =
      read_exclude-IsOut (send (exclude_request proxy port ip) (at proxy)).0 h

  AllAcked-AllOut :
      (w : World) (ip : String) (pods : List Pod) (calls : List Call)
      → AllAcked (with_client w) (λ proxy. exclude proxy ip) pods calls
      → AllOut ip pods calls
  AllAcked-AllOut w ip [] calls h = tt
  AllAcked-AllOut w ip (proxy ∷ pods) calls (h, hs) = (
    (λ running. let (made, a) = h running in (made, exclude-IsOut w.answer proxy.ip ip a)),
    AllAcked-AllOut w ip pods calls hs,
  )

  -- A pass that takes a restart from excluding a pod to draining it, before the time for the proxies is
  -- over, has read the pod and the list of the proxies, and has sent to each running proxy of it, at the
  -- proxies' port, the exclude of the pod's address; and each has answered 200, or 409, or 404 with a body
  -- that says that the backend is not in its pool.
  pub reconcile_rolling_restart-AllOut :
      (w : World) (result : StsResult) (replicas : ℕ) (status : Option RollingRestartState)
      (t : RollingRestartState)
      → (reconcile_rolling_restart (with_client w) result replicas (begin status)).1.status ≡ some t
      → (subject w replicas status).phase ≡ excluding
      → t.phase ≡ draining
      → w.now < (subject w replicas status).phase_started_at + proxy_call_timeout
      → (pod : Pod) × (w.get_pod (subject w replicas status).current_ordinal ≡ ok pod)
        × ((pods : List Pod) × (w.list_proxies ≡ ok pods)
            × AllOut pod.ip pods
                (reconcile_rolling_restart (with_client w) result replicas (begin status)).1.calls)
  reconcile_rolling_restart-AllOut w result replicas status t e before after early =
      let s = subject w replicas status in
      let calls =
        (reconcile_rolling_restart (with_client w) result replicas (begin status)).1.calls in
      let told : Told (with_client w) s s.phase t.phase calls =
        reconcile_rolling_restart-Told (with_client w) result replicas status t e in
      let from : Told (with_client w) s excluding draining calls = rw (before, after) at told in
      let (pod, got, why) = from in
      elim why [
        | inl fanned ↦
            let (pods, listed, acked) = fanned in
            (pod, got, (pods, listed, AllAcked-AllOut w pod.ip pods calls acked))
        | inr over ↦ absurd (omega (arith, early, over))
      ]
