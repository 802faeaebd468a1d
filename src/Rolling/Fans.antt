-- ===== src/Rolling/Fans.antt =====
-- What the proxies were told when a restart goes on: forEachRunningProxy of
-- internal/controller/hyperbytedbcluster_controller.go and the phases that wait for it.
use mathlib.Core.Path.{subst}
use hyperbytedb_operator.Prelude.{
  ◌≡◌, refl, String, true, List, [], ◌∷◌, ◌++◌, none, inl, inr, Result, ok, err, All, Any,
  Bool-cases, Option-cases, continue, Keeps, Keeps-then, Keeps-if, Keeps-pure,
}
use hyperbytedb_operator.Kube.{Pod, proxy_running}
use hyperbytedb_operator.Rolling.State.{World, Pass, Call, update_status, call, store_status}
use hyperbytedb_operator.Rolling.Handlers.{send_each, for_each_running_proxy}

-- The call was made and answered without an error.
abbrev pub Acked : World → Call → List Call → Type 0
Acked w c calls = Any (λ d. d ≡ c) calls × (w.answer c ≡ none)

-- Every running proxy among the pods has acknowledged the call.
abbrev pub AllAcked : World → (String → Call) → List Pod → List Call → Type 0
AllAcked w send pods calls =
    All (λ (pod : Pod). proxy_running pod ≡ true → Acked w (send pod.ip) calls) pods

-- The proxies were listed, and every running one has acknowledged the call.
abbrev pub FannedOut : World → (String → Call) → List Call → Type 0
FannedOut w send calls = (pods : List Pod) × (w.list_proxies ≡ ok pods) × AllAcked w send pods calls

Any-append {ℓ} : {A : Type ℓ} (P : A → Type 0) (xs ys : List A) → Any P xs → Any P (xs ++ ys)
Any-append P [] ys m = elim m [ ]
Any-append P (x ∷ xs) ys (inl h) = inl h
Any-append P (x ∷ xs) ys (inr m) = inr (Any-append P xs ys m)

Any-last : (c : Call) (calls : List Call) → Any (λ d. d ≡ c) (calls ++ (c ∷ []))
Any-last c [] = inl refl
Any-last c (d ∷ calls) = inr (Any-last c calls)

-- The call stays made.
abbrev Made : Call → Pass → Type 0
Made c p = Any (λ d. d ≡ c) p.calls

module _ (w : World) where
  call-Made : (c d : Call) → Keeps (Made c) (call w d)
  call-Made c d = record { at = λ p m. Any-append (λ e. e ≡ c) p.calls (d ∷ []) m }

  send_each-Made :
      (c : Call) (send : String → Call) (pods : List Pod) → Keeps (Made c) (send_each w send pods)
  unfolding send_each
  send_each-Made c send [] = Keeps-pure tt
  send_each-Made c send (pod ∷ pods) =
      let ih = send_each-Made c send pods in
      Keeps-if _ _ _ (Keeps-then _ _ (call-Made c (send pod.ip)) ih) ih

  store_status-Made : (c : Call) → Keeps (Made c) (store_status w)
  unfolding store_status
  store_status-Made c = record {
    at = λ p m. elim (Option-cases (w.answer (update_status p.status))) [
      | inl a ↦ rw a (Any-append (λ e. e ≡ c) p.calls (update_status p.status ∷ []) m)
      | inr (f, a) ↦ rw a (Any-append (λ e. e ≡ c) p.calls (update_status p.status ∷ []) m)
    ];
  }

  -- A loop that returns no error has reached every running proxy.
  send_each-AllAcked :
      (send : String → Call) (pods : List Pod) (p : Pass) (after : Result (Unit {0}) × Pass)
      → send_each w send pods p ≡ after
      → after.0 ≡ ok tt
      → AllAcked w send pods after.1.calls
  unfolding send_each
  send_each-AllAcked send [] p after e done = tt
  send_each-AllAcked send (pod ∷ pods) p after e done = elim (Bool-cases (proxy_running pod)) [
    | inl b ↦ elim (Option-cases (w.answer (send pod.ip))) [
      | inl a ↦
          let p' : Pass = record p { calls = p.calls ++ (send pod.ip ∷ []) } in
          let e' : send_each w send pods p' ≡ after = rw (b, a) at e in
          let made =
            (send_each-Made (send pod.ip) send pods).at p' (Any-last (send pod.ip) p.calls) in
          (
            (λ _. (subst (λ (r : Result (Unit {0}) × Pass). Made (send pod.ip) r.1) e' made, a)),
            send_each-AllAcked send pods p' after e' done,
          )
      | inr (f, a) ↦
          let e' : (err f, record p { calls = p.calls ++ (send pod.ip ∷ []) }) ≡ after =
            rw (b, a) at e in
          cc
    ]
    | inr b ↦ ((λ h. cc), send_each-AllAcked send pods p after (rw b at e) done)
  ]

  fan-FannedOut :
      (send : String → Call) (r : Result (List Pod)) (p : Pass)
      → w.list_proxies ≡ r
      → (continue r (send_each w send) p).0 ≡ ok tt
      → FannedOut w send (continue r (send_each w send) p).1.calls
  fan-FannedOut send (ok pods) p listed done =
      (pods, listed, send_each-AllAcked send pods p (send_each w send pods p) refl done)
  fan-FannedOut send (err f) p listed done = cc

  pub for_each_running_proxy-FannedOut :
      (send : String → Call) (p : Pass)
      → (for_each_running_proxy w send p).0 ≡ ok tt
      → FannedOut w send (for_each_running_proxy w send p).1.calls
  unfolding for_each_running_proxy
  for_each_running_proxy-FannedOut send p done = fan-FannedOut send w.list_proxies p refl done

  AllAcked-grows :
      (send : String → Call) (pods : List Pod) (p q : Pass)
      → ((c : Call) → Made c p → Made c q)
      → AllAcked w send pods p.calls
      → AllAcked w send pods q.calls
  AllAcked-grows send [] p q grows h = tt
  AllAcked-grows send (pod ∷ pods) p q grows (h, hs) = (
    (λ running. let (made, a) = h running in (grows (send pod.ip) made, a)),
    AllAcked-grows send pods p q grows hs,
  )

  pub store_status-FannedOut :
      (send : String → Call) → Keeps (λ (p : Pass). FannedOut w send p.calls) (store_status w)
  store_status-FannedOut send = record {
    at = λ p (pods, listed, h). (
      pods,
      listed,
      AllAcked-grows send pods p (store_status w p).1 (λ c. (store_status-Made c).at p) h,
    );
  }
