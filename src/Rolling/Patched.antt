-- ===== src/Rolling/Patched.antt =====
-- Which partition patches the parts of a pass make: but for a release, none.
use hyperbytedb_operator.Prelude.{
  ℕ, ◌+◌, ◌≤◌, ◌≡◌, refl, ap, sym, ◌∙◌, String, ◌≢◌, Bool, true, false, List, [], ◌∷◌, ◌++◌, Option,
  none, some, ◌⊎◌, inl, inr, arith, Result, ok, err, check, Failure, Option-cases, is_none,
  then-pure-bind, bind_keeps, pure, ◌>>◌, ◌>>=◌, Bool-cases, ltb, ◌&&◌, not, str_eq, eq_iff,
  not_found, other,
}
use mathlib.Core.List.{append-nil}
use hyperbytedb_operator.Kube.{Pod}
use hyperbytedb_operator.Rolling.State.{
  RollingRestartState, World, Pass, Step, Call, update_status, patch_partition, exclude, include,
  call, set_state, store_status,
}
use hyperbytedb_operator.Rolling.Handlers.{
  send_each, for_each_running_proxy, exclude_from_all_proxies, include_from_all_proxies, try_call,
  after_exclude, exclude_pod, after_include, next_ordinal, waiting_found,
  rolling_restart_waiting_ready,
}
use hyperbytedb_operator.Prelude.{
  Keeps, Keeps-bind, Keeps-then, Keeps-if, Keeps-pure, Keeps-lift, keeps_rules,
}

-- The partitions that the calls patch in, in order.
abbrev pub patches : List Call → List ℕ
patches [] = []
patches (patch_partition o ∷ cs) = o ∷ patches cs
patches (update_status _ ∷ cs) = patches cs
patches (exclude _ _ ∷ cs) = patches cs
patches (include _ _ ∷ cs) = patches cs

pub patches-append : (xs ys : List Call) → patches (xs ++ ys) ≡ patches xs ++ patches ys
patches-append [] ys = refl
patches-append (patch_partition o ∷ xs) ys = ap (λ l. o ∷ l) (patches-append xs ys)
patches-append (update_status _ ∷ xs) ys = patches-append xs ys
patches-append (exclude _ _ ∷ xs) ys = patches-append xs ys
patches-append (include _ _ ∷ xs) ys = patches-append xs ys

-- The pass has made the patches `ks` so far.
abbrev pub Patched : List ℕ → Pass → Type 0
Patched ks p = patches p.calls ≡ ks

pub Keeps-try :
    {P : Pass → Type 0} (w : World) (m : Step (Unit {0})) → Keeps P m → Keeps P (try_call w m)
Keeps-try w m km = record { at = km.at }

module _ {ks : List ℕ} (w : World) where
  call-Patched : (c : Call) → patches (c ∷ []) ≡ [] → Keeps (Patched ks) (call w c)
  call-Patched c e = record { at = λ p h. patches-append p.calls (c ∷ []) ∙ rw (e, append-nil) h }

  pub set_state-Patched : (s : RollingRestartState) → Keeps (Patched ks) (set_state s)
  set_state-Patched s = record { at = λ p h. h }

  pub store_status-Patched : Keeps (Patched ks) (store_status w)
  unfolding store_status
  store_status-Patched = record {
    at = λ p h.
        let e = patches-append p.calls (update_status p.status ∷ []) ∙ rw append-nil h in
        elim (Option-cases (w.answer (update_status p.status))) [
          | inl a ↦ rw a e
          | inr (f, a) ↦ rw a e
        ];
  }

  send_each-Patched :
      (send : String → Call) (pods : List Pod)
      → ((proxy : String) → patches (send proxy ∷ []) ≡ [])
      → Keeps (Patched ks) (send_each w send pods)
  unfolding send_each
  send_each-Patched send [] e = Keeps-pure tt
  send_each-Patched send (pod ∷ pods) e =
      let ih = send_each-Patched send pods e in
      Keeps-if _ _ _ (Keeps-then _ _ (call-Patched (send pod.ip) (e pod.ip)) ih) ih

  pub exclude-Patched : (ip : String) → Keeps (Patched ks) (exclude_from_all_proxies w ip)
  unfolding exclude_from_all_proxies for_each_running_proxy
  exclude-Patched ip =
      Keeps-bind _ _ (Keeps-lift w.list_proxies)
        (λ pods. send_each-Patched (λ proxy. exclude proxy ip) pods (λ proxy. refl))

  pub include-Patched : (ip : String) → Keeps (Patched ks) (include_from_all_proxies w ip)
  unfolding include_from_all_proxies for_each_running_proxy
  include-Patched ip =
      Keeps-bind _ _ (Keeps-lift w.list_proxies)
        (λ pods. send_each-Patched (λ proxy. include proxy ip) pods (λ proxy. refl))

pub ruleset patched_rules = (
  keeps_rules, Keeps-try, set_state-Patched, store_status-Patched, exclude-Patched, include-Patched,
)

module _ {ks : List ℕ} (w : World) (s : RollingRestartState) where
  pub after_exclude-Patched : (r : Result (Unit {0})) → Keeps (Patched ks) (after_exclude w s r)
  unfolding after_exclude
  after_exclude-Patched (ok _) = search patched_rules
  after_exclude-Patched (err _) = search patched_rules

  pub next_ordinal-Patched : Keeps (Patched ks) (next_ordinal w s)
  unfolding next_ordinal
  next_ordinal-Patched = search patched_rules

module _ {ks : List ℕ} (w : World) (s : RollingRestartState) where
  pub exclude_pod-Patched : (ip : String) → Keeps (Patched ks) (exclude_pod w s ip)
  unfolding exclude_pod
  exclude_pod-Patched ip = search (patched_rules, after_exclude-Patched)

  after_include-Patched : (r : Result (Unit {0})) → Keeps (Patched ks) (after_include w s r)
  unfolding after_include
  after_include-Patched (ok _) = next_ordinal-Patched w s
  after_include-Patched (err _) = search (patched_rules, next_ordinal-Patched)

  pub waiting-Patched :
      (revision : String) → Keeps (Patched ks) (rolling_restart_waiting_ready w s revision)
  unfolding rolling_restart_waiting_ready
  waiting-Patched revision = go (w.get_pod s.current_ordinal)
    where
      go : (r : Result Pod) → Keeps (Patched ks) (waiting_found w s revision r)
      go (err e) = search patched_rules
      go (ok pod) = search (patched_rules, after_include-Patched) depth 8
