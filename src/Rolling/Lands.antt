-- ===== src/Rolling/Lands.antt =====
-- Where the phase handlers leave the position of a restart.
use hyperbytedb_operator.Prelude.{
  ℕ, ◌-◌, ◌<◌, ◌≡◌, refl, ap, String, List, [], ◌∷◌, ◌++◌, some, ◌⊎◌, inl, inr, arith, Result, ok,
  err, lift, ◌>>=◌,
}
use hyperbytedb_operator.Kube.{Pod}
use hyperbytedb_operator.Rolling.State.{
  Phase, excluding, draining, waiting_ready, including, completed, RollingRestartState, World, Pass,
  Step, Call, store_status,
}
use hyperbytedb_operator.Rolling.Handlers.{
  send_each, for_each_running_proxy, exclude_from_all_proxies, include_from_all_proxies,
  release_ordinal, rolling_restart_release, exclude_pod, excluding_found, waiting_found,
  rolling_restart_excluding, rolling_restart_draining, after_include, next_ordinal,
  rolling_restart_waiting_ready,
}
use hyperbytedb_operator.Rolling.Coordinate.{run_phase}
use hyperbytedb_operator.Rolling.Position.{
  Position, at, view, Within, here, more, Within-of_eq, excluded, skip, drained, next, finish,
}

-- A part of the pass that leaves the restart's state alone.
abbrev Quiet : {A : Type 0} → Step A → Type 0
Quiet m = (p : Pass) → ((m p).1.status ≡ p.status) × ((m p).1.stored ≡ p.stored)

Quiet-lift :
    {A B : Type 0} (r : Result A) (f : A → Step B) → ((a : A) → Quiet (f a)) → Quiet (lift r >>= f)
Quiet-lift (ok a) f h p = h a p
Quiet-lift (err e) f h p = (refl, refl)

module _ (w : World) where
  send_each-Quiet : (send : String → Call) (pods : List Pod) → Quiet (send_each w send pods)
  unfolding send_each
  send_each-Quiet send [] p = (refl, refl)
  send_each-Quiet send (pod ∷ pods) p =
      let p' : Pass = record p { calls = p.calls ++ (send pod.ip ∷ []) } in
      ground (arith, send_each-Quiet send pods p, send_each-Quiet send pods p')

  for_each-Quiet : (send : String → Call) → Quiet (for_each_running_proxy w send)
  unfolding for_each_running_proxy
  for_each-Quiet send = Quiet-lift w.list_proxies (send_each w send) (send_each-Quiet send)

  exclude-Quiet : (ip : String) → Quiet (exclude_from_all_proxies w ip)
  unfolding exclude_from_all_proxies
  exclude-Quiet ip = for_each-Quiet (λ proxy. Call.exclude proxy ip)

  include-Quiet : (ip : String) → Quiet (include_from_all_proxies w ip)
  unfolding include_from_all_proxies
  include-Quiet ip = for_each-Quiet (λ proxy. Call.include proxy ip)

  release_ordinal-Quiet : (o : ℕ) → Quiet (release_ordinal w o)
  unfolding release_ordinal
  release_ordinal-Quiet o p = ground arith

-- The part ends at a position that `ok` allows, both in memory and in the API server, or has not
-- stored anything.
pub record Lands (ok : Position → Type 0) (p p' : Pass) : Type 0 where
  pub in_memory : ok (view p'.status)
  pub in_store : (p'.stored ≡ p.stored) ⊎ ok (view p'.stored)

abbrev OneOf : Position → Position → Position → Type 0
OneOf a b c = (a ≡ b) ⊎ (a ≡ c)

-- where a pass of the excluding phase can lead
abbrev AfterExcluding : RollingRestartState → Position → Type 0
AfterExcluding s a =
    (a ≡ view (some s))
    ⊎ (a ≡ at draining s.current_ordinal)
    ⊎ (a ≡ at waiting_ready s.current_ordinal)

-- where a pass of the waiting phase can lead
abbrev AfterWaiting : RollingRestartState → Position → Type 0
AfterWaiting s a =
    (a ≡ view (some s))
    ⊎ ((s.current_ordinal ≡ 0) × (a ≡ at completed s.current_ordinal))
    ⊎ ((0 < s.current_ordinal) × (a ≡ at excluding (s.current_ordinal - 1)))

module _ (w : World) (s : RollingRestartState) (p : Pass) (current : p.status ≡ some s) where
  release-Lands :
      Lands
        (λ a. OneOf a (view (some s)) (at waiting_ready s.current_ordinal))
        p
        (rolling_restart_release w s p).1
  unfolding rolling_restart_release store_status
  release-Lands = ground (arith, release_ordinal-Quiet w s.current_ordinal p)

  draining-Lands :
      Lands
        (λ a. OneOf a (view (some s)) (at waiting_ready s.current_ordinal))
        p
        (rolling_restart_draining w s p).1
  unfolding rolling_restart_draining
  draining-Lands = ground (arith, release-Lands)

  exclude_pod-Lands : (ip : String) → Lands (AfterExcluding s) p (exclude_pod w s ip p).1
  unfolding exclude_pod store_status
  exclude_pod-Lands ip =
      let p' : Pass = record p { status = some (record s { old_pod_ip = ip }) } in
      ground (arith, exclude-Quiet w ip p')

  excluding-Lands :
      (revision : String) → Lands (AfterExcluding s) p (rolling_restart_excluding w s revision p).1
  unfolding rolling_restart_excluding
  excluding-Lands revision =
      elim (w.get_pod s.current_ordinal)
        as (λ r. Lands (AfterExcluding s) p (excluding_found w s revision r p).1) [
          | err e ↦ ground (arith, release-Lands)
          | ok pod ↦ ground (arith, release-Lands, exclude_pod-Lands pod.ip)
        ]

  next_ordinal-Lands : Lands (AfterWaiting s) p (next_ordinal w s p).1
  unfolding next_ordinal store_status
  next_ordinal-Lands = ground arith

module _ (w : World) (s : RollingRestartState) where
  waiting-Lands :
      (revision : String) (p : Pass)
      → p.status ≡ some s
      → Lands (AfterWaiting s) p (rolling_restart_waiting_ready w s revision p).1
  unfolding rolling_restart_waiting_ready after_include
  waiting-Lands revision p current =
      elim (w.get_pod s.current_ordinal)
        as (λ r. Lands (AfterWaiting s) p (waiting_found w s revision r p).1) [
          | err e ↦ ground arith
          | ok pod ↦ ground (
            arith,
            next_ordinal-Lands w s (include_from_all_proxies w pod.ip p).1,
            include-Quiet w pod.ip p,
          )
        ]

Lands-map :
    (P Q : Position → Type 0) (p p' : Pass)
    → ((a : Position) → P a → Q a)
    → Lands P p p'
    → Lands Q p p'
Lands-map P Q p p' f l = record {
  in_memory = f _ l.in_memory;
  in_store = elim l.in_store [ inl e ↦ inl e | inr h ↦ inr (f _ h) ];
}

module _ (replicas : ℕ) (s : RollingRestartState) where
  excluding-Moves :
      s.phase ≡ excluding
      → (a : Position) → AfterExcluding s a
      → Within replicas (view (some s)) 1 a
  excluding-Moves e a (inl h) = Within-of_eq h
  excluding-Moves e a (inr (inl h)) = rw (h, e) (more here excluded)
  excluding-Moves e a (inr (inr h)) = rw (h, e) (more here skip)

  draining-Moves :
      s.phase ≡ draining
      → (a : Position) → OneOf a (view (some s)) (at waiting_ready s.current_ordinal)
      → Within replicas (view (some s)) 1 a
  draining-Moves e a (inl h) = Within-of_eq h
  draining-Moves e a (inr h) = rw (h, e) (more here drained)

  waiting-Moves :
      s.phase ≡ waiting_ready
      → (a : Position) → AfterWaiting s a
      → Within replicas (view (some s)) 1 a
  waiting-Moves e a (inl h) = Within-of_eq h
  waiting-Moves e a (inr (inl (z, h))) = rw (h, e) (more here (finish z))
  waiting-Moves e a (inr (inr (z, h))) = rw (h, e) (more here (next (omega arith)))

module _ (w : World) (replicas : ℕ) (s : RollingRestartState) (revision : String) where
  pub run_phase-Lands :
      (phase : Phase) (p : Pass)
      → s.phase ≡ phase
      → p.status ≡ some s
      → Lands (Within replicas (view (some s)) 1) p (run_phase w phase s revision p).1
  unfolding run_phase
  run_phase-Lands excluding p e c =
      Lands-map _ _ p _ (excluding-Moves replicas s e) (excluding-Lands w s p c revision)
  run_phase-Lands draining p e c =
      Lands-map _ _ p _ (draining-Moves replicas s e) (draining-Lands w s p c)
  run_phase-Lands waiting_ready p e c =
      Lands-map _ _ p _ (waiting-Moves replicas s e) (waiting-Lands w s revision p c)
  run_phase-Lands completed p e c = record {
    in_memory = Within-of_eq (ap view c);
    in_store = inl refl;
  }
  run_phase-Lands including p e c = record {
    in_memory = Within-of_eq (ap view c);
    in_store = inl refl;
  }
