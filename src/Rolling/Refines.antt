-- ===== src/Rolling/Refines.antt =====
-- Every pass of the coordinator follows the moves of the abstract restart.
use hyperbytedb_operator.Prelude.{
  ℕ, suc, ◌≡◌, refl, ap, ◌∙◌, true, [], ◌∷◌, ◌++◌, Option, none, some, Option-cases, Bool-cases,
  inl, inr, arith, ok, err, lift, gets, not, ◌&&◌, is_none, bind_keeps, then-pure-bind, ◌>>=◌,
}
use hyperbytedb_operator.Kube.{StatefulSet}
use hyperbytedb_operator.Rolling.State.{
  excluding, completed, RollingRestartState, StsResult, World, Pass, update_status, store_status,
  begin,
}
use hyperbytedb_operator.Rolling.Coordinate.{
  run_phase, coordinate, ensure_rolling_restart_state, reconcile_rolling_restart,
  clear_or_coordinate, try_clear_completed_rolling_restart, clear_status, ensure_state,
  initial_state, rolling_upgrade, clearable, abandoned, after_clear, after_read,
}
use hyperbytedb_operator.Rolling.Position.{
  Position, idle, view, Move, Within, Within-after, here, more, Within-of_eq, start, abandon, clear,
}
use hyperbytedb_operator.Rolling.Lands.{Lands, run_phase-Lands}

-- The restart in memory and the stored one are both where at most `k` moves from `a` lead.
pub record OnTrack (replicas k : ℕ) (a : Position) (p : Pass) : Type 0 where
  pub in_memory : Within replicas a k (view p.status)
  pub in_store : Within replicas a k (view p.stored)

-- one pass makes one move, and starts a restart besides
abbrev pub extra : Option RollingRestartState → ℕ
extra none = 1
extra (some s) = 0

module _ (replicas : ℕ) where
  OnTrack-Lands :
      {k : ℕ} {a b : Position} (p p' : Pass)
      → Within replicas a k b
      → Within replicas a (suc k) (view p.stored)
      → Lands (Within replicas b 1) p p'
      → OnTrack replicas (suc k) a p'
  OnTrack-Lands p p' m k l = record {
    in_memory = Within-after m l.in_memory;
    in_store = elim l.in_store [ inl e ↦ rw e k | inr h ↦ Within-after m h ];
  }

  module _ (w : World) (p : Pass) (fresh : p.stored ≡ p.status) where
    stored-OnTrack : {k : ℕ} → Within replicas (view p.status) k (view p.stored)
    stored-OnTrack = Within-of_eq (ap view fresh)

    clear-OnTrack :
        Move replicas (view p.status) idle
        → OnTrack replicas (suc (extra p.status)) (view p.status) (clear_status w p).1
    unfolding clear_status store_status
    clear-OnTrack m = elim (Option-cases (w.answer (update_status none))) [
      | inl e ↦ rw e (record { in_memory = more here m; in_store = more here m })
      | inr (f, e) ↦ rw e (record { in_memory = more here m; in_store = stored-OnTrack })
    ]

    coordinate_from :
        (sts : StatefulSet) (status : Option RollingRestartState)
        → p.status ≡ status
        → OnTrack replicas
            (suc (extra status))
            (view status)
            ((ensure_state w status replicas >>= λ s. run_phase w s.phase s sts.update_revision)
              p).1
    unfolding ensure_state store_status
    coordinate_from sts (some s) e =
        OnTrack-Lands p _ here (Within-of_eq (ap view (fresh ∙ e)))
          (run_phase-Lands w replicas s sts.update_revision s.phase p refl e)
    coordinate_from sts none e =
        let s = initial_state w.now replicas in
        let began : Within replicas idle 1 (view (some s)) = more here (start refl) in
        elim (Option-cases (w.answer (update_status (some s)))) [
          | inl a ↦
              let p' : Pass = record {
                status = some s;
                stored = some s;
                calls = p.calls ++ (update_status (some s) ∷ []);
              } in
              rw a (
                OnTrack-Lands p' _ began (more here (start refl))
                  (run_phase-Lands w replicas s sts.update_revision s.phase p' refl refl))
          | inr (f, a) ↦ rw a (record {
            in_memory = more here (start refl);
            in_store = Within-of_eq (ap view (fresh ∙ e));
          })
        ]

    coordinate-OnTrack :
        (sts : StatefulSet)
        → OnTrack replicas (suc (extra p.status)) (view p.status) (coordinate w sts replicas p).1
    unfolding coordinate ensure_rolling_restart_state
    coordinate-OnTrack sts = coordinate_from sts p.status refl

    abandoned-Move :
        (status : Option RollingRestartState) (sts : StatefulSet)
        → abandoned status sts ≡ true
        → Move replicas (view status) idle
    unfolding abandoned
    abandoned-Move none sts h = cc
    abandoned-Move (some s) sts h = let e : s.phase ≡ excluding = ground arith in rw e abandon

    clearable-Move :
        (status : Option RollingRestartState) (result : StsResult) (sts : StatefulSet)
        → clearable status result sts ≡ true
        → Move replicas (view status) idle
    unfolding clearable
    clearable-Move none result sts h = cc
    clearable-Move (some s) result sts h = let e : s.phase ≡ completed = ground arith in rw e clear

    clear_or_coordinate-OnTrack :
        (sts : StatefulSet)
        → OnTrack replicas
            (suc (extra p.status))
            (view p.status)
            (clear_or_coordinate w sts replicas p).1
    unfolding clear_or_coordinate
    clear_or_coordinate-OnTrack sts = elim (Bool-cases (abandoned p.status sts)) [
      | inl e ↦
          let h = clear-OnTrack (abandoned-Move p.status sts e) in
          rw e (
            bind_keeps (OnTrack replicas (suc (extra p.status)) (view p.status)) (clear_status w) _
              p h (λ _. h))
      | inr e ↦ rw e (coordinate-OnTrack sts)
    ]

    try_clear-OnTrack :
        (result : StsResult) (sts : StatefulSet)
        → OnTrack replicas
            (suc (extra p.status))
            (view p.status)
            ((try_clear_completed_rolling_restart w result sts >>= after_clear w sts replicas) p).1
    unfolding try_clear_completed_rolling_restart after_clear
    try_clear-OnTrack result sts = elim (Bool-cases (clearable p.status result sts)) [
      | inl e ↦
          let h = clear-OnTrack (clearable-Move p.status result sts e) in
          rw (e, then-pure-bind)
            (bind_keeps (OnTrack replicas (suc (extra p.status)) (view p.status)) (clear_status w) _
              p h (λ _. h))
      | inr e ↦ rw e (clear_or_coordinate-OnTrack sts)
    ]

    after_read-OnTrack :
        (result : StsResult) (sts : StatefulSet)
        → OnTrack replicas
            (suc (extra p.status))
            (view p.status)
            (after_read w result replicas p.status sts p).1
    unfolding after_read
    after_read-OnTrack result sts =
        elim (Bool-cases (not (rolling_upgrade sts) && is_none p.status)) [
          | inl e ↦ rw e (record { in_memory = here; in_store = stored-OnTrack })
          | inr e ↦ rw e (try_clear-OnTrack result sts)
        ]

    pass-OnTrack :
        (result : StsResult)
        → OnTrack replicas
            (suc (extra p.status))
            (view p.status)
            (reconcile_rolling_restart w result replicas p).1
    unfolding reconcile_rolling_restart
    pass-OnTrack result =
        elim w.get_sts
          as (λ r.
            OnTrack replicas (suc (extra p.status)) (view p.status)
              ((lift r >>= λ sts.
                  gets (λ p. p.status) >>= λ status. after_read w result replicas status sts)
                p).1) [
                  | err e ↦ record { in_memory = here; in_store = stored-OnTrack }
                  | ok sts ↦ after_read-OnTrack result sts
                ]

-- Whatever the API server, the pods and the proxies answer, a pass of the coordinator makes at most
-- one move of the abstract restart, or two if no restart was under way, both in the state that it
-- leaves in memory and in the state that it leaves in the API server.
pub reconcile_rolling_restart-OnTrack :
    (w : World) (result : StsResult) (replicas : ℕ) (status : Option RollingRestartState)
    → OnTrack replicas
        (suc (extra status))
        (view status)
        (reconcile_rolling_restart w result replicas (begin status)).1
reconcile_rolling_restart-OnTrack w result replicas status =
    pass-OnTrack replicas w (begin status) refl result
