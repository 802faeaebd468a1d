-- ===== src/Rolling/Ends.antt =====
-- That a rolling restart ends, if enough of its passes are favoured.
use hyperbytedb_operator.Prelude.{
  ℕ, suc, ◌≤◌, ◌<◌, ◌≡◌, ◌≢◌, refl, true, List, [], ◌∷◌, Option, none, some, ok, arith, Bool-cases,
  inl, inr, ◌>>=◌, bind_keeps, then-pure-bind,
}
use hyperbytedb_operator.Kube.{StatefulSet}
use hyperbytedb_operator.Rolling.State.{
  Phase, excluding, draining, waiting_ready, including, completed, RollingRestartState, StsResult,
  World, Pass, store_status, begin,
}
use hyperbytedb_operator.Rolling.Coordinate.{
  run_phase, coordinate, ensure_rolling_restart_state, ensure_state, reconcile_rolling_restart,
  clear_or_coordinate, try_clear_completed_rolling_restart, clear_status, rolling_upgrade,
  clearable, abandoned, after_clear, after_read,
}
use hyperbytedb_operator.Rolling.Position.{at}
use hyperbytedb_operator.Rolling.Refines.{reconcile_rolling_restart-OnTrack}
use hyperbytedb_operator.Rolling.Advance.{
  moves_left, left, Within-le, Obeys, Shows, drained, settled, draining-Stores, excluding-Stores,
  waiting-Stores,
}

at-pos : (f : Phase) (o : ℕ) → 0 < moves_left (at f o)
at-pos excluding o = omega arith
at-pos draining o = omega arith
at-pos waiting_ready o = omega arith
at-pos including o = omega arith
at-pos completed o = omega arith

-- A pass in which the API server does what it is told, and the cluster shows what the phase waits for.
pub record Favours (w : World) (result : StsResult) (s : RollingRestartState) : Type 0 where
  pub sts : StatefulSet
  pub reads : w.get_sts ≡ ok sts
  pub obeys : Obeys w s.current_ordinal
  pub shows : Shows w result sts s s.phase

module _ (w : World) (s : RollingRestartState) (obeys : Obeys w s.current_ordinal) where
  clear_status-Stores : (p : Pass) → left (clear_status w p).1.stored < left (some s)
  unfolding clear_status store_status
  clear_status-Stores p = rw (obeys.stores none) (at-pos s.phase s.current_ordinal)

  run_phase-Stores :
      {result : StsResult} {sts : StatefulSet} (f : Phase) (p : Pass)
      → Shows w result sts s f
      → f ≢ completed
      → left (run_phase w f s sts.update_revision p).1.stored < moves_left (at f s.current_ordinal)
  unfolding run_phase
  run_phase-Stores excluding p h n = excluding-Stores w s obeys h p
  run_phase-Stores draining p (drained late) n = draining-Stores w s obeys late p
  run_phase-Stores waiting_ready p h n = waiting-Stores w s obeys h p
  run_phase-Stores including p h n = elim h [ ]
  run_phase-Stores completed p h n = absurd (n refl)

  settled-clearable :
      {result : StsResult} {sts : StatefulSet}
      → s.phase ≡ completed
      → Shows w result sts s completed
      → clearable (some s) result sts ≡ true
  unfolding clearable
  settled-clearable e (settled a b c) = rw e (ground arith)

  coordinate-Stores :
      {result : StsResult} {sts : StatefulSet} (replicas : ℕ)
      → Shows w result sts s s.phase
      → s.phase ≢ completed
      → left (clear_or_coordinate w sts replicas (begin (some s))).1.stored < left (some s)
  unfolding clear_or_coordinate coordinate ensure_rolling_restart_state ensure_state
  coordinate-Stores {sts = sts} replicas h n = elim (Bool-cases (abandoned (some s) sts)) [
    | inl b ↦
        let p = begin (some s) in
        let h = clear_status-Stores p in
        rw b (bind_keeps (λ q. left q.stored < left (some s)) (clear_status w) _ p h (λ _. h))
    | inr b ↦ rw b (run_phase-Stores s.phase (begin (some s)) h n)
  ]

  clearing-Stores :
      {result : StsResult} {sts : StatefulSet} (replicas : ℕ)
      → Shows w result sts s s.phase
      → left
          ((try_clear_completed_rolling_restart w result sts >>= after_clear w sts replicas)
            (begin (some s))).1.stored
        < left (some s)
  unfolding try_clear_completed_rolling_restart after_clear
  clearing-Stores {result = result} {sts = sts} replicas h =
      elim (Bool-cases (clearable (some s) result sts)) [
        | inl b ↦
            let p = begin (some s) in
            let k = clear_status-Stores p in
            rw (b, then-pure-bind)
              (bind_keeps (λ q. left q.stored < left (some s)) (clear_status w) _ p k (λ _. k))
        | inr b ↦ rw b (
            coordinate-Stores replicas h (λ e.
              let h' : Shows w result sts s completed = rw (← e) h in
              cc (b, settled-clearable e h')))
      ]

reconcile-Favours :
    (w : World) (result : StsResult) (replicas : ℕ) (s : RollingRestartState)
    → Favours w result s
    → left (reconcile_rolling_restart w result replicas (begin (some s))).1.stored < left (some s)
unfolding reconcile_rolling_restart after_read
reconcile-Favours w result replicas s h =
    simp (h.reads) (elim (Bool-cases (rolling_upgrade h.sts)) [
      | inl b ↦ rw b (clearing-Stores w s h.obeys replicas h.shows)
      | inr b ↦ rw b (clearing-Stores w s h.obeys replicas h.shows)
    ])

reconcile-le :
    (w : World) (result : StsResult) (replicas : ℕ) (s : RollingRestartState)
    → left (reconcile_rolling_restart w result replicas (begin (some s))).1.stored ≤ left (some s)
reconcile-le w result replicas s =
    Within-le (reconcile_rolling_restart-OnTrack w result replicas (some s)).in_store

-- What a pass meets; `replicas` is that of the spec.
pub record Input : Type 0 where
  pub world : World
  pub result : StsResult
  pub replicas : ℕ

unfoldable pub next_stored : Input → RollingRestartState → Option RollingRestartState
next_stored i s = (reconcile_rolling_restart i.world i.result i.replicas (begin (some s))).1.stored

-- Passes in order, each from the status that the one before has stored, until the restart is over.
unfoldable pub drive : List Input → Option RollingRestartState → Option RollingRestartState
unfolding next_stored
drive [] status = status
drive (i ∷ is) none = none
drive (i ∷ is) (some s) = drive is (next_stored i s)

-- At least so many of the passes are favoured; nothing is asked of the others.
pub data Favoured : List Input → Option RollingRestartState → ℕ → Type 0 where
  enough : {is : List Input} {status : Option RollingRestartState} → Favoured is status 0
  over : {is : List Input} {n : ℕ} → Favoured is none n
  other :
      {i : Input} {is : List Input} {s : RollingRestartState} {n : ℕ}
      → Favoured is (next_stored i s) n
      → Favoured (i ∷ is) (some s) n
  counts :
      {i : Input} {is : List Input} {s : RollingRestartState} {n : ℕ}
      → Favours i.world i.result s
      → Favoured is (next_stored i s) n
      → Favoured (i ∷ is) (some s) (suc n)

pub drive-none : (is : List Input) → drive is none ≡ none
unfolding drive
drive-none [] = refl
drive-none (i ∷ is) = refl

left_zero : (status : Option RollingRestartState) → left status ≤ 0 → status ≡ none
left_zero none h = refl
left_zero (some s) h = absurd (omega (arith, at-pos s.phase s.current_ordinal))

-- A rolling restart ends: from a status with an ordinal `o` it is over after at most `3 * o + 4` favoured
-- passes, however many passes without luck are between them and whatever those meet. A pass is favoured
-- if the API server does what it is told, and the phase has had its time and the pods show what it waits
-- for; the proxies may refuse every call.
pub drive-ends :
    (is : List Input) (status : Option RollingRestartState) (n : ℕ)
    → Favoured is status n
    → left status ≤ n
    → drive is status ≡ none
unfolding drive next_stored
drive-ends is status n enough h = rw (left_zero status h) (drive-none is)
drive-ends is none n over h = drive-none is
drive-ends (i ∷ is) (some s) n (other f) h =
    drive-ends is (next_stored i s) n f
      (omega (arith, reconcile-le i.world i.result i.replicas s, h))
drive-ends (i ∷ is) (some s) (suc n) (counts g f) h =
    drive-ends is (next_stored i s) n f
      (omega (arith, reconcile-Favours i.world i.result i.replicas s g, h))
