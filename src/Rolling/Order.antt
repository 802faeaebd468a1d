-- ===== src/Rolling/Order.antt =====
-- Over a whole run of passes, a restart leaves no pod behind that is not back.
use native.Mathlib.Decide.{dec_lt}
use hyperbytedb_operator.Prelude.{
  ℕ, ◌≤◌, ◌<◌, ◌≡◌, refl, ap, String, List, [], ◌∷◌, Option, none, some, inl, inr, arith, Result,
  ok, err, Any, Bool-cases, lift, gets, bind_keeps, then-pure-bind, ◌>>=◌,
}
use hyperbytedb_operator.Kube.{StatefulSet}
use hyperbytedb_operator.Rolling.State.{
  Phase, excluding, draining, waiting_ready, including, completed, RollingRestartState, StsResult,
  World, Pass, begin,
}
use hyperbytedb_operator.Rolling.Handlers.{rolling_restart_excluding, rolling_restart_waiting_ready}
use hyperbytedb_operator.Rolling.Coordinate.{
  run_phase, coordinate, ensure_rolling_restart_state, ensure_state, reconcile_rolling_restart,
  clear_or_coordinate, try_clear_completed_rolling_restart, clear_status, rolling_upgrade,
  clearable, abandoned, after_clear, after_read,
}
use hyperbytedb_operator.Rolling.Seen.{
  pending, pending_at, IsBack, Advances, Follows, excluding-Follows, draining-Follows,
  waiting-Follows, store_status-Follows,
}
use hyperbytedb_operator.Rolling.Ends.{Input, next_stored, drive, drive-none}

abbrev revision_of : Result StatefulSet → String
revision_of (ok sts) = sts.update_revision
revision_of (err e) = ""

module _ (w : World) (s : RollingRestartState) (revision : String) where
  abbrev start : Pass
  start = begin (some s)

  run_phase-Follows :
      (f : Phase)
      → s.phase ≡ f
      → Follows w revision (pending_at f s.current_ordinal) (run_phase w f s revision start).1
  unfolding run_phase rolling_restart_excluding rolling_restart_waiting_ready
  run_phase-Follows excluding e =
      (excluding-Follows w revision s (w.get_pod s.current_ordinal) e).at start
        (rw e (inl refl, inl refl))
  run_phase-Follows draining e =
      (draining-Follows w revision s).at start (rw e (inl refl, inl refl))
  run_phase-Follows waiting_ready e =
      (waiting-Follows w revision s (w.get_pod s.current_ordinal) refl).at start
        (rw e (inl refl, inl refl))
  run_phase-Follows including e = rw e (inl refl, inl refl)
  run_phase-Follows completed e = rw e (inl refl, inl refl)

  clear_status-Follows : Follows w revision (pending s) (clear_status w start).1
  unfolding clear_status
  clear_status-Follows =
      (store_status-Follows w revision).at (record start { status = none }) (tt, inl refl)

module _ (w : World) (s : RollingRestartState) (sts : StatefulSet) where
  clear_or_coordinate-Follows :
      (replicas : ℕ)
      → Follows w sts.update_revision
          (pending s)
          (clear_or_coordinate w sts replicas (begin (some s))).1
  unfolding clear_or_coordinate coordinate ensure_rolling_restart_state ensure_state
  clear_or_coordinate-Follows replicas = elim (Bool-cases (abandoned (some s) sts)) [
    | inl b ↦
        let h = clear_status-Follows w s sts.update_revision in
        rw b (
          bind_keeps (Follows w sts.update_revision (pending s)) (clear_status w) _ (begin (some s))
            h (λ _. h))
    | inr b ↦ rw b (run_phase-Follows w s sts.update_revision s.phase refl)
  ]

  after_read-Follows :
      (result : StsResult) (replicas : ℕ)
      → Follows w sts.update_revision
          (pending s)
          ((try_clear_completed_rolling_restart w result sts >>= after_clear w sts replicas)
            (begin (some s))).1
  unfolding try_clear_completed_rolling_restart after_clear
  after_read-Follows result replicas = elim (Bool-cases (clearable (some s) result sts)) [
    | inl b ↦
        let h = clear_status-Follows w s sts.update_revision in
        rw (b, then-pure-bind)
          (bind_keeps (Follows w sts.update_revision (pending s)) (clear_status w) _
            (begin (some s)) h (λ _. h))
    | inr b ↦ rw b (clear_or_coordinate-Follows replicas)
  ]

pass-Advances :
    (w : World) (result : StsResult) (replicas : ℕ) (s : RollingRestartState)
    → Advances w
        (revision_of w.get_sts)
        (pending s)
        (reconcile_rolling_restart w result replicas (begin (some s))).1.stored
unfolding reconcile_rolling_restart after_read
pass-Advances w result replicas s = go w.get_sts
  where
    go :
        (r : Result StatefulSet)
        → Advances w
            (revision_of r)
            (pending s)
            ((lift r >>= λ sts.
                gets (λ (p : Pass). p.status) >>= λ status. after_read w result replicas status sts)
              (begin (some s))).1.stored
    go (err e) = inl refl
    go (ok sts) = elim (Bool-cases (rolling_upgrade sts)) [
      | inl b ↦ rw b (after_read-Follows w s sts result replicas).1
      | inr b ↦ rw b (after_read-Follows w s sts result replicas).1
    ]

-- In a pass the pod of the ordinal was read as back, at the revision that the pass read.
abbrev pub SawBack : ℕ → Input → Type 0
SawBack ordinal i = IsBack i.world (revision_of i.world.get_sts) ordinal

abbrev pending_of : Option RollingRestartState → ℕ
pending_of none = 0
pending_of (some s) = pending s

-- A restart comes to a pod only behind all pods above it: if it goes on through any number of passes,
-- whatever they meet, then each pod that was pending at first and is pending no longer has been read in
-- one of these passes, as ready, not being deleted and of the update revision, if the StatefulSet has one.
pub drive-SawBack :
    (is : List Input) (s t : RollingRestartState) (j : ℕ)
    → drive is (some s) ≡ some t
    → pending t ≤ j
    → j < pending s
    → Any (SawBack j) is
unfolding drive next_stored
drive-SawBack [] s t j e lo hi =
    let same : pending s ≡ pending t = ap pending_of e in absurd (omega (arith, same, lo, hi))
drive-SawBack (i ∷ is) s t j e lo hi =
    step (λ u f h. drive-SawBack is u t j f lo h) (next_stored i s)
      (pass-Advances i.world i.result i.replicas s) e
  where
    step :
        ((u : RollingRestartState)
          → drive is (some u) ≡ some t
          → j < pending u
          → Any (SawBack j) is)
        → (o : Option RollingRestartState)
        → Advances i.world (revision_of i.world.get_sts) (pending s) o
        → drive is o ≡ some t
        → Any (SawBack j) (i ∷ is)
    step ih none a f = absurd (cc (f, drive-none is))
    step ih (some u) (inl same) f = inr (ih u f (omega (arith, same, hi)))
    step ih (some u) (inr (less, back)) f = elim (dec_lt j (pending u)) [
      | yes h ↦ inr (ih u f h)
      | no h ↦ let last : j ≡ pending u = omega (arith, h, less, hi) in inl (rw last back)
    ]
