-- ===== src/Cluster/Laws.antt =====
-- A whole pass: which calls it makes and in which order, and what its outcome says of the status.
use hyperbytedb_operator.Prelude.{
  ℕ, ◌≡◌, refl, sym, ap, ◌∙◌, ◌⊎◌, inl, inr, true, false, List, [], ◌∷◌, Option, none, some,
  if◌then◌else◌, Bool-cases, Failure, is_not_found, All,
}
use mathlib.Core.Path.{subst}
use hyperbytedb_operator.Cluster.State.{
  Phase, pending, initializing, running, scaling, upgrading, failed, Status, Effect, update_cluster,
  update_status, Cluster, World, Pass, Outcome, note, set_status, done, fails,
}
use hyperbytedb_operator.Cluster.Reconcile.{
  keep_objects, after_rolling, rolled, roll, put_proxy, after_sts, applied, apply, shrink,
  configure, secure, look_up, or_fail, write_cluster, maintain, found, reconcile,
}
use hyperbytedb_operator.Cluster.Reconcile
use hyperbytedb_operator.Cluster.Rules.{AllIn, Meets, Meets-if}
use hyperbytedb_operator.Cluster.Effects.{IsAllowed}
use hyperbytedb_operator.Cluster.Outcomes.{IsSettled, Unready, Reported}
use hyperbytedb_operator.Cluster.Passes.{IsOwn, start, reconcile-Concludes}

-- Every call of a pass is allowed behind the calls before it. The StatefulSet is written or deleted,
-- a stuck pod is deleted and a claim is deleted only behind all the calls of the scale-down hooks,
-- where the hooks have let go: if there are to be fewer replicas, each departing pod that answers
-- has left and each departing node was removed from the voters. What is written has the replicas,
-- the template and the pod management policy that the spec asks for, and an update the grace period of
-- the StatefulSet that is there; only stuck pods above the replicas are deleted, and only the claims of
-- departed ordinals.
pub reconcile-IsAllowed :
    (c : Cluster) (w : World) (s : Status)
    → AllIn (IsAllowed c w) [] (reconcile c w (start s)).1.log
reconcile-IsAllowed c w s = (reconcile-Concludes c w s).0

-- What a pass returned: an error is that of the Get or of an Update of the cluster itself, or the
-- status says it, and a pass without one keeps the phase or settles it.
abbrev pub Answers : Cluster → World → Phase → Outcome → Pass → Type 0
Answers c w ph o p = Reported ph o.requeue o.error p ⊎ (IsOwn c w ph o × (p.status.phase ≡ ph))

-- A pass that returns an error, other than one of the Get or an Update of the cluster itself, ends
-- with a write of the status, in which the phase is Failed and the condition Degraded is true, and
-- returns, beside the error, a requeue after 30 seconds. A pass without an error leaves the phase, or ends with a write of
-- a status in which Degraded is false: the phase is Running where all of at least one replica are
-- ready, and else Failed and Scaling stay and any other phase becomes Upgrading or Initializing.
pub reconcile-Answers :
    (c : Cluster) (w : World) (s : Status)
    → Answers c w s.phase (reconcile c w (start s)).0 (reconcile c w (start s)).1
reconcile-Answers c w s = (reconcile-Concludes c w s).1

Unready-scaling : (ph : Phase) → Unready ph scaling → ph ≡ scaling
Unready-scaling failed h = cc
Unready-scaling scaling h = refl
Unready-scaling pending (inl h) = cc
Unready-scaling pending (inr h) = cc
Unready-scaling initializing (inl h) = cc
Unready-scaling initializing (inr h) = cc
Unready-scaling running (inl h) = cc
Unready-scaling running (inr h) = cc
Unready-scaling upgrading (inl h) = cc
Unready-scaling upgrading (inr h) = cc

IsSettled-scaling : (ph : Phase) (s : Status) → IsSettled ph s → s.phase ≡ scaling → ph ≡ scaling
IsSettled-scaling ph s h e = elim h.phase [
  | inl (r, _, _) ↦ cc
  | inr (_, u) ↦ Unready-scaling ph (subst (Unready ph) e u)
]

Reported-scaling :
    (ph : Phase) (requeue : Option ℕ) (error : Option Failure) (p : Pass)
    → Reported ph requeue error p
    → p.status.phase ≡ scaling
    → ph ≡ scaling
Reported-scaling ph requeue (some f) p h e = cc (h.0.0)
Reported-scaling ph requeue none p (inl h) e = sym h ∙ e
Reported-scaling ph requeue none p (inr h) e = IsSettled-scaling ph p.status h.0 e

-- No pass enters the phase Scaling: it is the phase after a pass only if it was before.
pub reconcile-never_scaling :
    (c : Cluster) (w : World) (s : Status)
    → (reconcile c w (start s)).1.status.phase ≡ scaling
    → s.phase ≡ scaling
reconcile-never_scaling c w s e = elim (reconcile-Answers c w s) [
  | inl r ↦ Reported-scaling s.phase _ _ (reconcile c w (start s)).1 r e
  | inr (o, k) ↦ sym k ∙ e
]

-- The calls of a pass that leaves the cluster alone.
abbrev pub IsQuiet : Effect → Type 0
IsQuiet (update_status s) = s.is_paused ≡ true
IsQuiet (update_cluster finalizer) = finalizer ≡ false
IsQuiet _ = ⊥

abbrev Empty : Pass → Type 0
Empty p = p.log ≡ []

abbrev Quietly : Outcome → Pass → Type 0
Quietly o p = All IsQuiet p.log

done-Quietly : (requeue : Option ℕ) → Meets Empty Quietly (done requeue)
done-Quietly requeue = record { at = λ p e. subst (All IsQuiet) (sym e) tt }

fails-Quietly : (e : Failure) → Meets Empty Quietly (fails e)
fails-Quietly e = record { at = λ p h. subst (All IsQuiet) (sym h) tt }

module _ (c : Cluster) (w : World) where
  or_fail-Quietly :
      (answer : Option Failure) (s : Status)
      → All IsQuiet
          (or_fail c w answer (done none) (note update_cluster (false ∷ []) (start s))).1.log
  unfolding or_fail
  or_fail-Quietly none s = (refl, tt)
  or_fail-Quietly (some e) s = (refl, tt)

  write_cluster-Quietly : Meets Empty Quietly (write_cluster c w false (done none))
  unfolding write_cluster
  write_cluster-Quietly = record {
    at = λ p e.
        let emptied : start p.status ≡ p = ap (λ l. plain p.status l) (sym e) in
        subst (λ q. All IsQuiet (write_cluster c w false (done none) q).1.log) emptied
          (or_fail-Quietly w.update_cluster p.status);
  }
    where
      plain : Status → List Effect → Pass
      plain s l = record { status = s; log = l }

  maintain-Quietly : c.deleting ≡ true → Meets Empty Quietly (maintain c w)
  unfolding maintain
  maintain-Quietly d =
      let rest = look_up c w w.prev_replicas in
      Meets-if c.deleting
        (if c.has_finalizer then write_cluster c w false (done none) else done none)
        (if c.has_finalizer then rest else write_cluster c w true rest)
        (λ _.
          Meets-if c.has_finalizer (write_cluster c w false (done none)) (done none)
            (λ _. write_cluster-Quietly) (λ _. done-Quietly none))
        (λ b. cc)

  begin-Quietly :
      (c.paused ≡ true) ⊎ (c.deleting ≡ true) → Meets Empty Quietly (Reconcile.begin c w)
  unfolding Reconcile.begin
  begin-Quietly h = record {
    at = λ p e. elim (Bool-cases c.paused) [
      | inl b ↦ simp (b, e) (refl, tt)
      | inr b ↦
          let d : c.deleting ≡ true = elim h [ inl q ↦ cc | inr q ↦ q ] in
          simp (b) ((maintain-Quietly d).at (set_status (λ s. record s { is_paused = false }) p) e)
    ];
  }

  found-Quietly :
      (answer : Option Failure)
      → (c.paused ≡ true) ⊎ (c.deleting ≡ true)
      → Meets Empty Quietly (found c w answer)
  unfolding found
  found-Quietly none h = begin-Quietly h
  found-Quietly (some e) h =
      Meets-if (is_not_found e) (done none) (fails e) (λ _. done-Quietly none)
        (λ _. fails-Quietly e)

-- In a pass over a cluster that is paused or being deleted, the only calls are writes of the status
-- that say "paused" and an update that takes the finalizer off.
pub reconcile-IsQuiet :
    (c : Cluster) (w : World) (s : Status)
    → (c.paused ≡ true) ⊎ (c.deleting ≡ true)
    → All IsQuiet (reconcile c w (start s)).1.log
unfolding reconcile
reconcile-IsQuiet c w s h = (found-Quietly c w w.get_cluster h).at (start s) refl
