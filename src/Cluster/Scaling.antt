-- ===== src/Cluster/Scaling.antt =====
-- A pass in which the replicas of the spec have changed.
use hyperbytedb_operator.Prelude.{ℕ, ◌≡◌, sym, ap, ◌∙◌, List, [], ◌∷◌, ◌++◌, All, Result, ok, err}
use hyperbytedb_operator.Prelude.Int.{pos}
use hyperbytedb_operator.Resources.{create, update, delete}
use hyperbytedb_operator.Workload.Database
use hyperbytedb_operator.Workload.Laws.{with_replicas, mode, build_stateful_set-replicas}
use hyperbytedb_operator.Cluster.State.{
  StsSpec, Sts, Effect, sts, update_cluster, update_status, tls, auth, config_map, legacy_peers,
  monitor, headless, client_service, proxy_service, pdb, hpa, proxy_deployment, hook, delete_pod,
  rolling, delete_claim, member, fail_over, Cluster, World, Status,
}
use hyperbytedb_operator.Cluster.Reconcile.{reconcile}
use hyperbytedb_operator.Cluster.Rules.{AllIn}
use hyperbytedb_operator.Cluster.Effects.{IsAllowed}
use hyperbytedb_operator.Cluster.Passes.{start}
use hyperbytedb_operator.Cluster.Laws.{reconcile-IsAllowed}
use hyperbytedb_operator.Cluster.Assembled.{Printing, assemble}

-- A write of the StatefulSet is an update of the one that is there, which has so many replicas and leaves
-- the template as it is.
abbrev pub Scales : ℕ → StsSpec → Effect → Type 0
Scales n old (sts (create s)) = ⊥
Scales n old (sts (update s)) =
    (s.replicas ≡ n)
    × (s.template ≡ old.template)
    × (s.termination_grace_period_seconds ≡ old.termination_grace_period_seconds)
Scales n old _ = Unit

AllIn-All :
    (P : List Effect → Effect → Type 0) (Q : Effect → Type 0) (before log : List Effect)
    → ((l : List Effect) (e : Effect) → P l e → Q e)
    → AllIn P before log
    → All Q log
AllIn-All P Q before [] f h = tt
AllIn-All P Q before (e ∷ es) f h = (f before e h.0, AllIn-All P Q (before ++ (e ∷ [])) es f h.1)

there : Result Sts → StsSpec → StsSpec
there (ok e) other = e.spec
there (err f) other = other

-- what a call of such a pass may be
IsAllowed-Scales :
    (show : Printing) (d : Database.Cluster) (rest : Cluster) (n : ℕ) (w : World) (old : Sts)
    → mode (with_replicas d n) ≡ mode d
    → w.get_sts ≡ ok old
    → old.spec.template ≡ (assemble show d rest).template
    → (log : List Effect) (e : Effect) → IsAllowed (assemble show (with_replicas d n) rest) w log e
    → Scales n old.spec e
unfolding assemble there
IsAllowed-Scales show d rest n w old same g built log (sts (create s)) h = cc (h.1.1, g)
IsAllowed-Scales show d rest n w old same g built log (sts (update s)) h =
    let (is_built, from_there) = h.1 in
    let (e, found, kept) = from_there in
    (
      is_built.replicas,
      is_built.template
          ∙ ap (λ t. show.template (record t { termination_grace_period_seconds = pos 0 }))
              ((build_stateful_set-replicas show.digest d n).1 same)
          ∙ sym built,
      kept ∙ ap (λ r. (there r old.spec).termination_grace_period_seconds) (sym found ∙ g),
    )
IsAllowed-Scales show d rest n w old same g built log (sts delete) h = tt
IsAllowed-Scales show d rest n w old same g built log (update_cluster x) h = tt
IsAllowed-Scales show d rest n w old same g built log (update_status x) h = tt
IsAllowed-Scales show d rest n w old same g built log (tls x) h = tt
IsAllowed-Scales show d rest n w old same g built log (auth x) h = tt
IsAllowed-Scales show d rest n w old same g built log (config_map x) h = tt
IsAllowed-Scales show d rest n w old same g built log (legacy_peers x) h = tt
IsAllowed-Scales show d rest n w old same g built log (monitor x) h = tt
IsAllowed-Scales show d rest n w old same g built log (headless x) h = tt
IsAllowed-Scales show d rest n w old same g built log (client_service x) h = tt
IsAllowed-Scales show d rest n w old same g built log (proxy_service x) h = tt
IsAllowed-Scales show d rest n w old same g built log (pdb x) h = tt
IsAllowed-Scales show d rest n w old same g built log (hpa x) h = tt
IsAllowed-Scales show d rest n w old same g built log (proxy_deployment x) h = tt
IsAllowed-Scales show d rest n w old same g built log (hook x) h = tt
IsAllowed-Scales show d rest n w old same g built log (delete_pod x) h = tt
IsAllowed-Scales show d rest n w old same g built log (rolling x) h = tt
IsAllowed-Scales show d rest n w old same g built log (delete_claim x) h = tt
IsAllowed-Scales show d rest n w old same g built log (member x) h = tt
IsAllowed-Scales show d rest n w old same g built log (fail_over x) h = tt

-- In a pass over a cluster whose replicas have changed, without a change of the cluster mode, where the
-- StatefulSet that is there has the template that was built for the old replicas (its grace period may be
-- any), no StatefulSet is created, and each update of it has the new replicas and leaves all of the
-- template as it is, the grace period included.
pub reconcile-Scales :
    (show : Printing) (d : Database.Cluster) (rest : Cluster) (n : ℕ) (w : World) (s : Status)
    (old : Sts)
    → mode (with_replicas d n) ≡ mode d
    → w.get_sts ≡ ok old
    → old.spec.template ≡ (assemble show d rest).template
    → All (Scales n old.spec) (reconcile (assemble show (with_replicas d n) rest) w (start s)).1.log
reconcile-Scales show d rest n w s old same g built =
    AllIn-All _ _ [] (reconcile (assemble show (with_replicas d n) rest) w (start s)).1.log
      (IsAllowed-Scales show d rest n w old same g built)
      (reconcile-IsAllowed (assemble show (with_replicas d n) rest) w s)
