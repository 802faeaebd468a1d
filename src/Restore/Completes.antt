-- ===== src/Restore/Completes.antt =====
-- A restore of a cluster that cooperates completes, in three reconciles.
use hyperbytedb_operator.Prelude.{
  ℕ, zero, suc, ◌<◌, ◌≡◌, refl, ap, ◌∙◌, true, false, List, [], ◌∷◌, Option, none, inl, inr, arith,
  ok,
}
use hyperbytedb_operator.Ordinals.{ordinals}
use hyperbytedb_operator.Restore.{
  Phase, unset, pending, scale_down, restoring, completed, Status, S3Source, Call, World, Pass,
  replicas_of, store_status, set_restore_phase, resolve_s3_source, handle_scale_down,
  create_restore_jobs, start_jobs, check_scale_down, handle_scale_up, job_progress, after_jobs,
  check_restore_job, by_phase, with_cluster, reconcile,
}
use hyperbytedb_operator.Restore.Laws.{begin, IsNew}
use hyperbytedb_operator.Restore.Jobs.{IsRestored}

-- The status that a reconcile leaves in the API server.
abbrev pub after_reconcile : World → Status → Status
after_reconcile w s = (reconcile w s.phase (begin s)).1.stored

-- No call fails, and the cluster, its StatefulSet and the source are there.
pub record IsCooperative (w : World) : Type 0 where
  pub replicas : Option ℕ
  pub source : S3Source
  pub answers : (c : Call) → w.answer c ≡ none
  pub cluster : w.get_cluster ≡ ok replicas
  pub resolved : resolve_s3_source w ≡ ok source
  pub ready : ℕ
  pub found : w.get_sts ≡ ok ready

module _ (w : World) (quiet : (c : Call) → w.answer c ≡ none) where
  create_jobs_ok :
      (source : S3Source) (is : List ℕ) (p : Pass)
      → (calls : List Call) × (create_restore_jobs w source is p
          ≡ (ok tt, record p { calls = calls }))
  unfolding create_restore_jobs
  create_jobs_ok source [] p = (p.calls, refl)
  create_jobs_ok source (i ∷ is) p = rw quiet (create_jobs_ok source is _)

job_progress_ok :
    (w : World) (n : ℕ)
    → ((i : ℕ) → i < n → IsRestored w i)
    → job_progress w n ≡ ok (record { all_done = true; any_failed = false })
unfolding job_progress
job_progress_ok w zero h = refl
job_progress_ok w (suc n) h =
    let (j, e, some_done, none_failed) = h n (omega arith) in
    let ih = job_progress_ok w n (λ i l. h i (omega arith)) in simp (e, ih) (ground arith)

module _ (w : World) (good : IsCooperative w) where
  abbrev n : ℕ
  n = replicas_of good.replicas

  live :
      (phase : Phase)
      → with_cluster w phase w.get_cluster (resolve_s3_source w) ≡ by_phase w phase n good.source
  unfolding with_cluster
  live phase =
      ap (λ c. with_cluster w phase c (resolve_s3_source w)) good.cluster
      ∙ ap (λ r. with_cluster w phase (ok good.replicas) r) good.resolved

  stops : (p : Pass) → (handle_scale_down w p).1.stored.phase ≡ scale_down
  unfolding handle_scale_down set_restore_phase store_status
  stops p = simp (good.found, good.answers) refl

  copies :
      w.get_sts ≡ ok 0
      → (p : Pass) → (check_scale_down w n good.source p).1.stored.phase ≡ restoring
  unfolding check_scale_down start_jobs set_restore_phase store_status
  copies stopped p =
      let (calls, made) = create_jobs_ok w good.answers good.source (ordinals n) p in
      simp (stopped, made, good.answers) refl

  finishes :
      ((i : ℕ) → i < n → IsRestored w i)
      → (p : Pass) → (check_restore_job w n p).1.stored.phase ≡ completed
  unfolding check_restore_job after_jobs handle_scale_up set_restore_phase store_status
  finishes jobs p = simp (job_progress_ok w n jobs, good.found, good.answers) refl

  stop_step : (s : Status) → IsNew s.phase → (after_reconcile w s).phase ≡ scale_down
  unfolding reconcile by_phase
  stop_step s (inl e) =
      ap (λ k. (reconcile w k (begin s)).1.stored.phase) e
      ∙ ap (λ m. (m (begin s)).1.stored.phase) (live unset)
      ∙ stops (begin s)
  stop_step s (inr e) =
      ap (λ k. (reconcile w k (begin s)).1.stored.phase) e
      ∙ ap (λ m. (m (begin s)).1.stored.phase) (live pending)
      ∙ stops (begin s)

  copy_step :
      w.get_sts ≡ ok 0
      → (s : Status) → s.phase ≡ scale_down
      → (after_reconcile w s).phase ≡ restoring
  unfolding reconcile by_phase
  copy_step stopped s e =
      ap (λ k. (reconcile w k (begin s)).1.stored.phase) e
      ∙ ap (λ m. (m (begin s)).1.stored.phase) (live scale_down)
      ∙ copies stopped (begin s)

  finish_step :
      ((i : ℕ) → i < n → IsRestored w i)
      → (s : Status) → s.phase ≡ restoring
      → (after_reconcile w s).phase ≡ completed
  unfolding reconcile by_phase
  finish_step jobs s e =
      ap (λ k. (reconcile w k (begin s)).1.stored.phase) e
      ∙ ap (λ m. (m (begin s)).1.stored.phase) (live restoring)
      ∙ finishes jobs (begin s)

-- A restore that has not begun is completed by three reconciles, each of the status that the one
-- before has stored, if in all three no call fails and the cluster, its StatefulSet and the source are
-- found, in the second no pod is ready, and in the third the job of every ordinal has succeeded and
-- not failed.
pub reconcile-completes :
    (w w' w'' : World) (status : Status)
    → IsCooperative w
    → IsCooperative w'
    → w'.get_sts ≡ ok 0
    → (good : IsCooperative w'') → ((i : ℕ) → i < replicas_of good.replicas → IsRestored w'' i)
    → IsNew status.phase
    → (after_reconcile w'' (after_reconcile w' (after_reconcile w status))).phase ≡ completed
reconcile-completes w w' w'' status good good' stopped good'' jobs new =
    finish_step w'' good'' jobs (after_reconcile w' (after_reconcile w status))
      (copy_step w' good' stopped (after_reconcile w status) (stop_step w good status new))
