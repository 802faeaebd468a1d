-- ===== src/Restore/Laws.antt =====
-- What a reconcile of a restore may do: each of its calls has a reason in the phase that is stored
-- and in what the cluster answers.
use hyperbytedb_operator.Prelude.{
  ℕ, ◌*◌, ◌<◌, ◌≡◌, refl, ap, ◌∙◌, Bool, true, false, List, [], ◌∷◌, Option, none, some, ◌⊎◌, inl,
  inr, arith, ltb, All, All-append, Result, ok, err, pure, ◌>>◌, modify, Keeps, Keeps-bind,
  Keeps-then, Keeps-test, Keeps-answer, Keeps-pure, Keeps-lift,
}
use hyperbytedb_operator.Kube.{second}
use hyperbytedb_operator.Ordinals.{ordinals, ordinals-All}
use hyperbytedb_operator.Restore.{
  Phase, unset, pending, scale_down, restoring, completed, failed, Reason, restore_failed,
  cluster_not_found, source_resolution_failed, Status, S3Source, Call, update_sts, create_job,
  update_status, World, Pass, Requeue, replicas_of, call, store_status, set_restore_phase,
  resolve_s3_source, handle_scale_down, create_restore_jobs, start_jobs, check_scale_down,
  handle_scale_up, job_progress, after_jobs, check_restore_job, by_phase, with_cluster, reconcile,
}
use hyperbytedb_operator.Restore.Jobs.{IsRestored, job_progress-IsRestored}

abbrev pub is_over : Phase → Bool
is_over completed = true
is_over failed = true
is_over _ = false

-- The steps that a restore's phase may take.
pub data Edge : Phase → Phase → Type 0 where
  stopping : Edge unset scale_down
  stopping_pending : Edge pending scale_down
  copying : Edge scale_down restoring
  finished : Edge restoring completed
  -- the cluster or the source is missing, or a job failed
  lost : {a : Phase} → is_over a ≡ false → Edge a failed

-- A restore that has not begun.
abbrev pub IsNew : Phase → Type 0
IsNew a = (a ≡ unset) ⊎ (a ≡ pending)

-- Why the reconcile of a restore whose stored phase is `phase` may make a call.
abbrev pub IsJustified : World → Phase → Call → Type 0
IsJustified w phase (update_sts n) =
    ((n ≡ 0) × IsNew phase)
    ⊎ ((phase ≡ restoring)
        × ((replicas : Option ℕ) × (w.get_cluster ≡ ok replicas) × (n ≡ replicas_of replicas))
        × ((i : ℕ) → i < n → IsRestored w i))
IsJustified w phase (create_job i source) =
    (phase ≡ scale_down)
    × (w.get_sts ≡ ok 0)
    × (resolve_s3_source w ≡ ok source)
    × ((replicas : Option ℕ) × (w.get_cluster ≡ ok replicas) × (i < replicas_of replicas))
IsJustified w phase (update_status s) = Edge phase s.phase

abbrev pub Justified : World → Phase → Pass → Type 0
Justified w phase p = All (IsJustified w phase) p.calls

module _ (w : World) (phase : Phase) where
  call-Justified : (c : Call) → IsJustified w phase c → Keeps (Justified w phase) (call w c)
  call-Justified c j = record {
    at = λ p h. All-append (IsJustified w phase) p.calls (c ∷ []) h (j, tt);
  }

  set_phase-Justified :
      (next : Phase) (reason : Reason)
      → Edge phase next
      → Keeps (Justified w phase) (set_restore_phase w next reason)
  unfolding set_restore_phase store_status
  set_phase-Justified next reason e = record {
    at = λ p h. All-append (IsJustified w phase) p.calls (update_status _ ∷ []) h (e, tt);
  }

  note-Justified :
      (f : Status → Status)
      → Keeps (Justified w phase) (modify (λ p. record p { status = f p.status }))
  note-Justified f = record { at = λ p h. h }

  -- storing the last phase of a reconcile
  settle :
      (next : Phase) (reason : Reason) (r : Requeue)
      → Edge phase next
      → Keeps (Justified w phase) (set_restore_phase w next reason >> pure r)
  settle next reason r e = Keeps-then _ _ (set_phase-Justified next reason e) (Keeps-pure r)

  scale_down-Justified :
      IsNew phase → Edge phase scale_down → Keeps (Justified w phase) (handle_scale_down w)
  unfolding handle_scale_down
  scale_down-Justified n e = Keeps-bind _ _ (Keeps-lift w.get_sts) (λ _.
      Keeps-then _ _ (call-Justified (update_sts 0) (inl (refl, n))) (
        Keeps-then _ _ (note-Justified (λ s. record s { start_time = some w.now }))
          (settle _ _ _ e)))

  create_jobs-Justified :
      (source : S3Source) (is : List ℕ)
      → All (λ i. IsJustified w phase (create_job i source)) is
      → Keeps (Justified w phase) (create_restore_jobs w source is)
  unfolding create_restore_jobs
  create_jobs-Justified source [] h = Keeps-pure tt
  create_jobs-Justified source (i ∷ is) h =
      Keeps-then _ _ (record { at = (call-Justified (create_job i source) h.0).at })
        (create_jobs-Justified source is h.1)

module _ (w : World) (replicas : Option ℕ) (found : w.get_cluster ≡ ok replicas) where
  abbrev n : ℕ
  n = replicas_of replicas

  start-Justified :
      (source : S3Source)
      → resolve_s3_source w ≡ ok source
      → w.get_sts ≡ ok 0
      → Keeps (Justified w scale_down) (start_jobs w n source)
  unfolding start_jobs
  start-Justified source es er =
      Keeps-then _ _
        (create_jobs-Justified w scale_down source (ordinals n)
          (ordinals-All _ n (λ i l. (refl, er, es, (replicas, found, l)))))
        (Keeps-then _ _ (note-Justified w scale_down (λ s. record s { restored_pvcs = n }))
          (settle w scale_down _ _ _ copying))

  check_scale_down-Justified :
      (source : S3Source)
      → resolve_s3_source w ≡ ok source
      → Keeps (Justified w scale_down) (check_scale_down w n source)
  unfolding check_scale_down
  check_scale_down-Justified source es = Keeps-answer w.get_sts _ (λ ready h.
      Keeps-test (ltb 0 ready) _ _ (λ b. Keeps-pure (some (5 * second)))
        (λ b.
          let none_ready : ready ≡ 0 = ground arith in
          start-Justified source es (h ∙ ap (λ k. ok k) none_ready)))

  scale_up-Justified :
      ((i : ℕ) → i < n → IsRestored w i) → Keeps (Justified w restoring) (handle_scale_up w n)
  unfolding handle_scale_up
  scale_up-Justified all = Keeps-bind _ _ (Keeps-lift w.get_sts) (λ _.
      Keeps-then _ _
        (call-Justified w restoring (update_sts n) (inr (refl, (replicas, found, refl), all)))
        (Keeps-then _ _
          (note-Justified w restoring (λ s. record s { completion_time = some w.now }))
          (settle w restoring _ _ _ finished)))

  jobs-Justified : Keeps (Justified w restoring) (check_restore_job w n)
  unfolding check_restore_job after_jobs
  jobs-Justified = Keeps-answer (job_progress w n) _ (λ t h.
      Keeps-test t.any_failed _ _ (λ f. settle w restoring failed restore_failed none (lost refl))
        (λ f.
          Keeps-test t.all_done _ _
            (λ d. scale_up-Justified (job_progress-IsRestored w n t h (d, f)))
            (λ d. Keeps-pure (some (10 * second)))))

module _ (w : World) where
  by_phase-Justified :
      (phase : Phase) (replicas : Option ℕ) (source : S3Source)
      → w.get_cluster ≡ ok replicas
      → resolve_s3_source w ≡ ok source
      → Keeps (Justified w phase) (by_phase w phase (replicas_of replicas) source)
  unfolding by_phase
  by_phase-Justified unset replicas source c e = scale_down-Justified w unset (inl refl) stopping
  by_phase-Justified pending replicas source c e =
      scale_down-Justified w pending (inr refl) stopping_pending
  by_phase-Justified scale_down replicas source c e =
      check_scale_down-Justified w replicas c source e
  by_phase-Justified restoring replicas source c e = jobs-Justified w replicas c
  by_phase-Justified completed replicas source c e = Keeps-pure none
  by_phase-Justified failed replicas source c e = Keeps-pure none

  live-Justified :
      (phase : Phase) (cluster : Result (Option ℕ)) (source : Result S3Source)
      → w.get_cluster ≡ cluster
      → resolve_s3_source w ≡ source
      → is_over phase ≡ false
      → Keeps (Justified w phase) (with_cluster w phase cluster source)
  unfolding with_cluster
  live-Justified phase (err e) source c s live =
      settle w phase failed cluster_not_found none (lost live)
  live-Justified phase (ok replicas) (err e) c s live =
      settle w phase failed source_resolution_failed none (lost live)
  live-Justified phase (ok replicas) (ok source) c s live =
      by_phase-Justified phase replicas source c s

  reconcile-Keeps : (phase : Phase) → Keeps (Justified w phase) (reconcile w phase)
  unfolding reconcile
  reconcile-Keeps unset = live-Justified unset w.get_cluster (resolve_s3_source w) refl refl refl
  reconcile-Keeps pending =
      live-Justified pending w.get_cluster (resolve_s3_source w) refl refl refl
  reconcile-Keeps scale_down =
      live-Justified scale_down w.get_cluster (resolve_s3_source w) refl refl refl
  reconcile-Keeps restoring =
      live-Justified restoring w.get_cluster (resolve_s3_source w) refl refl refl
  reconcile-Keeps completed = Keeps-pure none
  reconcile-Keeps failed = Keeps-pure none

abbrev pub begin : Status → Pass
begin status = record { status = status; stored = status; calls = [] }

-- Whatever the cluster answers, a reconcile of a restore stops the database only for a restore that
-- has not begun; it creates the job of an ordinal only while scaling down, with no pod ready, for an
-- ordinal below the replica count and from the restore's source; it starts the database again, at the
-- full replica count, only while restoring and if the job of every ordinal has succeeded and not
-- failed; and the phases that it stores follow the steps of a restore. So one that is over makes no
-- call.
pub reconcile-Justified :
    (w : World) (status : Status)
    → All (IsJustified w status.phase) (reconcile w status.phase (begin status)).1.calls
reconcile-Justified w status = (reconcile-Keeps w status.phase).at (begin status) tt
