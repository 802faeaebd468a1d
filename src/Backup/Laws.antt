-- ===== src/Backup/Laws.antt =====
-- What a reconcile of a backup may do: each of its calls has a reason in the phase that is stored
-- and in what the cluster answers.
use hyperbytedb_operator.Prelude.{
  ◌<◌, ◌≡◌, ◌≢◌, refl, String, false, [], ◌∷◌, ◌++◌, Option, none, some, ◌⊎◌, inl, inr, arith, ltb,
  str_eq, eq_iff, All, All-append, Failure, not_found, already_exists, conflict, other, Result, ok,
  err, check, pure, ◌>>◌, continue, Keeps, Keeps-test, Keeps-pure, Keeps-throw,
}
use hyperbytedb_operator.Backup.{
  Phase, running, completed, failed, Status, Job, Call, create_job, create_cron_job,
  update_cron_job, update_status, World, Pass, Step, Requeue, is_over, call, store, start_job,
  read_job, reconcile_job, reconcile_cron_job, with_cluster, reconcile,
}

-- Why a status may be stored, by its phase.
abbrev pub IsEarned : World → Phase → (backup_path : String) → Type 0
IsEarned w completed path =
    ((job : Job) × (w.get_job ≡ ok job) × (0 < job.succeeded)) × (path ≡ w.s3_path)
IsEarned w failed path =
    (w.get_cluster ≡ some not_found)
    ⊎ ((job : Job) × (w.get_job ≡ ok job) × (job.succeeded ≡ 0) × (0 < job.failed))
IsEarned w running path = (w.answer create_job ≡ none) ⊎ (w.answer create_cron_job ≡ none)
IsEarned w _ path = ⊥

-- Why the reconcile of a backup whose stored phase is `phase` may make a call.
abbrev pub IsDue : World → Phase → Call → Type 0
IsDue w phase create_job =
    (w.get_cluster ≡ none)
    × (w.schedule ≡ "")
    × (w.get_job ≡ err not_found)
    × (is_over phase ≡ false)
IsDue w phase create_cron_job =
    (w.get_cluster ≡ none) × (w.schedule ≢ "") × (w.get_cron_job ≡ some not_found)
IsDue w phase update_cron_job = (w.get_cluster ≡ none) × (w.schedule ≢ "") × (w.get_cron_job ≡ none)
IsDue w phase (update_status s) = IsEarned w s.phase s.backup_path

abbrev pub Due : World → Phase → Pass → Type 0
Due w phase p = All (IsDue w phase) p.calls

module _ (w : World) (phase : Phase) where
  -- a call, and what follows if it succeeds
  call-Due :
      (c : Call) (m : Step Requeue)
      → IsDue w phase c
      → (w.answer c ≡ none → Keeps (Due w phase) m)
      → Keeps (Due w phase) (call w c >> m)
  call-Due c m d k = record {
    at = λ p h. go (w.answer c) refl p (All-append (IsDue w phase) p.calls (c ∷ []) h (d, tt));
  }
    where
      go :
          (r : Option Failure)
          → w.answer c ≡ r
          → (p : Pass) → All (IsDue w phase) (p.calls ++ (c ∷ []))
          → Due w phase (continue (check r) (λ _. m) (record p { calls = p.calls ++ (c ∷ []) })).1
      go none e p h = (k e).at (record p { calls = p.calls ++ (c ∷ []) }) h
      go (some f) e p h = h

  store-Due :
      (f : Status → Status) (r : Requeue)
      → ((s : Status) → IsDue w phase (update_status (f s)))
      → Keeps (Due w phase) (store w f >> pure r)
  unfolding store
  store-Due f r d = record {
    at = λ p h.
        All-append (IsDue w phase) p.calls (update_status (f p.status) ∷ []) h (d p.status, tt);
  }

  read_job-Due : (job : Job) → w.get_job ≡ ok job → Keeps (Due w phase) (read_job w job)
  unfolding read_job
  read_job-Due job e =
      Keeps-test (ltb 0 job.succeeded) _ _
        (λ b. store-Due _ none (λ s. ((job, e, ground arith), refl)))
        (λ b.
          Keeps-test (ltb 0 job.failed) _ _
            (λ c. store-Due _ none (λ s. inr (job, e, ground arith, ground arith)))
            (λ c. Keeps-pure (some 10000000000)))

  start_job-Due : IsDue w phase create_job → Keeps (Due w phase) (start_job w)
  unfolding start_job
  start_job-Due d = call-Due create_job _ d (λ a. store-Due _ _ (λ s. inl a))

  reconcile_job-Due :
      (r : Result Job)
      → w.get_job ≡ r
      → w.get_cluster ≡ none
      → w.schedule ≡ ""
      → Keeps (Due w phase) (reconcile_job w phase r)
  unfolding reconcile_job
  reconcile_job-Due (ok job) e c s = read_job-Due job e
  reconcile_job-Due (err not_found) e c s =
      Keeps-test (is_over phase) _ _ (λ b. Keeps-pure none) (λ b. start_job-Due (c, s, e, b))
  reconcile_job-Due (err already_exists) e c s = Keeps-throw already_exists
  reconcile_job-Due (err conflict) e c s = Keeps-throw conflict
  reconcile_job-Due (err (other n)) e c s = Keeps-throw (other n)

  reconcile_cron_job-Due :
      (r : Option Failure)
      → w.get_cron_job ≡ r
      → w.get_cluster ≡ none
      → w.schedule ≢ ""
      → Keeps (Due w phase) (reconcile_cron_job w r)
  unfolding reconcile_cron_job
  reconcile_cron_job-Due none e c s = call-Due update_cron_job _ (c, s, e) (λ a. Keeps-pure none)
  reconcile_cron_job-Due (some not_found) e c s =
      call-Due create_cron_job _ (c, s, e) (λ a. store-Due _ _ (λ s. inr a))
  reconcile_cron_job-Due (some already_exists) e c s = Keeps-throw already_exists
  reconcile_cron_job-Due (some conflict) e c s = Keeps-throw conflict
  reconcile_cron_job-Due (some (other n)) e c s = Keeps-throw (other n)

  reconcile-Keeps :
      (r : Option Failure) → w.get_cluster ≡ r → Keeps (Due w phase) (with_cluster w phase r)
  unfolding with_cluster
  reconcile-Keeps none e =
      Keeps-test (str_eq w.schedule "") _ _
        (λ b. reconcile_job-Due w.get_job refl e (ground (arith, eq_iff w.schedule "")))
        (λ b. reconcile_cron_job-Due w.get_cron_job refl e (ground (arith, eq_iff w.schedule "")))
  reconcile-Keeps (some not_found) e = store-Due _ _ (λ s. inl e)
  reconcile-Keeps (some already_exists) e = Keeps-throw already_exists
  reconcile-Keeps (some conflict) e = Keeps-throw conflict
  reconcile-Keeps (some (other n)) e = Keeps-throw (other n)

abbrev pub begin : Status → Pass
begin status = record { status = status; stored = status; calls = [] }

-- Whatever the cluster answers, a reconcile of a backup without a schedule creates its job only if
-- there is none and the stored phase is not an end; one with a schedule creates its cron job only if
-- there is none, and updates it else. "Completed" is stored only if the job has a success, with the
-- S3 path; "Failed" only if the cluster is gone or the job has failures and no success; "Running"
-- only behind a create that succeeded.
pub reconcile-IsDue :
    (w : World) (status : Status)
    → All (IsDue w status.phase) (reconcile w status.phase (begin status)).1.calls
unfolding reconcile
reconcile-IsDue w status = (reconcile-Keeps w status.phase w.get_cluster refl).at (begin status) tt
