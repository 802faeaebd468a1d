-- ===== src/Restore/Jobs.antt =====
-- What the loop over the restore jobs has seen of them.
use hyperbytedb_operator.Prelude.{
  ℕ, zero, suc, ◌<◌, ◌≡◌, refl, ap, ◌∙◌, Bool, true, false, not, ◌&&◌, ◌||◌, inl, inr, arith, ltb,
  ◌==◌, Bool-cases, not_found, already_exists, conflict, other, Result, ok, err,
}
use hyperbytedb_operator.Restore.{Job, World, Progress, count_job, job_progress}

-- The job of ordinal `i` exists, has succeeded and has not failed.
abbrev pub IsRestored : World → ℕ → Type 0
IsRestored w i = (j : Job) × (w.get_job i ≡ ok j) × (0 < j.succeeded) × (j.failed ≡ 0)

abbrev pub IsAllDone : Progress → Type 0
IsAllDone t = (t.all_done ≡ true) × (t.any_failed ≡ false)

-- the same of the result of the loop
abbrev all_done : Result Progress → Bool
all_done (ok t) = t.all_done
all_done (err e) = false

abbrev any_failed : Result Progress → Bool
any_failed (ok t) = t.any_failed
any_failed (err e) = true

counted :
    (r : Result Job) (q : Result Progress) (t : Progress)
    → count_job r q ≡ ok t
    → IsAllDone t
    → ((t' : Progress) × (q ≡ ok t') × IsAllDone t')
      × ((j : Job) × (r ≡ ok j) × (0 < j.succeeded) × (j.failed ≡ 0))
counted r (err e) t c d = cc
counted (ok j) (ok t') t c d =
    let all : t'.all_done && not (j.succeeded == 0 && j.failed == 0) ≡ true = ap all_done c ∙ d.0 in
    let any : t'.any_failed || ltb 0 j.failed ≡ false = ap any_failed c ∙ d.1 in
    ((t', refl, (ground arith, ground arith)), (j, refl, ground arith, ground arith))
counted (err not_found) (ok t') t c d = let absurd : false ≡ true = ap all_done c ∙ d.0 in cc
counted (err already_exists) (ok t') t c d = cc
counted (err conflict) (ok t') t c d = cc
counted (err (other n)) (ok t') t c d = cc

-- What job_progress has seen of the jobs: if all are done and none has failed, each is restored.
pub job_progress-IsRestored :
    (w : World) (n : ℕ) (t : Progress)
    → job_progress w n ≡ ok t
    → IsAllDone t
    → (i : ℕ) → i < n
    → IsRestored w i
unfolding job_progress
job_progress-IsRestored w zero t e d i l = ground arith
job_progress-IsRestored w (suc n) t e d i l =
    let ((t', e', d'), at_n) = counted (w.get_job n) (job_progress w n) t e d in
    let ih = job_progress-IsRestored w n t' e' d' i in
    elim (Bool-cases (i == n)) [
      | inl same ↦ let h : i ≡ n = ground arith in rw h at_n
      | inr differ ↦ ih (ground arith)
    ]
