-- ===== src/Volumes.antt =====
-- CleanupOrphanPVCs of internal/hyperbytedb/pvc.go. A volume claim is named by its ordinal.
pub mod Laws
mod Samples
use hyperbytedb_operator.Prelude.{
  ℕ, zero, suc, ◌-◌, List, [], ◌∷◌, ◌++◌, Option, none, some, if◌then◌else◌, Failure, Result, ok,
  err, is_not_found, Exec, pure, throw, ◌>>=◌, ◌>>◌,
}

-- The error, if any, of the Get and of the Delete of a claim.
pub record World : Type 0 where
  pub get : ℕ → Option Failure
  pub delete : ℕ → Option Failure

-- The claims whose delete was sent so far, in order.
abbrev pub Step : Type 0 → Type 0
Step A = Exec (List ℕ) A

-- The answer of a delete: "not found" counts as done.
abbrev pub claim_answer : Option Failure → Result (Unit {0})
claim_answer none = ok tt
claim_answer (some e) = if is_not_found e then ok tt else err e

module _ (w : World) where
  unfoldable pub delete_claim : ℕ → Step (Unit {0})
  delete_claim i deleted = (claim_answer (w.delete i), deleted ++ (i ∷ []))

  unfoldable pub clean_found : ℕ → Option Failure → Step (Unit {0})
  unfolding delete_claim
  clean_found i none = delete_claim i
  clean_found i (some e) = if is_not_found e then pure tt else throw e

  -- The loop over the `count` ordinals from `i` on; it ends at the first error.
  unfoldable pub clean_from : (i count : ℕ) → Step (Unit {0})
  unfolding clean_found
  clean_from i zero = pure tt
  clean_from i (suc count) = clean_found i (w.get i) >> clean_from (suc i) count

  unfoldable pub cleanup_orphan_pvcs : (current desired : ℕ) → Step (Unit {0})
  unfolding clean_from
  cleanup_orphan_pvcs current desired = clean_from desired (current - desired)
