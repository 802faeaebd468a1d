-- ===== src/Volumes/Samples.antt =====
-- From four pods to two, where one of the claims is gone already.
use hyperbytedb_operator.Prelude.{
  ◌≡◌, refl, none, some, [], ◌∷◌, arith, ok, not_found, if◌then◌else◌, ◌==◌,
}
use hyperbytedb_operator.Volumes.{World, cleanup_orphan_pvcs}
use hyperbytedb_operator.Volumes.Laws.{IsGone, cleanup_orphan_pvcs-IsGone}

abbrev world : World
world = record { get = λ i. if i == 2 then some not_found else none; delete = λ i. none }

cleans : cleanup_orphan_pvcs world 4 2 [] ≡ (ok tt, 3 ∷ [])
unfolding cleanup_orphan_pvcs
cleans = refl

answered : (cleanup_orphan_pvcs world 4 2 []).0 ≡ ok tt
unfolding cleanup_orphan_pvcs
answered = refl

cleanup_orphan_pvcs-IsGone_example : IsGone world (cleanup_orphan_pvcs world 4 2 []).1 3
cleanup_orphan_pvcs-IsGone_example =
    cleanup_orphan_pvcs-IsGone world 4 2 answered 3 (omega arith, omega arith)
