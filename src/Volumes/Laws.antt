-- ===== src/Volumes/Laws.antt =====
-- Which claims a cleanup deletes, and what is left behind a cleanup without an error.
use hyperbytedb_operator.Prelude.{
  ℕ, zero, suc, ◌+◌, ◌-◌, ◌≤◌, ◌<◌, ◌≡◌, refl, ◌⊎◌, inl, inr, List, [], ◌∷◌, ◌++◌, Option, none,
  some, arith, ◌==◌, Bool-cases, All, All-append, Any, Failure, not_found, already_exists, conflict,
  other, Result, ok, err, continue, Keeps, Keeps-then, Keeps-pure, Keeps-throw,
}
use hyperbytedb_operator.Volumes.{
  World, claim_answer, delete_claim, clean_found, clean_from, cleanup_orphan_pvcs,
}

abbrev pub IsOrphan : (current desired : ℕ) → ℕ → Type 0
IsOrphan current desired i = (desired ≤ i) × (i < current)

-- The claim of `i` is gone: it was not found, or its delete was sent and not refused.
abbrev pub IsGone : World → List ℕ → ℕ → Type 0
IsGone w deleted i =
    (w.get i ≡ some not_found)
    ⊎ (Any (λ k. i ≡ k) deleted × ((w.delete i ≡ none) ⊎ (w.delete i ≡ some not_found)))

Any-append_left : (P : ℕ → Type 0) (xs ys : List ℕ) → Any P xs → Any P (xs ++ ys)
Any-append_left P (x ∷ xs) ys (inl h) = inl h
Any-append_left P (x ∷ xs) ys (inr a) = inr (Any-append_left P xs ys a)
Any-append_left P [] ys a = elim a [ ]

Any-append_right : (P : ℕ → Type 0) (xs ys : List ℕ) → Any P ys → Any P (xs ++ ys)
Any-append_right P [] ys a = a
Any-append_right P (x ∷ xs) ys a = inr (Any-append_right P xs ys a)

IsGone-append :
    (w : World) (deleted : List ℕ) (k i : ℕ) → IsGone w deleted i → IsGone w (deleted ++ (k ∷ [])) i
IsGone-append w deleted k i (inl h) = inl h
IsGone-append w deleted k i (inr (a, h)) = inr (Any-append_left (λ k. i ≡ k) deleted (k ∷ []) a, h)

module _ (w : World) where
  clean_found-IsOrphan :
      (current desired i : ℕ) (r : Option Failure)
      → IsOrphan current desired i
      → Keeps (All (IsOrphan current desired)) (clean_found w i r)
  unfolding clean_found delete_claim
  clean_found-IsOrphan current desired i none o = record {
    at = λ p h. All-append (IsOrphan current desired) p (i ∷ []) h (o, tt);
  }
  clean_found-IsOrphan current desired i (some not_found) o = Keeps-pure tt
  clean_found-IsOrphan current desired i (some already_exists) o = Keeps-throw already_exists
  clean_found-IsOrphan current desired i (some conflict) o = Keeps-throw conflict
  clean_found-IsOrphan current desired i (some (other n)) o = Keeps-throw (other n)

  clean_from-IsOrphan :
      (current desired i count : ℕ)
      → desired ≤ i
      → i + count ≤ current
      → Keeps (All (IsOrphan current desired)) (clean_from w i count)
  unfolding clean_from
  clean_from-IsOrphan current desired i zero l h = Keeps-pure tt
  clean_from-IsOrphan current desired i (suc count) l h =
      Keeps-then _ _ (clean_found-IsOrphan current desired i (w.get i) (l, omega arith))
        (clean_from-IsOrphan current desired (suc i) count (omega arith) (omega arith))

  -- What is gone stays gone.
  clean_found-IsGone :
      (i k : ℕ) (r : Option Failure) → Keeps (λ p. IsGone w p k) (clean_found w i r)
  unfolding clean_found delete_claim
  clean_found-IsGone i k none = record { at = λ p g. IsGone-append w p i k g }
  clean_found-IsGone i k (some not_found) = Keeps-pure tt
  clean_found-IsGone i k (some already_exists) = Keeps-throw already_exists
  clean_found-IsGone i k (some conflict) = Keeps-throw conflict
  clean_found-IsGone i k (some (other n)) = Keeps-throw (other n)

  clean_from-IsGone : (i count k : ℕ) → Keeps (λ p. IsGone w p k) (clean_from w i count)
  unfolding clean_from
  clean_from-IsGone i zero k = Keeps-pure tt
  clean_from-IsGone i (suc count) k =
      Keeps-then _ _ (clean_found-IsGone i k (w.get i)) (clean_from-IsGone (suc i) count k)

  delete_answered :
      (r : Option Failure) → claim_answer r ≡ ok tt → (r ≡ none) ⊎ (r ≡ some not_found)
  delete_answered none h = inl refl
  delete_answered (some not_found) h = inr refl
  delete_answered (some already_exists) h = cc
  delete_answered (some conflict) h = cc
  delete_answered (some (other n)) h = cc

  found-IsGone :
      (i : ℕ) (p : List ℕ) (r : Option Failure)
      → w.get i ≡ r
      → (clean_found w i r p).0 ≡ ok tt
      → IsGone w (clean_found w i r p).1 i
  unfolding clean_found delete_claim
  found-IsGone i p none e h =
      inr (Any-append_right (λ k. i ≡ k) p (i ∷ []) (inl refl), delete_answered (w.delete i) h)
  found-IsGone i p (some not_found) e h = inl e
  found-IsGone i p (some already_exists) e h = cc
  found-IsGone i p (some conflict) e h = cc
  found-IsGone i p (some (other n)) e h = cc

  from-IsGone :
      (i count : ℕ) (p : List ℕ)
      → (clean_from w i count p).0 ≡ ok tt
      → (k : ℕ) → i ≤ k
      → k < i + count
      → IsGone w (clean_from w i count p).1 k
  unfolding clean_from
  from-IsGone i zero p h k lo hi = ground arith
  from-IsGone i (suc count) p h k lo hi =
      go (clean_found w i (w.get i) p).0 (from-IsGone (suc i) count (clean_found w i (w.get i) p).1)
        refl h
    where
      go :
          (r : Result (Unit {0}))
          → ((clean_from w (suc i) count (clean_found w i (w.get i) p).1).0 ≡ ok tt
              → (k : ℕ) → suc i ≤ k
              → k < suc i + count
              → IsGone w (clean_from w (suc i) count (clean_found w i (w.get i) p).1).1 k)
          → (clean_found w i (w.get i) p).0 ≡ r
          → (continue r (λ _. clean_from w (suc i) count) (clean_found w i (w.get i) p).1).0 ≡ ok tt
          → IsGone w
              (continue r (λ _. clean_from w (suc i) count) (clean_found w i (w.get i) p).1).1
              k
      go (err f) rest e h = cc
      go (ok u) rest e h = elim (Bool-cases (k == i)) [
        | inl same ↦
            let k_is : k ≡ i = ground arith in
            rw k_is (
              (clean_from-IsGone (suc i) count i).at (clean_found w i (w.get i) p).1
                (found-IsGone i p (w.get i) refl e))
        | inr differ ↦ rest h k (ground arith) (omega arith)
      ]

-- Only the claims of the ordinals from the desired replica count up to the current one are deleted,
-- also when the cleanup ends with an error.
pub cleanup_orphan_pvcs-IsOrphan :
    (w : World) (current desired : ℕ)
    → desired ≤ current
    → All (IsOrphan current desired) (cleanup_orphan_pvcs w current desired []).1
unfolding cleanup_orphan_pvcs
cleanup_orphan_pvcs-IsOrphan w current desired l =
    (clean_from-IsOrphan w current desired desired (current - desired) (omega arith)
        (omega arith)).at
      [] tt

-- A cleanup that returns no error has left no claim of those ordinals: each was not found, or its
-- delete was sent and was not refused.
pub cleanup_orphan_pvcs-IsGone :
    (w : World) (current desired : ℕ)
    → (cleanup_orphan_pvcs w current desired []).0 ≡ ok tt
    → (i : ℕ) → IsOrphan current desired i
    → IsGone w (cleanup_orphan_pvcs w current desired []).1 i
unfolding cleanup_orphan_pvcs
cleanup_orphan_pvcs-IsGone w current desired h i (lo, hi) =
    from-IsGone w desired (current - desired) [] h i lo (omega arith)
