-- ===== src/ScaleDown/Swept.antt =====
-- That deleteStuckDepartedPods of internal/controller/hyperbytedbcluster_controller.go leaves no stuck
-- pod out.
use mathlib.Core.List.{append_assoc, append-nil}
use mathlib.Core.Path.{subst}
use hyperbytedb_operator.Prelude.{
  ℕ, zero, suc, ◌+◌, ◌-◌, ◌≤◌, ◌<◌, ◌≡◌, refl, sym, ap, ◌∙◌, ◌↔◌, ◌||◌, List, [], ◌∷◌, ◌++◌, leb,
  Result, ok, err, Bool-cases, false, not_found, arith, continue, All, Any, inl, inr,
}
use hyperbytedb_operator.Kube.{Pod, is_pod_ready}
use hyperbytedb_operator.ScaleDown.Stuck.{
  World, IsStuck, stuck_departed_pods, add_found, departed_pods, delete_pod, delete_each,
  delete_stuck, delete_stuck_departed_pods, delete_stuck_departed_pods-IsStuck,
}

-- The pod is in the list.
abbrev pub In : Pod → List Pod → Type 0
In pod = Any (λ p. p ≡ pod)

All-In : (P : Pod → Type 0) (pods : List Pod) (pod : Pod) → All P pods → In pod pods → P pod
All-In P [] pod h m = elim m [ ]
All-In P (p ∷ pods) pod h (inl e) = subst P e h.0
All-In P (p ∷ pods) pod h (inr m) = All-In P pods pod h.1 m

stuck_departed_pods-In :
    (pods : List Pod) (pod : Pod)
    → is_pod_ready pod ≡ false
    → pod.deleting ≡ false
    → In pod pods
    → In pod (stuck_departed_pods pods)
unfolding stuck_departed_pods
stuck_departed_pods-In [] pod unready kept m = elim m [ ]
stuck_departed_pods-In (p ∷ pods) pod unready kept (inl e) =
    let unready' : is_pod_ready p ≡ false = ap is_pod_ready e ∙ unready in
    let kept' : p.deleting ≡ false = ap (λ (q : Pod). q.deleting) e ∙ kept in
    elim (Bool-cases (p.deleting || is_pod_ready p)) [ inl b ↦ ground arith | inr b ↦ rw b (inl e) ]
stuck_departed_pods-In (p ∷ pods) pod unready kept (inr m) =
    let rest = stuck_departed_pods-In pods pod unready kept m in
    elim (Bool-cases (p.deleting || is_pod_ready p)) [ inl b ↦ rw b rest | inr b ↦ rw b (inr rest) ]

module _ (w : World) where
  -- What was added to a list that was read, and that the rest of it stays.
  add_found-ok :
      (r : Result Pod) (rest : Result (List Pod)) (pods : List Pod)
      → add_found w r rest ≡ ok pods
      → (others : List Pod) × (rest ≡ ok others)
        × ((pod : Pod) → In pod others → In pod pods)
        × ((pod : Pod) → r ≡ ok pod → In pod pods)
  unfolding add_found
  add_found-ok (ok p) (ok others) pods e =
      let eq : p ∷ others ≡ pods = cc in
      (others, refl, λ pod m. subst (In pod) eq (inr m), λ pod h. subst (In pod) eq (inl cc))
  add_found-ok (ok p) (err f) pods e = cc
  add_found-ok (err not_found) (ok others) pods e =
      let eq : others ≡ pods = cc in (others, refl, λ pod m. subst (In pod) eq m, λ pod h. cc)
  add_found-ok (err not_found) (err f) pods e = cc
  add_found-ok (err _) rest pods e = cc

  departed_pods-In :
      (i count : ℕ) (pods : List Pod)
      → departed_pods w i count ≡ ok pods
      → (j : ℕ) (pod : Pod) → i ≤ j
      → j < i + count
      → w.get_pod j ≡ ok pod
      → In pod pods
  unfolding departed_pods
  departed_pods-In i zero pods e j pod above below found = absurd (omega arith)
  departed_pods-In i (suc count) pods e j pod above below found =
      let (others, e', keep, first) =
        add_found-ok (w.get_pod i) (departed_pods w (suc i) count) pods e in
      elim (Bool-cases (leb j i)) [
        | inl b ↦ let same : i ≡ j = ground arith in first pod (ap w.get_pod same ∙ found)
        | inr b ↦
            keep pod
              (departed_pods-In (suc i) count others e' j pod (ground arith) (omega arith) found)
      ]

  after_delete :
      (r : Result (Unit {0})) (pods deleted all : List Pod)
      → (continue r (λ _. delete_each w pods) deleted).0 ≡ ok tt
      → ((delete_each w pods deleted).0 ≡ ok tt → (delete_each w pods deleted).1 ≡ all)
      → (continue r (λ _. delete_each w pods) deleted).1 ≡ all
  after_delete (ok _) pods deleted all e rest = rest e
  after_delete (err f) pods deleted all e rest = cc

  delete_each-ok :
      (pods deleted : List Pod)
      → (delete_each w pods deleted).0 ≡ ok tt
      → (delete_each w pods deleted).1 ≡ deleted ++ pods
  unfolding delete_each
  delete_each-ok [] deleted e = sym (append-nil deleted)
  delete_each-ok (pod ∷ pods) deleted e =
      after_delete (delete_pod w pod deleted).0 pods (deleted ++ (pod ∷ []))
        (deleted ++ (pod ∷ pods)) e
        (λ h. delete_each-ok pods (deleted ++ (pod ∷ [])) h ∙ append_assoc deleted (pod ∷ []) pods)

  delete_stuck-In :
      (r : Result (List Pod)) (pod : Pod)
      → (delete_stuck w r []).0 ≡ ok tt
      → is_pod_ready pod ≡ false
      → pod.deleting ≡ false
      → ((pods : List Pod) → r ≡ ok pods → In pod pods)
      → In pod (delete_stuck w r []).1
  delete_stuck-In (ok pods) pod done unready kept read =
      subst (In pod) (sym (delete_each-ok (stuck_departed_pods pods) [] done))
        (stuck_departed_pods-In pods pod unready kept (read pods refl))
  delete_stuck-In (err f) pod done unready kept read = cc

-- Where no call fails that is not answered by "not found", the deletes are exactly those of the stuck
-- pods: the pods at or above .spec.replicas and below the number of pods that the StatefulSet has,
-- which are unready and not already being deleted.
pub delete_stuck_departed_pods-exactly :
    (w : World) (spec_replicas status_replicas : ℕ)
    → (delete_stuck_departed_pods w spec_replicas status_replicas []).0 ≡ ok tt
    → (pod : Pod)
    → IsStuck w spec_replicas status_replicas pod
      ↔ In pod (delete_stuck_departed_pods w spec_replicas status_replicas []).1
unfolding delete_stuck_departed_pods
delete_stuck_departed_pods-exactly w lo hi done pod = (
  λ h. elim (Bool-cases (leb hi lo)) [
    | inl b ↦ absurd (let above = h.above in let below = h.below in ground arith)
    | inr b ↦
        let below = h.below in
        let sum : lo + (hi - lo) ≡ hi = ground arith in
        rw b (
          delete_stuck-In w (departed_pods w lo (hi - lo)) pod (rw b at done) h.unready h.kept
            (λ pods e.
              departed_pods-In w lo (hi - lo) pods e h.ordinal pod h.above (omega arith) h.found))
  ],
  All-In (IsStuck w lo hi) (delete_stuck_departed_pods w lo hi []).1 pod
      (delete_stuck_departed_pods-IsStuck w lo hi),
)
