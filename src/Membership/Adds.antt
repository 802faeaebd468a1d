-- ===== src/Membership/Adds.antt =====
-- The loop that sends add-node.
use hyperbytedb_operator.Prelude.{
  ℕ, ◌≡◌, refl, sym, ◌∙◌, ◌⊎◌, inl, inr, true, false, not, ◌&&◌, ◌||◌, List, [], ◌∷◌, ◌++◌, none,
  is_none, arith, All, All-append, Any, Bool-cases,
}
use mathlib.Core.List.{append-nil, append_assoc}
use hyperbytedb_operator.Membership.{
  Call, add_node, World, PodView, is_known, is_missing, add_missing,
}

-- The call was made, after `before`, and answered without an error.
abbrev pub Accepted : World → List Call → Call → Type 0
Accepted w calls c =
    (before : List Call) × (after : List Call) × (calls ≡ before ++ (c ∷ after))
    × (w.answer before c ≡ none)

module _ (w : World) (host : ℕ) (known : List ℕ) where
  pub add_missing-extends :
      (vs : List PodView) (calls : List Call)
      → (more : List Call) × ((add_missing w host known vs calls).1 ≡ calls ++ more)
  unfolding add_missing
  add_missing-extends [] calls = ([], sym (append-nil calls))
  add_missing-extends (v ∷ vs) calls = elim (Bool-cases (is_missing w host known v)) [
    | inl b ↦
        let c = add_node host v.node_id in
        let (more, e) = add_missing-extends vs (calls ++ (c ∷ [])) in
        rw b (c ∷ more, e ∙ append_assoc calls (c ∷ []) more)
    | inr b ↦ rw b (add_missing-extends vs calls)
  ]

  -- The pod answers, and is known or was just accepted.
  abbrev pub Joined : List Call → PodView → Type 0
  Joined calls v =
      (v.reachable ≡ true)
      × ((is_known known v.node_id ≡ true) ⊎ Accepted w calls (add_node host v.node_id))

  pub add_missing-Joined :
      (vs : List PodView) (calls final : List Call)
      → (add_missing w host known vs calls).0 ≡ true
      → final ≡ (add_missing w host known vs calls).1
      → All (Joined final) vs
  unfolding add_missing is_missing
  add_missing-Joined [] calls final h e = tt
  add_missing-Joined (v ∷ vs) calls final h e =
      let c = add_node host v.node_id in
      let fine = v.reachable && (is_known known v.node_id || is_none (w.answer calls c)) in
      elim (Bool-cases (v.reachable && not (is_known known v.node_id))) [
        | inl b ↦
            let rest = add_missing w host known vs (calls ++ (c ∷ [])) in
            let h' : fine && rest.0 ≡ true = rw b at h in
            let e' : final ≡ rest.1 = rw b at e in
            let (more, e'') = add_missing-extends vs (calls ++ (c ∷ [])) in
            let accepted : w.answer calls c ≡ none = ground arith in
            (
              (
                ground arith,
                inr (calls, more, e' ∙ e'' ∙ append_assoc calls (c ∷ []) more, accepted),
              ),
              add_missing-Joined vs (calls ++ (c ∷ [])) final (ground arith) e',
            )
        | inr b ↦
            let rest = add_missing w host known vs calls in
            let h' : fine && rest.0 ≡ true = rw b at h in
            let e' : final ≡ rest.1 = rw b at e in
            (
              (ground arith, inl (ground arith)),
              add_missing-Joined vs calls final (ground arith) e',
            )
      ]

  -- An add-node is for a pod that answers and is not known.
  abbrev pub Missing : Call → PodView → Type 0
  Missing c v =
      (c ≡ add_node host v.node_id) × (v.reachable ≡ true) × (is_known known v.node_id ≡ false)

  pub add_missing-Missing :
      (vs : List PodView) (calls : List Call) (P : Call → Type 0)
      → ((c : Call) → Any (Missing c) vs → P c)
      → All P calls
      → All P (add_missing w host known vs calls).1
  unfolding add_missing is_missing
  add_missing-Missing [] calls P f h = h
  add_missing-Missing (v ∷ vs) calls P f h =
      let c = add_node host v.node_id in
      let f' : (c : Call) → Any (Missing c) vs → P c = λ c a. f c (inr a) in
      elim (Bool-cases (v.reachable && not (is_known known v.node_id))) [
        | inl b ↦
            let p : P c = f c (inl (refl, ground arith, ground arith)) in
            rw b (
              add_missing-Missing vs (calls ++ (c ∷ [])) P f'
                (All-append P calls (c ∷ []) h (p, tt)))
        | inr b ↦ rw b (add_missing-Missing vs calls P f' h)
      ]
