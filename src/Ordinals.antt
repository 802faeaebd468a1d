-- ===== src/Ordinals.antt =====
-- The loops `for i := range replicas` over the ordinals of a StatefulSet's pods.
use hyperbytedb_operator.Prelude.{
  ℕ, zero, suc, ◌<◌, ◌≡◌, ◌⊎◌, inl, inr, List, [], ◌∷◌, ◌++◌, map, arith, ◌==◌, Bool-cases, All,
  Any, All-append,
}

-- The ordinals 0, …, n - 1.
unfoldable pub ordinals : ℕ → List ℕ
ordinals zero = []
ordinals (suc n) = ordinals n ++ (n ∷ [])

pub ordinals-All : (P : ℕ → Type 0) (n : ℕ) → ((i : ℕ) → i < n → P i) → All P (ordinals n)
unfolding ordinals
ordinals-All P zero h = tt
ordinals-All P (suc n) h =
    All-append P (ordinals n) (n ∷ []) (ordinals-All P n (λ i l. h i (omega arith)))
      (h n (omega arith), tt)

module _ {A : Type 0} (f : ℕ → A) (P : A → Type 0) where
  All-map_append : (is js : List ℕ) → All P (map f (is ++ js)) → All P (map f is) × All P (map f js)
  All-map_append [] js h = (tt, h)
  All-map_append (i ∷ is) js h = let (a, b) = All-map_append is js h.1 in ((h.0, a), b)

  Any-map_append : (is js : List ℕ) → Any P (map f (is ++ js)) → Any P (map f is) ⊎ Any P (map f js)
  Any-map_append [] js a = inr a
  Any-map_append (i ∷ is) js (inl h) = inl (inl h)
  Any-map_append (i ∷ is) js (inr a) = elim (Any-map_append is js a) [
    | inl b ↦ inl (inr b)
    | inr b ↦ inr b
  ]

  -- What all of the results satisfy, each does.
  pub map-ordinals-at : (n : ℕ) → All P (map f (ordinals n)) → (i : ℕ) → i < n → P (f i)
  unfolding ordinals
  map-ordinals-at zero h i l = ground arith
  map-ordinals-at (suc n) h i l =
      let (before, last) = All-map_append (ordinals n) (n ∷ []) h in
      elim (Bool-cases (i == n)) [
        | inl same ↦ let e : i ≡ n = ground arith in rw e last.0
        | inr differ ↦ map-ordinals-at n before i (ground arith)
      ]

  -- One of the results is the result of an ordinal.
  pub map-ordinals-Any : (n : ℕ) → Any P (map f (ordinals n)) → (i : ℕ) × (i < n) × P (f i)
  unfolding ordinals
  map-ordinals-Any zero a = elim a [ ]
  map-ordinals-Any (suc n) a = elim (Any-map_append (ordinals n) (n ∷ []) a) [
    | inl b ↦ let (i, l, h) = map-ordinals-Any n b in (i, omega arith, h)
    | inr (inl h) ↦ (n, omega arith, h)
    | inr (inr b) ↦ elim b [ ]
  ]

  All-map_of : (is : List ℕ) → All (λ i. P (f i)) is → All P (map f is)
  All-map_of [] h = tt
  All-map_of (i ∷ is) h = (h.0, All-map_of is h.1)

  pub map-ordinals-All : (n : ℕ) → ((i : ℕ) → i < n → P (f i)) → All P (map f (ordinals n))
  map-ordinals-All n h = All-map_of (ordinals n) (ordinals-All (λ i. P (f i)) n h)

  Any-map_left : (is js : List ℕ) → Any P (map f is) → Any P (map f (is ++ js))
  Any-map_left (i ∷ is) js (inl h) = inl h
  Any-map_left (i ∷ is) js (inr a) = inr (Any-map_left is js a)
  Any-map_left [] js a = elim a [ ]

  Any-map_right : (is js : List ℕ) → Any P (map f js) → Any P (map f (is ++ js))
  Any-map_right [] js a = a
  Any-map_right (i ∷ is) js a = inr (Any-map_right is js a)

  pub map-ordinals-has : (n i : ℕ) → i < n → P (f i) → Any P (map f (ordinals n))
  unfolding ordinals
  map-ordinals-has zero i l h = ground arith
  map-ordinals-has (suc n) i l h = elim (Bool-cases (i == n)) [
    | inl same ↦
        let e : i ≡ n = ground arith in Any-map_right (ordinals n) (n ∷ []) (inl (rw e at h))
    | inr differ ↦ Any-map_left (ordinals n) (n ∷ []) (map-ordinals-has n i (ground arith) h)
  ]
