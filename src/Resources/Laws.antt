-- ===== src/Resources/Laws.antt =====
-- What the objects are after a reconcile that returned no error.
use hyperbytedb_operator.Prelude.{
  ◌-◌, ◌≡◌, refl, String, List, [], ◌∷◌, ◌++◌, Option, none, some, str_eq, eq_iff, arith,
  if◌then◌else◌, Bool-cases, Option-cases, Result, ok, err, not_found, already_exists, conflict,
  other, inl, inr,
}
use hyperbytedb_operator.Prelude.Int.{ℤ, pos, pos_part, ltb_ℤ}
use hyperbytedb_operator.Resources.{
  Op, create, update, delete, Api, send, create_or, put_object, delete_found, Service,
  reconcile_pdb,
}
use hyperbytedb_operator.Resources.Proxy.{
  Deployment, lookup, put_service, reconcile_proxy_service, merge, reconcile_proxy_deployment,
}

-- The object behind the Get, and what calls that succeed make of it.
abbrev pub cell : {D : Type 0} → Result D → Option D
cell (ok d) = some d
cell (err e) = none

abbrev pub stored : {D : Type 0} → Option D → List (Op D) → Option D
stored d [] = d
stored d (create e ∷ cs) = stored (some e) cs
stored d (update e ∷ cs) = stored (some e) cs
stored d (delete ∷ cs) = stored none cs

module _ {D : Type 0} (api : Api D) where
  put_object_stored :
      (desired : D) (r : Result D)
      → (create_or api desired (λ existing. send api (update desired)) r []).0 ≡ ok tt
      → stored (cell r) (create_or api desired (λ existing. send api (update desired)) r []).1
        ≡ some desired
  unfolding create_or
  put_object_stored desired (ok d) h = refl
  put_object_stored desired (err not_found) h = refl
  put_object_stored desired (err already_exists) h = cc
  put_object_stored desired (err conflict) h = cc
  put_object_stored desired (err (other n)) h = cc

  delete_found_stored :
      (r : Result D)
      → (delete_found api r []).0 ≡ ok tt
      → stored (cell r) (delete_found api r []).1 ≡ none
  unfolding delete_found
  delete_found_stored (ok d) h = refl
  delete_found_stored (err not_found) h = refl
  delete_found_stored (err already_exists) h = refl
  delete_found_stored (err conflict) h = refl
  delete_found_stored (err (other n)) h = refl

-- The disruption budget that a cluster wants: all but one of its pods, from two pods on.
abbrev pub wanted_pdb : ℤ → Option ℤ
wanted_pdb replicas = if ltb_ℤ replicas (pos 2) then none else some (pos (pos_part replicas - 1))

-- After a reconcile of the disruption budget without an error there is none below two replicas, and
-- else it keeps all pods but one.
pub reconcile_pdb_lem :
    (api : Api ℤ) (replicas : ℤ)
    → (reconcile_pdb api replicas []).0 ≡ ok tt
    → stored (cell api.get) (reconcile_pdb api replicas []).1 ≡ wanted_pdb replicas
unfolding reconcile_pdb put_object
reconcile_pdb_lem api replicas h = elim (Bool-cases (ltb_ℤ replicas (pos 2))) [
  | inl b ↦ rw b (delete_found_stored api api.get (rw b at h))
  | inr b ↦ rw b (put_object_stored api (pos (pos_part replicas - 1)) api.get (rw b at h))
]

-- The Service of the proxy is there, with the type, the ports, the node port and the selector that are desired.
abbrev pub IsServed : Service → Option Service → Type 0
IsServed desired none = ⊥
IsServed desired (some s) =
    (s.type ≡ desired.type)
    × (s.ports ≡ desired.ports)
    × (s.node_port ≡ desired.node_port)
    × (s.selector ≡ desired.selector)

put_service-IsServed :
    (api : Api Service) (desired existing : Service)
    → (put_service api desired existing []).0 ≡ ok tt
    → IsServed desired (stored (some existing) (put_service api desired existing []).1)
unfolding put_service
put_service-IsServed api desired existing h =
    elim (Bool-cases (str_eq existing.type desired.type)) [
      | inl b ↦ rw b (ground (arith, eq_iff existing.type desired.type), refl, refl, refl)
      | inr b ↦ elim (Option-cases (api.answer delete)) [
        | inl a ↦ simp (b, a) (refl, refl, refl, refl)
        | inr (f, a) ↦ cc (simp (b, a) at h)
      ]
    ]

-- After a reconcile of the proxy's Service without an error it has the desired type, ports,
-- node port and selector, also where the type has changed.
pub reconcile_proxy_service-IsServed :
    (api : Api Service) (desired : Service)
    → (reconcile_proxy_service api desired []).0 ≡ ok tt
    → IsServed desired (stored (cell api.get) (reconcile_proxy_service api desired []).1)
unfolding reconcile_proxy_service create_or
reconcile_proxy_service-IsServed api desired h = go api.get h
  where
    go :
        (r : Result Service)
        → (create_or api desired (put_service api desired) r []).0 ≡ ok tt
        → IsServed desired
            (stored (cell r) (create_or api desired (put_service api desired) r []).1)
    go (ok s) h = put_service-IsServed api desired s h
    go (err not_found) h = (refl, refl, refl, refl)
    go (err already_exists) h = cc
    go (err conflict) h = cc
    go (err (other n)) h = cc

abbrev pub or_else : Option String → Option String → Option String
or_else none o = o
or_else (some v) o = some v

or_else-none : (o : Option String) → o ≡ or_else o none
or_else-none none = refl
or_else-none (some v) = refl

pub lookup-append :
    (k : String) (xs ys : List (String × String))
    → lookup k (xs ++ ys) ≡ or_else (lookup k xs) (lookup k ys)
lookup-append k [] ys = refl
lookup-append k ((j, v) ∷ xs) ys = ground (arith, lookup-append k xs ys)

-- The annotation `k` of a stored Deployment.
abbrev pub annotation : {Rest : Type 0} → String → Option (Deployment Rest) → Option String
annotation k none = none
annotation k (some d) = lookup k d.annotations

-- After a reconcile of the proxy's Deployment without an error each annotation of its template is the
-- desired one, and, where none is desired, the one that was there: what other tools have set stays.
pub reconcile_proxy_deployment_lem :
    {Rest : Type 0} (api : Api (Deployment Rest)) (desired : Deployment Rest) (k : String)
    → (reconcile_proxy_deployment api desired []).0 ≡ ok tt
    → annotation k (stored (cell api.get) (reconcile_proxy_deployment api desired []).1)
      ≡ or_else (lookup k desired.annotations) (annotation k (cell api.get))
unfolding reconcile_proxy_deployment create_or merge
reconcile_proxy_deployment_lem {Rest = Rest} api desired k h = go api.get h
  where
    go :
        (r : Result (Deployment Rest))
        → (create_or api desired (λ existing. send api (update (merge existing desired))) r []).0
          ≡ ok tt
        → annotation k (
            stored
              (cell r)
              (create_or api desired
                (λ existing. send api (update (merge existing desired)))
                r
                []).1)
          ≡ or_else (lookup k desired.annotations) (annotation k (cell r))
    go (ok d) h = lookup-append k desired.annotations d.annotations
    go (err not_found) h = or_else-none (lookup k desired.annotations)
    go (err already_exists) h = cc
    go (err conflict) h = cc
    go (err (other n)) h = cc
