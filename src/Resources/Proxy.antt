-- ===== src/Resources/Proxy.antt =====
-- reconcileProxy: the proxy's Service and its Deployment.
use hyperbytedb_operator.Prelude.{
  String, List, [], ◌∷◌, ◌++◌, Option, none, some, str_eq, if◌then◌else◌, ok, err, Exec, ◌>>◌,
}
use hyperbytedb_operator.Resources.{Op, create, update, delete, Api, Step, send, Service, create_or}

-- A map as an association list in which the first pair of a key counts.
abbrev pub lookup : String → List (String × String) → Option String
lookup k [] = none
lookup k ((j, v) ∷ m) = if str_eq j k then some v else lookup k m

-- The Deployment: its template's annotations, and the rest of what the controller copies.
pub record Deployment (Rest : Type 0) : Type 0 where
  pub annotations : List (String × String)
  pub rest : Rest

-- The Service of another type is recreated.
unfoldable pub put_service : Api Service → Service → Service → Step Service (Unit {0})
put_service api desired existing =
    if str_eq existing.type desired.type
    then send api (
        update (record existing {
          ports = desired.ports;
          node_port = desired.node_port;
          selector = desired.selector;
        }))
    else (do send api delete; send api (create desired))

unfoldable pub reconcile_proxy_service : Api Service → Service → Step Service (Unit {0})
unfolding create_or put_service
reconcile_proxy_service api desired = create_or api desired (put_service api desired) api.get

-- maps.Copy of the existing annotations, then of the desired ones: the desired ones count.
unfoldable pub merge : {Rest : Type 0} → Deployment Rest → Deployment Rest → Deployment Rest
merge existing desired = record desired {
  annotations = desired.annotations ++ existing.annotations;
}

unfoldable pub reconcile_proxy_deployment :
    {Rest : Type 0} → Api (Deployment Rest) → Deployment Rest → Step (Deployment Rest) (Unit {0})
unfolding create_or merge
reconcile_proxy_deployment api desired =
    create_or api desired (λ existing. send api (update (merge existing desired))) api.get

-- The Deployment is not reached if the Service fails.
unfoldable pub reconcile_proxy :
    {Rest : Type 0}
    → Api Service
    → Service
    → Api (Deployment Rest)
    → Deployment Rest
    → Exec (List (Op Service) × List (Op (Deployment Rest))) (Unit {0})
unfolding reconcile_proxy_service reconcile_proxy_deployment
reconcile_proxy services service deployments deployment (made, made') =
    let (r, calls) = reconcile_proxy_service services service made in
    elim r [
      | ok _ ↦
          let (r', calls') = reconcile_proxy_deployment deployments deployment made' in
          (r', (calls, calls'))
      | err e ↦ (err e, (calls, made'))
    ]
