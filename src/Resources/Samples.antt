-- ===== src/Resources/Samples.antt =====
-- The resources at concrete objects.
use hyperbytedb_operator.Prelude.{◌≡◌, refl, String, [], ◌∷◌, none, some, ok}
use hyperbytedb_operator.Prelude.Int.{ℤ, pos}
use hyperbytedb_operator.Resources.{
  Api, Service, AuthSecret, Draws, reconcile_pdb, reconcile_auth_secret,
}
use hyperbytedb_operator.Resources.Proxy.{
  Deployment, reconcile_proxy_service, reconcile_proxy_deployment,
}
use hyperbytedb_operator.Resources.Laws.{stored}
use hyperbytedb_operator.Resources.Auth.{IsStored, reconcile_auth_secret-IsStored}

abbrev three_of_five : Api ℤ
three_of_five = record { get = ok (pos 3); answer = λ c. none }

-- A budget of 3 becomes 4 with five replicas.
pdb_done : (reconcile_pdb three_of_five (pos 5) []).0 ≡ ok tt
unfolding reconcile_pdb
pdb_done = refl

abbrev cluster_ip : Service
cluster_ip = record {
  type = "ClusterIP";
  labels = [];
  ports = ("http", 8086) ∷ [];
  node_port = pos 0;
  selector = ("app", "proxy") ∷ [];
}

abbrev load_balancer : Service
load_balancer = record {
  type = "LoadBalancer";
  labels = [];
  ports = ("http", 8086) ∷ ("admin", 9090) ∷ [];
  node_port = pos 0;
  selector = ("app", "proxy") ∷ [];
}

abbrev cluster_ip_api : Api Service
cluster_ip_api = record { get = ok cluster_ip; answer = λ c. none }

-- The type changes: the Service is deleted and created again.
served : (reconcile_proxy_service cluster_ip_api load_balancer []).0 ≡ ok tt
unfolding reconcile_proxy_service
served = refl

abbrev restarted : Deployment String
restarted = record { annotations = ("restartedAt", "noon") ∷ ("hash", "a") ∷ []; rest = "old" }

abbrev desired : Deployment String
desired = record { annotations = ("hash", "b") ∷ []; rest = "new" }

abbrev deployment_api : Api (Deployment String)
deployment_api = record { get = ok restarted; answer = λ c. none }

deployed : (reconcile_proxy_deployment deployment_api desired []).0 ≡ ok tt
unfolding reconcile_proxy_deployment
deployed = refl

-- A Secret of a user who set only the password.
abbrev own_password : AuthSecret
own_password = record { cluster_token = ""; admin_username = ""; admin_password = "mine" }

abbrev own_api : Api AuthSecret
own_api = record { get = ok own_password; answer = λ c. none }

abbrev draws : Draws
draws = record { token = ok "t0k3n"; password = ok "drawn" }

filled : (reconcile_auth_secret own_api draws []).0 ≡ ok "t0k3n"
unfolding reconcile_auth_secret
filled = refl

reconcile_auth_secret_example :
    IsStored draws
      (some own_password)
      "t0k3n"
      (stored (some own_password) (reconcile_auth_secret own_api draws []).1)
reconcile_auth_secret_example = reconcile_auth_secret-IsStored own_api draws "t0k3n" filled
