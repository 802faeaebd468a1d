-- ===== src/Resources.antt =====
-- The objects that the cluster controller keeps beside the StatefulSet: reconcileTLS,
-- reconcileAuthSecret, reconcileConfigMap, cleanupLegacyPeersConfigMap, reconcileService,
-- reconcileServiceMonitor, reconcilePDB, reconcileHPA and reconcileProxy of
-- internal/controller/hyperbytedbcluster_controller.go. An object is cut down to what the controller
-- compares or copies.
pub mod Proxy
pub mod Laws
mod Auth
mod Samples
use hyperbytedb_operator.Prelude.{
  ℕ, ◌-◌, String, Bool, true, false, List, [], ◌∷◌, ◌++◌, Option, none, some, ltb, str_eq, is_none,
  not, ◌&&◌, ◌||◌, if◌then◌else◌, Failure, Result, ok, err, is_not_found, check, Exec, pure, throw,
  lift, ◌>>=◌, ◌>>◌,
}
use hyperbytedb_operator.Prelude.Int.{ℤ, pos, pos_part, ltb_ℤ, eqb_ℤ}
use hyperbytedb_operator.Webhook.{TlsSpec}

-- A call for an object whose content is a `D`.
pub data Op (D : Type 0) : Type 0 where
  create : D → Op D
  update : D → Op D
  delete : Op D

-- The answer to the Get of the object, and the errors, if any, of the calls.
pub record Api (D : Type 0) : Type 0 where
  pub get : Result D
  pub answer : Op D → Option Failure

-- The calls made so far, in order.
abbrev pub Step : Type 0 → Type 0 → Type 0
Step D A = Exec (List (Op D)) A

abbrev pub send : {D : Type 0} → Api D → Op D → Step D (Unit {0})
send api c calls = (check (api.answer c), calls ++ (c ∷ []))

module _ {D : Type 0} (api : Api D) where
  -- Create the object if there is none, else do `found`.
  unfoldable pub create_or : D → (D → Step D (Unit {0})) → Result D → Step D (Unit {0})
  create_or desired found (ok existing) = found existing
  create_or desired found (err e) = if is_not_found e then send api (create desired) else throw e

  -- reconcileConfigMap, and reconcileServiceMonitor without an update: `same` is DeepEqual.
  unfoldable pub reconcile_config_map : (same : D → D → Bool) → D → Step D (Unit {0})
  unfolding create_or
  reconcile_config_map same desired =
      create_or desired
        (λ existing. if not (same existing desired) then send api (update desired) else pure tt)
        api.get

  unfoldable pub reconcile_service_monitor : D → Step D (Unit {0})
  unfolding create_or
  reconcile_service_monitor desired = create_or desired (λ existing. pure tt) api.get

  -- The object is replaced whole where it exists.
  unfoldable pub put_object : D → Step D (Unit {0})
  unfolding create_or
  put_object desired = create_or desired (λ existing. send api (update desired)) api.get

  -- The object goes, if it exists.
  unfoldable pub delete_found : Result D → Step D (Unit {0})
  delete_found (ok existing) = send api delete
  delete_found (err e) = if is_not_found e then pure tt else throw e

  unfoldable pub cleanup_legacy_peers_config_map : Step D (Unit {0})
  unfolding delete_found
  cleanup_legacy_peers_config_map = delete_found api.get

-- A Service. The controller copies the ports and the selector.
pub record Service : Type 0 where
  pub type : String
  pub labels : List (String × String)
  pub ports : List (String × ℕ)
  -- of the only port; 0 where the API server chooses it
  pub node_port : ℤ
  pub selector : List (String × String)

unfoldable pub reconcile_service : Api Service → Service → Step Service (Unit {0})
unfolding create_or
reconcile_service api desired =
    create_or api desired
      (λ existing. send api (
        update (record existing {
          ports = desired.ports;
          node_port = desired.node_port;
          selector = desired.selector;
        })))
      api.get

-- A PodDisruptionBudget: minAvailable. `replicas` is that of the spec, or 1.
unfoldable pub reconcile_pdb : Api ℤ → ℤ → Step ℤ (Unit {0})
unfolding put_object delete_found
reconcile_pdb api replicas =
    if ltb_ℤ replicas (pos 2)
    then delete_found api api.get
    else put_object api (pos (pos_part replicas - 1))

pub record Autoscaling : Type 0 where
  pub enabled : Bool
  pub min_replicas : ℤ
  pub max_replicas : ℤ
  pub target_cpu_utilization_percentage : ℤ

pub record Hpa : Type 0 where
  pub min_replicas : ℤ
  pub max_replicas : ℤ
  pub target_cpu : ℤ

unfoldable pub hpa_of : Autoscaling → Hpa
hpa_of spec = record {
  min_replicas = spec.min_replicas;
  max_replicas = spec.max_replicas;
  target_cpu =
      if eqb_ℤ spec.target_cpu_utilization_percentage (pos 0)
      then pos 80
      else spec.target_cpu_utilization_percentage;
}

unfoldable pub reconcile_hpa : Api Hpa → Option Autoscaling → Step Hpa (Unit {0})
unfolding put_object delete_found hpa_of
reconcile_hpa api none = delete_found api api.get
reconcile_hpa api (some spec) =
    if not spec.enabled then delete_found api api.get else put_object api (hpa_of spec)

-- reconcileTLS. `built` is the outcome of BuildSelfSignedTLSSecret.
unfoldable pub wants_self_signed : Option TlsSpec → Bool
wants_self_signed none = false
wants_self_signed (some tls) =
    tls.enabled && str_eq tls.secret_name "" && is_none tls.cert_manager_issuer_ref

module _ {D : Type 0} (api : Api D) (built : Result D) where
  unfoldable pub create_secret : Result D → Step D (Unit {0})
  create_secret (ok existing) = pure tt
  create_secret (err e) =
      if not (is_not_found e) then throw e else (do secret ← lift built; send api (create secret))

  unfoldable pub reconcile_tls : Option TlsSpec → Step D (Unit {0})
  unfolding create_secret wants_self_signed
  reconcile_tls tls = if wants_self_signed tls then create_secret api.get else pure tt

-- The auth Secret's keys; "" where a key is missing or empty.
pub record AuthSecret : Type 0 where
  pub cluster_token : String
  pub admin_username : String
  pub admin_password : String

-- The two values that randomSecret draws in a pass.
pub record Draws : Type 0 where
  pub token : Result String
  pub password : Result String

abbrev pub or_draw : String → Result String → Result String
or_draw value draw = if str_eq value "" then draw else ok value

-- The Secret with its keys, from the values of the two that can be drawn. The first draw that fails
-- ends the fill.
abbrev pub with_keys : AuthSecret → Result String → Result String → Result AuthSecret
with_keys secret (err e) password = err e
with_keys secret (ok token) (err e) = err e
with_keys secret (ok token) (ok password) = ok (record {
  cluster_token = token;
  admin_username = if str_eq secret.admin_username "" then "admin" else secret.admin_username;
  admin_password = password;
})

-- FillAuthSecret
unfoldable pub fill_auth_secret : Draws → AuthSecret → Result AuthSecret
fill_auth_secret draws secret =
    with_keys secret (or_draw secret.cluster_token draws.token)
      (or_draw secret.admin_password draws.password)

abbrev pub no_keys : AuthSecret
no_keys = record { cluster_token = ""; admin_username = ""; admin_password = "" }

-- Whether FillAuthSecret has something to add.
unfoldable pub lacks_key : AuthSecret → Bool
lacks_key s = str_eq s.cluster_token "" || str_eq s.admin_username "" || str_eq s.admin_password ""

module _ (api : Api AuthSecret) (draws : Draws) where
  unfoldable pub keep_auth_secret : Result AuthSecret → Step AuthSecret String
  unfolding fill_auth_secret lacks_key
  keep_auth_secret (ok existing) = do
    secret ← lift (fill_auth_secret draws existing)
    if lacks_key existing then send api (update secret) else pure tt
    pure secret.cluster_token
  keep_auth_secret (err e) =
      if is_not_found e
      then (do
        secret ← lift (fill_auth_secret draws no_keys)
        send api (create secret)
        pure secret.cluster_token)
      else throw e

  -- reconcileAuthSecret, and the cluster token that it returns.
  unfoldable pub reconcile_auth_secret : Step AuthSecret String
  unfolding keep_auth_secret
  reconcile_auth_secret = keep_auth_secret api.get
