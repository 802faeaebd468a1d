-- ===== src/Certificates.antt =====
-- The self-signed certificate of a cluster, internal/hyperbytedb/tls.go, and the names of the pods in
-- the cluster's DNS, as the controllers, the proxies and the pods themselves write them. A text is the
-- list of its code points. The crypto, x509 and pem libraries and fmt's `%d` are parameters; the usages
-- of the keys are left out.
mod Laws
mod Names
mod Samples
use hyperbytedb_operator.Prelude.{
  ℕ, zero, suc, ◌+◌, ◌-◌, ◌*◌, Bool, true, false, List, [], ◌∷◌, ◌++◌, Option, none, some, String,
  if◌then◌else◌, Failure, Result, ok, err,
}
use hyperbytedb_operator.Image.{Text, codes, is_empty}
use hyperbytedb_operator.Kube.{second}

-- The fields of a cluster that this code reads; spec.server.tls.secretName, where TLS is set.
pub record Cluster : Type 0 where
  pub name : Text
  pub namespace : Text
  pub tls_secret_name : Option Text

unfoldable pub stateful_set_name : Cluster → Text
stateful_set_name c = c.name

unfoldable pub headless_service_name : Cluster → Text
headless_service_name c = c.name ++ codes "-headless"

unfoldable pub client_service_name : Cluster → Text
client_service_name c = c.name

abbrev own_or : Text → Text → Text
own_or own default = if is_empty own then default else own

unfoldable pub tls_secret_name : Cluster → Text
tls_secret_name c = elim c.tls_secret_name [
  | none ↦ c.name ++ codes "-tls"
  | some own ↦ own_or own (c.name ++ codes "-tls")
]

-- "%s.%s.svc.cluster.local"
abbrev pub service_host : (service namespace : Text) → Text
service_host service namespace = service ++ (codes "." ++ (namespace ++ codes ".svc.cluster.local"))

-- x509.Certificate, as a template and as what a certificate says. A key is known by its public part,
-- and `signed_by` is that of the key that signed; a template has none.
pub record Certificate (Public : Type 0) : Type 0 where
  pub serial_number : ℕ
  pub subject : Text
  pub issuer : Text
  pub dns_names : List Text
  pub not_before : ℕ
  pub not_after : ℕ
  pub is_ca : Bool
  pub public_key : Option Public
  pub signed_by : Option Public

-- The libraries: a key by the number of its draw, an encoded certificate, and how they are made.
pub record Crypto : Type 1 where
  pub Key : Type 0
  pub Public : Type 0
  pub Der : Type 0
  pub Pem : Type 0
  pub generate_key : ℕ → Result Key
  pub public : Key → Public
  pub create_certificate :
      (template parent : Certificate Public) (public_key : Public) (signer : Key) → Result Der
  pub parse_certificate : Der → Result (Certificate Public)
  pub marshal_key : Key → Result Der
  pub encode : (type : Text) → Der → Pem

-- The Secret; its type is kubernetes.io/tls.
pub record TlsSecret (Pem : Type 0) : Type 0 where
  pub name : Text
  pub namespace : Text
  pub tls_crt : Pem
  pub tls_key : Pem
  pub ca_crt : Pem

-- The next step, unless `if err != nil` returns.
infixl 5 ◌>>=◌
abbrev pub ◌>>=◌ : {Got Made : Type 0} → Result Got → (Got → Result Made) → Result Made
◌>>=◌ (err failure) next = err failure
◌>>=◌ (ok got) next = next got

abbrev pub hour : ℕ
hour = 3600 * second

module _ (show : ℕ → Text) where
  -- "%s-%d", a pod's name
  unfoldable pub pod_name : Cluster → ℕ → Text
  unfolding stateful_set_name
  pod_name c i = stateful_set_name c ++ (codes "-" ++ show i)

  -- "%s-%d.%s.%s.svc.cluster.local", as the controller and CollectMemberStatuses ask a pod
  unfoldable pub pod_host : Cluster → ℕ → Text
  unfolding pod_name headless_service_name
  pod_host c i = pod_name c i ++ (codes "." ++ service_host (headless_service_name c) c.namespace)

  -- The loop over the ordinals, from `i` on.
  unfoldable pub pod_names : Cluster → Text → (i count : ℕ) → List Text
  unfolding pod_name headless_service_name
  pod_names c namespace i zero = []
  pod_names c namespace i (suc count) =
      (pod_name c i ++ (codes "." ++ service_host (headless_service_name c) namespace))
      ∷ pod_names c namespace (suc i) count

  unfoldable pub dns_names : Cluster → Text → ℕ → List Text
  unfolding headless_service_name client_service_name pod_names
  dns_names c namespace replicas =
      (codes "*." ++ service_host (headless_service_name c) namespace)
      ∷ service_host (headless_service_name c) namespace
      ∷ service_host (client_service_name c) namespace
      ∷ pod_names c namespace 0 replicas

  module _ (x : Crypto) (now : ℕ) where
    open x use {
      Key, Public, Der, Pem, generate_key, public, create_certificate, parse_certificate,
      marshal_key, encode,
    }

    unfoldable pub ca_template : Cluster → Certificate Public
    ca_template c = record {
      serial_number = 1;
      subject = c.name ++ codes " CA";
      issuer = [];
      dns_names = [];
      not_before = now - hour;
      not_after = now + 10 * 365 * 24 * hour;
      is_ca = true;
      public_key = none;
      signed_by = none;
    }

    unfoldable pub server_template : Cluster → Text → ℕ → Certificate Public
    server_template c namespace replicas = record {
      serial_number = 2;
      subject = c.name;
      issuer = [];
      dns_names = dns_names c namespace replicas;
      not_before = now - hour;
      not_after = now + 365 * 24 * hour;
      is_ca = false;
      public_key = none;
      signed_by = none;
    }

    unfoldable pub build_self_signed_tls_secret : Cluster → Text → ℕ → Result (TlsSecret Pem)
    unfolding ca_template server_template tls_secret_name
    build_self_signed_tls_secret c namespace replicas = do
      ca_key ← generate_key 0
      ca_der ← create_certificate (ca_template c) (ca_template c) (public ca_key) ca_key
      server_key ← generate_key 1
      ca_cert ← parse_certificate ca_der
      server_der ←
          create_certificate (server_template c namespace replicas) ca_cert (public server_key)
            ca_key
      server_key_der ← marshal_key server_key
      ok (record {
        name = tls_secret_name c;
        namespace = namespace;
        tls_crt = encode (codes "CERTIFICATE") server_der;
        tls_key = encode (codes "EC PRIVATE KEY") server_key_der;
        ca_crt = encode (codes "CERTIFICATE") ca_der;
      })
