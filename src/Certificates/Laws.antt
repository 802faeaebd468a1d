-- ===== src/Certificates/Laws.antt =====
-- What BuildSelfSignedTLSSecret of internal/hyperbytedb/tls.go makes.
use hyperbytedb_operator.Prelude.{
  ℕ, ◌+◌, ◌*◌, ◌/◌, ◌≤◌, ◌<◌, ◌≡◌, refl, ap, ◌∙◌, true, false, some, inl, inr, Result, ok, err,
  arith,
}
use hyperbytedb_operator.Image.{Text, codes, has}
use hyperbytedb_operator.Kube.{second}
use hyperbytedb_operator.Certificates.{
  Cluster, Certificate, Crypto, TlsSecret, service_host, headless_service_name, client_service_name,
  pod_host, dns_names, ca_template, server_template, build_self_signed_tls_secret, hour, ◌>>=◌,
}
use hyperbytedb_operator.Certificates.Names.{Covers, IsDecimal, dns_names-pod_host}

-- A chain that has come to an end has its first answer.
came :
    {A B : Type 0} (first : Result A) (next : A → Result B) {last : B}
    → (first >>= next) ≡ ok last
    → (value : A) × (first ≡ ok value) × (next value ≡ ok last)
came (err failure) next done = cc
came (ok value) next done = (value, refl, done)

-- A time as a certificate has it, in whole seconds.
abbrev pub whole : ℕ → ℕ
whole t = t / second * second

-- What the documentation of the libraries says: CreateCertificate makes a certificate of the template
-- for the public key, issued by the parent and signed by the given key, whose times are in whole seconds;
-- ParseCertificate reads it, and the encodings lose nothing.
pub record Documents (x : Crypto) : Type 0 where
  pub read : x.Der → Certificate x.Public
  pub read_key : x.Der → x.Key
  pub decode : x.Pem → x.Der
  pub created :
      (template parent : Certificate x.Public) (public_key : x.Public) (signer : x.Key)
      (der : x.Der)
      → x.create_certificate template parent public_key signer ≡ ok der
      → read der ≡ record template {
        issuer = parent.subject;
        not_before = whole template.not_before;
        not_after = whole template.not_after;
        public_key = some public_key;
        signed_by = some (x.public signer);
      }
  pub parsed :
      (der : x.Der) (cert : Certificate x.Public)
      → x.parse_certificate der ≡ ok cert
      → cert ≡ read der
  pub marshalled : (key : x.Key) (der : x.Der) → x.marshal_key key ≡ ok der → read_key der ≡ key
  pub encoded : (type : Text) (der : x.Der) → decode (x.encode type der) ≡ der

module _ (show : ℕ → Text) (x : Crypto) (now : ℕ) (doc : Documents x) where
  -- The Secret serves the cluster.
  pub record IsServing (c : Cluster) (secret : TlsSecret x.Pem) : Type 0 where
    -- the certificate of the authority is one, and signed by its own key
    pub authority : (doc.read (doc.decode secret.ca_crt)).is_ca ≡ true
    pub own :
        (doc.read (doc.decode secret.ca_crt)).signed_by
        ≡ (doc.read (doc.decode secret.ca_crt)).public_key
    -- the certificate of the server is issued by it, for the key beside it
    pub issued :
        (doc.read (doc.decode secret.tls_crt)).issuer
        ≡ (doc.read (doc.decode secret.ca_crt)).subject
    pub signed :
        (doc.read (doc.decode secret.tls_crt)).signed_by
        ≡ (doc.read (doc.decode secret.ca_crt)).public_key
    pub keyed :
        (doc.read (doc.decode secret.tls_crt)).public_key
        ≡ some (x.public (doc.read_key (doc.decode secret.tls_key)))
    -- it is for every pod, for all of them and for the clients
    pub pods : (i : ℕ) → Covers (doc.read (doc.decode secret.tls_crt)).dns_names (pod_host show c i)
    pub headless :
        Covers
          (doc.read (doc.decode secret.tls_crt)).dns_names
          (service_host (headless_service_name c) c.namespace)
    pub client :
        Covers
          (doc.read (doc.decode secret.tls_crt)).dns_names
          (service_host (client_service_name c) c.namespace)
    -- and good for a year but for the last second, for which the authority is good too
    pub begun : (doc.read (doc.decode secret.tls_crt)).not_before ≤ now
    pub authority_begun : (doc.read (doc.decode secret.ca_crt)).not_before ≤ now
    pub lasting : now + 365 * 24 * hour < (doc.read (doc.decode secret.tls_crt)).not_after + second
    pub within :
        (doc.read (doc.decode secret.tls_crt)).not_after
        ≤ (doc.read (doc.decode secret.ca_crt)).not_after

  module _ (decimal : IsDecimal show) (c : Cluster) (label : has b'.' c.name ≡ false)
      (replicas : ℕ) where
    -- from the two certificates and the keys
    serving :
        (secret : TlsSecret x.Pem) (ca_key server_key : x.Key)
        → doc.read (doc.decode secret.ca_crt) ≡ record (ca_template show x now c) {
          issuer = (ca_template show x now c).subject;
          not_before = whole (ca_template show x now c).not_before;
          not_after = whole (ca_template show x now c).not_after;
          public_key = some (x.public ca_key);
          signed_by = some (x.public ca_key);
        }
        → doc.read (doc.decode secret.tls_crt)
          ≡ record (server_template show x now c c.namespace replicas) {
            issuer = (ca_template show x now c).subject;
            not_before = whole (server_template show x now c c.namespace replicas).not_before;
            not_after = whole (server_template show x now c c.namespace replicas).not_after;
            public_key = some (x.public server_key);
            signed_by = some (x.public ca_key);
          }
        → doc.read_key (doc.decode secret.tls_key) ≡ server_key
        → IsServing c secret
    unfolding ca_template server_template dns_names
    serving secret ca_key server_key ca server key = record {
      authority = rw ca refl;
      own = rw ca refl;
      issued = rw (ca, server) refl;
      signed = rw (ca, server) refl;
      keyed = rw (server, key) refl;
      pods = λ i. rw server (dns_names-pod_host show decimal c label replicas i);
      headless = rw server (inr (inl (inl refl)));
      client = rw server (inr (inr (inl (inl refl))));
      begun = rw server (omega arith);
      authority_begun = rw ca (omega arith);
      lasting = rw server (omega arith);
      within = rw (ca, server) (omega arith);
    }

    -- from the answers of the libraries
    answers-IsServing :
        (ca_key server_key : x.Key) (ca_cert : Certificate x.Public)
        (ca_der server_der key_der : x.Der) (secret : TlsSecret x.Pem)
        → x.create_certificate
            (ca_template show x now c)
            (ca_template show x now c)
            (x.public ca_key)
            ca_key
          ≡ ok ca_der
        → x.parse_certificate ca_der ≡ ok ca_cert
        → x.create_certificate
            (server_template show x now c c.namespace replicas)
            ca_cert
            (x.public server_key)
            ca_key
          ≡ ok server_der
        → x.marshal_key server_key ≡ ok key_der
        → secret.ca_crt ≡ x.encode (codes "CERTIFICATE") ca_der
        → secret.tls_crt ≡ x.encode (codes "CERTIFICATE") server_der
        → secret.tls_key ≡ x.encode (codes "EC PRIVATE KEY") key_der
        → IsServing c secret
    answers-IsServing ca_key server_key ca_cert ca_der server_der key_der secret e1 e2 e3 e4 ca crt
          key =
        let ca_is = doc.created _ _ _ _ ca_der e1 in
        let parent : ca_cert.subject ≡ (ca_template show x now c).subject =
          ap (λ (t : Certificate x.Public). t.subject) (doc.parsed ca_der ca_cert e2 ∙ ca_is) in
        serving secret ca_key server_key
          (ap doc.read (ap doc.decode ca ∙ doc.encoded _ ca_der) ∙ ca_is)
          (ap doc.read (ap doc.decode crt ∙ doc.encoded _ server_der)
            ∙ doc.created _ _ _ _ server_der e3
            ∙ ap
                (λ (issuer : Text). record (server_template show x now c c.namespace replicas) {
                  issuer = issuer;
                  not_before = whole (server_template show x now c c.namespace replicas).not_before;
                  not_after = whole (server_template show x now c c.namespace replicas).not_after;
                  public_key = some (x.public server_key);
                  signed_by = some (x.public ca_key);
                })
                parent)
          (ap doc.read_key (ap doc.decode key ∙ doc.encoded _ key_der)
            ∙ doc.marshalled server_key key_der e4)

-- If no library call fails, the Secret serves a cluster whose name is a single label, at any number of
-- replicas and not only at those it was made for: its certificate is for the host of the pod of every
-- ordinal, of the headless Service and of the client Service; it is for the key beside it, issued and
-- signed by the authority beside it, which has signed itself; and it is good from now on for a year, to
-- within its last second, in which the authority is good too.
pub build_self_signed_tls_secret-IsServing :
    (show : ℕ → Text) (x : Crypto) (now : ℕ) (doc : Documents x) (decimal : IsDecimal show)
    (c : Cluster) (replicas : ℕ) (secret : TlsSecret x.Pem)
    → has b'.' c.name ≡ false
    → build_self_signed_tls_secret show x now c c.namespace replicas ≡ ok secret
    → IsServing show x now doc c secret
unfolding build_self_signed_tls_secret
build_self_signed_tls_secret-IsServing show x now doc decimal c replicas secret label done =
    let (ca_key, e1, done) = came (x.generate_key 0) _ done in
    let (ca_der, e2, done) = came (x.create_certificate _ _ _ _) _ done in
    let (server_key, e3, done) = came (x.generate_key 1) _ done in
    let (ca_cert, e4, done) = came (x.parse_certificate ca_der) _ done in
    let (server_der, e5, done) = came (x.create_certificate _ _ _ _) _ done in
    let (key_der, e6, done) = came (x.marshal_key server_key) _ done in
    answers-IsServing show x now doc decimal c label replicas ca_key server_key ca_cert ca_der
      server_der key_der secret e2 e4 e5 e6 (cc) (cc) (cc)
