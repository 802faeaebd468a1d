-- ===== src/Certificates/Samples.antt =====
-- The certificate of a cluster, with libraries that keep what they are given, and of the times the seconds.
use hyperbytedb_operator.Prelude.{
  ℕ, zero, suc, ◌+◌, ◌*◌, ◌/◌, ◌%◌, ◌≡◌, refl, false, [], ◌∷◌, ◌++◌, none, some, ltb, if◌then◌else◌,
  ok, arith,
}
use hyperbytedb_operator.Image.{Text, codes, has}
use hyperbytedb_operator.Certificates.{
  Cluster, Certificate, Crypto, TlsSecret, build_self_signed_tls_secret, hour, server_template,
  ca_template,
}
use hyperbytedb_operator.Certificates.Names.{IsDecimal, has-append}
use hyperbytedb_operator.Certificates.Laws.{
  whole, Documents, IsServing, build_self_signed_tls_secret-IsServing,
}

digits : (fuel n : ℕ) → Text
digits zero n = []
digits (suc fuel) n =
    let rest = digits fuel (n / 10) in
    let digit = 48 + n % 10 in if ltb n 10 then digit ∷ [] else rest ++ (digit ∷ [])

decimal : ℕ → Text
unfolding digits
decimal n = digits (suc n) n

decimal_120 : decimal 120 ≡ codes "120"
unfolding decimal
decimal_120 = refl

digit-has : (n : ℕ) → has b'.' ((48 + n % 10) ∷ []) ≡ false
unfolding has
digit-has n = ground arith

digits-has : (fuel n : ℕ) → has b'.' (digits fuel n) ≡ false
unfolding digits
digits-has zero n = let nothing : has b'.' [] ≡ false = unfold has in refl in nothing
digits-has (suc fuel) n = ground (
  arith,
  digit-has n,
  has-append b'.' (digits fuel (n / 10)) ((48 + n % 10) ∷ []) (digits-has fuel (n / 10))
      (digit-has n),
)

decimal-IsDecimal : IsDecimal decimal
unfolding decimal
decimal-IsDecimal n = digits-has (suc n) n

data Der : Type 0 where
  cert : Certificate ℕ → Der
  key : ℕ → Der

abbrev blank : Certificate ℕ
blank = record {
  serial_number = 0;
  subject = [];
  issuer = [];
  dns_names = [];
  not_before = 0;
  not_after = 0;
  is_ca = false;
  public_key = none;
  signed_by = none;
}

abbrev read : Der → Certificate ℕ
read (cert c) = c
read (key k) = blank

abbrev read_key : Der → ℕ
read_key (cert c) = 0
read_key (key k) = k

abbrev crypto : Crypto
crypto = record {
  Key = ℕ;
  Public = ℕ;
  Der = Der;
  Pem = Text × Der;
  generate_key = λ i. ok (i + 7);
  public = λ k. k + 100;
  create_certificate = λ template parent public_key signer. ok (
      cert (record template {
        issuer = parent.subject;
        not_before = whole template.not_before;
        not_after = whole template.not_after;
        public_key = some public_key;
        signed_by = some (signer + 100);
      }));
  parse_certificate = λ der. ok (read der);
  marshal_key = λ k. ok (key k);
  encode = λ type der. (type, der);
}

documents : Documents crypto
documents = record {
  read = read;
  read_key = read_key;
  decode = λ p. p.1;
  created = λ template parent public_key signer der e. cc;
  parsed = λ der c e. cc;
  marshalled = λ k der e. cc;
  encoded = λ type der. refl;
}

abbrev cluster : Cluster
cluster = record { name = codes "metrics"; namespace = codes "monitoring"; tls_secret_name = none }

abbrev secret : TlsSecret (Text × Der)
secret = record {
  name = codes "metrics-tls";
  namespace = codes "monitoring";
  tls_crt = (
    codes "CERTIFICATE",
    cert (record (server_template decimal crypto 9 cluster (codes "monitoring") 3) {
      issuer = codes "metrics CA";
      not_before = 0;
      not_after = 365 * 24 * hour;
      public_key = some 108;
      signed_by = some 107;
    }),
  );
  tls_key = (codes "EC PRIVATE KEY", key 8);
  ca_crt = (
    codes "CERTIFICATE",
    cert (record (ca_template decimal crypto 9 cluster) {
      issuer = codes "metrics CA";
      not_before = 0;
      not_after = 10 * 365 * 24 * hour;
      public_key = some 107;
      signed_by = some 107;
    }),
  );
}

builds : build_self_signed_tls_secret decimal crypto 9 cluster (codes "monitoring") 3 ≡ ok secret
unfolding build_self_signed_tls_secret
builds = refl

label : has b'.' (codes "metrics") ≡ false
unfolding has
label = refl

build_self_signed_tls_secret-IsServing_example : IsServing decimal crypto 9 documents cluster secret
build_self_signed_tls_secret-IsServing_example =
    build_self_signed_tls_secret-IsServing decimal crypto 9 documents decimal-IsDecimal cluster 3
      secret label builds
