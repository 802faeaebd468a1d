-- ===== src/Certificates/Names.antt =====
-- Which hosts a certificate of internal/hyperbytedb/tls.go is for.
use hyperbytedb_operator.Prelude.{
  ℕ, ◌≡◌, ◌≢◌, refl, false, List, [], ◌∷◌, ◌++◌, ◌⊎◌, inl, inr, Any, arith,
}
use hyperbytedb_operator.Image.{Text, codes, has}
use hyperbytedb_operator.Certificates.{
  Cluster, service_host, headless_service_name, pod_name, pod_host, dns_names,
}

-- A name of a certificate is for a host (RFC 6125): it is the host's name, or it has "*" in the place
-- of the host's first label, which is not empty.
pub record Wildcard (name host : Text) : Type 0 where
  pub label : Text
  pub parent : Text
  pub pattern_of : name ≡ codes "*." ++ parent
  pub host_of : host ≡ label ++ (codes "." ++ parent)
  pub present : label ≢ []
  pub single : has b'.' label ≡ false

abbrev pub Covers : List Text → Text → Type 0
Covers names host = Any (λ name. (name ≡ host) ⊎ Wildcard name host) names

pub has-append :
    (c : ℕ) (xs ys : Text) → has c xs ≡ false → has c ys ≡ false → has c (xs ++ ys) ≡ false
unfolding has
has-append c [] ys h k = k
has-append c (x ∷ xs) ys h k = ground (arith, has-append c xs ys)

append_cons-ne-nil : (xs : Text) (c : ℕ) (ys : Text) → xs ++ (c ∷ ys) ≢ []
append_cons-ne-nil [] c ys = λ e. cc
append_cons-ne-nil (x ∷ xs) c ys = λ e. cc

-- fmt's `%d` of a number that is not negative
abbrev pub IsDecimal : (ℕ → Text) → Type 0
IsDecimal show = (i : ℕ) → has b'.' (show i) ≡ false

module _ (show : ℕ → Text) (decimal : IsDecimal show) (c : Cluster)
    (label : has b'.' c.name ≡ false) where
  pod_name-single : (i : ℕ) → has b'.' (pod_name show c i) ≡ false
  unfolding pod_name has
  pod_name-single i =
      has-append b'.' c.name (codes "-" ++ show i) label
        (has-append b'.' (codes "-") (show i) refl (decimal i))

  pod_name-ne-nil : (i : ℕ) → pod_name show c i ≢ []
  unfolding pod_name
  pod_name-ne-nil i = append_cons-ne-nil c.name b'-' (show i)

  -- A pod of any ordinal is covered, however many the certificate was made for.
  pub dns_names-pod_host :
      (replicas i : ℕ) → Covers (dns_names show c c.namespace replicas) (pod_host show c i)
  unfolding dns_names pod_host
  dns_names-pod_host replicas i = inl (
      inr (record {
        label = pod_name show c i;
        parent = service_host (headless_service_name c) c.namespace;
        pattern_of = refl;
        host_of = refl;
        present = pod_name-ne-nil i;
        single = pod_name-single i;
      }))
