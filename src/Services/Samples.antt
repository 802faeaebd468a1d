-- ===== src/Services/Samples.antt =====
-- A cluster whose user sets a label of its own.
use hyperbytedb_operator.Prelude.{◌≡◌, refl, true, false, [], ◌∷◌, none}
use hyperbytedb_operator.Services.{
  Cluster, build_headless_service, build_proxy_service, database_pod_labels, proxy_pod_labels,
}
use hyperbytedb_operator.Services.Laws.{selects, KeepsLabels, build_headless_service-selects}

abbrev pub cluster : Cluster
cluster = record {
  name = "metrics";
  port = 8086;
  pod_labels = ("team", "storage") ∷ [];
  proxy = none;
  admin_listener = true;
}

keeps : KeepsLabels cluster
keeps = record { name = refl; instance_name = refl; managed_by = refl; proxy_name = refl }

build_headless_service-selects_example :
    (selects (build_headless_service cluster).selector (database_pod_labels cluster) ≡ true)
    × (selects (build_headless_service cluster).selector (proxy_pod_labels cluster) ≡ false)
    × (selects (build_proxy_service cluster).selector (database_pod_labels cluster) ≡ false)
build_headless_service-selects_example = build_headless_service-selects cluster keeps

-- A label of the user can take a database pod out of its own Service.
abbrev relabelled : Cluster
relabelled = record cluster { pod_labels = ("app.kubernetes.io/name", "mine") ∷ [] }

relabelled_is_lost :
    selects (build_headless_service relabelled).selector (database_pod_labels relabelled) ≡ false
unfolding build_headless_service database_pod_labels
relabelled_is_lost = refl
