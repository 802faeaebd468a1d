-- ===== src/Workload/Template.antt =====
-- The pod template and the StatefulSet of BuildStatefulSet, with podManagementPolicy, of
-- internal/hyperbytedb/statefulset.go. The labels and the namespace of the object itself are left out.
use hyperbytedb_operator.Prelude.{
  ℕ, String, Bool, not, ◌&&◌, List, [], ◌∷◌, ◌++◌, Option, none, some, str_eq, if◌then◌else◌,
}
use hyperbytedb_operator.Prelude.Int.{pos}
use hyperbytedb_operator.Config.Render.{cluster_metadata_enabled}
use hyperbytedb_operator.Services.{Labels, common_labels, database_pod_labels}
use hyperbytedb_operator.Workload.{Affinity, user_affinity, spread, PodTemplate}
use hyperbytedb_operator.Workload.Database.{
  Cluster, ClaimTemplate, pod_termination_grace_secs, headless_service_name, init_containers,
  main_container, pod_volumes,
}

-- The claim of the volume "data": its size and its storage class.
pub record Claim : Type 0 where
  pub name : String
  pub size : String
  pub storage_class_name : Option String

pub record StatefulSet : Type 0 where
  pub replicas : ℕ
  pub service_name : String
  pub selector : Labels
  pub pod_management_policy : String
  pub template : PodTemplate
  pub volume_claim_templates : List Claim

-- The user's annotations, and the hash over one of its name.
unfoldable pub pod_annotations : Cluster → String → Labels
pod_annotations c config_hash =
    (if not (str_eq config_hash "")
      then ("hyperbytedb.hyperbyte.cloud/config-hash", config_hash) ∷ []
      else [])
    ++ c.pod_annotations

unfoldable pub pod_affinity : Cluster → Option String → Option Affinity
unfolding common_labels
pod_affinity c (some a) = some (user_affinity a)
pod_affinity c none =
    if cluster_metadata_enabled c.config then some (spread (common_labels c.service)) else none

unfoldable pub pod_management_policy : Bool → Bool → String
pod_management_policy cluster_enabled parallel_pods =
    if cluster_enabled && not parallel_pods then "OrderedReady" else "Parallel"

unfoldable pub data_claim : ClaimTemplate → Claim
data_claim t = record {
  name = "data";
  size = elim t.size [ none ↦ "10Gi" | some size ↦ size ];
  storage_class_name = t.storage_class_name;
}

unfoldable pub pod_template : Cluster → String → PodTemplate
unfolding database_pod_labels pod_annotations init_containers main_container pod_volumes
    pod_affinity
pod_template c config_hash = record {
  labels = database_pod_labels c.service;
  annotations = pod_annotations c config_hash;
  termination_grace_period_seconds = pos pod_termination_grace_secs;
  image_pull_secrets = c.image_pull_secrets;
  init_containers = init_containers c;
  container = main_container c;
  volumes = pod_volumes c;
  tolerations = c.tolerations;
  affinity = pod_affinity c c.affinity;
  topology_spread_constraints = c.topology_spread_constraints;
}

unfoldable pub build_stateful_set : Cluster → String → StatefulSet
unfolding pod_template pod_management_policy common_labels data_claim
build_stateful_set c config_hash = record {
  replicas = c.config.replicas;
  service_name = headless_service_name c.service.name;
  selector = common_labels c.service;
  pod_management_policy = pod_management_policy (cluster_metadata_enabled c.config) c.parallel_pods;
  template = pod_template c config_hash;
  volume_claim_templates = data_claim c.volume_claim_template ∷ [];
}
