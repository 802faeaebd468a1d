-- ===== src/Cluster/Samples.antt =====
-- Passes over a cluster that goes from three pods to two.
use hyperbytedb_operator.Prelude.{
  ◌≡◌, inl, refl, String, true, false, [], ◌∷◌, none, some, All, ok, err, not_found, other,
}
use hyperbytedb_operator.Kube.{StatefulSet}
use hyperbytedb_operator.Resources.{Api, Service}
use hyperbytedb_operator.Resources.Proxy.{Deployment}
use hyperbytedb_operator.Prelude.Int.{pos}
use hyperbytedb_operator.Members.{unknown}
use hyperbytedb_operator.Cluster.State.{
  Phase, pending, scaling, Status, Cluster, World, Sts, seconds,
}
use hyperbytedb_operator.Cluster.Reconcile.{reconcile}
use hyperbytedb_operator.Cluster.Apply.{reconcile_stateful_set}
use hyperbytedb_operator.Resources.{reconcile_tls, reconcile_config_map, reconcile_service}
use hyperbytedb_operator.ScaleDown.Hooks.{
  run_scale_down_cluster_hooks, probe, departing_ordinals, remove_departed_voters, raft_leader_host,
}
use hyperbytedb_operator.ScaleDown.Plan.{departure_plan, departing_node_action}
use hyperbytedb_operator.ScaleDown.Stuck.{delete_stuck_departed_pods, stuck_departed_pods}
use hyperbytedb_operator.Cluster.Rules.{AllIn}
use hyperbytedb_operator.Cluster.Effects.{IsAllowed}
use hyperbytedb_operator.Cluster.Passes.{start}
use hyperbytedb_operator.Cluster.Assembled.{Printing, assemble}
use hyperbytedb_operator.Cluster.Scaling.{Scales, reconcile-Scales}
use hyperbytedb_operator.Config.Render.{cluster_metadata_enabled}
use hyperbytedb_operator.Workload.Laws.{with_replicas}
use hyperbytedb_operator.Workload.Samples.{database}
use hyperbytedb_operator.Cluster.Laws.{
  reconcile-IsAllowed, Answers, reconcile-Answers, IsQuiet, reconcile-IsQuiet,
}

abbrev service : Service
service = record {
  labels = [];
  node_port = pos 0;
  type = "ClusterIP";
  ports = ("http", 8086) ∷ [];
  selector = [];
}

abbrev deployment : Deployment String
deployment = record { annotations = []; rest = "proxy" }

abbrev cluster : Cluster
cluster = record {
  paused = false;
  deleting = false;
  has_finalizer = true;
  replicas = 2;
  auth_enabled = false;
  proxy_enabled = false;
  service_monitor = false;
  tls_spec = none;
  autoscaling = none;
  auto_failover = none;
  config_hash = "c0ffee";
  config = "[server]";
  headless_service = service;
  client_service = service;
  proxy_service = service;
  proxy_deployment = deployment;
  monitor = "monitor";
  pod_management_policy = "Parallel";
  template = "pod";
  termination_grace_period_seconds = pos 120;
  version_reason = "Supported";
}

-- An API server with no object of its own, which refuses nothing.
abbrev empty : {D : Type 0} → Api D
empty = record { get = err not_found; answer = λ c. none }

abbrev existing : Sts
existing = record {
  spec = record {
    replicas = 3;
    partition = none;
    pod_management_policy = "Parallel";
    template = "pod";
    termination_grace_period_seconds = pos 30;
  };
  ready_replicas = 2;
  status_replicas = 3;
}

abbrev rolled : StatefulSet
rolled = record {
  update_revision = "r1";
  current_revision = "r1";
  replicas = 3;
  ready_replicas = 3;
  updated_replicas = 3;
  rolling_update = none;
}

abbrev world : World
world = record {
  get_cluster = none;
  update_cluster = none;
  prev_replicas = ok 3;
  tls = empty;
  built = ok "secret";
  auth = empty;
  draws = record { token = ok "t0k3n"; password = ok "pass" };
  config_map = empty;
  same = λ a b. true;
  legacy_peers = empty;
  headless = empty;
  client = empty;
  hooks = record {
    together = false;
    health = λ i. ok "leaving";
    leader = λ calls i. ok (some 1);
    answer = λ calls c. none;
  };
  get_sts = ok existing;
  sts_answer = λ op. none;
  stuck = record { get_pod = λ i. err not_found; delete = λ pod. none };
  proxy_service = empty;
  proxy_deployment = empty;
  rolling = record {
    now = 0;
    drain_wait_secs = 0;
    get_sts = ok rolled;
    get_sts_again = ok rolled;
    get_pod = λ i. err not_found;
    list_proxies = ok [];
    answer = λ c. none;
  };
  claims = record { get = λ i. none; delete = λ i. none };
  monitor = empty;
  pdb = empty;
  hpa = empty;
  members = record { health = λ i. err (other 1); clock = λ i. 0 };
  membership = record {
    nodes = λ i. err (other 1);
    leader = λ i. err (other 1);
    answer = λ calls c. none;
  };
  manifests = λ i. err (other 1);
  failover = record { now = 0; get_pod = λ i. err not_found; delete = λ i. none };
  rolling_upgrade = false;
}

abbrev status : Phase → Status
status phase = record {
  phase = phase;
  replicas = 3;
  ready_replicas = 3;
  config_hash = "c0ffee";
  members = [];
  cluster_state = unknown;
  formed = none;
  replication_state = none;
  failover_count = 0;
  rolling_restart = none;
  is_paused = false;
  degraded = none;
  available = none;
  database_version = none;
}

-- The pass shrinks the cluster, and both of the remaining replicas are ready.
passes : (reconcile cluster world (start (status pending))).0.requeue ≡ seconds 30
unfolding reconcile reconcile_tls reconcile_config_map reconcile_service
    run_scale_down_cluster_hooks departure_plan probe departing_ordinals departing_node_action
    remove_departed_voters raft_leader_host reconcile_stateful_set delete_stuck_departed_pods
    stuck_departed_pods
passes = refl

reconcile-IsAllowed_example :
    AllIn (IsAllowed cluster world) [] (reconcile cluster world (start (status pending))).1.log
reconcile-IsAllowed_example = reconcile-IsAllowed cluster world (status pending)

reconcile-Answers_example :
    Answers cluster world pending
      (reconcile cluster world (start (status pending))).0
      (reconcile cluster world (start (status pending))).1
reconcile-Answers_example = reconcile-Answers cluster world (status pending)

-- The same cluster, paused while its phase is Scaling.
abbrev paused : Cluster
paused = record cluster { paused = true }

stays : (reconcile paused world (start (status scaling))).1.status.phase ≡ scaling
unfolding reconcile
stays = refl

reconcile-IsQuiet_example : All IsQuiet (reconcile paused world (start (status scaling))).1.log
reconcile-IsQuiet_example = reconcile-IsQuiet paused world (status scaling) (inl refl)

-- The same cluster from its spec, and with the replicas of the spec 5 in place of 3.
abbrev printing : Printing
printing = record {
  digest = λ sections. "1f";
  config = λ sections. "[server]";
  template = λ t. t.container.image;
}

-- The StatefulSet of the three pods, made when the grace period was 30 seconds.
abbrev for_three : Sts
for_three = record existing {
  spec = record existing.spec { template = (assemble printing database cluster).template };
}

abbrev with_three : World
with_three = record world { get_sts = ok for_three }

reconcile-Scales_example :
    All
      (Scales 5 for_three.spec)
      (reconcile
        (assemble printing (with_replicas database 5) cluster)
        with_three
        (start (status pending))).1.log
unfolding cluster_metadata_enabled
reconcile-Scales_example =
    reconcile-Scales printing database cluster 5 with_three (status pending) for_three refl refl
      refl
