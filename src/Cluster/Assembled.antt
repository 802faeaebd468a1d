-- ===== src/Cluster/Assembled.antt =====
-- The cluster of a pass, with what the builders make of its spec: what reconcileStatefulSet,
-- reconcileConfigMap and reconcileService of internal/controller/hyperbytedbcluster_controller.go pass on.
-- How a configuration and a template are printed or compared is a parameter.
use hyperbytedb_operator.Prelude.{String, List}
use hyperbytedb_operator.Prelude.Int.{pos}
use hyperbytedb_operator.Config.{Section}
use hyperbytedb_operator.Config.Render.{render_config, config_hash}
use hyperbytedb_operator.Services.{
  build_headless_service, build_client_service, build_proxy_service, proxy_enabled,
}
use hyperbytedb_operator.Workload.{PodTemplate}
use hyperbytedb_operator.Workload.Database
use hyperbytedb_operator.Workload.Database.{cluster_auth_enabled}
use hyperbytedb_operator.Workload.Template.{build_stateful_set}
use hyperbytedb_operator.Cluster.State.{Cluster}

-- ConfigHash's digest, and texts for a configuration and for a template, whose grace period is left out
pub record Printing : Type 0 where
  pub digest : List Section → String
  pub config : List Section → String
  pub template : PodTemplate → String

-- `rest` has the fields that come from elsewhere.
unfoldable pub assemble : Printing → Database.Cluster → (rest : Cluster) → Cluster
unfolding config_hash render_config cluster_auth_enabled proxy_enabled build_stateful_set
    build_headless_service build_client_service build_proxy_service
assemble show d rest =
    let hash = config_hash show.digest d.config in
    let sts = build_stateful_set d hash in
    record rest {
      replicas = d.config.replicas;
      auth_enabled = cluster_auth_enabled d;
      proxy_enabled = proxy_enabled d.service.proxy;
      config_hash = hash;
      config = show.config (render_config d.config);
      headless_service = build_headless_service d.service;
      client_service = build_client_service d.service;
      proxy_service = build_proxy_service d.service;
      pod_management_policy = sts.pod_management_policy;
      template = show.template (record sts.template { termination_grace_period_seconds = pos 0 });
      termination_grace_period_seconds = sts.template.termination_grace_period_seconds;
    }
