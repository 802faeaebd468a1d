-- ===== src/Cluster.antt =====
-- HyperbytedbClusterReconciler.Reconcile of internal/controller/hyperbytedbcluster_controller.go: the
-- components in the order in which a pass runs them.
pub mod State
pub mod Assembled
mod Scaling
pub mod Apply
pub mod Finish
pub mod Reconcile
mod Rules
mod Effects
mod Outcomes
mod Going
mod Stages
mod Passes
mod Laws
mod Samples
