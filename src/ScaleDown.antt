-- ===== src/ScaleDown.antt =====
-- Taking nodes out of a cluster: the scale-down part of
-- internal/controller/hyperbytedbcluster_controller.go.
pub mod Plan
pub mod Hooks
pub mod Stuck
mod Swept
mod PlanLaws
mod Probing
pub mod HookLaws
mod Held
mod Samples
