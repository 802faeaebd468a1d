-- ===== src/Rolling.antt =====
-- The proxy-coordinated rolling restart of internal/controller/hyperbytedbcluster_controller.go.
pub mod State
pub mod Handlers
pub mod Coordinate
pub mod Position
mod Patched
mod Lands
mod Release
mod Advance
mod Ends
mod Seen
mod Order
mod Endings
mod Refines
mod Partition
mod Fans
mod Told
mod Phases
mod Handover
mod Answered
mod Samples
