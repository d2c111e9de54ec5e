-- ===== src/Tests.antt =====
-- A small cluster, and each theorem applied at it.
pub mod Cluster
pub mod Lifecycle
pub mod Wire
pub mod Fake
pub mod Sidecar
pub mod Waits
pub mod Driving
pub mod Staging
pub mod Doors
