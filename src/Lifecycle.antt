-- ===== src/Lifecycle.antt =====
-- runtime/ops.go and runtime/sidecar.go: the operations of one session's life.
pub mod Error
pub mod Types
pub mod World
pub mod Excerpt
pub mod Sidecar
pub mod Recover
pub mod Alloc
pub mod Stop
pub mod Dispatch
pub mod Driving
pub mod Diagnosis
pub mod Stage
pub mod Prime
pub mod Alive
pub mod Launching
pub mod Placing
pub mod Doors
pub mod Sessions
pub mod Launch
pub mod Adopt
pub mod Running
pub mod Roster
