-- ===== src/Fake.antt =====
-- fakenomad/fakenomad.go: the Nomad server that the pack's tests run against.
pub mod State
pub mod Faults
pub mod Allocs
pub mod Messages
pub mod Jobs
pub mod Routes
