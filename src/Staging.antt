-- ===== src/Staging.antt =====
-- What the pack puts into a box before and at the launch: environments, scripts and files
-- (runtime/staging.go, image_env.go, codex_home.go, ops.go).
pub mod Env
pub mod Options
pub mod Script
pub mod Codex
pub mod StagePath
pub mod Capture
pub mod LaunchCommand
pub mod Sources
pub mod Secrets
