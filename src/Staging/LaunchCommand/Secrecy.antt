-- ===== src/Staging/LaunchCommand/Secrecy.antt =====
-- What of a session's environment reaches the launch's command line (runtime/ops.go,
-- buildLaunchCommandForTmuxWithPaneCommand).
use gc_runtime_nomad.Base.{true, String, ◌≡◌}
use gc_runtime_nomad.Staging.Env.{env_argv_safe}

abbrev IsSafe : String → Type 0
IsSafe k = env_argv_safe k ≡ true
