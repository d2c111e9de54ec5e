-- ===== src/Staging/Script/Pointers.antt =====
-- What env.sh says of a key whose value is a PEM file (runtime/staging.go, buildEnvScript).
use gc_runtime_nomad.Base.{String}
use Prim.Native.String
