-- ===== src/Lifecycle/Error.antt =====
-- The errors of package runtime. A package-level error value is a `Sentinel`; a text keeps its
-- fixed words and drops what is interpolated; `wrap` is `fmt.Errorf("…: %w", e)`.
use Prim.Native.String
use gc_runtime_nomad.Base.{Bool, true, false, ◌||◌, String}

pub data Sentinel : Type 0 where
  job_gone job_forbidden alloc_file_gone : Sentinel
  binding_no_match binding_ambiguous binding_terminal : Sentinel
  session_not_found alloc_not_ready : Sentinel
  eof unexpected_eof conn_reset broken_pipe : Sentinel

pub Sentinel-discrete : Discrete Sentinel
Sentinel-discrete = hlevel

pub data Err : Type 0 where
  sentinel : Sentinel → Err
  message : String → Err
  wrap : String → Err → Err
  -- `fmt.Errorf("…: %w; %w", a, b)`
  join : String → Err → Err → Err

pub data Result (A : Type 0) : Type 0 where
  ok : A → Result A
  err : Err → Result A

abbrev pub is_sentinel : Sentinel → Sentinel → Bool
is_sentinel job_gone job_gone = true
is_sentinel job_forbidden job_forbidden = true
is_sentinel alloc_file_gone alloc_file_gone = true
is_sentinel binding_no_match binding_no_match = true
is_sentinel binding_ambiguous binding_ambiguous = true
is_sentinel binding_terminal binding_terminal = true
is_sentinel session_not_found session_not_found = true
is_sentinel alloc_not_ready alloc_not_ready = true
is_sentinel eof eof = true
is_sentinel unexpected_eof unexpected_eof = true
is_sentinel conn_reset conn_reset = true
is_sentinel broken_pipe broken_pipe = true
is_sentinel _ _ = false

-- `errors.Is(err, target)`
unfoldable pub is : Sentinel → Err → Bool
is target (sentinel s) = is_sentinel target s
is target (message text) = false
is target (wrap text e) = is target e
is target (join text a b) = is target a || is target b

abbrev pub sentinel_text : Sentinel → String
sentinel_text job_gone = "nomad: job gone"
sentinel_text job_forbidden = "nomad: forbidden"
sentinel_text alloc_file_gone = "nomad: alloc file gone"
sentinel_text binding_no_match = "sidecar binding recovery: no matching child"
sentinel_text binding_ambiguous = "sidecar binding recovery: matching children are ambiguous"
sentinel_text binding_terminal = "sidecar binding recovery: matching child is terminal"
sentinel_text session_not_found = "session not found"
sentinel_text alloc_not_ready = "allocation not ready"
sentinel_text eof = "EOF"
sentinel_text unexpected_eof = "unexpected EOF"
sentinel_text conn_reset = "connection reset by peer"
sentinel_text broken_pipe = "broken pipe"

-- `err.Error()`
unfoldable pub error_text : Err → String
error_text (sentinel s) = sentinel_text s
error_text (message text) = text
error_text (wrap text e) = String.◌++◌ text (String.◌++◌ ": " (error_text e))
error_text (join text a b) =
    String.◌++◌ text
      (String.◌++◌ ": " (String.◌++◌ (error_text a) (String.◌++◌ "; " (error_text b))))
