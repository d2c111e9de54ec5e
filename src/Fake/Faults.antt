-- ===== src/Fake/Faults.antt =====
-- fakenomad/fakenomad.go: the faults that a test scripts (FailNext, FailSticky, ClearFault,
-- DelayNext, queueFault, takeFault) and the counters of broken exec streams.
pub mod Queue
pub mod Streams
use gc_runtime_nomad.Base.{
  ℕ, zero, suc, ◌+◌, ◌-◌, Bool, true, false, ◌&&◌, Option, none, some, List, [], ◌∷◌, ◌++◌, String,
  str_eq, ◌==◌, if◌then◌else◌,
}
use gc_runtime_nomad.Fake.State.{Fault, Server}

unfoldable pub matches : String → String → Fault → Bool
matches method path f = str_eq f.method method && str_eq f.path path

unfoldable pub queue_fault : Fault → Server → Server
queue_fault f s = record s { faults = s.faults ++ f ∷ [] }

unfoldable pub fail_next : String → String → ℕ → String → Server → Server
fail_next method path status body s =
    queue_fault
      (record {
        method = method;
        path = path;
        status = status;
        body = body;
        delay = 0;
        sticky = false;
        passthrough = false;
      })
      s

unfoldable pub fail_sticky : String → String → ℕ → String → Server → Server
fail_sticky method path status body s =
    queue_fault
      (record {
        method = method;
        path = path;
        status = status;
        body = body;
        delay = 0;
        sticky = true;
        passthrough = false;
      })
      s

unfoldable pub delay_next : String → String → ℕ → Server → Server
delay_next method path delay s =
    queue_fault
      (record {
        method = method;
        path = path;
        status = 0;
        body = "";
        delay = delay;
        sticky = false;
        passthrough = true;
      })
      s

-- The queue without its first fault that matches.
unfoldable pub without_first : String → String → List Fault → List Fault
without_first method path [] = []
without_first method path (f ∷ faults) =
    if matches method path f then faults else f ∷ without_first method path faults

unfoldable pub clear_fault : String → String → Server → Server
clear_fault method path s = record s { faults = without_first method path s.faults }

-- takeFault's loop: the fault, and the queue that it leaves.
unfoldable pub take_from : String → String → List Fault → Option Fault × List Fault
take_from method path [] = (none, [])
take_from method path (f ∷ faults) =
    let (taken, rest) = take_from method path faults in
    if matches method path f
    then (some f, if f.sticky then f ∷ faults else faults)
    else (taken, f ∷ rest)

unfoldable pub take_fault : String → String → Server → Option Fault × Server
take_fault method path s =
    let (taken, rest) = take_from method path s.faults in (taken, record s { faults = rest })

-- FailExecNext, ResetExecNext, HangupExecNext with a count that is not negative: 0 is ignored.
unfoldable pub fail_exec_next : ℕ → Server → Server
fail_exec_next count s = if count == 0 then s else record s { exec_fails = s.exec_fails + count }

unfoldable pub reset_exec_next : ℕ → Server → Server
reset_exec_next count s = if count == 0 then s else record s { exec_resets = s.exec_resets + count }

unfoldable pub hangup_exec_next : ℕ → Server → Server
hangup_exec_next count s =
    if count == 0 then s else record s { exec_hangups = s.exec_hangups + count }

unfoldable pub take_exec_hangup : Server → Bool × Server
take_exec_hangup s =
    if s.exec_hangups == 0
    then (false, s)
    else (true, record s { exec_hangups = s.exec_hangups - 1 })

unfoldable pub take_exec_failure : Server → Bool × Server
take_exec_failure s =
    if s.exec_fails == 0 then (false, s) else (true, record s { exec_fails = s.exec_fails - 1 })

unfoldable pub take_exec_reset : Server → Bool × Server
take_exec_reset s =
    if s.exec_resets == 0 then (false, s) else (true, record s { exec_resets = s.exec_resets - 1 })
