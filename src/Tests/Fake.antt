-- ===== src/Tests/Fake.antt =====
-- The fake server at a small state.
use gc_runtime_nomad.Base.{◌+◌, true, false, some, [], ◌∷◌, ◌++◌, ◌≡◌, refl, arith, lookup}
use gc_runtime_nomad.Fake.State.{Job, Allocation, Fault, Server, new_server}
use gc_runtime_nomad.Fake.Faults.{fail_exec_next, take_fault}
use gc_runtime_nomad.Fake.Faults.Queue.{IsFirst, take_fault-IsFirst}
use gc_runtime_nomad.Fake.Faults.Streams.{failures, repeat, fail_exec_next-failures}
use gc_runtime_nomad.Fake.Messages.{JobSpec}
use gc_runtime_nomad.Fake.Jobs.{register_job, deregister_job}
use gc_runtime_nomad.Fake.Jobs.Deregister.{IsStopped, deregister_job-IsStopped}
use gc_runtime_nomad.Fake.Jobs.Within.{Grows}
use gc_runtime_nomad.Fake.Jobs.Indices.{registers, here, next, Reach-Grows}

abbrev blip : Fault
blip = record {
  method = "GET";
  path = "/v1/jobs";
  status = 503;
  body = "";
  delay = 0;
  sticky = false;
  passthrough = false;
}

abbrev faulty : Server
faulty = record new_server { faults = blip ∷ record blip { sticky = true } ∷ [] }

take_fault-IsFirst_example :
    IsFirst "GET" "/v1/jobs" faulty.faults
      (take_fault "GET" "/v1/jobs" faulty).0
      (take_fault "GET" "/v1/jobs" faulty).1.faults
take_fault-IsFirst_example = take_fault-IsFirst "GET" "/v1/jobs" faulty

fail_exec_next-failures_example :
    failures (0 + 2 + 1) (fail_exec_next 2 faulty) ≡ repeat (0 + 2) true ++ repeat 1 false
fail_exec_next-failures_example = fail_exec_next-failures 2 1 faulty

abbrev job : Job
job = record {
  id = "j";
  namespace = "default";
  node_pool = "";
  parent_id = "";
  dispatched = false;
  meta = [];
  modify_index = 1;
  tasks = [];
  port_labels = [];
}

abbrev placed : Allocation
placed = record {
  id = "a";
  job_id = "j";
  namespace = "default";
  desired_status = "run";
  client_status = "running";
  modify_index = 2;
  ports = [];
  task_states = [];
}

abbrev busy : Server
busy = record new_server { index = 2; jobs = ("j", job) ∷ []; allocs = ("a", placed) ∷ [] }

busy_lookup : lookup "j" busy.jobs ≡ some job
unfolding lookup
busy_lookup = refl

deregister_job-IsStopped_example : IsStopped "j" false job busy (deregister_job "j" false busy).1
deregister_job-IsStopped_example = deregister_job-IsStopped "j" false job busy busy_lookup

abbrev spec : JobSpec
spec = record { id = "k"; namespace = ""; node_pool = ""; meta = []; task_groups = [] }

Reach-Grows_example : Grows busy (register_job spec "" busy).1
Reach-Grows_example = Reach-Grows (next here (registers spec "" busy (omega arith)))
