-- ===== src/Fake/Routes.antt =====
-- fakenomad/fakenomad.go: which handler answers a request (serveHTTP, splitPath).
use gc_runtime_nomad.Base.{
  ℕ, Bool, true, false, not, ◌&&◌, ◌||◌, Option, none, some, List, [], ◌∷◌, ◌++◌, String, Dict,
  lookup, str_eq, split, join_path, if◌then◌else◌,
}
use Prim.Native.String
use gc_runtime_nomad.Fake.State.{TaskSpec, Fault, Server}
use gc_runtime_nomad.Fake.Faults.{take_fault}
use gc_runtime_nomad.Fake.Messages.{JobSpec, Response, json_error, scripted, collected, exec_stream}
use gc_runtime_nomad.Fake.Jobs.{
  register_job, list_jobs, dispatch_job, read_job, list_allocs_for_job, list_allocs, read_alloc,
  deregister_job, cat_alloc_file,
}

-- A request, with its body as the handler that reads it decodes it, the second of Unix time at
-- which it is served, and which tasks start if it dispatches a job.
pub record Request : Type 0 where
  pub method : String
  pub path : String
  pub query : Dict String
  pub spec : JobSpec
  pub meta : Dict String
  pub now : ℕ
  pub starts : TaskSpec → Bool

unfoldable pub non_empty : List String → List String
non_empty [] = []
non_empty (p ∷ parts) = if str_eq p "" then non_empty parts else p ∷ non_empty parts

-- splitPath: the slashes at both ends, which it trims, delimit empty parts only.
unfoldable pub split_path : String → List String
unfolding non_empty split
split_path p = non_empty (split 0x2f p)

unfoldable pub query_is_true : String → Request → Bool
unfolding lookup
query_is_true key r = elim (lookup key r.query) [ none ↦ false | some v ↦ str_eq v "true" ]

unfoldable pub query_text : String → Request → String
unfolding lookup
query_text key r = elim (lookup key r.query) [ none ↦ "" | some v ↦ v ]

-- A list but its last element, and that element.
unfoldable pub unsnoc : String → List String → List String × String
unsnoc p [] = ([], p)
unsnoc p (q ∷ parts) = let (init, last) = unsnoc q parts in (p ∷ init, last)

unfoldable pub has_parts : List String → Bool
has_parts [] = false
has_parts (_ ∷ _) = true

-- The routes under /v1/job: what follows is the job's id, and a verb where one is known.
unfoldable pub route_job : Request → String → List String → Server → Response × Server
unfolding unsnoc has_parts query_is_true
route_job r first others s =
    let (init, last) = unsnoc first others in
    let id = join_path (first ∷ others) in
    if str_eq r.method "POST" && str_eq last "dispatch" && has_parts others
    then dispatch_job r.starts r.now (join_path init) r.meta s
    else if str_eq r.method "GET" && str_eq last "allocations" && has_parts others
    then (list_allocs_for_job (join_path init) s, s)
    else if str_eq r.method "POST"
    then register_job r.spec id s
    else if str_eq r.method "GET"
    then (read_job id s, s)
    else if str_eq r.method "DELETE"
    then deregister_job id (query_is_true "purge" r) s
    else (json_error 404 "not found", s)

-- The routes of the other paths, by their parts.
unfoldable pub route_other : Request → List String → Server → Response × Server
unfolding query_is_true query_text
route_other r (v1 ∷ a ∷ []) s =
    if not (str_eq v1 "v1")
    then (json_error 404 "not found", s)
    else if str_eq r.method "POST" && str_eq a "jobs"
    then register_job r.spec "" s
    else if str_eq r.method "GET" && str_eq a "jobs"
    then (list_jobs (query_is_true "meta" r) s, s)
    else if str_eq r.method "GET" && str_eq a "allocations"
    then (list_allocs s, s)
    else (json_error 404 "not found", s)
route_other r (v1 ∷ a ∷ b ∷ []) s =
    if not (str_eq v1 "v1")
    then (json_error 404 "not found", s)
    else if str_eq r.method "GET" && str_eq a "allocation"
    then (read_alloc b s, s)
    else if str_eq r.method "PUT" && str_eq a "system" && str_eq b "gc"
    then (collected, s)
    else (json_error 404 "not found", s)
route_other r (v1 ∷ a ∷ b ∷ c ∷ d ∷ []) s =
    if not (str_eq v1 "v1") || not (str_eq r.method "GET") || not (str_eq a "client")
    then (json_error 404 "not found", s)
    else if str_eq b "allocation" && str_eq d "exec"
    then (exec_stream c, s)
    else if str_eq b "fs" && str_eq c "cat"
    then (cat_alloc_file d (query_text "path" r) s, s)
    else (json_error 404 "not found", s)
route_other r _ s = (json_error 404 "not found", s)

unfoldable pub route : Request → List String → Server → Response × Server
unfolding route_job route_other
route r (v1 ∷ job ∷ first ∷ others) s =
    if str_eq v1 "v1" && str_eq job "job"
    then route_job r first others s
    else route_other r (v1 ∷ job ∷ first ∷ others) s
route r parts s = route_other r parts s

-- A fault answers in the handler's place, unless it only delays it.
unfoldable pub serve_fault : Request → Option Fault × Server → Response × Server
unfolding route split_path
serve_fault r (none, s) = route r (split_path r.path) s
serve_fault r (some f, s) =
    if not f.passthrough then (scripted f.status f.body, s) else route r (split_path r.path) s

-- serveHTTP
unfoldable pub serve_http : Request → Server → Response × Server
unfolding serve_fault take_fault
serve_http r s = serve_fault r (
    take_fault r.method r.path
      (record s { trace = s.trace ++ String.◌++◌ r.method (String.◌++◌ " " r.path) ∷ [] }))
