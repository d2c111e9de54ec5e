-- ===== src/Fake/Messages.antt =====
-- fakenomad/fakenomad.go: what the handlers read of a request's body (registerJob, taskCommand) and
-- what they answer.
use gc_runtime_nomad.Base.{
  ℕ, Option, none, some, List, [], ◌∷◌, ◌++◌, String, Dict, str_eq, if◌then◌else◌,
}
use gc_runtime_nomad.Fake.State.{TemplateSpec, TaskSpec, Job, Allocation}

pub record JobListEntry : Type 0 where
  pub id : String
  pub parent_id : String
  pub namespace : String
  pub node_pool : String
  pub status : String
  pub meta : Option (Dict String)

pub data Response : Type 0 where
  json_error : (status : ℕ) (text : String) → Response
  -- a scripted fault's answer
  scripted : (status : ℕ) (body : String) → Response
  registered : (index : ℕ) → Response
  job_list : (index : ℕ) (entries : List JobListEntry) → Response
  dispatched : (child : String) (index : ℕ) → Response
  job_read : (index : ℕ) (job : Job) → Response
  alloc_list : (index : ℕ) (allocs : List Allocation) → Response
  alloc_read : (index : ℕ) (alloc : Allocation) → Response
  deregistered : (index : ℕ) → Response
  content : (body : String) → Response
  collected : Response
  -- the connection is handed to the exec stream (fakenomad/ws.go)
  exec_stream : (alloc : String) → Response

-- What the type assertions of taskCommand find: the command if it is a text, and the arguments if
-- they are a list, each if it is a text.
pub record TaskConfig : Type 0 where
  pub command : Option String
  pub args : List (Option String)

pub record RequestTask : Type 0 where
  pub name : String
  pub config : TaskConfig
  pub env : Dict String
  pub templates : List TemplateSpec

-- A task group by its tasks and the labels of its networks' dynamic ports.
pub record RequestGroup : Type 0 where
  pub networks : List (List String)
  pub tasks : List RequestTask

pub record JobSpec : Type 0 where
  pub id : String
  pub namespace : String
  pub node_pool : String
  pub meta : Dict String
  pub task_groups : List RequestGroup

unfoldable pub texts : List (Option String) → List String
texts [] = []
texts (none ∷ args) = texts args
texts (some a ∷ args) = a ∷ texts args

-- taskCommand
unfoldable pub task_command : TaskConfig → List String
unfolding texts
task_command config = elim config.command [
  | none ↦ []
  | some command ↦ if str_eq command "" then [] else command ∷ texts config.args
]

unfoldable pub task_specs : List RequestTask → List TaskSpec
unfolding task_command
task_specs [] = []
task_specs (t ∷ tasks) =
    (record {
      name = t.name;
      command = task_command t.config;
      env = t.env;
      templates = t.templates;
    })
    ∷ task_specs tasks

unfoldable pub port_labels : List (List String) → List String
port_labels [] = []
port_labels (labels ∷ networks) = labels ++ port_labels networks

unfoldable pub or_else : String → String → String
or_else value other = if str_eq value "" then other else value

-- The first group's tasks and port labels.
unfoldable pub first_group : List RequestGroup → List TaskSpec × List String
unfolding task_specs port_labels
first_group [] = ([], [])
first_group (g ∷ _) = (task_specs g.tasks, port_labels g.networks)
