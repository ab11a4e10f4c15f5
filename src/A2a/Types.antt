-- ===== src/A2a/Types.antt =====
-- a2a/task_manager.go and types.go: tasks, their states, and what is read of another A2A agent.
use baran_os.Base.{
  ℕ, List, [], ◌∷◌, is_empty, GoString, codes, lookup, Option, none, some, Bool, true, false,
  if◌then◌else◌, str_eq, Error, Result, ok, err,
}
use baran_os.Taxonomy.{Capability}
use baran_os.Registry.{AgentRegistration}
use baran_os.Workflow.Types.{
  Status, unspecified, created, running, completed, failed, waiting_human, WorkflowState,
}

pub data TaskState : Type 0 where
  submitted working task_completed task_failed canceled input_required : TaskState

-- Task with its TaskStatus; an artifact is the text of its one part
pub record Task : Type 0 where
  pub id : GoString
  pub state : TaskState
  pub updated_at : ℕ
  pub artifacts : List GoString

-- A2AError by its code, and other errors
pub data TaskError : Type 0 where
  invalid_params skill_not_found task_not_found task_not_cancelable : TaskError
  other_error : Error → TaskError

pub data Answer : Type 0 where
  answered : Task → Answer
  refused : TaskError → Answer

-- What another A2A agent answers at an endpoint: to message/send for a skill and a message, and to
-- the tasks/get calls of the five minutes of polling, in their order.
pub record Remote : Type 0 where
  pub message_send : GoString → GoString → GoString → Result Task
  pub polled : GoString → GoString → List (Result Task)

-- workflowStatusToTaskStatus
abbrev pub task_state : Status → TaskState
task_state created = submitted
task_state running = working
task_state completed = task_completed
task_state failed = task_failed
task_state waiting_human = input_required
task_state unspecified = submitted
task_state (Status.unknown n) = submitted

abbrev pub workflow_status_to_task_status : WorkflowState → TaskState × ℕ
workflow_status_to_task_status s = (task_state s.status, s.updated_at)

abbrev pub is_terminal_task : TaskState → Bool
is_terminal_task task_completed = true
is_terminal_task task_failed = true
is_terminal_task canceled = true
is_terminal_task submitted = false
is_terminal_task working = false
is_terminal_task input_required = false

abbrev endpoint_key : GoString
endpoint_key = codes "a2a_endpoint"

-- an index expression on a map: the empty string for a missing key
abbrev value_or_empty : Option GoString → GoString
value_or_empty none = []
value_or_empty (some v) = v

-- the second loop of a2aEndpointFromAgent
unfoldable pub any_endpoint : List Capability → GoString
any_endpoint [] = []
any_endpoint (c ∷ cs) =
    let rest = any_endpoint cs in
    let endpoint = value_or_empty (lookup endpoint_key c.parameters) in
    if is_empty endpoint then rest else endpoint

-- the first one: the endpoint of the skill, which may be empty
unfoldable pub skill_endpoint : GoString → List Capability → Option GoString
skill_endpoint skill [] = none
skill_endpoint skill (c ∷ cs) =
    let rest = skill_endpoint skill cs in
    if str_eq c.name skill then some (value_or_empty (lookup endpoint_key c.parameters)) else rest

-- a2aEndpointFromAgent
unfoldable pub a2a_endpoint_from_agent : AgentRegistration → GoString → GoString
unfolding any_endpoint skill_endpoint
a2a_endpoint_from_agent agent skill = elim (skill_endpoint skill agent.capabilities) [
  | some endpoint ↦ endpoint
  | none ↦ any_endpoint agent.capabilities
]

-- pollUntilTerminal: an error and a task that is not at its end are polled again
unfoldable pub poll_until_terminal : List (Result Task) → Option Task
poll_until_terminal [] = none
poll_until_terminal (err e ∷ more) = poll_until_terminal more
poll_until_terminal (ok t ∷ more) =
    let rest = poll_until_terminal more in if is_terminal_task t.state then some t else rest
