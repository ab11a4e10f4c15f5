-- ===== src/Workflow/Types.antt =====
-- core/workflow/types.go and errors.go. Times are in nanoseconds, payloads are bytes.
use baran_os.Base.{ℕ, List, GoString, Option, Bool, true, false}

-- WorkflowStatus
pub data Status : Type 0 where
  unspecified created running completed failed waiting_human : Status
  unknown : ℕ → Status  -- every other int

-- StepStatus
pub data StepStatus : Type 0 where
  unspecified success failure : StepStatus
  unknown : ℕ → StepStatus  -- every other int

abbrev pub is_terminal : Status → Bool
is_terminal completed = true
is_terminal failed = true
is_terminal _ = false

abbrev pub is_running : Status → Bool
is_running running = true
is_running _ = false

abbrev pub is_waiting : Status → Bool
is_waiting waiting_human = true
is_waiting _ = false

abbrev pub is_failure : StepStatus → Bool
is_failure failure = true
is_failure _ = false

pub record StepDefinition : Type 0 where
  pub name : GoString
  pub capability : GoString
  pub timeout_seconds : ℕ  -- uint32
  pub input : GoString
  pub human_approval : Bool
  pub prompt : GoString
  pub resource_ids : List GoString

pub record WorkflowDefinition : Type 0 where
  pub name : GoString
  pub steps : List StepDefinition
  pub initiator : GoString

-- WorkflowError, without its message
pub record WorkflowError : Type 0 where
  pub code : GoString
  pub step_index : ℕ  -- uint32
  pub agent_id : GoString

pub record StepResult : Type 0 where
  pub step_index : ℕ  -- uint32
  pub agent_id : GoString
  pub status : StepStatus
  pub result : GoString
  pub error : Option WorkflowError
  pub completed_at : ℕ

-- PendingDecision, without the unexported field conflictGroupID, which is not stored: the groups
-- are a map of their own in the coordinator's state.
pub record PendingDecision : Type 0 where
  pub decision_id : GoString
  pub workflow_id : GoString
  pub step_index : ℕ  -- uint32
  pub step_name : GoString
  pub prompt : GoString
  pub resource_ids : List GoString
  pub requested_at : ℕ
  pub conflict_ids : List GoString

pub record WorkflowState : Type 0 where
  pub workflow_id : GoString
  pub status : Status
  pub definition : WorkflowDefinition
  pub current_step : ℕ  -- uint32
  pub step_results : List StepResult
  pub assigned_agent : GoString
  pub error : Option WorkflowError
  pub pending_decision : Option PendingDecision
  pub created_at : ℕ
  pub updated_at : ℕ

-- newWorkflowError
abbrev pub new_error : GoString → ℕ → GoString → WorkflowError
new_error code step_index agent_id = record {
  code = code;
  step_index = step_index;
  agent_id = agent_id;
}
