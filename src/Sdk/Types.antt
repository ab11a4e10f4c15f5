-- ===== src/Sdk/Types.antt =====
-- The records and the lifecycle states of sdk/agent.go and sdk/step.go. Payloads are bytes.
use baran_os.Base.{ℕ, List, GoString, Option, Result, ok, err, failed, Bool, true, false}
use baran_os.Taxonomy.{Capability}

-- AgentState
pub data AgentState : Type 0 where
  created starting running stopping stopped : AgentState

-- a.state >= AgentStateStarting
abbrev pub has_started : AgentState → Bool
has_started created = false
has_started _ = true

-- a.state >= AgentStateStopping
abbrev pub is_stopping : AgentState → Bool
is_stopping stopping = true
is_stopping stopped = true
is_stopping _ = false

-- StepResult: the status is "SUCCESS" or "FAILURE"
pub record StepResult : Type 0 where
  pub step_index : ℕ  -- uint32
  pub status : GoString
  pub result : GoString

-- StepContext
pub record StepContext : Type 0 where
  pub workflow_id : GoString
  pub step_index : ℕ  -- uint32
  pub step_name : GoString
  pub capability : GoString
  pub input : GoString
  pub previous_results : List StepResult

-- the parts of protocolv1.WorkflowStepResult that the library reads
pub record PreviousResult : Type 0 where
  pub step_index : ℕ
  pub is_success : Bool
  pub result : GoString

-- the parts of protocolv1.StepDefinition that the library reads
pub record PayloadStep : Type 0 where
  pub name : GoString
  pub capability : GoString
  pub input : GoString

-- protocolv1.WorkflowStepPayload; a nil message or byte slice is `none`
pub record WorkflowStepPayload : Type 0 where
  pub workflow_id : GoString
  pub step_index : ℕ
  pub step : Option PayloadStep
  pub input : Option GoString
  pub previous_results : List PreviousResult

-- protocolv1.WorkflowStepResultPayload; the error is its code and its agent
pub record WorkflowStepResultPayload : Type 0 where
  pub step_index : ℕ
  pub is_success : Bool
  pub result : GoString
  pub error : Option (GoString × GoString)

-- what a call of a handler ends in
pub data Invocation : Type 0 where
  returned : GoString → Invocation
  fails : Invocation
  panics : Invocation

-- safeInvoke: a panic is recovered and becomes an error
abbrev pub safe_invoke : Invocation → Result GoString
safe_invoke (returned bytes) = ok bytes
safe_invoke fails = err failed
safe_invoke panics = err failed

-- capabilityEntry
pub record CapabilityEntry : Type 0 where
  pub cap : Capability
  pub handler : StepContext → Invocation
