-- ===== src/Workflow/Handler.antt =====
-- core/workflow/handler.go: what the engine does with each event that it is subscribed to. The
-- parameters that read payloads stand for protobuf; a handler is given what they return.
pub mod Requests
pub mod Starting
use baran_os.Base.{
  ℕ, [], GoString, codes, is_empty, Option, none, some, Bool, true, false, if◌then◌else◌, Error,
  Result, ok, err, Exec, pure, raise, reads, lift, ◌>>=◌, ◌>>◌, missing_workflow_id, not_found,
}
use baran_os.Eventbus.{Event}
use baran_os.Workflow.Types.{
  Status, completed, failed, is_terminal, StepStatus, WorkflowDefinition, WorkflowState,
  WorkflowError, StepResult,
}
use baran_os.Workflow.Definition.{workflow_definition_from_proto}
use baran_os.Workflow.World.{
  World, Engine, DecisionResponse, engine_event, load, draw_uuid, clock, publish,
}
use baran_os.Workflow.Coordinator.{process_response}
use baran_os.Workflow.Engine.{start_workflow, advance_workflow, workflow_engine}

-- The parts of a workflow.step.result
pub record StepResultPayload : Type 0 where
  pub step_index : ℕ  -- uint32
  pub status : StepStatus
  pub result : GoString
  pub error : Option WorkflowError

-- the result that is appended to the state
abbrev pub received : StepResultPayload → GoString → ℕ → StepResult
received payload agent now = record {
  step_index = payload.step_index;
  agent_id = agent;
  status = payload.status;
  result = payload.result;
  error = payload.error;
  completed_at = now;
}

module _ {B E V : Type 0} (g : Engine B E V) where
  -- publishError
  unfoldable pub publish_error : Event → GoString → Exec (World B E) Unit
  publish_error event code = do
    payload ← lift (g.marshal_error code event.workflow_id)
    id ← draw_uuid g
    now ← reads (clock g)
    publish g (engine_event id (codes "agent.error") g.node_id workflow_engine [] [] now payload)

  start_defined : Event → Result WorkflowDefinition → Exec (World B E) Unit
  start_defined event (err _) = publish_error event (codes "INVALID_DEFINITION")
  start_defined event (ok def) = start_workflow g def

  -- handleWorkflowStart
  unfoldable pub handle_workflow_start :
      Event → Result (Option WorkflowDefinition) → Exec (World B E) Unit
  unfolding start_defined
  handle_workflow_start event unmarshalled = do
    payload ← lift unmarshalled
    start_defined event (workflow_definition_from_proto payload)

  -- handleWorkflowStepResult, behind the reads
  take_result : Event → StepResultPayload → WorkflowState → ℕ → Exec (World B E) Unit
  take_result event payload state revision = if is_terminal state.status then pure tt else (do
    now ← reads (clock g)
    advance_workflow g event.workflow_id state revision (received payload event.source_agent now))

  -- handleWorkflowStepResult
  unfoldable pub handle_workflow_step_result :
      Event → Result StepResultPayload → Exec (World B E) Unit
  unfolding take_result
  handle_workflow_step_result event unmarshalled =
      if is_empty event.workflow_id then raise missing_workflow_id else (do
        payload ← lift unmarshalled
        (state, revision) ← reads (load g event.workflow_id)
        take_result event payload state revision)

  answer_state : Event → Result (WorkflowState × ℕ) → Exec (World B E) Unit
  answer_state event (err not_found) = publish_error event (codes "WORKFLOW_NOT_FOUND")
  answer_state event (err e) = raise e
  answer_state event (ok (state, _)) = do
    payload ← lift (g.marshal_state state)
    id ← draw_uuid g
    now ← reads (clock g)
    publish g
        (record (engine_event id (codes "workflow.state.response") g.node_id workflow_engine [] []
          now payload) { correlation_id = event.correlation_id })

  -- handleWorkflowStateRequest, whose payload is the workflow's id
  unfoldable pub handle_workflow_state_request : Event → Result GoString → Exec (World B E) Unit
  unfolding answer_state
  handle_workflow_state_request event unmarshalled = do
    id ← lift unmarshalled
    λ w. answer_state event (load g id w) w

  -- handleDecisionResponse
  unfoldable pub handle_decision_response : Event → Result DecisionResponse → Exec (World B E) Unit
  handle_decision_response event unmarshalled = do
    payload ← lift unmarshalled
    process_response g payload
