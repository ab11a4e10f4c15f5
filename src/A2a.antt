-- ===== src/A2a.antt =====
-- a2a/task_manager.go: tasks of the A2A protocol, which are workflows of the engine or tasks of another
-- A2A agent. Times stay in nanoseconds; JSON-RPC over HTTP is what `Remote` says.
mod Types
pub mod Cancelling
pub use Types.{
  TaskState, submitted, working, task_completed, task_failed, canceled, input_required, Task,
  TaskError, invalid_params, skill_not_found, task_not_found, task_not_cancelable, other_error,
  Answer, answered, refused, Remote, task_state, workflow_status_to_task_status,
  a2a_endpoint_from_agent, poll_until_terminal,
}
use baran_os.Base.{
  ℕ, List, [], ◌∷◌, ◌++◌, is_empty, GoString, codes, Dict, lookup, Option, none, some, Bool, true,
  false, if◌then◌else◌, str_eq, Error, Result, ok, err,
}
use baran_os.Eventbus.{Event}
use baran_os.Taxonomy.{Capability}
use baran_os.Registry.{AgentRegistration}
use baran_os.Workflow.Types.{
  Status, unspecified, created, running, completed, failed, waiting_human, is_terminal,
  StepDefinition, WorkflowDefinition, StepResult, WorkflowState,
}
use baran_os.Workflow.World.{World, Engine, load, save, publish, draw_uuid}

pub record TaskManager (B E V : Type 0) : Type 0 where
  pub engine : Engine B E V
  pub remote : Remote
  pub marshal_message : GoString → Result GoString
  pub marshal_start : WorkflowDefinition → Result GoString

module _ {B E V : Type 0} (m : TaskManager B E V) where
  -- NewTaskStatus in a Task
  abbrev pub task_now : GoString → TaskState → World B E → Task
  task_now id state w = record {
    id = id;
    state = state;
    updated_at = m.engine.now w.env;
    artifacts = [];
  }

  abbrev final_task : Option Task → Task → World B E → Task
  final_task (some t) sent w = t
  final_task none sent w = task_now sent.id submitted w

  abbrev sent_task : GoString → Result Task → World B E → Answer
  sent_task endpoint (err e) w = refused (other_error e)
  sent_task endpoint (ok t) w =
      if is_empty t.id
      then refused (other_error Error.failed)
      else answered (final_task (poll_until_terminal (m.remote.polled endpoint t.id)) t w)

  -- dispatchToVirtualAgent
  unfoldable pub dispatch_to_virtual_agent :
      AgentRegistration → GoString → GoString → World B E → Answer
  unfolding a2a_endpoint_from_agent poll_until_terminal
  dispatch_to_virtual_agent agent skill message w =
      let endpoint = a2a_endpoint_from_agent agent skill in
      if is_empty endpoint
      then refused invalid_params
      else sent_task endpoint (m.remote.message_send endpoint skill message) w

  -- the definition of createBaranWorkflow, with one step
  abbrev pub task_definition : GoString → GoString → WorkflowDefinition
  task_definition skill input = record {
    name = codes "a2a-task-" ++ skill;
    steps =
        record {
          name = skill;
          capability = skill;
          timeout_seconds = 0;
          input = input;
          human_approval = false;
          prompt = [];
          resource_ids = [];
        }
        ∷ [];
    initiator = codes "a2a-gateway";
  }

  abbrev pub start_event : GoString → GoString → GoString → World B E → Event
  start_event id workflow_id payload w = record {
    id = id;
    type = codes "workflow.start";
    source_node = [];
    source_agent = [];
    target_agent = [];
    workflow_id = [];
    correlation_id = [];
    timestamp = m.engine.now w.env;
    metadata = (codes "a2a_task", codes "true") ∷ (codes "workflow_id", workflow_id) ∷ [];
    payload = payload;
  }

  abbrev created_task : GoString → Result Unit × World B E → Answer × World B E
  created_task id (ok _, w) = (answered (task_now id submitted w), w)
  created_task id (err e, w) = (refused (other_error e), w)

  publish_start : GoString → World B E → Answer × World B E
  unfolding publish draw_uuid
  publish_start payload w =
      let workflow_id = m.engine.uuid w.uuids in
      let one = (draw_uuid m.engine w).1 in
      let event_id = m.engine.uuid one.uuids in
      let two = (draw_uuid m.engine one).1 in
      created_task workflow_id (publish m.engine (start_event event_id workflow_id payload two) two)

  -- createBaranWorkflow
  unfoldable pub create_baran_workflow : GoString → GoString → World B E → Answer × World B E
  unfolding publish_start
  create_baran_workflow skill message w = elim (m.marshal_message message) [
    | err e ↦ (refused (other_error e), w)
    | ok input ↦ (elim (m.marshal_start (task_definition skill input)) [
      | err e ↦ (refused (other_error e), w)
      | ok payload ↦ publish_start payload w
    ])
  ]

  with_best : List AgentRegistration → GoString → GoString → World B E → Answer × World B E
  unfolding create_baran_workflow dispatch_to_virtual_agent
  with_best [] skill message w = (refused skill_not_found, w)
  with_best (best ∷ others) skill message w =
      if str_eq best.origin (codes "a2a")
      then (dispatch_to_virtual_agent best skill message w, w)
      else create_baran_workflow skill message w

  -- CreateTask
  unfoldable pub create_task : GoString → GoString → World B E → Answer × World B E
  unfolding with_best
  create_task skill message w =
      if is_empty skill
      then (refused invalid_params, w)
      else (elim (m.engine.find_by_capability skill w.env) [
        | err e ↦ (refused (other_error e), w)
        | ok agents ↦ with_best agents skill message w
      ])

  -- the text of the last result, where it is not empty
  last_artifact : List StepResult → List GoString
  last_artifact [] = []
  last_artifact (r ∷ []) = if is_empty r.result then [] else r.result ∷ []
  last_artifact (r ∷ s ∷ rs) = last_artifact (s ∷ rs)

  abbrev task_artifacts : WorkflowState → List GoString
  task_artifacts s = elim s.status [
    | unspecified ↦ []
    | created ↦ []
    | running ↦ []
    | completed ↦ last_artifact s.step_results
    | failed ↦ []
    | waiting_human ↦ []
    | Status.unknown n ↦ []
  ]

  -- GetTask
  unfoldable pub get_task : GoString → World B E → Answer
  unfolding last_artifact
  get_task id w = elim (load m.engine id w) [
    | err e ↦ refused task_not_found
    | ok (s, revision) ↦ answered (record {
      id = id;
      state = (workflow_status_to_task_status s).0;
      updated_at = (workflow_status_to_task_status s).1;
      artifacts = task_artifacts s;
    })
  ]

  canceled_task : GoString → Result Unit × World B E → Answer × World B E
  canceled_task id (ok _, w) = (answered (task_now id canceled w), w)
  canceled_task id (err e, w) = (refused (other_error e), w)

  -- CancelTask
  unfoldable pub cancel_task : GoString → World B E → Answer × World B E
  unfolding canceled_task
  cancel_task id w = elim (load m.engine id w) [
    | err e ↦ (refused task_not_found, w)
    | ok (s, revision) ↦
        if is_terminal s.status
        then (refused task_not_cancelable, w)
        else canceled_task id (
            save m.engine id (record s { status = failed; updated_at = m.engine.now w.env })
              revision w)
  ]
