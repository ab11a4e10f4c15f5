-- ===== src/Tests/Workflows.antt =====
-- Workflows on one node: the engine, the coordinator and the handlers at concrete states.
use baran_os.Base.{
  ℕ, ◌<◌, ◌≡◌, ◌≢◌, ◌↔◌, refl, List, [], ◌∷◌, GoString, codes, lookup, delete, str_eq, none, some,
  Bool, true, false, ok, err, invalid_definition, unavailable,
}
use baran_os.Kv.Memory.{Bucket, memory, memory-IsKeyValue, plain, plain-IsCodec, empty}
use baran_os.Eventbus.{Event}
use baran_os.Registry.{AgentRegistration, active}
use baran_os.Workflow.Types.{
  running, completed, failed, waiting_human, success, failure, StepDefinition, WorkflowDefinition,
  WorkflowState, PendingDecision,
}
use baran_os.Workflow.World.{
  World, Engine, Output, step_timer, decision_timer, routed, DecisionResponse, engine_event, load,
}
use baran_os.Workflow.World.Saving.{EngineLaws}
use baran_os.Workflow.Coordinator.{process_response, handle_timeout}
use baran_os.Workflow.Coordinator.Decisions.{answer_recorded}
use baran_os.Workflow.Coordinator.{request_decision}
use baran_os.Workflow.Coordinator.Waiting.{human_step_waits}
use baran_os.Workflow.Definition.{workflow_definition_from_proto}
use baran_os.Workflow.Definition.Valid.{definition_exact, IsValidDefinition}
use baran_os.Workflow.Engine.{
  advance_workflow, dispatch_step, deliver, resume_after_approval, time_out_step, workflow_engine,
}
use baran_os.Workflow.Engine.Outcomes.{Stored}
use baran_os.Workflow.Engine.Outcomes.NextStep.{next_agent_gets_step}
use baran_os.Workflow.Engine.Outcomes.Transitions.{conflict_advances_nothing, agent_gets_step}
use baran_os.Workflow.Handler.{
  StepResultPayload, received, handle_workflow_step_result, handle_workflow_start,
  handle_decision_response,
}
use baran_os.Workflow.Handler.Starting.{start_dispatches}
use baran_os.Workflow.Handler.Requests.{
  terminal_absorbs, approval_completes, any_result_completes, any_failure_fails,
}
use baran_os.A2a.{
  TaskManager, Answer, task_failed, canceled, refused, task_not_cancelable, task_now, get_task,
  cancel_task,
}
use baran_os.A2a.Cancelling.{canceled_task_ends}

abbrev id : GoString
id = codes "wf1"

abbrev worker : AgentRegistration
worker = record {
  agent_id = codes "worker";
  agent_type = codes "llm";
  version = codes "1";
  capabilities = [];
  labels = [];
  status = active;
  last_seen = 0;
  missed_heartbeats = 0;
  node_id = codes "n1";
  origin = [];
  revision = 1;
}

-- a node whose registry finds the given agents for every capability
abbrev node_with : List AgentRegistration → Engine (Bucket WorkflowState) Unit WorkflowState
node_with agents = record {
  kv = memory WorkflowState;
  codec = plain WorkflowState;
  find_by_capability = λ c e. ok agents;
  router_takes = λ m e. ok tt;
  bus_takes = λ m e. ok tt;
  ensure_stream = λ i e. ok tt;
  subscribe = λ s e. ok tt;
  uuid = λ n. n ∷ [];
  now = λ e. 7;
  marshal_step = λ i w rs s. ok s.name;
  marshal_complete = λ s n. ok s.workflow_id;
  marshal_failed = λ s e n. ok s.workflow_id;
  marshal_request = λ d s rs. ok d.decision_id;
  marshal_recovered = λ d s. ok d.decision_id;
  marshal_resolved = λ d g ids. ok d.decision_id;
  marshal_conflict = λ g ds ws rs. ok g;
  marshal_error = λ c w. ok c;
  marshal_state = λ s. ok s.workflow_id;
  node_id = codes "n1";
  default_timeout = 30000000000;
}

abbrev node : Engine (Bucket WorkflowState) Unit WorkflowState
node = node_with (worker ∷ [])

node_laws : EngineLaws node
node_laws = (memory-IsKeyValue, plain-IsCodec)

abbrev agent_step : StepDefinition
agent_step = record {
  name = codes "scan";
  capability = codes "security.scan";
  timeout_seconds = 5;
  input = [];
  human_approval = false;
  prompt = [];
  resource_ids = [];
}

abbrev one_step : WorkflowDefinition
one_step = record { name = codes "audit"; steps = agent_step ∷ []; initiator = [] }

abbrev decision : PendingDecision
decision = record {
  decision_id = codes "d1";
  workflow_id = id;
  step_index = 0;
  step_name = [];
  prompt = [];
  resource_ids = [];
  requested_at = 1;
  conflict_ids = [];
}

abbrev at_work : WorkflowState
at_work = record {
  workflow_id = id;
  status = running;
  definition = one_step;
  current_step = 0;
  step_results = [];
  assigned_agent = [];
  error = none;
  pending_decision = none;
  created_at = 1;
  updated_at = 1;
}

abbrev asking : WorkflowState
asking = record at_work { status = waiting_human; pending_decision = some decision }

abbrev human_step : StepDefinition
human_step = record agent_step { human_approval = true; timeout_seconds = 0 }

-- the decision that the node asks for, under its first UUID
abbrev asked : PendingDecision
asked = record {
  decision_id = 0 ∷ [];
  workflow_id = id;
  step_index = 0;
  step_name = codes "scan";
  prompt = [];
  resource_ids = [];
  requested_at = 7;
  conflict_ids = [];
}

abbrev over : WorkflowState
over = record at_work { status = completed }

-- the world in which the workflow is in a state, at revision 3
abbrev world_of : WorkflowState → World (Bucket WorkflowState) Unit
world_of st = record {
  bucket = record { sequence = 3; entries = (id, record { value = st; revision = 3 }) ∷ [] };
  env = tt;
  outputs = [];
  timers = (id, step_timer 0 (codes "worker") 5000000000) ∷ [];
  streams = [];
  pending = (codes "d1", decision) ∷ [];
  groups = [];
  resume = (id, 0) ∷ [];
  deliveries = [];
  uuids = 0;
}

stored_at_work : load node id (world_of at_work) ≡ ok (at_work, 3)
unfolding load memory
stored_at_work = refl

stored_asking : load node id (world_of asking) ≡ ok (asking, 3)
unfolding load memory
stored_asking = refl

stored_over : load node id (world_of over) ≡ ok (over, 3)
unfolding load memory
stored_over = refl

other_revision : ◌≢◌ {A = ℕ} 3 2
other_revision p = cc

abbrev event : Event
event =
    engine_event (codes "e1") (codes "workflow.step.result") (codes "n2") (codes "worker") [] id 5
      []

abbrev good : StepResultPayload
good = record { step_index = 4; status = success; result = codes "fine"; error = none }

abbrev bad : StepResultPayload
bad = record { step_index = 0; status = failure; result = []; error = none }

abbrev answer : Bool → DecisionResponse
answer agrees = record {
  decision_id = codes "d1";
  workflow_id = id;
  approves = agrees;
  bytes = codes "ok";
}

terminal_absorbs_example :
    (handle_workflow_step_result node event (ok good) (world_of over) ≡ (ok tt, world_of over))
    × (handle_decision_response node event (ok (answer true)) (world_of over)
        ≡ (ok tt, world_of over))
    × (handle_timeout node id (codes "d1") 0 (world_of over) ≡ (ok tt, world_of over))
    × (time_out_step node id 0 (codes "worker") (world_of over) ≡ world_of over)
    × (resume_after_approval node id 0 (codes "ok") (world_of over) ≡ world_of over)
terminal_absorbs_example =
    terminal_absorbs node (world_of over) id over 3 event good (codes "d1") (codes "worker")
      (codes "ok") true 0 stored_over refl refl refl

approval_completes_example :
    Stored node id 3
      (deliver node (handle_decision_response node event (ok (answer true)) (world_of asking)).1)
      (record asking {
        status = completed;
        pending_decision = none;
        current_step = 1;
        step_results =
            record {
              step_index = 0;
              agent_id = codes "human-operator";
              status = success;
              result = codes "ok";
              error = none;
              completed_at = 7;
            }
            ∷ [];
        updated_at = 7;
      })
unfolding str_eq lookup
approval_completes_example =
    approval_completes node node_laws (world_of asking) event (answer true) asking 3 0 stored_asking
      refl refl refl refl refl

-- the result names another step, and the workflow waits for a human
any_result_completes_example :
    Stored node id 3
      (handle_workflow_step_result node event (ok good) (world_of asking)).1
      (record asking {
        status = completed;
        current_step = 1;
        step_results = received good (codes "worker") 7 ∷ [];
        updated_at = 7;
      })
    × (lookup id (handle_workflow_step_result node event (ok good) (world_of asking)).1.timers
        ≡ none)
any_result_completes_example =
    any_result_completes node node_laws (world_of asking) event asking 3 stored_asking refl refl
      good refl refl

any_failure_fails_example :
    Stored node id 3
      (handle_workflow_step_result node event (ok bad) (world_of at_work)).1
      (record at_work {
        status = failed;
        error =
            some (record { code = codes "STEP_FAILED"; step_index = 0; agent_id = codes "worker" });
        updated_at = 7;
      })
    × (lookup id (handle_workflow_step_result node event (ok bad) (world_of at_work)).1.timers
        ≡ none)
any_failure_fails_example =
    any_failure_fails node node_laws (world_of at_work) event at_work 3 stored_at_work refl refl bad
      refl

agent_gets_step_example :
    Stored node id 3
      (dispatch_step node id 0 (world_of at_work)).1
      (record at_work { assigned_agent = codes "worker"; updated_at = 7 })
    × ((dispatch_step node id 0 (world_of at_work)).1.outputs
        ≡ routed (
            engine_event
              (0 ∷ [])
              (codes "workflow.step")
              (codes "n1")
              workflow_engine
              []
              id
              7
              (codes "scan"))
          ∷ routed (
              engine_event
                (1 ∷ [])
                (codes "workflow.step")
                (codes "n1")
                workflow_engine
                (codes "worker")
                id
                7
                (codes "scan"))
          ∷ [])
    × (lookup id (dispatch_step node id 0 (world_of at_work)).1.timers
        ≡ some (step_timer 0 (codes "worker") 5000000000))
agent_gets_step_example =
    agent_gets_step node node_laws id (world_of at_work) at_work 3 stored_at_work 0 agent_step refl
      refl worker [] refl (codes "scan") refl (λ m. refl)

conflict_advances_nothing_example :
    advance_workflow node id at_work 2 (received good (codes "worker") 7) (world_of at_work)
    ≡ (ok tt, record (world_of at_work) { timers = delete id (world_of at_work).timers })
conflict_advances_nothing_example =
    conflict_advances_nothing node node_laws id (world_of at_work) at_work 3 stored_at_work at_work
      2 (received good (codes "worker") 7) other_revision

answer_recorded_example :
    ((n : ℕ) × (3 < n)
      × (load node id (process_response node (answer false) (world_of asking)).1
          ≡ ok (
            record asking {
              status = failed;
              pending_decision = none;
              error =
                  some (record { code = codes "DECISION_REJECTED"; step_index = 0; agent_id = [] });
              updated_at = 7;
            },
            n,
          )))
    × (lookup id (process_response node (answer false) (world_of asking)).1.timers ≡ none)
    × (lookup (codes "d1") (process_response node (answer false) (world_of asking)).1.pending
        ≡ none)
    × (lookup id (process_response node (answer false) (world_of asking)).1.resume ≡ none)
unfolding str_eq
answer_recorded_example =
    answer_recorded node node_laws (world_of asking) asking 3 (answer false) stored_asking refl

nothing_to_start :
    workflow_definition_from_proto (some (record one_step { steps = [] })) ≡ err invalid_definition
unfolding workflow_definition_from_proto
nothing_to_start = refl

definition_exact_example :
    (workflow_definition_from_proto (some one_step) ≡ ok one_step)
    ↔ ((some one_step ≡ some one_step) × IsValidDefinition one_step)
definition_exact_example = definition_exact (some one_step) one_step

human_step_waits_example :
    ((n : ℕ) × (3 < n)
      × (load node id (request_decision node id at_work 3 human_step 0 (world_of at_work)).1
          ≡ ok (
            record at_work {
              status = waiting_human;
              pending_decision = some asked;
              updated_at = 7;
            },
            n,
          )))
    × (lookup
          (0 ∷ [])
          (request_decision node id at_work 3 human_step 0 (world_of at_work)).1.pending
        ≡ some asked)
    × (lookup id (request_decision node id at_work 3 human_step 0 (world_of at_work)).1.resume
        ≡ some 0)
    × (lookup id (request_decision node id at_work 3 human_step 0 (world_of at_work)).1.timers
        ≡ some (decision_timer (0 ∷ []) 0 86400000000000))
    × ((request_decision node id at_work 3 human_step 0 (world_of at_work)).1.outputs
        ≡ Output.published (
            engine_event (1 ∷ []) (codes "human.decision.request") (codes "n1") [] [] id 7 (0 ∷ []))
          ∷ [])
unfolding load memory
human_step_waits_example =
    human_step_waits node node_laws (world_of at_work) id at_work 3 human_step 0 (0 ∷ [])
      stored_at_work refl refl (λ m. refl)

abbrev halfway : WorkflowState
halfway = record at_work { definition = record one_step { steps = agent_step ∷ agent_step ∷ [] } }

stored_halfway : load node id (world_of halfway) ≡ ok (halfway, 3)
unfolding load memory
stored_halfway = refl

next_agent_gets_step_example :
    Stored node id 3
      (advance_workflow node id halfway 3 (received good (codes "worker") 7) (world_of halfway)).1
      (record halfway {
        current_step = 1;
        step_results = received good (codes "worker") 7 ∷ [];
        assigned_agent = codes "worker";
        updated_at = 7;
      })
    × ((advance_workflow node id halfway 3
          (received good (codes "worker") 7)
          (world_of halfway)).1.outputs
        ≡ routed (
            engine_event
              (0 ∷ [])
              (codes "workflow.step")
              (codes "n1")
              workflow_engine
              []
              id
              7
              (codes "scan"))
          ∷ routed (
              engine_event
                (1 ∷ [])
                (codes "workflow.step")
                (codes "n1")
                workflow_engine
                (codes "worker")
                id
                7
                (codes "scan"))
          ∷ [])
    × (lookup id
          (advance_workflow node id halfway 3
            (received good (codes "worker") 7)
            (world_of halfway)).1.timers
        ≡ some (step_timer 1 (codes "worker") 5000000000))
next_agent_gets_step_example =
    next_agent_gets_step node node_laws id (world_of halfway) halfway 3
      (received good (codes "worker") 7) agent_step worker [] (codes "scan") stored_halfway refl
      refl refl refl refl refl (λ m. refl)

-- a node that has no workflow yet
abbrev new_world : World (Bucket WorkflowState) Unit
new_world = record (world_of at_work) { bucket = empty; timers = [] }

valid : workflow_definition_from_proto (some one_step) ≡ ok one_step
unfolding workflow_definition_from_proto
valid = refl

start_dispatches_example :
    ((n : ℕ) × (load node
          (0 ∷ [])
          (handle_workflow_start node event (ok (some one_step)) new_world).1
        ≡ ok (
          record at_work {
            workflow_id = 0 ∷ [];
            assigned_agent = codes "worker";
            created_at = 7;
            updated_at = 7;
          },
          n,
        )))
    × (lookup (0 ∷ []) (handle_workflow_start node event (ok (some one_step)) new_world).1.timers
        ≡ some (step_timer 0 (codes "worker") 5000000000))
unfolding memory lookup
start_dispatches_example =
    start_dispatches node node_laws new_world event one_step one_step agent_step worker []
      (codes "scan") valid refl refl refl refl refl refl refl refl (λ m. refl)

abbrev manager : TaskManager (Bucket WorkflowState) Unit WorkflowState
manager = record {
  engine = node;
  remote = record { message_send = λ u s t. err unavailable; polled = λ u t. [] };
  marshal_message = λ t. ok t;
  marshal_start = λ d. ok d.name;
}

canceled_task_ends_example :
    (b : Bucket WorkflowState) × let after = record (world_of at_work) { bucket = b } in
      (cancel_task manager id (world_of at_work)
        ≡ (Answer.answered (task_now manager id canceled (world_of at_work)), after))
      × (get_task manager id after
          ≡ Answer.answered (task_now manager id task_failed (world_of at_work)))
      × (cancel_task manager id after ≡ (refused task_not_cancelable, after))
      × ((e : Event) (payload : StepResultPayload) (step : ℕ) (agent : GoString)
          → e.workflow_id ≡ id
          → (handle_workflow_step_result node e (ok payload) after ≡ (ok tt, after))
            × (time_out_step node id step agent after ≡ after))
canceled_task_ends_example =
    canceled_task_ends manager node_laws (world_of at_work) id at_work 3 stored_at_work refl refl
