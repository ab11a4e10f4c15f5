-- ===== src/Workflow/Engine.antt =====
-- core/workflow/engine.go, with GetOrCreateStream and Cleanup of stream_manager.go and Schedule's
-- callback of timeout.go. A step index out of range, where Go panics, is an error value. Contexts
-- are not modelled: a goroutine that waits for a decision is not given up.
pub mod Outcomes
use baran_os.Base.{
  ℕ, ◌+◌, List, [], ◌∷◌, ◌++◌, length, get_elem?, GoString, codes, lookup, insert, delete, Option,
  none, some, Bool, ltb, if◌then◌else◌, Error, Result, ok, err, Exec, pure, raise, reads, lift,
  attempt, ◌>>=◌, ◌>>◌, u32, index_out_of_range,
}
use baran_os.Registry.{AgentRegistration}
use baran_os.Workflow.Types.{
  Status, running, completed, failed, is_running, is_failure, success, StepDefinition,
  WorkflowDefinition, WorkflowState, WorkflowError, StepResult, new_error,
}
use baran_os.Workflow.World.{
  World, Engine, Timer, step_timer, decision_timer, Delivery, timeout_of, engine_event, load, save,
  create, schedule, cancel, draw_uuid, clock, route,
}
use baran_os.Workflow.Coordinator.{request_decision, handle_timeout}

abbrev pub agent_unavailable : GoString
agent_unavailable = codes "AGENT_UNAVAILABLE"

abbrev pub step_timeout : GoString
step_timeout = codes "STEP_TIMEOUT"

abbrev pub step_failed : GoString
step_failed = codes "STEP_FAILED"

abbrev pub workflow_engine : GoString
workflow_engine = codes "workflow-engine"

-- the step at an index
step_at : List StepDefinition → ℕ → Result StepDefinition
step_at steps n = elim (get_elem? steps n) [ some step ↦ ok step | none ↦ err index_out_of_range ]

-- the error that a failed step result carries, or one that says it failed
abbrev pub failure_of : StepResult → WorkflowError
failure_of result = elim result.error [
  | some e ↦ e
  | none ↦ new_error step_failed result.step_index result.agent_id
]

-- the state with a result appended, at the next step
abbrev pub stepped : WorkflowState → StepResult → ℕ → WorkflowState
stepped state result now = record state {
  step_results = state.step_results ++ result ∷ [];
  current_step = u32 (state.current_step + 1);
  updated_at = now;
}

abbrev pub finished : WorkflowState → ℕ → WorkflowState
finished state now = record state { status = completed; updated_at = now }

abbrev pub failed_with : WorkflowState → WorkflowError → ℕ → WorkflowState
failed_with state e now = record state { status = failed; error = some e; updated_at = now }

abbrev pub assigned : WorkflowState → GoString → ℕ → WorkflowState
assigned state agent now = record state { assigned_agent = agent; updated_at = now }

module _ {B E V : Type 0} (g : Engine B E V) where
  -- an event of the engine for its workflow, with the payload's bytes
  pub engine_routes : GoString → GoString → GoString → ℕ → GoString → Exec (World B E) Unit
  engine_routes type target id now payload = do
    event ← draw_uuid g
    route g (engine_event event type g.node_id workflow_engine target id now payload)

  -- GetOrCreateStream
  unfoldable pub get_or_create_stream : GoString → Exec (World B E) GoString
  get_or_create_stream id w = elim (lookup id w.streams) [
    | some _ ↦ (ok (codes "WF-" ++ id), w)
    | none ↦ (elim (g.ensure_stream id w.env) [
      | err e ↦ (err e, w)
      | ok _ ↦
          (ok (codes "WF-" ++ id), record w { streams = insert id (codes "WF-" ++ id) w.streams })
    ])
  ]

  -- Cleanup
  unfoldable pub cleanup : GoString → Exec (World B E) Unit
  cleanup id w = (ok tt, record w { streams = delete id w.streams })

  -- what follows a transition's write: a conflict ends it, otherwise the event is routed and the
  -- stream is forgotten
  pub announce : GoString → Result Unit → Result GoString → GoString → ℕ → Exec (World B E) Unit
  unfolding engine_routes cleanup
  announce id (err _) bytes type now = pure tt
  announce id (ok _) bytes type now = do
    payload ← lift bytes
    engine_routes type [] id now payload
    cleanup id

  -- failWorkflowWithError
  unfoldable pub fail_workflow_with_error :
      GoString → WorkflowState → ℕ → WorkflowError → Exec (World B E) Unit
  unfolding announce
  fail_workflow_with_error id state revision e = do
    cancel g id
    now ← reads (clock g)
    saved ← attempt (save g id (failed_with state e now) revision)
    announce id saved (g.marshal_failed (failed_with state e now) e now) (codes "workflow.failed")
        now

  -- completeWorkflow
  unfoldable pub complete_workflow : GoString → WorkflowState → ℕ → Exec (World B E) Unit
  unfolding announce
  complete_workflow id state revision = do
    now ← reads (clock g)
    saved ← attempt (save g id (finished state now) revision)
    announce id saved (g.marshal_complete (finished state now) now) (codes "workflow.complete") now

  -- dispatchStep, once the state is assigned to the agent
  pub send_step :
      GoString → WorkflowState → StepDefinition → ℕ → GoString → Result Unit → Exec (World B E) Unit
  unfolding engine_routes
  send_step id state step index agent (err _) = pure tt
  send_step id state step index agent (ok _) = do
    payload ← lift (g.marshal_step index id state.step_results step)
    now ← reads (clock g)
    engine_routes (codes "workflow.step") [] id now payload
    engine_routes (codes "workflow.step") agent id now payload
    schedule g id (step_timer index agent (timeout_of step g.default_timeout))

  -- dispatchStep, once the agents are looked up
  assign :
      GoString
      → WorkflowState
      → ℕ
      → StepDefinition
      → ℕ
      → Result (List AgentRegistration)
      → Exec (World B E) Unit
  unfolding send_step
  assign id state revision step index (err _) =
      fail_workflow_with_error id state revision (new_error agent_unavailable index [])
  assign id state revision step index (ok []) =
      fail_workflow_with_error id state revision (new_error agent_unavailable index [])
  assign id state revision step index (ok (agent ∷ _)) = do
    now ← reads (clock g)
    saved ← attempt (save g id (assigned state agent.agent_id now) revision)
    send_step id state step index agent.agent_id saved

  -- dispatchStep
  unfoldable pub dispatch_step : GoString → ℕ → Exec (World B E) Unit
  unfolding step_at assign
  dispatch_step id index = do
    (state, revision) ← reads (load g id)
    step ← lift (step_at state.definition.steps index)
    if step.human_approval then request_decision g id state revision step index else λ w.
        assign id state revision step index (g.find_by_capability step.capability w.env) w

  -- startWorkflow
  unfoldable pub start_workflow : WorkflowDefinition → Exec (World B E) Unit
  start_workflow def = do
    id ← draw_uuid g
    now ← reads (clock g)
    create g id (record {
      workflow_id = id;
      status = running;
      definition = def;
      current_step = 0;
      step_results = [];
      assigned_agent = [];
      error = none;
      pending_decision = none;
      created_at = now;
      updated_at = now;
    })
    stream ← get_or_create_stream id
    reads (λ w. g.subscribe stream w.env)
    dispatch_step id 0

  next_step : GoString → ℕ → Result Unit → Exec (World B E) Unit
  next_step id index (err _) = pure tt
  next_step id index (ok _) = dispatch_step id index

  -- advanceWorkflow, for a result that is not a failure
  pub proceed : GoString → WorkflowState → ℕ → Exec (World B E) Unit
  unfolding next_step
  proceed id state revision =
      if ltb state.current_step (length state.definition.steps)
      then (do saved ← attempt (save g id state revision); next_step id state.current_step saved)
      else complete_workflow id state revision

  -- advanceWorkflow
  unfoldable pub advance_workflow :
      GoString → WorkflowState → ℕ → StepResult → Exec (World B E) Unit
  unfolding proceed
  advance_workflow id state revision result = do
    cancel g id
    if is_failure result.status
        then fail_workflow_with_error id state revision (failure_of result)
        else (do now ← reads (clock g); proceed id (stepped state result now) revision)

  -- resumeAfterApproval
  unfoldable pub resume_after_approval : GoString → ℕ → GoString → World B E → World B E
  resume_after_approval id index bytes w = elim (load g id w) [
    | err _ ↦ w
    | ok (state, revision) ↦
        if is_running state.status
        then (advance_workflow id state revision
            (record {
              step_index = index;
              agent_id = codes "human-operator";
              status = success;
              result = bytes;
              error = none;
              completed_at = g.now w.env;
            })
            w).1
        else w
  ]

  unfoldable pub resumed : Delivery → World B E → World B E
  resumed d w =
      if d.approved
      then resume_after_approval d.workflow_id d.step_index
          (elim d.response [ some bytes ↦ bytes | none ↦ [] ]) w
      else w

  -- the goroutine of dispatchHumanStep that the first result on its way wakes
  unfoldable pub deliver : World B E → World B E
  unfolding resumed
  deliver w = elim w.deliveries [ [] ↦ w | d ∷ ds ↦ resumed d (record w { deliveries = ds }) ]

  -- the callback of dispatchStep's timer
  unfoldable pub time_out_step : GoString → ℕ → GoString → World B E → World B E
  time_out_step id index agent w = elim (load g id w) [
    | err _ ↦ w
    | ok (state, revision) ↦
        if is_running state.status
        then (fail_workflow_with_error id state revision (new_error step_timeout index agent) w).1
        else w
  ]

  expired : GoString → Timer → World B E → World B E
  expired id (step_timer index agent _) w = time_out_step id index agent w
  expired id (decision_timer decision index _) w = (handle_timeout g id decision index w).1

  -- the timer of a workflow fires
  unfoldable pub fire_timer : GoString → World B E → World B E
  unfolding expired
  fire_timer id w = elim (lookup id w.timers) [
    | none ↦ w
    | some timer ↦ expired id timer (record w { timers = delete id w.timers })
  ]
