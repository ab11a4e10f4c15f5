-- ===== src/Workflow/Handler/Starting.antt =====
-- How a workflow starts: handleWorkflowStart of core/workflow/handler.go, with startWorkflow,
-- GetOrCreateStream and the first dispatchStep behind it.
use baran_os.Base.{
  ℕ, zero, suc, ◌≡◌, refl, GoString, codes, [], ◌∷◌, ◌++◌, List, get_elem?, lookup, insert, none,
  some, false, ok, err, key_not_found, arith,
}
use baran_os.Eventbus.{Event}
use baran_os.Registry.{AgentRegistration}
use baran_os.Workflow.Types.{running, StepDefinition, WorkflowDefinition, WorkflowState}
use baran_os.Workflow.Definition.{workflow_definition_from_proto}
use baran_os.Workflow.World.{World, Engine, step_timer, timeout_of, load, draw_uuid}
use baran_os.Workflow.World.Saving.{EngineLaws, create-fresh}
use baran_os.Workflow.Engine.{start_workflow, get_or_create_stream, dispatch_step}
use baran_os.Workflow.Engine.Outcomes.Transitions.{agent_gets_step}
use baran_os.Workflow.Handler.{handle_workflow_start, start_defined}

-- the state that a workflow starts in
abbrev pub initial : GoString → WorkflowDefinition → ℕ → WorkflowState
initial id def now = record {
  workflow_id = id;
  status = running;
  definition = def;
  current_step = 0;
  step_results = [];
  assigned_agent = [];
  error = none;
  pending_decision = none;
  created_at = now;
  updated_at = now;
}

module _ {B E V : Type 0} (g : Engine B E V) (laws : EngineLaws g) where
  stream_made :
      (id : GoString) (w : World B E)
      → lookup id w.streams ≡ none
      → g.ensure_stream id w.env ≡ ok tt
      → get_or_create_stream g id w
        ≡ (ok (codes "WF-" ++ id), record w { streams = insert id (codes "WF-" ++ id) w.streams })
  unfolding get_or_create_stream
  stream_made id w untracked made = ground (arith, untracked, made)

  -- An accepted definition whose first step an agent offers, under a UUID that is not taken, where the
  -- stream is made, the subscription and the events are taken and the step is marshalled: a new
  -- workflow is stored, running at its first step, which is assigned to the first agent found and has
  -- its timer.
  pub start_dispatches :
      (w : World B E) (event : Event) (pb def : WorkflowDefinition) (step : StepDefinition)
      (agent : AgentRegistration) (agents : List AgentRegistration) (bytes : GoString)
      → workflow_definition_from_proto (some pb) ≡ ok def
      → g.kv.get (g.uuid w.uuids) w.bucket ≡ err key_not_found
      → lookup (g.uuid w.uuids) w.streams ≡ none
      → g.ensure_stream (g.uuid w.uuids) w.env ≡ ok tt
      → g.subscribe (codes "WF-" ++ g.uuid w.uuids) w.env ≡ ok tt
      → get_elem? def.steps zero ≡ some step
      → step.human_approval ≡ false
      → g.find_by_capability step.capability w.env ≡ ok (agent ∷ agents)
      → g.marshal_step zero (g.uuid w.uuids) [] step ≡ ok bytes
      → ((m : Event) → g.router_takes m w.env ≡ ok tt)
      → let id = g.uuid w.uuids in
        let after = (handle_workflow_start g event (ok (some pb)) w).1 in
        ((n : ℕ) × (load g id after
            ≡ ok (
              record {
                workflow_id = id;
                status = running;
                definition = def;
                current_step = 0;
                step_results = [];
                assigned_agent = agent.agent_id;
                error = none;
                pending_decision = none;
                created_at = g.now w.env;
                updated_at = g.now w.env;
              },
              n,
            )))
        × (lookup id after.timers
            ≡ some (step_timer 0 agent.agent_id (timeout_of step g.default_timeout)))
  unfolding handle_workflow_start start_defined start_workflow draw_uuid
  start_dispatches w event pb def step agent agents bytes accepted fresh untracked made heard there
        by_agent offered marshalled taken =
      let id : GoString = g.uuid w.uuids in
      let u : World B E = record w { uuids = suc w.uuids } in
      let (b, n, created, stored) = create-fresh g laws id u (initial id def (g.now w.env)) fresh in
      let v : World B E = record u {
        bucket = b;
        streams = insert id (codes "WF-" ++ id) w.streams;
      } in
      let same : handle_workflow_start g event (ok (some pb)) w ≡ dispatch_step g id 0 v =
        rw (accepted, created, stream_made id (record u { bucket = b }) untracked made)
          (ground (arith, heard)) in
      let ((m, _, kept), _, timer) =
        agent_gets_step g laws id v (initial id def (g.now w.env)) n (stored v refl) 0 step there
          by_agent agent agents offered bytes marshalled taken in
      rw same ((m, kept), timer)
