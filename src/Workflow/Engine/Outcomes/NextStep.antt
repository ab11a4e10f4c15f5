-- ===== src/Workflow/Engine/Outcomes/NextStep.antt =====
-- From one step of a workflow to the next (core/workflow/engine.go): advanceWorkflow where steps are
-- left, with the dispatchStep behind it.
use baran_os.Base.{
  ℕ, suc, ◌+◌, ◌%◌, ◌^◌, ◌≡◌, refl, ◌∙◌, GoString, codes, List, [], ◌∷◌, ◌++◌, length, get_elem?,
  lookup, delete, some, true, false, ltb, u32, ok, arith,
}
use baran_os.Eventbus.{Event}
use baran_os.Registry.{AgentRegistration}
use baran_os.Workflow.Types.{is_failure, StepDefinition, WorkflowState, StepResult}
use baran_os.Workflow.World.{
  World, Engine, Output, routed, step_timer, timeout_of, engine_event, load, cancel,
}
use baran_os.Workflow.World.Saving.{EngineLaws, save-fits}
use baran_os.Workflow.Engine.{
  advance_workflow, proceed, next_step, dispatch_step, stepped, workflow_engine,
}
use baran_os.Workflow.Engine.Outcomes.{Stored, load_bucket}
use baran_os.Workflow.Engine.Outcomes.Transitions.{agent_gets_step}

module _ {B E V : Type 0} (g : Engine B E V) (laws : EngineLaws g) where
  -- A result that is not a failure, where a step is left that an agent offers: the result is stored,
  -- the next step is assigned to the first agent found, routed once to the workflow's stream and then
  -- once to that agent, with all results so far, and the workflow's timer is the next step's. The
  -- events are taken and the step is marshalled.
  pub next_agent_gets_step :
      (id : GoString) (w : World B E) (st : WorkflowState) (rev : ℕ) (result : StepResult)
      (step : StepDefinition) (agent : AgentRegistration) (agents : List AgentRegistration)
      (bytes : GoString)
      → load g id w ≡ ok (st, rev)
      → is_failure result.status ≡ false
      → ltb (u32 (st.current_step + 1)) (length st.definition.steps) ≡ true
      → get_elem? st.definition.steps (u32 (st.current_step + 1)) ≡ some step
      → step.human_approval ≡ false
      → g.find_by_capability step.capability w.env ≡ ok (agent ∷ agents)
      → g.marshal_step (u32 (st.current_step + 1)) id (st.step_results ++ result ∷ []) step
        ≡ ok bytes
      → ((event : Event) → g.router_takes event w.env ≡ ok tt)
      → let after = (advance_workflow g id st rev result w).1 in
        let sent : ℕ → GoString → Output = λ n target. routed (
          engine_event
            (g.uuid n)
            (codes "workflow.step")
            g.node_id
            workflow_engine
            target
            id
            (g.now w.env)
            bytes) in
        Stored g id rev after (record st {
          current_step = (st.current_step + 1) % 2 ^ 32;
          step_results = st.step_results ++ result ∷ [];
          assigned_agent = agent.agent_id;
          updated_at = g.now w.env;
        })
        × (after.outputs ≡ w.outputs ++ sent w.uuids [] ∷ sent (suc w.uuids) agent.agent_id ∷ [])
        × (lookup id after.timers
            ≡ some (
                step_timer
                  (u32 (st.current_step + 1))
                  agent.agent_id
                  (timeout_of step g.default_timeout)))
  unfolding advance_workflow cancel proceed next_step
  next_agent_gets_step id w st rev result step agent agents bytes found good more there by_agent
        offered marshalled taken =
      let u : World B E = record w { timers = delete id w.timers } in
      let next : WorkflowState = stepped st result (g.now w.env) in
      let (b, n, lt, saved, stored) =
        save-fits g laws id u st rev next (load_bucket g id w u refl ∙ found) in
      let v : World B E = record u { bucket = b } in
      let same : advance_workflow g id st rev result w
          ≡ dispatch_step g id (u32 (st.current_step + 1)) v =
        rw (good, more, saved) refl in
      let ((m, further, kept), outputs, timer) =
        agent_gets_step g laws id v next n (stored v refl) (u32 (st.current_step + 1)) step there
          by_agent agent agents offered bytes marshalled taken in
      rw same ((m, omega (arith, lt, further), kept), outputs, timer)
