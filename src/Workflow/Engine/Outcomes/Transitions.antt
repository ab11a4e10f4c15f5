-- ===== src/Workflow/Engine/Outcomes/Transitions.antt =====
-- The transitions of one workflow (core/workflow/engine.go): advanceWorkflow on each branch,
-- dispatchStep to an agent or to none, and the step's timeout.
use baran_os.Base.{
  ℕ, suc, ◌⊎◌, inl, inr, ◌+◌, ◌≡◌, ◌≢◌, refl, sym, subst, ap, ◌∙◌, GoString, codes, List, [], ◌∷◌,
  ◌++◌, length, get_elem?, lookup, insert, delete, delete_gone, delete_twice, append_assoc,
  insert_found, none, some, true, false, Bool-cases, ltb, Error, ok, err, arith, u32,
}
use baran_os.Eventbus.{Event}
use baran_os.Registry.{AgentRegistration}
use baran_os.Workflow.Types.{
  is_running, StepDefinition, WorkflowState, StepResult, is_failure, new_error,
}
use baran_os.Workflow.World.{
  World, Engine, step_timer, Output, routed, load, cancel, schedule, draw_uuid, route, timeout_of,
  engine_event,
}
use baran_os.Workflow.World.Saving.{EngineLaws, save-fits}
use baran_os.Workflow.Engine.{
  engine_routes, fail_workflow_with_error, advance_workflow, proceed, stepped, finished,
  failed_with, assigned, failure_of, dispatch_step, assign, send_step, step_at, agent_unavailable,
  step_timeout, workflow_engine, fire_timer, expired, time_out_step,
}
use baran_os.Workflow.Engine.Outcomes.{
  load_bucket, Stored, fail-Stored, complete-Stored, fail_stale, proceed_stale,
}

module _ {B E V : Type 0} (g : Engine B E V) (laws : EngineLaws g) (id : GoString) (w : World B E)
    (st : WorkflowState) (rev : ℕ) (found : load g id w ≡ ok (st, rev)) where
  -- the world once the workflow's timer is cancelled
  abbrev cancelled : World B E
  cancelled = record w { timers = delete id w.timers }

  -- A failed result stores the failed state with the result's error, or with STEP_FAILED when it
  -- has none, at a greater revision, and the workflow's timer is gone.
  pub failed_result_fails :
      (result : StepResult)
      → is_failure result.status ≡ true
      → let after = (advance_workflow g id st rev result w).1 in
        Stored g id rev after (failed_with st (failure_of result) (g.now w.env))
        × (lookup id after.timers ≡ none)
  unfolding advance_workflow cancel
  failed_result_fails result is = rw is (
      fail-Stored g laws id cancelled st rev (load_bucket g id w cancelled refl ∙ found) st
        (failure_of result))

  -- Another result for the last step stores the completed state, with the result appended, at a
  -- greater revision, and the workflow's timer is gone.
  pub last_success_completes :
      (result : StepResult)
      → is_failure result.status ≡ false
      → ltb (u32 (st.current_step + 1)) (length st.definition.steps) ≡ false
      → let after = (advance_workflow g id st rev result w).1 in
        Stored g id rev after (finished (stepped st result (g.now w.env)) (g.now w.env))
        × (lookup id after.timers ≡ none)
  unfolding advance_workflow cancel proceed
  last_success_completes result not_failure last =
      let (kept, same) =
        complete-Stored g laws id cancelled st rev (load_bucket g id w cancelled refl ∙ found)
          (stepped st result (g.now w.env)) in
      rw (not_failure, last) (kept, ap (lookup id) same ∙ delete_gone id w.timers)

  -- Whatever the state and the result, `advanceWorkflow` at another revision than the stored one
  -- only cancels the workflow's timer, and returns no error.
  pub conflict_advances_nothing :
      (read : WorkflowState) (other : ℕ) (result : StepResult)
      → rev ≢ other
      → advance_workflow g id read other result w
        ≡ (ok tt, record w { timers = delete id w.timers })
  unfolding advance_workflow cancel
  conflict_advances_nothing read other result ne =
      let at : load g id cancelled ≡ ok (st, rev) = load_bucket g id w cancelled refl ∙ found in
      elim (Bool-cases (is_failure result.status)) [
        | inl is ↦ rw is (
            fail_stale g laws id cancelled st rev at other read (failure_of result) ne
            ∙ ap (λ t. (ok tt, record w { timers = t })) (delete_twice id w.timers))
        | inr is ↦ rw is (
            proceed_stale g laws id cancelled st rev at other (stepped read result (g.now w.env))
              ne)
      ]

  module _ (index : ℕ) (step : StepDefinition)
      (there : get_elem? st.definition.steps index ≡ some step)
      (by_agent : step.human_approval ≡ false) where
    found_step : step_at st.definition.steps index ≡ ok step
    unfolding step_at
    found_step = ground (arith, there)

    -- When no agent offers the step's capability, or the lookup fails, `dispatchStep` stores the
    -- failed state with the step's index and the code AGENT_UNAVAILABLE, and the timer is gone.
    pub no_agent_fails :
        ((g.find_by_capability step.capability w.env ≡ ok [])
          ⊎ ((e : Error) × (g.find_by_capability step.capability w.env ≡ err e)))
        → let after = (dispatch_step g id index w).1 in
          Stored g id rev after
            (failed_with st (new_error agent_unavailable index []) (g.now w.env))
          × (lookup id after.timers ≡ none)
    unfolding dispatch_step assign
    no_agent_fails (inl nobody) =
        rw (found, found_step, by_agent, nobody)
          (fail-Stored g laws id w st rev found st (new_error agent_unavailable index []))
    no_agent_fails (inr (e, broken)) =
        rw (found, found_step, by_agent, broken)
          (fail-Stored g laws id w st rev found st (new_error agent_unavailable index []))

    module _ (agent : AgentRegistration) (agents : List AgentRegistration)
        (offered : g.find_by_capability step.capability w.env ≡ ok (agent ∷ agents))
        (bytes : GoString) (marshalled : g.marshal_step index id st.step_results step ≡ ok bytes)
        (taken : (event : Event) → g.router_takes event w.env ≡ ok tt) where
      -- When an agent offers the capability and events are taken, `dispatchStep` stores the state
      -- assigned to the first agent found, routes the step's bytes once to the workflow's stream and
      -- then once to that agent, and the workflow's timer is the step's, at the step's own timeout or
      -- at the default.
      pub agent_gets_step :
          let after = (dispatch_step g id index w).1 in
          let sent : ℕ → GoString → Output = λ n target. routed (
            engine_event
              (g.uuid n)
              (codes "workflow.step")
              g.node_id
              workflow_engine
              target
              id
              (g.now w.env)
              bytes) in
          Stored g id rev after
            (record st { assigned_agent = agent.agent_id; updated_at = g.now w.env })
          × (after.outputs ≡ w.outputs ++ sent w.uuids [] ∷ sent (suc w.uuids) agent.agent_id ∷ [])
          × (lookup id after.timers
              ≡ some (step_timer index agent.agent_id (timeout_of step g.default_timeout)))
      unfolding dispatch_step assign send_step engine_routes draw_uuid route schedule
      agent_gets_step =
          let next = assigned st agent.agent_id (g.now w.env) in
          let (b, n, lt, saved, stored) = save-fits g laws id w st rev next found in
          let same : dispatch_step g id index w
              ≡ send_step g id next step index agent.agent_id (ok tt) (record w { bucket = b }) =
            ground (arith, found, found_step, by_agent, offered, saved) in
          let first : Event =
            engine_event (g.uuid w.uuids) (codes "workflow.step") g.node_id workflow_engine [] id
              (g.now w.env) bytes in
          let second : Event =
            engine_event (g.uuid (suc w.uuids)) (codes "workflow.step") g.node_id workflow_engine
              agent.agent_id id (g.now w.env) bytes in
          let done : send_step g id next step index agent.agent_id (ok tt) (record w { bucket = b })
              ≡ (
                ok tt,
                record w {
                  bucket = b;
                  outputs = (w.outputs ++ routed first ∷ []) ++ routed second ∷ [];
                  uuids = suc (suc w.uuids);
                  timers =
                      insert id
                        (step_timer index agent.agent_id (timeout_of step g.default_timeout))
                        w.timers;
                },
              ) =
            ground (arith, marshalled, taken first, taken second) in
          (
            (n, lt, stored (dispatch_step g id index w).1 (ap (λ x. x.1.bucket) (same ∙ done))),
            ap (λ x. x.1.outputs) (same ∙ done)
                ∙ append_assoc w.outputs (routed first ∷ []) (routed second ∷ []),
            ap (λ x. lookup id x.1.timers) (same ∙ done)
                ∙ insert_found id
                    (step_timer index agent.agent_id (timeout_of step g.default_timeout)) w.timers,
          )

  -- When the timer of a step fires while the workflow is running, the failed state is stored with
  -- the step, its agent and the code STEP_TIMEOUT, and the timer is gone.
  pub timeout_fails_step :
      (index duration : ℕ) (agent : GoString)
      → lookup id w.timers ≡ some (step_timer index agent duration)
      → is_running st.status ≡ true
      → let after = fire_timer g id w in
        Stored g id rev after (failed_with st (new_error step_timeout index agent) (g.now w.env))
        × (lookup id after.timers ≡ none)
  unfolding fire_timer expired time_out_step
  timeout_fails_step index duration agent armed runs =
      let at : load g id cancelled ≡ ok (st, rev) = load_bucket g id w cancelled refl ∙ found in
      let same : fire_timer g id w
          ≡ (fail_workflow_with_error g id st rev (new_error step_timeout index agent)
              cancelled).1 =
        ground (arith, armed, at, runs) in
      subst
        (λ x.
          Stored g id rev x (failed_with st (new_error step_timeout index agent) (g.now w.env))
          × (lookup id x.timers ≡ none))
        (sym same)
        (fail-Stored g laws id cancelled st rev at st (new_error step_timeout index agent))
