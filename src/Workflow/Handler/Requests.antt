-- ===== src/Workflow/Handler/Requests.antt =====
-- What each event does to a workflow as a whole: the handlers of core/workflow/handler.go, with the
-- transitions of engine.go and the decisions of coordinator.go behind them.
use baran_os.Base.{
  ℕ, ◌+◌, ◌%◌, ◌^◌, ◌≡◌, ◌⊎◌, refl, subst, ap, ◌∙◌, GoString, codes, [], ◌∷◌, ◌++◌, length,
  is_empty, lookup, Option, none, some, Bool, true, false, ltb, Error, Result, ok, err, arith, u32,
  missing_workflow_id,
}
use baran_os.Eventbus.{Event}
use baran_os.Workflow.Types.{
  completed, failed, success, is_terminal, is_failure, WorkflowDefinition, WorkflowState,
  StepResult,
}
use baran_os.Workflow.World.{World, Engine, DecisionResponse, load, publish, draw_uuid}
use baran_os.Workflow.World.Saving.{EngineLaws}
use baran_os.Workflow.Coordinator.{process_response, handle_timeout, awaits, answered}
use baran_os.Workflow.Coordinator.Decisions.{recorded}
use baran_os.Workflow.Definition.{workflow_definition_from_proto}
use baran_os.Workflow.Engine.{
  advance_workflow, resume_after_approval, resumed, deliver, time_out_step, stepped, finished,
}
use baran_os.Workflow.Engine.Outcomes.{Stored, load_bucket}
use baran_os.Workflow.Engine.Outcomes.Transitions.{last_success_completes, failed_result_fails}
use baran_os.Workflow.Handler.{
  StepResultPayload, received, handle_workflow_step_result, take_result, handle_decision_response,
  handle_workflow_start, start_defined, publish_error,
}

module _ {B E V : Type 0} (g : Engine B E V) where
  -- A completed or failed workflow is left as it is by a step result, by an operator's answer to any
  -- decision, by a decision's or a step's timeout, and by a late approval.
  pub terminal_absorbs :
      (w : World B E) (id : GoString) (st : WorkflowState) (rev : ℕ) (event : Event)
      (payload : StepResultPayload) (decision agent bytes : GoString) (approves : Bool) (step : ℕ)
      → load g id w ≡ ok (st, rev)
      → is_terminal st.status ≡ true
      → event.workflow_id ≡ id
      → is_empty id ≡ false
      → let resp : DecisionResponse = record {
        decision_id = decision;
        workflow_id = id;
        approves = approves;
        bytes = bytes;
      } in
        (handle_workflow_step_result g event (ok payload) w ≡ (ok tt, w))
        × (handle_decision_response g event (ok resp) w ≡ (ok tt, w))
        × (handle_timeout g id decision step w ≡ (ok tt, w))
        × (time_out_step g id step agent w ≡ w)
        × (resume_after_approval g id step bytes w ≡ w)
  unfolding handle_workflow_step_result take_result handle_decision_response process_response
      handle_timeout time_out_step resume_after_approval
  terminal_absorbs w id st rev event payload decision agent bytes approves step found ended same
        named =
      let u : World B E = w in
      (
        ground (arith, found, ended, same, named),
        ground (arith, found, ended),
        ground (arith, found, ended),
        ground (arith, found, ended),
        ground (arith, found, ended),
      )

  -- A step result that cannot be used, for want of a workflow id, of a readable payload or of a
  -- readable state, is refused with the error of that, and nothing changes.
  pub refused_unchanged :
      (w : World B E) (event : Event) (unmarshalled : Result StepResultPayload)
      (payload : StepResultPayload) (e : Error)
      → ((is_empty event.workflow_id ≡ true) × (e ≡ missing_workflow_id))
        ⊎ ((is_empty event.workflow_id ≡ false) × (unmarshalled ≡ err e))
        ⊎ ((is_empty event.workflow_id ≡ false)
            × (unmarshalled ≡ ok payload)
            × (load g event.workflow_id w ≡ err e))
      → handle_workflow_step_result g event unmarshalled w ≡ (err e, w)
  unfolding handle_workflow_step_result
  refused_unchanged w event unmarshalled payload e why = ground (arith, why)

  -- An invalid definition starts nothing: store, timers, streams and pending decisions are as before.
  pub invalid_starts_nothing :
      (w : World B E) (event : Event) (pb : Option WorkflowDefinition) (e : Error)
      → workflow_definition_from_proto pb ≡ err e
      → let after = (handle_workflow_start g event (ok pb) w).1 in
        (after.bucket ≡ w.bucket)
        × (after.timers ≡ w.timers)
        × (after.streams ≡ w.streams)
        × (after.pending ≡ w.pending)
  unfolding handle_workflow_start start_defined publish_error draw_uuid publish
  invalid_starts_nothing w event pb e bad = ground (arith, bad)

  module _ (laws : EngineLaws g) (w : World B E) (event : Event) (st : WorkflowState) (rev : ℕ)
      (found : load g event.workflow_id w ≡ ok (st, rev))
      (named : is_empty event.workflow_id ≡ false) (unended : is_terminal st.status ≡ false)
      (payload : StepResultPayload) where
    -- At the last step a result that is not a failure completes a workflow that has not ended, with
    -- the result appended: whatever step the result names, whoever sent it, and also while the
    -- workflow waits for a human's approval, which stays pending in the stored state.
    pub any_result_completes :
        is_failure payload.status ≡ false
        → ltb (u32 (st.current_step + 1)) (length st.definition.steps) ≡ false
        → let after = (handle_workflow_step_result g event (ok payload) w).1 in
          Stored g event.workflow_id rev after (record st {
            status = completed;
            current_step = (st.current_step + 1) % 2 ^ 32;
            step_results =
                st.step_results
                ++ record {
                  step_index = payload.step_index;
                  agent_id = event.source_agent;
                  status = payload.status;
                  result = payload.result;
                  error = payload.error;
                  completed_at = g.now w.env;
                }
                  ∷ [];
            updated_at = g.now w.env;
          })
          × (lookup event.workflow_id after.timers ≡ none)
    unfolding handle_workflow_step_result take_result
    any_result_completes good last =
        rw (named, found, unended)
          (last_success_completes g laws event.workflow_id w st rev found
            (received payload event.source_agent (g.now w.env)) good last)

    -- A failed step result fails a workflow that has not ended, at any of its steps, with the error
    -- that the result carries or else STEP_FAILED.
    pub any_failure_fails :
        is_failure payload.status ≡ true
        → let after = (handle_workflow_step_result g event (ok payload) w).1 in
          Stored g event.workflow_id rev after (record st {
            status = failed;
            error = some (elim payload.error [
              | some carried ↦ carried
              | none ↦ record {
                code = codes "STEP_FAILED";
                step_index = payload.step_index;
                agent_id = event.source_agent;
              }
            ]);
            updated_at = g.now w.env;
          })
          × (lookup event.workflow_id after.timers ≡ none)
    unfolding handle_workflow_step_result take_result
    any_failure_fails bad =
        rw (named, found, unended)
          (failed_result_fails g laws event.workflow_id w st rev found
            (received payload event.source_agent (g.now w.env)) bad)

  -- The operator approves the last step, and the goroutine that waits for the answer takes it: the
  -- workflow is then stored as completed, with the approval as the result of the step.
  pub approval_completes :
      EngineLaws g
      → (w : World B E) (event : Event) (resp : DecisionResponse) (st : WorkflowState)
        (rev step : ℕ)
      → load g resp.workflow_id w ≡ ok (st, rev)
      → awaits resp.decision_id st ≡ true
      → resp.approves ≡ true
      → lookup resp.workflow_id w.resume ≡ some step
      → w.deliveries ≡ []
      → ltb (u32 (st.current_step + 1)) (length st.definition.steps) ≡ false
      → let now = g.now w.env in
        Stored g resp.workflow_id rev
          (deliver g (handle_decision_response g event (ok resp) w).1)
          (record st {
            status = completed;
            pending_decision = none;
            current_step = (st.current_step + 1) % 2 ^ 32;
            step_results =
                st.step_results
                ++ record {
                  step_index = step;
                  agent_id = codes "human-operator";
                  status = success;
                  result = resp.bytes;
                  error = none;
                  completed_at = now;
                }
                  ∷ [];
            updated_at = now;
          })
  unfolding handle_decision_response deliver resumed resume_after_approval
  approval_completes laws w event resp st rev step found waits agreed waiting idle last =
      let v = (process_response g resp w).1 in
      let (((n, lt, stored), _, _, _), same_env, handed) =
        recorded g laws w st rev resp found waits in
      let u : World B E = record v { deliveries = [] } in
      let result : StepResult = record {
        step_index = step;
        agent_id = codes "human-operator";
        status = success;
        result = resp.bytes;
        error = none;
        completed_at = g.now w.env;
      } in
      let at : load g resp.workflow_id u ≡ ok (answered true st (g.now w.env), n) =
        load_bucket g resp.workflow_id v u refl
        ∙ stored
        ∙ ap (λ b. ok (answered b st (g.now w.env), n)) agreed in
      let in_line =
        handed step waiting
        ∙ ap
            (λ l.
              l
              ++ record {
                workflow_id = resp.workflow_id;
                step_index = step;
                approved = resp.approves;
                response = some resp.bytes;
              }
                ∷ [])
            idle in
      let done : deliver g v
          ≡ (advance_workflow g resp.workflow_id (answered true st (g.now w.env)) n result u).1 =
        ground (arith, at, agreed, in_line, same_env) in
      let ((m, more, kept), _) =
        last_success_completes g laws resp.workflow_id u (answered true st (g.now w.env)) n at
          result refl last in
      (
        m,
        omega (arith, lt, more),
        subst
            (λ t.
              load g resp.workflow_id (deliver g v)
              ≡ ok (finished (stepped (answered true st (g.now w.env)) result t) t, m))
            (ap g.now same_env) (ap (load g resp.workflow_id) done ∙ kept),
      )
