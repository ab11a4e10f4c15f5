-- ===== src/Workflow/Coordinator/Waiting.antt =====
-- How a decision is asked for: `RequestDecision` of core/workflow/coordinator.go, where no other
-- decision concerns the same resources.
use baran_os.Base.{
  ℕ, suc, List, Dict, ◌<◌, ◌≡◌, refl, ap, ◌∙◌, GoString, [], ◌∷◌, ◌++◌, lookup, insert, delete,
  insert_found, some, codes, ok, arith,
}
use baran_os.Eventbus.{Event}
use baran_os.Workflow.Types.{waiting_human, StepDefinition, PendingDecision, WorkflowState}
use baran_os.Workflow.World.{
  World, Engine, decision_timer, published, timeout_of, engine_event, load, draw_uuid, publish,
  schedule,
}
use baran_os.Workflow.World.Saving.{EngineLaws, save-fits}
use baran_os.Workflow.Coordinator.{
  request_decision, conflicting, note_conflicts, default_decision_timeout,
}

no_conflicts :
    (decision : GoString) (resources : List GoString) (pending : Dict PendingDecision)
    → resources ≡ []
    → conflicting decision resources pending ≡ []
unfolding conflicting
no_conflicts decision resources pending none_named = ground (arith, none_named)

module _ {B E V : Type 0} (g : Engine B E V) where
  same_bucket : (id : GoString) (w v : World B E) → v.bucket ≡ w.bucket → load g id v ≡ load g id w
  unfolding load
  same_bucket id w v same = ground (arith, same)

  -- A step for a human that names no resources, where the request is marshalled and the bus takes it:
  -- `RequestDecision` stores the waiting state with the new decision, at a greater revision, lists the
  -- decision as pending, opens the workflow's channel for the step, and sets the workflow's timer to
  -- the decision's, at the step's own timeout or 24 hours. The request is the one event published.
  pub human_step_waits :
      EngineLaws g
      → (w : World B E) (id : GoString) (st : WorkflowState) (rev : ℕ) (step : StepDefinition)
        (index : ℕ) (bytes : GoString)
      → load g id w ≡ ok (st, rev)
      → step.resource_ids ≡ []
      → g.marshal_request
          (record {
            decision_id = g.uuid w.uuids;
            workflow_id = id;
            step_index = index;
            step_name = step.name;
            prompt = step.prompt;
            resource_ids = step.resource_ids;
            requested_at = g.now w.env;
            conflict_ids = [];
          })
          step
          st.step_results
        ≡ ok bytes
      → ((event : Event) → g.bus_takes event w.env ≡ ok tt)
      → let decision = g.uuid w.uuids in
        let pd : PendingDecision = record {
          decision_id = decision;
          workflow_id = id;
          step_index = index;
          step_name = step.name;
          prompt = step.prompt;
          resource_ids = step.resource_ids;
          requested_at = g.now w.env;
          conflict_ids = [];
        } in
        let after = (request_decision g id st rev step index w).1 in
        ((n : ℕ) × (rev < n)
          × (load g id after
              ≡ ok (
                record st {
                  status = waiting_human;
                  pending_decision = some pd;
                  updated_at = g.now w.env;
                },
                n,
              )))
        × (lookup decision after.pending ≡ some pd)
        × (lookup id after.resume ≡ some index)
        × (lookup id after.timers
            ≡ some (decision_timer decision index (timeout_of step default_decision_timeout)))
        × (after.outputs
            ≡ w.outputs
              ++ published (
                  engine_event
                    (g.uuid (suc w.uuids))
                    (codes "human.decision.request")
                    g.node_id
                    []
                    []
                    id
                    (g.now w.env)
                    bytes)
                ∷ [])
  unfolding request_decision note_conflicts draw_uuid publish schedule
  human_step_waits laws w id st rev step index bytes found alone marshalled taken =
      let decision : GoString = g.uuid w.uuids in
      let pd : PendingDecision = record {
        decision_id = decision;
        workflow_id = id;
        step_index = index;
        step_name = step.name;
        prompt = step.prompt;
        resource_ids = step.resource_ids;
        requested_at = g.now w.env;
        conflict_ids = [];
      } in
      let u : World B E = record w { uuids = suc w.uuids } in
      let next : WorkflowState = record st {
        status = waiting_human;
        pending_decision = some pd;
        updated_at = g.now w.env;
      } in
      let (b, n, lt, saved, stored) =
        save-fits g laws id u st rev next (same_bucket id w u refl ∙ found) in
      let request : Event =
        engine_event (g.uuid (suc w.uuids)) (codes "human.decision.request") g.node_id [] [] id
          (g.now w.env) bytes in
      let done : request_decision g id st rev step index w ≡ (
        ok tt,
        record w {
          bucket = b;
          uuids = suc (suc w.uuids);
          pending = insert decision pd w.pending;
          resume = insert id index (delete id w.resume);
          outputs = w.outputs ++ published request ∷ [];
          timers =
              insert id (decision_timer decision index (timeout_of step default_decision_timeout))
                w.timers;
        },
      ) =
        rw
          (
            saved,
            no_conflicts decision step.resource_ids (insert decision pd w.pending) alone,
            marshalled,
          )
          (ground (arith, taken request)) in
      (
        (n, lt, stored (request_decision g id st rev step index w).1 (ap (λ x. x.1.bucket) done)),
        ap (λ x. lookup decision x.1.pending) done ∙ insert_found decision pd w.pending,
        ap (λ x. lookup id x.1.resume) done ∙ insert_found id index (delete id w.resume),
        ap (λ x. lookup id x.1.timers) done
            ∙ insert_found id
                (decision_timer decision index (timeout_of step default_decision_timeout)) w.timers,
        ap (λ x. x.1.outputs) done,
      )
