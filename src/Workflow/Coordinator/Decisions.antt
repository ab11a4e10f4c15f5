-- ===== src/Workflow/Coordinator/Decisions.antt =====
-- What happens to a decision (core/workflow/coordinator.go): it is recorded with the operator's
-- answer, or times out; an answer to anything else is ignored.
use baran_os.Base.{
  ℕ, ◌<◌, ◌≡◌, refl, ap, GoString, [], ◌∷◌, ◌++◌, lookup, delete, delete_gone, Option, none, some,
  Bool, true, false, if◌then◌else◌, codes, ◌∙◌, Result, ok, err, arith,
}
use baran_os.Workflow.Types.{running, failed, WorkflowState, new_error}
use baran_os.Workflow.World.{World, Engine, DecisionResponse, load, cancel, draw_uuid, publish}
use baran_os.Workflow.World.Saving.{EngineLaws, save-fits}
use baran_os.Workflow.Coordinator.{
  process_response, decide, handle_timeout, answered, awaits, notify, coordinator_event,
  decision_timeout_code, ignore, conflict_ids_of, or_none,
}

-- what is stored for either answer
answered_cases :
    (approves : Bool) (st : WorkflowState) (now : ℕ)
    → answered approves st now ≡ (
        if approves
        then record st { status = running; pending_decision = none; updated_at = now }
        else record st {
          status = failed;
          pending_decision = none;
          error = some (record {
            code = codes "DECISION_REJECTED";
            step_index = st.current_step;
            agent_id = [];
          });
          updated_at = now;
        })
answered_cases true st now = refl
answered_cases false st now = refl

module _ {B E V : Type 0} (g : Engine B E V) where
  -- a notice that reaches the bus or not leaves the store, the timers, and the maps as they are
  abbrev SameBook : World B E → World B E → Type 0
  SameBook w v =
      (v.bucket ≡ w.bucket)
      × (v.timers ≡ w.timers)
      × (v.pending ≡ w.pending)
      × (v.resume ≡ w.resume)
      × (v.env ≡ w.env)
      × (v.deliveries ≡ w.deliveries)

  coordinator_event-SameBook :
      (type id : GoString) (bytes : Result GoString) (w : World B E)
      → SameBook w (coordinator_event g type id bytes w).1
  unfolding coordinator_event draw_uuid publish
  coordinator_event-SameBook type id (err e) w = ground arith
  coordinator_event-SameBook type id (ok b) w = ground arith

  notify_lem :
      (id : GoString) (approved : Bool) (response : Option GoString) (v : World B E)
      → ((notify g id approved response v).1.bucket ≡ v.bucket)
        × ((notify g id approved response v).1.timers ≡ v.timers)
        × ((notify g id approved response v).1.pending ≡ v.pending)
        × (lookup id (notify g id approved response v).1.resume ≡ none)
        × ((notify g id approved response v).1.env ≡ v.env)
        × ((step : ℕ)
            → lookup id v.resume ≡ some step
            → (notify g id approved response v).1.deliveries
              ≡ v.deliveries
                ++ record {
                  workflow_id = id;
                  step_index = step;
                  approved = approved;
                  response = response;
                }
                  ∷ [])
  unfolding notify
  notify_lem id approved response v = ground (arith, delete_gone id v.resume)

  resolved_bytes : DecisionResponse → World B E → Result GoString
  unfolding conflict_ids_of or_none
  resolved_bytes resp w =
      g.marshal_resolved resp (or_none [] (lookup resp.decision_id w.groups))
        (conflict_ids_of g (lookup resp.decision_id w.pending))

  load_bucket : (id : GoString) (w v : World B E) → v.bucket ≡ w.bucket → load g id v ≡ load g id w
  unfolding load
  load_bucket id w v same = ground (arith, same)

  module _ (laws : EngineLaws g) (w : World B E) (st : WorkflowState) (rev : ℕ)
      (resp : DecisionResponse) (found : load g resp.workflow_id w ≡ ok (st, rev)) where
    -- the whole of what an awaited answer does
    pub recorded :
        awaits resp.decision_id st ≡ true
        → let after = (process_response g resp w).1 in
          (((n : ℕ) × (rev < n)
              × (load g resp.workflow_id after ≡ ok (answered resp.approves st (g.now w.env), n)))
            × (lookup resp.workflow_id after.timers ≡ none)
            × (lookup resp.decision_id after.pending ≡ none)
            × (lookup resp.workflow_id after.resume ≡ none))
          × (after.env ≡ w.env)
          × ((step : ℕ)
              → lookup resp.workflow_id w.resume ≡ some step
              → after.deliveries
                ≡ w.deliveries
                  ++ record {
                    workflow_id = resp.workflow_id;
                    step_index = step;
                    approved = resp.approves;
                    response = some resp.bytes;
                  }
                    ∷ [])
    unfolding process_response decide notify cancel resolved_bytes
    recorded waits =
        let u : World B E = record w {
          timers = delete resp.workflow_id w.timers;
          pending = delete resp.decision_id w.pending;
          groups = delete resp.decision_id w.groups;
        } in
        let (b, n, lt, saved, stored) =
          save-fits g laws resp.workflow_id u st rev (answered resp.approves st (g.now w.env))
            (load_bucket resp.workflow_id w u refl ∙ found) in
        let v =
          (ignore g
            (coordinator_event g (codes "decision.resolved") resp.workflow_id
              (resolved_bytes resp w))
            (record u { bucket = b })).1 in
        let facts : process_response g resp w
            ≡ notify g resp.workflow_id resp.approves (some resp.bytes) v =
          ground (arith, found, waits, saved) in
        let (in_store, in_timers, in_pending, closed, in_env, handed) =
          notify_lem resp.workflow_id resp.approves (some resp.bytes) v in
        let (b_same, t_same, p_same, r_same, e_same, d_same) =
          coordinator_event-SameBook (codes "decision.resolved") resp.workflow_id
            (resolved_bytes resp w) (record u { bucket = b }) in
        let now_bucket : (process_response g resp w).1.bucket ≡ b =
          ap (λ x. x.1.bucket) facts ∙ in_store ∙ b_same in
        (
          (
            (n, lt, stored (process_response g resp w).1 now_bucket),
            ap (λ x. lookup resp.workflow_id x.1.timers) facts
                ∙ ap (lookup resp.workflow_id) (in_timers ∙ t_same)
                ∙ delete_gone resp.workflow_id w.timers,
            ap (λ x. lookup resp.decision_id x.1.pending) facts
                ∙ ap (lookup resp.decision_id) (in_pending ∙ p_same)
                ∙ delete_gone resp.decision_id w.pending,
            ap (λ x. lookup resp.workflow_id x.1.resume) facts ∙ closed,
          ),
          ap (λ x. x.1.env) facts ∙ in_env ∙ e_same,
          (λ step waiting.
              ap (λ x. x.1.deliveries) facts
              ∙ handed step (ap (lookup resp.workflow_id) r_same ∙ waiting)
              ∙ ap
                  (λ l.
                    l
                    ++ record {
                      workflow_id = resp.workflow_id;
                      step_index = step;
                      approved = resp.approves;
                      response = some resp.bytes;
                    }
                      ∷ [])
                  d_same),
        )

    -- When the workflow waits for the decision that an operator answers, `ProcessResponse` stores
    -- the running state without a pending decision, or the failed one when the answer is no, at a
    -- greater revision; the timer, the pending entry and the waiting channel are gone.
    pub answer_recorded :
        awaits resp.decision_id st ≡ true
        → let after = (process_response g resp w).1 in
          ((n : ℕ) × (rev < n)
            × (load g resp.workflow_id after
                ≡ ok (
                  if resp.approves
                      then record st {
                        status = running;
                        pending_decision = none;
                        updated_at = g.now w.env;
                      }
                      else record st {
                        status = failed;
                        pending_decision = none;
                        error = some (record {
                          code = codes "DECISION_REJECTED";
                          step_index = st.current_step;
                          agent_id = [];
                        });
                        updated_at = g.now w.env;
                      },
                  n,
                )))
          × (lookup resp.workflow_id after.timers ≡ none)
          × (lookup resp.decision_id after.pending ≡ none)
          × (lookup resp.workflow_id after.resume ≡ none)
    answer_recorded waits =
        let ((n, lt, stored), timer, entry, channel) = (recorded waits).0 in
        (
          (n, lt, stored ∙ ap (λ s. ok (s, n)) (answered_cases resp.approves st (g.now w.env))),
          timer,
          entry,
          channel,
        )

    -- An answer to a decision that the workflow does not wait for changes nothing, and no more does
    -- the timeout of such a decision.
    pub other_decision_ignored :
        (step : ℕ)
        → awaits resp.decision_id st ≡ false
        → (process_response g resp w ≡ (ok tt, w))
          × (handle_timeout g resp.workflow_id resp.decision_id step w ≡ (ok tt, w))
    unfolding process_response handle_timeout
    other_decision_ignored step waits = (ground (arith, found, waits), ground (arith, found, waits))

  -- When the decision that the workflow waits for times out, the workflow is stored as failed, with
  -- the decision's step and the code DECISION_TIMEOUT; the pending entry and the channel are gone.
  pub timeout_recorded :
      EngineLaws g
      → (w : World B E) (id decision : GoString) (st : WorkflowState) (rev step : ℕ)
      → load g id w ≡ ok (st, rev)
      → awaits decision st ≡ true
      → let after = (handle_timeout g id decision step w).1 in
        ((n : ℕ) × (rev < n)
          × (load g id after
              ≡ ok (
                record st {
                  status = failed;
                  pending_decision = none;
                  error = some (new_error decision_timeout_code step []);
                  updated_at = g.now w.env;
                },
                n,
              )))
        × (lookup decision after.pending ≡ none)
        × (lookup id after.resume ≡ none)
  unfolding handle_timeout notify
  timeout_recorded laws w id decision st rev step found waits =
      let u : World B E = record w {
        pending = delete decision w.pending;
        groups = delete decision w.groups;
      } in
      let (b, n, lt, saved, stored) =
        save-fits g laws id u st rev
          (record st {
            status = failed;
            pending_decision = none;
            error = some (new_error decision_timeout_code step []);
            updated_at = g.now w.env;
          })
          (load_bucket id w u refl ∙ found) in
      let same : (handle_timeout g id decision step w).1.bucket ≡ b =
        ground (arith, found, waits, saved) in
      let gone = delete_gone decision w.pending in
      let closed = delete_gone id w.resume in
      (
        (n, lt, stored (handle_timeout g id decision step w).1 same),
        ground (arith, found, waits, saved, gone),
        ground (arith, found, waits, saved, closed),
      )
