-- ===== src/Workflow/Coordinator.antt =====
-- core/workflow/coordinator.go: decisions that wait for an operator. Each method runs as one step:
-- what other goroutines do between its calls of the store is not modelled. Go visits the pending
-- decisions in no fixed order; here they are visited in the order of the list.
pub mod Decisions
pub mod Waiting
use baran_os.Base.{
  ℕ, ◌*◌, List, [], ◌∷◌, ◌++◌, any, select, is_empty, GoString, codes, Dict, lookup, insert, delete,
  Option, none, some, Bool, true, false, ◌&&◌, not, if◌then◌else◌, str_eq, Error, Result, ok, err,
  Exec, pure, raise, reads, lift, attempt, ◌>>=◌, ◌>>◌, get_elem?, index_out_of_range,
}
use baran_os.Workflow.Types.{
  Status, running, failed, waiting_human, is_waiting, StepDefinition, PendingDecision,
  WorkflowState, WorkflowError, new_error,
}
use baran_os.Workflow.World.{
  World, Engine, Timer, decision_timer, DecisionResponse, Delivery, timeout_of, engine_event, load,
  save, schedule, cancel, draw_uuid, clock, publish,
}

abbrev pub decision_timeout_code : GoString
decision_timeout_code = codes "DECISION_TIMEOUT"

abbrev pub decision_rejected_code : GoString
decision_rejected_code = codes "DECISION_REJECTED"

-- DefaultDecisionTimeout: 24 hours
abbrev pub default_decision_timeout : ℕ
default_decision_timeout = 86400000000000

-- appendUnique
unfoldable pub append_unique : List GoString → GoString → List GoString
append_unique slice value = if any (λ s. str_eq s value) slice then slice else slice ++ value ∷ []

append_all : List GoString → List GoString → List GoString
append_all slice [] = slice
append_all slice (v ∷ vs) = append_all (append_unique slice v) vs

values : {A : Type 0} → Dict A → List A
values [] = []
values ((k, a) ∷ m) = a ∷ values m

overlaps : List GoString → List GoString → Bool
overlaps xs ys = any (λ x. any (λ y. str_eq y x) ys) xs

conflicting : GoString → List GoString → Dict PendingDecision → List PendingDecision
unfolding values overlaps
conflicting decision resources pending =
    if is_empty resources
    then []
    else select (λ d. not (str_eq d.decision_id decision) && overlaps d.resource_ids resources)
        (values pending)

decision_ids : List PendingDecision → List GoString
decision_ids [] = []
decision_ids (d ∷ ds) = d.decision_id ∷ decision_ids ds

workflow_ids : List PendingDecision → List GoString
workflow_ids [] = []
workflow_ids (d ∷ ds) = d.workflow_id ∷ workflow_ids ds

all_resources : List PendingDecision → List GoString → List GoString
all_resources [] acc = acc
all_resources (d ∷ ds) acc = all_resources ds (append_all acc d.resource_ids)

-- the loop that adds the new decision to the conflict ids of the others
annotate : GoString → List PendingDecision → Dict PendingDecision → Dict PendingDecision
annotate decision [] pending = pending
annotate decision (d ∷ ds) pending = annotate decision ds (
    insert d.decision_id (record d { conflict_ids = append_unique d.conflict_ids decision })
      pending)

set_group : GoString → List GoString → Dict GoString → Dict GoString
set_group group [] groups = groups
set_group group (d ∷ ds) groups = set_group group ds (insert d group groups)

or_none {ℓ} : {A : Type ℓ} → A → Option A → A
or_none d none = d
or_none d (some a) = a

-- the state after the operator's answer
abbrev pub answered : Bool → WorkflowState → ℕ → WorkflowState
answered true state now = record state {
  status = running;
  pending_decision = none;
  updated_at = now;
}
answered false state now = record state {
  status = failed;
  pending_decision = none;
  error = some (new_error decision_rejected_code state.current_step []);
  updated_at = now;
}

-- is this the decision that the workflow waits for?
abbrev pub awaits : GoString → WorkflowState → Bool
awaits decision state =
    is_waiting state.status
    && (elim state.pending_decision [ none ↦ false | some pd ↦ str_eq pd.decision_id decision ])

module _ {B E V : Type 0} (g : Engine B E V) where
  -- a call whose error is dropped
  abbrev pub ignore : {A : Type 0} → Exec (World B E) A → Exec (World B E) Unit
  ignore m w = (ok tt, (m w).1)

  coordinator_event : GoString → GoString → Result GoString → Exec (World B E) Unit
  coordinator_event type workflow_id bytes = do
    payload ← lift bytes
    id ← draw_uuid g
    now ← reads (clock g)
    publish g (engine_event id type g.node_id [] [] workflow_id now payload)

  -- updateConflictIDs
  update_conflict_ids : GoString → List GoString → Exec (World B E) Unit
  update_conflict_ids id ids w = elim (load g id w) [
    | err e ↦ (ok tt, w)
    | ok (state, rev) ↦ (elim state.pending_decision [
      | none ↦ (ok tt, w)
      | some pd ↦
          ignore
            (save g id (record state { pending_decision = some (record pd { conflict_ids = ids }) })
              rev)
            w
    ])
  ]

  update_all : GoString → List PendingDecision → Exec (World B E) Unit
  update_all decision [] = pure tt
  update_all decision (d ∷ ds) = do
    update_conflict_ids d.workflow_id (append_unique d.conflict_ids decision)
    update_all decision ds

  -- the new decision's own state is read again and written with its conflict ids
  update_own : GoString → PendingDecision → Exec (World B E) Unit
  update_own id pd w = elim (load g id w) [
    | err e ↦ (ok tt, w)
    | ok (latest, rev) ↦ ignore (save g id (record latest { pending_decision = some pd }) rev) w
  ]

  -- the conflicts of a new decision: the others are annotated, in memory and in the store
  note_conflicts : PendingDecision → List PendingDecision → Exec (World B E) PendingDecision
  unfolding annotate set_group decision_ids workflow_ids all_resources append_all
  note_conflicts pd [] = pure pd
  note_conflicts pd (c ∷ cs) = do
    group ← draw_uuid g
    let ids = decision_ids (c ∷ cs)
    let noted : PendingDecision = record pd { conflict_ids = append_all pd.conflict_ids ids }
    (λ w. (
      ok tt,
      record w {
        pending = insert pd.decision_id noted (annotate pd.decision_id (c ∷ cs) w.pending);
      },
    ))
    update_all pd.decision_id (c ∷ cs)
    update_own pd.workflow_id noted
    ignore (
        coordinator_event (codes "decision.conflict") [] (
          g.marshal_conflict group (pd.decision_id ∷ ids) (pd.workflow_id ∷ workflow_ids (c ∷ cs))
            (append_all (all_resources (c ∷ cs) []) pd.resource_ids)))
    (λ w. (ok tt, record w { groups = set_group group (pd.decision_id ∷ ids) w.groups }))
    pure noted

  -- RequestDecision. The new channel takes the place of an older one of the workflow, but only when
  -- there is no error dispatchHumanStep waits on it: then it is an entry under `resume`.
  unfoldable pub request_decision :
      GoString → WorkflowState → ℕ → StepDefinition → ℕ → Exec (World B E) Unit
  unfolding note_conflicts conflicting coordinator_event update_all update_own update_conflict_ids
  request_decision id state revision step step_index = do
    decision ← draw_uuid g
    now ← reads (clock g)
    let pd : PendingDecision = record {
      decision_id = decision;
      workflow_id = id;
      step_index = step_index;
      step_name = step.name;
      prompt = step.prompt;
      resource_ids = step.resource_ids;
      requested_at = now;
      conflict_ids = [];
    }
    save g id
        (record state { status = waiting_human; pending_decision = some pd; updated_at = now })
        revision
    (λ w. (ok tt, record w { pending = insert decision pd w.pending }))
    others ← reads (λ w. ok (conflicting decision step.resource_ids w.pending))
    noted ← note_conflicts pd others
    (λ w. (ok tt, record w { resume = delete id w.resume }))
    bytes ← lift (g.marshal_request noted step state.step_results)
    event_id ← draw_uuid g
    publish g (engine_event event_id (codes "human.decision.request") g.node_id [] [] id now bytes)
    schedule g id (decision_timer decision step_index (timeout_of step default_decision_timeout))
    (λ w. (ok tt, record w { resume = insert id step_index w.resume }))

  -- the goroutine that waits on the workflow's channel is handed the result
  notify : GoString → Bool → Option GoString → Exec (World B E) Unit
  notify id approved response w = elim (lookup id w.resume) [
    | none ↦ (ok tt, w)
    | some step_index ↦ (
      ok tt,
      record w {
        resume = delete id w.resume;
        deliveries =
            w.deliveries
            ++ record {
              workflow_id = id;
              step_index = step_index;
              approved = approved;
              response = response;
            }
              ∷ [];
      },
    )
  ]

  conflict_ids_of : Option PendingDecision → List GoString
  conflict_ids_of none = []
  conflict_ids_of (some pd) = pd.conflict_ids

  -- ProcessResponse behind its guards
  decide : DecisionResponse → WorkflowState → ℕ → Exec (World B E) Unit
  unfolding notify coordinator_event conflict_ids_of or_none
  decide resp state revision = do
    cancel g resp.workflow_id
    known ← reads (λ w. ok (lookup resp.decision_id w.pending))
    group ← reads (λ w. ok (or_none [] (lookup resp.decision_id w.groups)))
    (λ w. (
      ok tt,
      record w {
        pending = delete resp.decision_id w.pending;
        groups = delete resp.decision_id w.groups;
      },
    ))
    now ← reads (clock g)
    saved ← attempt (save g resp.workflow_id (answered resp.approves state now) revision)
    elim saved [
      | err e ↦ pure tt
      | ok _ ↦ do
        ignore (
            coordinator_event (codes "decision.resolved") resp.workflow_id
              (g.marshal_resolved resp group (conflict_ids_of known)))
        notify resp.workflow_id resp.approves (some resp.bytes)
    ]

  -- ProcessResponse
  unfoldable pub process_response : DecisionResponse → Exec (World B E) Unit
  unfolding decide
  process_response resp = do
    found ← reads (load g resp.workflow_id)
    if awaits resp.decision_id found.0 then decide resp found.0 found.1 else pure tt

  -- handleTimeout, which the timer of a decision calls
  unfoldable pub handle_timeout : GoString → GoString → ℕ → Exec (World B E) Unit
  unfolding notify
  handle_timeout id decision step_index w = elim (load g id w) [
    | err e ↦ (ok tt, w)
    | ok (state, revision) ↦
        if awaits decision state
        then (do
          (λ v. (
            ok tt,
            record v { pending = delete decision v.pending; groups = delete decision v.groups },
          ))
          now ← reads (clock g)
          ignore (
              save g id
                (record state {
                  status = failed;
                  pending_decision = none;
                  error = some (new_error decision_timeout_code step_index []);
                  updated_at = now;
                })
                revision)
          notify id false none)
            w
        else (ok tt, w)
  ]

  -- the loop of RecoverPending
  recover_each : List WorkflowState → Exec (World B E) Unit
  recover_each [] = pure tt
  recover_each (state ∷ states) = do
    elim state.pending_decision [
      | none ↦ pure tt
      | some pd ↦
          if is_waiting state.status
          then (do
            (λ w. (ok tt, record w { pending = insert pd.decision_id pd w.pending }))
            now ← reads (clock g)
            ignore (do
              bytes ← lift (g.marshal_recovered pd state)
              publish g (
                  engine_event pd.decision_id (codes "human.decision.request") g.node_id [] []
                    state.workflow_id now bytes)))
          else pure tt
    ]
    recover_each states

  -- RecoverPending, given what the list function returns
  unfoldable pub recover_pending : Result (List WorkflowState) → Exec (World B E) Unit
  unfolding recover_each
  recover_pending listed = do states ← lift listed; recover_each states
