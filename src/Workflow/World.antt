-- ===== src/Workflow/World.antt =====
-- The state that the engine of one node works on, and what the engine is composed of: the store of
-- workflow states (core/workflow/state.go), the timers (timeout.go), the router and the bus.
pub mod Saving
use baran_os.Base.{
  Bool, ℕ, zero, suc, ◌*◌, List, [], ◌∷◌, ◌++◌, GoString, codes, Dict, lookup, insert, delete,
  Option, none, some, Error, Result, ok, err, Exec, pure, raise, reads, lift, attempt, ◌>>=◌, ◌>>◌,
  key_not_found, not_found, cas_conflict, failed,
}
use baran_os.Kv.{Entry, KeyValue, Codec}
use baran_os.Eventbus.{Event}
use baran_os.Registry.{AgentRegistration}
use baran_os.Workflow.Types.{
  StepDefinition, StepResult, PendingDecision, WorkflowState, WorkflowError,
}

-- What a timer of StepTimeoutManager does when it fires, with its duration.
pub data Timer : Type 0 where
  step_timer : ℕ → GoString → ℕ → Timer
  decision_timer : GoString → ℕ → ℕ → Timer

-- An event that was given to the router or to the bus, and accepted.
pub data Output : Type 0 where
  routed : Event → Output
  published : Event → Output

-- The parts of a human.decision.response that the code reads, and its bytes.
pub record DecisionResponse : Type 0 where
  pub decision_id : GoString
  pub workflow_id : GoString
  pub approves : Bool  -- the action is DECISION_ACTION_APPROVE
  pub bytes : GoString

-- DecisionResult on its way to the goroutine that waits for the decision on a step
pub record Delivery : Type 0 where
  pub workflow_id : GoString
  pub step_index : ℕ
  pub approved : Bool
  pub response : Option GoString

pub record World (B E : Type 0) : Type 0 where
  pub bucket : B
  pub env : E
  pub outputs : List Output
  pub timers : Dict Timer
  pub streams : Dict GoString
  pub pending : Dict PendingDecision
  pub groups : Dict GoString
  pub resume : Dict ℕ  -- the channels that are waited on, with the step that waits
  pub deliveries : List Delivery
  pub uuids : ℕ

-- The parts of the engine that live elsewhere: NATS, the router, the registry, protobuf, the clock.
pub record Engine (B E V : Type 0) : Type 0 where
  pub kv : KeyValue B V
  pub codec : Codec WorkflowState V
  pub find_by_capability : GoString → E → Result (List AgentRegistration)
  pub router_takes : Event → E → Result Unit
  pub bus_takes : Event → E → Result Unit
  pub ensure_stream : GoString → E → Result Unit
  pub subscribe : GoString → E → Result Unit
  pub uuid : ℕ → GoString
  pub now : E → ℕ
  pub marshal_step : ℕ → GoString → List StepResult → StepDefinition → Result GoString
  pub marshal_complete : WorkflowState → ℕ → Result GoString
  pub marshal_failed : WorkflowState → WorkflowError → ℕ → Result GoString
  pub marshal_request : PendingDecision → StepDefinition → List StepResult → Result GoString
  pub marshal_recovered : PendingDecision → WorkflowState → Result GoString
  pub marshal_resolved : DecisionResponse → GoString → List GoString → Result GoString
  pub marshal_conflict : GoString → List GoString → List GoString → List GoString → Result GoString
  pub marshal_error : GoString → GoString → Result GoString
  pub marshal_state : WorkflowState → Result GoString
  pub node_id : GoString
  pub default_timeout : ℕ

abbrev second : ℕ
second = 1000000000

-- the step's own timeout, or the given default
abbrev pub timeout_of : StepDefinition → ℕ → ℕ
timeout_of step default = elim step.timeout_seconds [ zero ↦ default | suc n ↦ suc n * second ]

abbrev missing_is_not_found : Error → Error
missing_is_not_found key_not_found = not_found
missing_is_not_found other = other

-- an event of the engine, with the fields that are set at every place
abbrev pub engine_event :
    GoString → GoString → GoString → GoString → GoString → GoString → ℕ → GoString → Event
engine_event id type node agent target workflow time payload = record {
  id = id;
  type = type;
  source_node = node;
  source_agent = agent;
  target_agent = target;
  workflow_id = workflow;
  correlation_id = [];
  timestamp = time;
  metadata = [];
  payload = payload;
}

module _ {B E V : Type 0} (g : Engine B E V) where
  decoded : Result (Entry V) → Result (WorkflowState × ℕ)
  decoded (ok entry) = elim (g.codec.unmarshal entry.value) [
    | ok state ↦ ok (state, entry.revision)
    | err e ↦ err e
  ]
  decoded (err e) = err (missing_is_not_found e)

  -- KVWorkflowStateStore.Get
  unfoldable pub load : GoString → World B E → Result (WorkflowState × ℕ)
  unfolding decoded
  load id w = decoded (g.kv.get id w.bucket)

  abbrev pub on_bucket : {A : Type 0} → Exec B A → Exec (World B E) A
  on_bucket m w = let (x, b) = m w.bucket in (x, record w { bucket = b })

  cas_result : Result ℕ → Exec (World B E) Unit
  cas_result (ok n) = pure tt
  cas_result (err e) = raise cas_conflict

  -- KVWorkflowStateStore.Update
  unfoldable pub save : GoString → WorkflowState → ℕ → Exec (World B E) Unit
  unfolding cas_result
  save id state revision = do
    value ← lift (g.codec.marshal state)
    written ← attempt (on_bucket (g.kv.update id value revision))
    cas_result written

  -- KVWorkflowStateStore.Create
  unfoldable pub create : GoString → WorkflowState → Exec (World B E) Unit
  create id state = do
    value ← lift (g.codec.marshal state)
    on_bucket (g.kv.create id value)
    pure tt

  -- StepTimeoutManager.Schedule: a timer that was there is stopped
  unfoldable pub schedule : GoString → Timer → Exec (World B E) Unit
  schedule id timer w = (ok tt, record w { timers = insert id timer w.timers })

  -- StepTimeoutManager.Cancel
  unfoldable pub cancel : GoString → Exec (World B E) Unit
  cancel id w = (ok tt, record w { timers = delete id w.timers })

  unfoldable pub draw_uuid : Exec (World B E) GoString
  draw_uuid w = (ok (g.uuid w.uuids), record w { uuids = suc w.uuids })

  abbrev pub clock : World B E → Result ℕ
  clock w = ok (g.now w.env)

  -- publisher.Route
  unfoldable pub route : Event → Exec (World B E) Unit
  route e w = elim (g.router_takes e w.env) [
    | ok _ ↦ (ok tt, record w { outputs = w.outputs ++ routed e ∷ [] })
    | err x ↦ (err x, w)
  ]

  -- bus.Publish
  unfoldable pub publish : Event → Exec (World B E) Unit
  publish e w = elim (g.bus_takes e w.env) [
    | ok _ ↦ (ok tt, record w { outputs = w.outputs ++ published e ∷ [] })
    | err x ↦ (err x, w)
  ]
