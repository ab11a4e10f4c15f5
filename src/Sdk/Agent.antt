-- ===== src/Sdk/Agent.antt =====
-- sdk/agent.go, step.go: an agent on the event bus. A subscription's
-- callback is an action on the agent; the goroutine that runs a handler is a task in flight until
-- `finish`. Locks make each of these one step.
pub mod Lifecycle
pub mod Draining
pub mod Reports
use baran_os.Base.{
  ℕ, zero, suc, ◌<◌, List, [], ◌∷◌, ◌++◌, is_empty, GoString, codes, Dict, lookup, insert, Option,
  none, some, Bool, true, false, ◌&&◌, if◌then◌else◌, length, lift, ◌>>=◌, ◌>>◌, Error, Result, ok,
  err, Exec, pure, raise, failed, validation,
}
use baran_os.Eventbus.{Event}
use baran_os.Sdk.Types.{
  AgentState, created, starting, running, stopping, stopped, has_started, is_stopping, StepResult,
  StepContext, PreviousResult, PayloadStep, WorkflowStepPayload, WorkflowStepResultPayload,
  Invocation, safe_invoke, CapabilityEntry,
}
use baran_os.Sdk.Idempotency.{IdempotencyCache, new_idempotency_cache, has, add}
use baran_os.Sdk.Payloads.{step_result_type}
use baran_os.Taxonomy.{Capability}

-- what an agent subscribes to: agent.health.ping and agent.direct.{id}.>
pub data Subscription : Type 0 where
  health direct : Subscription

-- a handler's goroutine; `context` says that there was a busCtx for it to capture
pub record Task : Type 0 where
  pub event_id : GoString
  pub context : Bool
  pub entry : CapabilityEntry
  pub payload : WorkflowStepPayload

-- Agent. `bus_open` says that there is a busCtx, of which there is one at most, and that it is not cancelled;
-- `published` holds what the bus has accepted.
pub record Agent : Type 0 where
  pub id : GoString
  pub name : GoString
  pub agent_type : GoString
  pub version : GoString
  pub state : AgentState
  pub capabilities : Dict CapabilityEntry
  pub subs : List Subscription
  pub in_flight : List Task
  pub bus_open : Bool
  pub cache : IdempotencyCache
  pub published : List Event

-- What lives elsewhere: protobuf, the bus, uuids, the clock.
pub record Outside : Type 0 where
  pub unmarshal_step : GoString → Result WorkflowStepPayload
  pub unmarshal_ping : GoString → Result ℕ
  pub marshal_result : WorkflowStepResultPayload → Result GoString
  pub marshal_register : Agent → Result GoString
  pub marshal_unregister : GoString → Result GoString
  pub marshal_pong : GoString → ℕ → Result GoString
  pub bus_takes : Bool → Event → Result Unit  -- the flag says that the context is live
  pub uuid : ℕ → GoString
  pub now : ℕ → ℕ

-- NewWithID
unfoldable pub new_with_id : GoString → GoString → GoString → GoString → ℕ → Result Agent
unfolding new_idempotency_cache
new_with_id agent_id name agent_type version cache_size =
    if is_empty name
    then err validation
    else if is_empty agent_id
    then err validation
    else ok (record {
      id = agent_id;
      name = name;
      agent_type = agent_type;
      version = version;
      state = created;
      capabilities = [];
      subs = [];
      in_flight = [];
      bus_open = false;
      cache = new_idempotency_cache cache_size;
      published = [];
    })

-- Handle: the two warnings change nothing
unfoldable pub handle : Capability → (StepContext → Invocation) → Agent → Agent
unfolding insert
handle cap handler a = record a {
  capabilities = insert cap.name (record { cap = cap; handler = handler }) a.capabilities;
}

status_text : Bool → GoString
status_text true = codes "SUCCESS"
status_text false = codes "FAILURE"

previous_of : List PreviousResult → List StepResult
unfolding status_text
previous_of [] = []
previous_of (r ∷ rs) =
    record { step_index = r.step_index; status = status_text r.is_success; result = r.result }
    ∷ previous_of rs

step_name_of : Option PayloadStep → GoString
step_name_of none = []
step_name_of (some s) = s.name

unfoldable pub capability_of : Option PayloadStep → GoString
capability_of none = []
capability_of (some s) = s.capability

input_of : Option GoString → Option PayloadStep → GoString
input_of (some bytes) s = bytes
input_of none none = []
input_of none (some s) = s.input

-- buildStepContext
unfoldable pub build_step_context : WorkflowStepPayload → StepContext
unfolding previous_of step_name_of capability_of input_of
build_step_context p = record {
  workflow_id = p.workflow_id;
  step_index = p.step_index;
  step_name = step_name_of p.step;
  capability = capability_of p.step;
  input = input_of p.input p.step;
  previous_results = previous_of p.previous_results;
}

-- the payload of publishStepResult
unfoldable pub result_payload : GoString → ℕ → Result GoString → WorkflowStepResultPayload
result_payload id step_index (ok bytes) = record {
  step_index = step_index;
  is_success = true;
  result = bytes;
  error = none;
}
result_payload id step_index (err e) = record {
  step_index = step_index;
  is_success = false;
  result = [];
  error = some (codes "STEP_FAILED", id);
}

unfoldable pub take_out : ℕ → List Task → Option Task × List Task
take_out n [] = (none, [])
take_out zero (t ∷ ts) = (some t, ts)
take_out (suc n) (t ∷ ts) = let (found, rest) = take_out n ts in (found, t ∷ rest)

module _ (o : Outside) where
  -- bus.Publish, with a context that is live or cancelled
  unfoldable pub publish : Bool → Event → Exec Agent Unit
  publish live event a = elim (o.bus_takes live event) [
    | ok _ ↦ (ok tt, record a { published = a.published ++ event ∷ [] })
    | err e ↦ (err e, a)
  ]

  unfoldable pub agent_event : GoString → GoString → GoString → Agent → Event
  agent_event type workflow_id payload a = record {
    id = o.uuid (length a.published);
    type = type;
    source_node = [];
    source_agent = a.id;
    target_agent = [];
    workflow_id = workflow_id;
    correlation_id = [];
    timestamp = o.now (length a.published);
    metadata = [];
    payload = payload;
  }

  accepts : Option CapabilityEntry → Event → WorkflowStepPayload → Agent → Agent
  accepts none event p a = a
  accepts (some entry) event p a = if is_stopping a.state then a else record a {
    in_flight =
        a.in_flight
        ++ record { event_id = event.id; context = a.bus_open; entry = entry; payload = p } ∷ [];
  }

  decoded_step : Result WorkflowStepPayload → Event → Agent → Agent
  unfolding accepts capability_of lookup
  decoded_step (err e) event a = a
  decoded_step (ok p) event a = accepts (lookup (capability_of p.step) a.capabilities) event p a

  -- dispatchStep, which always returns nil
  unfoldable pub dispatch_step : Event → Agent → Agent
  unfolding decoded_step has
  dispatch_step event a =
      let (seen, cache) = has event.id a.cache in
      let asked = record a { cache = cache } in
      if seen then asked else decoded_step (o.unmarshal_step event.payload) event asked

  -- publishStepResult, with a context that is live or not
  unfoldable pub publish_step_result : Bool → GoString → ℕ → Result GoString → Exec Agent Unit
  unfolding publish agent_event result_payload
  publish_step_result live workflow_id step_index result a =
      elim (o.marshal_result (result_payload a.id step_index result)) [
        | err e ↦ (err e, a)
        | ok bytes ↦ publish live (agent_event (step_result_type workflow_id) workflow_id bytes a) a
      ]

  -- the body of the goroutine: the handler, the result, the cache, inFlight.Done(). The captured
  -- context is live when there was one and it is not cancelled since.
  unfoldable pub complete : Task → Agent → Agent
  unfolding publish_step_result build_step_context add
  complete t a =
      let result = safe_invoke (t.entry.handler (build_step_context t.payload)) in
      let live = t.context && a.bus_open in
      let sent = (publish_step_result live t.payload.workflow_id t.payload.step_index result a).1 in
      record sent { cache = add t.event_id sent.cache }

  finished : Option Task → List Task → Agent → Agent
  unfolding complete
  finished none ts a = a
  finished (some t) ts a = record (complete t a) { in_flight = ts }

  -- the task at a place in the list ends; the order in which tasks end is not fixed
  unfoldable pub finish : ℕ → Agent → Agent
  unfolding finished take_out
  finish n a = let (ended, rest) = take_out n a.in_flight in finished ended rest a
