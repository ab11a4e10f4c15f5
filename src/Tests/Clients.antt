-- ===== src/Tests/Clients.antt =====
-- An agent of the SDK with one capability, and a cache with room for two event ids.
use mathlib.Core.List.{Permᴰ}
use baran_os.Base.{
  ◌⊎◌, ◌≤◌, ◌≡◌, refl, List, [], ◌∷◌, length, codes, GoString, lookup, str_eq, none, some, true,
  false, ok, err, validation, arith,
}
use baran_os.Eventbus.{Event}
use baran_os.Taxonomy.{Capability}
use baran_os.Sdk.{running, stopping, stopped, CapabilityEntry, WorkflowStepPayload, returned}
use baran_os.Sdk.Idempotency.{new_idempotency_cache, has}
use baran_os.Sdk.Idempotency.Window.{
  Call, asks, records, ideal_answers, answers, Holds, new-Holds, cache_refines_list,
}
use baran_os.Sdk.Payloads.{step_result_type, payload_key, validate_payload, step_result_unchecked}
use baran_os.Sdk.Agent.{Agent, Task, Outside, dispatch_step, finish, capability_of}
use baran_os.Sdk.Agent.Lifecycle.{begin_stop, here, then_step, delivers, finishes}
use baran_os.Sdk.Agent.Draining.{finish_all, Reports, stop_starts_nothing, stop_drains}
use baran_os.Sdk.Agent.Reports.{
  Serves, Happening, delivery, happen_all, in_flight_twice, redelivery_skipped,
}

abbrev calls : List Call
calls =
    records (codes "a")
    ∷ records (codes "b")
    ∷ asks (codes "a")
    ∷ records (codes "c")
    ∷ asks (codes "b")
    ∷ []

cache_refines_list_example :
    ((answers calls (new_idempotency_cache 2)).0 ≡ (ideal_answers 2 calls []).0)
    × ((answers calls (new_idempotency_cache 2)).1.eviction ≡ (ideal_answers 2 calls []).1)
cache_refines_list_example = cache_refines_list 2 (omega arith) calls

step_result_unchecked_example :
    (payload_key (step_result_type (codes "w1")) ≡ codes "workflow.workflow.step.result")
    × (validate_payload (step_result_type (codes "w1")) (some (codes "HealthPongPayload")) ≡ ok tt)
    × (validate_payload (step_result_type (codes "w1")) none ≡ err validation)
step_result_unchecked_example =
    step_result_unchecked (codes "w1") (codes "HealthPongPayload") (refl, (refl, tt))

abbrev scan : Capability
scan = record {
  name = codes "scan";
  version = codes "1";
  description = [];
  parameters = [];
  category = [];
  action = [];
  input_types = [];
  output_types = [];
}

abbrev scanner : CapabilityEntry
scanner = record { cap = scan; handler = λ step. returned step.input }

abbrev work : WorkflowStepPayload
work = record {
  workflow_id = codes "w1";
  step_index = 0;
  step = some (record { name = codes "first"; capability = codes "scan"; input = codes "in" });
  input = none;
  previous_results = [];
}

abbrev outside : Outside
outside = record {
  unmarshal_step = λ bytes. ok work;
  unmarshal_ping = λ bytes. ok 1;
  marshal_result = λ p. ok p.result;
  marshal_register = λ a. ok [];
  marshal_unregister = λ id. ok [];
  marshal_pong = λ id n. ok [];
  bus_takes = λ live e. ok tt;
  uuid = λ n. n ∷ [];
  now = λ n. n;
}

abbrev agent : Agent
agent = record {
  id = codes "a1";
  name = codes "agent";
  agent_type = codes "llm";
  version = codes "1";
  state = running;
  capabilities = (codes "scan", scanner) ∷ [];
  subs = [];
  in_flight = [];
  bus_open = true;
  cache = record { max_size = 2; items = []; eviction = [] };
  published = [];
}

abbrev event : GoString → Event
event id = record {
  id = id;
  type = codes "workflow.step";
  source_node = [];
  source_agent = [];
  target_agent = codes "a1";
  workflow_id = codes "w1";
  correlation_id = [];
  timestamp = 1;
  metadata = [];
  payload = [];
}

serves : Serves outside agent (event (codes "e1")) work scanner
unfolding lookup str_eq capability_of
serves = record { decodes = refl; known = refl; alive = refl }

unseen : (has (codes "e1") agent.cache).0 ≡ false
unfolding has lookup
unseen = refl

fresh_cache : Holds 2 agent.cache []
unfolding new_idempotency_cache
fresh_cache = new-Holds 2 (omega arith)

abbrev between : List Happening
between = delivery (event (codes "e2")) ∷ []

redelivery_skipped_example :
    let idle = finish outside 0 (dispatch_step outside (event (codes "e1")) agent) in
    let later = happen_all outside between idle in
    (idle.in_flight ≡ [])
    × ((dispatch_step outside (event (codes "e1")) later).in_flight ≡ later.in_flight)
redelivery_skipped_example =
    redelivery_skipped outside agent [] 2 (event (codes "e1")) work scanner between (omega arith)
      fresh_cache serves unseen (omega arith)

abbrev task : Task
task = record { event_id = codes "e1"; context = true; entry = scanner; payload = work }

in_flight_twice_example :
    (dispatch_step outside
      (event (codes "e1"))
      (dispatch_step outside (event (codes "e1")) agent)).in_flight
    ≡ task ∷ task ∷ []
in_flight_twice_example =
    in_flight_twice outside agent (event (codes "e1")) work scanner serves unseen

-- running, with two tasks in flight
abbrev busy : Agent
busy = record agent { in_flight = task ∷ task ∷ [] }

stop_starts_nothing_example :
    let later = finish outside 1 (dispatch_step outside (event (codes "e2")) (begin_stop busy)) in
    ((later.state ≡ stopping) ⊎ (later.state ≡ stopped)) × (length later.in_flight ≤ 2)
stop_starts_nothing_example =
    stop_starts_nothing outside busy
      (finish outside 1 (dispatch_step outside (event (codes "e2")) (begin_stop busy))) refl
      (then_step (then_step here (delivers (event (codes "e2")))) (finishes 1))

stop_drains_example :
    (ended : List Task) × (events : List Event) × Permᴰ ended (task ∷ task ∷ [])
    × Reports outside (codes "a1") ended events
    × ((finish_all outside (1 ∷ 0 ∷ []) busy).published ≡ events)
    × (length (finish_all outside (1 ∷ 0 ∷ []) busy).in_flight ≡ 0)
stop_drains_example =
    stop_drains outside (λ p. refl) (λ e. refl) (1 ∷ 0 ∷ []) busy refl (refl, (refl, tt))
      (omega arith, (omega arith, tt))
