-- ===== src/Router/Dispatch.antt =====
-- core/router/router.go: DefaultRouter. What the router sends is recorded in the order of the calls;
-- whether the bus, the relay and the stream manager take a call is a parameter.
pub mod Delivery
pub mod Workflows
pub mod Elsewhere
use baran_os.Base.{
  ℕ, suc, List, [], ◌∷◌, ◌++◌, any, select, is_empty, GoString, codes, Dict, lookup, delete, Option,
  none, some, Bool, true, false, ◌&&◌, not, if◌then◌else◌, str_eq, failed, Error, Result, ok, err,
  Exec, pure, raise, reads, lift, attempt, catch, ◌>>=◌, ◌>>◌,
}
use baran_os.Eventbus.{Event}
use baran_os.Registry.{AgentRegistration, is_active, is_remote}
use baran_os.Router.Strategy.{
  RoutingStrategy, broadcast, direct, workflow, capability, relay, capability_key, resolve_strategy,
}
use baran_os.Router.Streams.{StreamRegistry, stream_for_event_type}

-- A message that left the router: on the local bus, or to another node by the relay.
pub data Sent : Type 0 where
  published : Event → Sent
  relayed : GoString → Event → Sent

-- The rest of the node, the messages sent so far, and the number of UUIDs drawn.
pub record World (E : Type 0) : Type 0 where
  pub env : E
  pub sent : List Sent
  pub uuids : ℕ

-- Relay: the federation side, absent in standalone mode.
pub record Relay (E : Type 0) : Type 0 where
  pub is_remote_agent : GoString → E → Result (Bool × GoString)
  pub takes : GoString → Event → World E → Result Unit

-- DefaultRouter with what it is composed of: the bus, the agent registry, the stream registry, the
-- stream manager, the relay; and the libraries' UUIDs, clock and protobuf encoding.
pub record DefaultRouter (E : Type 0) : Type 0 where
  pub bus_takes : Event → World E → Result Unit
  pub get_agent : GoString → E → Result AgentRegistration
  pub list_agents : E → Result (List AgentRegistration)
  pub streams : E → StreamRegistry
  pub get_or_create_stream : GoString → Exec E GoString
  pub relay : Option (Relay E)
  pub uuid : ℕ → GoString
  pub now : E → ℕ
  pub marshal_agent_error : GoString → GoString → Result GoString

abbrev pub relayed_key : GoString
relayed_key = codes "federation.relayed"

abbrev or_empty : Option GoString → GoString
or_empty none = []
or_empty (some s) = s

unfoldable pub is_relayed_event : Event → Bool
is_relayed_event e = str_eq (or_empty (lookup relayed_key e.metadata)) (codes "true")

-- "agent.direct.{target}.{type}"
abbrev pub direct_event : Event → Event
direct_event e = record e {
  type = codes "agent.direct." ++ (e.target_agent ++ (codes "." ++ e.type));
}

-- "workflow.{id}.{type}"
abbrev pub workflow_event : Event → Event
workflow_event e = record e { type = codes "workflow." ++ (e.workflow_id ++ (codes "." ++ e.type)) }

-- the copy that the fan-out makes for one agent
abbrev pub copy_for : Event → GoString → GoString → Event
copy_for e id agent = record e {
  id = id;
  target_agent = agent;
  metadata = delete capability_key e.metadata;
}

unfoldable pub offers_capability : GoString → AgentRegistration → Bool
offers_capability name agent =
    is_active agent.status && any (λ cap. str_eq cap.name name) agent.capabilities

module _ {E : Type 0} (r : DefaultRouter E) where
  unfoldable pub new_uuid : Exec (World E) GoString
  new_uuid w = (ok (r.uuid w.uuids), record w { uuids = suc w.uuids })

  unfoldable pub publish : Event → Exec (World E) Unit
  publish e w = elim (r.bus_takes e w) [
    | ok _ ↦ (ok tt, record w { sent = w.sent ++ published e ∷ [] })
    | err x ↦ (err x, w)
  ]

  -- relayToNode
  unfoldable pub relay_to_node : Relay E → GoString → Event → Exec (World E) Unit
  relay_to_node rel node e w = elim (rel.takes node e w) [
    | ok _ ↦ (ok tt, record w { sent = w.sent ++ relayed node e ∷ [] })
    | err x ↦ (err x, w)
  ]

  unfoldable pub publish_error : GoString → GoString → Exec (World E) Unit
  unfolding publish new_uuid
  publish_error agent_id code = do
    bytes ← lift (r.marshal_agent_error agent_id code)
    id ← new_uuid
    now ← reads (λ w. ok (r.now w.env))
    publish (record {
      id = id;
      type = codes "agent.error";
      source_node = codes "runtime";
      source_agent = codes "router";
      target_agent = [];
      workflow_id = [];
      correlation_id = [];
      timestamp = now;
      metadata = [];
      payload = bytes;
    })

  target_not_found : Event → Exec (World E) Unit
  unfolding publish_error
  target_not_found e = publish_error e.source_agent (codes "ROUTER_TARGET_NOT_FOUND")

  -- the target is not in the registry: a relay is asked where it is
  missing_target : Option (Relay E) → Event → Exec (World E) Unit
  unfolding target_not_found relay_to_node
  missing_target none e w = target_not_found e w
  missing_target (some rel) e w = elim (rel.is_remote_agent e.target_agent w.env) [
    | ok (true, node) ↦ relay_to_node rel node e w
    | ok (false, node) ↦ target_not_found e w
    | err x ↦ target_not_found e w
  ]

  -- the target is in the registry
  known_target : Option (Relay E) → AgentRegistration → Event → Exec (World E) Unit
  unfolding publish relay_to_node
  known_target none reg e = publish (direct_event e)
  known_target (some rel) reg e =
      if is_remote reg && not (is_relayed_event e)
      then relay_to_node rel reg.node_id e
      else publish (direct_event e)

  unfoldable pub route_direct : Event → Exec (World E) Unit
  unfolding missing_target known_target
  route_direct e w = elim (r.get_agent e.target_agent w.env) [
    | ok reg ↦ known_target r.relay reg e w
    | err x ↦ missing_target r.relay e w
  ]

  unfoldable pub route_workflow : Event → Exec (World E) Unit
  unfolding publish
  route_workflow e w =
      let (made, env) = r.get_or_create_stream e.workflow_id w.env in
      catch made (λ _. publish (workflow_event e)) (λ x. raise x) (record w { env = env })

  unfoldable pub route_broadcast : Event → Exec (World E) Unit
  unfolding publish publish_error
  route_broadcast e w = elim (stream_for_event_type (r.streams w.env) e.type) [
    | none ↦ publish_error e.source_agent (codes "ROUTER_UNMAPPED_EVENT_TYPE") w
    | some _ ↦ publish e w
  ]

  -- the loop over the matched agents
  fan_out : Event → List AgentRegistration → Exec (World E) Unit
  fan_out e [] = pure tt
  fan_out e (agent ∷ agents) = do
    id ← new_uuid
    route_direct (copy_for e id agent.agent_id)
    fan_out e agents

  -- local agents first; remote ones only where there is no local match
  unfoldable pub matched : GoString → List AgentRegistration → List AgentRegistration
  matched name agents =
      let offering = select (offers_capability name) agents in
      let locals = select (λ a. not (is_remote a)) offering in
      if is_empty locals then select is_remote offering else locals

  deliver_matched : Event → List AgentRegistration → Exec (World E) Unit
  unfolding publish_error fan_out new_uuid route_direct
  deliver_matched e [] = publish_error e.source_agent (codes "ROUTER_NO_CAPABILITY_MATCH")
  deliver_matched e (a ∷ more) = fan_out e (a ∷ more)

  unfoldable pub route_capability : Event → Exec (World E) Unit
  unfolding matched deliver_matched
  route_capability e = do
    agents ← reads (λ w. r.list_agents w.env)
    deliver_matched e (matched (or_empty (lookup capability_key e.metadata)) agents)

  dispatch : RoutingStrategy → Event → Exec (World E) Unit
  unfolding route_direct route_workflow route_capability route_broadcast
  dispatch direct e = route_direct e
  dispatch workflow e = route_workflow e
  dispatch capability e = route_capability e
  dispatch broadcast e = route_broadcast e
  dispatch relay e = raise failed

  unfoldable pub route : Event → Exec (World E) Unit
  unfolding dispatch
  route e = dispatch (resolve_strategy e) e
