-- ===== src/Discovery.antt =====
-- core/discovery: handler.go answers queries for agents, announcer.go announces what agents offer.
pub mod Withdrawing
use baran_os.Base.{
  ℕ, suc, List, [], ◌∷◌, ◌++◌, is_empty, GoString, codes, Option, none, some, not, if◌then◌else◌,
  str_eq, Result, ok, err, Exec,
}
use baran_os.Eventbus.{Event}
use baran_os.Taxonomy.{Capability}
use baran_os.Registry.{AgentRegistration, is_remote}
use baran_os.Registry.Store.{Buckets, KvRegistry}
use baran_os.Registry.Find.{find_by_capability}
use baran_os.Registry.Aliases.{AliasRegistry, seen, resolve}
use baran_os.Federation.Sync.{Announcement, shared_capabilities}

-- protocolv1.AgentCapabilityMatch
pub record Match : Type 0 where
  pub agent_id : GoString
  pub agent_type : GoString
  pub capabilities : List Capability
  pub source_node : GoString

-- DiscoveryHandler and CapabilityAnnouncer with protobuf, the bus, the clock and the UUIDs
pub record Discovery (A C W X D Y : Type 0) : Type 0 where
  pub node_id : GoString
  pub registry : KvRegistry A C W X
  pub alias_registry : Option (AliasRegistry D Y)
  pub unmarshal_request : GoString → Result (GoString × GoString)
  pub unmarshal_register : GoString → Result Announcement
  pub unmarshal_unregister : GoString → Result GoString
  pub unmarshal_agent_error : GoString → Result (GoString × GoString)
  pub marshal_matches : List Match → Result GoString
  pub marshal_announcement : Announcement → Result GoString
  pub marshal_error : GoString → GoString → Result GoString
  pub bus_takes : Event → Result Unit
  pub uuid : ℕ → GoString
  pub now : ℕ → ℕ

pub record Known (A C D : Type 0) : Type 0 where
  pub agents : Buckets A C
  pub aliases : D
  pub published : List Event
  pub uuids : ℕ

-- deduplicateByAgentID, with the ids that were seen
unfoldable pub deduplicate : List GoString → List AgentRegistration → List AgentRegistration
deduplicate ids [] = []
deduplicate ids (a ∷ agents) =
    let kept = deduplicate (a.agent_id ∷ ids) agents in
    let rest = deduplicate ids agents in if seen a.agent_id ids then rest else a ∷ kept

abbrev pub deduplicate_by_agent_id : List AgentRegistration → List AgentRegistration
deduplicate_by_agent_id = deduplicate []

abbrev or_none : Result (List AgentRegistration) → List AgentRegistration
or_none (ok agents) = agents
or_none (err e) = []

module _ {A C W X D Y : Type 0} (h : Discovery A C W X D Y) where
  -- the loop over the equivalent names
  equivalent_agents :
      GoString → List GoString → List GoString → Known A C D → List AgentRegistration
  equivalent_agents constraint names [] w = []
  equivalent_agents constraint names (name ∷ more) w =
      let skipped = equivalent_agents constraint names more w in
      let rest = equivalent_agents constraint (name ∷ names) more w in
      if seen name names
      then skipped
      else or_none (find_by_capability h.registry name constraint w.agents) ++ rest

  by_names :
      GoString → GoString → Result Unit × List GoString → Known A C D → List AgentRegistration
  unfolding equivalent_agents
  by_names name constraint (ok _, names) w =
      deduplicate_by_agent_id (equivalent_agents constraint (name ∷ []) names w)
  by_names name constraint (err e, names) w = []

  -- the fallback of handleDiscoveryRequest, where no agent offers the name itself
  by_alias : Option (AliasRegistry D Y) → GoString → GoString → Known A C D → List AgentRegistration
  unfolding by_names
  by_alias none name constraint w = []
  by_alias (some r) name constraint w = by_names name constraint (resolve r name w.aliases) w

  matching : List AgentRegistration → GoString → GoString → Known A C D → List AgentRegistration
  unfolding by_alias
  matching [] name constraint w = by_alias h.alias_registry name constraint w
  matching (a ∷ agents) name constraint w = a ∷ agents

  -- the agents that handleDiscoveryRequest finds
  unfoldable pub discover : GoString → GoString → Known A C D → Result (List AgentRegistration)
  unfolding matching
  discover name constraint w = elim (find_by_capability h.registry name constraint w.agents) [
    | err e ↦ err e
    | ok agents ↦ ok (matching agents name constraint w)
  ]

  match_of : AgentRegistration → Match
  match_of a = record {
    agent_id = a.agent_id;
    agent_type = a.agent_type;
    capabilities = shared_capabilities a.capabilities;
    source_node = if is_remote a then a.node_id else h.node_id;
  }

  unfoldable pub matches_of : List AgentRegistration → List Match
  unfolding match_of
  matches_of [] = []
  matches_of (a ∷ agents) = match_of a ∷ matches_of agents

  -- the events of the two files are published with these fields
  unfoldable pub publish_event : GoString → GoString → Result GoString → Exec (Known A C D) Unit
  publish_event type correlation (err e) w = (err e, w)
  publish_event type correlation (ok payload) w =
      let drawn = record w { uuids = suc w.uuids } in
      let event : Event = record {
        id = h.uuid w.uuids;
        type = type;
        source_node = h.node_id;
        source_agent = codes "runtime";
        target_agent = [];
        workflow_id = [];
        correlation_id = correlation;
        timestamp = h.now w.uuids;
        metadata = [];
        payload = payload;
      } in
      elim (h.bus_takes event) [
        | ok _ ↦ (ok tt, record drawn { published = drawn.published ++ event ∷ [] })
        | err e ↦ (err e, drawn)
      ]

  publish_error : GoString → GoString → Exec (Known A C D) Unit
  unfolding publish_event
  publish_error agent code = publish_event (codes "agent.error") [] (h.marshal_error agent code)

  answer : Event → Result (List AgentRegistration) → Exec (Known A C D) Unit
  unfolding publish_error publish_event matches_of
  answer e (err x) = publish_error e.source_agent (codes "DISCOVERY_FAILED")
  answer e (ok agents) =
      publish_event (codes "agent.discovery.response") e.correlation_id
        (h.marshal_matches (matches_of agents))

  -- handleDiscoveryRequest
  unfoldable pub handle_discovery_request : Event → Exec (Known A C D) Unit
  unfolding publish_error answer discover
  handle_discovery_request e w = elim (h.unmarshal_request e.payload) [
    | err x ↦ publish_error e.source_agent (codes "INVALID_PAYLOAD") w
    | ok (name, constraint) ↦
        if is_empty name
        then publish_error e.source_agent (codes "INVALID_DISCOVERY_REQUEST") w
        else answer e (discover name constraint w) w
  ]

  -- publishAnnounce
  unfoldable pub publish_announce : GoString → List Capability → Exec (Known A C D) Unit
  unfolding publish_event
  publish_announce agent_id caps =
      publish_event (codes "agent.capability.announce") []
        (h.marshal_announcement (record { agent_id = agent_id; capabilities = caps }))

  -- handleRegister of the announcer
  unfoldable pub handle_register : Event → Exec (Known A C D) Unit
  unfolding publish_announce
  handle_register e w = elim (h.unmarshal_register e.payload) [
    | err x ↦ (err x, w)
    | ok p ↦
        if is_empty p.capabilities then (ok tt, w) else publish_announce p.agent_id p.capabilities w
  ]

  -- handleUnregister
  unfoldable pub handle_unregister : Event → Exec (Known A C D) Unit
  unfolding publish_announce
  handle_unregister e w = elim (h.unmarshal_unregister e.payload) [
    | err x ↦ (err x, w)
    | ok agent_id ↦ publish_announce agent_id [] w
  ]

  -- handleAgentError: the agent and the code of the error
  unfoldable pub handle_agent_error : Event → Exec (Known A C D) Unit
  unfolding publish_announce
  handle_agent_error e w = elim (h.unmarshal_agent_error e.payload) [
    | err x ↦ (err x, w)
    | ok (agent_id, code) ↦
        if not (str_eq code (codes "AGENT_DEAD"))
        then (ok tt, w)
        else publish_announce agent_id [] w
  ]
