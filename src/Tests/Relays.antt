-- ===== src/Tests/Relays.antt =====
-- Two nodes that relay events and synchronise agents and aliases, with messages as values.
use baran_os.Base.{
  ℕ, ◌≡◌, ◌≢◌, ◌++◌, refl, [], ◌∷◌, codes, GoString, lookup, str_eq, Option, if◌then◌else◌, none,
  some, Result, ok, err, key_not_found, not_found, arith,
}
use baran_os.Kv.{IsCodec}
use baran_os.Kv.Memory.{
  Bucket, memory, memory-IsKeyValue, memory-Answers, plain, plain-IsCodec, empty,
}
use baran_os.Eventbus.{Event}
use baran_os.Taxonomy.{TaxonomyEntry}
use baran_os.Registry.{AgentRegistration, active, is_remote}
use baran_os.Registry.Store.{KvRegistry, get, remote_key}
use baran_os.Registry.Aliases.{AliasMapping, AliasRegistrySnapshot}
use baran_os.Registry.Aliases.Merge.{held, later_of}
use baran_os.Router.Streams.{default_stream_registry}
use baran_os.Router.Dispatch.{DefaultRouter, published, workflow_event, route}
use baran_os.Federation.Relaying.{
  RelayPayload, Relayer, Link, marked, without_marks, relay_subject, relay, handle_incoming_relay,
  forward_result_to_source,
}
use baran_os.Federation.Relaying.Roundtrip.{relayed_event_arrives}
use baran_os.Federation.Relaying.Returning.{relayed_result_misaddressed}
use baran_os.Sdk.Payloads.{step_result_type}
use baran_os.Federation.Sync.{
  Announcement, FederationCapability, FederationRemoval, AliasUpdate, Sync, Shared,
  handle_local_announce, handle_remote_announce, handle_remote_remove, publish_alias_create,
  publish_alias_delete, handle_alias_update,
}
use baran_os.Federation.Sync.Spreading.{agent_spreads, alias_spreads}
use baran_os.Federation.Relaying.{is_remote_agent}
use baran_os.Federation.Relaying.Bouncing.{agent_of, KnownRemote, relayed_again}
use baran_os.Router.Dispatch.{Relay, relayed}
use baran_os.Registry.Store.{Buckets, list}
use baran_os.Base.{inl}
use baran_os.Discovery.{Discovery, Known, handle_agent_error}
use baran_os.Discovery.Withdrawing.{no_capabilities, dead_agent_withdrawn}

abbrev local_router : DefaultRouter Unit
local_router = record {
  bus_takes = λ m w. ok tt;
  get_agent = λ a e. err key_not_found;
  list_agents = λ e. ok [];
  streams = λ e. default_stream_registry;
  get_or_create_stream = λ i e. (ok i, e);
  relay = none;
  uuid = λ n. n ∷ [];
  now = λ e. 0;
  marshal_agent_error = λ a c. ok c;
}

abbrev relayer : GoString → Option (DefaultRouter Unit) → Relayer Unit Event (RelayPayload Event)
relayer node r = record {
  node_id = node;
  event_codec = plain Event;
  relay_codec = plain (RelayPayload Event);
  transport_takes = λ subject bytes. ok tt;
  uuid = λ n. n ∷ [];
  now = λ n. n;
  local_router = r;
  ensure_stream = some (λ stream. err key_not_found);
  subscribe = λ stream subject. ok tt;
}

abbrev idle : Link Unit (RelayPayload Event)
idle = record {
  out = [];
  router = record { env = tt; sent = []; uuids = 0 };
  relayed_workflows = [];
  forwards = [];
}

abbrev task : Event
task = record {
  id = codes "e1";
  type = codes "workflow.step.dispatch";
  source_node = codes "n1";
  source_agent = codes "a";
  target_agent = codes "w";
  workflow_id = codes "wf";
  correlation_id = [];
  timestamp = 0;
  metadata = [];
  payload = [];
}

relayed_event_arrives_example :
    (bytes : RelayPayload Event) × ((relay (relayer (codes "n1") none) (codes "n2") task idle).1.out
      ≡ (codes "federation.relay.n2.workflow.step.dispatch", bytes) ∷ [])
    × ((got : Event) × ((handle_incoming_relay
            (relayer (codes "n2") (some local_router))
            bytes
            idle).router
          ≡ (route local_router got idle.router).1)
        × (record got { metadata = [] } ≡ task)
        × ((key : GoString)
            → lookup key got.metadata ≡ (
                if str_eq (codes "federation.source_node") key
                then some (codes "n1")
                else if str_eq (codes "federation.relayed") key
                then some (codes "true")
                else none)))
unfolding lookup
relayed_event_arrives_example =
    relayed_event_arrives (relayer (codes "n1") none) (relayer (codes "n2") (some local_router))
      plain-IsCodec plain-IsCodec refl refl task idle idle local_router (λ subject bytes. refl) refl

abbrev answer : Event
answer = record task {
  id = codes "e2";
  type = step_result_type (codes "wf");
  source_agent = codes "w";
  target_agent = [];
}

relayed_result_misaddressed_example :
    let arrived = workflow_event (marked (codes "n2") answer) in
    (bytes : RelayPayload Event) × ((forward_result_to_source
        (relayer (codes "n2") none)
        (codes "n1")
        answer
        idle).out
      ≡ (relay_subject (relayer (codes "n2") none) (codes "n1") answer, bytes) ∷ [])
    × ((handle_incoming_relay (relayer (codes "n1") (some local_router)) bytes idle).router.sent
        ≡ published arrived ∷ [])
    × (arrived.type
        ≡ codes "workflow." ++ (codes "wf" ++ (codes "." ++ step_result_type (codes "wf"))))
    × (arrived.type ≢ step_result_type (codes "wf"))
unfolding without_marks lookup
relayed_result_misaddressed_example =
    relayed_result_misaddressed (relayer (codes "n2") none)
      (relayer (codes "n1") (some local_router)) plain-IsCodec plain-IsCodec refl refl answer idle
      idle local_router (codes "wf") (λ subject bytes. refl) refl refl refl refl refl refl
      (λ m v. refl)

data Message : Type 0 where
  capability : FederationCapability → Message
  removal : FederationRemoval → Message
  names : AliasRegistrySnapshot → Message
  update : AliasUpdate → Message

read_capability : Message → Result FederationCapability
read_capability (capability p) = ok p
read_capability (removal p) = err key_not_found
read_capability (names p) = err key_not_found
read_capability (update p) = err key_not_found

read_removal : Message → Result FederationRemoval
read_removal (removal p) = ok p
read_removal (capability p) = err key_not_found
read_removal (names p) = err key_not_found
read_removal (update p) = err key_not_found

read_names : Message → Result AliasRegistrySnapshot
read_names (names p) = ok p
read_names (capability p) = err key_not_found
read_names (removal p) = err key_not_found
read_names (update p) = err key_not_found

read_update : Message → Result AliasUpdate
read_update (update p) = ok p
read_update (capability p) = err key_not_found
read_update (removal p) = err key_not_found
read_update (names p) = err key_not_found

abbrev Agents : Type 0
Agents = Bucket AgentRegistration

abbrev Vendors : Type 0
Vendors = Bucket TaxonomyEntry

abbrev Names : Type 0
Names = Bucket AliasMapping

abbrev registry : KvRegistry Agents Vendors AgentRegistration TaxonomyEntry
registry = record {
  kv = memory AgentRegistration;
  codec = plain AgentRegistration;
  catalog_kv = memory TaxonomyEntry;
  entry_codec = plain TaxonomyEntry;
  catalog = none;
  unhealthy_threshold = 3;
  dead_threshold = 6;
}

abbrev announcement : Announcement
announcement = record {
  agent_id = codes "w";
  capabilities =
      record {
        name = codes "scan";
        version = codes "1";
        description = [];
        parameters = [];
        category = codes "security";
        action = codes "scan";
        input_types = [];
        output_types = [];
      }
      ∷ [];
}

abbrev sync :
    GoString → Sync Agents Vendors AgentRegistration TaxonomyEntry Names AliasMapping Message
sync node = record {
  node_id = node;
  agent_registry = registry;
  alias_registry = record { kv = memory AliasMapping; codec = plain AliasMapping; node_id = node };
  announcements = record { marshal = λ p. ok p.agent_id; unmarshal = λ bytes. ok announcement };
  capabilities = record { marshal = λ p. ok (capability p); unmarshal = read_capability };
  removals = record { marshal = λ p. ok (removal p); unmarshal = read_removal };
  snapshots = record { marshal = λ p. ok (names p); unmarshal = read_names };
  updates = record { marshal = λ p. ok (update p); unmarshal = read_update };
  transport_takes = λ subject bytes. ok tt;
}

capabilities-IsCodec : (node : GoString) → IsCodec (sync node).capabilities
unfolding read_capability
capabilities-IsCodec node = record {
  marshal_total = λ p. (capability p, refl);
  unmarshal-marshal = λ p v h. ground (arith, h);
}

updates-IsCodec : (node : GoString) → IsCodec (sync node).updates
unfolding read_update
updates-IsCodec node = record {
  marshal_total = λ p. (update p, refl);
  unmarshal-marshal = λ p v h. ground (arith, h);
}

abbrev worker : AgentRegistration
worker = record {
  agent_id = codes "w";
  agent_type = codes "llm";
  version = codes "1";
  capabilities = announcement.capabilities;
  labels = [];
  status = active;
  last_seen = 1;
  missed_heartbeats = 0;
  node_id = codes "n1";
  origin = [];
  revision = 3;
}

abbrev first : Shared Agents Vendors Names Message
first = record {
  agents = record {
    agents = record {
      sequence = 3;
      entries = (codes "w", record { value = worker; revision = 3 }) ∷ [];
    };
    vendors = empty;
  };
  aliases = empty;
  out = [];
}

abbrev second : Shared Agents Vendors Names Message
second = record { agents = record { agents = empty; vendors = empty }; aliases = empty; out = [] }

stored : get registry (codes "w") first.agents ≡ ok (worker, 3)
unfolding get memory
stored = refl

agent_spreads_example :
    (m : Message) × ((handle_local_announce (sync (codes "n1")) [] first).out
      ≡ (codes "federation.capability.announce", m) ∷ [])
    × ((n : ℕ) × (get registry
            (remote_key (codes "n1") (codes "w"))
            (handle_remote_announce (sync (codes "n2")) 7 m second).agents
          ≡ ok (
            record {
              agent_id = codes "w";
              agent_type = codes "llm";
              version = [];
              capabilities =
                  record {
                    name = codes "scan";
                    version = codes "1";
                    description = [];
                    parameters = [];
                    category = [];
                    action = [];
                    input_types = [];
                    output_types = [];
                  }
                  ∷ [];
              labels = [];
              status = active;
              last_seen = 7;
              missed_heartbeats = 0;
              node_id = codes "n1";
              origin = codes "remote";
              revision = n;
            },
            n,
          )))
unfolding str_eq is_remote
agent_spreads_example =
    agent_spreads (sync (codes "n1")) (sync (codes "n2")) (λ subject bytes. refl) refl
      (capabilities-IsCodec (codes "n1")) refl (memory-IsKeyValue, plain-IsCodec) first second 7 []
      announcement worker 3 refl refl stored refl refl refl
      (memory-Answers (remote_key (codes "n1") (codes "w")) empty)

abbrev alias : AliasMapping
alias = record {
  id = codes "1";
  source = codes "scan";
  target = codes "audit";
  node_id = codes "n1";
  created_at = 5;
}

alias_spreads_example :
    ((m : Message) × ((publish_alias_create (sync (codes "n1")) alias first).out
        ≡ (codes "federation.alias.update", m) ∷ [])
      × (held
            (sync (codes "n2")).alias_registry
            (codes "1")
            (handle_alias_update (sync (codes "n2")) m second).aliases
          ≡ some alias))
    × ((m : Message) × ((publish_alias_delete (sync (codes "n1")) (codes "1") first).out
          ≡ (codes "federation.alias.update", m) ∷ [])
        × ((memory AliasMapping).get
              (codes "1")
              (handle_alias_update (sync (codes "n2")) m second).aliases
            ≡ err key_not_found))
unfolding str_eq held later_of memory
alias_spreads_example =
    alias_spreads (sync (codes "n1")) (sync (codes "n2")) (λ subject bytes. refl) refl
      (updates-IsCodec (codes "n1")) refl (memory-IsKeyValue, plain-IsCodec)
      (λ k d. memory-Answers k d) first second alias refl

removals-IsCodec : (node : GoString) → IsCodec (sync node).removals
unfolding read_removal
removals-IsCodec node = record {
  marshal_total = λ p. (removal p, refl);
  unmarshal-marshal = λ p v h. ground (arith, h);
}

abbrev listener : Sync Agents Vendors AgentRegistration TaxonomyEntry Names AliasMapping Message
listener = record (sync (codes "n1")) {
  announcements = record {
    marshal = λ p. ok p.agent_id;
    unmarshal = λ bytes. ok (no_capabilities bytes);
  };
}

abbrev discovery : Discovery Agents Vendors AgentRegistration TaxonomyEntry Names AliasMapping
discovery = record {
  node_id = codes "n1";
  registry = registry;
  alias_registry = none;
  unmarshal_request = λ bytes. ok (bytes, []);
  unmarshal_register = λ bytes. ok announcement;
  unmarshal_unregister = λ bytes. ok bytes;
  unmarshal_agent_error = λ bytes. ok (bytes, codes "AGENT_DEAD");
  marshal_matches = λ ms. ok [];
  marshal_announcement = λ p. ok p.agent_id;
  marshal_error = λ agent code. ok code;
  bus_takes = λ e. ok tt;
  uuid = λ n. n ∷ [];
  now = λ n. n;
}

abbrev dead : Event
dead = record task { type = codes "agent.error"; payload = codes "w" }

abbrev known : Known Agents Vendors Names
known = record { agents = first.agents; aliases = empty; published = []; uuids = 0 }

dead_agent_withdrawn_example :
    (event : Event) × ((handle_agent_error discovery dead known).1.published ≡ event ∷ [])
    × (event.type ≡ codes "agent.capability.announce")
    × ((m : Message) × ((handle_local_announce listener event.payload first).out
          ≡ (codes "federation.capability.remove", m) ∷ [])
        × (get registry
              (remote_key (codes "n1") (codes "w"))
              (handle_remote_remove (sync (codes "n2")) m second).agents
            ≡ err not_found))
unfolding str_eq
dead_agent_withdrawn_example =
    dead_agent_withdrawn discovery listener (sync (codes "n2")) (λ subject bytes. refl) refl
      (λ agent. (agent, refl, refl)) (λ e. refl) (removals-IsCodec (codes "n1")) refl
      (memory-IsKeyValue, plain-IsCodec) known first second dead (codes "w") refl

-- an agent that the node n2 knows from the node n3
abbrev far : AgentRegistration
far = record worker { node_id = codes "n3"; origin = codes "remote" }

abbrev third : Buckets Agents Vendors
third = record {
  agents = record {
    sequence = 3;
    entries = (codes "remote.n3.w", record { value = far; revision = 3 }) ∷ [];
  };
  vendors = empty;
}

abbrev elsewhere : Relay (Buckets Agents Vendors)
elsewhere = record { is_remote_agent = is_remote_agent registry; takes = λ node m w. ok tt }

abbrev third_router : DefaultRouter (Buckets Agents Vendors)
third_router = record {
  bus_takes = λ m w. ok tt;
  get_agent = λ id s. agent_of (get registry id s);
  list_agents = λ s. list registry s;
  streams = λ e. default_stream_registry;
  get_or_create_stream = λ i e. (ok i, e);
  relay = some elsewhere;
  uuid = λ n. n ∷ [];
  now = λ e. 0;
  marshal_agent_error = λ a c. ok c;
}

abbrev between : Relayer (Buckets Agents Vendors) Event (RelayPayload Event)
between = record {
  node_id = codes "n2";
  event_codec = plain Event;
  relay_codec = plain (RelayPayload Event);
  transport_takes = λ subject bytes. ok tt;
  uuid = λ n. n ∷ [];
  now = λ n. n;
  local_router = some third_router;
  ensure_stream = none;
  subscribe = λ stream subject. ok tt;
}

abbrev at_rest : Link (Buckets Agents Vendors) (RelayPayload Event)
at_rest = record {
  out = [];
  router = record { env = third; sent = []; uuids = 0 };
  relayed_workflows = [];
  forwards = [];
}

far_listed : list registry third ≡ ok (far ∷ [])
unfolding list get memory
far_listed = refl

not_local : get registry (codes "w") third ≡ err not_found
unfolding get memory
not_local = refl

relayed_again_example :
    (bytes : RelayPayload Event) × ((relay (relayer (codes "n1") none) (codes "n2") task idle).1.out
      ≡ (codes "federation.relay.n2.workflow.step.dispatch", bytes) ∷ [])
    × ((there : AgentRegistration) × KnownRemote (codes "w") (far ∷ []) there
        × ((got : Event) × ((handle_incoming_relay between bytes at_rest).router.sent
              ≡ relayed there.node_id got ∷ [])
            × (record got { metadata = [] } ≡ task)
            × (lookup (codes "federation.relayed") got.metadata ≡ some (codes "true"))))
unfolding is_remote str_eq
relayed_again_example =
    relayed_again (relayer (codes "n1") none) between plain-IsCodec plain-IsCodec refl refl registry
      task idle at_rest third_router elsewhere not_found (far ∷ []) far (λ subject bytes. refl) refl
      refl (λ id s. refl) (λ id s. refl) (λ node m w. refl) refl not_local far_listed
      (inl refl, refl, refl)
