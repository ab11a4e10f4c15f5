-- ===== src/Tests/Routes.antt =====
-- The router at concrete events.
use baran_os.Base.{
  ◌≡◌, ◌≢◌, ◌↔◌, refl, [], ◌∷◌, codes, str_eq, some, Bool, true, false, Result, ok, err, not_found,
}
use baran_os.Eventbus.{Event}
use baran_os.Taxonomy.{Capability}
use baran_os.Registry.{AgentRegistration, active, remote_origin}
use baran_os.Router.Strategy.{direct, capability, capability_key, resolve_strategy}
use baran_os.Router.Streams.{default_stream_registry, match_subject}
use baran_os.Router.Streams.Matching.{SubjectMatches, match_subject_exact}
use baran_os.Router.Dispatch.{World, Relay, DefaultRouter, relayed_key, route}
use baran_os.Router.Dispatch.Delivery.{Sends, route-Sends}

abbrev scan : Capability
scan = record {
  name = codes "scan";
  version = [];
  description = [];
  parameters = [];
  category = [];
  action = [];
  input_types = [];
  output_types = [];
}

abbrev local : AgentRegistration
local = record {
  agent_id = codes "w";
  agent_type = [];
  version = [];
  capabilities = scan ∷ [];
  labels = [];
  status = active;
  last_seen = 0;
  missed_heartbeats = 0;
  node_id = codes "n1";
  origin = [];
  revision = 1;
}

abbrev far : AgentRegistration
far = record local { agent_id = codes "f"; origin = remote_origin }

abbrev known : Bool → Result AgentRegistration
known true = ok local
known false = err not_found

-- another node has every agent that is asked for
abbrev elsewhere : Relay Unit
elsewhere = record { is_remote_agent = λ a e. ok (true, codes "n2"); takes = λ n m w. ok tt }

-- a router whose registry holds the local agent
abbrev router : DefaultRouter Unit
router = record {
  bus_takes = λ m w. ok tt;
  get_agent = λ a e. known (str_eq a (codes "w"));
  list_agents = λ e. ok (local ∷ []);
  streams = λ e. default_stream_registry;
  get_or_create_stream = λ i e. (ok i, e);
  relay = some elsewhere;
  uuid = λ n. n ∷ [];
  now = λ e. 0;
  marshal_agent_error = λ a c. ok c;
}

abbrev quiet : World Unit
quiet = record { env = tt; sent = []; uuids = 0 }

abbrev event : Event
event = record {
  id = codes "e1";
  type = codes "task";
  source_node = codes "n1";
  source_agent = codes "a";
  target_agent = codes "w";
  workflow_id = [];
  correlation_id = [];
  timestamp = 0;
  metadata = [];
  payload = [];
}

abbrev marked : Event
marked = record event { target_agent = codes "gone"; metadata = (relayed_key, codes "true") ∷ [] }

abbrev wanted : Event
wanted = record event { target_agent = []; metadata = (capability_key, codes "scan") ∷ [] }

is_direct : resolve_strategy event ≡ direct
unfolding resolve_strategy
is_direct = refl

not_by_capability : resolve_strategy event ≢ capability
unfolding resolve_strategy
not_by_capability p = cc p

match_subject_exact_example :
    (match_subject (codes "workflow.*.step") (codes "workflow.7.step") ≡ true)
    ↔ SubjectMatches (codes "workflow.*.step") (codes "workflow.7.step")
match_subject_exact_example =
    match_subject_exact (codes "workflow.*.step") (codes "workflow.7.step")

route-Sends_example : Sends router (route router event quiet).0 [] (route router event quiet).1.sent
route-Sends_example = route-Sends router event quiet not_by_capability
