-- ===== src/Tests/Peers.antt =====
-- The health of agents and of nodes, over buckets in memory.
use Prim.Native.Nat.{max}
use baran_os.Base.{
  ℕ, ◌<◌, ◌≤◌, ◌+◌, ◌≡◌, ◌⊎◌, inl, refl, [], ◌∷◌, codes, str_eq, has_prefix, if◌then◌else◌, none,
  ok, err, not_found, arith,
}
use baran_os.Kv.Memory.{
  Bucket, memory, memory-IsKeyValue, memory-Answers, plain, plain-IsCodec, empty,
}
use baran_os.Taxonomy.{TaxonomyEntry}
use baran_os.Registry.{active, AgentRegistration}
use baran_os.Registry.Lifecycle.Thresholds.{status_after}
use baran_os.Registry.Store.{Buckets, KvRegistry, remote_prefix}
use baran_os.Registry.Store
use baran_os.Health.{Monitor, Watch}
use baran_os.Health
use baran_os.Health.Silence.{unanswered, silent_agent_removed}
use baran_os.Health.Pongs.{Recorded, pong-Recorded}
use baran_os.Federation.Nodes.{NodeInfo, NodeRegistry, node_dead, get, list}
use baran_os.Federation.Monitor.{Peers, Gateway, handle_pong, clean_node, handle_node_unregister}
use baran_os.Federation.Monitor.Departures.{dead_node_lingers, departed_node_purged}

abbrev Agents : Type 0
Agents = Bucket AgentRegistration

abbrev Vendors : Type 0
Vendors = Bucket TaxonomyEntry

abbrev registry : KvRegistry Agents Vendors AgentRegistration TaxonomyEntry
registry = record {
  kv = memory AgentRegistration;
  codec = plain AgentRegistration;
  catalog_kv = memory TaxonomyEntry;
  entry_codec = plain TaxonomyEntry;
  catalog = none;
  unhealthy_threshold = 3;
  dead_threshold = 6;
}

abbrev worker : AgentRegistration
worker = record {
  agent_id = codes "w";
  agent_type = codes "llm";
  version = codes "1";
  capabilities = [];
  labels = [];
  status = active;
  last_seen = 1;
  missed_heartbeats = 0;
  node_id = codes "n1";
  origin = [];
  revision = 3;
}

abbrev one : Buckets Agents Vendors
one = record {
  agents = record {
    sequence = 3;
    entries = (codes "w", record { value = worker; revision = 3 }) ∷ [];
  };
  vendors = empty;
}

stored : Store.get registry (codes "w") one ≡ ok (worker, 3)
unfolding Store.get memory
stored = refl

abbrev monitor : Monitor Agents Vendors AgentRegistration TaxonomyEntry
monitor = record {
  registry = registry;
  node_id = codes "n1";
  marshal_ping = λ id n. ok id;
  marshal_dead = λ id. id;
  unmarshal_pong = λ bytes. ok bytes;
  bus_takes = λ e. ok tt;
  uuid = λ n. n ∷ [];
  now = λ n. n;
}

abbrev watch : Watch Agents Vendors
watch = record { stores = one; sequence = 0; published = [] }

silent_agent_removed_example :
    ((6 < max 6 (3 + 1))
      × ((now : AgentRegistration) × (k : ℕ) × (Store.get registry
              (codes "w")
              (unanswered monitor 6 (codes "w") watch).stores
            ≡ ok (now, k))
          × (now.missed_heartbeats ≡ 6)
          × (now.status ≡ status_after 3 6 6)))
    ⊎ ((max 6 (3 + 1) ≤ 6)
        × (Store.get registry (codes "w") (unanswered monitor 6 (codes "w") watch).stores
            ≡ err not_found))
silent_agent_removed_example =
    silent_agent_removed monitor (memory-IsKeyValue, plain-IsCodec) (λ id n. refl) (omega arith)
      (omega arith) (omega arith) (codes "w") 6 watch worker 3 (omega arith) stored refl refl refl

pong-Recorded_example :
    ((Health.handle_pong monitor (λ n s. s) 9 (codes "w") one).0 ≡ ok tt)
    × Recorded monitor
        (memory-IsKeyValue, plain-IsCodec)
        (codes "w")
        9
        (Health.handle_pong monitor (λ n s. s) 9 (codes "w") one).1
pong-Recorded_example =
    pong-Recorded monitor (memory-IsKeyValue, plain-IsCodec) (codes "w") 9 (λ n s. s)
      (λ n s there. there) (codes "w") one refl (λ s. refl) (worker, 3, stored)

abbrev peer : NodeInfo
peer = record {
  node_id = codes "n2";
  address = codes "tcp";
  status = node_dead;
  capabilities_count = 0;
  last_seen = 1;
  joined_at = 1;
  missed_heartbeats = 6;
  version = codes "1";
  revision = 2;
}

abbrev nodes : NodeRegistry (Bucket NodeInfo) NodeInfo
nodes = record {
  kv = memory NodeInfo;
  codec = plain NodeInfo;
  unhealthy_threshold = 3;
  dead_threshold = 6;
}

abbrev gateway : Gateway (Bucket NodeInfo) NodeInfo Agents Vendors AgentRegistration TaxonomyEntry
gateway = record {
  node_id = codes "n1";
  registry = nodes;
  agent_registry = registry;
  cleanup_ttl = 100;
  marshal_ping = λ id n. ok id;
  marshal_pong = λ id n. ok id;
  unmarshal_ping = λ bytes. ok (bytes, 0);
  unmarshal_pong = λ bytes. ok bytes;
  marshal_register = λ n. ok n.node_id;
  unmarshal_register = λ bytes. ok peer;
  unmarshal_unregister = λ bytes. ok bytes;
  transport_takes = λ subject bytes. ok tt;
  alias_snapshot = none;
}

abbrev peers : Peers (Bucket NodeInfo) Agents Vendors
peers = record {
  nodes = record {
    sequence = 2;
    entries = (codes "n2", record { value = peer; revision = 2 }) ∷ [];
  };
  agents = one;
  sequence = 0;
  sent = [];
}

known : get nodes (codes "n2") peers.nodes ≡ ok (peer, 2)
unfolding get memory
known = refl

all_known : list nodes peers.nodes ≡ ok (peer ∷ [])
unfolding list get memory
all_known = refl

keys : (memory AgentRegistration).keys one.agents ≡ ok (codes "w" ∷ [])
unfolding memory
keys = refl

dead_node_lingers_example :
    let after = handle_pong gateway 50 (codes "n2") peers in
    (seen : NodeInfo) × (k : ℕ) × (get nodes (codes "n2") after.nodes ≡ ok (seen, k))
    × (seen.status ≡ node_dead)
    × (seen.last_seen ≡ 50)
    × (clean_node gateway 120 seen after ≡ after)
unfolding str_eq
dead_node_lingers_example =
    dead_node_lingers gateway (memory-IsKeyValue, plain-IsCodec) peers (codes "n2") (codes "n2")
      peer 2 50 120 refl refl known refl (omega arith)

departed_node_purged_example :
    let after = handle_node_unregister gateway (codes "n2") peers in
    ((n : ℕ) × (get nodes (codes "n2") after.nodes
        ≡ ok (record peer { status = node_dead; revision = n }, n)))
    × (Store.get registry (codes "w") after.agents ≡ (
        if has_prefix (codes "w") (remote_prefix (codes "n2"))
        then err not_found
        else Store.get registry (codes "w") one))
unfolding str_eq
departed_node_purged_example =
    departed_node_purged gateway (memory-IsKeyValue, plain-IsCodec)
      (memory-IsKeyValue, plain-IsCodec) peers (codes "n2") (codes "n2") (codes "w") peer 2 refl
      refl known (inl (codes "w" ∷ [], keys)) (memory-Answers (codes "w") one.agents)
