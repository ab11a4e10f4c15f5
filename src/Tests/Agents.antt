-- ===== src/Tests/Agents.antt =====
-- The registry of agents over buckets in memory.
use mathlib.Core.List.{Permᴰ}
use baran_os.Base.{
  ◌++◌, ℕ, ◌≡◌, ◌≢◌, ◌↔◌, inl, inr, refl, List, [], ◌∷◌, All, In, codes, str_eq, eq_iff, none, true,
  ok, err, not_found, cas_conflict, arith,
}
use baran_os.Kv.Memory.{Bucket, memory, memory-IsKeyValue, plain, plain-IsCodec, empty}
use baran_os.Taxonomy.{Capability, TaxonomyEntry}
use baran_os.Registry.{active, dead, AgentRegistration, remote_origin}
use baran_os.Registry.Lifecycle.{misses}
use baran_os.Registry.Lifecycle.Thresholds.{status_after, misses_exact}
use baran_os.Registry.Store.{
  Buckets, KvRegistry, get, list, register, deregister_remotes_by_node, remote_key, update_status,
  record_heartbeat, increment_missed_heartbeats,
}
use baran_os.Registry.Store.Writes.{Laws}
use baran_os.Registry.Store.Heartbeats.{stale_refused}
use baran_os.Registry.Store.Registering.{IsAccepted, get-register}
use baran_os.Registry.Store.Remote.{dotted_node_removed}
use baran_os.Registry.Glob.{glob_match}
use baran_os.Registry.Glob.Decides.{Matches, glob_match_exact}
use baran_os.Registry.Find.{find_by_capability}
use baran_os.Registry.Find.Exact.{Offers, IsSortedById, find_exact}

abbrev Agents : Type 0
Agents = Bucket AgentRegistration

abbrev Vendors : Type 0
Vendors = Bucket TaxonomyEntry

abbrev registry : KvRegistry Agents Vendors AgentRegistration TaxonomyEntry
registry = record {
  kv = memory AgentRegistration;
  codec = plain AgentRegistration;
  catalog_kv = memory TaxonomyEntry;
  entry_codec = plain TaxonomyEntry;
  catalog = none;
  unhealthy_threshold = 2;
  dead_threshold = 3;
}

laws : Laws registry
laws = (memory-IsKeyValue, plain-IsCodec)

abbrev scan : Capability
scan = record {
  name = codes "security.scan";
  version = codes "1.2";
  description = [];
  parameters = [];
  category = [];
  action = [];
  input_types = [];
  output_types = [];
}

abbrev worker : AgentRegistration
worker = record {
  agent_id = codes "w";
  agent_type = codes "llm";
  version = codes "1";
  capabilities = scan ∷ [];
  labels = [];
  status = active;
  last_seen = 1;
  missed_heartbeats = 0;
  node_id = codes "n1";
  origin = [];
  revision = 3;
}

abbrev nothing : Buckets Agents Vendors
nothing = record { agents = empty; vendors = empty }

-- the worker, at revision 3
abbrev one : Buckets Agents Vendors
one = record {
  agents = record {
    sequence = 3;
    entries = (codes "w", record { value = worker; revision = 3 }) ∷ [];
  };
  vendors = empty;
}

other_id : codes "w" ≢ codes "v"
unfolding str_eq
other_id p = cc ((eq_iff (codes "w") (codes "v")).1 p)

stored : get registry (codes "w") one ≡ ok (worker, 3)
unfolding get memory
stored = refl

get-register_example :
    (caps : List Capability) × All (IsAccepted none) caps
    × (caps ≡ worker.capabilities)
    × (get registry (codes "w") (register registry 9 worker nothing).1
        ≡ ok (
          record worker {
            capabilities = caps;
            status = active;
            last_seen = 9;
            missed_heartbeats = 0;
            revision = 1;
          },
          1,
        ))
unfolding memory register
get-register_example = get-register registry laws 9 worker nothing 1 tt (inl refl) refl

stale : ◌≢◌ {A = ℕ} 3 2
stale p = cc

stale_refused_example :
    (increment_missed_heartbeats registry (codes "w") 2 one ≡ (err cas_conflict, one))
    × (record_heartbeat registry 9 (codes "w") 2 one ≡ (err cas_conflict, one))
    × (update_status registry (codes "w") dead 2 one ≡ (err cas_conflict, one))
stale_refused_example = stale_refused registry laws (codes "w") one worker 3 stored 9 2 dead stale

misses_exact_example :
    ((misses 2 3 3 worker).missed_heartbeats ≡ 3)
    × ((misses 2 3 3 worker).status ≡ status_after 2 3 3)
misses_exact_example =
    misses_exact 2 3 (omega arith) (omega arith) (omega arith) 3 worker (omega arith) refl refl

other_key : remote_key (codes "a.b") (codes "w") ≢ codes "v"
unfolding str_eq
other_key p = cc ((eq_iff (remote_key (codes "a.b") (codes "w")) (codes "v")).1 p)

-- an agent of the node "a.b"
abbrev far : AgentRegistration
far = record worker { node_id = codes "a.b"; origin = remote_origin }

abbrev remotes : Buckets Agents Vendors
remotes = record {
  agents = record {
    sequence = 1;
    entries = (remote_key (codes "a.b") (codes "w"), record { value = far; revision = 1 }) ∷ [];
  };
  vendors = empty;
}

-- the node "a" is removed, and the agent of "a.b" with it
dotted_node_removed_example :
    get registry
      (remote_key (codes "a.b") (codes "w"))
      (deregister_remotes_by_node registry (codes "a") remotes).1
    ≡ err not_found
unfolding memory
dotted_node_removed_example =
    dotted_node_removed registry laws (codes "a") (codes "b") (codes "w") remotes
      (inl (remote_key (codes "a.b") (codes "w") ∷ [], refl))
      (inr (record { value = far; revision = 1 }, refl))

find_exact_example :
    (out : List AgentRegistration) × (find_by_capability registry
        (codes "security.*")
        (codes "1.x")
        one
      ≡ ok out)
    × IsSortedById out
    × ((a : AgentRegistration)
        → In a out ↔ (In a (worker ∷ []) × Offers (codes "security.*") (codes "1.x") a))
    × ((others : List AgentRegistration) × Permᴰ (out ++ others) (worker ∷ [])
        × All (λ a. ¬ (Offers (codes "security.*") (codes "1.x") a)) others)
unfolding list memory get
find_exact_example = find_exact registry (codes "security.*") (codes "1.x") one (worker ∷ []) refl

glob_match_exact_example :
    (glob_match (codes "a*c?") (codes "abbcd") ≡ true) ↔ Matches (codes "a*c?") (codes "abbcd")
glob_match_exact_example = glob_match_exact (codes "a*c?") (codes "abbcd")
