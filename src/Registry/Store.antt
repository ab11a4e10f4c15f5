-- ===== src/Registry/Store.antt =====
-- core/registry/kv.go: KVRegistry over its two buckets. A method that writes is an action on the
-- pair of buckets; `time.Now()` is the argument `now`.
pub mod Writes
pub mod Heartbeats
pub mod Registering
pub mod Remote
use baran_os.Base.{
  ℕ, List, [], ◌∷◌, ◌++◌, is_empty, GoString, codes, Option, none, some, Bool, true, false, ◌&&◌,
  ◌||◌, not, if◌then◌else◌, Error, Result, ok, err, Exec, pure, raise, reads, lift, attempt, ◌>>=◌,
  ◌>>◌, cut, has_prefix, str_eq, key_not_found, no_keys_found, not_found, cas_conflict, validation,
}
use baran_os.Kv.{Entry, KeyValue, Codec}
use baran_os.Kv.Upsert.{create_or_update}
use baran_os.Taxonomy.{Capability, Catalog, TaxonomyEntry}
use baran_os.Registry.Types.{Status, active, AgentRegistration, remote_origin}
use baran_os.Registry.Lifecycle.{on_miss, on_heartbeat}

-- The two buckets: agent-registry and capability-catalog.
pub record Buckets (B C : Type 0) : Type 0 where
  pub agents : B
  pub vendors : C

-- KVRegistry. The catalog bucket is set exactly when there is a catalog, by the constructor.
pub record KvRegistry (B C V W : Type 0) : Type 0 where
  pub kv : KeyValue B V
  pub codec : Codec AgentRegistration V
  pub catalog_kv : KeyValue C W
  pub entry_codec : Codec TaxonomyEntry W
  pub catalog : Option Catalog
  pub unhealthy_threshold : ℕ  -- int32
  pub dead_threshold : ℕ  -- int32

abbrev pub on_agents : {A B C : Type 0} → Exec B A → Exec (Buckets B C) A
on_agents m s = let (r, b) = m s.agents in (r, record s { agents = b })

abbrev pub on_vendors : {A B C : Type 0} → Exec C A → Exec (Buckets B C) A
on_vendors m s = let (r, c) = m s.vendors in (r, record s { vendors = c })

-- `fmt.Errorf("%w: %v", ErrCASConflict, err)` on any error of the write
abbrev pub cas : {A S : Type 0} → Result A → Exec S A
cas (ok n) = pure n
cas (err e) = raise cas_conflict

abbrev pub missing_is : Error → Error → Error
missing_is e key_not_found = e
missing_is e other = other

abbrev guard : {S : Type 0} → Bool → Error → Exec S Unit
guard true e = pure tt
guard false e = raise e

abbrev invalid : {A : Type 0} → Result A → Result A
invalid (ok a) = ok a
invalid (err e) = err validation

abbrev is_none {ℓ} : {A : Type ℓ} → Option A → Bool
is_none none = true
is_none (some a) = false

abbrev split_name : Option (GoString × GoString) → TaxonomyEntry → TaxonomyEntry
split_name none e = e
split_name (some (category, action)) e = record e { category = category; action = action }

-- "remote." + nodeID + "."
abbrev pub remote_prefix : GoString → GoString
remote_prefix node_id = codes "remote." ++ (node_id ++ codes ".")

abbrev pub remote_key : GoString → GoString → GoString
remote_key node_id agent_id = codes "remote." ++ (node_id ++ (codes "." ++ agent_id))

module _ {B C V W : Type 0} (r : KvRegistry B C V W) where
  -- what a read of the bucket returns, decoded
  decoded : Result (Entry V) → Result (AgentRegistration × ℕ)
  decoded (ok entry) = elim (r.codec.unmarshal entry.value) [
    | ok reg ↦ ok (record reg { revision = entry.revision }, entry.revision)
    | err e ↦ err e
  ]
  decoded (err e) = err (missing_is not_found e)

  -- Get
  unfoldable pub get : GoString → Buckets B C → Result (AgentRegistration × ℕ)
  unfolding decoded
  get agent_id s = decoded (r.kv.get agent_id s.agents)

  -- the loop of List: a key that was purged since is left out, another error ends the loop
  list_keys : List GoString → Buckets B C → Result (List AgentRegistration)
  list_keys [] s = ok []
  list_keys (key ∷ ks) s =
      let rest = list_keys ks s in
      elim (get key s) [
        | err not_found ↦ rest
        | err e ↦ err e
        | ok (reg, rev) ↦ (elim rest [ ok regs ↦ ok (reg ∷ regs) | err e ↦ err e ])
      ]

  list_found : Result (List GoString) → Buckets B C → Result (List AgentRegistration)
  unfolding list_keys
  list_found (ok ks) s = list_keys ks s
  list_found (err no_keys_found) s = ok []
  list_found (err e) s = err e

  -- List
  unfoldable pub list : Buckets B C → Result (List AgentRegistration)
  unfolding list_found
  list s = list_found (r.kv.keys s.agents) s

  -- the last lines of every compare-and-set write: marshal, update at the caller's revision
  unfoldable pub write_at : GoString → AgentRegistration → ℕ → Exec (Buckets B C) ℕ
  write_at agent_id reg revision = do
    value ← lift (r.codec.marshal reg)
    written ← attempt (on_agents (r.kv.update agent_id value revision))
    cas written

  -- UpdateStatus
  unfoldable pub update_status : GoString → Status → ℕ → Exec (Buckets B C) ℕ
  unfolding get write_at
  update_status agent_id status revision = do
    found ← reads (get agent_id)
    write_at agent_id (record (found.0) { status = status }) revision

  -- RecordHeartbeat
  unfoldable pub record_heartbeat : ℕ → GoString → ℕ → Exec (Buckets B C) ℕ
  unfolding get write_at on_heartbeat
  record_heartbeat now agent_id revision = do
    found ← reads (get agent_id)
    write_at agent_id (on_heartbeat now found.0) revision

  -- IncrementMissedHeartbeats
  unfoldable pub increment_missed_heartbeats : GoString → ℕ → Exec (Buckets B C) (Status × ℕ)
  unfolding get write_at on_miss
  increment_missed_heartbeats agent_id revision = do
    found ← reads (get agent_id)
    let reg = on_miss r.unhealthy_threshold r.dead_threshold found.0
    rev ← write_at agent_id reg revision
    pure (reg.status, rev)

  -- storeVendorCapability: best effort, so no error comes back
  store_vendor_capability : Capability → Exec (Buckets B C) Unit
  store_vendor_capability cap s =
      let entry : TaxonomyEntry = split_name (cut b'.' cap.name) (record {
        name = cap.name;
        category = [];
        action = [];
        description = cap.description;
        input_types = cap.input_types;
        output_types = cap.output_types;
        catalog_version = codes "vendor";
      }) in
      elim (r.entry_codec.marshal entry) [
        | err e ↦ (ok tt, s)
        | ok value ↦ (ok tt, (on_vendors (r.catalog_kv.put cap.name value) s).1)
      ]

  -- one round of the loop over the capabilities in Register
  map_capability : Catalog → Capability → Exec (Buckets B C) Capability
  unfolding store_vendor_capability
  map_capability catalog cap = do
    lift (invalid (catalog.validate cap.name))
    let is_vendor = is_none (catalog.lookup_entry cap.name)
    guard (not (is_vendor && (is_empty cap.input_types || is_empty cap.output_types))) validation
    mapped ← lift (catalog.auto_map cap)
    if is_vendor then store_vendor_capability mapped else pure tt
    pure mapped

  map_capabilities : Catalog → List Capability → Exec (Buckets B C) (List Capability)
  map_capabilities catalog [] = pure []
  map_capabilities catalog (cap ∷ caps) = do
    mapped ← map_capability catalog cap
    rest ← map_capabilities catalog caps
    pure (mapped ∷ rest)

  unfoldable pub prepare : Option Catalog → List Capability → Exec (Buckets B C) (List Capability)
  unfolding map_capabilities map_capability
  prepare none caps = pure caps
  prepare (some catalog) caps = map_capabilities catalog caps

  -- Register
  unfoldable pub register : ℕ → AgentRegistration → Exec (Buckets B C) ℕ
  unfolding create_or_update prepare map_capabilities map_capability
  register now reg = do
    guard (not (is_empty reg.agent_id)) validation
    guard (not (is_empty reg.agent_type)) validation
    guard (not (is_empty reg.capabilities)) validation
    caps ← prepare r.catalog reg.capabilities
    value ← lift (
        r.codec.marshal (record reg {
          capabilities = caps;
          status = active;
          last_seen = now;
          missed_heartbeats = 0;
        }))
    on_agents (create_or_update r.kv reg.agent_id value)

  -- Deregister
  unfoldable pub deregister : GoString → Exec (Buckets B C) Unit
  deregister agent_id = do
    purged ← attempt (on_agents (r.kv.purge agent_id))
    elim purged [ ok _ ↦ pure tt | err key_not_found ↦ pure tt | err e ↦ raise e ]

  -- RegisterRemote
  unfoldable pub register_remote : ℕ → AgentRegistration → Exec (Buckets B C) Unit
  unfolding create_or_update
  register_remote now reg = do
    guard (not (is_empty reg.agent_id)) validation
    guard (not (is_empty reg.node_id)) validation
    value ← lift (
        r.codec.marshal (record reg {
          origin = remote_origin;
          status = active;
          last_seen = now;
          missed_heartbeats = 0;
        }))
    on_agents (create_or_update r.kv (remote_key reg.node_id reg.agent_id) value)
    pure tt

  -- the loop of DeregisterRemotesByNode
  purge_prefix : GoString → List GoString → Exec (Buckets B C) Unit
  purge_prefix prefix [] = pure tt
  purge_prefix prefix (key ∷ ks) =
      let rest = purge_prefix prefix ks in
      if has_prefix key prefix
      then (do
        purged ← attempt (on_agents (r.kv.purge key))
        elim purged [ ok _ ↦ rest | err key_not_found ↦ rest | err e ↦ raise e ])
      else rest

  -- DeregisterRemotesByNode
  unfoldable pub deregister_remotes_by_node : GoString → Exec (Buckets B C) Unit
  unfolding purge_prefix has_prefix
  deregister_remotes_by_node node_id s = elim (r.kv.keys s.agents) [
    | ok ks ↦ purge_prefix (remote_prefix node_id) ks s
    | err no_keys_found ↦ (ok tt, s)
    | err e ↦ (err e, s)
  ]
