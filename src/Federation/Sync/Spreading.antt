-- ===== src/Federation/Sync/Spreading.antt =====
-- One node of core/federation tells another about an agent or an alias: both ends together.
use baran_os.Base.{
  refl, ℕ, List, Option, map, ◌≡◌, ap, ◌∙◌, [], ◌∷◌, ◌++◌, is_empty, GoString, codes, str_eq,
  str_eq_refl, none, some, true, false, ok, err, key_not_found, not_found, arith,
}
use baran_os.Kv.{IsCodec, IsKeyValue}
use baran_os.Kv.Upsert.{Answers}
use baran_os.Taxonomy.{Capability}
use baran_os.Registry.{AgentRegistration, active, is_remote}
use baran_os.Registry.Store.{get, remote_key}
use baran_os.Registry.Store.Writes.{Laws}
use baran_os.Registry.Store.Registering.{get-deregister}
use baran_os.Registry.Store.Remote.{register_remote-stores}
use baran_os.Registry.Aliases.{AliasMapping, apply_snapshot, remove_alias}
use baran_os.Registry.Aliases.Merge.{later_of, latest, held}
use baran_os.Registry.Aliases.Merging.{merge_all_held}
use baran_os.Federation.Sync.{
  Announcement, FederationCapability, FederationRemoval, AliasUpdate, create_op, delete_op, Sync,
  Shared, shared_capabilities, remote_registration, send, withdraw, offer, offered, announced,
  handle_local_announce, handle_remote_announce, handle_remote_remove, publish_alias_create,
  publish_alias_delete, update_aliases, handle_alias_update,
}

-- a capability with its name, version, description and parameters only
abbrev pub four_fields : Capability → Capability
four_fields c = record {
  name = c.name;
  version = c.version;
  description = c.description;
  parameters = c.parameters;
  category = [];
  action = [];
  input_types = [];
  output_types = [];
}

shared_capabilities-map :
    (cs : List Capability) → shared_capabilities (shared_capabilities cs) ≡ map four_fields cs
unfolding shared_capabilities
shared_capabilities-map [] = refl
shared_capabilities-map (c ∷ cs) = ap (λ l. four_fields c ∷ l) (shared_capabilities-map cs)

latest_one :
    (alias : AliasMapping) (old : Option AliasMapping)
    → latest alias.id old (alias ∷ []) ≡ later_of old alias
unfolding latest
latest_one alias old = rw (str_eq_refl alias.id) refl

module _ {A C W X D Y G H I J K L M : Type 0} (a : Sync A C W X D Y M) (b : Sync G H I J K L M)
    (takes : (subject : GoString) → (bytes : M) → a.transport_takes subject bytes ≡ ok tt)
    (apart : str_eq a.node_id b.node_id ≡ false) where
  -- A local agent that announces capabilities is announced to the peers, and a peer that takes the
  -- message stores it under the node's and the agent's name: ACTIVE, of remote origin, seen now, with
  -- the name, version, description and parameters of each capability, and without its taxonomy.
  pub agent_spreads :
      (coded : IsCodec a.capabilities) (same : b.capabilities ≡ a.capabilities)
      (laws : Laws b.agent_registry) (v : Shared A C D M) (w : Shared G H K M) (now : ℕ)
      (bytes : GoString) (p : Announcement) (reg : AgentRegistration) (rev : ℕ)
      → a.announcements.unmarshal bytes ≡ ok p
      → is_empty p.capabilities ≡ false
      → get a.agent_registry p.agent_id v.agents ≡ ok (reg, rev)
      → is_remote reg ≡ false
      → is_empty p.agent_id ≡ false
      → is_empty a.node_id ≡ false
      → Answers b.agent_registry.kv (remote_key a.node_id p.agent_id) w.agents.agents
      → (m : M) × ((handle_local_announce a bytes v).out
          ≡ v.out ++ (codes "federation.capability.announce", m) ∷ [])
        × ((n : ℕ) × (get b.agent_registry
                (remote_key a.node_id p.agent_id)
                (handle_remote_announce b now m w).agents
              ≡ ok (
                record {
                  agent_id = p.agent_id;
                  agent_type = reg.agent_type;
                  version = [];
                  capabilities = map four_fields p.capabilities;
                  labels = [];
                  status = active;
                  last_seen = now;
                  missed_heartbeats = 0;
                  node_id = a.node_id;
                  origin = codes "remote";
                  revision = n;
                },
                n,
              )))
  unfolding handle_local_announce announced offered offer send handle_remote_announce
  agent_spreads coded same laws v w now bytes p reg rev decodes some_caps found local named placed
        answers =
      let sent : FederationCapability = record {
        node_id = a.node_id;
        agent_id = p.agent_id;
        agent_type = reg.agent_type;
        capabilities = shared_capabilities p.capabilities;
      } in
      let (m, enc) = coded.marshal_total sent in
      let read : b.capabilities.unmarshal m ≡ ok sent =
        ap (λ c. c.unmarshal m) same ∙ coded.unmarshal-marshal sent m enc in
      let (done, (n, stored)) =
        register_remote-stores b.agent_registry laws now (remote_registration sent) w.agents named
          placed answers in
      (
        m,
        ground (
          arith,
          decodes,
          some_caps,
          found,
          local,
          enc,
          takes (codes "federation.capability.announce") m,
        ),
        (
          n,
          ground (arith, read, apart, stored)
              ∙ ap
                  (λ cs. ok (
                    record (remote_registration sent) {
                      capabilities = cs;
                      status = active;
                      last_seen = now;
                      revision = n;
                    },
                    n,
                  ))
                  (shared_capabilities-map p.capabilities),
        ),
      )

  -- A local agent whose announcement has no capability is withdrawn from the peers: a peer that takes
  -- the message does not find the agent under the node's and the agent's name any more.
  pub agent_withdrawn :
      (coded : IsCodec a.removals) (same : b.removals ≡ a.removals) (laws : Laws b.agent_registry)
      (v : Shared A C D M) (w : Shared G H K M) (bytes : GoString) (p : Announcement)
      → a.announcements.unmarshal bytes ≡ ok p
      → is_empty p.capabilities ≡ true
      → (m : M) × ((handle_local_announce a bytes v).out
          ≡ v.out ++ (codes "federation.capability.remove", m) ∷ [])
        × (get b.agent_registry
              (remote_key a.node_id p.agent_id)
              (handle_remote_remove b m w).agents
            ≡ err not_found)
  unfolding handle_local_announce announced withdraw send handle_remote_remove
  agent_withdrawn coded same laws v w bytes p decodes no_caps =
      let sent : FederationRemoval = record {
        node_id = a.node_id;
        agent_id = p.agent_id;
        reason = codes "agent_unregistered";
      } in
      let (m, enc) = coded.marshal_total sent in
      let read : b.removals.unmarshal m ≡ ok sent =
        ap (λ c. c.unmarshal m) same ∙ coded.unmarshal-marshal sent m enc in
      let key = remote_key a.node_id p.agent_id in
      (
        m,
        ground (arith, decodes, no_caps, enc, takes (codes "federation.capability.remove") m),
        ground (
          arith,
          read,
          apart,
          (get-deregister b.agent_registry laws key key w.agents).1,
          str_eq_refl key,
        ),
      )

  -- An alias that a node publishes is, unchanged, what a peer can read under its id afterwards, unless
  -- the peer could read one there that was made at that time or later, which then stays; and when the
  -- node publishes that the alias is deleted, the peer does not find it any more.
  pub alias_spreads :
      (coded : IsCodec a.updates) (same : b.updates ≡ a.updates)
      (laws : IsKeyValue b.alias_registry.kv × IsCodec b.alias_registry.codec)
      (answers : (k : GoString) (d : K) → Answers b.alias_registry.kv k d) (v : Shared A C D M)
      (w : Shared G H K M) (alias : AliasMapping)
      → is_empty alias.id ≡ false
      → ((m : M) × ((publish_alias_create a alias v).out
            ≡ v.out ++ (codes "federation.alias.update", m) ∷ [])
          × (held b.alias_registry alias.id (handle_alias_update b m w).aliases
              ≡ later_of (held b.alias_registry alias.id w.aliases) alias))
        × ((m : M) × ((publish_alias_delete a alias.id v).out
              ≡ v.out ++ (codes "federation.alias.update", m) ∷ [])
            × (b.alias_registry.kv.get alias.id (handle_alias_update b m w).aliases
                ≡ err key_not_found))
  unfolding publish_alias_create publish_alias_delete send handle_alias_update update_aliases
      apply_snapshot remove_alias
  alias_spreads coded same laws answers v w alias named =
      let made : AliasUpdate = record {
        node_id = a.node_id;
        op = create_op;
        mapping = some alias;
        alias_id = [];
      } in
      let gone : AliasUpdate = record {
        node_id = a.node_id;
        op = delete_op;
        mapping = none;
        alias_id = alias.id;
      } in
      let (m, enc) = coded.marshal_total made in
      let (n, enc') = coded.marshal_total gone in
      let read : b.updates.unmarshal m ≡ ok made =
        ap (λ c. c.unmarshal m) same ∙ coded.unmarshal-marshal made m enc in
      let read' : b.updates.unmarshal n ≡ ok gone =
        ap (λ c. c.unmarshal n) same ∙ coded.unmarshal-marshal gone n enc' in
      let (purged, absent) = laws.0.purge_gone alias.id w.aliases in
      (
        (
          m,
          ground (arith, enc, takes (codes "federation.alias.update") m),
          rw (handle_alias_update, read, apart)
              (merge_all_held b.alias_registry laws answers (alias ∷ []) w.aliases alias.id
                ∙ latest_one alias (held b.alias_registry alias.id w.aliases)),
        ),
        (
          n,
          ground (arith, enc', takes (codes "federation.alias.update") n),
          ground (arith, read', apart, named, purged, absent),
        ),
      )
