-- ===== src/Federation/Sync.antt =====
-- core/federation/capability_sync.go and alias_sync.go: what nodes tell each other about their agents
-- and about the names of capabilities. A message on the transport is its subject with its bytes.
pub mod Spreading
use baran_os.Base.{
  ℕ, List, [], ◌∷◌, ◌++◌, is_empty, GoString, codes, Option, none, some, Bool, true, false,
  if◌then◌else◌, str_eq, Result, ok, err,
}
use baran_os.Kv.{Codec}
use baran_os.Taxonomy.{Capability}
use baran_os.Registry.{AgentRegistration, registering, is_remote, remote_origin}
use baran_os.Registry.Store.{Buckets, KvRegistry, get, deregister, register_remote, remote_key}
use baran_os.Registry.Aliases.{
  AliasMapping, AliasRegistrySnapshot, AliasRegistry, snapshot, apply_snapshot, remove_alias,
}

-- protocolv1.CapabilityAnnouncePayload, as far as it is read
pub record Announcement : Type 0 where
  pub agent_id : GoString
  pub capabilities : List Capability

-- protocolv1.FederationCapabilityPayload
pub record FederationCapability : Type 0 where
  pub node_id : GoString
  pub agent_id : GoString
  pub agent_type : GoString
  pub capabilities : List Capability

-- protocolv1.FederationCapabilityRemovePayload
pub record FederationRemoval : Type 0 where
  pub node_id : GoString
  pub agent_id : GoString
  pub reason : GoString

-- the operations of an aliasUpdateMessage, of which other texts are ignored
pub data AliasOp : Type 0 where
  create_op delete_op other_op : AliasOp

-- aliasUpdateMessage
pub record AliasUpdate : Type 0 where
  pub node_id : GoString
  pub op : AliasOp
  pub mapping : Option AliasMapping
  pub alias_id : GoString

-- CapabilitySync and AliasSync, with protobuf, encoding/json and the transport:
-- an encoded message is an M
pub record Sync (A C W X D Y M : Type 0) : Type 0 where
  pub node_id : GoString
  pub agent_registry : KvRegistry A C W X
  pub alias_registry : AliasRegistry D Y
  pub announcements : Codec Announcement GoString
  pub capabilities : Codec FederationCapability M
  pub removals : Codec FederationRemoval M
  pub snapshots : Codec AliasRegistrySnapshot M
  pub updates : Codec AliasUpdate M
  pub transport_takes : GoString → M → Result Unit

pub record Shared (A C D M : Type 0) : Type 0 where
  pub agents : Buckets A C
  pub aliases : D
  pub out : List (GoString × M)

-- the four fields of a capability that go over the transport
abbrev pub shared_capability : Capability → Capability
shared_capability c = record {
  name = c.name;
  version = c.version;
  description = c.description;
  parameters = c.parameters;
  category = [];
  action = [];
  input_types = [];
  output_types = [];
}

unfoldable pub shared_capabilities : List Capability → List Capability
shared_capabilities [] = []
shared_capabilities (c ∷ cs) = shared_capability c ∷ shared_capabilities cs

-- the registration that handleRemoteAnnounce makes of a payload
abbrev pub remote_registration : FederationCapability → AgentRegistration
remote_registration p = record {
  agent_id = p.agent_id;
  agent_type = p.agent_type;
  version = [];
  capabilities = shared_capabilities p.capabilities;
  labels = [];
  status = registering;
  last_seen = 0;
  missed_heartbeats = 0;
  node_id = p.node_id;
  origin = remote_origin;
  revision = 0;
}

module _ {A C W X D Y M : Type 0} (s : Sync A C W X D Y M) where
  unfoldable pub send : GoString → Result M → Shared A C D M → Shared A C D M
  send subject (err e) w = w
  send subject (ok bytes) w = elim (s.transport_takes subject bytes) [
    | ok _ ↦ record w { out = w.out ++ (subject, bytes) ∷ [] }
    | err e ↦ w
  ]

  withdraw : GoString → Shared A C D M → Shared A C D M
  unfolding send
  withdraw agent_id w =
      send (codes "federation.capability.remove")
        (s.removals.marshal (record {
          node_id = s.node_id;
          agent_id = agent_id;
          reason = codes "agent_unregistered";
        }))
        w

  offer : Announcement → AgentRegistration → Shared A C D M → Shared A C D M
  unfolding send
  offer p reg w =
      if is_remote reg
      then w
      else send (codes "federation.capability.announce")
          (s.capabilities.marshal (record {
            node_id = s.node_id;
            agent_id = p.agent_id;
            agent_type = reg.agent_type;
            capabilities = shared_capabilities p.capabilities;
          }))
          w

  offered : Announcement → Result (AgentRegistration × ℕ) → Shared A C D M → Shared A C D M
  unfolding offer
  offered p (err e) w = w
  offered p (ok (reg, rev)) w = offer p reg w

  announced : Announcement → Shared A C D M → Shared A C D M
  unfolding withdraw offered
  announced p w =
      if is_empty p.capabilities
      then withdraw p.agent_id w
      else offered p (get s.agent_registry p.agent_id w.agents) w

  -- handleLocalAnnounce, which always returns nil
  unfoldable pub handle_local_announce : GoString → Shared A C D M → Shared A C D M
  unfolding announced
  handle_local_announce bytes w = elim (s.announcements.unmarshal bytes) [
    | err e ↦ w
    | ok p ↦ announced p w
  ]

  -- handleRemoteAnnounce, whose error is only logged
  unfoldable pub handle_remote_announce : ℕ → M → Shared A C D M → Shared A C D M
  handle_remote_announce now bytes w = elim (s.capabilities.unmarshal bytes) [
    | err e ↦ w
    | ok p ↦ if str_eq p.node_id s.node_id then w else record w {
      agents = (register_remote s.agent_registry now (remote_registration p) w.agents).1;
    }
  ]

  -- handleRemoteRemove, whose error is only logged
  unfoldable pub handle_remote_remove : M → Shared A C D M → Shared A C D M
  handle_remote_remove bytes w = elim (s.removals.unmarshal bytes) [
    | err e ↦ w
    | ok p ↦ if str_eq p.node_id s.node_id then w else record w {
      agents = (deregister s.agent_registry (remote_key p.node_id p.agent_id) w.agents).1;
    }
  ]

  -- SendSnapshot
  unfoldable pub send_snapshot : Shared A C D M → Shared A C D M
  unfolding send
  send_snapshot w = elim (snapshot s.alias_registry w.aliases) [
    | err e ↦ w
    | ok snap ↦ send (codes "federation.alias.sync") (s.snapshots.marshal snap) w
  ]

  -- handleAliasSync, whose error is only logged
  unfoldable pub handle_alias_sync : M → Shared A C D M → Shared A C D M
  handle_alias_sync bytes w = elim (s.snapshots.unmarshal bytes) [
    | err e ↦ w
    | ok snap ↦
        if str_eq snap.node_id s.node_id
        then w
        else record w { aliases = (apply_snapshot s.alias_registry (some snap) w.aliases).1 }
  ]

  -- PublishAliasCreate
  unfoldable pub publish_alias_create : AliasMapping → Shared A C D M → Shared A C D M
  unfolding send
  publish_alias_create m w =
      send (codes "federation.alias.update")
        (s.updates.marshal
          (record { node_id = s.node_id; op = create_op; mapping = some m; alias_id = [] }))
        w

  -- PublishAliasDelete
  unfoldable pub publish_alias_delete : GoString → Shared A C D M → Shared A C D M
  unfolding send
  publish_alias_delete alias_id w =
      send (codes "federation.alias.update")
        (s.updates.marshal
          (record { node_id = s.node_id; op = delete_op; mapping = none; alias_id = alias_id }))
        w

  update_aliases : AliasOp → AliasUpdate → D → D
  update_aliases create_op msg d = elim msg.mapping [
    | none ↦ d
    | some m ↦
        (apply_snapshot s.alias_registry (some (record { node_id = msg.node_id; aliases = m ∷ [] }))
          d).1
  ]
  update_aliases delete_op msg d =
      if is_empty msg.alias_id then d else (remove_alias s.alias_registry msg.alias_id d).1
  update_aliases other_op msg d = d

  -- handleAliasUpdate, whose errors are only logged
  unfoldable pub handle_alias_update : M → Shared A C D M → Shared A C D M
  unfolding update_aliases
  handle_alias_update bytes w = elim (s.updates.unmarshal bytes) [
    | err e ↦ w
    | ok msg ↦
        if str_eq msg.node_id s.node_id
        then w
        else record w { aliases = update_aliases msg.op msg w.aliases }
  ]
