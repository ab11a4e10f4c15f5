-- ===== src/Discovery/Withdrawing.antt =====
-- A dead agent from the error event of core/health to the registry of a peer: core/discovery/announcer.go
-- and core/federation/capability_sync.go together.
use baran_os.Base.{◌≡◌, refl, [], ◌∷◌, ◌++◌, GoString, codes, str_eq, false, ok, err, not_found}
use baran_os.Kv.{IsCodec}
use baran_os.Eventbus.{Event}
use baran_os.Registry.Store.{get, remote_key}
use baran_os.Registry.Store.Writes.{Laws}
use baran_os.Federation.Sync.{
  Announcement, Sync, Shared, handle_local_announce, handle_remote_remove,
}
use baran_os.Federation.Sync.Spreading.{agent_withdrawn}
use baran_os.Discovery.{Discovery, Known, publish_event, publish_announce, handle_agent_error}

abbrev pub no_capabilities : GoString → Announcement
no_capabilities agent_id = record { agent_id = agent_id; capabilities = [] }

module _ {A C W X D Y G H I J K L M R S T U N O : Type 0} (h : Discovery R S T U N O)
    (a : Sync A C W X D Y M) (b : Sync G H I J K L M)
    (takes : (subject : GoString) → (bytes : M) → a.transport_takes subject bytes ≡ ok tt)
    (apart : str_eq a.node_id b.node_id ≡ false) where
  -- When an agent is reported dead, the announcer publishes one event, of the type that
  -- CapabilitySync subscribes to; the node that hears it withdraws the agent from its peers, and a
  -- peer that takes this message does not find the agent under the node's and the agent's name any
  -- more. The bus and the transport take what they are given, and the announcement without
  -- capabilities is read as it was written.
  pub dead_agent_withdrawn :
      (read : (agent : GoString)
        → (bytes : GoString) × (h.marshal_announcement (no_capabilities agent) ≡ ok bytes)
          × (a.announcements.unmarshal bytes ≡ ok (no_capabilities agent)))
      (bus : (e : Event) → h.bus_takes e ≡ ok tt) (coded : IsCodec a.removals)
      (same : b.removals ≡ a.removals) (laws : Laws b.agent_registry) (u : Known R S N)
      (v : Shared A C D M) (w : Shared G H K M) (e : Event) (agent : GoString)
      → h.unmarshal_agent_error e.payload ≡ ok (agent, codes "AGENT_DEAD")
      → (event : Event) × ((handle_agent_error h e u).1.published ≡ u.published ++ event ∷ [])
        × (event.type ≡ codes "agent.capability.announce")
        × ((m : M) × ((handle_local_announce a event.payload v).out
              ≡ v.out ++ (codes "federation.capability.remove", m) ∷ [])
            × (get b.agent_registry (remote_key a.node_id agent) (handle_remote_remove b m w).agents
                ≡ err not_found))
  unfolding handle_agent_error publish_announce publish_event str_eq
  dead_agent_withdrawn read bus coded same laws u v w e agent decodes =
      let (bytes, enc, dec) = read agent in
      let event : Event = record {
        id = h.uuid u.uuids;
        type = codes "agent.capability.announce";
        source_node = h.node_id;
        source_agent = codes "runtime";
        target_agent = [];
        workflow_id = [];
        correlation_id = [];
        timestamp = h.now u.uuids;
        metadata = [];
        payload = bytes;
      } in
      (
        event,
        rw (handle_agent_error, decodes, publish_announce, enc, publish_event, bus event) refl,
        refl,
        agent_withdrawn a b takes apart coded same laws v w bytes (no_capabilities agent) dec refl,
      )
