-- ===== src/Federation/Monitor.antt =====
-- core/federation/node_monitor.go, and what core/federation/gateway.go and capability_sync.go do when
-- nodes come and go. `now` is time.Now(); a message on the transport is its subject with its bytes.
pub mod Departures
use baran_os.Base.{
  ℕ, zero, suc, ◌+◌, ◌-◌, List, [], ◌∷◌, ◌++◌, GoString, codes, str_eq, Option, none, some, Bool,
  true, false, ◌&&◌, ◌||◌, not, leb, if◌then◌else◌, Result, ok, err, Exec,
}
use baran_os.Registry.Store.{Buckets, KvRegistry, deregister_remotes_by_node}
use baran_os.Federation.Nodes.{
  NodeStatus, node_active, node_unhealthy, node_dead, is_node_active, is_node_dead, NodeInfo,
  NodeRegistry, register, deregister, get, list, update_status, record_heartbeat,
  increment_missed_heartbeats,
}

-- the part of a node that its peers see: the known nodes, the agents, and what was sent
pub record Peers (B A C : Type 0) : Type 0 where
  pub nodes : B
  pub agents : Buckets A C
  pub sequence : ℕ
  pub sent : List (GoString × GoString)

-- FederationGateway and NodeMonitor: their registries, with protobuf and the transport.
pub record Gateway (B V A C W X : Type 0) : Type 0 where
  pub node_id : GoString
  pub registry : NodeRegistry B V
  pub agent_registry : KvRegistry A C W X
  pub cleanup_ttl : ℕ
  pub marshal_ping : GoString → ℕ → Result GoString
  pub marshal_pong : GoString → ℕ → Result GoString
  pub unmarshal_ping : GoString → Result (GoString × ℕ)
  pub unmarshal_pong : GoString → Result GoString
  pub marshal_register : NodeInfo → Result GoString
  pub unmarshal_register : GoString → Result NodeInfo
  pub unmarshal_unregister : GoString → Result GoString
  pub transport_takes : GoString → GoString → Result Unit
  -- what aliasSync.SendSnapshot publishes, where there is an aliasSync
  pub alias_snapshot : Option (GoString × GoString)

module _ {B V A C W X : Type 0} (g : Gateway B V A C W X) where
  -- `_ = transport.Publish(...)`
  unfoldable pub send : GoString → GoString → Peers B A C → Peers B A C
  send subject payload p = elim (g.transport_takes subject payload) [
    | ok _ ↦ record p { sent = p.sent ++ (subject, payload) ∷ [] }
    | err e ↦ p
  ]

  -- CapabilitySync.PurgeNode, the callback onNodeDead and the one on the removal of a dead node
  unfoldable pub purge_node : GoString → Peers B A C → Peers B A C
  purge_node node_id p = record p {
    agents = (deregister_remotes_by_node g.agent_registry node_id p.agents).1;
  }

  send_ping : ℕ → Peers B A C → Peers B A C
  unfolding send
  send_ping seq p = elim (g.marshal_ping g.node_id seq) [
    | err e ↦ p
    | ok bytes ↦ send (codes "federation.node.health.ping") bytes p
  ]

  -- the rest of a round of pingAll, behind the count
  counted : ℕ → NodeInfo → Result (NodeStatus × ℕ) → Peers B A C → Peers B A C
  unfolding send_ping purge_node
  counted seq node (err e) p = p
  counted seq node (ok (status, rev)) p = send_ping seq (
      if is_node_dead status && not (is_node_dead node.status)
      then purge_node node.node_id p
      else p)

  -- one round of the loop of pingAll
  unfoldable pub ping_node : ℕ → NodeInfo → Peers B A C → Peers B A C
  unfolding counted
  ping_node seq node p =
      if str_eq node.node_id g.node_id || is_node_dead node.status
      then p
      else (let (r, b) =
            increment_missed_heartbeats g.registry node.node_id node.revision p.nodes in
          counted seq node r (record p { nodes = b }))

  ping_nodes : ℕ → List NodeInfo → Peers B A C → Peers B A C
  unfolding ping_node
  ping_nodes seq [] p = p
  ping_nodes seq (node ∷ rest) p = ping_nodes seq rest (ping_node seq node p)

  -- pingAll
  unfoldable pub ping_all : Peers B A C → Peers B A C
  unfolding ping_nodes
  ping_all p = elim (list g.registry p.nodes) [
    | err e ↦ p
    | ok nodes ↦ ping_nodes (suc p.sequence) nodes (record p { sequence = suc p.sequence })
  ]

  removed : NodeInfo → Result Unit × B → Peers B A C → Peers B A C
  unfolding purge_node
  removed node (err e, b) p = record p { nodes = b }
  removed node (ok _, b) p = purge_node node.node_id (record p { nodes = b })

  -- one round of the loop of cleanupDeadNodes. The cutoff is now minus the TTL; here the TTL stands on
  -- the other side of the comparison.
  unfoldable pub clean_node : ℕ → NodeInfo → Peers B A C → Peers B A C
  unfolding removed
  clean_node now node p =
      if str_eq node.node_id g.node_id
        || not (is_node_dead node.status)
        || not (leb (node.last_seen + g.cleanup_ttl) now)
      then p
      else removed node (deregister g.registry node.node_id p.nodes) p

  clean_nodes : ℕ → List NodeInfo → Peers B A C → Peers B A C
  unfolding clean_node
  clean_nodes now [] p = p
  clean_nodes now (node ∷ rest) p = clean_nodes now rest (clean_node now node p)

  -- cleanupDeadNodes
  unfoldable pub cleanup_dead_nodes : ℕ → Peers B A C → Peers B A C
  unfolding clean_nodes
  cleanup_dead_nodes now p = elim (list g.registry p.nodes) [
    | err e ↦ p
    | ok nodes ↦ clean_nodes now nodes p
  ]

  -- handlePong of the node monitor
  unfoldable pub handle_pong : ℕ → GoString → Peers B A C → Peers B A C
  handle_pong now payload p = elim (g.unmarshal_pong payload) [
    | err e ↦ p
    | ok node_id ↦ if str_eq node_id g.node_id then p else (elim (get g.registry node_id p.nodes) [
      | err e ↦ p
      | ok (info, rev) ↦ record p {
        nodes = (record_heartbeat g.registry now node_id rev p.nodes).1;
      }
    ])
  ]

  -- handlePing
  unfoldable pub handle_ping : GoString → Peers B A C → Peers B A C
  unfolding send
  handle_ping payload p = elim (g.unmarshal_ping payload) [
    | err e ↦ p
    | ok (node_id, seq) ↦
        if str_eq node_id g.node_id then p else (elim (g.marshal_pong g.node_id seq) [
          | err e ↦ p
          | ok bytes ↦ send (codes "federation.node.health.pong") bytes p
        ])
  ]

  announce : Result GoString → Peers B A C → Peers B A C
  unfolding send
  announce (err e) p = p
  announce (ok bytes) p = send (codes "federation.node.register") bytes p

  -- the loop of propagateKnownNodes
  announce_others : GoString → List NodeInfo → Peers B A C → Peers B A C
  unfolding announce
  announce_others exclude [] p = p
  announce_others exclude (n ∷ rest) p =
      announce_others exclude rest
        (if str_eq n.node_id exclude then p else announce (g.marshal_register n) p)

  -- propagateKnownNodes
  unfoldable pub propagate_known_nodes : GoString → Peers B A C → Peers B A C
  unfolding announce_others
  propagate_known_nodes exclude p = elim (list g.registry p.nodes) [
    | err e ↦ p
    | ok nodes ↦ announce_others exclude nodes p
  ]

  send_aliases : Option (GoString × GoString) → Peers B A C → Peers B A C
  unfolding send
  send_aliases none p = p
  send_aliases (some (subject, payload)) p = send subject payload p

  abbrev is_known : Result (NodeInfo × ℕ) → Bool
  is_known (ok x) = true
  is_known (err e) = false

  -- handleNodeRegister
  unfoldable pub handle_node_register : ℕ → GoString → Peers B A C → Peers B A C
  unfolding propagate_known_nodes send_aliases
  handle_node_register now payload p = elim (g.unmarshal_register payload) [
    | err e ↦ p
    | ok info ↦
        if str_eq info.node_id g.node_id
        then p
        else (let known = is_known (get g.registry info.node_id p.nodes) in
            let (r, b) = register g.registry now info p.nodes in
            let stored = record p { nodes = b } in
            elim r [
              | err e ↦ stored
              | ok n ↦
                  if known
                  then stored
                  else send_aliases g.alias_snapshot (propagate_known_nodes info.node_id stored)
            ])
  ]

  marked : GoString → Result ℕ × B → Peers B A C → Peers B A C
  unfolding purge_node
  marked node_id (err e, b) p = record p { nodes = b }
  marked node_id (ok n, b) p = purge_node node_id (record p { nodes = b })

  -- handleNodeUnregister
  unfoldable pub handle_node_unregister : GoString → Peers B A C → Peers B A C
  unfolding marked
  handle_node_unregister payload p = elim (g.unmarshal_unregister payload) [
    | err e ↦ p
    | ok node_id ↦ if str_eq node_id g.node_id then p else (elim (get g.registry node_id p.nodes) [
      | err e ↦ p
      | ok (info, rev) ↦ marked node_id (update_status g.registry node_id node_dead rev p.nodes) p
    ])
  ]

  -- announceNode, at a time and with the address of the leaf port
  unfoldable pub announce_node : ℕ → GoString → Exec (Peers B A C) Unit
  announce_node now address p =
      let info : NodeInfo = record {
        node_id = g.node_id;
        address = address;
        status = node_active;
        capabilities_count = 0;
        last_seen = 0;
        joined_at = now;
        missed_heartbeats = 0;
        version = codes "0.2.0";
        revision = 0;
      } in
      let (r, b) = register g.registry now info p.nodes in
      let stored = record p { nodes = b } in
      elim r [
        | err e ↦ (err e, stored)
        | ok n ↦ (elim (g.marshal_register info) [
          | err e ↦ (err e, stored)
          | ok bytes ↦ (elim (g.transport_takes (codes "federation.node.register") bytes) [
            | err e ↦ (err e, stored)
            | ok _ ↦ (ok tt, send (codes "federation.node.register") bytes stored)
          ])
        ])
      ]
