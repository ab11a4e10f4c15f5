-- ===== src/Federation/Monitor/Departures.antt =====
-- Nodes that leave, fall silent or come back, in core/federation/node_monitor.go and gateway.go.
use baran_os.Base.{
  ℕ, ◌+◌, ◌<◌, ◌≡◌, ◌⊎◌, refl, ◌∙◌, inl, inr, List, [], ◌∷◌, ◌++◌, In, GoString, codes, str_eq,
  is_empty, false, Bool-cases, if◌then◌else◌, has_prefix, Option, none, some, Result, ok, err,
  no_keys_found, not_found, arith,
}
use baran_os.Kv.Upsert.{Answers}
use baran_os.Registry.Store.Remote.{get-deregister_remotes}
use baran_os.Registry.Store.Writes
use baran_os.Registry.Store.{Buckets, KvRegistry, deregister_remotes_by_node, remote_prefix}
use baran_os.Registry.Store
use baran_os.Federation.Nodes.{
  node_dead, NodeInfo, node_beat, joined, register, get, list, update_status,
}
use baran_os.Federation.Nodes.Writes.{Laws, write_at-fits, any_revision_accepted, register-stores}
use baran_os.Federation.Monitor.{
  Peers, Gateway, send, purge_node, clean_node, handle_pong, announce, announce_others,
  propagate_known_nodes, marked, handle_node_unregister, handle_node_register, send_aliases,
}

pub In-append : {T : Type 0} (x : T) (xs ys : List T) → In x xs ⊎ In x ys → In x (xs ++ ys)
In-append x [] ys (inl i) = absurd i
In-append x [] ys (inr i) = i
In-append x (y ∷ xs) ys (inl (inl e)) = inl e
In-append x (y ∷ xs) ys (inl (inr i)) = inr (In-append x xs ys (inl i))
In-append x (y ∷ xs) ys (inr i) = inr (In-append x xs ys (inr i))

module _ {B V A C W X : Type 0} (g : Gateway B V A C W X) where
  -- A pong of a DEAD node is recorded, but the node stays DEAD; and the cleanup does not remove it
  -- before the TTL has passed since that pong. So a node that was declared dead and answers again is
  -- neither revived by its pongs nor removed.
  pub dead_node_lingers :
      (laws : Laws g.registry) (p : Peers B A C) (node_id payload : GoString) (info : NodeInfo)
      (rev now later : ℕ)
      → g.unmarshal_pong payload ≡ ok node_id
      → str_eq node_id g.node_id ≡ false
      → get g.registry node_id p.nodes ≡ ok (info, rev)
      → info.status ≡ node_dead
      → later < now + g.cleanup_ttl
      → let after = handle_pong g now payload p in
        (seen : NodeInfo) × (k : ℕ) × (get g.registry node_id after.nodes ≡ ok (seen, k))
        × (seen.status ≡ node_dead)
        × (seen.last_seen ≡ now)
        × (clean_node g later seen after ≡ after)
  unfolding handle_pong clean_node node_beat
  dead_node_lingers laws p node_id payload info rev now later decodes other found dead early =
      let (n, _, done, stored) =
        (any_revision_accepted g.registry laws node_id p.nodes info rev found now rev).0 in
      (
        record (node_beat now info) { revision = n },
        n,
        ground (arith, decodes, other, found, stored),
        ground (arith, dead),
        refl,
        ground (arith, dead, early),
      )

  -- When a known node announces that it leaves, it is marked DEAD, and every registration whose key
  -- begins with "remote.", the node's id and a dot is gone from the agent registry, while the others
  -- stay. (Where node ids have dots, the agents of another node may be among those that go.)
  pub departed_node_purged :
      (laws : Laws g.registry) (agent_laws : Writes.Laws g.agent_registry) (p : Peers B A C)
      (node_id payload j : GoString) (info : NodeInfo) (rev : ℕ)
      → g.unmarshal_unregister payload ≡ ok node_id
      → str_eq node_id g.node_id ≡ false
      → get g.registry node_id p.nodes ≡ ok (info, rev)
      → ((ks : List GoString) × (g.agent_registry.kv.keys p.agents.agents ≡ ok ks))
        ⊎ (g.agent_registry.kv.keys p.agents.agents ≡ err no_keys_found)
      → Answers g.agent_registry.kv j p.agents.agents
      → let after = handle_node_unregister g payload p in
        ((n : ℕ) × (get g.registry node_id after.nodes
            ≡ ok (record info { status = node_dead; revision = n }, n)))
        × (Store.get g.agent_registry j after.agents ≡ (
            if has_prefix j (codes "remote." ++ (node_id ++ codes "."))
            then err not_found
            else Store.get g.agent_registry j p.agents))
  unfolding handle_node_unregister marked purge_node update_status
  departed_node_purged laws agent_laws p node_id payload j info rev decodes other found listed
        answers =
      let (n, _, done, stored) =
        write_at-fits g.registry laws node_id info (record info { status = node_dead }) rev p.nodes
          found in
      let purged =
        (get-deregister_remotes g.agent_registry agent_laws node_id j p.agents listed answers).1 in
      (
        (n, ground (arith, decodes, other, found, done, stored)),
        ground (arith, decodes, other, found, done, purged),
      )

  send_keeps :
      (m : GoString × GoString) (subject bytes : GoString) (p : Peers B A C)
      → In m p.sent
      → In m (send g subject bytes p).sent
  unfolding send
  send_keeps m subject bytes p i =
      elim (g.transport_takes subject bytes)
        as (λ r.
          In m
            (elim r as (λ x. Peers B A C) [
              | ok _ ↦ record p { sent = p.sent ++ (subject, bytes) ∷ [] }
              | err e ↦ p
            ]).sent) [ ok _ ↦ In-append m p.sent _ (inl i) | err e ↦ i ]

  announce_keeps :
      (m : GoString × GoString) (r : Result GoString) (p : Peers B A C)
      → In m p.sent
      → In m (announce g r p).sent
  unfolding announce
  announce_keeps m (err e) p i = i
  announce_keeps m (ok bytes) p i = send_keeps m (codes "federation.node.register") bytes p i

  announced_keeps :
      (m : GoString × GoString) (exclude : GoString) (ns : List NodeInfo) (p : Peers B A C)
      → In m p.sent
      → In m (announce_others g exclude ns p).sent
  unfolding announce_others
  announced_keeps m exclude [] p i = i
  announced_keeps m exclude (n ∷ ns) p i =
      announced_keeps m exclude ns _ (elim (Bool-cases (str_eq n.node_id exclude)) [
        | inl skipped ↦ rw skipped i
        | inr told ↦ rw told (announce_keeps m (g.marshal_register n) p i)
      ])

  In-announced :
      (exclude bytes : GoString) (n : NodeInfo) (ns : List NodeInfo) (p : Peers B A C)
      → str_eq n.node_id exclude ≡ false
      → g.marshal_register n ≡ ok bytes
      → g.transport_takes (codes "federation.node.register") bytes ≡ ok tt
      → In n ns
      → In (codes "federation.node.register", bytes) (announce_others g exclude ns p).sent
  unfolding announce_others announce send
  In-announced exclude bytes n [] p other enc takes i = absurd i
  In-announced exclude bytes n (x ∷ ns) p other enc takes (inl same) =
      announced_keeps (codes "federation.node.register", bytes) exclude ns _
        (rw (same, other, enc, announce, takes, send)
          (In-append (codes "federation.node.register", bytes) p.sent _ (inr (inl refl))))
  In-announced exclude bytes n (x ∷ ns) p other enc takes (inr i) =
      In-announced exclude bytes n ns _ other enc takes i

  -- `propagateKnownNodes`, which a gateway runs when a new peer registers, sends a registration of
  -- every known node other than that peer, whatever the node's status is, where the node's message is
  -- encoded and the transport takes it.
  pub every_known_node_announced :
      (p : Peers B A C) (peer bytes : GoString) (nodes : List NodeInfo) (n : NodeInfo)
      → list g.registry p.nodes ≡ ok nodes
      → In n nodes
      → str_eq n.node_id peer ≡ false
      → g.marshal_register n ≡ ok bytes
      → g.transport_takes (codes "federation.node.register") bytes ≡ ok tt
      → In (codes "federation.node.register", bytes) (propagate_known_nodes g peer p).sent
  unfolding propagate_known_nodes
  every_known_node_announced p peer bytes nodes n listed i other enc takes =
      rw (listed, propagate_known_nodes) (In-announced peer bytes n nodes p other enc takes i)

  send_nodes :
      (subject bytes : GoString) (p : Peers B A C) → (send g subject bytes p).nodes ≡ p.nodes
  unfolding send
  send_nodes subject bytes p = ground arith

  announced_nodes :
      (exclude : GoString) (ns : List NodeInfo) (p : Peers B A C)
      → (announce_others g exclude ns p).nodes ≡ p.nodes
  unfolding announce_others announce
  announced_nodes exclude [] p = refl
  announced_nodes exclude (n ∷ ns) p = announced_nodes exclude ns _ ∙ one (g.marshal_register n)
    where
      one :
          (r : Result GoString)
          → (if str_eq n.node_id exclude then p else announce g r p).nodes ≡ p.nodes
      one (err e) = ground arith
      one (ok bytes) = ground (arith, send_nodes (codes "federation.node.register") bytes p)

  propagate_nodes :
      (exclude : GoString) (p : Peers B A C) → (propagate_known_nodes g exclude p).nodes ≡ p.nodes
  unfolding propagate_known_nodes
  propagate_nodes exclude p = go (list g.registry p.nodes) refl
    where
      go :
          (r : Result (List NodeInfo))
          → list g.registry p.nodes ≡ r
          → (propagate_known_nodes g exclude p).nodes ≡ p.nodes
      go (err e) h = rw (h, propagate_known_nodes) refl
      go (ok ns) h = rw (h, propagate_known_nodes) (announced_nodes exclude ns p)

  aliases_nodes :
      (m : Option (GoString × GoString)) (p : Peers B A C) → (send_aliases g m p).nodes ≡ p.nodes
  unfolding send_aliases
  aliases_nodes none p = refl
  aliases_nodes (some (subject, bytes)) p = send_nodes subject bytes p

  -- A registration of another node with an id and an address makes it ACTIVE, seen now and with no
  -- missed heartbeats, whoever sends it and whatever the gateway held of that node, DEAD included.
  pub registered_node_revived :
      (laws : Laws g.registry) (p : Peers B A C) (payload : GoString) (info : NodeInfo) (now : ℕ)
      → g.unmarshal_register payload ≡ ok info
      → str_eq info.node_id g.node_id ≡ false
      → is_empty info.node_id ≡ false
      → is_empty info.address ≡ false
      → Answers g.registry.kv info.node_id p.nodes
      → (n : ℕ) × (get g.registry info.node_id (handle_node_register g now payload p).nodes
          ≡ ok (record (joined now info) { revision = n }, n))
  unfolding handle_node_register
  registered_node_revived laws p payload info now decodes other named placed answers =
      let (n, done, stored) =
        register-stores g.registry laws now info p.nodes named placed answers in
      let kept = (register g.registry now info p.nodes).1 in
      let after = record p { nodes = kept } in
      (
        n,
        ground (
          arith,
          decodes,
          other,
          done,
          stored,
          aliases_nodes g.alias_snapshot (propagate_known_nodes g info.node_id after),
          propagate_nodes info.node_id after,
        ),
      )
