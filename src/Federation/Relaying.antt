-- ===== src/Federation/Relaying.antt =====
-- core/federation/relay.go, and the part of gateway.go that takes relayed events and sends results
-- back. Start sets the relay before any relayed event can come.
pub mod Roundtrip
pub mod Returning
pub mod Bouncing
use baran_os.Base.{
  ℕ, suc, List, [], ◌∷◌, ◌++◌, is_empty, length, GoString, codes, Dict, lookup, insert, Option,
  none, some, Bool, true, false, ◌||◌, not, if◌then◌else◌, str_eq, Result, ok, err, Exec, pure,
  lift, reads, ◌>>=◌, ◌>>◌,
}
use baran_os.Eventbus.{Event}
use baran_os.Kv.{Codec}
use baran_os.Registry.{AgentRegistration, is_remote}
use baran_os.Registry.Store.{Buckets, KvRegistry, get, list}
use baran_os.Router.Dispatch.{World, DefaultRouter, route, relayed_key}

-- protocolv1.FederationRelayPayload
pub record RelayPayload (P : Type 0) : Type 0 where
  pub source_node_id : GoString
  pub target_node_id : GoString
  pub original_event : P
  pub relay_id : GoString
  pub relay_timestamp : ℕ

-- EventRelayImpl and the relaying part of FederationGateway, with protobuf, the transport, the bus.
-- An encoded event is a P, and an encoded payload an M.
pub record Relayer (E P M : Type 0) : Type 0 where
  pub node_id : GoString
  pub event_codec : Codec Event P
  pub relay_codec : Codec (RelayPayload P) M
  pub transport_takes : GoString → M → Result Unit
  pub uuid : ℕ → GoString
  pub now : ℕ → ℕ
  pub local_router : Option (DefaultRouter E)
  -- EnsureStream, where the bus is a StreamCreator
  pub ensure_stream : Option (GoString → Result Unit)
  pub subscribe : GoString → GoString → Result Unit

-- what was sent to peers, the router's side, the relayed workflows with their source nodes, and the
-- subscriptions to results that send them back
pub record Link (E M : Type 0) : Type 0 where
  pub out : List (GoString × M)
  pub router : World E
  pub relayed_workflows : Dict GoString
  pub forwards : List (GoString × GoString)

abbrev pub source_key : GoString
source_key = codes "federation.source_node"

-- the marks of a relayed event
unfoldable pub marked : GoString → Event → Event
marked source e = record e {
  metadata = insert source_key source (insert relayed_key (codes "true") e.metadata);
}

-- the loop of forwardResultToSource over the metadata
unfoldable pub without_marks : Dict GoString → Dict GoString
without_marks [] = []
without_marks ((k, v) ∷ m) =
    let rest = without_marks m in
    if str_eq k relayed_key || str_eq k source_key then rest else (k, v) ∷ rest

-- IsRemoteAgent of relay.go
find_remote : GoString → List AgentRegistration → Bool × GoString
find_remote agent_id [] = (false, [])
find_remote agent_id (a ∷ more) =
    let rest = find_remote agent_id more in
    if str_eq a.agent_id agent_id then (if is_remote a then (true, a.node_id) else rest) else rest

module _ {B C V W : Type 0} (r : KvRegistry B C V W) where
  unfoldable pub is_remote_agent : GoString → Buckets B C → Result (Bool × GoString)
  unfolding find_remote
  is_remote_agent agent_id s = elim (get r agent_id s) [
    | ok (reg, rev) ↦ if is_remote reg then ok (true, reg.node_id) else ok (false, [])
    | err _ ↦ (elim (list r s) [ err e ↦ err e | ok agents ↦ ok (find_remote agent_id agents) ])
  ]

module _ {E P M : Type 0} (g : Relayer E P M) where
  unfoldable pub transmit : GoString → M → Exec (Link E M) Unit
  transmit subject bytes l = elim (g.transport_takes subject bytes) [
    | ok _ ↦ (ok tt, record l { out = l.out ++ (subject, bytes) ∷ [] })
    | err e ↦ (err e, l)
  ]

  -- "federation.relay.{node}.{type}"
  abbrev pub relay_subject : GoString → Event → GoString
  relay_subject target e = codes "federation.relay." ++ (target ++ (codes "." ++ e.type))

  -- the payload that Relay wraps the encoded event in
  unfoldable pub relay_payload : GoString → P → Link E M → RelayPayload P
  relay_payload target bytes l = record {
    source_node_id = g.node_id;
    target_node_id = target;
    original_event = bytes;
    relay_id = g.uuid (length l.out);
    relay_timestamp = g.now (length l.out);
  }

  -- Relay
  unfoldable pub relay : GoString → Event → Exec (Link E M) Unit
  unfolding transmit relay_payload
  relay target e = do
    bytes ← lift (g.event_codec.marshal e)
    payload ← reads (λ l. ok (relay_payload target bytes l))
    wrapped ← lift (g.relay_codec.marshal payload)
    transmit (relay_subject target e) wrapped

  -- the end of setupResultForwarding, for a workflow that is new
  follow : Option (GoString → Result Unit) → GoString → GoString → Link E M → Link E M
  follow none workflow_id source l = l
  follow (some ensure) workflow_id source l = elim (ensure (codes "WF-" ++ workflow_id)) [
    | err e ↦ l
    | ok _ ↦
        (elim (g.subscribe (codes "WF-" ++ workflow_id)
          (codes "workflow." ++ (workflow_id ++ codes ".workflow.step.result"))) [
            | err e ↦ l
            | ok _ ↦ record l { forwards = l.forwards ++ (workflow_id, source) ∷ [] }
          ])
  ]

  set_up : Option GoString → GoString → GoString → Link E M → Link E M
  unfolding follow
  set_up (some known) workflow_id source l = l
  set_up none workflow_id source l =
      follow g.ensure_stream workflow_id source
        (record l { relayed_workflows = insert workflow_id source l.relayed_workflows })

  -- setupResultForwarding
  unfoldable pub setup_result_forwarding : GoString → GoString → Link E M → Link E M
  unfolding set_up
  setup_result_forwarding workflow_id source l =
      set_up (lookup workflow_id l.relayed_workflows) workflow_id source l

  -- localRouter.Route, whose error is only logged
  unfoldable pub route_locally : DefaultRouter E → Event → Link E M → Link E M
  route_locally r e l = record l { router = (route r e l.router).1 }

  dispatch_relayed : Option (DefaultRouter E) → GoString → Event → Link E M → Link E M
  unfolding route_locally setup_result_forwarding
  dispatch_relayed none source e l = l
  dispatch_relayed (some r) source e l =
      route_locally r e
        (if is_empty e.workflow_id then l else setup_result_forwarding e.workflow_id source l)

  -- handleIncomingRelay
  unfoldable pub handle_incoming_relay : M → Link E M → Link E M
  unfolding dispatch_relayed marked
  handle_incoming_relay bytes l = elim (g.relay_codec.unmarshal bytes) [
    | err e ↦ l
    | ok p ↦
        if not (str_eq p.target_node_id g.node_id)
        then l
        else (elim (g.event_codec.unmarshal p.original_event) [
          | err e ↦ l
          | ok e ↦ dispatch_relayed g.local_router p.source_node_id (marked p.source_node_id e) l
        ])
  ]

  -- forwardResultToSource, whose error is only logged
  unfoldable pub forward_result_to_source : GoString → Event → Link E M → Link E M
  unfolding relay without_marks
  forward_result_to_source source e l =
      (relay source (record e { metadata = without_marks e.metadata }) l).1
