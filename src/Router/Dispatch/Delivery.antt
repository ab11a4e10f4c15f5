-- ===== src/Router/Dispatch/Delivery.antt =====
-- What the router sends, and how often.
use mathlib.Core.List.{append_assoc, append-nil}
use baran_os.Base.{
  In, In-select, ℕ, suc, ◌≡◌, ◌≢◌, ◌⊎◌, inl, inr, refl, sym, ap, subst, ◌∙◌, List, [], ◌∷◌, ◌++◌,
  All, select, GoString, codes, lookup, Option, none, some, Bool, true, false, ◌&&◌, not, Result,
  ok, err, arith, Bool-cases,
}
use baran_os.Eventbus.{Event}
use baran_os.Registry.{AgentRegistration, is_remote}
use baran_os.Router.Streams.{stream_for_event_type}
use baran_os.Router.Strategy.{
  RoutingStrategy, broadcast, direct, workflow, capability, relay, capability_key, resolve_strategy,
}
use baran_os.Router.Dispatch.{
  Sent, published, relayed, World, Relay, DefaultRouter, or_empty, is_relayed_event, direct_event,
  copy_for, offers_capability, new_uuid, publish, relay_to_node, publish_error, route_direct,
  fan_out, matched, route_capability, missing_target, route_workflow, route_broadcast, route,
  dispatch, workflow_event, known_target, target_not_found,
}

module _ {E : Type 0} (r : DefaultRouter E) where
  -- one message more for a success, none for an error
  abbrev pub Sends : Result Unit → List Sent → List Sent → Type 0
  Sends (ok _) before after = (m : Sent) × (after ≡ before ++ m ∷ [])
  Sends (err x) before after = after ≡ before

  publish-Sends : (e : Event) (w : World E) → Sends (publish r e w).0 w.sent (publish r e w).1.sent
  unfolding publish
  publish-Sends e w = go (r.bus_takes e w) refl
    where
      go :
          (x : Result Unit)
          → r.bus_takes e w ≡ x
          → Sends (publish r e w).0 w.sent (publish r e w).1.sent
      go (ok tt) h = rw (h, publish) (published e, refl)
      go (err x) h = rw (h, publish) refl

  relay-Sends :
      (rel : Relay E) (node : GoString) (e : Event) (w : World E)
      → Sends (relay_to_node r rel node e w).0 w.sent (relay_to_node r rel node e w).1.sent
  unfolding relay_to_node
  relay-Sends rel node e w = go (rel.takes node e w) refl
    where
      go :
          (x : Result Unit)
          → rel.takes node e w ≡ x
          → Sends (relay_to_node r rel node e w).0 w.sent (relay_to_node r rel node e w).1.sent
      go (ok tt) h = rw (h, relay_to_node) (relayed node e, refl)
      go (err x) h = rw (h, relay_to_node) refl

  publish_error-Sends :
      (a c : GoString) (w : World E)
      → Sends (publish_error r a c w).0 w.sent (publish_error r a c w).1.sent
  publish_error-Sends a c w = go (r.marshal_agent_error a c) refl
    where
      go :
          (x : Result GoString)
          → r.marshal_agent_error a c ≡ x
          → Sends (publish_error r a c w).0 w.sent (publish_error r a c w).1.sent
      go (ok bytes) h = unfold publish_error new_uuid in rw h (publish-Sends _ _)
      go (err x) h = unfold publish_error in rw h refl

  missing-Sends :
      (o : Option (Relay E)) (e : Event) (w : World E)
      → Sends (missing_target r o e w).0 w.sent (missing_target r o e w).1.sent
  unfolding missing_target target_not_found
  missing-Sends none e w = publish_error-Sends e.source_agent (codes "ROUTER_TARGET_NOT_FOUND") w
  missing-Sends (some rel) e w = go (rel.is_remote_agent e.target_agent w.env) refl
    where
      go :
          (x : Result (Bool × GoString))
          → rel.is_remote_agent e.target_agent w.env ≡ x
          → Sends
              (missing_target r (some rel) e w).0
              w.sent
              (missing_target r (some rel) e w).1.sent
      go (ok (true, node)) h = rw (h, missing_target) (relay-Sends rel node e w)
      go (ok (false, node)) h =
          rw (h, missing_target)
            (publish_error-Sends e.source_agent (codes "ROUTER_TARGET_NOT_FOUND") w)
      go (err x) h =
          rw (h, missing_target)
            (publish_error-Sends e.source_agent (codes "ROUTER_TARGET_NOT_FOUND") w)

  known-Sends :
      (o : Option (Relay E)) (reg : AgentRegistration) (e : Event) (w : World E)
      → Sends (known_target r o reg e w).0 w.sent (known_target r o reg e w).1.sent
  unfolding known_target
  known-Sends none reg e w = publish-Sends (direct_event e) w
  known-Sends (some rel) reg e w = elim (Bool-cases (is_remote reg && not (is_relayed_event e))) [
    | inl away ↦ rw away (relay-Sends rel reg.node_id e w)
    | inr stay ↦ rw stay (publish-Sends (direct_event e) w)
  ]

  direct-Sends :
      (e : Event) (w : World E) → Sends (route_direct r e w).0 w.sent (route_direct r e w).1.sent
  direct-Sends e w = go (r.get_agent e.target_agent w.env) refl
    where
      go :
          (x : Result AgentRegistration)
          → r.get_agent e.target_agent w.env ≡ x
          → Sends (route_direct r e w).0 w.sent (route_direct r e w).1.sent
      go (ok reg) h = unfold route_direct in rw (h, route_direct) (known-Sends r.relay reg e w)
      go (err x) h = unfold route_direct in rw (h, route_direct) (missing-Sends r.relay e w)

  -- An event for an agent that is in the registry, local or with no relay or already relayed, is
  -- published once, under the agent's own subject and with nothing else changed.
  pub local_direct :
      (e : Event) (w : World E) (reg : AgentRegistration)
      → r.get_agent e.target_agent w.env ≡ ok reg
      → (is_remote reg ≡ false) ⊎ ((r.relay ≡ none) ⊎ (is_relayed_event e ≡ true))
      → r.bus_takes (direct_event e) w ≡ ok tt
      → route_direct r e w ≡ (ok tt, record w { sent = w.sent ++ published (direct_event e) ∷ [] })
  unfolding route_direct
  local_direct e w reg found why open_bus = ground (arith, found, why, open_bus)

  workflow-Sends :
      (e : Event) (w : World E)
      → Sends (route_workflow r e w).0 w.sent (route_workflow r e w).1.sent
  workflow-Sends e w = go (r.get_or_create_stream e.workflow_id w.env).0 refl
    where
      go :
          (x : Result GoString)
          → (r.get_or_create_stream e.workflow_id w.env).0 ≡ x
          → Sends (route_workflow r e w).0 w.sent (route_workflow r e w).1.sent
      go (ok name) h =
          unfold route_workflow in
          rw h (
            publish-Sends (workflow_event e)
              (record w { env = (r.get_or_create_stream e.workflow_id w.env).1 }))
      go (err x) h = unfold route_workflow in rw h refl

  broadcast-Sends :
      (e : Event) (w : World E)
      → Sends (route_broadcast r e w).0 w.sent (route_broadcast r e w).1.sent
  broadcast-Sends e w = go (stream_for_event_type (r.streams w.env) e.type) refl
    where
      go :
          (x : Option GoString)
          → stream_for_event_type (r.streams w.env) e.type ≡ x
          → Sends (route_broadcast r e w).0 w.sent (route_broadcast r e w).1.sent
      go none h =
          unfold route_broadcast in
          rw (h, route_broadcast)
            (publish_error-Sends e.source_agent (codes "ROUTER_UNMAPPED_EVENT_TYPE") w)
      go (some name) h = unfold route_broadcast in rw (h, route_broadcast) (publish-Sends e w)

  -- Unless an event is routed by capability, `Route` sends exactly one message when it succeeds (to
  -- the bus or to another node, an error event included), and none when it returns an error.
  pub route-Sends :
      (e : Event) (w : World E)
      → resolve_strategy e ≢ capability
      → Sends (route r e w).0 w.sent (route r e w).1.sent
  unfolding route dispatch
  route-Sends e w ne = go (resolve_strategy e) refl
    where
      go :
          (st : RoutingStrategy)
          → resolve_strategy e ≡ st
          → Sends (route r e w).0 w.sent (route r e w).1.sent
      go direct h = rw (h, route, dispatch) (direct-Sends e w)
      go workflow h = rw (h, route, dispatch) (workflow-Sends e w)
      go capability h = absurd (ne h)
      go broadcast h = rw (h, route, dispatch) (broadcast-Sends e w)
      go relay h = rw (h, route, dispatch) refl

  -- the copies of an event for the agents, with UUIDs from the `n`-th on
  pub copies : Event → ℕ → List AgentRegistration → List Sent
  copies e n [] = []
  copies e n (a ∷ more) =
      published (direct_event (copy_for e (r.uuid n) a.agent_id)) ∷ copies e (suc n) more

  -- found under its own id, and the bus takes everything
  abbrev pub IsLocal : World E → AgentRegistration → Type 0
  IsLocal w a = (r.get_agent a.agent_id w.env ≡ ok a) × (is_remote a ≡ false)

  fan_out_locals :
      (e : Event) (agents : List AgentRegistration) (w : World E)
      → ((m : Event) (v : World E) → r.bus_takes m v ≡ ok tt)
      → All (λ a. (r.get_agent a.agent_id w.env ≡ ok a) × (is_remote a ≡ false)) agents
      → ((fan_out r e agents w).0 ≡ ok tt)
        × ((fan_out r e agents w).1.sent ≡ w.sent ++ copies e w.uuids agents)
  unfolding fan_out copies new_uuid
  fan_out_locals e [] w takes h = (refl, sym (append-nil w.sent))
  fan_out_locals e (a ∷ more) w takes h =
      let c = copy_for e (r.uuid w.uuids) a.agent_id in
      let w1 : World E = record w { uuids = suc w.uuids } in
      let step = local_direct c w1 a h.0.0 (inl h.0.1) (takes (direct_event c) w1) in
      let ih =
        fan_out_locals e more (record w1 { sent = w1.sent ++ published (direct_event c) ∷ [] })
          takes h.1 in
      rw step (
        ih.0,
        ih.1 ∙ append_assoc w.sent (published (direct_event c) ∷ []) (copies e (suc w.uuids) more),
      )

  -- An event routed by capability, where the matched agents are local and in the registry under
  -- their ids, and the bus takes every message: each matched agent gets exactly one copy, in the
  -- order of the list, under its own subject, with a UUID of its own and without the routing key.
  pub capability_to_locals :
      (e : Event) (w : World E) (agents : List AgentRegistration) (a : AgentRegistration)
      (more : List AgentRegistration)
      → resolve_strategy e ≡ capability
      → r.list_agents w.env ≡ ok agents
      → matched r (or_empty (lookup capability_key e.metadata)) agents ≡ a ∷ more
      → All (λ b. (r.get_agent b.agent_id w.env ≡ ok b) × (is_remote b ≡ false)) (a ∷ more)
      → ((m : Event) (v : World E) → r.bus_takes m v ≡ ok tt)
      → ((route r e w).0 ≡ ok tt) × ((route r e w).1.sent ≡ w.sent ++ copies e w.uuids (a ∷ more))
  capability_to_locals e w agents a more st listed found locals takes =
      let done = fan_out_locals e (a ∷ more) w takes locals in
      unfold route route_capability in rw (st, route) (rw listed (rw found done))

  -- Every matched agent is a listed, ACTIVE one that offers the capability; and when a remote agent
  -- is among them, every listed agent that offers it is remote.
  pub matched_prefers_local :
      (name : GoString) (agents : List AgentRegistration) (a b : AgentRegistration)
      → In a (matched r name agents)
      → is_remote a ≡ true
      → In b agents
      → offers_capability name b ≡ true
      → In a agents × (offers_capability name a ≡ true) × (is_remote b ≡ true)
  unfolding matched
  matched_prefers_local name agents a b i far ib ob =
      let (k, off, rest) =
        go (select (λ x. not (is_remote x)) (select (offers_capability name) agents)) refl in
      (k, off, rest far b ib ob)
    where
      offering : List AgentRegistration
      offering = select (offers_capability name) agents

      Goal : Type 0
      Goal =
          In a agents
          × (offers_capability name a ≡ true)
          × (is_remote a ≡ true
              → (b : AgentRegistration) → In b agents
              → offers_capability name b ≡ true
              → is_remote b ≡ true)

      no_local :
          (b : AgentRegistration)
          → select (λ x. not (is_remote x)) offering ≡ []
          → In b offering
          → is_remote b ≡ true
      no_local b none_local ib = elim (Bool-cases (is_remote b)) [
        | inl yes_b ↦ yes_b
        | inr no_b ↦ absurd (
            subst (λ xs. In b xs) none_local
              ((In-select (λ x. not (is_remote x)) b offering).1 (ib, ap not no_b)))
      ]

      go : (ls : List AgentRegistration) → select (λ x. not (is_remote x)) offering ≡ ls → Goal
      go [] none_local =
          let (j, rem) = (In-select is_remote a offering).0 (rw none_local at i) in
          let (k, off) = (In-select (offers_capability name) a agents).0 j in
          (
            k,
            off,
            λ _ b ib ob.
                no_local b none_local ((In-select (offers_capability name) b agents).1 (ib, ob)),
          )
      go (x ∷ ls) some_local =
          let j : In a (x ∷ ls) = rw some_local at i in
          let k =
            (In-select (λ y. not (is_remote y)) a offering).0
              (subst (λ xs. In a xs) (sym some_local) j) in
          let m = (In-select (offers_capability name) a agents).0 k.0 in
          (m.0, m.1, λ far b ib ob. absurd (ground (arith, far, k.1)))
