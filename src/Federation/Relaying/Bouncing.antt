-- ===== src/Federation/Relaying/Bouncing.antt =====
-- A relayed event for an agent that its target node knows from another node only: gateway.go and relay.go
-- of core/federation with the router and the registry of that node.
use baran_os.Base.{
  ℕ, ◌≡◌, refl, ap, ◌∙◌, List, [], ◌∷◌, ◌++◌, In, inl, inr, is_empty, GoString, codes, lookup,
  insert, lookup-insert, insert_found, some, true, false, Bool-cases, str_eq, str_eq_sound,
  str_eq_refl, Error, Result, ok, err, arith,
}
use baran_os.Eventbus.{Event}
use baran_os.Kv.{IsCodec}
use baran_os.Registry.{AgentRegistration, is_remote}
use baran_os.Registry.Store.{Buckets, KvRegistry, get, list}
use baran_os.Router.Dispatch.{World, DefaultRouter, Relay, relayed, relayed_key}
use baran_os.Router.Dispatch.Elsewhere.{routed_elsewhere}
use baran_os.Federation.Relaying.{
  Relayer, Link, source_key, marked, find_remote, is_remote_agent, relay, handle_incoming_relay,
}
use baran_os.Federation.Relaying.Roundtrip.{relayed_marked}

-- GetAgent of the router is the registry's Get, without the revision
abbrev pub agent_of : Result (AgentRegistration × ℕ) → Result AgentRegistration
agent_of (ok (agent, rev)) = ok agent
agent_of (err e) = err e

-- a registration of the agent by another node
abbrev pub KnownRemote : GoString → List AgentRegistration → AgentRegistration → Type 0
KnownRemote id agents a = In a agents × (a.agent_id ≡ id) × (is_remote a ≡ true)

find_remote-In :
    (id : GoString) (agents : List AgentRegistration) (a : AgentRegistration)
    → KnownRemote id agents a
    → (b : AgentRegistration) × KnownRemote id agents b
      × (find_remote id agents ≡ (true, b.node_id))
unfolding find_remote
find_remote-In id [] a (i, named, away) = absurd i
find_remote-In id (x ∷ xs) a (i, named, away) = elim (Bool-cases (str_eq x.agent_id id)) [
  | inl same ↦ (elim (Bool-cases (is_remote x)) [
    | inl here ↦ (x, (inl refl, str_eq_sound x.agent_id id same, here), rw (same, here) refl)
    | inr local ↦
        let (b, (j, n, r), f) = find_remote-In id xs a (later i local, named, away) in
        (b, (inr j, n, r), rw (same, local) f)
  ])
  | inr other ↦
      let (b, (j, n, r), f) = find_remote-In id xs a (behind i other, named, away) in
      (b, (inr j, n, r), rw other f)
]
  where
    later : In a (x ∷ xs) → is_remote x ≡ false → In a xs
    later (inl e) local = absurd (ground (arith, local, away, ap (λ y. is_remote y) e))
    later (inr j) local = j

    behind : In a (x ∷ xs) → str_eq x.agent_id id ≡ false → In a xs
    behind (inl e) other =
        absurd (ground (arith, other, str_eq_refl id, named, ap (λ y. y.agent_id) e))
    behind (inr j) other = j

module _ {E P M B C V W : Type 0} (a : Relayer E P M) (b : Relayer (Buckets B C) P M)
    (events : IsCodec a.event_codec) (relays : IsCodec a.relay_codec)
    (same_events : b.event_codec ≡ a.event_codec) (same_relays : b.relay_codec ≡ a.relay_codec)
    (reg : KvRegistry B C V W) where
  -- A node relays an event for an agent to another node, whose router asks its registry for agents and
  -- IsRemoteAgent for nodes, and which has the agent as the remote one of some node only. That node
  -- relays the event once more, to a node that the agent is registered from, although the event has
  -- the mark federation.relayed by then.
  pub relayed_again :
      (e : Event) (l : Link E M) (k : Link (Buckets B C) M) (r : DefaultRouter (Buckets B C))
      (rel : Relay (Buckets B C)) (x : Error) (agents : List AgentRegistration)
      (known : AgentRegistration)
      → ((subject : GoString) → (bytes : M) → a.transport_takes subject bytes ≡ ok tt)
      → b.local_router ≡ some r
      → r.relay ≡ some rel
      → ((id : GoString) (s : Buckets B C) → r.get_agent id s ≡ agent_of (get reg id s))
      → ((id : GoString) (s : Buckets B C) → rel.is_remote_agent id s ≡ is_remote_agent reg id s)
      → ((node : GoString) (m : Event) (w : World (Buckets B C)) → rel.takes node m w ≡ ok tt)
      → is_empty e.target_agent ≡ false
      → get reg e.target_agent k.router.env ≡ err x
      → list reg k.router.env ≡ ok agents
      → KnownRemote e.target_agent agents known
      → (bytes : M) × ((relay a b.node_id e l).1.out
          ≡ l.out
            ++ (codes "federation.relay." ++ (b.node_id ++ (codes "." ++ e.type)), bytes) ∷ [])
        × ((there : AgentRegistration) × KnownRemote e.target_agent agents there
            × ((got : Event) × ((handle_incoming_relay b bytes k).router.sent
                  ≡ k.router.sent ++ relayed there.node_id got ∷ [])
                × (record got { metadata = e.metadata } ≡ e)
                × (lookup (codes "federation.relayed") got.metadata ≡ some (codes "true"))))
  unfolding is_remote_agent marked str_eq
  relayed_again e l k r rel x agents known takes local has asks finds sends named missing listed
        away =
      let (bytes, out, arrives, _) =
        relayed_marked a b events relays same_events same_relays e l k r takes local in
      let (there, here, found) = find_remote-In e.target_agent agents known away in
      let got = marked a.node_id e in
      let target : rel.is_remote_agent e.target_agent k.router.env ≡ ok (true, there.node_id) =
        finds e.target_agent k.router.env ∙ rw (is_remote_agent, missing, listed) (ap ok found) in
      let absent : r.get_agent e.target_agent k.router.env ≡ err x =
        asks e.target_agent k.router.env ∙ ap agent_of missing in
      (
        bytes,
        out,
        (
          there,
          here,
          (
            got,
            ap (λ w. w.sent) arrives
                ∙ routed_elsewhere r rel got k.router x there.node_id has named absent target
                    (sends there.node_id got k.router),
            refl,
            ground (
              arith,
              lookup-insert source_key relayed_key a.node_id
                  (insert relayed_key (codes "true") e.metadata),
              insert_found relayed_key (codes "true") e.metadata,
            ),
          ),
        ),
      )
