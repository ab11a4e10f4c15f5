-- ===== src/Federation/Relaying/Returning.antt =====
-- The result of a step that ran on another node, on its way back: gateway.go of core/federation with
-- the router of the node that waits for the result.
use baran_os.Base.{
  ◌≡◌, ◌≢◌, refl, sym, ap, ◌∙◌, [], ◌∷◌, ◌++◌, is_empty, length, length-append, GoString, codes,
  Dict, lookup, lookup-insert, insert, none, some, false, str_eq, ok, arith,
}
use baran_os.Eventbus.{Event}
use baran_os.Kv.{IsCodec}
use baran_os.Sdk.Payloads.{step_result_type}
use baran_os.Router.Strategy.{capability_key}
use baran_os.Router.Dispatch.{published, World, DefaultRouter, relayed_key, workflow_event}
use baran_os.Router.Dispatch.Workflows.{routed_to_workflow}
use baran_os.Federation.Relaying.{
  Relayer, Link, source_key, marked, without_marks, relay_subject, handle_incoming_relay,
  forward_result_to_source,
}
use baran_os.Federation.Relaying.Roundtrip.{relayed_marked}

-- a key that is no mark is not found behind the marks either
without_other :
    (k : GoString) (m : Dict GoString) → lookup k m ≡ none → lookup k (without_marks m) ≡ none
unfolding without_marks lookup
without_other k [] h = refl
without_other k ((j, w) ∷ m) h = ground (arith, h, without_other k m)

longer : (id rest : GoString) → codes "workflow." ++ (id ++ (codes "." ++ rest)) ≢ rest
longer id rest same = omega (arith, length-append id (codes "." ++ rest), ap length same)

marked_capability :
    (source : GoString) (e : Event)
    → lookup capability_key e.metadata ≡ none
    → lookup capability_key (marked source e).metadata ≡ none
unfolding marked str_eq
marked_capability source e h = ground (
  arith,
  h,
  lookup-insert source_key capability_key source (insert relayed_key (codes "true") e.metadata),
  lookup-insert relayed_key capability_key (codes "true") e.metadata,
)

module _ {E F P M : Type 0} (a : Relayer E P M) (b : Relayer F P M) (events : IsCodec a.event_codec)
    (relays : IsCodec a.relay_codec) (same_events : b.event_codec ≡ a.event_codec)
    (same_relays : b.relay_codec ≡ a.relay_codec) where
  -- A step result with the type that an agent gives it, which a node sends back to the node that
  -- waits for it, is published there under a subject with the prefix "workflow.{id}." twice, which is
  -- not the type "workflow.{id}.workflow.step.result" that it was sent with. This takes a workflow id,
  -- no target agent and no wanted capability, and that the stream of the workflow exists and the
  -- transport and the bus take what they are given.
  pub relayed_result_misaddressed :
      (e : Event) (l : Link E M) (k : Link F M) (r : DefaultRouter F) (stream : GoString)
      → ((subject : GoString) → (bytes : M) → a.transport_takes subject bytes ≡ ok tt)
      → b.local_router ≡ some r
      → e.type ≡ step_result_type e.workflow_id
      → e.target_agent ≡ []
      → lookup capability_key e.metadata ≡ none
      → is_empty e.workflow_id ≡ false
      → (r.get_or_create_stream e.workflow_id k.router.env).0 ≡ ok stream
      → ((m : Event) (v : World F) → r.bus_takes m v ≡ ok tt)
      → let arrived =
          workflow_event (marked a.node_id (record e { metadata = without_marks e.metadata })) in
        (bytes : M) × ((forward_result_to_source a b.node_id e l).out
          ≡ l.out ++ (relay_subject a b.node_id e, bytes) ∷ [])
        × ((handle_incoming_relay b bytes k).router.sent ≡ k.router.sent ++ published arrived ∷ [])
        × (arrived.type
            ≡ codes "workflow." ++ (e.workflow_id ++ (codes "." ++ step_result_type e.workflow_id)))
        × (arrived.type ≢ step_result_type e.workflow_id)
  unfolding forward_result_to_source marked
  relayed_result_misaddressed e l k r stream takes local typed nobody no_capability placed made
        bus =
      let clean = record e { metadata = without_marks e.metadata } in
      let (bytes, out, arrives, mark) =
        relayed_marked a b events relays same_events same_relays clean l k r takes local in
      let free =
        marked_capability a.node_id clean (without_other capability_key e.metadata no_capability) in
      (
        bytes,
        out,
        ap (λ w. w.sent) arrives
            ∙ routed_to_workflow r (marked a.node_id clean) k.router stream nobody free placed made
                bus,
        ap (λ t. codes "workflow." ++ (e.workflow_id ++ (codes "." ++ t))) typed,
        λ same.
            longer e.workflow_id (step_result_type e.workflow_id) (
              sym (ap (λ t. codes "workflow." ++ (e.workflow_id ++ (codes "." ++ t))) typed)
              ∙ same),
      )
