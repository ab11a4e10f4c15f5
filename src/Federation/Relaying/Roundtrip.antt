-- ===== src/Federation/Relaying/Roundtrip.antt =====
-- An event that core/federation relays from one node to another, and its result on the way back.
use baran_os.Base.{
  if◌then◌else◌, ◌≡◌, refl, ap, ◌∙◌, [], ◌∷◌, ◌++◌, is_empty, GoString, codes, Dict, lookup, insert,
  lookup-insert, insert_found, Option, none, some, true, Bool-cases, Option-cases, inl, inr, str_eq,
  str_eq_refl, Result, ok, arith,
}
use baran_os.Eventbus.{Event}
use baran_os.Kv.{IsCodec}
use baran_os.Router.Dispatch.{DefaultRouter, route, relayed_key, is_relayed_event}
use baran_os.Federation.Relaying.{
  Relayer, Link, source_key, marked, without_marks, transmit, relay_subject, relay_payload, relay,
  follow, set_up, setup_result_forwarding, route_locally, dispatch_relayed, handle_incoming_relay,
  forward_result_to_source,
}

insert_new :
    (k v : GoString) (m : Dict GoString) → lookup k m ≡ none → insert k v m ≡ m ++ (k, v) ∷ []
unfolding lookup insert
insert_new k v [] h = refl
insert_new k v ((j, w) ∷ m) h = ground (arith, h, insert_new k v m)

without-append : (m n : Dict GoString) → without_marks (m ++ n) ≡ without_marks m ++ without_marks n
unfolding without_marks
without-append [] n = refl
without-append ((k, v) ∷ m) n = ground (arith, without-append m n)

without_unmarked :
    (m : Dict GoString)
    → lookup relayed_key m ≡ none
    → lookup source_key m ≡ none
    → without_marks m ≡ m
unfolding without_marks lookup
without_unmarked [] h k = refl
without_unmarked ((j, w) ∷ m) h k = ground (arith, h, k, without_unmarked m)

append-nil : (m : Dict GoString) → m ++ [] ≡ m
append-nil [] = refl
append-nil (x ∷ m) = ap (λ l. x ∷ l) (append-nil m)

-- the marks are taken off again
without_marked :
    (source : GoString) (m : Dict GoString)
    → lookup relayed_key m ≡ none
    → lookup source_key m ≡ none
    → without_marks (insert source_key source (insert relayed_key (codes "true") m)) ≡ m
unfolding str_eq without_marks
without_marked source m h k =
    let first = insert_new relayed_key (codes "true") m h in
    let inner : lookup source_key (insert relayed_key (codes "true") m) ≡ none =
      lookup-insert relayed_key source_key (codes "true") m ∙ k in
    let once : without_marks (insert relayed_key (codes "true") m) ≡ m =
      ap without_marks first
      ∙ without-append m ((relayed_key, codes "true") ∷ [])
      ∙ append-nil (without_marks m)
      ∙ without_unmarked m h k in
    ap without_marks (insert_new source_key source (insert relayed_key (codes "true") m) inner)
    ∙ without-append (insert relayed_key (codes "true") m) ((source_key, source) ∷ [])
    ∙ append-nil (without_marks (insert relayed_key (codes "true") m))
    ∙ once

module _ {E P M : Type 0} (g : Relayer E P M) where
  follow_keeps :
      (ensure : Option (GoString → Result Unit)) (workflow_id source : GoString) (l : Link E M)
      → ((follow g ensure workflow_id source l).router ≡ l.router)
        × ((follow g ensure workflow_id source l).relayed_workflows ≡ l.relayed_workflows)
  unfolding follow
  follow_keeps none workflow_id source l = (refl, refl)
  follow_keeps (some ensure) workflow_id source l = ground arith

  setup_router :
      (workflow_id source : GoString) (l : Link E M)
      → (setup_result_forwarding g workflow_id source l).router ≡ l.router
  unfolding setup_result_forwarding set_up
  setup_router workflow_id source l = elim (Option-cases (lookup workflow_id l.relayed_workflows)) [
    | inl new ↦ rw new ((follow_keeps g.ensure_stream workflow_id source _).0)
    | inr (known, old) ↦ rw old refl
  ]

  -- `setupResultForwarding` works once for a workflow: a second call, for the same or for another
  -- source node, changes nothing, also when the first one could not make the stream or subscribe.
  pub forwarding_set_up_once :
      (workflow_id source other : GoString) (l : Link E M)
      → setup_result_forwarding g workflow_id other (setup_result_forwarding g workflow_id source l)
        ≡ setup_result_forwarding g workflow_id source l
  unfolding setup_result_forwarding set_up
  forwarding_set_up_once workflow_id source other l =
      elim (Option-cases (lookup workflow_id l.relayed_workflows)) [
        | inr (known, old) ↦ rw (old, old) refl
        | inl new ↦
            let stored = record l {
              relayed_workflows = insert workflow_id source l.relayed_workflows;
            } in
            let kept = (follow_keeps g.ensure_stream workflow_id source stored).1 in
            rw (new, kept, insert_found workflow_id source l.relayed_workflows) refl
      ]

  -- A step result that carries the marks of a relayed event goes back to the source node as it would
  -- without them.
  pub result_sent_without_marks :
      (marker source : GoString) (e : Event) (l : Link E M)
      → lookup relayed_key e.metadata ≡ none
      → lookup source_key e.metadata ≡ none
      → forward_result_to_source g source (marked marker e) l ≡ (relay g source e l).1
  unfolding forward_result_to_source marked
  result_sent_without_marks marker source e l h k =
      ap (λ m. (relay g source (record e { metadata = m }) l).1)
        (without_marked marker e.metadata h k)

  dispatched_router :
      (r : DefaultRouter E) (source : GoString) (e : Event) (l : Link E M)
      → (dispatch_relayed g (some r) source e l).router ≡ (route r e l.router).1
  unfolding dispatch_relayed route_locally
  dispatched_router r source e l = elim (Bool-cases (is_empty e.workflow_id)) [
    | inl none_set ↦ rw none_set refl
    | inr set ↦ rw set (ap (λ w. (route r e w).1) (setup_router e.workflow_id source l))
  ]

is_marked : (source : GoString) (e : Event) → is_relayed_event (marked source e) ≡ true
unfolding is_relayed_event marked str_eq
is_marked source e = ground (
  arith,
  lookup-insert source_key relayed_key source (insert relayed_key (codes "true") e.metadata),
  insert_found relayed_key (codes "true") e.metadata,
)

module _ {E F P M : Type 0} (a : Relayer E P M) (b : Relayer F P M) (events : IsCodec a.event_codec)
    (relays : IsCodec a.relay_codec) (same_events : b.event_codec ≡ a.event_codec)
    (same_relays : b.relay_codec ≡ a.relay_codec) where
  -- the event with its marks goes to the router of the target
  pub relayed_marked :
      (e : Event) (l : Link E M) (k : Link F M) (r : DefaultRouter F)
      → ((subject : GoString) → (bytes : M) → a.transport_takes subject bytes ≡ ok tt)
      → b.local_router ≡ some r
      → (bytes : M) × ((relay a b.node_id e l).1.out
          ≡ l.out ++ (relay_subject a b.node_id e, bytes) ∷ [])
        × ((handle_incoming_relay b bytes k).router ≡ (route r (marked a.node_id e) k.router).1)
        × (is_relayed_event (marked a.node_id e) ≡ true)
  unfolding relay transmit relay_payload handle_incoming_relay
  relayed_marked e l k r takes local =
      let (inner, enc) = events.marshal_total e in
      let p = relay_payload a b.node_id inner l in
      let (bytes, wrapped) = relays.marshal_total p in
      let read : b.relay_codec.unmarshal bytes ≡ ok p =
        ap (λ c. c.unmarshal bytes) same_relays ∙ relays.unmarshal-marshal p bytes wrapped in
      let read_event : b.event_codec.unmarshal inner ≡ ok e =
        ap (λ c. c.unmarshal inner) same_events ∙ events.unmarshal-marshal e inner enc in
      (
        bytes,
        rw (enc, wrapped, transmit, takes (relay_subject a b.node_id e) bytes) refl,
        rw (handle_incoming_relay, read, str_eq_refl b.node_id, read_event, local)
            (dispatched_router b r a.node_id (marked a.node_id e) k),
        is_marked a.node_id e,
      )

  -- What `Relay` of one node sends, `handleIncomingRelay` of the target node, which has a local router
  -- and the same encoding, gives to that router: the same event but for its metadata, in which the key
  -- federation.relayed has the value true, federation.source_node the sender, and every other key what
  -- it had.
  pub relayed_event_arrives :
      (e : Event) (l : Link E M) (k : Link F M) (r : DefaultRouter F)
      → ((subject : GoString) → (bytes : M) → a.transport_takes subject bytes ≡ ok tt)
      → b.local_router ≡ some r
      → (bytes : M) × ((relay a b.node_id e l).1.out
          ≡ l.out
            ++ (codes "federation.relay." ++ (b.node_id ++ (codes "." ++ e.type)), bytes) ∷ [])
        × ((got : Event) × ((handle_incoming_relay b bytes k).router ≡ (route r got k.router).1)
            × (record got { metadata = e.metadata } ≡ e)
            × ((key : GoString)
                → lookup key got.metadata ≡ (
                    if str_eq (codes "federation.source_node") key
                    then some a.node_id
                    else if str_eq (codes "federation.relayed") key
                    then some (codes "true")
                    else lookup key e.metadata)))
  unfolding marked
  relayed_event_arrives e l k r takes local =
      let (bytes, out, arrives, _) = relayed_marked e l k r takes local in
      (
        bytes,
        out,
        (
          marked a.node_id e,
          arrives,
          refl,
          λ key.
              rw
                (
                  lookup-insert source_key key a.node_id
                      (insert relayed_key (codes "true") e.metadata),
                  lookup-insert relayed_key key (codes "true") e.metadata,
                )
                refl,
        ),
      )
