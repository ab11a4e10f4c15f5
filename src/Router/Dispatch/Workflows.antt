-- ===== src/Router/Dispatch/Workflows.antt =====
-- An event of a workflow in `DefaultRouter.Route` of core/router/router.go.
use baran_os.Base.{◌≡◌, refl, [], ◌∷◌, ◌++◌, is_empty, GoString, lookup, none, false, ok, arith}
use baran_os.Eventbus.{Event}
use baran_os.Router.Strategy.{workflow, capability_key, resolve_strategy}
use baran_os.Router.Dispatch.{
  published, World, DefaultRouter, publish, route_workflow, dispatch, route, workflow_event,
}

-- an event of a workflow with no other destination, where the stream is made and the bus takes it
pub routed_to_workflow :
    {E : Type 0} (r : DefaultRouter E) (e : Event) (w : World E) (stream : GoString)
    → e.target_agent ≡ []
    → lookup capability_key e.metadata ≡ none
    → is_empty e.workflow_id ≡ false
    → (r.get_or_create_stream e.workflow_id w.env).0 ≡ ok stream
    → ((m : Event) (v : World E) → r.bus_takes m v ≡ ok tt)
    → (route r e w).1.sent ≡ w.sent ++ published (workflow_event e) ∷ []
unfolding route dispatch route_workflow publish resolve_strategy
routed_to_workflow r e w stream nobody no_capability placed made takes =
    let strategy : resolve_strategy e ≡ workflow = ground (arith, nobody, no_capability, placed) in
    let env = (r.get_or_create_stream e.workflow_id w.env).1 in
    rw (route, strategy, made, publish, takes (workflow_event e) (record w { env = env })) refl
