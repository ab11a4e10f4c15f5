-- ===== src/Router/Dispatch/Elsewhere.antt =====
-- `routeDirect` of core/router/router.go for an agent that the registry does not have.
use baran_os.Base.{◌≡◌, [], ◌∷◌, ◌++◌, is_empty, GoString, some, true, false, Error, ok, err, arith}
use baran_os.Eventbus.{Event}
use baran_os.Router.Strategy.{direct, resolve_strategy}
use baran_os.Router.Dispatch.{
  relayed, World, Relay, DefaultRouter, relay_to_node, missing_target, route_direct, dispatch,
  route,
}

-- the relay knows a node for the target: the event goes there, whatever its metadata say
pub routed_elsewhere :
    {E : Type 0} (r : DefaultRouter E) (rel : Relay E) (e : Event) (w : World E) (x : Error)
    (node : GoString)
    → r.relay ≡ some rel
    → is_empty e.target_agent ≡ false
    → r.get_agent e.target_agent w.env ≡ err x
    → rel.is_remote_agent e.target_agent w.env ≡ ok (true, node)
    → rel.takes node e w ≡ ok tt
    → (route r e w).1.sent ≡ w.sent ++ relayed node e ∷ []
unfolding route dispatch resolve_strategy route_direct missing_target relay_to_node
routed_elsewhere r rel e w x node has named missing known takes =
    let strategy : resolve_strategy e ≡ direct = ground (arith, named) in
    rw (route, strategy) (ground (arith, has, missing, known, takes))
