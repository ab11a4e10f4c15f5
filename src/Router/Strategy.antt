-- ===== src/Router/Strategy.antt =====
-- core/router/strategy.go: ResolveStrategy.
use baran_os.Base.{
  ◌≡◌, ◌≢◌, [], ◌∷◌, refl, GoString, codes, lookup, Option, none, some, Bool, true, false, is_empty,
  if◌then◌else◌, arith,
}
use baran_os.Eventbus.{Event}

pub data RoutingStrategy : Type 0 where
  broadcast direct workflow capability relay : RoutingStrategy

abbrev pub capability_key : GoString
capability_key = codes "route.capability"

abbrev is_some {ℓ} : {A : Type ℓ} → Option A → Bool
is_some none = false
is_some (some a) = true

unfoldable pub resolve_strategy : Event → RoutingStrategy
resolve_strategy e =
    if is_empty e.target_agent
    then (if is_some (lookup capability_key e.metadata)
        then capability
        else if is_empty e.workflow_id
        then broadcast
        else workflow)
    else direct

-- The precedence is direct, capability, workflow, broadcast; no event is resolved to the relay.
abbrev pub Precedence : Event → RoutingStrategy → Type 0
Precedence e direct = e.target_agent ≢ []
Precedence e capability = (e.target_agent ≡ []) × (lookup capability_key e.metadata ≢ none)
Precedence e workflow =
    (e.target_agent ≡ []) × (lookup capability_key e.metadata ≡ none) × (e.workflow_id ≢ [])
Precedence e broadcast =
    (e.target_agent ≡ []) × (lookup capability_key e.metadata ≡ none) × (e.workflow_id ≡ [])
Precedence e relay = ⊥

-- The resolved strategy is the one whose condition holds.
pub resolve-Precedence : (e : Event) → Precedence e (resolve_strategy e)
unfolding resolve_strategy
resolve-Precedence e =
    go e.target_agent (lookup capability_key e.metadata) e.workflow_id refl refl refl
  where
    go :
        (t : GoString) (m : Option GoString) (w : GoString)
        → e.target_agent ≡ t
        → lookup capability_key e.metadata ≡ m
        → e.workflow_id ≡ w
        → Precedence e (resolve_strategy e)
    go (c ∷ t) m w ht hm hw =
        let eq : resolve_strategy e ≡ direct = ground (arith, ht) in rw eq (λ z. cc)
    go [] (some k) w ht hm hw =
        let eq : resolve_strategy e ≡ capability = ground (arith, ht, hm) in rw eq (ht, λ z. cc)
    go [] none [] ht hm hw =
        let eq : resolve_strategy e ≡ broadcast = ground (arith, ht, hm, hw) in rw eq (ht, hm, hw)
    go [] none (c ∷ w) ht hm hw =
        let eq : resolve_strategy e ≡ workflow = ground (arith, ht, hm, hw) in
        rw eq (ht, hm, λ z. cc)
