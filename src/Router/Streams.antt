-- ===== src/Router/Streams.antt =====
-- core/router/streams.go: the registry of streams and the matching of subjects.
pub mod Matching
use baran_os.Base.{
  ℕ, ◌*◌, List, [], ◌∷◌, any, GoString, codes, Dict, lookup, insert, delete, Option, none, some,
  Bool, true, false, ◌&&◌, ◌||◌, not, if◌then◌else◌, str_eq, has_prefix, split, trim_suffix, ltb,
  ◌==◌,
}

pub record StreamConfig : Type 0 where
  pub name : GoString
  pub subjects : List GoString
  pub max_age : ℕ  -- nanoseconds

pub record StreamRegistry : Type 0 where
  pub streams : List StreamConfig
  pub dynamic : Dict StreamConfig

abbrev hour : ℕ
hour = 3600000000000

abbrev config : GoString → List GoString → ℕ → StreamConfig
config name subjects max_age = record { name = name; subjects = subjects; max_age = max_age }

-- DefaultStreamRegistry
unfoldable pub default_stream_registry : StreamRegistry
default_stream_registry = record {
  streams =
      config (codes "AGENTS")
        (codes "agent.register"
          ∷ codes "agent.unregister"
          ∷ codes "agent.error"
          ∷ codes "workflow.start"
          ∷ codes "workflow.state.request"
          ∷ codes "workflow.state.response"
          ∷ [])
        (24 * hour)
      ∷ config (codes "HEALTH") (codes "agent.health.ping" ∷ codes "agent.health.pong" ∷ []) hour
      ∷ config (codes "DIRECT") (codes "agent.direct.>" ∷ []) (24 * hour)
      ∷ config (codes "DISCOVERY")
          (codes "agent.capability.announce"
            ∷ codes "agent.discovery.request"
            ∷ codes "agent.discovery.response"
            ∷ [])
          (24 * hour)
      ∷ config (codes "HUMAN")
          (codes "human.decision.request" ∷ codes "human.decision.response" ∷ []) (24 * hour)
      ∷ config (codes "COORDINATION") (codes "decision.conflict" ∷ codes "decision.resolved" ∷ [])
          (24 * hour)
      ∷ config (codes "FEDERATION") (codes "federation.>" ∷ []) (24 * hour)
      ∷ config (codes "SIMULATION") (codes "simulation.>" ∷ []) (24 * hour)
      ∷ [];
  dynamic = [];
}

-- RegisterDynamic
unfoldable pub register_dynamic : GoString → List GoString → StreamRegistry → StreamRegistry
register_dynamic name subjects r = record r {
  dynamic = insert name (record { name = name; subjects = subjects; max_age = 0 }) r.dynamic;
}

-- UnregisterDynamic
unfoldable pub unregister_dynamic : GoString → StreamRegistry → StreamRegistry
unregister_dynamic name r = record r { dynamic = delete name r.dynamic }

-- matchTokens
match_tokens : List GoString → List GoString → Bool
match_tokens [] [] = true
match_tokens [] (s ∷ ss) = false
match_tokens (p ∷ ps) [] = false
match_tokens (p ∷ ps) (s ∷ ss) = (str_eq p (codes "*") || str_eq p s) && match_tokens ps ss

-- the last byte of a text of two bytes or more is '>'
ends_in_rest : GoString → Bool
ends_in_rest [] = false
ends_in_rest (c ∷ []) = false
ends_in_rest (c ∷ d ∷ []) = d == b'>'
ends_in_rest (c ∷ d ∷ e ∷ s) = ends_in_rest (d ∷ e ∷ s)

-- matchSubject; `trim_suffix b'>'` takes the '>' off a pattern that ends in it
unfoldable pub match_subject : GoString → GoString → Bool
unfolding match_tokens ends_in_rest
match_subject pattern event_type =
    if str_eq pattern event_type
    then true
    else if ends_in_rest pattern && has_prefix event_type (trim_suffix b'>' pattern)
    then true
    else match_tokens (split b'.' pattern) (split b'.' event_type)

-- the loop over the configurations and their subjects
first_match : GoString → List StreamConfig → Option GoString
first_match event_type [] = none
first_match event_type (cfg ∷ cs) =
    let rest = first_match event_type cs in
    if any (λ subject. match_subject subject event_type) cfg.subjects then some cfg.name else rest

values : Dict StreamConfig → List StreamConfig
values [] = []
values ((k, c) ∷ m) = c ∷ values m

or_else {ℓ} : {A : Type ℓ} → Option A → Option A → Option A
or_else none y = y
or_else (some x) y = some x

-- StreamForEventType. Go visits the dynamic streams in no fixed order; here in the order of the list.
unfoldable pub stream_for_event_type : StreamRegistry → GoString → Option GoString
unfolding first_match values or_else
stream_for_event_type r event_type =
    or_else (first_match event_type r.streams) (first_match event_type (values r.dynamic))
