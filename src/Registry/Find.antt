-- ===== src/Registry/Find.antt =====
-- core/registry/kv.go: FindByCapability with its matching of names and versions. sort.Slice is an
-- insertion sort here; the theorems on it say nothing of the order of equal ids, as Go does.
pub mod Sorting
pub mod Exact
use baran_os.Base.{
  List, [], ◌∷◌, any, select, is_empty, GoString, Bool, true, false, ◌&&◌, if◌then◌else◌, Result,
  ok, err, str_eq, str_lt, has_prefix, trim_suffix, contains_any,
}
use baran_os.Taxonomy.{Capability}
use baran_os.Registry.Types.{AgentRegistration, is_active}
use baran_os.Registry.Glob.{glob_match}
use baran_os.Registry.Store.{Buckets, KvRegistry, list}

-- matchGlob, which pathMatch calls
match_glob : GoString → GoString → Bool
match_glob pattern name =
    if contains_any b'*' b'?' pattern then glob_match pattern name else str_eq pattern name

capability_matches : GoString → Capability → Bool → Bool
unfolding match_glob
capability_matches query cap is_glob =
    if is_glob then match_glob query cap.name else str_eq cap.name query

version_matches : GoString → Capability → Bool
version_matches constraint cap =
    if is_empty constraint
    then true
    else has_prefix cap.version (trim_suffix b'X' (trim_suffix b'x' constraint))

-- the body of the loop over the agents: is this one appended?
unfoldable pub offers : GoString → GoString → AgentRegistration → Bool
unfolding capability_matches version_matches
offers name constraint agent =
    is_active agent.status
    && any
        (λ cap.
          capability_matches name cap (contains_any b'*' b'?' name)
          && version_matches constraint cap)
        agent.capabilities

pub insert_by_id : AgentRegistration → List AgentRegistration → List AgentRegistration
insert_by_id a [] = a ∷ []
insert_by_id a (x ∷ xs) =
    let rest = insert_by_id a xs in if str_lt a.agent_id x.agent_id then a ∷ x ∷ xs else x ∷ rest

pub sort_by_id : List AgentRegistration → List AgentRegistration
unfolding insert_by_id
sort_by_id [] = []
sort_by_id (x ∷ xs) = insert_by_id x (sort_by_id xs)

unfoldable pub find_by_capability :
    {B C V W : Type 0}
    → KvRegistry B C V W
    → GoString
    → GoString
    → Buckets B C
    → Result (List AgentRegistration)
unfolding sort_by_id
find_by_capability r name constraint s = elim (list r s) [
  | ok all ↦ ok (sort_by_id (select (offers name constraint) all))
  | err e ↦ err e
]
