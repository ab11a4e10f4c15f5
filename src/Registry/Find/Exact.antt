-- ===== src/Registry/Find/Exact.antt =====
-- `FindByCapability` returns the active agents that offer the capability, all of them, by id.
use mathlib.Core.List.Permᴰ
use mathlib.Core.List.{Permᴰ}
use baran_os.Base.{
  In-select, ◌++◌, ◌&&◌, any, any_witness, any-In, trim_suffix, contains_any, has_prefix_iff, ◌≡◌,
  ◌↔◌, ◌⊎◌, inl, inr, refl, List, [], ◌∷◌, In, All, select, GoString, Bool, true, false, ok, str_lt,
  str_lt_asym, str_lt_neg_trans, arith, Bool-cases,
}
use baran_os.Taxonomy.{Capability}
use baran_os.Registry.Glob.Decides.{Matches, glob_match_exact, literal_exact}
use baran_os.Registry.Types.{is_active, active, AgentRegistration}
use baran_os.Registry.Store.{Buckets, KvRegistry, list}
use baran_os.Registry.Find.Sorting.{rejected, select-rejected, sort_perm}
use baran_os.Registry.Find.{
  capability_matches, version_matches, offers, insert_by_id, sort_by_id, find_by_capability,
}

iff_trans : {P Q R : Type 0} → P ↔ Q → Q ↔ R → P ↔ R
iff_trans f g = (λ p. g.0 (f.0 p), λ r. f.1 (g.1 r))

-- no later agent has a smaller id
abbrev pub NotBelow : AgentRegistration → AgentRegistration → Type 0
NotBelow x y = str_lt y.agent_id x.agent_id ≡ false

abbrev pub IsSortedById : List AgentRegistration → Type 0
IsSortedById [] = Unit
IsSortedById (x ∷ xs) = All (NotBelow x) xs × IsSortedById xs

In-insert :
    (a y : AgentRegistration) (xs : List AgentRegistration)
    → In y (insert_by_id a xs) ↔ In y (a ∷ xs)
unfolding insert_by_id
In-insert a y [] = (λ i. i, λ i. i)
In-insert a y (x ∷ xs) =
    (λ i. ground (arith, In-insert a y xs, i), λ i. ground (arith, In-insert a y xs, i))

In-sort : (y : AgentRegistration) (xs : List AgentRegistration) → In y (sort_by_id xs) ↔ In y xs
unfolding sort_by_id
In-sort y [] = (λ i. i, λ i. i)
In-sort y (x ∷ xs) = (
  λ i. ground (arith, In-insert x y (sort_by_id xs), In-sort y xs, i),
  λ i. ground (arith, In-insert x y (sort_by_id xs), In-sort y xs, i),
)

All-NotBelow-insert :
    (y a : AgentRegistration) (xs : List AgentRegistration)
    → NotBelow y a
    → All (NotBelow y) xs
    → All (NotBelow y) (insert_by_id a xs)
unfolding insert_by_id
All-NotBelow-insert y a [] h hs = (h, tt)
All-NotBelow-insert y a (x ∷ xs) h hs = ground (arith, All-NotBelow-insert y a xs h hs.1)

All-NotBelow_trans :
    (a x : AgentRegistration) (xs : List AgentRegistration)
    → NotBelow a x
    → All (NotBelow x) xs
    → All (NotBelow a) xs
All-NotBelow_trans a x [] h hs = tt
All-NotBelow_trans a x (y ∷ xs) h hs =
    (str_lt_neg_trans a.agent_id x.agent_id y.agent_id h hs.0, All-NotBelow_trans a x xs h hs.1)

insert-IsSortedById :
    (a : AgentRegistration) (xs : List AgentRegistration)
    → IsSortedById xs
    → IsSortedById (insert_by_id a xs)
unfolding insert_by_id
insert-IsSortedById a [] s = (tt, tt)
insert-IsSortedById a (x ∷ xs) s = elim (Bool-cases (str_lt a.agent_id x.agent_id)) [
  | inl below ↦
      let ax = str_lt_asym a.agent_id x.agent_id below in
      rw below ((ax, All-NotBelow_trans a x xs ax s.0), s)
  | inr not_below ↦
      rw not_below (All-NotBelow-insert x a xs not_below s.0, insert-IsSortedById a xs s.1)
]

sort-IsSortedById : (xs : List AgentRegistration) → IsSortedById (sort_by_id xs)
unfolding sort_by_id
sort-IsSortedById [] = tt
sort-IsSortedById (x ∷ xs) = insert-IsSortedById x (sort_by_id xs) (sort-IsSortedById xs)

-- The version constraint: an empty one admits all, and any other is a prefix, less a final "x" and "X".
abbrev pub VersionFits : GoString → Capability → Type 0
VersionFits constraint cap =
    (constraint ≡ [])
    ⊎ ((r : GoString) × (cap.version ≡ trim_suffix b'X' (trim_suffix b'x' constraint) ++ r))

-- An active agent with a capability whose name matches the query.
abbrev pub Offers : GoString → GoString → AgentRegistration → Type 0
Offers name constraint agent =
    (agent.status ≡ active)
    × ((cap : Capability) × In cap agent.capabilities
        × Matches name cap.name
        × VersionFits constraint cap)

name_iff :
    (name : GoString) (cap : Capability)
    → (capability_matches name cap (contains_any b'*' b'?' name) ≡ true) ↔ Matches name cap.name
unfolding capability_matches
name_iff name cap = elim (Bool-cases (contains_any b'*' b'?' name)) [
  | inl glob ↦ rw glob (glob_match_exact name cap.name)
  | inr plain ↦ rw plain (literal_exact name cap.name plain)
]

version_iff :
    (constraint : GoString) (cap : Capability)
    → (version_matches constraint cap ≡ true) ↔ VersionFits constraint cap
unfolding version_matches
version_iff [] cap = (λ _. inl refl, λ _. refl)
version_iff (c ∷ cs) cap =
    (λ h. inr ((has_prefix_iff _ _).0 h), elim [ inl e ↦ cc | inr x ↦ (has_prefix_iff _ _).1 x ])

offers_iff :
    (name constraint : GoString) (a : AgentRegistration)
    → (offers name constraint a ≡ true) ↔ Offers name constraint a
unfolding offers
offers_iff name constraint a = (from, to)
  where
    test : Capability → Bool
    test cap =
        capability_matches name cap (contains_any b'*' b'?' name) && version_matches constraint cap

    from : (is_active a.status && any test a.capabilities) ≡ true → Offers name constraint a
    from h =
        let (cap, i, t) = any_witness test a.capabilities (ground (arith, h)) in
        (
          ground (arith, h),
          (
            cap,
            i,
            (name_iff name cap).0 (ground (arith, t)),
            (version_iff constraint cap).0 (ground (arith, t)),
          ),
        )

    to : Offers name constraint a → (is_active a.status && any test a.capabilities) ≡ true
    to (act, (cap, i, n, v)) =
        let t : test cap ≡ true =
          ground (arith, (name_iff name cap).1 n, (version_iff constraint cap).1 v) in
        ground (arith, act, any-In test a.capabilities cap i t)

rejected-Offers :
    (name constraint : GoString) (xs : List AgentRegistration)
    → All (λ a. ¬ (Offers name constraint a)) (rejected (offers name constraint) xs)
unfolding rejected
rejected-Offers name constraint [] = tt
rejected-Offers name constraint (x ∷ xs) = elim (Bool-cases (offers name constraint x)) [
  | inl offered ↦ rw offered (rejected-Offers name constraint xs)
  | inr not_offered ↦ rw not_offered (
    (λ o. cc ((offers_iff name constraint x).1 o, not_offered)),
    rejected-Offers name constraint xs,
  )
]

-- When the registry can be listed, `FindByCapability` returns exactly the listed agents that are
-- ACTIVE and have a capability whose name matches the query (a glob, or the very name) at a version
-- that the constraint admits, each as often as it is listed: the listed agents are, up to their order,
-- the returned ones and others that do not offer the capability. They stand in the order of their ids.
pub find_exact :
    {B C V W : Type 0} (r : KvRegistry B C V W) (name constraint : GoString) (s : Buckets B C)
    (all : List AgentRegistration)
    → list r s ≡ ok all
    → (out : List AgentRegistration) × (find_by_capability r name constraint s ≡ ok out)
      × IsSortedById out
      × ((a : AgentRegistration) → In a out ↔ (In a all × Offers name constraint a))
      × ((others : List AgentRegistration) × Permᴰ (out ++ others) all
          × All (λ a. ¬ (Offers name constraint a)) others)
unfolding find_by_capability
find_exact r name constraint s all h = (
  sort_by_id (select (offers name constraint) all),
  rw (h, find_by_capability) refl,
  sort-IsSortedById (select (offers name constraint) all),
  (λ a. offered a),
  (
    rejected (offers name constraint) all,
    Permᴰ.trans
        (Permᴰ.append_right (rejected (offers name constraint) all)
          (sort_perm (select (offers name constraint) all)))
        (select-rejected (offers name constraint) all),
    rejected-Offers name constraint all,
  ),
)
  where
    offered :
        (a : AgentRegistration)
        → In a (sort_by_id (select (offers name constraint) all))
          ↔ (In a all × Offers name constraint a)
    offered a =
        let i =
          iff_trans (In-sort a (select (offers name constraint) all))
            (In-select (offers name constraint) a all) in
        (
          λ x. ((i.0 x).0, (offers_iff name constraint a).0 (i.0 x).1),
          λ y. i.1 (y.0, (offers_iff name constraint a).1 y.1),
        )
