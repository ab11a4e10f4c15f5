-- ===== src/Registry/Store/Registering.antt =====
-- `Register` and `Deregister` of core/registry/kv.go: what is stored, what is refused.
use baran_os.Base.{
  ℕ, ◌≡◌, ◌≢◌, ◌⊎◌, inl, inr, subst, sym, refl, str_eq, str_eq_sound, eq_iff, List, [], ◌∷◌, All,
  is_empty, false, GoString, Option, none, some, Result, ok, err, validation, not_found, arith,
  if◌then◌else◌, Bool-cases,
}
use baran_os.Kv.Upsert.{Answers, create_or_update_lem, create_or_update_frame}
use baran_os.Taxonomy.{Capability, Catalog, IsCatalog}
use baran_os.Registry.Types.{active, AgentRegistration}
use baran_os.Registry.Store.{
  Buckets, KvRegistry, get, register, deregister, prepare, map_capability, map_capabilities,
  store_vendor_capability, decoded,
}
use baran_os.Registry.Store.Writes.{Laws}

-- a stored capability has a name that the catalog accepts, if there is a catalog
abbrev pub IsAccepted : Option Catalog → Capability → Type 0
IsAccepted none cap = Unit
IsAccepted (some c) cap = c.validate cap.name ≡ ok tt

-- what is stored of the given capabilities: they themselves, or with a catalog what it maps each of
-- them to, of which it accepts the name
abbrev pub MappedEach : Catalog → List Capability → List Capability → Type 0
MappedEach c [] [] = Unit
MappedEach c [] (m ∷ ms) = ⊥
MappedEach c (cap ∷ caps) [] = ⊥
MappedEach c (cap ∷ caps) (m ∷ ms) =
    (c.validate cap.name ≡ ok tt) × (c.auto_map cap ≡ ok m) × MappedEach c caps ms

abbrev pub MappedBy : Option Catalog → List Capability → List Capability → Type 0
MappedBy none given stored = stored ≡ given
MappedBy (some c) given stored = MappedEach c given stored

abbrev pub IsLawful : Option Catalog → Type 0
IsLawful none = Unit
IsLawful (some c) = IsCatalog c

module _ {B C V W : Type 0} (r : KvRegistry B C V W) where
  store_vendor_agents :
      (cap : Capability) (s : Buckets B C) → (store_vendor_capability r cap s).1.agents ≡ s.agents
  unfolding store_vendor_capability
  store_vendor_agents cap s = ground arith

  map_capability_agents :
      (c : Catalog) (cap : Capability) (s : Buckets B C)
      → (map_capability r c cap s).1.agents ≡ s.agents
  unfolding map_capability
  map_capability_agents c cap s = ground arith

  map_capability-IsAccepted :
      (c : Catalog) (cap : Capability) (s : Buckets B C) (m : Capability)
      → IsCatalog c
      → (map_capability r c cap s).0 ≡ ok m
      → c.validate m.name ≡ ok tt
  unfolding map_capability
  map_capability-IsAccepted c cap s m laws h = ground (arith, laws.auto_map_name cap m)

  map_capabilities_agents :
      (c : Catalog) (caps : List Capability) (s : Buckets B C)
      → (map_capabilities r c caps s).1.agents ≡ s.agents
  unfolding map_capabilities
  map_capabilities_agents c [] s = refl
  map_capabilities_agents c (cap ∷ caps) s = ground (
    arith,
    map_capability_agents c cap s,
    map_capabilities_agents c caps (map_capability r c cap s).1,
  )

  prepare_agents :
      (c : Option Catalog) (caps : List Capability) (s : Buckets B C)
      → (prepare r c caps s).1.agents ≡ s.agents
  unfolding prepare
  prepare_agents none caps s = refl
  prepare_agents (some c) caps s = map_capabilities_agents c caps s

  map_capabilities-IsAccepted :
      (c : Catalog) (caps : List Capability) (s : Buckets B C) (ms : List Capability)
      → IsCatalog c
      → (map_capabilities r c caps s).0 ≡ ok ms
      → All (IsAccepted (some c)) ms
  unfolding map_capabilities
  map_capabilities-IsAccepted c [] s [] laws h = tt
  map_capabilities-IsAccepted c [] s (m ∷ ms) laws h = cc
  map_capabilities-IsAccepted c (cap ∷ caps) s [] laws h = absurd (ground (arith, h))
  map_capabilities-IsAccepted c (cap ∷ caps) s (m ∷ ms) laws h = (
    map_capability-IsAccepted c cap s m laws (ground (arith, h)),
    map_capabilities-IsAccepted c caps (map_capability r c cap s).1 ms laws (ground (arith, h)),
  )

  prepare-IsAccepted :
      (c : Option Catalog) (caps : List Capability) (s : Buckets B C) (ms : List Capability)
      → IsLawful c
      → (prepare r c caps s).0 ≡ ok ms
      → All (IsAccepted c) ms
  unfolding prepare
  prepare-IsAccepted none caps s ms laws h = trivial ms
    where
      trivial : (xs : List Capability) → All (IsAccepted none) xs
      trivial [] = tt
      trivial (x ∷ xs) = (tt, trivial xs)
  prepare-IsAccepted (some c) caps s ms laws h = map_capabilities-IsAccepted c caps s ms laws h

  map_capability-mapped :
      (c : Catalog) (cap m : Capability) (s : Buckets B C)
      → (map_capability r c cap s).0 ≡ ok m
      → (c.validate cap.name ≡ ok tt) × (c.auto_map cap ≡ ok m)
  unfolding map_capability
  map_capability-mapped c cap m s h = (ground (arith, h), ground (arith, h))

  map_capabilities-MappedEach :
      (c : Catalog) (caps ms : List Capability) (s : Buckets B C)
      → (map_capabilities r c caps s).0 ≡ ok ms
      → MappedEach c caps ms
  unfolding map_capabilities
  map_capabilities-MappedEach c [] [] s h = tt
  map_capabilities-MappedEach c [] (m ∷ ms) s h = absurd (ground (arith, h))
  map_capabilities-MappedEach c (cap ∷ caps) [] s h = absurd (ground (arith, h))
  map_capabilities-MappedEach c (cap ∷ caps) (m ∷ ms) s h =
      let (accepted, mapped) = map_capability-mapped c cap m s (ground (arith, h)) in
      (
        accepted,
        mapped,
        map_capabilities-MappedEach c caps ms (map_capability r c cap s).1 (ground (arith, h)),
      )

  prepare-MappedBy :
      (c : Option Catalog) (caps ms : List Capability) (s : Buckets B C)
      → (prepare r c caps s).0 ≡ ok ms
      → MappedBy c caps ms
  unfolding prepare
  prepare-MappedBy none caps ms s h = ground (arith, h)
  prepare-MappedBy (some c) caps ms s h = map_capabilities-MappedEach c caps ms s h

  -- A registration with no agent id, no agent type or no capability is refused, and no bucket is
  -- changed.
  pub register_invalid :
      (now : ℕ) (reg : AgentRegistration) (s : Buckets B C)
      → (reg.agent_id ≡ []) ⊎ ((reg.agent_type ≡ []) ⊎ (reg.capabilities ≡ []))
      → register r now reg s ≡ (err validation, s)
  unfolding register
  register_invalid now reg s h = ground arith

  module _ (laws : Laws r) where
    -- What `Register` stores can be read back: the registration as it was given, ACTIVE, with no
    -- missed heartbeats, seen now, at the revision that was returned. Without a catalog its
    -- capabilities are the given ones; with one they are, in order, what the catalog maps each given
    -- one to, and it accepts the names of both.
    pub get-register :
        (now : ℕ) (reg : AgentRegistration) (s : Buckets B C) (n : ℕ)
        → IsLawful r.catalog
        → Answers r.kv reg.agent_id s.agents
        → (register r now reg s).0 ≡ ok n
        → (caps : List Capability) × All (IsAccepted r.catalog) caps
          × MappedBy r.catalog reg.capabilities caps
          × (get r reg.agent_id (register r now reg s).1
              ≡ ok (
                record reg {
                  capabilities = caps;
                  status = active;
                  last_seen = now;
                  missed_heartbeats = 0;
                  revision = n;
                },
                n,
              ))
    unfolding register get decoded
    get-register now reg s n lawful answers h = go (prepare r r.catalog reg.capabilities s).0 refl
      where
        Goal : Type 0
        Goal =
            (caps : List Capability) × All (IsAccepted r.catalog) caps
            × MappedBy r.catalog reg.capabilities caps
            × (get r reg.agent_id (register r now reg s).1
                ≡ ok (
                  record reg {
                    capabilities = caps;
                    status = active;
                    last_seen = now;
                    missed_heartbeats = 0;
                    revision = n;
                  },
                  n,
                ))

        go : (p : Result (List Capability)) → (prepare r r.catalog reg.capabilities s).0 ≡ p → Goal
        go (err e) eq = absurd (ground (arith, h, eq))
        go (ok caps) eq =
            let new : AgentRegistration = record reg {
              capabilities = caps;
              status = active;
              last_seen = now;
              missed_heartbeats = 0;
            } in
            let (v, enc) = laws.1.marshal_total new in
            let mid = (prepare r r.catalog reg.capabilities s).1 in
            let at_mid =
              subst (λ b. Answers r.kv reg.agent_id b)
                (sym (prepare_agents r.catalog reg.capabilities s)) answers in
            let (m, done, stored) =
              create_or_update_lem r.kv laws.0 reg.agent_id v mid.agents at_mid in
            (
              caps,
              prepare-IsAccepted r.catalog reg.capabilities s caps lawful eq,
              prepare-MappedBy r.catalog reg.capabilities caps s eq,
              ground (arith, h, eq, enc, done, stored, laws.1.unmarshal-marshal new v enc),
            )

    -- A registration with an id, a type and capabilities that the catalog maps is accepted, new or
    -- not, and the registration under another id stays as it is.
    pub register_succeeds :
        (now : ℕ) (reg : AgentRegistration) (s : Buckets B C) (caps : List Capability)
        (j : GoString)
        → is_empty reg.agent_id ≡ false
        → is_empty reg.agent_type ≡ false
        → is_empty reg.capabilities ≡ false
        → (prepare r r.catalog reg.capabilities s).0 ≡ ok caps
        → Answers r.kv reg.agent_id s.agents
        → reg.agent_id ≢ j
        → ((n : ℕ) × ((register r now reg s).0 ≡ ok n))
          × (get r j (register r now reg s).1 ≡ get r j s)
    unfolding register get decoded
    register_succeeds now reg s caps j i t c eq answers ne =
        let new : AgentRegistration = record reg {
          capabilities = caps;
          status = active;
          last_seen = now;
          missed_heartbeats = 0;
        } in
        let (v, enc) = laws.1.marshal_total new in
        let mid = (prepare r r.catalog reg.capabilities s).1 in
        let same = prepare_agents r.catalog reg.capabilities s in
        let at_mid = subst (λ b. Answers r.kv reg.agent_id b) (sym same) answers in
        let (m, done, stored) = create_or_update_lem r.kv laws.0 reg.agent_id v mid.agents at_mid in
        (
          (m, ground (arith, i, t, c, eq, enc, done)),
          ground (
            arith,
            i,
            t,
            c,
            eq,
            enc,
            same,
            create_or_update_frame r.kv laws.0 reg.agent_id j v mid.agents at_mid ne,
          ),
        )

    -- After `Deregister`, which never fails on a server that answers, the agent is not found, and
    -- all other registrations are as before. A second call changes nothing of that.
    pub get-deregister :
        (id j : GoString) (s : Buckets B C)
        → ((deregister r id s).0 ≡ ok tt)
          × (get r j (deregister r id s).1 ≡ (if str_eq id j then err not_found else get r j s))
    unfolding deregister get decoded
    get-deregister id j s = elim (Bool-cases (str_eq id j)) [
      | inl same ↦
          let (done, gone) = laws.0.purge_gone id s.agents in
          (ground (arith, done), ground (arith, done, gone, same, str_eq_sound id j same))
      | inr other ↦
          let (done, gone) = laws.0.purge_gone id s.agents in
          let ne = eq_iff id j in
          (
            ground (arith, done),
            ground (arith, done, other, laws.0.purge_frame id j s.agents (λ p. cc (ne.1 p, other))),
          )
    ]
