-- ===== src/Registry/Store/Writes.antt =====
-- The compare-and-set that ends every update of a registration in core/registry/kv.go.
use baran_os.Base.{
  ℕ, ◌<◌, ◌≡◌, ◌≢◌, refl, sym, subst, ◌∙◌, GoString, Result, ok, err, cas_conflict, arith,
}
use baran_os.Kv.{Entry, IsKeyValue, IsCodec}
use baran_os.Registry.Types.{AgentRegistration}
use baran_os.Registry.Store.{Buckets, KvRegistry, decoded, get, write_at}

module _ {B C V W : Type 0} (r : KvRegistry B C V W) where
  -- a successful read shows the entry
  pub get-entry :
      (id : GoString) (s : Buckets B C) {reg : AgentRegistration} {rev : ℕ}
      → get r id s ≡ ok (reg, rev)
      → (e : Entry V) × (r.kv.get id s.agents ≡ ok e) × (e.revision ≡ rev)
  unfolding get decoded
  get-entry id s {reg} {rev} h = go (r.kv.get id s.agents) refl
    where
      go :
          (x : Result (Entry V))
          → r.kv.get id s.agents ≡ x
          → (e : Entry V) × (r.kv.get id s.agents ≡ ok e) × (e.revision ≡ rev)
      go (ok e) eq = (e, eq, ground (arith, h, eq))
      go (err e) eq = absurd (ground (arith, h, eq))

  -- the revision that a read returns stands in the registration as well
  pub get-revision :
      (id : GoString) (s : Buckets B C) {reg : AgentRegistration} {rev : ℕ}
      → get r id s ≡ ok (reg, rev)
      → reg.revision ≡ rev
  unfolding get decoded
  get-revision id s {reg} {rev} h = ground (arith, h)

  abbrev pub Laws : Type 0
  Laws = IsKeyValue r.kv × IsCodec r.codec

  module _ (laws : Laws) where
    -- at the current revision the registration is written
    pub write_at-fits :
        (id : GoString) (old reg : AgentRegistration) (rev : ℕ) (s : Buckets B C)
        → get r id s ≡ ok (old, rev)
        → (n : ℕ) × (rev < n)
          × ((write_at r id reg rev s).0 ≡ ok n)
          × (get r id (write_at r id reg rev s).1 ≡ ok (record reg { revision = n }, n))
    unfolding write_at get
    write_at-fits id old reg rev s h =
        let (e, found, same) = get-entry id s h in
        let (v, enc) = laws.1.marshal_total reg in
        let dec = laws.1.unmarshal-marshal reg v enc in
        let (n, lt, done) = laws.0.update_fits id v s.agents e found in
        let stored = laws.0.update_stored id v e.revision s.agents n done in
        (
          n,
          subst (λ x. x < n) same lt,
          ground (arith, enc, same, done),
          ground (arith, enc, same, done, stored, dec),
        )

    -- at any other revision nothing is written
    pub write_at-stale :
        (id : GoString) (old reg : AgentRegistration) (rev other : ℕ) (s : Buckets B C)
        → get r id s ≡ ok (old, rev)
        → rev ≢ other
        → write_at r id reg other s ≡ (err cas_conflict, s)
    unfolding write_at
    write_at-stale id old reg rev other s h ne =
        let (e, found, same) = get-entry id s h in
        let (v, enc) = laws.1.marshal_total reg in
        ground
          (arith, enc, laws.0.update_stale id v other s.agents e found (λ p. ne (sym same ∙ p)))

    pub write_at_frame :
        (id j : GoString) (reg : AgentRegistration) (rev : ℕ) (s : Buckets B C)
        → id ≢ j
        → get r j (write_at r id reg rev s).1 ≡ get r j s
    unfolding write_at get
    write_at_frame id j reg rev s ne =
        let (v, enc) = laws.1.marshal_total reg in
        ground (arith, enc, laws.0.update_frame id j v rev s.agents ne)
