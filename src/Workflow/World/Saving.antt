-- ===== src/Workflow/World/Saving.antt =====
-- What KVWorkflowStateStore (core/workflow/state.go) promises: a write at the read's revision is
-- what the next read returns, a write at another revision changes nothing.
use baran_os.Base.{
  ℕ, ◌<◌, ◌≡◌, ◌≢◌, refl, sym, subst, ◌∙◌, GoString, Result, ok, err, cas_conflict, key_not_found,
  arith,
}
use baran_os.Kv.{Entry, IsKeyValue, IsCodec}
use baran_os.Workflow.Types.{WorkflowState}
use baran_os.Workflow.World.{World, Engine, load, create, save, decoded, cas_result}

module _ {B E V : Type 0} (g : Engine B E V) where
  -- the bucket behaves as documented, and states are written as JSON and read back
  abbrev pub EngineLaws : Type 0
  EngineLaws = IsKeyValue g.kv × IsCodec g.codec

  get-entry :
      (id : GoString) (w : World B E) (st : WorkflowState) (rev : ℕ)
      → load g id w ≡ ok (st, rev)
      → (e : Entry V) × (g.kv.get id w.bucket ≡ ok e) × (e.revision ≡ rev)
  unfolding load decoded
  get-entry id w st rev h = go (g.kv.get id w.bucket) refl
    where
      go :
          (x : Result (Entry V))
          → g.kv.get id w.bucket ≡ x
          → (e : Entry V) × (g.kv.get id w.bucket ≡ ok e) × (e.revision ≡ rev)
      go (ok e) eq = (e, eq, ground (arith, h, eq))
      go (err e) eq = absurd (ground (arith, h, eq))

  pub save-fits :
      EngineLaws
      → (id : GoString) (w : World B E) (st : WorkflowState) (rev : ℕ) (next : WorkflowState)
      → load g id w ≡ ok (st, rev)
      → (b : B) × (n : ℕ) × (rev < n)
        × (save g id next rev w ≡ (ok tt, record w { bucket = b }))
        × ((v : World B E) → v.bucket ≡ b → load g id v ≡ ok (next, n))
  unfolding load save decoded cas_result
  save-fits laws id w st rev next h =
      let (e, found, same) = get-entry id w st rev h in
      let (v, enc) = laws.1.marshal_total next in
      let dec = laws.1.unmarshal-marshal next v enc in
      let (n, lt, done) = laws.0.update_fits id v w.bucket e found in
      let stored = laws.0.update_stored id v e.revision w.bucket n done in
      (
        (g.kv.update id v rev w.bucket).1,
        n,
        subst (λ x. x < n) same lt,
        ground (arith, enc, same, done),
        (λ u at. ground (arith, enc, same, done, stored, dec, at)),
      )

  pub save-stale :
      EngineLaws
      → (id : GoString) (w : World B E) (st : WorkflowState) (rev other : ℕ) (next : WorkflowState)
      → load g id w ≡ ok (st, rev)
      → rev ≢ other
      → save g id next other w ≡ (err cas_conflict, w)
  unfolding save cas_result
  save-stale laws id w st rev other next h ne =
      let (e, found, same) = get-entry id w st rev h in
      let (v, enc) = laws.1.marshal_total next in
      ground (arith, enc, laws.0.update_stale id v other w.bucket e found (λ p. ne (sym same ∙ p)))

  pub create-fresh :
      EngineLaws
      → (id : GoString) (w : World B E) (st : WorkflowState)
      → g.kv.get id w.bucket ≡ err key_not_found
      → (b : B) × (n : ℕ) × (create g id st w ≡ (ok tt, record w { bucket = b }))
        × ((v : World B E) → v.bucket ≡ b → load g id v ≡ ok (st, n))
  unfolding load create decoded
  create-fresh laws id w st absent =
      let (v, enc) = laws.1.marshal_total st in
      let dec = laws.1.unmarshal-marshal st v enc in
      let (n, done) = laws.0.create_fresh id v w.bucket absent in
      let stored = laws.0.create_stored id v w.bucket n done in
      (
        (g.kv.create id v w.bucket).1,
        n,
        ground (arith, enc, done),
        λ u at. ground (arith, enc, done, stored, dec, at),
      )
