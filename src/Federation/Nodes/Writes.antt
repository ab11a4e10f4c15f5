-- ===== src/Federation/Nodes/Writes.antt =====
-- What the operations of core/federation/node_registry.go leave in the bucket.
use baran_os.Base.{
  ℕ, ◌<◌, ◌≡◌, ◌≢◌, refl, subst, GoString, is_empty, false, str_eq, eq_iff, str_eq_sound,
  Bool-cases, inl, inr, if◌then◌else◌, Result, ok, err, not_found, arith,
}
use baran_os.Kv.{Entry, IsKeyValue, IsCodec}
use baran_os.Kv.Upsert.{Answers, create_or_update_lem, create_or_update_frame}
use baran_os.Federation.Nodes.{
  NodeInfo, NodeRegistry, node_missed, node_beat, joined, register, deregister, decoded, get,
  write_at, record_heartbeat, increment_missed_heartbeats,
}

module _ {B V : Type 0} (r : NodeRegistry B V) where
  pub get-entry :
      (id : GoString) (b : B) {info : NodeInfo} {rev : ℕ}
      → get r id b ≡ ok (info, rev)
      → (e : Entry V) × (r.kv.get id b ≡ ok e) × (e.revision ≡ rev)
  unfolding get decoded
  get-entry id b {info} {rev} h = go (r.kv.get id b) refl
    where
      go :
          (x : Result (Entry V))
          → r.kv.get id b ≡ x
          → (e : Entry V) × (r.kv.get id b ≡ ok e) × (e.revision ≡ rev)
      go (ok e) eq = (e, eq, ground (arith, h, eq))
      go (err e) eq = absurd (ground (arith, h, eq))

  abbrev pub Laws : Type 0
  Laws = IsKeyValue r.kv × IsCodec r.codec

  module _ (laws : Laws) where
    pub write_at-fits :
        (id : GoString) (old info : NodeInfo) (rev : ℕ) (b : B)
        → get r id b ≡ ok (old, rev)
        → (n : ℕ) × (rev < n)
          × ((write_at r id info rev b).0 ≡ ok n)
          × (get r id (write_at r id info rev b).1 ≡ ok (record info { revision = n }, n))
    unfolding write_at get
    write_at-fits id old info rev b h =
        let (e, found, same) = get-entry id b h in
        let (v, enc) = laws.1.marshal_total info in
        let dec = laws.1.unmarshal-marshal info v enc in
        let (n, lt, done) = laws.0.update_fits id v b e found in
        let stored = laws.0.update_stored id v e.revision b n done in
        (
          n,
          subst (λ x. x < n) same lt,
          ground (arith, enc, same, done),
          ground (arith, enc, same, done, stored, dec),
        )

    pub register-stores :
        (now : ℕ) (info : NodeInfo) (b : B)
        → is_empty info.node_id ≡ false
        → is_empty info.address ≡ false
        → Answers r.kv info.node_id b
        → (n : ℕ) × ((register r now info b).0 ≡ ok n)
          × (get r info.node_id (register r now info b).1
              ≡ ok (record (joined now info) { revision = n }, n))
    unfolding register get decoded
    register-stores now info b named placed answers =
        let (v, enc) = laws.1.marshal_total (joined now info) in
        let dec = laws.1.unmarshal-marshal (joined now info) v enc in
        let (n, done, stored) = create_or_update_lem r.kv laws.0 info.node_id v b answers in
        (
          n,
          ground (arith, named, placed, enc, done),
          ground (arith, named, placed, enc, done, stored, dec),
        )

    -- What `Register` stores for a node with an id and an address is read back: ACTIVE, seen now,
    -- with no missed heartbeats, and joined now unless it came with a time; other nodes stay.
    pub get-register_node :
        (now : ℕ) (info : NodeInfo) (b : B) (j : GoString)
        → is_empty info.node_id ≡ false
        → is_empty info.address ≡ false
        → Answers r.kv info.node_id b
        → info.node_id ≢ j
        → ((n : ℕ) × ((register r now info b).0 ≡ ok n)
            × (get r info.node_id (register r now info b).1
                ≡ ok (record (joined now info) { revision = n }, n)))
          × (get r j (register r now info b).1 ≡ get r j b)
    unfolding register get decoded
    get-register_node now info b j named placed answers ne =
        let (v, enc) = laws.1.marshal_total (joined now info) in
        let frame = create_or_update_frame r.kv laws.0 info.node_id j v b answers ne in
        (register-stores now info b named placed answers, ground (arith, named, placed, enc, frame))

    pub get-deregister_node :
        (id j : GoString) (b : B)
        → ((deregister r id b).0 ≡ ok tt)
          × (get r j (deregister r id b).1 ≡ (if str_eq id j then err not_found else get r j b))
    unfolding deregister get decoded
    get-deregister_node id j b = elim (Bool-cases (str_eq id j)) [
      | inl same ↦
          let (done, gone) = laws.0.purge_gone id b in
          (ground (arith, done), ground (arith, done, gone, same, str_eq_sound id j same))
      | inr other ↦
          let (done, gone) = laws.0.purge_gone id b in
          let ne = eq_iff id j in
          (
            ground (arith, done),
            ground (arith, done, other, laws.0.purge_frame id j b (λ p. cc (ne.1 p, other))),
          )
    ]

    module _ (id : GoString) (b : B) (info : NodeInfo) (rev : ℕ)
        (found : get r id b ≡ ok (info, rev)) where
      -- Whatever revision the caller gives, `RecordHeartbeat` and `IncrementMissedHeartbeats` of a
      -- known node succeed and store the node after a heartbeat or one more miss, at a greater
      -- revision; the caller's stale view is not noticed.
      pub any_revision_accepted :
          (now given : ℕ)
          → ((n : ℕ) × (rev < n)
              × ((record_heartbeat r now id given b).0 ≡ ok n)
              × (get r id (record_heartbeat r now id given b).1
                  ≡ ok (record (node_beat now info) { revision = n }, n)))
            × ((n : ℕ) × (rev < n)
                × ((increment_missed_heartbeats r id given b).0
                    ≡ ok ((node_missed r.unhealthy_threshold r.dead_threshold info).status, n))
                × (get r id (increment_missed_heartbeats r id given b).1
                    ≡ ok (
                      record (node_missed r.unhealthy_threshold r.dead_threshold info) {
                        revision = n;
                      },
                      n,
                    )))
      unfolding record_heartbeat increment_missed_heartbeats
      any_revision_accepted now given =
          let (n, lt, done, stored) = write_at-fits id info (node_beat now info) rev b found in
          let (k, lt', done', stored') =
            write_at-fits id info (node_missed r.unhealthy_threshold r.dead_threshold info) rev b
              found in
          (
            (n, lt, ground (arith, found, done), ground (arith, found, done, stored)),
            (k, lt', ground (arith, found, done'), ground (arith, found, done', stored')),
          )
