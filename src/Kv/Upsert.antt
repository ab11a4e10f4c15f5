-- ===== src/Kv/Upsert.antt =====
-- "Try create first; if the key exists, read current and update with CAS": the same lines stand in
-- core/registry/kv.go (Register, RegisterRemote) and core/federation/node_registry.go (Register).
use baran_os.Base.{
  ℕ, ◌≡◌, ◌≢◌, ◌⊎◌, inl, inr, GoString, ok, err, Exec, pure, reads, attempt, catch, ◌>>=◌,
  key_not_found, arith,
}
use baran_os.Kv.Defs.{Entry, KeyValue, IsKeyValue}

module _ {B V : Type 0} (kv : KeyValue B V) where
  unfoldable pub create_or_update : GoString → V → Exec B ℕ
  create_or_update k v = do
    created ← attempt (kv.create k v)
    catch created (λ n. pure n) (λ _. do entry ← reads (kv.get k); kv.update k v entry.revision)

  -- the server answers reads of this key: it holds a value or nothing
  abbrev pub Answers : GoString → B → Type 0
  Answers k b = (kv.get k b ≡ err key_not_found) ⊎ ((e : Entry V) × (kv.get k b ≡ ok e))

  module _ (laws : IsKeyValue kv) where
    -- Where the server answers, the write succeeds, and the value is what the key holds next.
    pub create_or_update_lem :
        (k : GoString) (v : V) (b : B)
        → Answers k b
        → (n : ℕ) × ((create_or_update k v b).0 ≡ ok n)
          × (kv.get k (create_or_update k v b).1 ≡ ok (record { value = v; revision = n }))
    unfolding create_or_update
    create_or_update_lem k v b (inl fresh) =
        let (n, h) = laws.create_fresh k v b fresh in
        (n, ground (arith, h), ground (arith, h, laws.create_stored k v b n h))
    create_or_update_lem k v b (inr (e, taken)) =
        let (n, _, h) = laws.update_fits k v b e taken in
        (
          n,
          ground (arith, laws.create_taken k v b e taken, taken, h),
          ground (
            arith,
            laws.create_taken k v b e taken,
            taken,
            h,
            laws.update_stored k v e.revision b n h,
          ),
        )

    pub create_or_update_frame :
        (k j : GoString) (v : V) (b : B)
        → Answers k b
        → k ≢ j
        → kv.get j (create_or_update k v b).1 ≡ kv.get j b
    unfolding create_or_update
    create_or_update_frame k j v b (inl fresh) ne =
        let (n, h) = laws.create_fresh k v b fresh in
        ground (arith, h, laws.create_frame k j v b ne)
    create_or_update_frame k j v b (inr (e, taken)) ne =
        ground
          (arith, laws.create_taken k v b e taken, taken, laws.update_frame k j v e.revision b ne)
