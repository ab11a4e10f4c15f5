-- ===== src/Kv/Defs.antt =====
-- A JetStream key-value bucket, as core/registry, core/workflow and core/federation use it. The
-- server is not part of the repository: the operations are a parameter of every component that
-- stores something, with what its documentation promises as the laws of `IsKeyValue`.
use baran_os.Base.{
  ℕ, ◌<◌, ◌≡◌, ◌≢◌, List, GoString, Result, ok, err, Exec, key_not_found, key_exists,
  wrong_revision, no_keys_found, In,
}

-- jetstream.KeyValueEntry: the stored value and the sequence number of the write.
pub record Entry (V : Type 0) : Type 0 where
  pub value : V
  pub revision : ℕ

-- jetstream.KeyValue over buckets `B` that hold values `V`.
pub record KeyValue (B V : Type 0) : Type 0 where
  pub get : GoString → B → Result (Entry V)
  pub create : GoString → V → Exec B ℕ
  pub update : GoString → V → ℕ → Exec B ℕ
  pub put : GoString → V → Exec B ℕ
  pub purge : GoString → Exec B Unit
  pub keys : B → Result (List GoString)

-- The documented behaviour of a bucket whose server answers. `update` is a compare-and-set on the
-- revision; a successful write is what `get` returns next, at a greater revision; other keys stay.
pub record IsKeyValue {B V : Type 0} (kv : KeyValue B V) : Type 0 where
  pub create_fresh :
      (k : GoString) (v : V) (b : B)
      → kv.get k b ≡ err key_not_found
      → (n : ℕ) × (kv.create k v b).0 ≡ ok n
  pub create_taken :
      (k : GoString) (v : V) (b : B) (e : Entry V)
      → kv.get k b ≡ ok e
      → kv.create k v b ≡ (err key_exists, b)
  pub create_stored :
      (k : GoString) (v : V) (b : B) (n : ℕ)
      → (kv.create k v b).0 ≡ ok n
      → kv.get k (kv.create k v b).1 ≡ ok (record { value = v; revision = n })
  pub update_fits :
      (k : GoString) (v : V) (b : B) (e : Entry V)
      → kv.get k b ≡ ok e
      → (n : ℕ) × (e.revision < n) × (kv.update k v e.revision b).0 ≡ ok n
  pub update_stale :
      (k : GoString) (v : V) (r : ℕ) (b : B) (e : Entry V)
      → kv.get k b ≡ ok e
      → e.revision ≢ r
      → kv.update k v r b ≡ (err wrong_revision, b)
  pub update_stored :
      (k : GoString) (v : V) (r : ℕ) (b : B) (n : ℕ)
      → (kv.update k v r b).0 ≡ ok n
      → kv.get k (kv.update k v r b).1 ≡ ok (record { value = v; revision = n })
  pub put_stored :
      (k : GoString) (v : V) (b : B)
      → (n : ℕ) × ((kv.put k v b).0 ≡ ok n)
        × (kv.get k (kv.put k v b).1 ≡ ok (record { value = v; revision = n }))
  pub purge_gone :
      (k : GoString) (b : B)
      → ((kv.purge k b).0 ≡ ok tt) × (kv.get k (kv.purge k b).1 ≡ err key_not_found)
  pub create_frame :
      (k j : GoString) (v : V) (b : B) → k ≢ j → kv.get j (kv.create k v b).1 ≡ kv.get j b
  pub update_frame :
      (k j : GoString) (v : V) (r : ℕ) (b : B) → k ≢ j → kv.get j (kv.update k v r b).1 ≡ kv.get j b
  pub put_frame : (k j : GoString) (v : V) (b : B) → k ≢ j → kv.get j (kv.put k v b).1 ≡ kv.get j b
  pub purge_frame : (k j : GoString) (b : B) → k ≢ j → kv.get j (kv.purge k b).1 ≡ kv.get j b
  pub keys_hold :
      (b : B) (ks : List GoString) (k : GoString)
      → kv.keys b ≡ ok ks
      → In k ks
      → (e : Entry V) × (kv.get k b ≡ ok e)
  pub keys_list :
      (b : B) (ks : List GoString) (k : GoString) (e : Entry V)
      → kv.keys b ≡ ok ks
      → kv.get k b ≡ ok e
      → In k ks
  pub keys_none :
      (b : B) (k : GoString) → kv.keys b ≡ err no_keys_found → kv.get k b ≡ err key_not_found

-- json.Marshal and json.Unmarshal of one type of documents, over stored values `V`.
pub record Codec (A V : Type 0) : Type 0 where
  pub marshal : A → Result V
  pub unmarshal : V → Result A

-- The types that are stored hold strings, numbers, booleans, lists and string maps, which
-- encoding/json writes without an error and reads back.
pub record IsCodec {A V : Type 0} (c : Codec A V) : Type 0 where
  pub marshal_total : (a : A) → (v : V) × (c.marshal a ≡ ok v)
  pub unmarshal-marshal : (a : A) (v : V) → c.marshal a ≡ ok v → c.unmarshal v ≡ ok a
