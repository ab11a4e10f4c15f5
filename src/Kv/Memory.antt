-- ===== src/Kv/Memory.antt =====
-- A bucket in memory, which meets the laws of Kv.antt: the theorems that assume them are applied
-- to it in the tests. It models no code of the repository.
use baran_os.Base.{
  ℕ, suc, ◌+◌, ◌≡◌, refl, ◌≢◌, sym, subst, List, [], ◌∷◌, GoString, Result, ok, err, Exec,
  key_not_found, key_exists, wrong_revision, no_keys_found, In, Dict, lookup, insert, delete,
  lookup-insert, lookup-delete, Option, none, some, ◌==◌, if◌then◌else◌, arith, str_eq, str_eq_refl,
  str_eq_sound, ne-str_eq, ap, Bool-cases, Option-cases, inl, inr,
}
use baran_os.Kv.Upsert.{Answers}
use baran_os.Kv.Defs.{Entry, KeyValue, IsKeyValue, Codec, IsCodec}

pub record Bucket (V : Type 0) : Type 0 where
  pub sequence : ℕ
  pub entries : Dict (Entry V)

abbrev pub empty : {V : Type 0} → Bucket V
empty = record { sequence = 0; entries = [] }

keys_of : List GoString → Result (List GoString)
keys_of [] = err no_keys_found
keys_of (k ∷ ks) = ok (k ∷ ks)

module _ {V : Type 0} where
  found : Option (Entry V) → Result (Entry V)
  found none = err key_not_found
  found (some e) = ok e

  get : GoString → Bucket V → Result (Entry V)
  unfolding found
  get k b = found (lookup k b.entries)

  -- a key that is not there has the revision 0
  revision_of : Option (Entry V) → ℕ
  revision_of none = 0
  revision_of (some e) = e.revision

  put : GoString → V → Exec (Bucket V) ℕ
  unfolding revision_of
  put k v b =
      let n = suc (b.sequence + revision_of (lookup k b.entries)) in
      (
        ok n,
        record { sequence = n; entries = insert k (record { value = v; revision = n }) b.entries },
      )

  create_on : Option (Entry V) → GoString → V → Exec (Bucket V) ℕ
  unfolding put
  create_on none k v b = put k v b
  create_on (some e) k v b = (err key_exists, b)

  create : GoString → V → Exec (Bucket V) ℕ
  unfolding create_on
  create k v b = create_on (lookup k b.entries) k v b

  update : GoString → V → ℕ → Exec (Bucket V) ℕ
  unfolding put revision_of
  update k v r b =
      if revision_of (lookup k b.entries) == r then put k v b else (err wrong_revision, b)

  purge : GoString → Exec (Bucket V) Unit
  purge k b = (ok tt, record { sequence = suc b.sequence; entries = delete k b.entries })

  names : Dict (Entry V) → List GoString
  names [] = []
  names ((k, e) ∷ m) = k ∷ names m

  keys : Bucket V → Result (List GoString)
  unfolding names keys_of
  keys b = keys_of (names b.entries)

  In-names :
      (m : Dict (Entry V)) (k : GoString) (e : Entry V) → lookup k m ≡ some e → In k (names m)
  unfolding names lookup
  In-names [] k e h = cc
  In-names ((j, w) ∷ m) k e h = elim (Bool-cases (str_eq j k)) [
    | inl same ↦ inl (str_eq_sound j k same)
    | inr other ↦ inr (In-names m k e (ground (arith, other)))
  ]

  names_found :
      (m : Dict (Entry V)) (k : GoString) → In k (names m) → (e : Entry V) × (lookup k m ≡ some e)
  unfolding names lookup
  names_found [] k i = absurd i
  names_found ((j, w) ∷ m) k (inl e) = (w, ground (arith, str_eq_refl j, e))
  names_found ((j, w) ∷ m) k (inr i) = elim (Bool-cases (str_eq j k)) [
    | inl same ↦ (w, rw same)
    | inr other ↦ let (e, h) = names_found m k i in (e, rw other h)
  ]

  names_list : (m : Dict (Entry V)) (ks : List GoString) → keys_of (names m) ≡ ok ks → names m ≡ ks
  unfolding names keys_of
  names_list [] ks h = cc
  names_list ((k, e) ∷ m) ks h = cc

  names-none :
      (m : Dict (Entry V)) (k : GoString)
      → keys_of (names m) ≡ err no_keys_found
      → lookup k m ≡ none
  unfolding names keys_of lookup
  names-none [] k h = refl
  names-none ((j, e) ∷ m) k h = cc

  stored_at :
      (k : GoString) (e : Entry V) (m : Dict (Entry V)) → found (lookup k (insert k e m)) ≡ ok e
  unfolding found
  stored_at k e m = ground (arith, lookup-insert k k e m, str_eq_refl k)

  stored_frame :
      (k j : GoString) (e : Entry V) (m : Dict (Entry V))
      → k ≢ j
      → lookup j (insert k e m) ≡ lookup j m
  stored_frame k j e m ne = ground (arith, lookup-insert k j e m, ne-str_eq k j ne)

unfoldable pub memory : (V : Type 0) → KeyValue (Bucket V) V
unfolding get create update put purge keys lookup insert delete str_eq
memory V = record {
  get = get;
  create = create;
  update = update;
  put = put;
  purge = purge;
  keys = keys;
}

module _ {V : Type 0} where
  pub memory-IsKeyValue : IsKeyValue (memory V)
  unfolding memory
  memory-IsKeyValue = record {
    create_fresh = λ k v b h. (suc (b.sequence + 0), ground arith);
    create_taken = λ k v b e h. ground arith;
    create_stored = λ k v b n h.
        ground
          (arith, lookup-insert k k (record { value = v; revision = n }) b.entries, str_eq_refl k);
    update_fits = λ k v b e h. (suc (b.sequence + e.revision), omega arith, ground arith);
    update_stale = λ k v r b e h ne. ground arith;
    update_stored =
        λ k v r b n h. ground (arith, stored_at k (record { value = v; revision = n }) b.entries);
    put_stored = λ k v b.
        (suc (b.sequence + revision_of (lookup k b.entries)), refl, stored_at k _ b.entries);
    purge_gone = λ k b. (refl, ground (arith, lookup-delete k k b.entries, str_eq_refl k));
    create_frame = λ k j v b ne. ground (
      arith,
      stored_frame k j (record { value = v; revision = suc (b.sequence + 0) }) b.entries ne,
    );
    update_frame = λ k j v r b ne. ground (
      arith,
      stored_frame k j
          (record { value = v; revision = suc (b.sequence + revision_of (lookup k b.entries)) })
          b.entries ne,
    );
    put_frame = λ k j v b ne. ap found (stored_frame k j _ b.entries ne);
    purge_frame = λ k j b ne. ground (arith, lookup-delete k j b.entries, ne-str_eq k j ne);
    keys_hold = λ b ks k h i.
        let (e, g) =
          names_found b.entries k (subst (λ x. In k x) (sym (names_list b.entries ks h)) i) in
        (e, ap found g);
    keys_list = λ b ks k e h g.
        subst (λ x. In k x) (names_list b.entries ks h) (In-names b.entries k e (ground arith));
    keys_none = λ b k h. ap found (names-none b.entries k h);
  }

  -- a bucket in memory answers every read
  pub memory-Answers : (k : GoString) (b : Bucket V) → Answers (memory V) k b
  unfolding memory
  memory-Answers k b = elim (Option-cases (lookup k b.entries)) [
    | inl gone ↦ inl (ap found gone)
    | inr (e, there) ↦ inr (e, ap found there)
  ]

-- Documents stored as they are: the simplest codec.
abbrev pub plain : (A : Type 0) → Codec A A
plain A = record { marshal = ok; unmarshal = ok }

pub plain-IsCodec : {A : Type 0} → IsCodec (plain A)
plain-IsCodec = record { marshal_total = λ a. (a, refl); unmarshal-marshal = λ a v h. cc }
