-- ===== src/Registry/Aliases/Exact.antt =====
-- `Resolve` and `AddAlias` of core/registry/alias.go: which names are found, and which alias is
-- refused as a cycle.
use baran_os.Base.{
  ℕ, ◌≤◌, ◌≡◌, ◌↔◌, refl, subst, inl, inr, List, [], ◌∷◌, GoString, length, is_empty, Bool-cases,
  true, false, ◌||◌, str_eq, str_eq_sound, str_eq_refl, ok, err, validation, key_not_found, arith,
}
use baran_os.Kv.{Entry, IsKeyValue, IsCodec}
use baran_os.Registry.Aliases.{
  AliasMapping, AliasRegistry, seen, resolve_from, list_all, resolve, add_alias, store_acyclic,
  max_alias_depth,
}
use baran_os.Registry.Aliases.Resolving.{
  Linked, itself, AllLinked, Distinct, Found, resolve_from-Keeps,
}
use baran_os.Registry.Aliases.Classes.{Expanded, resolve_from-Spreads, closed_reaches}

seen-Linked :
    (all : List AliasMapping) (name x : GoString) (k : ℕ) (found : List GoString)
    → AllLinked all name k found
    → seen x found ≡ true
    → (n : ℕ) × (n ≤ k) × Linked all name n x
unfolding seen
seen-Linked all name x k [] h i = cc
seen-Linked all name x k (y ∷ ys) h i = elim (Bool-cases (str_eq y x)) [
  | inl e ↦ subst (λ z. (n : ℕ) × (n ≤ k) × Linked all name n z) (str_eq_sound y x e) h.0
  | inr ne ↦ seen-Linked all name x k ys h.1 (ground (arith, i, ne))
]

module _ (all : List AliasMapping) (name : GoString) where
  all_found : List GoString
  all_found = (resolve_from (ok all) max_alias_depth name (name ∷ [])).1

  start : seen name (name ∷ []) ≡ true
  unfolding seen
  start = ground (arith, str_eq_refl name)

  all-Found :
      ((resolve_from (ok all) max_alias_depth name (name ∷ [])).0 ≡ ok tt)
      × Found all name max_alias_depth all_found
  unfolding all_found
  all-Found =
      resolve_from-Keeps all name max_alias_depth max_alias_depth 0 name (omega arith) itself
        (name ∷ [])
        (record {
          linked = ((0, omega arith, itself), tt);
          distinct = (unfold seen in refl, tt);
          first = ([], refl);
        })

  found_all :
      (x : GoString) (n : ℕ)
      → length all_found ≤ max_alias_depth
      → Linked all name n x
      → seen x all_found ≡ true
  unfolding all_found seen
  found_all x n few way =
      let s =
        resolve_from-Spreads all max_alias_depth max_alias_depth name (name ∷ []) start
          (omega arith) in
      closed_reaches all name x n all_found (s.grown.kept name start)
        (λ y i. elim s.covers [
          | inl many ↦ absurd (omega (arith, many, few))
          | inr covered ↦ (elim (covered y i) [
            | inr expanded ↦ expanded
            | inl only ↦ (elim s.done [
              | inl many ↦ absurd (omega (arith, many, few))
              | inr expanded ↦
                  let same : name ≡ y = str_eq_sound name y (ground (arith, only)) in
                  subst (λ z. Expanded all z all_found) same expanded
            ])
          ])
        ])
        way

module _ {B V : Type 0} (r : AliasRegistry B V) (name : GoString) (b : B) (all : List AliasMapping)
    (listed : list_all r b ≡ ok all) where
  -- Where the aliases can be listed, `Resolve` succeeds and returns the name first, no name twice,
  -- and only names that are linked to it by at most five aliases.
  pub resolve_sound :
      let found = (resolve r name b).1 in
      ((resolve r name b).0 ≡ ok tt)
      × ((rest : List GoString) × (found ≡ name ∷ rest))
      × Distinct found
      × AllLinked all name max_alias_depth found
  unfolding resolve all_found
  resolve_sound =
      let (done, held) = all-Found all name in
      rw listed (done, held.first, held.distinct, held.linked)

  -- Where `Resolve` returns at most five names, they are exactly the names that are linked to the
  -- given one by any number of aliases.
  pub resolve_complete :
      (x : GoString)
      → length (resolve r name b).1 ≤ max_alias_depth
      → (seen x (resolve r name b).1 ≡ true) ↔ ((n : ℕ) × Linked all name n x)
  unfolding resolve all_found
  resolve_complete x few = (
    λ i. let (n, _, way) = seen-Linked all name x max_alias_depth _ resolve_sound.3 i in (n, way),
    λ way. rw listed (
        found_all all name x way.0
          (subst (λ l. length (resolve_from l max_alias_depth name (name ∷ [])).1 ≤ max_alias_depth)
            listed few)
          way.1),
  )

module _ {B V : Type 0} (r : AliasRegistry B V) (laws : IsKeyValue r.kv × IsCodec r.codec) (b : B)
    (all : List AliasMapping) (listed : list_all r b ≡ ok all) (now : ℕ)
    (id source target : GoString) (named : (is_empty source || is_empty target) ≡ false)
    (differ : str_eq source target ≡ false)
    (few : length (resolve r target b).1 ≤ max_alias_depth) where
  -- An alias whose source is linked to its target already is refused, and nothing is written: for
  -- names that are not empty and differ, where at most five names are linked to the target.
  pub cycle_refused :
      (n : ℕ)
      → Linked all target n source
      → add_alias r now id source target b ≡ (err validation, b)
  unfolding add_alias store_acyclic
  cycle_refused n way =
      let (done, _, _, _) = resolve_sound r target b all listed in
      let found = (resolve_complete r target b all listed source few).1 (n, way) in
      ground (arith, named, differ, done, found)

  -- An alias whose source is not linked to its target is stored under its fresh id, with the node,
  -- the time and the names that were given, and returned: for names that are not empty and differ,
  -- where at most five names are linked to the target.
  pub acyclic_stored :
      r.kv.get id b ≡ err key_not_found
      → ¬ ((n : ℕ) × Linked all target n source)
      → let mapping : AliasMapping = record {
        id = id;
        source = source;
        target = target;
        node_id = r.node_id;
        created_at = now;
      } in
        ((add_alias r now id source target b).0 ≡ ok mapping)
        × ((e : Entry V) × (r.kv.get id (add_alias r now id source target b).1 ≡ ok e)
            × (r.codec.unmarshal e.value ≡ ok mapping))
  unfolding add_alias store_acyclic
  acyclic_stored fresh apart =
      let mapping : AliasMapping = record {
        id = id;
        source = source;
        target = target;
        node_id = r.node_id;
        created_at = now;
      } in
      let (done, _, _, _) = resolve_sound r target b all listed in
      let new : seen source (resolve r target b).1 ≡ false =
        elim (Bool-cases (seen source (resolve r target b).1)) [
          | inl old ↦ absurd (apart ((resolve_complete r target b all listed source few).0 old))
          | inr new ↦ new
        ] in
      let (v, enc) = laws.1.marshal_total mapping in
      let (n, written) = laws.0.create_fresh id v b fresh in
      let stored = laws.0.create_stored id v b n written in
      (
        ground (arith, named, differ, done, new, enc, written),
        (
          record { value = v; revision = n },
          ground (arith, named, differ, done, new, enc, written, stored),
          laws.1.unmarshal-marshal mapping v enc,
        ),
      )
