-- ===== src/Registry/Aliases.antt =====
-- core/registry/alias.go: the names that different nodes give to one capability, in a bucket of
-- their own. `time.Now()` and the fresh uuid are arguments; a read never changes the bucket.
pub mod Resolving
pub mod Merge
pub mod Merging
pub mod Classes
pub mod Exact
use baran_os.Base.{
  ℕ, zero, suc, List, [], ◌∷◌, ◌++◌, is_empty, any, select, GoString, Option, none, some, Bool,
  true, false, ◌||◌, if◌then◌else◌, leb, str_eq, Result, ok, err, Exec, pure, raise, reads, lift,
  attempt, ◌>>=◌, ◌>>◌, key_not_found, no_keys_found, validation,
}
use baran_os.Kv.{Entry, KeyValue, Codec}

pub record AliasMapping : Type 0 where
  pub id : GoString
  pub source : GoString
  pub target : GoString
  pub node_id : GoString
  pub created_at : ℕ

pub record AliasRegistrySnapshot : Type 0 where
  pub node_id : GoString
  pub aliases : List AliasMapping

-- KVAliasRegistry
pub record AliasRegistry (B V : Type 0) : Type 0 where
  pub kv : KeyValue B V
  pub codec : Codec AliasMapping V
  pub node_id : GoString

abbrev pub max_alias_depth : ℕ
max_alias_depth = 5

-- the other name of an alias that has the given one
unfoldable pub next_of : GoString → AliasMapping → Option GoString
next_of name alias =
    if str_eq alias.source name
    then some alias.target
    else if str_eq alias.target name
    then some alias.source
    else none

unfoldable pub seen : GoString → List GoString → Bool
seen name [] = false
seen name (x ∷ xs) = if str_eq x name then true else seen name xs

-- one round of the loop of resolveFrom; `go` is resolveFrom one level deeper. The map `seen` has
-- the names of `result` as its keys: both get a name at the same place.
visit : (GoString → Exec (List GoString) Unit) → Option GoString → Exec (List GoString) Unit
unfolding seen
visit go none result = (ok tt, result)
visit go (some next) result =
    if seen next result then (ok tt, result) else go next (result ++ next ∷ [])

visit_all :
    (GoString → Exec (List GoString) Unit)
    → GoString
    → List AliasMapping
    → Exec (List GoString) Unit
unfolding visit next_of
visit_all go name [] = pure tt
visit_all go name (alias ∷ rest) = do visit go (next_of name alias); visit_all go name rest

-- resolveFrom, with the levels that are left; the aliases are what listAll returns
unfoldable pub resolve_from : Result (List AliasMapping) → ℕ → GoString → Exec (List GoString) Unit
unfolding visit_all
resolve_from listed zero name = pure tt
resolve_from listed (suc depth) name = do
  all ← lift listed
  visit_all (resolve_from listed depth) name all

module _ {B V : Type 0} (r : AliasRegistry B V) where
  list_from : List GoString → B → Result (List AliasMapping)
  list_from [] b = ok []
  list_from (key ∷ ks) b =
      let rest = list_from ks b in
      elim (r.kv.get key b) [
        | err key_not_found ↦ rest
        | err e ↦ err e
        | ok entry ↦ (elim (r.codec.unmarshal entry.value) [
          | err e ↦ rest
          | ok m ↦ (elim rest [ ok ms ↦ ok (m ∷ ms) | err e ↦ err e ])
        ])
      ]

  list_keys : Result (List GoString) → B → Result (List AliasMapping)
  unfolding list_from
  list_keys (ok ks) b = list_from ks b
  list_keys (err no_keys_found) b = ok []
  list_keys (err e) b = err e

  -- listAll
  unfoldable pub list_all : B → Result (List AliasMapping)
  unfolding list_keys
  list_all b = list_keys (r.kv.keys b) b

  -- Resolve: the names that were found come back beside an error
  unfoldable pub resolve : GoString → B → Result Unit × List GoString
  resolve name b = resolve_from (list_all b) max_alias_depth name (name ∷ [])

  -- the end of AddAlias: the cycle check on the names that the target resolves to, then the write
  store_acyclic : AliasMapping → Result Unit × List GoString → Exec B AliasMapping
  store_acyclic mapping (err e, names) b = (err e, b)
  store_acyclic mapping (ok _, names) b =
      if seen mapping.source names
      then (err validation, b)
      else (do value ← lift (r.codec.marshal mapping); r.kv.create mapping.id value; pure mapping) b

  -- AddAlias
  unfoldable pub add_alias : ℕ → GoString → GoString → GoString → Exec B AliasMapping
  unfolding resolve seen store_acyclic
  add_alias now id source target b =
      if is_empty source || is_empty target || str_eq source target
      then (err validation, b)
      else store_acyclic
          (record {
            id = id;
            source = source;
            target = target;
            node_id = r.node_id;
            created_at = now;
          })
          (resolve target b) b

  -- RemoveAlias
  unfoldable pub remove_alias : GoString → Exec B Unit
  remove_alias id = do
    purged ← attempt (r.kv.purge id)
    elim purged [ ok _ ↦ pure tt | err key_not_found ↦ pure tt | err e ↦ raise e ]

  -- ListAliases
  unfoldable pub list_aliases : GoString → B → Result (List AliasMapping)
  unfolding list_all
  list_aliases node_filter b = elim (list_all b) [
    | err e ↦ err e
    | ok all ↦
        ok (if is_empty node_filter then all else select (λ a. str_eq a.node_id node_filter) all)
  ]

  -- Snapshot
  unfoldable pub snapshot : B → Result AliasRegistrySnapshot
  unfolding list_all
  snapshot b = elim (list_all b) [
    | err e ↦ err e
    | ok all ↦ ok (record { node_id = r.node_id; aliases = all })
  ]

  is_newer : Result AliasMapping → AliasMapping → Bool
  is_newer (ok cur) alias = leb alias.created_at cur.created_at
  is_newer (err e) alias = false

  -- the loop's write of an alias that is marshalled, where the key was read before; errors of the
  -- write are dropped
  merge_found : AliasMapping → V → Result (Entry V) → Exec B Unit
  unfolding is_newer
  merge_found alias value (err key_not_found) b = (ok tt, (r.kv.create alias.id value b).1)
  merge_found alias value (err e) b = (err e, b)
  merge_found alias value (ok entry) b =
      if is_newer (r.codec.unmarshal entry.value) alias
      then (ok tt, b)
      else (ok tt, (r.kv.update alias.id value entry.revision b).1)

  unreadable : Result (Entry V) → Result Unit
  unreadable (ok entry) = ok tt
  unreadable (err key_not_found) = ok tt
  unreadable (err e) = err e

  -- one round of the loop of ApplySnapshot
  unfoldable pub merge : AliasMapping → Exec B Unit
  unfolding merge_found unreadable
  merge alias b = elim (unreadable (r.kv.get alias.id b)) [
    | err e ↦ (err e, b)
    | ok _ ↦ (elim (r.codec.marshal alias) [
      | err e ↦ (ok tt, b)
      | ok value ↦ merge_found alias value (r.kv.get alias.id b) b
    ])
  ]

  unfoldable pub merge_all : List AliasMapping → Exec B Unit
  unfolding merge
  merge_all [] = pure tt
  merge_all (alias ∷ rest) = do merge alias; merge_all rest

  -- ApplySnapshot
  unfoldable pub apply_snapshot : Option AliasRegistrySnapshot → Exec B Unit
  unfolding merge_all
  apply_snapshot none = pure tt
  apply_snapshot (some s) = merge_all s.aliases
