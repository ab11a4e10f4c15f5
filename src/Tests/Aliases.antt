-- ===== src/Tests/Aliases.antt =====
-- The registry of aliases over a bucket in memory.
use baran_os.Base.{
  ℕ, GoString, ◌≤◌, ◌≡◌, ◌↔◌, inl, refl, [], ◌∷◌, codes, length, str_eq, some, true, ok, err,
  validation, arith,
}
use baran_os.Kv.Memory.{Bucket, memory, memory-IsKeyValue, memory-Answers, plain, plain-IsCodec}
use baran_os.Registry.Aliases.{
  AliasMapping, AliasRegistrySnapshot, AliasRegistry, next_of, seen, resolve_from, list_all,
  resolve, add_alias, apply_snapshot, max_alias_depth,
}
use baran_os.Registry.Aliases.Resolving.{Linked, itself, one_more}
use baran_os.Registry.Aliases.Exact.{resolve_complete, cycle_refused}
use baran_os.Registry.Aliases.Merge.{held, latest}
use baran_os.Registry.Aliases.Merging.{apply_snapshot_last_wins}

abbrev Names : Type 0
Names = Bucket AliasMapping

abbrev aliases : AliasRegistry Names AliasMapping
aliases = record { kv = memory AliasMapping; codec = plain AliasMapping; node_id = codes "n1" }

abbrev alias_at : ℕ → AliasMapping
alias_at time = record {
  id = codes "1";
  source = codes "scan";
  target = codes "audit";
  node_id = codes "n1";
  created_at = time;
}

abbrev one_alias : Names
one_alias = record {
  sequence = 1;
  entries = (codes "1", record { value = alias_at 5; revision = 1 }) ∷ [];
}

listed : list_all aliases one_alias ≡ ok (alias_at 5 ∷ [])
unfolding list_all memory
listed = refl

both : (resolve aliases (codes "scan") one_alias).1 ≡ codes "scan" ∷ codes "audit" ∷ []
unfolding resolve resolve_from list_all memory next_of seen str_eq
both = refl

few : length (resolve aliases (codes "scan") one_alias).1 ≤ max_alias_depth
few = ground (arith, both)

linked : Linked (alias_at 5 ∷ []) (codes "scan") 1 (codes "audit")
unfolding next_of str_eq
linked = one_more (alias_at 5) itself (inl refl) (inl (refl, refl))

resolve_complete_example :
    (seen (codes "audit") (resolve aliases (codes "scan") one_alias).1 ≡ true)
    ↔ ((n : ℕ) × Linked (alias_at 5 ∷ []) (codes "scan") n (codes "audit"))
resolve_complete_example =
    resolve_complete aliases (codes "scan") one_alias (alias_at 5 ∷ []) listed (codes "audit") few

cycle_refused_example :
    add_alias aliases 9 (codes "2") (codes "audit") (codes "scan") one_alias
    ≡ (err validation, one_alias)
unfolding str_eq
cycle_refused_example =
    cycle_refused aliases (memory-IsKeyValue, plain-IsCodec) one_alias (alias_at 5 ∷ []) listed 9
      (codes "2") (codes "audit") (codes "scan") refl refl few 1 linked

abbrev newer : AliasRegistrySnapshot
newer = record { node_id = codes "n2"; aliases = alias_at 7 ∷ [] }

apply_snapshot_last_wins_example :
    let after = (apply_snapshot aliases (some newer) one_alias).1 in
    ((apply_snapshot aliases (some newer) one_alias).0 ≡ ok tt)
    × ((id : GoString)
        → held aliases id after ≡ latest id (held aliases id one_alias) (alias_at 7 ∷ []))
    × (apply_snapshot aliases (some newer) after ≡ (ok tt, after))
apply_snapshot_last_wins_example =
    apply_snapshot_last_wins aliases (memory-IsKeyValue, plain-IsCodec) memory-Answers newer
      one_alias
