-- ===== src/Registry/Aliases/Merging.antt =====
-- `ApplySnapshot` of core/registry/alias.go: the aliases of another node are merged, and the one with
-- the later timestamp wins.
use baran_os.Base.{
  ℕ, ◌≡◌, inl, inr, refl, sym, ◌∙◌, subst, ap, List, [], ◌∷◌, All, GoString, some, Bool-cases,
  str_eq, eq_iff, str_eq_sound, true, leb, if◌then◌else◌, ok, arith,
}
use baran_os.Kv.{IsKeyValue, IsCodec}
use baran_os.Kv.Upsert.{Answers}
use baran_os.Registry.Aliases.{
  AliasMapping, AliasRegistrySnapshot, AliasRegistry, is_newer, merge_found, unreadable, merge,
  merge_all, apply_snapshot,
}
use baran_os.Registry.Aliases.Merge.{
  IsAtLeast, IsWritten, held, readable, later_of, latest, older_gives, merge-cases,
}

module _ {B V : Type 0} (r : AliasRegistry B V) where
  module _ (laws : IsKeyValue r.kv × IsCodec r.codec)
      (answers : (k : GoString) (b : B) → Answers r.kv k b) where
    merge-IsAtLeast :
        (alias : AliasMapping) (b : B) → IsAtLeast r (merge r alias b).1 alias.id alias.created_at
    merge-IsAtLeast alias b = elim ((merge-cases r laws answers alias b).1) [
      | inl (same, h) ↦ rw same h
      | inr w ↦ record {
        entry = record { value = w.value; revision = w.revision };
        held = w.stored;
        alias = alias;
        decodes = laws.1.unmarshal-marshal alias w.value w.encodes;
        later = omega arith;
      }
    ]

    merge_keeps :
        (alias : AliasMapping) (b : B) (id : GoString) (time : ℕ)
        → IsAtLeast r b id time
        → IsAtLeast r (merge r alias b).1 id time
    merge_keeps alias b id time h = elim ((merge-cases r laws answers alias b).1) [
      | inl (same, _) ↦ rw same h
      | inr w ↦ (elim (Bool-cases (str_eq alias.id id)) [
        | inr other ↦ record {
          entry = h.entry;
          held = w.others id (λ p. cc ((eq_iff alias.id id).1 p, other)) ∙ h.held;
          alias = h.alias;
          decodes = h.decodes;
          later = h.later;
        }
        | inl here ↦
            let same = str_eq_sound alias.id id here in
            record {
              entry = record { value = w.value; revision = w.revision };
              held =
                  subst
                    (λ k.
                      r.kv.get k (merge r alias b).1
                      ≡ ok (record { value = w.value; revision = w.revision }))
                    same w.stored;
              alias = alias;
              decodes = laws.1.unmarshal-marshal alias w.value w.encodes;
              later = omega (
                arith,
                h.later,
                w.older h.entry h.alias (ap (λ k. r.kv.get k b) same ∙ h.held) h.decodes,
              );
            }
      ])
    ]

    -- a merged alias is not merged again
    merge_skips :
        (alias : AliasMapping) (b : B)
        → IsAtLeast r b alias.id alias.created_at
        → merge r alias b ≡ (ok tt, b)
    unfolding merge merge_found unreadable is_newer
    merge_skips alias b h =
        let (v, enc) = laws.1.marshal_total alias in ground (arith, h.held, enc, h.decodes, h.later)

    All-keep :
        (x : AliasMapping) (b : B) (rest : List AliasMapping)
        → All (λ a. IsAtLeast r b a.id a.created_at) rest
        → All (λ a. IsAtLeast r (merge r x b).1 a.id a.created_at) rest
    All-keep x b [] h = tt
    All-keep x b (a ∷ rest) h = (merge_keeps x b a.id a.created_at h.0, All-keep x b rest h.1)

    merge_all_keeps :
        (them : List AliasMapping) (b : B) (id : GoString) (time : ℕ)
        → IsAtLeast r b id time
        → IsAtLeast r (merge_all r them b).1 id time
    unfolding merge_all
    merge_all_keeps [] b id time h = h
    merge_all_keeps (a ∷ them) b id time h =
        rw ((merge-cases r laws answers a b).0)
          (merge_all_keeps them (merge r a b).1 id time (merge_keeps a b id time h))

    pub merge_all-IsAtLeast :
        (them rest : List AliasMapping) (b : B)
        → All (λ a. IsAtLeast r b a.id a.created_at) rest
        → ((merge_all r them b).0 ≡ ok tt)
          × All (λ a. IsAtLeast r (merge_all r them b).1 a.id a.created_at) rest
          × All (λ a. IsAtLeast r (merge_all r them b).1 a.id a.created_at) them
    unfolding merge_all
    merge_all-IsAtLeast [] rest b h = (refl, h, tt)
    merge_all-IsAtLeast (x ∷ xs) rest b h =
        let mid = (merge r x b).1 in
        let (done, (newest, kept), all) =
          merge_all-IsAtLeast xs (x ∷ rest) mid (merge-IsAtLeast x b, All-keep x b rest h) in
        let run : merge_all r (x ∷ xs) b ≡ merge_all r xs mid =
          rw ((merge-cases r laws answers x b).0) refl in
        subst
          (λ o.
            (o.0 ≡ ok tt)
            × All (λ a. IsAtLeast r o.1 a.id a.created_at) rest
            × All (λ a. IsAtLeast r o.1 a.id a.created_at) (x ∷ xs))
          (sym run) (done, kept, (newest, all))

    merge_all_skips :
        (them : List AliasMapping) (b : B)
        → All (λ a. IsAtLeast r b a.id a.created_at) them
        → merge_all r them b ≡ (ok tt, b)
    unfolding merge_all
    merge_all_skips [] b h = refl
    merge_all_skips (x ∷ xs) b h = rw (merge_skips x b h.0) (merge_all_skips xs b h.1)

    held_write :
        (alias : AliasMapping) (b after : B) (id : GoString)
        → IsWritten r alias b after
        → held r id after
          ≡ (if str_eq alias.id id then later_of (held r id b) alias else held r id b)
    unfolding held readable later_of
    held_write alias b after id w = elim (Bool-cases (str_eq alias.id id)) [
      | inr other ↦
          let same = w.others id (λ p. cc ((eq_iff alias.id id).1 p, other)) in
          rw (other, held, same) refl
      | inl here ↦
          let same : alias.id ≡ id = str_eq_sound alias.id id here in
          let now : held r alias.id after ≡ some alias =
            rw (held, w.stored, laws.1.unmarshal-marshal alias w.value w.encodes) refl in
          let was : later_of (held r alias.id b) alias ≡ some alias =
            older_gives r alias b w.older (answers alias.id b) in
          rw here (subst (λ k. held r k after ≡ later_of (held r k b) alias) same (now ∙ sym was))
    ]

    held_kept :
        (alias : AliasMapping) (b : B) (id : GoString)
        → IsAtLeast r b alias.id alias.created_at
        → held r id b ≡ (if str_eq alias.id id then later_of (held r id b) alias else held r id b)
    unfolding held readable later_of
    held_kept alias b id h = elim (Bool-cases (str_eq alias.id id)) [
      | inr other ↦ rw other refl
      | inl here ↦
          let same : alias.id ≡ id = str_eq_sound alias.id id here in
          let was : held r alias.id b ≡ some h.alias = rw (held, h.held, h.decodes) refl in
          let le : leb alias.created_at h.alias.created_at ≡ true = ground (arith, h.later) in
          let kept : held r alias.id b ≡ later_of (held r alias.id b) alias = rw was (rw le refl) in
          rw here (subst (λ k. held r k b ≡ later_of (held r k b) alias) same kept)
    ]

    merge_held :
        (alias : AliasMapping) (b : B) (id : GoString)
        → held r id (merge r alias b).1
          ≡ (if str_eq alias.id id then later_of (held r id b) alias else held r id b)
    merge_held alias b id = elim ((merge-cases r laws answers alias b).1) [
      | inl (same, h) ↦ rw same (held_kept alias b id h)
      | inr w ↦ held_write alias b (merge r alias b).1 id w
    ]

    pub merge_all_held :
        (them : List AliasMapping) (b : B) (id : GoString)
        → held r id (merge_all r them b).1 ≡ latest id (held r id b) them
    unfolding merge_all latest
    merge_all_held [] b id = refl
    merge_all_held (x ∷ xs) b id =
        let mid = (merge r x b).1 in
        let run : merge_all r (x ∷ xs) b ≡ merge_all r xs mid =
          rw ((merge-cases r laws answers x b).0) refl in
        ap (λ o. held r id o.1) run
        ∙ merge_all_held xs mid id
        ∙ ap (λ h. latest id h xs) (merge_held x b id)

    -- On a server that answers every read, `ApplySnapshot` succeeds; then the alias that can be read
    -- under an id is the latest of the one that could be read there before and those of the snapshot
    -- with that id, the one that was there first where the times are equal; and applying the snapshot
    -- again changes nothing.
    pub apply_snapshot_last_wins :
        (s : AliasRegistrySnapshot) (b : B)
        → let after = (apply_snapshot r (some s) b).1 in
          ((apply_snapshot r (some s) b).0 ≡ ok tt)
          × ((id : GoString) → held r id after ≡ latest id (held r id b) s.aliases)
          × (apply_snapshot r (some s) after ≡ (ok tt, after))
    unfolding apply_snapshot
    apply_snapshot_last_wins s b =
        let (done, _, all) = merge_all-IsAtLeast s.aliases [] b tt in
        (
          done,
          merge_all_held s.aliases b,
          merge_all_skips s.aliases (merge_all r s.aliases b).1 all,
        )
