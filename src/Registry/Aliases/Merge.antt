-- ===== src/Registry/Aliases/Merge.antt =====
-- What the merge of one alias does: `ApplySnapshot` of core/registry/alias.go.
use baran_os.Base.{
  ℕ, ◌≤◌, ◌<◌, ◌≡◌, ◌≢◌, ◌⊎◌, inl, inr, refl, ◌∙◌, ap, List, [], ◌∷◌, GoString, some, Bool-cases,
  str_eq, true, false, leb, Option, none, if◌then◌else◌, Result, ok, err, arith,
}
use baran_os.Kv.{Entry, IsKeyValue, IsCodec}
use baran_os.Kv.Upsert.{Answers}
use baran_os.Registry.Aliases.{
  AliasMapping, AliasRegistry, is_newer, merge_found, unreadable, merge,
}

-- of an alias that was there, if any, and another one: the one with the later time
unfoldable pub later_of : Option AliasMapping → AliasMapping → Option AliasMapping
later_of none a = some a
later_of (some m) a = if leb a.created_at m.created_at then some m else some a

-- the latest of an alias that was there, if any, and those of a list with the id
unfoldable pub latest : GoString → Option AliasMapping → List AliasMapping → Option AliasMapping
unfolding later_of
latest id old [] = old
latest id old (a ∷ more) = latest id (if str_eq a.id id then later_of old a else old) more

module _ {B V : Type 0} (r : AliasRegistry B V) where
  unfoldable pub readable : Result AliasMapping → Option AliasMapping
  readable (ok m) = some m
  readable (err e) = none

  -- the alias that can be read under an id
  unfoldable pub held : GoString → B → Option AliasMapping
  unfolding readable
  held id b = elim (r.kv.get id b) [
    | ok entry ↦ readable (r.codec.unmarshal entry.value)
    | err e ↦ none
  ]

  -- the alias that is stored under an id was made at the time or later
  pub record IsAtLeast (b : B) (id : GoString) (time : ℕ) : Type 0 where
    pub entry : Entry V
    pub held : r.kv.get id b ≡ ok entry
    pub alias : AliasMapping
    pub decodes : r.codec.unmarshal entry.value ≡ ok alias
    pub later : time ≤ alias.created_at

  -- the write of a merged alias: no newer one was there, and the other ids keep what they had
  pub record IsWritten (alias : AliasMapping) (b after : B) : Type 0 where
    pub value : V
    pub revision : ℕ
    pub encodes : r.codec.marshal alias ≡ ok value
    pub stored : r.kv.get alias.id after ≡ ok (record { value = value; revision = revision })
    pub others : (j : GoString) → alias.id ≢ j → r.kv.get j after ≡ r.kv.get j b
    pub older :
        (e : Entry V) (m : AliasMapping)
        → r.kv.get alias.id b ≡ ok e
        → r.codec.unmarshal e.value ≡ ok m
        → m.created_at < alias.created_at

  pub older_gives :
      (alias : AliasMapping) (b : B)
      → ((e : Entry V) (m : AliasMapping)
          → r.kv.get alias.id b ≡ ok e
          → r.codec.unmarshal e.value ≡ ok m
          → m.created_at < alias.created_at)
      → Answers r.kv alias.id b
      → later_of (held alias.id b) alias ≡ some alias
  unfolding held readable later_of
  older_gives alias b older (inl missing) = rw (held, missing) refl
  older_gives alias b older (inr (e, there)) = go (r.codec.unmarshal e.value) refl
    where
      go :
          (d : Result AliasMapping)
          → r.codec.unmarshal e.value ≡ d
          → later_of (held alias.id b) alias ≡ some alias
      go (err x) eq = rw (held, there, eq) refl
      go (ok m) eq =
          let lt : leb alias.created_at m.created_at ≡ false = ground (arith, older e m there eq) in
          rw (held, there, eq) (rw lt refl)

  newer_cases :
      (alias : AliasMapping) (d : Result AliasMapping)
      → ((m : AliasMapping) × (d ≡ ok m)
          × (alias.created_at ≤ m.created_at)
          × (is_newer r d alias ≡ true))
        ⊎ ((is_newer r d alias ≡ false)
            × ((m : AliasMapping) → d ≡ ok m → m.created_at < alias.created_at))
  unfolding is_newer
  newer_cases alias (err e) = inr (refl, λ m h. cc)
  newer_cases alias (ok cur) = elim (Bool-cases (leb alias.created_at cur.created_at)) [
    | inl le ↦ inl (cur, refl, ground (arith, le), le)
    | inr lt ↦
        inr (lt, λ m h. let same : cur ≡ m = cc in ground (arith, lt, ap (λ x. x.created_at) same))
  ]

  module _ (laws : IsKeyValue r.kv × IsCodec r.codec)
      (answers : (k : GoString) (b : B) → Answers r.kv k b) where
    pub merge-cases :
        (alias : AliasMapping) (b : B)
        → ((merge r alias b).0 ≡ ok tt)
          × (((merge r alias b).1 ≡ b) × IsAtLeast b alias.id alias.created_at
              ⊎ IsWritten alias b (merge r alias b).1)
    unfolding merge merge_found unreadable
    merge-cases alias b = elim (answers alias.id b) [
      | inl fresh ↦
          let (v, enc) = laws.1.marshal_total alias in
          let (n, done) = laws.0.create_fresh alias.id v b fresh in
          (
            ground (arith, fresh, enc, done),
            inr (record {
              value = v;
              revision = n;
              encodes = enc;
              stored = ground (arith, fresh, enc, laws.0.create_stored alias.id v b n done);
              others = λ j ne. ground (arith, fresh, enc, laws.0.create_frame alias.id j v b ne);
              older = λ e m h. cc;
            }),
          )
      | inr (e, there) ↦
          let (v, enc) = laws.1.marshal_total alias in
          (elim (newer_cases alias (r.codec.unmarshal e.value)) [
            | inl (m, is, le, newer) ↦ (
              ground (arith, there, enc, newer),
              inl (
                ground (arith, there, enc, newer),
                record { entry = e; held = there; alias = m; decodes = is; later = le },
              ),
            )
            | inr (stale, older) ↦
                let (n, _, done) = laws.0.update_fits alias.id v b e there in
                (
                  ground (arith, there, enc, stale),
                  inr (record {
                    value = v;
                    revision = n;
                    encodes = enc;
                    stored = ground (
                      arith,
                      there,
                      enc,
                      stale,
                      laws.0.update_stored alias.id v e.revision b n done,
                    );
                    others = λ j ne. ground (
                      arith,
                      there,
                      enc,
                      stale,
                      laws.0.update_frame alias.id j v e.revision b ne,
                    );
                    older = λ d m h g.
                        let same : e ≡ d = cc in
                        older m (ap (λ x. r.codec.unmarshal x.value) same ∙ g);
                  }),
                )
          ])
    ]
