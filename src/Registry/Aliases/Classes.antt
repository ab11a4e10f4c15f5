-- ===== src/Registry/Aliases/Classes.antt =====
-- `Resolve` of core/registry/alias.go against the relation that it follows: where it finds at most as
-- many names as it has levels, it finds them all.
use baran_os.Base.{
  ℕ, zero, suc, ◌+◌, ◌≤◌, ◌≡◌, ◌⊎◌, refl, sym, ◌∙◌, subst, ap, inl, inr, List, [], ◌∷◌, ◌++◌, In,
  length, length-append, GoString, Option, none, some, Bool-cases, true, str_eq_sound, str_eq_refl,
  ok, Exec, arith,
}
use baran_os.Registry.Aliases.{AliasMapping, next_of, seen, visit, visit_all, resolve_from}
use baran_os.Registry.Aliases.Resolving.{Linked, itself, one_more, seen-append, Joins-next_of}

some_injective : (a b : GoString) → some a ≡ some b → a ≡ b
some_injective a b h = cc

none-some : (b : GoString) → ¬ (none ≡ some b)
none-some b h = cc

module _ (all : List AliasMapping) where
  -- every alias that has the name leads to a name that is found
  abbrev pub Expanded : GoString → List GoString → Type 0
  Expanded x found =
      (alias : AliasMapping) (b : GoString)
      → In alias all
      → next_of x alias ≡ some b
      → seen b found ≡ true

  -- names only come to the list
  pub record Grown (before after : List GoString) : Type 0 where
    pub longer : length before ≤ length after
    pub kept : (x : GoString) → seen x before ≡ true → seen x after ≡ true

  module _ (k : ℕ) where
    -- a name that came to the list is expanded, unless there are more names than levels
    abbrev pub Covers : List GoString → List GoString → Type 0
    Covers before after =
        (suc k ≤ length after)
        ⊎ ((x : GoString) → seen x after ≡ true → (seen x before ≡ true) ⊎ Expanded x after)

    abbrev pub Done : GoString → List GoString → Type 0
    Done a after = (suc k ≤ length after) ⊎ Expanded a after

  Grown-refl : (l : List GoString) → Grown l l
  Grown-refl l = record { longer = omega arith; kept = λ x h. h }

  Grown-trans : (a b c : List GoString) → Grown a b → Grown b c → Grown a c
  Grown-trans a b c g h = record {
    longer = omega (arith, g.longer, h.longer);
    kept = λ x i. h.kept x (g.kept x i);
  }

  Grown-append : (l : List GoString) (y : GoString) → Grown l (l ++ y ∷ [])
  Grown-append l y = record {
    longer = omega (arith, length-append l (y ∷ []));
    kept = λ x h. ground (arith, h, seen-append x l y);
  }

  Covers-trans :
      (k : ℕ) (a b c : List GoString) → Grown b c → Covers k a b → Covers k b c → Covers k a c
  Covers-trans k a b c g (inl many) h = inl (omega (arith, many, g.longer))
  Covers-trans k a b c g (inr e) (inl many) = inl many
  Covers-trans k a b c g (inr e) (inr f) = inr (λ x i. elim (f x i) [
    | inr done ↦ inr done
    | inl earlier ↦ (elim (e x earlier) [
      | inl first ↦ inl first
      | inr done ↦ inr (λ alias y j n. g.kept y (done alias y j n))
    ])
  ])

  -- the new name's own level covers what was found before it as well
  Covers-new :
      (k : ℕ) (found after : List GoString) (b : GoString)
      → Covers k (found ++ b ∷ []) after
      → Done k b after
      → Covers k found after
  Covers-new k found after b (inl many) d = inl many
  Covers-new k found after b (inr e) (inl many) = inl many
  Covers-new k found after b (inr e) (inr expanded) = inr (λ x i. elim (e x i) [
    | inr done ↦ inr done
    | inl there ↦ (elim (Bool-cases (seen x found)) [
      | inl first ↦ inl first
      | inr new ↦
          let same : b ≡ x = str_eq_sound b x (ground (arith, there, new, seen-append x found b)) in
          inr (subst (λ y. Expanded y after) same expanded)
    ])
  ])

  -- what a call one level deeper does, with `d` levels left
  pub record Spreads (k d : ℕ) (a : GoString) (m : Exec (List GoString) Unit)
      (found : List GoString) : Type 0 where
    pub fine : (m found).0 ≡ ok tt
    pub grown : Grown found (m found).1
    pub covers : Covers k found (m found).1
    pub done : Done k a (m found).1

  record Visits (k : ℕ) (a : GoString) (some_of : List AliasMapping) (found after : List GoString)
      : Type 0 where
    grown : Grown found after
    covers : Covers k found after
    reached :
        (x : AliasMapping) (b : GoString)
        → In x some_of
        → next_of a x ≡ some b
        → seen b after ≡ true

  module _ (k d : ℕ) (go : GoString → Exec (List GoString) Unit)
      (spreads : (b : GoString) (l : List GoString)
        → seen b l ≡ true
        → suc k ≤ d + length l
        → Spreads k d b (go b) l) where
    visit-Visits :
        (a : GoString) (x : AliasMapping) (next : Option GoString) (found : List GoString)
        → next_of a x ≡ next
        → suc k ≤ suc d + length found
        → ((visit go next found).0 ≡ ok tt) × Visits k a (x ∷ []) found (visit go next found).1
    unfolding visit
    visit-Visits a x none found is room = (
      refl,
      record {
        grown = Grown-refl found;
        covers = inr (λ y h. inl h);
        reached = λ y b i n. elim i [
          | inl same ↦ absurd (none-some b (sym is ∙ (ap (next_of a) same ∙ n)))
          | inr i ↦ absurd i
        ];
      },
    )
    visit-Visits a x (some b) found is room = elim (Bool-cases (seen b found)) [
      | inl old ↦ rw old (
        refl,
        record {
          grown = Grown-refl found;
          covers = inr (λ y h. inl h);
          reached = λ y c i n. elim i [
            | inl same ↦
                subst (λ z. seen z found ≡ true)
                  (some_injective b c (sym is ∙ (ap (next_of a) same ∙ n))) old
            | inr i ↦ absurd i
          ];
        },
      )
      | inr new ↦
          let there : seen b (found ++ b ∷ []) ≡ true =
            ground (arith, seen-append b found b, str_eq_refl b) in
          let s =
            spreads b (found ++ b ∷ []) there (omega (arith, room, length-append found (b ∷ []))) in
          rw new (
            s.fine,
            record {
              grown = Grown-trans _ _ _ (Grown-append found b) s.grown;
              covers = Covers-new k found _ b s.covers s.done;
              reached = λ y c i n. elim i [
                | inl same ↦
                    subst (λ z. seen z (go b (found ++ b ∷ [])).1 ≡ true)
                      (some_injective b c (sym is ∙ (ap (next_of a) same ∙ n)))
                      (s.grown.kept b there)
                | inr i ↦ absurd i
              ];
            },
          )
    ]

    visit_all-Visits :
        (a : GoString) (more : List AliasMapping) (found : List GoString)
        → suc k ≤ suc d + length found
        → ((visit_all go a more found).0 ≡ ok tt)
          × Visits k a more found (visit_all go a more found).1
    unfolding visit_all
    visit_all-Visits a [] found room = (
      refl,
      record {
        grown = Grown-refl found;
        covers = inr (λ x h. inl h);
        reached = λ x b i n. absurd i;
      },
    )
    visit_all-Visits a (x ∷ more) found room =
        let (fine, one) = visit-Visits a x (next_of a x) found refl room in
        let mid = (visit go (next_of a x) found).1 in
        let (fine', rest) = visit_all-Visits a more mid (omega (arith, room, one.grown.longer)) in
        let after = (visit_all go a more mid).1 in
        rw fine (
          fine',
          record {
            grown = Grown-trans found mid after one.grown rest.grown;
            covers = Covers-trans k found mid after rest.grown one.covers rest.covers;
            reached = λ y b i n. elim i [
              | inl same ↦ rest.grown.kept b (one.reached y b (inl same) n)
              | inr j ↦ rest.reached y b j n
            ];
          },
        )

  pub resolve_from-Spreads :
      (k d : ℕ) (a : GoString) (l : List GoString)
      → seen a l ≡ true
      → suc k ≤ d + length l
      → Spreads k d a (resolve_from (ok all) d a) l
  unfolding resolve_from
  resolve_from-Spreads k zero a l there room = record {
    fine = refl;
    grown = Grown-refl l;
    covers = inl (omega (arith, room));
    done = inl (omega (arith, room));
  }
  resolve_from-Spreads k (suc d) a l there room =
      let (fine, v) =
        visit_all-Visits k d (resolve_from (ok all) d) (resolve_from-Spreads k d) a all l room in
      record { fine = fine; grown = v.grown; covers = v.covers; done = inr v.reached }

  -- a list that is closed under the aliases holds every name that is linked to one of it
  pub closed_reaches :
      (name x : GoString) (n : ℕ) (found : List GoString)
      → seen name found ≡ true
      → ((y : GoString) → seen y found ≡ true → Expanded y found)
      → Linked all name n x
      → seen x found ≡ true
  closed_reaches name _ _ found start closed itself = start
  closed_reaches name x _ found start closed (one_more {a = a} alias way i is) =
      closed a (closed_reaches name a _ found start closed way) alias x i
        (Joins-next_of alias a x is)
