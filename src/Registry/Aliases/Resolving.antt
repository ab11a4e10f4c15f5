-- ===== src/Registry/Aliases/Resolving.antt =====
-- What `Resolve` of core/registry/alias.go finds.
use baran_os.Base.{
  ℕ, zero, suc, ◌+◌, ◌≤◌, ◌≡◌, refl, sym, ap, ◌∙◌, ◌⊎◌, str_eq_sound, inl, inr, List, [], ◌∷◌, ◌++◌,
  In, GoString, Option, none, some, Bool-cases, true, false, if◌then◌else◌, str_eq, eq_iff, ok,
  Exec, arith,
}
use baran_os.Registry.Aliases.{AliasMapping, next_of, seen, visit, visit_all, resolve_from}

-- an alias has the two names, in either direction
abbrev pub Joins : AliasMapping → GoString → GoString → Type 0
Joins alias a b =
    ((alias.source ≡ a) × (alias.target ≡ b)) ⊎ ((alias.target ≡ a) × (alias.source ≡ b))

next_of-Joins : (alias : AliasMapping) (a b : GoString) → next_of a alias ≡ some b → Joins alias a b
unfolding next_of
next_of-Joins alias a b h = elim (Bool-cases (str_eq alias.source a)) [
  | inl here ↦ inl (str_eq_sound alias.source a here, ground (arith, h, here))
  | inr other ↦ (elim (Bool-cases (str_eq alias.target a)) [
    | inl there ↦ inr (str_eq_sound alias.target a there, ground (arith, h, other, there))
    | inr neither ↦ absurd (ground (arith, h, other, neither))
  ])
]

pub Joins-next_of :
    (alias : AliasMapping) (a b : GoString) → Joins alias a b → next_of a alias ≡ some b
unfolding next_of
Joins-next_of alias a b (inl (s, t)) = ground (arith, s, t, (eq_iff alias.source a).1 s)
Joins-next_of alias a b (inr (t, s)) = elim (Bool-cases (str_eq alias.source a)) [
  | inl here ↦ let same = str_eq_sound alias.source a here in rw here (ap some (t ∙ sym same ∙ s))
  | inr other ↦ rw (other, (eq_iff alias.target a).1 t) (ap some s)
]

-- A name is linked to another by at most that many aliases of the list, each in either direction.
pub data Linked (all : List AliasMapping) (name : GoString) : ℕ → GoString → Type 0 where
  itself : Linked all name zero name
  one_more :
      {n : ℕ} {a b : GoString} (alias : AliasMapping)
      → Linked all name n a
      → In alias all
      → Joins alias a b
      → Linked all name (suc n) b

-- every name of the list is linked to the first by at most five aliases
abbrev pub AllLinked : List AliasMapping → GoString → ℕ → List GoString → Type 0
AllLinked all name k [] = Unit
AllLinked all name k (x ∷ xs) = ((n : ℕ) × (n ≤ k) × Linked all name n x) × AllLinked all name k xs

append-AllLinked :
    (all : List AliasMapping) (name : GoString) (k : ℕ) (xs : List GoString) (y : GoString) (n : ℕ)
    → n ≤ k
    → AllLinked all name k xs
    → Linked all name n y
    → AllLinked all name k (xs ++ y ∷ [])
append-AllLinked all name k [] y n le h l = ((n, le, l), tt)
append-AllLinked all name k (x ∷ xs) y n le (hx, h) l =
    (hx, append-AllLinked all name k xs y n le h l)

abbrev pub Distinct : List GoString → Type 0
Distinct [] = Unit
Distinct (x ∷ xs) = (seen x xs ≡ false) × Distinct xs

pub seen-append :
    (x : GoString) (xs : List GoString) (y : GoString)
    → seen x (xs ++ y ∷ []) ≡ (if seen x xs then true else str_eq y x)
unfolding seen
seen-append x [] y = ground arith
seen-append x (z ∷ xs) y = ground (arith, seen-append x xs y)

append-Distinct :
    (xs : List GoString) (y : GoString) → Distinct xs → seen y xs ≡ false → Distinct (xs ++ y ∷ [])
unfolding seen
append-Distinct [] y d out = (refl, tt)
append-Distinct (x ∷ xs) y d out = (
  ground (arith, d, out, seen-append x xs y, eq_iff x y, eq_iff y x),
  append-Distinct xs y d.1 (ground (arith, out)),
)

module _ (all : List AliasMapping) (name : GoString) (k : ℕ) where
  -- what holds of the names that are found, all the way
  pub record Found (found : List GoString) : Type 0 where
    pub linked : AllLinked all name k found
    pub distinct : Distinct found
    pub first : (rest : List GoString) × (found ≡ name ∷ rest)

  append-Found :
      (found : List GoString) (y : GoString) (n : ℕ)
      → n ≤ k
      → Linked all name n y
      → seen y found ≡ false
      → Found found
      → Found (found ++ y ∷ [])
  append-Found found y n le l out h = record {
    linked = append-AllLinked all name k found y n le h.linked l;
    distinct = append-Distinct found y h.distinct out;
    first = (h.first.0 ++ y ∷ [], ap (λ xs. xs ++ y ∷ []) h.first.1);
  }

  abbrev pub Keeps : Exec (List GoString) Unit → Type 0
  Keeps m = (found : List GoString) → Found found → ((m found).0 ≡ ok tt) × Found (m found).1

  visit-Keeps :
      (go : GoString → Exec (List GoString) Unit) (n : ℕ) (next : Option GoString)
      → n ≤ k
      → ((b : GoString) → next ≡ some b → Linked all name n b)
      → ((b : GoString) → Linked all name n b → Keeps (go b))
      → Keeps (visit go next)
  unfolding visit
  visit-Keeps go n none le link deeper found h = (refl, h)
  visit-Keeps go n (some b) le link deeper found h = elim (Bool-cases (seen b found)) [
    | inl old ↦ rw old (refl, h)
    | inr new ↦
        rw new
          (deeper b (link b refl) (found ++ b ∷ []) (append-Found found b n le (link b refl) new h))
  ]

  visit_all-Keeps :
      (go : GoString → Exec (List GoString) Unit) (n : ℕ) (a : GoString) (more : List AliasMapping)
      → suc n ≤ k
      → Linked all name n a
      → ((x : AliasMapping) → In x more → In x all)
      → ((b : GoString) → Linked all name (suc n) b → Keeps (go b))
      → Keeps (visit_all go a more)
  unfolding visit_all
  visit_all-Keeps go n a [] le l inside deeper found h = (refl, h)
  visit_all-Keeps go n a (x ∷ more) le l inside deeper found h =
      let (done, mid) =
        visit-Keeps go (suc n) (next_of a x) le
          (λ b is. one_more x l (inside x (inl refl)) (next_of-Joins x a b is)) deeper found h in
      let rest =
        visit_all-Keeps go n a more le l (λ y i. inside y (inr i)) deeper
          (visit go (next_of a x) found).1 mid in
      rw done rest

  pub resolve_from-Keeps :
      (d n : ℕ) (a : GoString) → n + d ≤ k → Linked all name n a → Keeps (resolve_from (ok all) d a)
  unfolding resolve_from
  resolve_from-Keeps zero n a le l found h = (refl, h)
  resolve_from-Keeps (suc d) n a le l found h =
      visit_all-Keeps (resolve_from (ok all) d) n a all (omega arith) l (λ x i. i)
        (λ b m. resolve_from-Keeps d (suc n) b (omega arith) m) found h
