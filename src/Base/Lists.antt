-- ===== src/Base/Lists.antt =====
-- Lists measured by native numbers, Boolean searches, and predicates by recursion.
use Prim.Native.Nat.{ℕ, zero, suc, ◌+◌}
use mathlib.Core.Logic.{◌↔◌, ◌⊎◌, inl, inr}
use mathlib.Core.Path.{refl, ap, subst, ◌≡◌}
use mathlib.Core.Bool.{◌&&◌, Bool, true, false, ◌||◌}
use mathlib.Core.List.{List, [], ◌∷◌, ◌++◌}
use mathlib.Core.Option.{Option, none, some}
use native.Mathlib.Omega.{arith}
use baran_os.Base.Tests.{Bool-cases, if◌then◌else◌}

module _ {ℓ} {A : Type ℓ} where
  abbrev pub length : List A → ℕ
  length [] = 0
  length (x ∷ xs) = suc (length xs)

  abbrev pub get_elem? : List A → ℕ → Option A
  get_elem? [] i = none
  get_elem? (x ∷ xs) zero = some x
  get_elem? (x ∷ xs) (suc i) = get_elem? xs i

  abbrev pub is_empty : List A → Bool
  is_empty [] = true
  is_empty (x ∷ xs) = false

  pub length-append : (xs ys : List A) → length (xs ++ ys) ≡ length xs + length ys
  length-append [] ys = omega arith
  length-append (x ∷ xs) ys = omega (arith, length-append xs ys)

  pub append_assoc : (xs ys zs : List A) → (xs ++ ys) ++ zs ≡ xs ++ (ys ++ zs)
  append_assoc [] ys zs = refl
  append_assoc (x ∷ xs) ys zs = ap (λ l. x ∷ l) (append_assoc xs ys zs)

module _ {ℓ} {A : Type ℓ} (p : A → Bool) where
  abbrev pub any : List A → Bool
  any [] = false
  any (x ∷ xs) = p x || any xs

  -- The elements that pass the test, in their order.
  abbrev pub select : List A → List A
  select [] = []
  select (x ∷ xs) = let rest = select xs in if p x then x ∷ rest else rest

abbrev pub All {ℓ κ} : {A : Type ℓ} → (A → Type κ) → List A → Type κ
All Holds [] = Unit
All Holds (x ∷ xs) = Holds x × All Holds xs

-- An element of a list, with its place.
abbrev pub In : {A : Type 0} → A → List A → Type 0
In a [] = ⊥
In a (x ∷ xs) = (x ≡ a) ⊎ In a xs

pub All-In {κ} : {A : Type 0} (P : A → Type κ) {a : A} (xs : List A) → In a xs → All P xs → P a
All-In P [] i h = absurd i
All-In P (x ∷ xs) (inl e) h = subst P e h.0
All-In P (x ∷ xs) (inr m) h = All-In P xs m h.1

abbrev pub all {ℓ} : {A : Type ℓ} → (A → Bool) → List A → Bool
all p [] = true
all p (x ∷ xs) = p x && all p xs

-- A test that all elements pass is passed by each.
pub all-In :
    {A : Type 0} (p : A → Bool) {a : A} (xs : List A) → In a xs → all p xs ≡ true → p a ≡ true
all-In p [] i h = absurd i
all-In p (x ∷ xs) (inl e) h = subst (λ y. p y ≡ true) e (ground (arith, h))
all-In p (x ∷ xs) (inr m) h = all-In p xs m (ground (arith, h))

-- `any` holds exactly when some element passes.
module _ {A : Type 0} (p : A → Bool) where
  pub any_witness : (xs : List A) → any p xs ≡ true → (x : A) × In x xs × (p x ≡ true)
  any_witness [] h = cc
  any_witness (y ∷ xs) h = elim (Bool-cases (p y)) [
    | inl e ↦ (y, inl refl, e)
    | inr e ↦ let (x, i, g) = any_witness xs (ground (arith, h, e)) in (x, inr i, g)
  ]

  pub any-In : (xs : List A) (x : A) → In x xs → p x ≡ true → any p xs ≡ true
  any-In [] x i h = absurd i
  any-In (y ∷ xs) x i h = ground (arith, i, h, any-In xs x)

-- What `select` keeps: the elements that pass.
module _ {A : Type 0} (p : A → Bool) where
  pub In-select : (a : A) (xs : List A) → In a (select p xs) ↔ (In a xs × (p a ≡ true))
  In-select a [] = (λ i. absurd i, λ i. absurd i.0)
  In-select a (x ∷ xs) = elim (Bool-cases (p x)) [
    | inl yes_x ↦ (
      λ i. ground (arith, yes_x, In-select a xs, i),
      λ i. ground (arith, yes_x, In-select a xs, i),
    )
    | inr no_x ↦
        (λ i. ground (arith, no_x, In-select a xs, i), λ i. ground (arith, no_x, In-select a xs, i))
  ]
