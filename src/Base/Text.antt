-- ===== src/Base/Text.antt =====
-- A Go string is a sequence of bytes. `codes "..."` is a literal (ASCII), `str_eq` is Go's `==`.
use Prim.Native.Nat.{ℕ}
use Prim.Native.Char.{code}
use Prim.Native.String.{String}
use mathlib.Core.Path.{subst, sym, ap, ◌≡◌, refl}
use mathlib.Core.Logic.{◌⊎◌, ◌↔◌, ◌≢◌, inl, inr}
use mathlib.Core.Option.{Option, none, some}
use mathlib.Core.Bool.{◌||◌, Bool, true, false, ◌&&◌}
use mathlib.Core.List.{List, [], ◌∷◌, ◌++◌}
use native.Mathlib.Omega.{arith}
use baran_os.Base.Tests.{==_iff, if◌then◌else◌, ◌==◌, ltb, Bool-cases}

abbrev pub GoString : Type 0
GoString = List ℕ

abbrev pub codes : String → GoString
codes String.[] = []
codes (String.◌∷◌ c s) = code c ∷ codes s

unfoldable pub str_eq : GoString → GoString → Bool
str_eq [] [] = true
str_eq [] (c ∷ t) = false
str_eq (c ∷ s) [] = false
str_eq (c ∷ s) (d ∷ t) = c == d && str_eq s t

pub str_eq_refl : (s : GoString) → str_eq s s ≡ true
unfolding str_eq
str_eq_refl [] = refl
str_eq_refl (c ∷ s) = ground (arith, str_eq_refl s)

pub str_eq_sound : (s t : GoString) → str_eq s t ≡ true → s ≡ t
unfolding str_eq
str_eq_sound [] [] h = refl
str_eq_sound [] (d ∷ t) h = cc
str_eq_sound (c ∷ s) [] h = cc
str_eq_sound (c ∷ s) (d ∷ t) h = ground (arith, str_eq_sound s t)

pub eq_iff : (s t : GoString) → (str_eq s t ≡ true) ↔ (s ≡ t)
eq_iff s t = (str_eq_sound s t, λ e. ground (arith, str_eq_refl s, e))

pub ne-str_eq : (s t : GoString) → s ≢ t → str_eq s t ≡ false
ne-str_eq s t h = elim (Bool-cases (str_eq s t)) [
  | inl e ↦ absurd (h (str_eq_sound s t e))
  | inr e ↦ e
]

-- strings.HasPrefix(s, p)
unfoldable pub has_prefix : GoString → GoString → Bool
has_prefix s [] = true
has_prefix [] (c ∷ p) = false
has_prefix (d ∷ s) (c ∷ p) = c == d && has_prefix s p

pub has_prefix-append : (p s : GoString) → has_prefix (p ++ s) p ≡ true
unfolding has_prefix
has_prefix-append [] s = refl
has_prefix-append (c ∷ p) s = ground (arith, has_prefix-append p s)

-- a < b on strings: bytes in lexicographic order
unfoldable pub str_lt : GoString → GoString → Bool
str_lt s [] = false
str_lt [] (d ∷ t) = true
str_lt (c ∷ s) (d ∷ t) = ltb c d || (c == d && str_lt s t)

push : ℕ → List GoString → List GoString
push c [] = (c ∷ []) ∷ []
push c (w ∷ ws) = (c ∷ w) ∷ ws

-- strings.Split(s, sep) for a separator of one byte
unfoldable pub split : ℕ → GoString → List GoString
unfolding push
split sep [] = [] ∷ []
split sep (c ∷ s) = let rest = split sep s in if c == sep then [] ∷ rest else push c rest

-- no byte of the text is the separator
abbrev pub IsFree : ℕ → GoString → Type 0
IsFree sep [] = Unit
IsFree sep (c ∷ s) = ((c == sep) ≡ false) × IsFree sep s

pub split-segment :
    (sep : ℕ) (s t : GoString) → IsFree sep s → split sep (s ++ sep ∷ t) ≡ s ∷ split sep t
unfolding split
split-segment sep [] t h = ground (arith)
split-segment sep (c ∷ s) t h = ground (arith, split-segment sep s t h.1)

split_two :
    (sep : ℕ) (c : ℕ) (s : GoString) → (c == sep) ≡ true → split sep (c ∷ s) ≡ [] ∷ split sep s
unfolding split
split_two sep c s h = ground arith

-- A split has at least one part.
pub split-cons :
    (sep : ℕ) (s : GoString) → (p : GoString) × (ps : List GoString) × (split sep s ≡ p ∷ ps)
unfolding split
split-cons sep [] = ([], [], refl)
split-cons sep (c ∷ s) = elim (Bool-cases (c == sep)) [
  | inl e ↦ ([], split sep s, rw e)
  | inr e ↦ let (p, ps, h) = split-cons sep s in (c ∷ p, ps, ground (arith, h, e))
]

-- A text has no separator and is its only part, or it goes on behind its first one.
pub split-cases :
    (sep : ℕ) (s : GoString)
    → (split sep s ≡ s ∷ []) ⊎ ((v : GoString) × (r : GoString) × IsFree sep v × (s ≡ v ++ sep ∷ r))
unfolding split
split-cases sep [] = inl refl
split-cases sep (c ∷ s) = elim (Bool-cases (c == sep)) [
  | inl e ↦ inr ([], s, tt, ap (λ x. x ∷ s) ((==_iff c sep).0 e))
  | inr e ↦ elim (split-cases sep s) [
    | inl h ↦ inl (ground (arith, h, e))
    | inr (v, r, f, h) ↦ inr (c ∷ v, r, (e, f), ap (λ t. c ∷ t) h)
  ]
]

cut_push : ℕ → Option (GoString × GoString) → Option (GoString × GoString)
cut_push c none = none
cut_push c (some (v, r)) = some (c ∷ v, r)

-- the tail is already trimmed, and an empty one means that `d` is the last byte
trim_last : ℕ → ℕ → GoString → GoString → GoString
trim_last c d [] t = if d == c then [] else d ∷ []
trim_last c d (x ∷ s) t = d ∷ t

-- i := strings.Index(s, sep): what stands before and behind the first separator byte, if there is one
unfoldable pub cut : ℕ → GoString → Option (GoString × GoString)
unfolding cut_push
cut sep [] = none
cut sep (c ∷ s) = let rest = cut_push c (cut sep s) in if c == sep then some ([], s) else rest

pub cut-segment : (sep : ℕ) (s t : GoString) → IsFree sep s → cut sep (s ++ sep ∷ t) ≡ some (s, t)
unfolding cut
cut-segment sep [] t h = ground (arith)
cut-segment sep (c ∷ s) t h = ground (arith, cut-segment sep s t h.1)

-- strings.TrimSuffix(s, suffix) for a suffix of one byte
unfoldable pub trim_suffix : ℕ → GoString → GoString
unfolding trim_last
trim_suffix c [] = []
trim_suffix c (d ∷ s) = trim_last c d s (trim_suffix c s)

-- strings.ContainsAny(s, "cd")
unfoldable pub contains_any : ℕ → ℕ → GoString → Bool
contains_any c d [] = false
contains_any c d (x ∷ s) = x == c || x == d || contains_any c d s

pub str_lt_asym : (s t : GoString) → str_lt s t ≡ true → str_lt t s ≡ false
unfolding str_lt
str_lt_asym [] [] h = cc
str_lt_asym [] (d ∷ t) h = refl
str_lt_asym (c ∷ s) [] h = cc
str_lt_asym (c ∷ s) (d ∷ t) h = ground (arith, h, str_lt_asym s t)

-- `not <` is transitive: with a not above b and b not above c, a is not above c
pub str_lt_neg_trans :
    (a b c : GoString) → str_lt b a ≡ false → str_lt c b ≡ false → str_lt c a ≡ false
unfolding str_lt
str_lt_neg_trans [] b c h k = refl
str_lt_neg_trans (x ∷ a) [] c h k = cc
str_lt_neg_trans (x ∷ a) (y ∷ b) [] h k = cc
str_lt_neg_trans (x ∷ a) (y ∷ b) (z ∷ c) h k = ground (arith, h, k, str_lt_neg_trans a b c)

has_prefix_split : (s p : GoString) → has_prefix s p ≡ true → (r : GoString) × (s ≡ p ++ r)
unfolding has_prefix
has_prefix_split s [] h = (s, refl)
has_prefix_split [] (c ∷ p) h = cc
has_prefix_split (d ∷ s) (c ∷ p) h =
    let (r, e) = has_prefix_split s p (ground (arith, h)) in (r, ground (arith, h, e))

pub has_prefix_iff : (s p : GoString) → (has_prefix s p ≡ true) ↔ ((r : GoString) × (s ≡ p ++ r))
has_prefix_iff s p = (
  has_prefix_split s p,
  λ x. subst (λ t. has_prefix t p ≡ true) (sym x.1) (has_prefix-append p x.0),
)
