-- ===== src/Registry/Glob/Decides.antt =====
-- `globMatch` decides the matching relation: a star stands for any bytes, a question mark for one.
use baran_os.Base.{
  contains_any, str_eq, ℕ, ◌≡◌, ◌↔◌, refl, sym, ◌∙◌, [], ◌∷◌, GoString, Bool, true, false, ◌==◌,
  arith, Bool-cases, inl, inr,
}
use baran_os.Registry.Glob.{match_one, at_some, glob_match, glob_star}

pub data Matches : GoString → GoString → Type 0 where
  nil : Matches [] []
  any_byte : {c d : ℕ} {p s : GoString} → (c == b'?') ≡ true → Matches p s → Matches (c ∷ p) (d ∷ s)
  same_byte :
      {c d : ℕ} {p s : GoString}
      → (c == b'*') ≡ false
      → (c == d) ≡ true
      → Matches p s
      → Matches (c ∷ p) (d ∷ s)
  star_none : {c : ℕ} {p s : GoString} → (c == b'*') ≡ true → Matches p s → Matches (c ∷ p) s
  star_more :
      {c d : ℕ} {p s : GoString} → (c == b'*') ≡ true → Matches (c ∷ p) s → Matches (c ∷ p) (d ∷ s)

star_all : (c : ℕ) (s : GoString) → (c == b'*') ≡ true → Matches (c ∷ []) s
star_all c [] h = star_none h nil
star_all c (d ∷ s) h = star_more h (star_all c s h)

at_some_sound :
    (f : GoString → Bool) (c : ℕ) (p s : GoString)
    → (c == b'*') ≡ true
    → ((t : GoString) → f t ≡ true → Matches p t)
    → at_some f s ≡ true
    → Matches (c ∷ p) s
unfolding at_some
at_some_sound f c p [] st ok h = star_none st (ok [] h)
at_some_sound f c p (d ∷ s) st ok h = elim (Bool-cases (f (d ∷ s))) [
  | inl e ↦ star_none st (ok (d ∷ s) e)
  | inr e ↦ star_more st (at_some_sound f c p s st ok (ground (arith, h, e)))
]

match_one_sound :
    (c : ℕ) (p : GoString) (f : GoString → Bool)
    → (c == b'*') ≡ false
    → ((t : GoString) → f t ≡ true → Matches p t)
    → (t : GoString) → match_one c f t ≡ true
    → Matches (c ∷ p) t
unfolding match_one
match_one_sound c p f ns ok [] h = cc
match_one_sound c p f ns ok (d ∷ t) h = elim (Bool-cases (c == b'?')) [
  | inl e ↦ any_byte e (ok t (ground (arith, h, e)))
  | inr e ↦ same_byte ns (ground (arith, h, e)) (ok t (ground (arith, h, e)))
]

mutual
  unfolding glob_match glob_star

  match_sound : (p s : GoString) → glob_match p s ≡ true → Matches p s
  match_sound [] [] h = nil
  match_sound [] (d ∷ s) h = cc
  match_sound (c ∷ p) s h = elim (Bool-cases (c == b'*')) [
    | inl st ↦ star_sound p s c st (ground (arith, h, st))
    | inr ns ↦ match_one_sound c p (glob_match p) ns (match_sound p) s (ground (arith, h, ns))
  ]

  star_sound :
      (p s : GoString) (c : ℕ) → (c == b'*') ≡ true → glob_star p s ≡ true → Matches (c ∷ p) s
  star_sound [] s c st h = star_all c s st
  star_sound (c' ∷ p) s c st h = elim (Bool-cases (c' == b'*')) [
    | inl st' ↦ star_none st (star_sound p s c' st' (ground (arith, h, st')))
    | inr ns ↦
        at_some_sound (match_one c' (glob_match p)) c (c' ∷ p) s st
          (match_one_sound c' p (glob_match p) ns (match_sound p)) (ground (arith, h, ns))
  ]

at_some_here : (f : GoString → Bool) (s : GoString) → f s ≡ true → at_some f s ≡ true
unfolding at_some
at_some_here f [] h = h
at_some_here f (d ∷ s) h = ground (arith, h)

star_here : (p s : GoString) → glob_match p s ≡ true → glob_star p s ≡ true
unfolding glob_match glob_star
star_here [] s h = refl
star_here (c ∷ p) s h = elim (Bool-cases (c == b'*')) [
  | inl st ↦ ground (arith, h, st)
  | inr ns ↦ ground (arith, h, ns, at_some_here (match_one c (glob_match p)) s)
]

star_longer : (p s : GoString) (d : ℕ) → glob_star p s ≡ true → glob_star p (d ∷ s) ≡ true
unfolding glob_star
star_longer [] s d h = refl
star_longer (c ∷ p) s d h = ground (arith, h, star_longer p s d)

match_complete : {p s : GoString} → Matches p s → glob_match p s ≡ true
unfolding glob_match
match_complete nil = refl
match_complete (any_byte {c = c} q m) = ground (arith, q, match_complete m)
match_complete (same_byte {c = c} ns e m) = ground (arith, ns, e, match_complete m)
match_complete (star_none {c = c} {p = p} {s = s} st m) =
    ground (arith, st, star_here p s (match_complete m))
match_complete (star_more {c = c} {d = d} {p = p} {s = s} st m) =
    ground (arith, st, star_longer p s d, match_complete m)

-- `globMatch` returns true exactly when the pattern matches the whole text.
pub glob_match_exact : (p s : GoString) → (glob_match p s ≡ true) ↔ Matches p s
glob_match_exact p s = (match_sound p s, λ m. match_complete m)

literal_match : (p s : GoString) → contains_any b'*' b'?' p ≡ false → glob_match p s ≡ str_eq s p
unfolding glob_match contains_any str_eq
literal_match [] [] h = refl
literal_match [] (d ∷ s) h = refl
literal_match (c ∷ p) [] h = ground (arith, h)
literal_match (c ∷ p) (d ∷ s) h = ground (arith, h, literal_match p s)

-- A pattern with no wildcard matches itself alone.
pub literal_exact :
    (p s : GoString) → contains_any b'*' b'?' p ≡ false → (str_eq s p ≡ true) ↔ Matches p s
literal_exact p s h = (
  λ e. (glob_match_exact p s).0 (literal_match p s h ∙ e),
  λ m. sym (literal_match p s h) ∙ (glob_match_exact p s).1 m,
)
