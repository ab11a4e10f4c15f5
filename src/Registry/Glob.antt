-- ===== src/Registry/Glob.antt =====
-- core/registry/kv.go: globMatch, on bytes. The outer loop is the recursion on the pattern;
-- `glob_star` is the loop behind a star, where further stars are skipped.
pub mod Decides
use baran_os.Base.{ℕ, [], ◌∷◌, GoString, Bool, true, false, ◌||◌, is_empty, ◌==◌, if◌then◌else◌}

-- the cases '?' and `default`, with the rest of the loop
match_one : ℕ → (GoString → Bool) → GoString → Bool
match_one c rest [] = false
match_one c rest (d ∷ s) = if c == b'?' then rest s else if c == d then rest s else false

-- for i := 0; i <= len(s); i++ { if globMatch(pattern, s[i:]) { return true } }
at_some : (GoString → Bool) → GoString → Bool
at_some f [] = f []
at_some f (d ∷ s) = f (d ∷ s) || at_some f s

unfoldable mutual
  unfolding match_one at_some

  pub glob_match : GoString → GoString → Bool
  glob_match [] s = is_empty s
  glob_match (c ∷ p) s = elim (c == b'*') [
    | true ↦ glob_star p s
    | false ↦ match_one c (glob_match p) s
  ]

  pub glob_star : GoString → GoString → Bool
  glob_star [] s = true
  glob_star (c ∷ p) s = elim (c == b'*') [
    | true ↦ glob_star p s
    | false ↦ at_some (match_one c (glob_match p)) s
  ]
