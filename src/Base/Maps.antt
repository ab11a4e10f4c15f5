-- ===== src/Base/Maps.antt =====
-- A Go map with string keys, as an association list with one entry for a key that was inserted.
use mathlib.Core.Path.{◌≡◌, refl}
use mathlib.Core.Option.{Option, none, some}
use mathlib.Core.List.{List, [], ◌∷◌}
use native.Mathlib.Omega.{arith}
use baran_os.Base.Tests.{if◌then◌else◌}
use baran_os.Base.Text.{GoString, str_eq, eq_iff, str_eq_refl}

abbrev pub Dict {ℓ} : Type ℓ → Type ℓ
Dict V = List (GoString × V)

module _ {ℓ} {V : Type ℓ} where
  -- v, ok := m[k]
  unfoldable pub lookup : GoString → Dict V → Option V
  lookup k [] = none
  lookup k ((j, v) ∷ m) = if str_eq j k then some v else lookup k m

  -- m[k] = v
  unfoldable pub insert : GoString → V → Dict V → Dict V
  insert k v [] = (k, v) ∷ []
  insert k v ((j, w) ∷ m) = if str_eq j k then (k, v) ∷ m else (j, w) ∷ insert k v m

  -- delete(m, k)
  unfoldable pub delete : GoString → Dict V → Dict V
  delete k [] = []
  delete k ((j, w) ∷ m) = let rest = delete k m in if str_eq j k then rest else (j, w) ∷ rest

  pub lookup-insert :
      (key asked : GoString) (value : V) (dict : Dict V)
      → lookup asked (insert key value dict)
        ≡ (if str_eq key asked then some value else lookup asked dict)
  unfolding lookup insert
  lookup-insert key asked value [] = refl
  lookup-insert key asked value ((here, at_here) ∷ more) = ground (
    arith,
    lookup-insert key asked value more,
    eq_iff here asked,
    eq_iff here key,
    eq_iff key asked,
  )

  pub lookup-delete :
      (key asked : GoString) (dict : Dict V)
      → lookup asked (delete key dict) ≡ (if str_eq key asked then none else lookup asked dict)
  unfolding lookup delete
  lookup-delete key asked [] = ground arith
  lookup-delete key asked ((here, at_here) ∷ more) =
      ground
        (arith, lookup-delete key asked more, eq_iff here asked, eq_iff here key, eq_iff key asked)

  pub delete_gone : (k : GoString) (m : Dict V) → lookup k (delete k m) ≡ none
  delete_gone k m = ground (arith, lookup-delete k k m, str_eq_refl k)

  pub delete_twice : (k : GoString) (m : Dict V) → delete k (delete k m) ≡ delete k m
  unfolding delete
  delete_twice k [] = refl
  delete_twice k ((j, v) ∷ m) = ground (arith, delete_twice k m)

  pub insert_found : (k : GoString) (v : V) (m : Dict V) → lookup k (insert k v m) ≡ some v
  insert_found k v m = ground (arith, lookup-insert k k v m, str_eq_refl k)

pub ruleset dict_laws = (lookup-insert, lookup-delete, str_eq_refl)
