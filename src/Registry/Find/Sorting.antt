-- ===== src/Registry/Find/Sorting.antt =====
-- What sorting and selecting in core/registry/kv.go keep of a list of agents: the same agents, as often.
use mathlib.Core.List.Permᴰ
use mathlib.Core.List.{Permᴰ}
use baran_os.Base.{
  refl, List, [], ◌∷◌, ◌++◌, Bool, Bool-cases, inl, inr, select, str_lt, if◌then◌else◌,
}
use baran_os.Registry.Types.{AgentRegistration}
use baran_os.Registry.Find.{insert_by_id, sort_by_id}

module _ {A : Type 0} where
  -- the elements that fail a test
  unfoldable pub rejected : (A → Bool) → List A → List A
  rejected p [] = []
  rejected p (x ∷ xs) = let rest = rejected p xs in if p x then rest else x ∷ rest

  pub select-rejected : (p : A → Bool) (xs : List A) → Permᴰ (select p xs ++ rejected p xs) xs
  unfolding rejected
  select-rejected p [] = Permᴰ.refl []
  select-rejected p (x ∷ xs) = elim (Bool-cases (p x)) [
    | inl yes_x ↦ rw yes_x (Permᴰ.cons refl (select-rejected p xs))
    | inr no_x ↦ rw no_x (
        Permᴰ.trans (Permᴰ.middle x (select p xs) (rejected p xs))
          (Permᴰ.cons refl (select-rejected p xs)))
  ]

insert_perm :
    (a : AgentRegistration) (xs : List AgentRegistration) → Permᴰ (insert_by_id a xs) (a ∷ xs)
unfolding insert_by_id
insert_perm a [] = Permᴰ.refl (a ∷ [])
insert_perm a (x ∷ xs) = elim (Bool-cases (str_lt a.agent_id x.agent_id)) [
  | inl below ↦ rw below (Permᴰ.refl (a ∷ x ∷ xs))
  | inr above ↦ rw above (Permᴰ.trans (Permᴰ.cons refl (insert_perm a xs)) (Permᴰ.swap refl refl))
]

pub sort_perm : (xs : List AgentRegistration) → Permᴰ (sort_by_id xs) xs
unfolding sort_by_id
sort_perm [] = Permᴰ.refl []
sort_perm (x ∷ xs) = Permᴰ.trans (insert_perm x (sort_by_id xs)) (Permᴰ.cons refl (sort_perm xs))
