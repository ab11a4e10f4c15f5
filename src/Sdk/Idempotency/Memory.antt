-- ===== src/Sdk/Idempotency/Memory.antt =====
-- How long the cache of sdk/idempotency.go remembers an id.
use baran_os.Base.{
  subst, ℕ, zero, suc, ◌+◌, ◌<◌, ◌≤◌, ◌≡◌, refl, ◌∙◌, inl, inr, List, [], ◌∷◌, GoString, length,
  Bool, true, false, leb, str_eq, str_eq_refl, eq_iff, if◌then◌else◌, Bool-cases, arith,
}
use baran_os.Sdk.Idempotency.{IdempotencyCache, remove, hit, has, add}
use baran_os.Sdk.Idempotency.Window.{
  holds, drop_last, Call, asks, records, ideal, ideal_answers, answers, Holds, calls-Holds,
  add-Holds, has-Holds,
}

-- the id is among the first `n`
unfoldable within : ℕ → GoString → List GoString → Bool
within zero id l = false
within (suc n) id [] = false
within (suc n) id (x ∷ xs) = if str_eq id x then true else within n id xs

within-suc :
    (n : ℕ) (id : GoString) (l : List GoString) → within n id l ≡ true → within (suc n) id l ≡ true
unfolding within
within-suc zero id l h = cc
within-suc (suc n) id [] h = cc
within-suc (suc n) id (x ∷ xs) h = ground (arith, h, within-suc n id xs)

within-holds :
    (n : ℕ) (id : GoString) (l : List GoString) → within n id l ≡ true → holds id l ≡ true
unfolding within holds
within-holds zero id l h = cc
within-holds (suc n) id [] h = cc
within-holds (suc n) id (x ∷ xs) h = ground (arith, h, within-holds n id xs)

within-remove :
    (n : ℕ) (id j : GoString) (l : List GoString)
    → str_eq id j ≡ false
    → within n id l ≡ true
    → within n id (remove j l) ≡ true
unfolding within remove
within-remove zero id j l ne h = cc
within-remove (suc n) id j [] ne h = cc
within-remove (suc n) id j (x ∷ xs) ne h = ground (
  arith,
  ne,
  h,
  within-remove n id j xs,
  within-suc n id xs,
  eq_iff id j,
  eq_iff j x,
  eq_iff id x,
)

within-drop_last :
    (n : ℕ) (id : GoString) (l : List GoString)
    → n < length l
    → within n id l ≡ true
    → within n id (drop_last l) ≡ true
unfolding within drop_last
within-drop_last zero id l lt h = cc
within-drop_last (suc n) id [] lt h = cc
within-drop_last (suc n) id (x ∷ []) lt h = absurd (omega arith)
within-drop_last (suc n) id (x ∷ y ∷ xs) lt h =
    ground (arith, lt, h, within-drop_last n id (y ∷ xs))

within_cons :
    (n : ℕ) (id j : GoString) (l : List GoString)
    → within (suc n) id (j ∷ l) ≡ (if str_eq id j then true else within n id l)
unfolding within
within_cons n id j l = refl

ideal-within :
    (room n : ℕ) (id : GoString) (x : Call) (l : List GoString)
    → n < room
    → within n id l ≡ true
    → within (suc n) id (ideal room x l).1 ≡ true
unfolding ideal
ideal-within room n id (asks j) l lt h =
    ground (arith, within_cons n id j (remove j l), h, within-suc n id l h, within-remove n id j l)
ideal-within room n id (records j) l lt h = ground (
  arith,
  within_cons n id j l,
  within_cons n id j (drop_last l),
  h,
  within-suc n id l h,
  within-drop_last n id l,
)

ideals-within :
    (room n : ℕ) (id : GoString) (xs : List Call) (l : List GoString)
    → n + length xs ≤ room
    → within n id l ≡ true
    → holds id (ideal_answers room xs l).1 ≡ true
unfolding ideal_answers
ideals-within room n id [] l le h = within-holds n id l h
ideals-within room n id (x ∷ xs) l le h =
    ideals-within room (suc n) id xs (ideal room x l).1 (omega (arith, le))
      (ideal-within room n id x l (omega (arith, le)) h)

-- the duplicate check of an agent: ask, and record the id where it is new
unfoldable pub seen_before : GoString → IdempotencyCache → Bool × IdempotencyCache
seen_before id c = let (seen, next) = has id c in (seen, if seen then next else add id next)

pub unseen_kept : (id : GoString) (c : IdempotencyCache) → (has id c).0 ≡ false → (has id c).1 ≡ c
unfolding has hit
unseen_kept id c h = ground (arith, h)

module _ (room : ℕ) (room_pos : 0 < room) where
  seen_before-Holds :
      (id : GoString) (c : IdempotencyCache) (l : List GoString)
      → Holds room c l
      → (next : List GoString) × Holds room (seen_before id c).1 next × (within 1 id next ≡ true)
  unfolding seen_before ideal
  seen_before-Holds id c l h =
      let (same, held) = has-Holds room room_pos id c l h in
      elim (Bool-cases (holds id l)) [
        | inl inside ↦ (
          id ∷ remove id l,
          rw (same, inside) (subst (Holds room (has id c).1) (rw inside refl) held),
          ground (arith, within_cons zero id id (remove id l), str_eq_refl id),
        )
        | inr out ↦
            let stays : (has id c).1 ≡ c = unfold has hit in ground (arith, out, h.found id) in
            (
              id ∷ (if leb room (length l) then drop_last l else l),
              rw (same, out, stays)
                  (subst (Holds room (add id c)) (rw out refl) (add-Holds room room_pos id c l h)),
              ground (
                arith,
                within_cons zero id id (if leb room (length l) then drop_last l else l),
                str_eq_refl id,
              ),
            )
      ]

  -- An id that was asked about, and recorded where it was new, is found as long as fewer calls of
  -- `Has` and `Add` than the cache has room for came between.
  pub recent_found :
      (c : IdempotencyCache) (l : List GoString) (id : GoString) (between : List Call)
      → Holds room c l
      → length between < room
      → (has id (answers between (seen_before id c).1).1).0 ≡ true
  recent_found c l id between held few =
      let (next, after, near) = seen_before-Holds id c l held in
      let later = calls-Holds room room_pos between _ next after in
      let answer = (has-Holds room room_pos id _ _ (later.1)).0 in
      answer ∙ unfold ideal in ideals-within room 1 id between next (omega (arith, few)) near
