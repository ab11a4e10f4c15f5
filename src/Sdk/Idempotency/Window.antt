-- ===== src/Sdk/Idempotency/Window.antt =====
-- The cache of sdk/idempotency.go against one list of ids, ordered by their last use.
use baran_os.Base.{
  ℕ, suc, ◌<◌, ◌≤◌, ◌≡◌, refl, sym, ap, ◌∙◌, inl, inr, List, [], ◌∷◌, GoString, length, lookup,
  lookup-insert, lookup-delete, delete, subst, none, some, Bool, true, false, leb, str_eq,
  str_eq_refl, eq_iff, if◌then◌else◌, Bool-cases, arith,
}
use baran_os.Sdk.Idempotency.{
  IdempotencyCache, new_idempotency_cache, remove, back, hit, has, drop_oldest, make_room,
  push_front, add_on, add,
}

unfoldable pub holds : GoString → List GoString → Bool
holds id [] = false
holds id (x ∷ xs) = if str_eq id x then true else holds id xs

abbrev pub Distinct : List GoString → Type 0
Distinct [] = Unit
Distinct (x ∷ xs) = (holds x xs ≡ false) × Distinct xs

unfoldable pub drop_last : List GoString → List GoString
drop_last [] = []
drop_last (x ∷ []) = []
drop_last (x ∷ y ∷ xs) = x ∷ drop_last (y ∷ xs)

holds-remove :
    (k j : GoString) (l : List GoString)
    → Distinct l
    → holds j (remove k l) ≡ (if str_eq k j then false else holds j l)
unfolding holds remove
holds-remove k j [] d = ground arith
holds-remove k j (x ∷ xs) d =
    ground (arith, d, holds-remove k j xs, eq_iff k x, eq_iff j x, eq_iff k j, str_eq_refl j)

Distinct-remove : (k : GoString) (l : List GoString) → Distinct l → Distinct (remove k l)
unfolding remove
Distinct-remove k [] d = tt
Distinct-remove k (x ∷ xs) d = ground (arith, d, Distinct-remove k xs d.1, holds-remove k x xs d.1)

length-remove :
    (k : GoString) (l : List GoString) → holds k l ≡ true → suc (length (remove k l)) ≡ length l
unfolding holds remove
length-remove k [] h = cc
length-remove k (x ∷ xs) h = ground (arith, h, length-remove k xs)

back_lem :
    (x : GoString) (xs : List GoString)
    → Distinct (x ∷ xs)
    → (b : GoString) × (back (x ∷ xs) ≡ some b)
      × (holds b (x ∷ xs) ≡ true)
      × (remove b (x ∷ xs) ≡ drop_last (x ∷ xs))
unfolding back holds remove drop_last
back_lem x [] d = (x, refl, ground (arith, str_eq_refl x), ground (arith, str_eq_refl x))
back_lem x (y ∷ ys) d =
    let (b, is, h, r) = back_lem y ys d.1 in
    (b, is, ground (arith, h), ground (arith, h, r, d, eq_iff b x))

length-drop_last :
    (x : GoString) (xs : List GoString) → suc (length (drop_last (x ∷ xs))) ≡ length (x ∷ xs)
unfolding drop_last
length-drop_last x [] = refl
length-drop_last x (y ∷ ys) = ap suc (length-drop_last y ys)

-- A call of one of the two methods.
pub data Call : Type 0 where
  asks : GoString → Call
  records : GoString → Call

-- The specification: the remembered ids, the last used one first. Only a question about a
-- remembered id counts as a use; a new id pushes out the last one where there is no room.
unfoldable pub ideal : ℕ → Call → List GoString → Bool × List GoString
unfolding holds remove drop_last
ideal room (asks id) l = (holds id l, if holds id l then id ∷ remove id l else l)
ideal room (records id) l =
    (false, if holds id l then l else id ∷ (if leb room (length l) then drop_last l else l))

unfoldable pub ideal_answers : ℕ → List Call → List GoString → List Bool × List GoString
unfolding ideal
ideal_answers room [] l = ([], l)
ideal_answers room (c ∷ cs) l =
    let (answer, next) = ideal room c l in
    let (answers, last) = ideal_answers room cs next in (answer ∷ answers, last)

unfoldable pub call : Call → IdempotencyCache → Bool × IdempotencyCache
unfolding has add
call (asks id) c = has id c
call (records id) c = (false, add id c)

unfoldable pub answers : List Call → IdempotencyCache → List Bool × IdempotencyCache
unfolding call
answers [] c = ([], c)
answers (x ∷ xs) c =
    let (answer, next) = call x c in let (rest, last) = answers xs next in (answer ∷ rest, last)

-- The cache holds exactly the ids of the list: the map finds what the list holds.
pub record Holds (room : ℕ) (c : IdempotencyCache) (l : List GoString) : Type 0 where
  pub sized : c.max_size ≡ room
  pub listed : c.eviction ≡ l
  pub found : (id : GoString) → lookup id c.items ≡ (if holds id l then some id else none)
  pub distinct : Distinct l
  pub bounded : length l ≤ room

module _ (room : ℕ) (room_pos : 0 < room) where
  pub has-Holds :
      (id : GoString) (c : IdempotencyCache) (l : List GoString)
      → Holds room c l
      → ((has id c).0 ≡ (ideal room (asks id) l).0)
        × Holds room (has id c).1 (ideal room (asks id) l).1
  unfolding has hit ideal
  has-Holds id c l h = elim (Bool-cases (holds id l)) [
    | inr out ↦ (
      ground (arith, out, h.found id),
      record {
        sized = ground (arith, out, h.found id, h.sized);
        listed = ground (arith, out, h.found id, h.listed);
        found = λ j. ground (arith, out, h.found id, h.found j);
        distinct = ground (arith, out, h.distinct);
        bounded = ground (arith, out, h.bounded);
      },
    )
    | inl inside ↦ (
      ground (arith, inside, h.found id),
      record {
        sized = ground (arith, inside, h.found id, h.sized);
        listed = ground (arith, inside, h.found id, h.listed);
        found = λ j.
            unfold holds in
            ground (
              arith,
              inside,
              h.found id,
              h.found j,
              holds-remove id j l h.distinct,
              eq_iff id j,
              eq_iff j id,
            );
        distinct = ground (
          arith,
          inside,
          holds-remove id id l h.distinct,
          str_eq_refl id,
          Distinct-remove id l h.distinct,
        );
        bounded = ground (arith, inside, length-remove id l, h.bounded);
      },
    )
  ]

  -- the cache after `make_room`, and the ids that it held
  Fits : IdempotencyCache → List GoString → List GoString → Type 0
  Fits c l next =
      Holds room c next
      × (length next < room)
      × ((j : GoString) → holds j l ≡ false → holds j next ≡ false)

  evict_last :
      (c : IdempotencyCache) (l : List GoString)
      → Holds room c l
      → leb room (length l) ≡ true
      → Fits (make_room c) l (drop_last l)
  unfolding make_room drop_oldest Fits
  evict_last c [] h full = absurd (ground arith)
  evict_last c (x ∷ xs) h full =
      let (b, is, inside, same) = back_lem x xs h.distinct in
      let gone = λ (j : GoString). holds-remove b j (x ∷ xs) h.distinct in
      let opened : make_room c
          ≡ record c { items = delete b c.items; eviction = remove b (x ∷ xs) } =
        ground (
          arith,
          h.sized,
          full,
          is,
          ap length h.listed,
          h.listed,
          ap back h.listed,
          ap (remove b) h.listed,
        ) in
      (
        record {
          sized = ap (λ k. k.max_size) opened ∙ h.sized;
          listed = ap (λ k. k.eviction) opened ∙ same;
          found = λ j.
              ap (λ k. lookup j k.items) opened
              ∙ ground
                  (arith, same, h.found j, gone j, ap (holds j) same, lookup-delete b j c.items);
          distinct = subst Distinct same (Distinct-remove b (x ∷ xs) h.distinct);
          bounded = omega (arith, length-drop_last x xs, h.bounded);
        },
        omega (arith, length-drop_last x xs, h.bounded),
        λ j out. ground (arith, out, gone j, ap (holds j) same),
      )

  room-Holds :
      (c : IdempotencyCache) (l : List GoString)
      → Holds room c l
      → (next : List GoString) × ((if leb room (length l) then drop_last l else l) ≡ next)
        × Fits (make_room c) l next
  unfolding make_room Fits
  room-Holds c l h = elim (Bool-cases (leb room (length l))) [
    | inl full ↦ (drop_last l, rw full refl, evict_last c l h full)
    | inr space ↦
        let opened : make_room c ≡ c = ground (arith, space, h.sized, ap length h.listed) in
        (
          l,
          rw space refl,
          (subst (λ k. Holds room k l) (sym opened) h, ground (arith, space), λ j out. out),
        )
  ]

  pub add-Holds :
      (id : GoString) (c : IdempotencyCache) (l : List GoString)
      → Holds room c l
      → Holds room (add id c) (ideal room (records id) l).1
  unfolding add add_on push_front ideal Fits
  add-Holds id c l h = elim (Bool-cases (holds id l)) [
    | inl inside ↦
        let stays : add id c ≡ c = ground (arith, h.found id, inside) in rw (stays, inside) h
    | inr out ↦
        let (next, is, (held, space, kept)) = room-Holds c l h in
        let opened : add id c ≡ push_front id (make_room c) = ground (arith, h.found id, out) in
        rw (opened, out, is)
          (record {
            sized = held.sized;
            listed = ap (◌∷◌ id) held.listed;
            found = λ j.
                unfold holds in
                ground (
                  arith,
                  held.found j,
                  lookup-insert id j id (make_room c).items,
                  eq_iff id j,
                  eq_iff j id,
                );
            distinct = (kept id out, held.distinct);
            bounded = omega (arith, space);
          })
  ]

  call-Holds :
      (x : Call) (c : IdempotencyCache) (l : List GoString)
      → Holds room c l
      → ((call x c).0 ≡ (ideal room x l).0) × Holds room (call x c).1 (ideal room x l).1
  unfolding call ideal
  call-Holds (asks id) c l h = has-Holds id c l h
  call-Holds (records id) c l h = (refl, add-Holds id c l h)

  pub calls-Holds :
      (xs : List Call) (c : IdempotencyCache) (l : List GoString)
      → Holds room c l
      → ((answers xs c).0 ≡ (ideal_answers room xs l).0)
        × Holds room (answers xs c).1 (ideal_answers room xs l).1
  unfolding answers ideal_answers
  calls-Holds [] c l h = (refl, h)
  calls-Holds (x ∷ xs) c l h =
      let (same, next) = call-Holds x c l h in
      let (rest, last) = calls-Holds xs (call x c).1 (ideal room x l).1 next in
      (ground (arith, same, rest), last)

  pub new-Holds : Holds room (new_idempotency_cache room) []
  unfolding new_idempotency_cache lookup holds
  new-Holds = record {
    sized = refl;
    listed = refl;
    found = λ j. refl;
    distinct = tt;
    bounded = omega arith;
  }

  -- A cache with room for one id or more, started empty, gives to every sequence of calls of `Has`
  -- and `Add` the answers of the list, and then holds the list's ids in the list's order.
  pub cache_refines_list :
      (xs : List Call)
      → let run = answers xs (new_idempotency_cache room) in
        let expected = ideal_answers room xs [] in
        (run.0 ≡ expected.0) × (run.1.eviction ≡ expected.1)
  cache_refines_list xs =
      let (same, last) = calls-Holds xs (new_idempotency_cache room) [] new-Holds in
      (same, last.listed)
