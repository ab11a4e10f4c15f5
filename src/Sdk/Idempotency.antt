-- ===== src/Sdk/Idempotency.antt =====
-- sdk/idempotency.go: the bounded cache of processed event ids. The list's front is the most
-- recently used id. An element of the list is named by the id that it holds, and the mutex makes
-- every method one step.
pub mod Window
pub mod Memory
use baran_os.Base.{
  ℕ, List, [], ◌∷◌, GoString, length, Dict, lookup, insert, delete, Option, none, some, Bool, true,
  false, leb, str_eq, if◌then◌else◌,
}

-- idempotencyCache
pub record IdempotencyCache : Type 0 where
  pub max_size : ℕ
  pub items : Dict GoString
  pub eviction : List GoString

-- newIdempotencyCache
unfoldable pub new_idempotency_cache : ℕ → IdempotencyCache
new_idempotency_cache max_size = record { max_size = max_size; items = []; eviction = [] }

-- list.Remove(el)
unfoldable pub remove : GoString → List GoString → List GoString
remove el [] = []
remove el (x ∷ xs) = let rest = remove el xs in if str_eq el x then xs else x ∷ rest

-- list.Back()
unfoldable pub back : List GoString → Option GoString
back [] = none
back (x ∷ []) = some x
back (x ∷ y ∷ xs) = back (y ∷ xs)

hit : Option GoString → IdempotencyCache → Bool × IdempotencyCache
hit (some el) c = (true, record c { eviction = el ∷ remove el c.eviction })
hit none c = (false, c)

-- Has
unfoldable pub has : GoString → IdempotencyCache → Bool × IdempotencyCache
unfolding hit remove
has id c = hit (lookup id c.items) c

drop_oldest : Option GoString → IdempotencyCache → IdempotencyCache
drop_oldest none c = c
drop_oldest (some oldest) c = record c {
  items = delete oldest c.items;
  eviction = remove oldest c.eviction;
}

-- the id is put in front, behind an eviction where the cache is full
unfoldable pub make_room : IdempotencyCache → IdempotencyCache
unfolding drop_oldest back
make_room c = if leb c.max_size (length c.eviction) then drop_oldest (back c.eviction) c else c

push_front : GoString → IdempotencyCache → IdempotencyCache
push_front id c = record c { items = insert id id c.items; eviction = id ∷ c.eviction }

add_on : Option GoString → GoString → IdempotencyCache → IdempotencyCache
unfolding push_front make_room
add_on (some el) id c = c
add_on none id c = push_front id (make_room c)

-- Add
unfoldable pub add : GoString → IdempotencyCache → IdempotencyCache
unfolding add_on
add id c = add_on (lookup id c.items) id c
