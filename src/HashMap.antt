-- ===== src/HashMap.antt =====
-- common/src/hash_map.c: the chained table of the connections that are logged in. The table holds
-- pointers; a node's `cl` may be NULL. A bucket's linked list is the list of its nodes' `cl`.
pub mod Strtoul
pub mod Chains
pub mod Table
pub mod Buckets
pub mod Insert
pub mod Erase
pub mod Walk
pub mod Refine
use secure_chat.Prelude.{
  not, ◌||◌, ℕ, zero, suc, ◌+◌, ◌-◌, ◌*◌, ◌%◌, ◌^◌, Bool, true, false, ◌||◌, Option, none, some,
  List, [], ◌∷◌, ◌++◌, ◌==◌, ltb, leb, if◌then◌else◌, Text, text_eq, get_elem?, set, replicate, Run,
  ok, fault, null_pointer, deadlock, division_by_zero, out_of_bounds, ◌>>=◌,
}
use Strtoul.{strtoul}
use secure_chat.Connection.{Ptr, Store, ClientConnection}

abbrev pub Node : Type 0
Node = Option Ptr

abbrev pub Chain : Type 0
Chain = List Node

pub record HashMap : Type 0 where
  pub hash_size : ℕ
  pub hash_table : List Chain
  pub current_elements : ℕ

-- The buckets whose mutex the calling thread holds.
abbrev pub Held : Type 0
Held = ℕ → Bool

abbrev pub nothing_held : Held
nothing_held i = false

unfoldable pub bucket_of : ℕ → Text → Run ℕ
bucket_of size uid = if size == 0 then fault division_by_zero else ok (strtoul uid % size)

-- `pthread_mutex_lock` of a bucket: a thread that holds the mutex waits for itself.
unfoldable pub lock : Held → ℕ → Run (Unit {0})
lock held i = if held i then fault deadlock else ok tt

-- `map->hash_table[i]`
unfoldable pub bucket : List Chain → ℕ → Run Chain
bucket table i = elim (get_elem? table i) [ none ↦ fault out_of_bounds | some c ↦ ok c ]

-- The index of a UID, its mutex taken, and its bucket.
unfoldable pub open_bucket : Held → HashMap → Text → Run (ℕ × Chain)
open_bucket held m uid = do
  i ← bucket_of m.hash_size uid
  lock held i >>= λ _. bucket m.hash_table i >>= λ c. ok (i, c)

all_below : (ℕ → Bool) → ℕ → Bool
all_below p zero = true
all_below p (suc n) = let rest = all_below p n in if p n then rest else false

-- `hash_map_create`; the arguments tell which allocations and which mutex initialisations succeed.
unfoldable pub hash_map_create : Bool → Bool → (ℕ → Bool) → ℕ → Option HashMap
unfolding all_below
hash_map_create malloc_ok calloc_ok mutex_ok size =
    if malloc_ok
    then if calloc_ok
      then if all_below mutex_ok size
        then some
            (record { hash_size = size; hash_table = replicate size []; current_elements = 0 })
        else none
      else none
    else none

-- `node->cl->uid`, where `cl` and the UID are not NULL
unfoldable pub uid_of : Store → Node → Option Text
uid_of σ none = none
uid_of σ (some p) = (σ p).uid

-- the same, where `req` is not NULL either
unfoldable pub fields_of : Store → Node → Option Text
fields_of σ none = none
fields_of σ (some p) = elim (σ p).req [ none ↦ none | some r ↦ (σ p).uid ]

-- The walk of `hash_map_find`. A node with a NULL field ends it.
unfoldable pub find_chain : Store → Text → Chain → Option Ptr
find_chain σ uid [] = none
find_chain σ uid (n ∷ c) =
    let rest = find_chain σ uid c in
    elim (fields_of σ n) [ none ↦ none | some u ↦ if text_eq u uid then n else rest ]

-- `none` is false, `some` is true with the pointer stored.
unfoldable pub hash_map_find : Store → Held → HashMap → Text → Run (Option Ptr)
hash_map_find σ held m uid = do (i, c) ← open_bucket held m uid; ok (find_chain σ uid c)

-- The walk of `hash_map_insert` and the write behind it: 1 for a new node, 2 for an overwritten one.
unfoldable pub insert_chain : Store → Text → Ptr → Chain → Chain × ℕ
insert_chain σ uid cl [] = (some cl ∷ [], 1)
insert_chain σ uid cl (n ∷ c) =
    let rest = insert_chain σ uid cl c in
    elim (uid_of σ n) [
      | none ↦ (some cl ∷ c, 2)
      | some u ↦ if text_eq u uid then (some cl ∷ c, 2) else (n ∷ rest.0, rest.1)
    ]

-- `current_elements` is a `size_t`.
abbrev pub increment : ℕ → ℕ
increment n = (n + 1) % 2 ^ 64

abbrev pub decrement : ℕ → ℕ
decrement n = (n + (2 ^ 64 - 1)) % 2 ^ 64

-- `malloc` tells whether there is memory for a new node; what it returns is not tested.
unfoldable pub hash_map_insert : Bool → Store → Held → HashMap → Ptr → Run (HashMap × ℕ)
hash_map_insert malloc σ held m cl = elim (σ cl).uid [
  | none ↦ ok (m, 0)
  | some uid ↦ do
    (i, c) ← open_bucket held m uid
    let r = insert_chain σ uid cl c
    let count = if r.1 == 1 then increment m.current_elements else m.current_elements
    (if malloc || not (r.1 == 1)
        then ok (record m { hash_table = set m.hash_table i r.0; current_elements = count }, r.1)
        else fault null_pointer)
]

-- The walk of `hash_map_erase` and the unlinking behind it; the flag tells that a node was found.
unfoldable pub erase_chain : Store → Text → Chain → Run (Chain × Bool)
erase_chain σ uid [] = ok ([], false)
erase_chain σ uid (n ∷ c) =
    let rest = erase_chain σ uid c in
    elim (uid_of σ n) [
      | none ↦ fault null_pointer
      | some u ↦ if text_eq u uid then ok (c, true) else (rest >>= λ r. ok (n ∷ r.0, r.1))
    ]

unfoldable pub hash_map_erase : Store → Held → HashMap → Text → Run HashMap
hash_map_erase σ held m uid = do
  (i, c) ← open_bucket held m uid
  r ← erase_chain σ uid c
  ok (
      if r.1
      then record m {
        hash_table = set m.hash_table i r.0;
        current_elements = decrement m.current_elements;
      }
      else m)

-- The pointers of the nodes, in the order of the walk.
pointers : Chain → List Ptr
pointers [] = []
pointers (none ∷ c) = pointers c
pointers (some p ∷ c) = p ∷ pointers c

all_pointers : List Chain → List Ptr
unfolding pointers
all_pointers [] = []
all_pointers (c ∷ cs) = pointers c ++ all_pointers cs

-- `hash_map_clear` frees every connection and empties every bucket.
unfoldable pub hash_map_clear : HashMap → HashMap × List Ptr
unfolding all_pointers
hash_map_clear m = (record m { hash_table = replicate m.hash_size [] }, all_pointers m.hash_table)

-- The nodes that `hash_map_destroy` frees, in the order of its walk, and the mutexes that it destroys;
-- the table and the map are freed behind them. The connections stay.
unfoldable pub destroy_from : ℕ → List Chain → Chain × ℕ
destroy_from n [] = ([], n)
destroy_from n (c ∷ cs) = let rest = destroy_from (suc n) cs in (c ++ rest.0, rest.1)

unfoldable pub hash_map_destroy : HashMap → Chain × ℕ
hash_map_destroy m = destroy_from 0 m.hash_table

-- The walk of `hash_map_iterate` through one bucket, with its mutex held. The callback is given
-- the state that it changes and the mutexes that its caller holds.
module _ {S : Type 0} (callback : Held → Node → S → Run S) where
  unfoldable pub iterate_chain : Held → Chain → S → Run S
  iterate_chain held [] s = ok s
  iterate_chain held (n ∷ c) s = callback held n s >>= iterate_chain held c

  unfoldable pub iterate_from : Held → ℕ → List Chain → S → Run S
  iterate_from held i [] s = ok s
  iterate_from held i (c ∷ cs) s = do
    lock held i >>= λ _. iterate_chain (λ j. held j || j == i) c s >>= iterate_from held (suc i) cs

-- `hash_map_iterate`, and `hash_map_iterate2` with the parameter applied to the callback.
unfoldable pub hash_map_iterate :
    {S : Type 0} → (Held → Node → S → Run S) → Held → HashMap → S → Run S
hash_map_iterate callback held m s = iterate_from callback held 0 m.hash_table s
