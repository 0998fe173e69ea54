-- ===== src/HashMap/Table.antt =====
-- The whole table of common/src/hash_map.c: its invariant, and the empty table.
use secure_chat.Prelude.{
  ℕ, zero, suc, ◌+◌, ◌%◌, ◌^◌, ◌<◌, ◌≡◌, refl, Bool, false, Option, none, some, List, [], ◌∷◌, ◌==◌,
  arith, Text, length, get_or, set, replicate, get_elem?-get_or, ok, subst, ap, ◌∙◌,
}
use secure_chat.Connection.{Ptr, Store}
use secure_chat.HashMap.Strtoul.{strtoul}
use secure_chat.HashMap.{
  Chain, HashMap, nothing_held, bucket_of, lock, bucket, open_bucket, find_chain, hash_map_find,
  hash_map_create,
}
use secure_chat.HashMap.Chains.{IsChain}

-- The number of nodes.
abbrev pub total : List Chain → ℕ
total [] = 0
total (c ∷ cs) = length c + total cs

-- Every bucket is well formed, and `current_elements` counts the nodes.
pub record IsValid (σ : Store) (m : HashMap) : Type 0 where
  pub positive : 0 < m.hash_size
  pub width : length m.hash_table ≡ m.hash_size
  pub chains : (i : ℕ) → IsChain σ m.hash_size i (get_or m.hash_table i [])
  pub counted : total m.hash_table ≡ m.current_elements
  pub small : m.current_elements < 2 ^ 64

abbrev pub home : HashMap → Text → ℕ
home m q = strtoul q % m.hash_size

abbrev pub chain_of : HashMap → Text → Chain
chain_of m q = get_or m.hash_table (home m q) []

-- What the table holds for a UID.
abbrev pub lookup : Store → HashMap → Text → Option Ptr
lookup σ m q = find_chain σ q (chain_of m q)

pub home-lt : (σ : Store) (m : HashMap) (q : Text) → IsValid σ m → home m q < length m.hash_table
home-lt σ m q v = let w = v.width in let p = v.positive in grind arith

pub open_bucket-ok :
    (σ : Store) (m : HashMap) (q : Text)
    → IsValid σ m
    → open_bucket nothing_held m q ≡ ok (home m q, chain_of m q)
unfolding open_bucket bucket_of lock bucket
open_bucket-ok σ m q v =
    let p = v.positive in
    let nonzero : (m.hash_size == 0) ≡ false = ground arith in
    rw nonzero (rw (get_elem?-get_or m.hash_table (home m q) [] (home-lt σ m q v), bucket) refl)

pub hash_map_find-lookup :
    (σ : Store) (m : HashMap) (q : Text)
    → IsValid σ m
    → hash_map_find σ nothing_held m q ≡ ok (lookup σ m q)
unfolding hash_map_find
hash_map_find-lookup σ m q v = rw (open_bucket-ok σ m q v) refl

pub total-set :
    (t : List Chain) (i : ℕ) (c : Chain)
    → i < length t
    → total (set t i c) + length (get_or t i []) ≡ total t + length c
total-set [] i c h = absurd (omega arith)
total-set (x ∷ t) zero c h = omega arith
total-set (x ∷ t) (suc i) c h = omega (arith, total-set t i c (omega arith))

get_or-replicate : (n i : ℕ) → get_or {A = Chain} (replicate n []) i [] ≡ []
get_or-replicate zero i = refl
get_or-replicate (suc n) zero = refl
get_or-replicate (suc n) (suc i) = get_or-replicate n i

total-replicate : (n : ℕ) → total (replicate n []) ≡ 0
total-replicate zero = refl
total-replicate (suc n) = omega (arith, total-replicate n)

length-replicate : (n : ℕ) → length {A = Chain} (replicate n []) ≡ n
length-replicate zero = refl
length-replicate (suc n) = omega (arith, length-replicate n)

abbrev pub empty : ℕ → HashMap
empty size = record { hash_size = size; hash_table = replicate size []; current_elements = 0 }

create-empty :
    (a b : Bool) (mutex_ok : ℕ → Bool) (size : ℕ) (m : HashMap)
    → hash_map_create a b mutex_ok size ≡ some m
    → empty size ≡ m
unfolding hash_map_create
create-empty a b mutex_ok size m e = ground arith

pub empty-IsValid : (σ : Store) (size : ℕ) → 0 < size → IsValid σ (empty size)
empty-IsValid σ size h = record {
  positive = h;
  width = length-replicate size;
  chains = λ i. rw (get_or-replicate size i) tt;
  counted = total-replicate size;
  small = omega arith;
}

pub lookup-empty : (σ : Store) (size : ℕ) (q : Text) → lookup σ (empty size) q ≡ none
unfolding find_chain
lookup-empty σ size q = rw (get_or-replicate size (strtoul q % size)) refl

-- Where `hash_map_create` gets its memory and its mutexes, the table is valid and holds nothing.
pub hash_map_create-IsValid :
    (σ : Store) (a b : Bool) (mutex_ok : ℕ → Bool) (size : ℕ) (m : HashMap)
    → 0 < size
    → hash_map_create a b mutex_ok size ≡ some m
    → IsValid σ m
      × (m.current_elements ≡ 0)
      × ((q : Text) → hash_map_find σ nothing_held m q ≡ ok none)
hash_map_create-IsValid σ a b mutex_ok size m h e =
    subst
      (λ t.
        IsValid σ t
        × (t.current_elements ≡ 0)
        × ((q : Text) → hash_map_find σ nothing_held t q ≡ ok none))
      (create-empty a b mutex_ok size m e)
      (
        empty-IsValid σ size h,
        refl,
        λ q.
            hash_map_find-lookup σ (empty size) q (empty-IsValid σ size h)
            ∙ ap ok (lookup-empty σ size q),
      )
