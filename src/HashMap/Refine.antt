-- ===== src/HashMap/Refine.antt =====
-- What the table promises to its users: a directory of UIDs, whatever its buckets are.
use secure_chat.Prelude.{
  true, ℕ, ◌+◌, ◌<◌, ◌≤◌, ◌^◌, ◌≡◌, refl, Bool, Option, none, some, List, [], ◌∷◌, length,
  if◌then◌else◌, inl, inr, Bool-cases, Option-cases, Text, text_eq, Run, ok, ◌>>=◌, Returns, arith,
}
use secure_chat.Connection.{Ptr, Store}
use secure_chat.HashMap.{
  HashMap, nothing_held, fields_of, hash_map_create, hash_map_find, hash_map_insert, hash_map_erase,
}
use secure_chat.HashMap.Table.{IsValid, lookup, hash_map_create-IsValid}
use secure_chat.HashMap.Insert.{hash_map_insert-Inserted}
use secure_chat.HashMap.Erase.{hash_map_erase-Erased}

-- A call that changes the table: the insertion of a connection with this UID, or an erasure.
pub data Change : Type 0 where
  insert : Text → Ptr → Change
  erase : Text → Change

abbrev pub change : Store → Change → HashMap → Run HashMap
change σ (insert k cl) m = hash_map_insert true σ nothing_held m cl >>= λ r. ok r.0
change σ (erase k) m = hash_map_erase σ nothing_held m k

abbrev pub changes : Store → List Change → HashMap → Run HashMap
changes σ [] m = ok m
changes σ (c ∷ cs) m = change σ c m >>= changes σ cs

-- The directory knows no buckets: it tells the connection of every UID.
abbrev pub Directory : Type 0
Directory = Text → Option Ptr

abbrev pub changed : Change → Directory → Directory
changed (insert k cl) d q = if text_eq k q then some cl else d q
changed (erase k) d q = if text_eq k q then none else d q

abbrev pub directory : List Change → Directory → Directory
directory [] d = d
directory (c ∷ cs) d = directory cs (changed c d)

-- Every inserted connection has that UID, and a request.
abbrev pub AllNamed : Store → List Change → Type 0
AllNamed σ [] = Unit {0}
AllNamed σ (insert k cl ∷ cs) = (fields_of σ (some cl) ≡ some k) × AllNamed σ cs
AllNamed σ (erase k ∷ cs) = AllNamed σ cs

pub record Refines (σ : Store) (m : HashMap) (d : Directory) : Type 0 where
  pub valid : IsValid σ m
  pub finds : (q : Text) → hash_map_find σ nothing_held m q ≡ ok (d q)

insert-Refines :
    (σ : Store) (m : HashMap) (d : Directory) (k : Text) (cl : Ptr)
    → Refines σ m d
    → fields_of σ (some cl) ≡ some k
    → m.current_elements + 1 < 2 ^ 64
    → Returns (change σ (insert k cl) m) (λ m'.
      Refines σ m' (changed (insert k cl) d) × (m'.current_elements ≤ m.current_elements + 1))
insert-Refines σ m d k cl r named room =
    let ((m', code), run, out) = (hash_map_insert-Inserted σ m r.valid k cl named room).0 in
    (
      m',
      rw run refl,
      (
        record {
          valid = out.valid;
          finds = λ q. elim (Bool-cases (text_eq k q)) [
            | inl same ↦ rw (out.finds q) (rw same refl)
            | inr other ↦ rw (out.finds q) (rw other (r.finds q))
          ];
        },
        elim (Option-cases (lookup σ m k)) [
          | inl missing ↦ omega (arith, (rw missing at out.counted))
          | inr (p, there) ↦ omega (arith, (rw there at out.counted))
        ],
      ),
    )

erase-Refines :
    (σ : Store) (m : HashMap) (d : Directory) (k : Text)
    → Refines σ m d
    → Returns
        (change σ (erase k) m)
        (λ m'. Refines σ m' (changed (erase k) d) × (m'.current_elements ≤ m.current_elements))
erase-Refines σ m d k r =
    let (m', run, out) = hash_map_erase-Erased σ m r.valid k in
    (
      m',
      run,
      (
        record {
          valid = out.valid;
          finds = λ q. elim (Bool-cases (text_eq k q)) [
            | inl same ↦ rw (out.finds q) (rw same refl)
            | inr other ↦ rw (out.finds q) (rw other (r.finds q))
          ];
        },
        elim (Option-cases (lookup σ m k)) [
          | inl missing ↦ omega (arith, (rw missing at out.counted))
          | inr (p, there) ↦ omega (arith, (rw there at out.counted))
        ],
      ),
    )

changes-Refines :
    (σ : Store) (cs : List Change) (m : HashMap) (d : Directory)
    → Refines σ m d
    → AllNamed σ cs
    → m.current_elements + length cs < 2 ^ 64
    → Returns (changes σ cs m) (λ m'. Refines σ m' (directory cs d))
changes-Refines σ [] m d r named room = (m, refl, r)
changes-Refines σ (insert k cl ∷ cs) m d r (has, named) room =
    let (m1, run, (r1, count)) = insert-Refines σ m d k cl r has (omega arith) in
    let (m2, rest, r2) = changes-Refines σ cs m1 _ r1 named (omega arith) in (m2, rw run rest, r2)
changes-Refines σ (erase k ∷ cs) m d r named room =
    let (m1, run, (r1, count)) = erase-Refines σ m d k r in
    let (m2, rest, r2) = changes-Refines σ cs m1 _ r1 named (omega arith) in (m2, rw run rest, r2)

-- The table refines the directory: behind `hash_map_create` with any number of buckets, every sequence
-- of fewer than 2^64 insertions of connections with a UID and a request, and of erasures, returns, and
-- what `hash_map_find` then tells of any UID is what the directory holds, whatever the hashes are.
pub changes-directory :
    (σ : Store) (cs : List Change) (a b : Bool) (mutex_ok : ℕ → Bool) (size : ℕ) (m : HashMap)
    → 0 < size
    → hash_map_create a b mutex_ok size ≡ some m
    → AllNamed σ cs
    → length cs < 2 ^ 64
    → Returns
        (changes σ cs m)
        (λ m'. (q : Text) → hash_map_find σ nothing_held m' q ≡ ok (directory cs (λ u. none) q))
changes-directory σ cs a b mutex_ok size m some_bucket made named room =
    let (valid, zero_count, empty) =
      hash_map_create-IsValid σ a b mutex_ok size m some_bucket made in
    let start : Refines σ m (λ u. none) = record { valid = valid; finds = empty } in
    let (m', run, r) = changes-Refines σ cs m (λ u. none) start named (omega arith) in
    (m', run, r.finds)
