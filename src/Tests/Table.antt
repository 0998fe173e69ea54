-- ===== src/Tests/Table.antt =====
-- Examples of the theorems on the table.
use secure_chat.Prelude.{
  ◌+◌, Run, ℕ, false, fault, null_pointer, List, ◌≡◌, refl, ◌∷◌, [], true, none, some, Text, codes,
  ok, Returns, arith,
}
use secure_chat.HashMap.{
  nothing_held, fields_of, hash_map_create, hash_map_find, hash_map_insert, hash_map_erase,
}
use secure_chat.HashMap.Refine.{
  Change, insert, erase, changes, AllNamed, directory, changes-directory,
}
use secure_chat.HashMap.Table.{empty, lookup}
use secure_chat.HashMap.Insert.{Inserted, hash_map_insert-Inserted}
use secure_chat.HashMap.Erase.{Erased, hash_map_erase-Erased}
use secure_chat.HashMap.{Node, hash_map_iterate}
use secure_chat.HashMap.Walk.{run_over, hash_map_iterate-run_over}
use secure_chat.Tests.{test_store, two_clients, two_clients-IsValid}

seventh : fields_of test_store (some 3) ≡ some (codes "7")
unfolding fields_of
seventh = refl

hash_map_insert-Inserted_example :
    Returns
      (hash_map_insert true test_store nothing_held two_clients 3)
      (Inserted test_store two_clients (codes "7") 3)
    × (hash_map_insert false test_store nothing_held two_clients 3
        ≡ elim (lookup test_store two_clients (codes "7")) [
          | none ↦ fault null_pointer
          | some p ↦ hash_map_insert true test_store nothing_held two_clients 3
        ])
hash_map_insert-Inserted_example =
    hash_map_insert-Inserted test_store two_clients two_clients-IsValid (codes "7") 3 seventh
      (omega arith)

hash_map_erase-Erased_example :
    Returns
      (hash_map_erase test_store nothing_held two_clients (codes "2"))
      (Erased test_store two_clients (codes "2"))
hash_map_erase-Erased_example =
    hash_map_erase-Erased test_store two_clients two_clients-IsValid (codes "2")

created : hash_map_create true true (λ i. true) 4 ≡ some (empty 4)
unfolding hash_map_create
created = refl

abbrev some_changes : List Change
some_changes = insert (codes "1") 1 ∷ insert (codes "2") 2 ∷ erase (codes "1") ∷ []

some_changes-AllNamed : AllNamed test_store some_changes
unfolding fields_of
some_changes-AllNamed = (refl, (refl, tt))

changes-directory_example : Returns (changes test_store some_changes (empty 4)) (λ m.
    (q : Text)
    → hash_map_find test_store nothing_held m q ≡ ok (directory some_changes (λ u. none) q))
changes-directory_example =
    changes-directory test_store some_changes true true (λ i. true) 4 (empty 4) (omega arith)
      created some_changes-AllNamed (omega arith)

-- A callback that counts the nodes.
abbrev count : Node → ℕ → Run ℕ
count n s = ok (s + 1)

hash_map_iterate-run_over_example :
    hash_map_iterate (λ held. count) nothing_held two_clients 0
    ≡ run_over count (some 1 ∷ some 2 ∷ []) 0
hash_map_iterate-run_over_example = hash_map_iterate-run_over count two_clients 0
