-- ===== src/HashMap/Insert.antt =====
-- `hash_map_insert` on the whole table.
use secure_chat.Prelude.{
  true, false, ℕ, ◌+◌, ◌^◌, ◌<◌, ◌≡◌, refl, none, some, ◌==◌, if◌then◌else◌, arith, Text, text_eq,
  ok, fault, null_pointer, Option-cases, inl, inr, Returns,
}
use secure_chat.Connection.{Ptr, Store}
use secure_chat.HashMap.{
  Chain, HashMap, nothing_held, uid_of, fields_of, insert_chain, hash_map_find, hash_map_insert,
  increment,
}
use secure_chat.HashMap.Chains.{
  uid_of-fields_of, find_chain-insert_chain, insert_chain-code, insert_chain-IsChain,
}
use secure_chat.HashMap.Table.{IsValid, home, chain_of, lookup, open_bucket-ok}
use secure_chat.HashMap.Buckets.{replaced, replaced-IsValid, hash_map_find-replaced}

-- What an insertion of the UID `k` does, seen through `hash_map_find`.
pub record Inserted (σ : Store) (m : HashMap) (k : Text) (cl : Ptr) (r : HashMap × ℕ) : Type 0 where
  pub valid : IsValid σ r.0
  pub code : r.1 ≡ elim (lookup σ m k) [ none ↦ 1 | some p ↦ 2 ]
  pub counted :
      r.0.current_elements ≡ m.current_elements + elim (lookup σ m k) [ none ↦ 1 | some p ↦ 0 ]
  pub finds :
      (q : Text)
      → hash_map_find σ nothing_held r.0 q
        ≡ (if text_eq k q then ok (some cl) else hash_map_find σ nothing_held m q)

module _ (σ : Store) (m : HashMap) (v : IsValid σ m) (k : Text) (cl : Ptr)
    (f : fields_of σ (some cl) ≡ some k) (room : m.current_elements + 1 < 2 ^ 64) where
  abbrev new_chain : Chain × ℕ
  new_chain = insert_chain σ k cl (chain_of m k)

  abbrev new_count : ℕ
  new_count = if new_chain.1 == 1 then increment m.current_elements else m.current_elements

  insert-run :
      hash_map_insert true σ nothing_held m cl
      ≡ ok (replaced m (home m k) new_chain.0 new_count, new_chain.1)
  unfolding hash_map_insert
  insert-run =
      let u : (σ cl).uid ≡ some k = unfold uid_of in uid_of-fields_of σ (some cl) k f in
      rw (u, hash_map_insert) (rw (open_bucket-ok σ m k v) refl)

  new_count-eq : new_count ≡ m.current_elements + elim (lookup σ m k) [ none ↦ 1 | some p ↦ 0 ]
  new_count-eq =
      let (code, size) =
        insert_chain-code σ m.hash_size (home m k) k cl (chain_of m k) (v.chains (home m k)) in
      ground arith

  insert-Inserted : Returns (hash_map_insert true σ nothing_held m cl) (Inserted σ m k cl)
  insert-Inserted =
      let chain = v.chains (home m k) in
      let (code, size) = insert_chain-code σ m.hash_size (home m k) k cl (chain_of m k) chain in
      let good = insert_chain-IsChain σ m.hash_size (home m k) k cl (chain_of m k) f refl chain in
      let count = new_count-eq in
      let valid =
        replaced-IsValid σ m v k new_chain.0 new_count good (omega arith) (ground arith) in
      (
        (replaced m (home m k) new_chain.0 new_count, new_chain.1),
        insert-run,
        record {
          valid = valid;
          code = code;
          counted = count;
          finds = λ q.
              let look =
                find_chain-insert_chain σ m.hash_size (home m k) k q cl (chain_of m k) f chain in
              hash_map_find-replaced σ m v k new_chain.0 new_count (some cl) q valid look;
        },
      )

  -- Without memory for a node.
  insert-unallocated : hash_map_insert false σ nothing_held m cl ≡ elim (lookup σ m k) [
    | none ↦ fault null_pointer
    | some p ↦ hash_map_insert true σ nothing_held m cl
  ]
  unfolding hash_map_insert
  insert-unallocated =
      let u : (σ cl).uid ≡ some k = unfold uid_of in uid_of-fields_of σ (some cl) k f in
      let (code, size) =
        insert_chain-code σ m.hash_size (home m k) k cl (chain_of m k) (v.chains (home m k)) in
      elim (Option-cases (lookup σ m k)) [
        | inl new ↦
            let one : new_chain.1 ≡ 1 = ground arith in
            rw new (rw (u, hash_map_insert) (rw (open_bucket-ok σ m k v) (rw one refl)))
        | inr (p, old) ↦
            let two : new_chain.1 ≡ 2 = ground arith in
            rw old (rw (u, hash_map_insert) (rw (open_bucket-ok σ m k v) (rw two refl)))
      ]

  -- On a valid table the insertion of a connection with a UID and a request, where there is memory for a
  -- node, does not fault; it tells a new UID from one that was there, counts only a new one, and changes
  -- what is found under that UID alone. Without that memory a new UID makes it write through NULL, and one
  -- that was there is overwritten as before.
  pub hash_map_insert-Inserted :
      Returns (hash_map_insert true σ nothing_held m cl) (Inserted σ m k cl)
      × (hash_map_insert false σ nothing_held m cl ≡ elim (lookup σ m k) [
        | none ↦ fault null_pointer
        | some p ↦ hash_map_insert true σ nothing_held m cl
      ])
  hash_map_insert-Inserted = (insert-Inserted, insert-unallocated)
