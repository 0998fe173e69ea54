-- ===== src/HashMap/Buckets.antt =====
-- A table in which one bucket is replaced, as insertions and erasures do.
use secure_chat.Prelude.{
  ℕ, ◌+◌, ◌^◌, ◌<◌, ◌≡◌, ◌∙◌, Option, [], ◌==◌, inl, inr, Bool-cases, if◌then◌else◌, arith, Text,
  text_eq, text_eq_sound, length, length-set, get_or, set, get_or-set_self, get_or-set_ne, ==_iff,
  ap, sym, refl, ok,
}
use secure_chat.Connection.{Ptr, Store}
use secure_chat.HashMap.{Chain, HashMap, nothing_held, find_chain, hash_map_find}
use secure_chat.HashMap.Chains.{IsChain}
use secure_chat.HashMap.Table.{
  IsValid, home, chain_of, lookup, home-lt, total-set, hash_map_find-lookup,
}

-- A write of one bucket, with the number of nodes that it leaves.
abbrev pub replaced : HashMap → ℕ → Chain → ℕ → HashMap
replaced m i c count = record m { hash_table = set m.hash_table i c; current_elements = count }

module _ (σ : Store) (m : HashMap) (v : IsValid σ m) (k : Text) (c : Chain) where
  replaced-IsChain :
      IsChain σ m.hash_size (home m k) c
      → (i : ℕ) → IsChain σ m.hash_size i (get_or (set m.hash_table (home m k) c) i [])
  replaced-IsChain good i = elim (Bool-cases (home m k == i)) [
    | inl same ↦
        let e = (==_iff (home m k) i).0 same in
        rw (← e) (rw (get_or-set_self m.hash_table (home m k) c [] (home-lt σ m k v)) good)
    | inr other ↦ rw (get_or-set_ne m.hash_table (home m k) i c [] (ground arith)) (v.chains i)
  ]

  -- A bucket that is replaced by a well formed one of the right length keeps the table valid.
  pub replaced-IsValid :
      (count : ℕ)
      → IsChain σ m.hash_size (home m k) c
      → count + length (chain_of m k) ≡ m.current_elements + length c
      → count < 2 ^ 64
      → IsValid σ (replaced m (home m k) c count)
  replaced-IsValid count good size small =
      let lt = home-lt σ m k v in
      record {
        positive = v.positive;
        width = length-set m.hash_table (home m k) c ∙ v.width;
        chains = replaced-IsChain good;
        counted = omega (arith, total-set m.hash_table (home m k) c lt, v.counted);
        small = small;
      }

  -- A UID is looked up as before, but for `k`, if the new list says so of its bucket.
  lookup-replaced :
      (count : ℕ) (found : Option Ptr) (q : Text)
      → (find_chain σ q c ≡ (if text_eq k q then found else find_chain σ q (chain_of m k)))
      → lookup σ (replaced m (home m k) c count) q ≡ (if text_eq k q then found else lookup σ m q)
  lookup-replaced count found q look = elim (Bool-cases (home m k == home m q)) [
    | inl same ↦
        let e = (==_iff (home m k) (home m q)).0 same in
        rw (← e) (rw (get_or-set_self m.hash_table (home m k) c [] (home-lt σ m k v)) look)
    | inr other ↦
        rw (get_or-set_ne m.hash_table (home m k) (home m q) c [] (ground arith))
          (elim (Bool-cases (text_eq k q)) [
            | inl twin ↦
                let e : home m k ≡ home m q = ap (home m) (text_eq_sound k q twin) in
                absurd (ground arith)
            | inr differ ↦ rw differ refl
          ])
  ]

  -- The same, seen through `hash_map_find`.
  pub hash_map_find-replaced :
      (count : ℕ) (found : Option Ptr) (q : Text)
      → IsValid σ (replaced m (home m k) c count)
      → (find_chain σ q c ≡ (if text_eq k q then found else find_chain σ q (chain_of m k)))
      → hash_map_find σ nothing_held (replaced m (home m k) c count) q
        ≡ (if text_eq k q then ok found else hash_map_find σ nothing_held m q)
  hash_map_find-replaced count found q valid look =
      let before = hash_map_find-lookup σ m q v in
      let after = hash_map_find-lookup σ (replaced m (home m k) c count) q valid in
      let same = lookup-replaced count found q look in
      elim (Bool-cases (text_eq k q)) [
        | inl twin ↦ rw twin (rw twin at (after ∙ ap ok same))
        | inr differ ↦ rw differ ((rw differ at (after ∙ ap ok same)) ∙ sym before)
      ]
