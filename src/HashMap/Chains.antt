-- ===== src/HashMap/Chains.antt =====
-- One bucket: what the walks of common/src/hash_map.c do to its list.
use secure_chat.Prelude.{
  ℕ, ◌+◌, ◌%◌, ◌≡◌, refl, true, false, none, some, [], ◌∷◌, inl, inr, Bool-cases, if◌then◌else◌,
  arith, Text, text_eq, text_eq_sound, text_eq_iff, length, Returns,
}
use secure_chat.Connection.{Ptr, Store}
use secure_chat.HashMap.Strtoul.{strtoul}
use secure_chat.HashMap.{Node, Chain, uid_of, fields_of, find_chain, insert_chain, erase_chain}

-- Every node has a connection with a UID of this bucket and a request, and no UID stands twice.
abbrev pub IsChain : Store → ℕ → ℕ → Chain → Type 0
IsChain σ size i [] = Unit {0}
IsChain σ size i (n ∷ c) =
    ((u : Text) × (fields_of σ n ≡ some u) × (strtoul u % size ≡ i) × (find_chain σ u c ≡ none))
    × IsChain σ size i c

pub uid_of-fields_of :
    (σ : Store) (n : Node) (u : Text) → fields_of σ n ≡ some u → uid_of σ n ≡ some u
unfolding uid_of fields_of
uid_of-fields_of σ none u h = cc
uid_of-fields_of σ (some p) u h = ground arith

module _ (σ : Store) (size i : ℕ) where
  -- Behind an insertion every UID is looked up as before, but for the inserted one.
  pub find_chain-insert_chain :
      (k q : Text) (cl : Ptr) (c : Chain)
      → fields_of σ (some cl) ≡ some k
      → IsChain σ size i c
      → find_chain σ q (insert_chain σ k cl c).0
        ≡ (if text_eq k q then some cl else find_chain σ q c)
  unfolding find_chain insert_chain
  find_chain-insert_chain k q cl [] h v = rw (h, find_chain) (ground arith)
  find_chain-insert_chain k q cl (n ∷ c) h ((u, e, at, fresh), v) =
      let ih = find_chain-insert_chain k q cl c h v in
      let e' = uid_of-fields_of σ n u e in
      ground (arith, text_eq_iff u k, text_eq_iff u q, text_eq_iff k q)

  -- The code is 1 and the list grows by one node exactly where the UID was not found.
  pub insert_chain-code :
      (k : Text) (cl : Ptr) (c : Chain)
      → IsChain σ size i c
      → ((insert_chain σ k cl c).1 ≡ elim (find_chain σ k c) [ none ↦ 1 | some p ↦ 2 ])
        × (length (insert_chain σ k cl c).0
            ≡ length c + elim (find_chain σ k c) [ none ↦ 1 | some p ↦ 0 ])
  unfolding find_chain insert_chain fields_of
  insert_chain-code k cl [] v = (refl, refl)
  insert_chain-code k cl (none ∷ c) ((u, e, at, fresh), v) = cc
  insert_chain-code k cl (some p ∷ c) ((u, e, at, fresh), v) =
      let ih = insert_chain-code k cl c v in
      let e' = uid_of-fields_of σ (some p) u e in ground arith

  pub insert_chain-IsChain :
      (k : Text) (cl : Ptr) (c : Chain)
      → fields_of σ (some cl) ≡ some k
      → strtoul k % size ≡ i
      → IsChain σ size i c
      → IsChain σ size i (insert_chain σ k cl c).0
  unfolding insert_chain find_chain
  insert_chain-IsChain k cl [] h at v = ((k, h, at, refl), tt)
  insert_chain-IsChain k cl (n ∷ c) h at ((u, e, at', fresh), v) =
      let e' = uid_of-fields_of σ n u e in
      let ih = insert_chain-IsChain k cl c h at v in
      let kept = find_chain-insert_chain k u cl c h v in
      elim (Bool-cases (text_eq u k)) [
        | inl same ↦
            rw (e', insert_chain, same) ((k, h, at, rw (← text_eq_sound u k same) fresh), v)
        | inr other ↦
            rw (e', insert_chain, other)
              ((u, e, at', ground (arith, text_eq_iff u k, text_eq_iff k u)), ih)
      ]

  -- Behind an erasure the UID is gone, and every other one is looked up as before.
  pub erase_chain-Returns :
      (k : Text) (c : Chain)
      → IsChain σ size i c
      → Returns (erase_chain σ k c) λ r.
        IsChain σ size i r.0
        × ((q : Text) → find_chain σ q r.0 ≡ (if text_eq k q then none else find_chain σ q c))
        × (length c ≡ length r.0 + (if r.1 then 1 else 0))
        × (r.1 ≡ elim (find_chain σ k c) [ none ↦ false | some p ↦ true ])
  unfolding erase_chain find_chain fields_of
  erase_chain-Returns k [] v = (([], false), refl, (tt, λ q. ground arith, refl, refl))
  erase_chain-Returns k (none ∷ c) ((u, e, at, fresh), v) = cc
  erase_chain-Returns k (some p ∷ c) ((u, e, at, fresh), v) =
      let e' = uid_of-fields_of σ (some p) u e in
      elim (Bool-cases (text_eq u k)) [
        | inl same ↦
            let eq = text_eq_sound u k same in
            (
              (c, true),
              rw (e', erase_chain, same) refl,
              (v, λ q. ground (arith, text_eq_iff u q, text_eq_iff k q), omega arith, ground arith),
            )
        | inr other ↦
            let (r, run, (v', look, size', flag)) = erase_chain-Returns k c v in
            (
              (some p ∷ r.0, r.1),
              rw (e', erase_chain, other, run) refl,
              (
                ((u, e, at, rw (look u) (ground (arith, text_eq_iff u k, text_eq_iff k u))), v'),
                λ q. ground (arith, look q, text_eq_iff u q, text_eq_iff k q, text_eq_iff u k),
                omega arith,
                ground arith,
              ),
            )
      ]
