-- ===== src/HashMap/Erase.antt =====
-- `hash_map_erase` and `hash_map_clear` on the whole table.
use secure_chat.Prelude.{
  ℕ, zero, suc, ◌+◌, ◌≤◌, ◌≡◌, ◌≢◌, refl, ◌∙◌, ap, true, false, none, some, List, [], ◌∷◌, inl, inr,
  Bool-cases, Option-cases, if◌then◌else◌, arith, Text, text_eq, text_eq_sound, text_eq_refl,
  length, get_or, ok, Returns,
}
use secure_chat.Connection.{Store}
use secure_chat.HashMap.{
  Chain, HashMap, nothing_held, find_chain, hash_map_find, hash_map_erase, hash_map_clear,
  decrement, open_bucket,
}
use secure_chat.HashMap.Chains.{IsChain, erase_chain-Returns}
use secure_chat.HashMap.Table.{
  total, IsValid, home, chain_of, lookup, open_bucket-ok, hash_map_find-lookup, lookup-empty, empty,
  empty-IsValid,
}
use secure_chat.HashMap.Buckets.{replaced, replaced-IsValid, hash_map_find-replaced}

-- What an erasure of the UID `k` does, seen through `hash_map_find`.
pub record Erased (σ : Store) (m : HashMap) (k : Text) (m' : HashMap) : Type 0 where
  pub valid : IsValid σ m'
  pub counted :
      m.current_elements ≡ m'.current_elements + elim (lookup σ m k) [ none ↦ 0 | some p ↦ 1 ]
  pub finds :
      (q : Text)
      → hash_map_find σ nothing_held m' q
        ≡ (if text_eq k q then ok none else hash_map_find σ nothing_held m q)

total-get_or : (t : List Chain) (i : ℕ) → length (get_or t i []) ≤ total t
total-get_or [] i = omega arith
total-get_or (c ∷ t) zero = omega arith
total-get_or (c ∷ t) (suc i) = omega (arith, total-get_or t i)

module _ (σ : Store) (m : HashMap) (v : IsValid σ m) (k : Text) where
  -- A node was found: the table with the shorter bucket.
  found-Erased :
      (c : Chain)
      → IsChain σ m.hash_size (home m k) c
      → ((q : Text)
          → find_chain σ q c ≡ (if text_eq k q then none else find_chain σ q (chain_of m k)))
      → length (chain_of m k) ≡ length c + 1
      → (lookup σ m k ≢ none)
      → Erased σ m k (replaced m (home m k) c (decrement m.current_elements))
  found-Erased c good look size some_found =
      let fewer = total-get_or m.hash_table (home m k) in
      let n = v.counted in
      let s = v.small in
      let one_less : decrement m.current_elements + 1 ≡ m.current_elements = omega arith in
      let valid =
        replaced-IsValid σ m v k c (decrement m.current_elements) good (omega arith)
          (omega arith) in
      record {
        valid = valid;
        counted = elim (Option-cases (lookup σ m k)) [
          | inl e ↦ absurd (some_found e)
          | inr (p, e) ↦ rw e (omega arith)
        ];
        finds = λ q.
            hash_map_find-replaced σ m v k c (decrement m.current_elements) none q valid (look q);
      }

  missing-Erased : (lookup σ m k ≡ none) → Erased σ m k m
  missing-Erased e = record {
    valid = v;
    counted = rw e (omega arith);
    finds = λ q. elim (Bool-cases (text_eq k q)) [
      | inl twin ↦
          rw (← text_eq_sound k q twin)
            (rw (text_eq_refl k) (hash_map_find-lookup σ m k v ∙ ap ok e))
      | inr differ ↦ rw differ refl
    ];
  }

  -- On a valid table an erasure does not fault; it removes what is found under the UID, and
  -- nothing else, and counts it.
  pub hash_map_erase-Erased : Returns (hash_map_erase σ nothing_held m k) (Erased σ m k)
  unfolding hash_map_erase
  hash_map_erase-Erased =
      let ((c, flag), run, (good, look, size, told)) =
        erase_chain-Returns σ m.hash_size (home m k) k (chain_of m k) (v.chains (home m k)) in
      elim (Option-cases (lookup σ m k)) [
        | inl e ↦
            let no_flag : flag ≡ false = (rw e at told) in
            (m, rw (open_bucket-ok σ m k v) (rw run (rw no_flag refl)), missing-Erased e)
        | inr (p, e) ↦
            let flagged : flag ≡ true = (rw e at told) in
            (
              replaced m (home m k) c (decrement m.current_elements),
              rw (open_bucket-ok σ m k v) (rw run (rw flagged refl)),
              found-Erased c good look (rw flagged at size) (λ h. cc),
            )
      ]

-- Clearing empties every bucket, but the count of the elements stays as it was.
pub hash_map_clear-stale :
    (σ : Store) (m : HashMap)
    → IsValid σ m
    → ((q : Text) → hash_map_find σ nothing_held (hash_map_clear m).0 q ≡ ok none)
      × ((hash_map_clear m).0.current_elements ≡ m.current_elements)
unfolding hash_map_clear hash_map_find open_bucket
hash_map_clear-stale σ m v = (
  λ q.
      hash_map_find-lookup σ (empty m.hash_size) q (empty-IsValid σ m.hash_size v.positive)
      ∙ ap ok (lookup-empty σ m.hash_size q),
  refl,
)
