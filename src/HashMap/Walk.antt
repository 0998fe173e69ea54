-- ===== src/HashMap/Walk.antt =====
-- `hash_map_iterate`: which nodes a callback sees, and with which mutexes held.
use secure_chat.Prelude.{ℕ, suc, ◌≡◌, refl, List, [], ◌∷◌, ◌++◌, Run, ok, ◌>>=◌, >>=_assoc}
use secure_chat.HashMap.{
  Node, Chain, HashMap, Held, nothing_held, lock, iterate_chain, iterate_from, hash_map_iterate,
}

-- A walk that hands every node to `step`, from left to right.
abbrev pub run_over : {S : Type 0} → (Node → S → Run S) → Chain → S → Run S
run_over step [] s = ok s
run_over step (n ∷ c) s = step n s >>= run_over step c

abbrev pub all_nodes : List Chain → Chain
all_nodes [] = []
all_nodes (c ∷ cs) = c ++ all_nodes cs

module _ {S : Type 0} (step : Node → S → Run S) where
  abbrev callback : Held → Node → S → Run S
  callback held = step

  iterate_chain-run_over :
      (held : Held) (c : Chain) (s : S) → iterate_chain callback held c s ≡ run_over step c s
  unfolding iterate_chain
  iterate_chain-run_over held [] s = refl
  iterate_chain-run_over held (n ∷ c) s = refl

  run_over-append :
      (a b : Chain) (s : S) → run_over step (a ++ b) s ≡ run_over step a s >>= run_over step b
  run_over-append [] b s = refl
  run_over-append (n ∷ a) b s = simp (>>=_assoc, run_over-append a b)

  iterate_from-run_over :
      (i : ℕ) (cs : List Chain) (s : S)
      → iterate_from callback nothing_held i cs s ≡ run_over step (all_nodes cs) s
  unfolding iterate_from lock
  iterate_from-run_over i [] s = refl
  iterate_from-run_over i (c ∷ cs) s =
      simp
        (iterate_chain-run_over, iterate_from-run_over (suc i) cs, run_over-append c (all_nodes cs))

  -- A callback that takes no mutex is handed every node of the table once, bucket after bucket.
  pub hash_map_iterate-run_over :
      (m : HashMap) (s : S)
      → hash_map_iterate callback nothing_held m s ≡ run_over step (all_nodes m.hash_table) s
  unfolding hash_map_iterate
  hash_map_iterate-run_over m s = iterate_from-run_over 0 m.hash_table s
