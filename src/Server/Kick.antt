-- ===== src/Server/Kick.antt =====
-- `kick_unresponsive` of server/src/server.c, which erases a client inside a walk through the table.
use secure_chat.Prelude.{
  if◌then◌else◌, get_or, subst, ◌++◌, Bool-cases, inl, inr, sym, ◌∙◌, suc, ◌+◌, ◌&&◌, ◌<◌, ◌≤◌,
  length, ℕ, ◌≡◌, refl, ◌%◌, Bool, true, false, ◌==◌, ◌||◌, none, some, List, [], ◌∷◌, Text, codes,
  Run, ok, fault, deadlock, arith,
}
use secure_chat.Connection.{Ptr, Store}
use secure_chat.HashMap.Chains.{IsChain, uid_of-fields_of}
use secure_chat.HashMap.Walk.{all_nodes}
use secure_chat.Server.Broadcast.{Reachable, enqueue-letter}
use secure_chat.HashMap.{
  uid_of, Held, HashMap, Chain, bucket_of, lock, open_bucket, hash_map_erase, iterate_chain,
  iterate_from, hash_map_iterate, nothing_held,
}
use secure_chat.HashMap.Strtoul.{strtoul}
use secure_chat.HashMap.Table.{home, IsValid}
use secure_chat.Protocol.{Message}
use secure_chat.Protocol.Create.{Env, uid_before_hash}
use secure_chat.Protocol.Hash.{get_hash}
use secure_chat.Protocol.Codes.{message_signal}
use secure_chat.Protocol.Wire.{Ssl}
use secure_chat.Server.{
  Server, send_quit_signal, erase_uid, kick_all_unresponsive, kick_unresponsive, when_ready,
}

-- Some node is a client that is ready and has a PING open.
abbrev pub any_unresponsive : Store → Chain → Bool
any_unresponsive σ [] = false
any_unresponsive σ (none ∷ c) = any_unresponsive σ c
any_unresponsive σ (some p ∷ c) =
    if (σ p).is_ready && (σ p).ping_sent then true else any_unresponsive σ c

module _ (env : Env) (ssl : Ssl) (fresh : Message) (uid : Text) (srv : Server ssl)
    (hash : get_hash env.evp (uid_before_hash env (codes "QUIT")) ≡ some uid)
    (fits : length uid ≤ 128) (positive : 0 < srv.client_map.hash_size) where
  abbrev verdict : Chain → Run (Server ssl)
  verdict c = if any_unresponsive srv.clients c then fault deadlock else ok srv

  erase-deadlock :
      (held : Held) (m : HashMap) (u : Text)
      → 0 < m.hash_size
      → held (strtoul u % m.hash_size) ≡ true
      → hash_map_erase srv.clients held m u ≡ fault deadlock
  unfolding hash_map_erase open_bucket bucket_of lock
  erase-deadlock held m u h e =
      let nonzero : (m.hash_size == 0) ≡ false = ground arith in rw nonzero (rw e refl)

  kick-deadlock :
      (held : Held) (p : Ptr) (u : Text)
      → ((srv.clients p).is_ready && (srv.clients p).ping_sent) ≡ true
      → (srv.clients p).uid ≡ some u
      → length u ≤ 129
      → held (home srv.client_map u) ≡ true
      → kick_unresponsive env ssl (some fresh) held (some p) srv ≡ fault deadlock
  unfolding kick_unresponsive send_quit_signal when_ready erase_uid
  kick-deadlock held p u both e h taken =
      let sent =
        enqueue-letter env ssl fresh message_signal (codes "QUIT") uid hash fits (omega arith)
          (omega arith) srv (srv.clients p).uid u e h in
      let dead = erase-deadlock held srv.client_map u positive taken in
      let ready : (srv.clients p).is_ready ≡ true = ground arith in
      rw both (rw ready (rw sent (rw (e, erase_uid) (rw dead refl))))

  kick-verdict :
      (held : Held) (i : ℕ) (p : Ptr) (c : Chain)
      → IsChain srv.clients srv.client_map.hash_size i (some p ∷ c)
      → Reachable srv.clients (some p ∷ c)
      → held i ≡ true
      → kick_unresponsive env ssl (some fresh) held (some p) srv ≡ verdict (some p ∷ [])
  unfolding kick_unresponsive uid_of
  kick-verdict held i p c ((u, f, at, once), is) ((q, w, e, has, h), hs) taken =
      elim (Bool-cases ((srv.clients p).is_ready && (srv.clients p).ping_sent)) [
        | inl both ↦
            let same : (srv.clients p).uid ≡ some w = ground arith in
            let twin : some u ≡ some w = sym (uid_of-fields_of srv.clients (some p) u f) ∙ same in
            let uw : u ≡ w = ground arith in
            let own : held (home srv.client_map w) ≡ true =
              subst (λ x. held (strtoul x % srv.client_map.hash_size) ≡ true) uw
                (subst (λ j. held j ≡ true) (sym at) taken) in
            rw (kick-deadlock held p w both same h own) (rw both refl)
        | inr quiet ↦ rw (quiet, kick_unresponsive) refl
      ]

  iterate_chain-verdict :
      (held : Held) (i : ℕ) (c : Chain)
      → IsChain srv.clients srv.client_map.hash_size i c
      → Reachable srv.clients c
      → held i ≡ true
      → iterate_chain (kick_unresponsive env ssl (some fresh)) held c srv ≡ verdict c
  unfolding iterate_chain
  iterate_chain-verdict held i [] is hs taken = refl
  iterate_chain-verdict held i (none ∷ c) is ((q, w, e, has, h), hs) taken = absurd (ground arith)
  iterate_chain-verdict held i (some p ∷ c) is hs taken =
      let here = kick-verdict held i p c is hs taken in
      let rest = iterate_chain-verdict held i c is.1 hs.1 taken in
      elim (Bool-cases ((srv.clients p).is_ready && (srv.clients p).ping_sent)) [
        | inl both ↦ rw here (rw both refl)
        | inr quiet ↦ rw here (rw quiet rest)
      ]

  any-append :
      (c d : Chain)
      → any_unresponsive srv.clients (c ++ d)
        ≡ (if any_unresponsive srv.clients c then true else any_unresponsive srv.clients d)
  any-append [] d = refl
  any-append (none ∷ c) d = any-append c d
  any-append (some p ∷ c) d = ground (arith, any-append c d)

  Reachable-append :
      (c d : Chain)
      → Reachable srv.clients (c ++ d)
      → Reachable srv.clients c × Reachable srv.clients d
  Reachable-append [] d h = (tt, h)
  Reachable-append (n ∷ c) d (here, hs) = let (l, r) = Reachable-append c d hs in ((here, l), r)

  move :
      (i j : ℕ) (c : Chain)
      → i ≡ j
      → IsChain srv.clients srv.client_map.hash_size i c
      → IsChain srv.clients srv.client_map.hash_size j c
  move i j c e is = subst (λ k. IsChain srv.clients srv.client_map.hash_size k c) e is

  iterate_from-verdict :
      (i : ℕ) (cs : List Chain)
      → ((j : ℕ) → IsChain srv.clients srv.client_map.hash_size (i + j) (get_or cs j []))
      → Reachable srv.clients (all_nodes cs)
      → iterate_from (kick_unresponsive env ssl (some fresh)) nothing_held i cs srv
        ≡ verdict (all_nodes cs)
  unfolding iterate_from lock
  iterate_from-verdict i [] is hs = refl
  iterate_from-verdict i (c ∷ cs) is hs =
      let (h, rest) = Reachable-append c (all_nodes cs) hs in
      let here =
        iterate_chain-verdict (λ j. nothing_held j || j == i) i c
          (move (i + 0) i c (omega arith) (is 0)) h (ground arith) in
      let next =
        iterate_from-verdict (suc i) cs
          (λ j. move (i + suc j) (suc i + j) (get_or cs j []) (omega arith) (is (suc j))) rest in
      elim (Bool-cases (any_unresponsive srv.clients c)) [
        | inl yes_some ↦ rw here (rw (any-append c (all_nodes cs)) (rw yes_some refl))
        | inr no_one ↦ rw here (rw (any-append c (all_nodes cs)) (rw no_one next))
      ]

-- The walk that should kick the clients that left a PING open stops for ever at the first of them: it
-- waits for the mutex of the bucket that it holds. Without such a client it changes nothing. The table
-- is valid, the hash is there and each client has a UID that passes the length test.
pub kick_all_unresponsive-deadlock :
    (env : Env) (ssl : Ssl) (fresh : Message) (uid : Text) (srv : Server ssl)
    → get_hash env.evp (uid_before_hash env (codes "QUIT")) ≡ some uid
    → length uid ≤ 128
    → IsValid srv.clients srv.client_map
    → Reachable srv.clients (all_nodes srv.client_map.hash_table)
    → kick_all_unresponsive env ssl (some fresh) srv ≡ (
        if any_unresponsive srv.clients (all_nodes srv.client_map.hash_table)
        then fault deadlock
        else ok srv)
unfolding kick_all_unresponsive hash_map_iterate
kick_all_unresponsive-deadlock env ssl fresh uid srv hash fits v h =
    iterate_from-verdict env ssl fresh uid srv hash fits v.positive 0 srv.client_map.hash_table
      (λ j.
        move env ssl fresh uid srv hash fits v.positive j (0 + j)
          (get_or srv.client_map.hash_table j []) (omega arith) (v.chains j))
      h
