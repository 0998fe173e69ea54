-- ===== src/Server/Broadcast.antt =====
-- The walks of server/src/server.c that put one message for every ready client in the queue.
use secure_chat.Prelude.{
  ◌≡◌, ◌≤◌, ◌<◌, refl, ap, ◌∙◌, Option, none, some, List, [], ◌∷◌, ◌++◌, inl, inr, Bool-cases,
  if◌then◌else◌, Text, codes, length, Run, ok, arith,
}
use mathlib.Core.List.{append-nil, append_assoc}
use secure_chat.Connection.{Ptr, Store}
use secure_chat.HashMap.{Node, Chain, nothing_held, hash_map_iterate}
use secure_chat.HashMap.Walk.{run_over, all_nodes, hash_map_iterate-run_over}
use secure_chat.Protocol.{Message}
use secure_chat.Protocol.Number.{ℤ}
use secure_chat.Protocol.Codes.{message_text, message_signal, message_ping}
use secure_chat.Protocol.Hash.{get_hash}
use secure_chat.Protocol.Create.{Env, uid_before_hash}
use secure_chat.Protocol.Create.Bounds.{built, create_message-built}
use secure_chat.Protocol.Wire.{Ssl}
use secure_chat.Server.{
  Server, server_name, enqueue, when_ready, send_broadcast, broadcast, srv_kick_all,
  send_quit_signal, ping_all, send_ping,
}

-- Every node has a connection, whose UID is there and passes the length test.
abbrev pub Reachable : Store → Chain → Type 0
Reachable σ [] = Unit
Reachable σ (n ∷ c) =
    ((p : Ptr) × (u : Text) × (n ≡ some p) × ((σ p).uid ≡ some u) × (length u ≤ 129))
    × Reachable σ c

abbrev pub uid_or_empty : Option Text → Text
uid_or_empty none = []
uid_or_empty (some u) = u

-- The messages for the ready ones, in the order of the walk.
abbrev pub letters : Store → Chain → (Text → Message) → List Message
letters σ [] letter = []
letters σ (none ∷ c) letter = letters σ c letter
letters σ (some p ∷ c) letter =
    if (σ p).is_ready
    then letter (uid_or_empty (σ p).uid) ∷ letters σ c letter
    else letters σ c letter

module _ (env : Env) (ssl : Ssl) (fresh : Message) (type : ℤ) (payload uid : Text)
    (hash : get_hash env.evp (uid_before_hash env payload) ≡ some uid) (fits : length uid ≤ 128)
    (some_payload : 0 < length payload) (short_payload : length payload < 2048) where
  abbrev pub letter : Text → Message
  letter u = built uid type server_name u payload

  abbrev step : Node → Server ssl → Run (Server ssl)
  step = when_ready env ssl (some fresh) (λ cl. enqueue env ssl (some fresh) type cl.uid payload)

  pub enqueue-letter :
      (srv : Server ssl) (v : Option Text) (u : Text)
      → v ≡ some u
      → length u ≤ 129
      → enqueue env ssl (some fresh) type v payload srv
        ≡ ok (record srv { message_queue = srv.message_queue ++ (letter u ∷ []) })
  unfolding enqueue
  enqueue-letter srv v u e h =
      let made =
        create_message-built env fresh type server_name u payload uid hash fits (omega arith) h
          some_payload short_payload in
      rw e (rw made refl)

  run_over-letters :
      (c : Chain) (srv : Server ssl)
      → Reachable srv.clients c
      → run_over step c srv
        ≡ ok (record srv { message_queue = srv.message_queue ++ letters srv.clients c letter })
  unfolding when_ready
  run_over-letters [] srv h = rw (append-nil srv.message_queue) refl
  run_over-letters (none ∷ c) srv ((p, u, e, h, l), hs) = absurd (ground arith)
  run_over-letters (some q ∷ c) srv ((p, u, e, h, l), hs) =
      let has : (srv.clients q).uid ≡ some u = ground arith in
      elim (Bool-cases (srv.clients q).is_ready) [
        | inl ready ↦
            let sent = enqueue-letter srv (srv.clients q).uid u has l in
            let srv' : Server ssl = record srv {
              message_queue = srv.message_queue ++ (letter u ∷ []);
            } in
            let rest = run_over-letters c srv' hs in
            let joined =
              append_assoc srv.message_queue (letter u ∷ []) (letters srv.clients c letter) in
            simp (ready, sent, rest, joined, ap uid_or_empty has)
        | inr busy ↦ simp (busy, run_over-letters c srv hs)
      ]

  -- The walk of a callback that sends this text puts its message for every ready client of the table,
  -- in the order of the table, at the end of the queue, and changes nothing else.
  iterate-letters :
      (srv : Server ssl)
      → Reachable srv.clients (all_nodes srv.client_map.hash_table)
      → hash_map_iterate (λ held. step) nothing_held srv.client_map srv
        ≡ ok (record srv {
          message_queue =
              srv.message_queue ++ letters srv.clients (all_nodes srv.client_map.hash_table) letter;
        })
  iterate-letters srv h =
      hash_map_iterate-run_over step srv.client_map srv
      ∙ run_over-letters (all_nodes srv.client_map.hash_table) srv h

-- `srv_broadcast` puts the text, from "server", for every ready client of the table at the end of the
-- queue, in the order of the table, where the hash is there, each client has a UID that passes the
-- length test and the text has 1 to 2047 bytes. Nothing else of the server changes.
pub broadcast-letters :
    (env : Env) (ssl : Ssl) (fresh : Message) (payload uid : Text) (srv : Server ssl)
    → get_hash env.evp (uid_before_hash env payload) ≡ some uid
    → length uid ≤ 128
    → 0 < length payload
    → length payload < 2048
    → Reachable srv.clients (all_nodes srv.client_map.hash_table)
    → broadcast env ssl (some fresh) payload srv
      ≡ ok (record srv {
        message_queue =
            srv.message_queue
            ++ letters srv.clients
                (all_nodes srv.client_map.hash_table)
                (λ u. built uid message_text server_name u payload);
      })
unfolding broadcast send_broadcast
broadcast-letters env ssl fresh payload uid srv hash fits h0 h =
    iterate-letters env ssl fresh message_text payload uid hash fits h0 h srv

-- `srv_kick_all` puts a quit signal for every ready client at the end of the queue, in the order of
-- the table, where the hash is there and each client has a UID that passes the length test.
pub srv_kick_all-letters :
    (env : Env) (ssl : Ssl) (fresh : Message) (uid : Text) (srv : Server ssl)
    → get_hash env.evp (uid_before_hash env (codes "QUIT")) ≡ some uid
    → length uid ≤ 128
    → Reachable srv.clients (all_nodes srv.client_map.hash_table)
    → srv_kick_all env ssl (some fresh) srv
      ≡ ok (record srv {
        message_queue =
            srv.message_queue
            ++ letters srv.clients
                (all_nodes srv.client_map.hash_table)
                (λ u. built uid message_signal server_name u (codes "QUIT"));
      })
unfolding srv_kick_all send_quit_signal
srv_kick_all-letters env ssl fresh uid srv hash fits =
    iterate-letters env ssl fresh message_signal (codes "QUIT") uid hash fits (omega arith)
      (omega arith) srv

-- The walk of PINGs puts a PING for every ready client at the end of the queue, in the order of the
-- table, where the hash is there and each client has a UID that passes the length test.
pub ping_all-letters :
    (env : Env) (ssl : Ssl) (fresh : Message) (uid : Text) (srv : Server ssl)
    → get_hash env.evp (uid_before_hash env (codes "PING")) ≡ some uid
    → length uid ≤ 128
    → Reachable srv.clients (all_nodes srv.client_map.hash_table)
    → ping_all env ssl (some fresh) srv
      ≡ ok (record srv {
        message_queue =
            srv.message_queue
            ++ letters srv.clients
                (all_nodes srv.client_map.hash_table)
                (λ u. built uid message_ping server_name u (codes "PING"));
      })
unfolding ping_all send_ping
ping_all-letters env ssl fresh uid srv hash fits =
    iterate-letters env ssl fresh message_ping (codes "PING") uid hash fits (omega arith)
      (omega arith) srv
