-- ===== src/Server.antt =====
-- The message paths of server/src/server.c: what enters the queue, and what leaves it. The queue is
-- the sequence of its values, which StsQueue/Order shows it to be. Each function is one thread's
-- step; `held` are the bucket mutexes that the thread holds.
pub mod Accept
pub mod Line
pub mod Broadcast
pub mod Kick
pub mod Receive
pub mod Route
pub mod Info
use secure_chat.Prelude.{
  ℕ, Bool, true, false, ◌&&◌, not, ◌==◌, Option, none, some, List, [], ◌∷◌, ◌++◌, if◌then◌else◌,
  Text, codes, text_eq, Run, ok, fault, null_pointer, bad_pointer, out_of_bounds, ltb, length,
  ◌>>=◌,
}
use secure_chat.Connection.{Ptr, Store, ClientConnection, write}
use secure_chat.HashMap.{
  Node, Held, nothing_held, HashMap, hash_map_find, hash_map_erase, hash_map_iterate,
}
use secure_chat.Protocol.{Message, buffer_size}
use secure_chat.Server.Line.{log_received}
use secure_chat.Protocol.Number.{ℤ}
use secure_chat.Protocol.Codes.{
  int_eq, message_text, message_ping, message_ack, message_signal, message_user_join,
}
use secure_chat.Protocol.Create.{Arg, null, text, field, Env, create_message}
use secure_chat.Protocol.Wire.{Ssl, send_message, parse_message}

-- What the threads of the server share. A request is named by the pointer to it; `connection`
-- is the state of the SSL connection behind it.
pub record Server (ssl : Ssl) : Type 0 where
  pub client_map : HashMap
  pub clients : Store
  pub message_queue : List Message
  pub connection : Ptr → ssl.State

abbrev pub server_name : Text
server_name = codes "server"

-- The pointer `cl->uid`
abbrev pub uid_arg : Option Text → Arg
uid_arg none = null
uid_arg (some u) = text u

abbrev pub set_connection : {S : Type 0} → (Ptr → S) → Ptr → S → Ptr → S
set_connection f p c q = if q == p then c else f q

-- The argument of `send_message` that names a connection: `cl->req->ssl`.
unfoldable pub request_of : ClientConnection → Run Ptr
request_of c = elim c.req [ none ↦ fault null_pointer | some r ↦ ok r ]

-- `malloc` of a message: `none` is NULL, and the memory holds what it held.
module _ (env : Env) (ssl : Ssl) (malloc : Option Message) where
  abbrev pub with_message : Server ssl → Option Message → Server ssl
  with_message srv none = srv
  with_message srv (some m) = record srv { message_queue = srv.message_queue ++ (m ∷ []) }

  -- `malloc`, `create_message` from "server", and `push`, whatever `create_message` returned.
  unfoldable pub enqueue : ℤ → Option Text → Text → Server ssl → Run (Server ssl)
  enqueue type uid payload srv = elim malloc [
    | none ↦ ok srv
    | some fresh ↦ do
      (made, code) ←
          create_message env (some fresh) type (text server_name) (uid_arg uid) (text payload)
      ok (with_message srv made)
  ]

  -- A callback of the walks through the table that sends where `is_ready` is set.
  unfoldable pub when_ready :
      (ClientConnection → Server ssl → Run (Server ssl)) → Node → Server ssl → Run (Server ssl)
  when_ready action none srv = fault null_pointer
  when_ready action (some p) srv =
      if (srv.clients p).is_ready then action (srv.clients p) srv else ok srv

  unfoldable pub send_ping : Node → Server ssl → Run (Server ssl)
  send_ping = when_ready (λ cl. enqueue message_ping cl.uid (codes "PING"))

  unfoldable pub send_quit_signal : Node → Server ssl → Run (Server ssl)
  send_quit_signal = when_ready (λ cl. enqueue message_signal cl.uid (codes "QUIT"))

  unfoldable pub send_broadcast : Text → Node → Server ssl → Run (Server ssl)
  send_broadcast payload = when_ready (λ cl. enqueue message_text cl.uid payload)

  -- `new_cl` is the address of the connection that joined.
  unfoldable pub send_join_message : Ptr → Node → Server ssl → Run (Server ssl)
  send_join_message new_cl none srv = fault null_pointer
  send_join_message new_cl (some p) srv =
      if (srv.clients p).is_ready && not (p == new_cl)
      then enqueue message_user_join (srv.clients p).uid (srv.clients new_cl).username srv
      else ok srv

  unfoldable pub erase_uid : Held → Option Text → Server ssl → Run (Server ssl)
  erase_uid held none srv = fault null_pointer
  erase_uid held (some uid) srv = do
    m ← hash_map_erase srv.clients held srv.client_map uid
    ok (record srv { client_map = m })

  unfoldable pub kick_unresponsive : Held → Node → Server ssl → Run (Server ssl)
  kick_unresponsive held none srv = fault null_pointer
  kick_unresponsive held (some p) srv =
      if (srv.clients p).is_ready && (srv.clients p).ping_sent
      then (do srv' ← send_quit_signal (some p) srv; erase_uid held (srv'.clients p).uid srv')
      else ok srv

  -- The walks of `handle_client_ping`, and the commands that walk.
  unfoldable pub ping_all : Server ssl → Run (Server ssl)
  ping_all srv = hash_map_iterate (λ held. send_ping) nothing_held srv.client_map srv

  unfoldable pub kick_all_unresponsive : Server ssl → Run (Server ssl)
  kick_all_unresponsive srv = hash_map_iterate kick_unresponsive nothing_held srv.client_map srv

  unfoldable pub srv_kick_all : Server ssl → Run (Server ssl)
  srv_kick_all srv = hash_map_iterate (λ held. send_quit_signal) nothing_held srv.client_map srv

  -- The walk of `srv_broadcast`; the arguments are joined by blanks to the payload.
  unfoldable pub broadcast : Text → Server ssl → Run (Server ssl)
  broadcast payload srv =
      hash_map_iterate (λ held. send_broadcast payload) nothing_held srv.client_map srv

  unfoldable pub announce : Ptr → Server ssl → Run (Server ssl)
  announce new_cl srv =
      hash_map_iterate (λ held. send_join_message new_cl) nothing_held srv.client_map srv

  unfoldable pub srv_kick : Text → Server ssl → Run (Server ssl)
  srv_kick uid srv = do
    found ← hash_map_find srv.clients nothing_held srv.client_map uid
    elim found [ none ↦ ok srv | some p ↦ send_quit_signal (some p) srv ]

-- The body of the loop of `handle_client`, for what stands in the buffer up to the first NUL.
-- `msg` is the structure that every turn uses again, `cl` the connection of the thread.
module _ (env : Env) (ssl : Ssl) (malloc_ok : Bool) (cl : Ptr) where
  unfoldable pub answer_ping : Message → Server ssl → Run (Server ssl × Message)
  answer_ping msg srv = do
    (made, code) ←
        create_message env (some msg) message_ack (text server_name) (field (λ m. m.sender_uid))
          (text (codes "ACK"))
    r ← request_of (srv.clients cl)
    let (c, sent, result) = send_message ssl (srv.connection r) made
    let m : Message = elim sent [ none ↦ msg | some m' ↦ m' ]
    ok (record srv { connection = set_connection srv.connection r c }, m)

  unfoldable pub dispatch : Message → Server ssl → Run (Server ssl × Message)
  dispatch msg srv =
      if int_eq msg.type message_ping
      then answer_ping msg srv
      else if int_eq msg.type message_ack
      then ok (
        record srv {
          clients = write srv.clients cl (record (srv.clients cl) { ping_sent = false });
        },
        msg,
      )
      else if malloc_ok
      then ok (record srv { message_queue = srv.message_queue ++ (msg ∷ []) }, msg)
      else ok (srv, msg)

  -- Where no NUL stands in the buffer, the text is all of it, and sscanf reads on behind it.
  unfoldable pub receive : Text → Message → Server ssl → Run (Server ssl × Message)
  receive buffer msg srv =
      if ltb (length buffer) buffer_size
      then (do m ← parse_message msg buffer; _ ← log_received (srv.clients cl).id m; dispatch m srv)
      else fault out_of_bounds

-- `ping_sent = 1` behind a PING of the server
unfoldable pub mark_ping : Message → Ptr → Store → Store
mark_ping msg p σ =
    if int_eq msg.type message_ping && text_eq msg.sender_uid server_name
    then write σ p (record (σ p) { ping_sent = true })
    else σ

module _ (ssl : Ssl) where
  unfoldable pub deliver : Message → Ptr → Server ssl → Run (Server ssl)
  deliver msg p srv = do
    r ← request_of (srv.clients p)
    let (c, sent, result) = send_message ssl (srv.connection r) (some msg)
    ok (record srv {
      connection = set_connection srv.connection r c;
      clients = mark_ping msg p srv.clients;
    })

-- One message of `handle_msg_queue`, and the pointer that `cl` holds behind it: the connection that the
-- table found, or the structure `fresh` that was allocated for it.
module _ (ssl : Ssl) (fresh : Ptr) where
  unfoldable pub route : Message → Server ssl → Run (Server ssl × Ptr)
  route msg srv = do
    found ← hash_map_find srv.clients nothing_held srv.client_map msg.recipient_uid
    elim found [ none ↦ ok (srv, fresh) | some p ↦ deliver ssl msg p srv >>= λ s. ok (s, p) ]

-- A message is dropped where the copy of its payload or the structure cannot be allocated. `heap` tells
-- which pointers `free` takes: no local structure of a thread is among them.
module _ (ssl : Ssl) (heap : Ptr → Bool) (copied : Bool) (allocated : Option Ptr) where
  unfoldable pub free_connection : Server ssl × Ptr → Run (Server ssl)
  free_connection (srv, p) = if heap p then ok srv else fault bad_pointer

  unfoldable pub handle_popped : Message → Server ssl → Run (Server ssl)
  handle_popped msg srv =
      if copied
      then elim allocated [
        | none ↦ ok srv
        | some fresh ↦ route ssl fresh msg srv >>= λ r. free_connection r
      ]
      else ok srv

  unfoldable pub handle_queued : Server ssl → Run (Server ssl)
  handle_queued srv = elim srv.message_queue [
    | [] ↦ ok srv
    | msg ∷ rest ↦ handle_popped msg (record srv { message_queue = rest })
  ]
