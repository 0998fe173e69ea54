-- ===== src/Server/Route.antt =====
-- `handle_msg_queue` of server/src/server.c: where a queued message goes.
use secure_chat.Prelude.{
  Bool, false, fault, bad_pointer, true, ◌≡◌, refl, none, some, List, [], ◌∷◌, inl, inr,
  Option-cases, Bool-cases, Text, text_eq, ok, arith,
}
use secure_chat.Connection.{Ptr, Store, ClientConnection}
use secure_chat.HashMap.{Chain, fields_of, find_chain}
use secure_chat.HashMap.Table.{IsValid, lookup, hash_map_find-lookup, chain_of}
use secure_chat.Protocol.{Message}
use secure_chat.Protocol.Number.RoundTrip.{IsInt}
use secure_chat.Protocol.Create.Bounds.{IsSized}
use secure_chat.Protocol.Wire.{Ssl, send_message, format_message, is_positive}
use secure_chat.Protocol.Wire.Send.{send_message-whole}
use secure_chat.Server.{
  Server, set_connection, request_of, mark_ping, deliver, route, handle_queued, handle_popped,
  free_connection,
}

fields_of-request :
    (σ : Store) (p : Ptr) (u : Text)
    → fields_of σ (some p) ≡ some u
    → (r : Ptr) × ((σ p).req ≡ some r)
unfolding fields_of
fields_of-request σ p u e = elim (Option-cases (σ p).req) [
  | inl missing ↦ absurd (ground arith)
  | inr found ↦ found
]

-- `hash_map_find` stores only connections that have a request.
pub find_chain-request :
    (σ : Store) (q : Text) (p : Ptr) (c : Chain)
    → find_chain σ q c ≡ some p
    → (r : Ptr) × ((σ p).req ≡ some r)
unfolding find_chain
find_chain-request σ q p [] e = absurd (ground arith)
find_chain-request σ q p (n ∷ c) e = elim (Option-cases (fields_of σ n)) [
  | inl missing ↦ absurd (ground arith)
  | inr (u, found) ↦ elim (Bool-cases (text_eq u q)) [
    | inl same ↦ let at_p : n ≡ some p = ground arith in fields_of-request σ p u (cc)
    | inr differ ↦ find_chain-request σ q p c (ground arith)
  ]
]

pub request_of-some : (c : ClientConnection) (r : Ptr) → c.req ≡ some r → request_of c ≡ ok r
unfolding request_of
request_of-some c r e = rw (e, request_of) refl

module _ (ssl : Ssl) where
  -- The server after the line of `msg` was handed to the connection of request `r` for the client `p`.
  abbrev pub delivered : Message → Ptr → Ptr → Server ssl → Server ssl
  delivered msg p r srv = record srv {
    connection =
        set_connection srv.connection r (ssl.write (srv.connection r) (format_message msg)).1;
    clients = mark_ping msg p srv.clients;
  }

  pub sent-whole :
      (c : ssl.State) (m : Message)
      → IsSized m
      → IsInt m.type
      → (send_message ssl c (some m)).0 ≡ (ssl.write c (format_message m)).1
  sent-whole c m sized int =
      let whole = send_message-whole ssl c m sized int in
      elim (Bool-cases (is_positive (ssl.write c (format_message m)).0)) [
        | inl yes_sent ↦ rw whole (rw yes_sent refl)
        | inr no_sent ↦ rw whole (rw no_sent refl)
      ]

  deliver-delivered :
      (msg : Message) (p r : Ptr) (srv : Server ssl)
      → IsSized msg
      → IsInt msg.type
      → (srv.clients p).req ≡ some r
      → deliver ssl msg p srv ≡ ok (delivered msg p r srv)
  unfolding deliver
  deliver-delivered msg p r srv sized int e =
      let sent = sent-whole (srv.connection r) msg sized int in
      simp (request_of-some (srv.clients p) r e, sent)

  -- `handle_msg_queue` hands the line of the first message, whole, to the connection of the client
  -- that the table holds for its recipient, and marks that client where the message is a PING of the
  -- server; then it calls `free` with this client's structure, which is a local one of its thread.
  pub handle_queued-delivered :
      (heap : Ptr → Bool) (fresh : Ptr) (msg : Message) (rest : List Message) (p : Ptr)
      (srv : Server ssl)
      → srv.message_queue ≡ msg ∷ rest
      → IsValid srv.clients srv.client_map
      → IsSized msg
      → IsInt msg.type
      → lookup srv.clients srv.client_map msg.recipient_uid ≡ some p
      → heap p ≡ false
      → (r : Ptr) × ((srv.clients p).req ≡ some r)
        × (route ssl fresh msg (record srv { message_queue = rest })
            ≡ ok (delivered msg p r (record srv { message_queue = rest }), p))
        × (handle_queued ssl heap true (some fresh) srv ≡ fault bad_pointer)
  unfolding handle_queued handle_popped route free_connection
  handle_queued-delivered heap fresh msg rest p srv q v sized int e alien =
      let (r, has) =
        find_chain-request srv.clients msg.recipient_uid p
          (chain_of srv.client_map msg.recipient_uid) e in
      let found = hash_map_find-lookup srv.clients srv.client_map msg.recipient_uid v in
      let sent = deliver-delivered msg p r (record srv { message_queue = rest }) sized int has in
      let routed : route ssl fresh msg (record srv { message_queue = rest })
          ≡ ok (delivered msg p r (record srv { message_queue = rest }), p) =
        rw (found, route) (rw (e, route) (rw sent refl)) in
      (r, has, routed, rw (q, handle_queued, handle_popped, routed) (rw alien refl))

  -- A message whose recipient the table does not hold is dropped: nothing but the queue changes.
  pub handle_queued-dropped :
      (heap : Ptr → Bool) (fresh : Ptr) (msg : Message) (rest : List Message) (srv : Server ssl)
      → srv.message_queue ≡ msg ∷ rest
      → IsValid srv.clients srv.client_map
      → lookup srv.clients srv.client_map msg.recipient_uid ≡ none
      → heap fresh ≡ true
      → handle_queued ssl heap true (some fresh) srv ≡ ok (record srv { message_queue = rest })
  unfolding handle_queued handle_popped route free_connection
  handle_queued-dropped heap fresh msg rest srv q v e own =
      let found = hash_map_find-lookup srv.clients srv.client_map msg.recipient_uid v in
      rw (q, handle_queued, handle_popped, found, route) (rw (e, route) (rw own refl))
