-- ===== src/Server/Receive.antt =====
-- The loop of `handle_client` of server/src/server.c: what becomes of a line that a client sent.
use secure_chat.Prelude.{
  Bool, ◌<◌, lt→ltb, fault, bad_pointer, ◌≡◌, ◌≤◌, refl, true, false, none, some, [], ◌∷◌, ◌++◌,
  Text, codes, length, ok, arith, ◌>>=◌,
}
use secure_chat.Connection.{Ptr}
use secure_chat.Protocol.{Message, buffer_size}
use secure_chat.Protocol.Codes.{int_eq, message_ping, message_ack}
use secure_chat.Protocol.Hash.{get_hash}
use secure_chat.Protocol.Create.{
  text, field, Env, clear, fill, build, create_in, create_message, message_creation_success,
  uid_before_hash,
}
use secure_chat.Protocol.Create.Bounds.{IsSized, built, build-built, built-IsSized}
use secure_chat.Protocol.Wire.{Ssl, send_message, format_message}
use secure_chat.Protocol.Wire.RoundTrip.{IsSendable}
use secure_chat.Protocol.Wire.Buffer.{parse_message-behind}
use secure_chat.Server.Line.{IsLogged, log_received-logged}
use secure_chat.HashMap.Table.{IsValid, lookup}
use secure_chat.Server.{
  Server, server_name, set_connection, answer_ping, dispatch, receive, route, handle_queued,
}
use secure_chat.Server.Route.{request_of-some, sent-whole, delivered, handle_queued-delivered}

sendable-IsSized : (m : Message) → IsSendable m → IsSized m
sendable-IsSized m is = record {
  uid = is.addressed.uid;
  sender = is.addressed.sender;
  recipient = is.addressed.recipient;
  payload = is.payload;
  counted = is.counted;
}

module _ (env : Env) (ssl : Ssl) (cl : Ptr) where
  -- The stored sender is what the recipient is read from.
  build-itself :
      (m : Message)
      → build env
          (clear m)
          message_ack
          (text server_name)
          (field (λ x. x.sender_uid))
          (text (codes "ACK"))
        ≡ build env (clear m) message_ack (text server_name) (text server_name) (text (codes "ACK"))
  unfolding build fill
  build-itself m = refl

  pong :
      (m : Message) (uid : Text)
      → length m.sender_uid ≤ 128
      → get_hash env.evp (uid_before_hash env (codes "ACK")) ≡ some uid
      → length uid ≤ 128
      → create_message env
          (some m)
          message_ack
          (text server_name)
          (field (λ x. x.sender_uid))
          (text (codes "ACK"))
        ≡ ok (
          some (built uid message_ack server_name server_name (codes "ACK")),
          message_creation_success,
        )
  unfolding create_message create_in
  pong m uid short hash fits =
      let made =
        build-built env (clear m) message_ack server_name server_name (codes "ACK") uid hash fits
          (omega arith) in
      ground (arith, build-itself m, made)

  -- The line of a message that can be sent and is neither a PING nor an ACK puts that message at the
  -- end of the queue, and changes nothing else of the server, whatever the buffer holds behind it, where
  -- a NUL stands in the buffer and the line that is logged holds no percent sign.
  pub receive-queued :
      (m msg : Message) (rest : Text) (srv : Server ssl)
      → IsSendable m
      → int_eq m.type message_ping ≡ false
      → int_eq m.type message_ack ≡ false
      → length (format_message m ++ rest) < buffer_size
      → IsLogged (srv.clients cl).id m
      → receive env ssl true cl (format_message m ++ rest) msg srv
        ≡ ok (record srv { message_queue = srv.message_queue ++ (m ∷ []) }, m)
  unfolding receive dispatch
  receive-queued m msg rest srv is no_ping no_ack short logged = simp (
    lt→ltb (length (format_message m ++ rest)) buffer_size short,
    parse_message-behind msg m rest is,
    log_received-logged (srv.clients cl).id m logged,
    no_ping,
    no_ack,
  )

  -- A line of a message that can be sent and is neither a PING nor an ACK arrives in front of any text that
  -- the buffer holds, a NUL behind it; the line that is logged fits its buffer and holds no percent sign;
  -- and the queue is empty. Then the router takes the message from the queue and writes the line again,
  -- byte for byte, to the connection of the client that the table holds for its recipient. Behind that it
  -- calls `free` with the structure of this client, which `free` does not take.
  pub receive-relayed :
      (m msg : Message) (rest : Text) (srv : Server ssl) (heap : Ptr → Bool) (fresh p : Ptr)
      → IsSendable m
      → int_eq m.type message_ping ≡ false
      → int_eq m.type message_ack ≡ false
      → length (format_message m ++ rest) < buffer_size
      → IsLogged (srv.clients cl).id m
      → srv.message_queue ≡ []
      → IsValid srv.clients srv.client_map
      → lookup srv.clients srv.client_map m.recipient_uid ≡ some p
      → heap p ≡ false
      → (r : Ptr) × ((srv.clients p).req ≡ some r)
        × ((receive env ssl true cl (format_message m ++ rest) msg srv >>= λ t.
              route ssl fresh m (record t.0 { message_queue = [] }))
            ≡ ok (delivered ssl m p r (record srv { message_queue = [] }), p))
        × ((receive env ssl true cl (format_message m ++ rest) msg srv >>= λ t.
              handle_queued ssl heap true (some fresh) t.0)
            ≡ fault bad_pointer)
  receive-relayed m msg rest srv heap fresh p is no_ping no_ack short logged empty v at alien =
      let got = receive-queued m msg rest srv is no_ping no_ack short logged in
      let queued : srv.message_queue ++ (m ∷ []) ≡ m ∷ [] = rw empty refl in
      let srv' : Server ssl = record srv { message_queue = srv.message_queue ++ (m ∷ []) } in
      let (r, has, routed, run) =
        handle_queued-delivered ssl heap fresh m [] p srv' queued v (sendable-IsSized m is)
          is.addressed.int at alien in
      (r, has, rw got routed, rw got run)

  abbrev pub back : Text → Message
  back uid = built uid message_ack server_name server_name (codes "ACK")

  abbrev pub replied : Server ssl → Text → Ptr → Server ssl
  replied srv uid r = record srv {
    connection =
        set_connection srv.connection r
          (ssl.write (srv.connection r) (format_message (back uid))).1;
  }

  answer_ping-back :
      (m : Message) (srv : Server ssl) (uid : Text) (r : Ptr)
      → length m.sender_uid ≤ 128
      → (srv.clients cl).req ≡ some r
      → get_hash env.evp (uid_before_hash env (codes "ACK")) ≡ some uid
      → length uid ≤ 128
      → (answer : Message) × (answer_ping env ssl true cl m srv ≡ ok (replied srv uid r, answer))
  unfolding answer_ping
  answer_ping-back m srv uid r short has hash fits =
      let answer = pong m uid short hash fits in
      let sized =
        built-IsSized uid message_ack server_name server_name (codes "ACK") fits (omega arith) in
      let sent = sent-whole ssl (srv.connection r) (back uid) sized (omega arith) in
      (
        elim (send_message ssl (srv.connection r) (some (back uid))).1 as (λ x. Message) [
          | none ↦ m
          | some m' ↦ m'
        ],
        rw (answer, request_of-some (srv.clients cl) r has) (rw sent refl),
      )

  -- A PING is answered on the connection it came from with an ACK whose recipient is "server", and not
  -- the sender: `create_message` clears the sender and stores "server" there before it reads it.
  pub receive-pong :
      (m msg : Message) (rest : Text) (srv : Server ssl) (uid : Text) (r : Ptr)
      → IsSendable m
      → length (format_message m ++ rest) < buffer_size
      → IsLogged (srv.clients cl).id m
      → m.type ≡ message_ping
      → (srv.clients cl).req ≡ some r
      → get_hash env.evp (uid_before_hash env (codes "ACK")) ≡ some uid
      → length uid ≤ 128
      → (answer : Message) × (receive env ssl true cl (format_message m ++ rest) msg srv
          ≡ ok (replied srv uid r, answer))
  unfolding receive dispatch
  receive-pong m msg rest srv uid r is short logged ping has hash fits =
      let answered = answer_ping-back m srv uid r is.addressed.sender has hash fits in
      (
        answered.0,
        simp (
          lt→ltb (length (format_message m ++ rest)) buffer_size short,
          parse_message-behind msg m rest is,
          log_received-logged (srv.clients cl).id m logged,
          ping,
          answered.1,
        ),
      )
