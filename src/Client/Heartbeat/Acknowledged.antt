-- ===== src/Client/Heartbeat/Acknowledged.antt =====
-- A PING of the client, through the server and back.
use secure_chat.Prelude.{
  ◌≡◌, ◌≤◌, ◌<◌, refl, true, false, some, [], ◌++◌, length, leb, Text, codes, ok, arith,
}
use secure_chat.Connection.{Ptr}
use secure_chat.Protocol.{Message, buffer_size}
use secure_chat.Protocol.Codes.{message_ping, message_ack}
use secure_chat.Protocol.Hash.{get_hash}
use secure_chat.Protocol.Create.{Env, uid_before_hash}
use secure_chat.Protocol.Create.Bounds.{built, built-IsSized, create_message-built}
use secure_chat.Protocol.Wire.{Ssl, is_positive, format_message}
use secure_chat.Protocol.Wire.Send.{length-format_message, send_message-whole}
use secure_chat.Protocol.Wire.RoundTrip.{IsSendable, parse_message-format_message}
use secure_chat.Client.Handler.{Session, returned, server_name, from_server, handle_message}
use secure_chat.Client.Receive.{handle_line}
use secure_chat.Client.Heartbeat.{after_ping, send_ping, ping_turn}
use secure_chat.Server.{Server, receive}
use secure_chat.Server.Line.{IsLogged}
use secure_chat.Server.Receive.{back, replied, receive-pong}

abbrev pub beat : Text → Text → Message
beat uid u = built uid message_ping u server_name (codes "PING")

module _ (env : Env) (ssl : Ssl) (s : Session ssl) where
  abbrev pub pinged : Message → Session ssl
  pinged m = record s {
    connection = (ssl.write s.connection (format_message m)).1;
    server_answer = false;
  }

  ping_turn-beat :
      (msg : Message) (u uid : Text)
      → s.reconnect_flag ≡ false
      → s.cl_state.is_authenticated ≡ true
      → s.cl.uid ≡ some u
      → length u ≤ 129
      → get_hash env.evp (uid_before_hash env (codes "PING")) ≡ some uid
      → length uid ≤ 128
      → is_positive (ssl.write s.connection (format_message (beat uid u))).0 ≡ true
      → ping_turn env ssl true msg s ≡ ok (pinged (beat uid u))
  unfolding ping_turn send_ping after_ping
  ping_turn-beat msg u uid up inside has short hash wide taken =
      let made =
        create_message-built env msg message_ping u server_name (codes "PING") uid hash wide short
          (omega arith) (omega arith) (omega arith) in
      let sized = built-IsSized uid message_ping u server_name (codes "PING") wide (omega arith) in
      let whole = send_message-whole ssl s.connection (beat uid u) sized (omega arith) in
      simp (up, inside, has, made, whole, taken)

  -- The line of an ACK of the server sets the answer.
  handle_line-ack :
      (m : Message)
      → IsSendable m
      → length (format_message m) < buffer_size
      → m.type ≡ message_ack
      → from_server m ≡ true
      → handle_line env ssl (length (format_message m)) (format_message m) s
        ≡ ok (record s { msg = m; server_answer = true }, returned)
  unfolding handle_line handle_message
  handle_line-ack m is short ack from =
      let small : leb buffer_size (length (format_message m)) ≡ false = ground arith in
      let parsed =
        parse_message-format_message (record s.msg { payload = []; payload_length = 0 }) m is in
      simp (small, parsed, ack, from)

-- A PING that an authenticated client sends, where its connection takes the line, clears the answer flag; the
-- server that receives the line in front of any text, a NUL behind it in the buffer, and whose line for the log
-- holds no percent sign, writes the line of an ACK to the connection it came from; and a client that
-- receives that line sets the flag again and changes nothing else but its message.
pub ping_turn-acknowledged :
    (env : Env) (ssl : Ssl) (s t : Session ssl) (msg old : Message) (u ping_uid ack_uid rest : Text)
    (cl r : Ptr) (srv : Server ssl)
    → s.reconnect_flag ≡ false
    → s.cl_state.is_authenticated ≡ true
    → s.cl.uid ≡ some u
    → length u ≤ 128
    → get_hash env.evp (uid_before_hash env (codes "PING")) ≡ some ping_uid
    → get_hash env.evp (uid_before_hash env (codes "ACK")) ≡ some ack_uid
    → length ping_uid ≤ 128
    → length ack_uid ≤ 128
    → is_positive (ssl.write s.connection (format_message (beat ping_uid u))).0 ≡ true
    → IsSendable (beat ping_uid u)
    → IsSendable (back env ssl cl ack_uid)
    → (srv.clients cl).req ≡ some r
    → length (format_message (beat ping_uid u) ++ rest) < buffer_size
    → IsLogged (srv.clients cl).id (beat ping_uid u)
    → (ping_turn env ssl true msg s ≡ ok (pinged env ssl s (beat ping_uid u)))
      × ((answer : Message) × (receive env ssl true cl
              (format_message (beat ping_uid u) ++ rest)
              old
              srv
            ≡ ok (replied env ssl cl srv ack_uid r, answer)))
      × (handle_line env ssl
            (length (format_message (back env ssl cl ack_uid)))
            (format_message (back env ssl cl ack_uid))
            t
          ≡ ok (record t { msg = back env ssl cl ack_uid; server_answer = true }, returned))
ping_turn-acknowledged env ssl s t msg old u ping_uid ack_uid rest cl r srv up inside has short
      hash1 hash2 wide1 wide2 taken is1 is2 req held logged =
    (
      ping_turn-beat env ssl s msg u ping_uid up inside has (omega arith) hash1 wide1 taken,
      receive-pong env ssl cl (beat ping_uid u) old rest srv ack_uid r is1 held logged refl req
          hash2 wide2,
      handle_line-ack env ssl t (back env ssl cl ack_uid) is2
          (omega (
            arith,
            length-format_message (back env ssl cl ack_uid)
                (built-IsSized ack_uid message_ack server_name server_name (codes "ACK") wide2
                  (omega arith))
                (omega arith),
          ))
          refl refl,
    )
