-- ===== src/Client/Handler/Ping.antt =====
-- The answer to a PING in `handle_message` of client/src/client_msg_handler.c.
use secure_chat.Prelude.{
  ◌≡◌, ◌≤◌, refl, [], true, false, ◌==◌, some, if◌then◌else◌, Bool-cases, inl, inr, Text, codes, ok,
  arith, length,
}
use secure_chat.Protocol.Codes.{message_ping, message_ack}
use secure_chat.Protocol.{Message}
use secure_chat.Protocol.Hash.{get_hash}
use secure_chat.Protocol.Wire.{
  Ssl, SslError, want_read, want_write, other, error_code, message_send_success, format_message,
  is_positive,
}
use secure_chat.Protocol.Wire.Send.{send_message-whole}
use secure_chat.Protocol.Create.{
  Env, text, create_message, message_creation_success, uid_before_hash,
}
use secure_chat.Protocol.Create.Bounds.{built, built-IsSized, create_message-built}
use secure_chat.Client.Handler.{
  Session, Ending, returned, thread_exit, from_server, handle_message, answer_ping, server_name,
}

abbrev pub ack : Text → Text → Message
ack uid u = built uid message_ack u server_name (codes "ACK")

-- The session behind a write of the ACK, and how the handler ends.
unfoldable pub answered : (ssl : Ssl) → Session ssl → Message → Session ssl × Ending
answered ssl s m =
    let (bytes_sent, c) = ssl.write s.connection (format_message m) in
    if is_positive bytes_sent
    then (
      record s { connection = c; msg = record m { payload = []; payload_length = 0 } },
      returned,
    )
    else (record s { connection = c; msg = m; reconnect_flag = true }, thread_exit)

pub error_code-fails : (e : SslError) → (error_code e == message_send_success) ≡ false
error_code-fails want_read = refl
error_code-fails want_write = refl
error_code-fails other = refl

module _ (env : Env) (ssl : Ssl) (s : Session ssl) (u uid : Text) where
  answer_ping-answered :
      s.cl.uid ≡ some u
      → length u ≤ 129
      → get_hash env.evp (uid_before_hash env (codes "ACK")) ≡ some uid
      → length uid ≤ 128
      → answer_ping env ssl s ≡ ok (answered ssl s (ack uid u))
  unfolding answer_ping answered
  answer_ping-answered e short hash fits =
      let made : create_message env (some s.msg) message_ack (text u) (text server_name)
            (text (codes "ACK"))
          ≡ ok (some (ack uid u), message_creation_success) =
        create_message-built env s.msg message_ack u server_name (codes "ACK") uid hash fits short
          (omega arith) (omega arith) (omega arith) in
      let sized = built-IsSized uid message_ack u server_name (codes "ACK") fits (omega arith) in
      let whole = send_message-whole ssl s.connection (ack uid u) sized (omega arith) in
      let sent = ssl.write s.connection (format_message (ack uid u)) in
      elim (Bool-cases (is_positive sent.0)) [
        | inl yes_sent ↦ simp (e, made, whole, yes_sent)
        | inr no_sent ↦
            simp (e, made, whole, no_sent, error_code-fails (ssl.get_error sent.1 sent.0))
      ]

  -- A PING of "server" to a client with a UID of at most 129 bytes, where the hash is there, makes the
  -- handler write the ACK with that UID as its sender, whole: if the connection takes it the handler
  -- returns, and if not it sets the reconnect flag and ends the thread.
  pub handle_message-ping :
      s.cl.uid ≡ some u
      → length u ≤ 129
      → get_hash env.evp (uid_before_hash env (codes "ACK")) ≡ some uid
      → length uid ≤ 128
      → s.msg.type ≡ message_ping
      → from_server s.msg ≡ true
      → handle_message env ssl s ≡ ok (answered ssl s (ack uid u))
  unfolding handle_message
  handle_message-ping e short hash fits kind server =
      simp (kind, server, answer_ping-answered e short hash fits)
