-- ===== src/Client/Heartbeat.antt =====
-- The thread of the client that sends PINGs, `handle_server_ping` of client/src/client.c.
pub mod Acknowledged
use secure_chat.Prelude.{
  ◌==◌, Bool, true, false, Option, some, if◌then◌else◌, codes, Run, ok, ◌>>=◌,
}
use secure_chat.Protocol.{Message}
use secure_chat.Protocol.Codes.{message_ping}
use secure_chat.Protocol.Create.{Env, text, create_message}
use secure_chat.Protocol.Wire.{Ssl, send_message, message_send_success}
use secure_chat.Client.Handler.{Session, server_name, uid_arg}

module _ (env : Env) (ssl : Ssl) where
  -- Behind `send_message`: the answer is awaited, or the connection given up.
  unfoldable pub after_ping : Bool → Session ssl → Session ssl
  after_ping true s = record s { server_answer = false }
  after_ping false s = record s {
    cl_state = record s.cl_state { is_connected = false };
    reconnect_flag = true;
  }

  unfoldable pub send_ping : Message → Session ssl → Run (Session ssl)
  send_ping msg s = do
    (made, code) ←
        create_message env (some msg) message_ping (uid_arg s.cl.uid) (text server_name)
          (text (codes "PING"))
    let (c, sent, result) = send_message ssl s.connection made
    ok (after_ping (result == message_send_success) (record s { connection = c }))

  -- A turn of the loop; `has_ssl` tells whether `cl.ssl` is not NULL, and `msg` is what the memory of the
  -- message holds.
  unfoldable pub ping_turn : Bool → Message → Session ssl → Run (Session ssl)
  ping_turn has_ssl msg s =
      if s.reconnect_flag
      then ok s
      else if has_ssl
      then if s.cl_state.is_authenticated then send_ping msg s else ok s
      else if s.cl_state.is_connected
      then ok (record s { reconnect_flag = true })
      else ok s
