-- ===== src/Tests/Link.antt =====
-- Examples of the theorems on the connection of the client.
use secure_chat.Prelude.{◌≡◌, refl, true, false, none, some, [], ◌∷◌, codes, ok}
use secure_chat.Client.{initial_state, reset_state}
use secure_chat.Client.Handler.{Session, returned}
use secure_chat.Client.Link.{
  Handles, Attempt, Link, connect_to_server, secure, init_ssl, new_ssl, after_init, shake,
  connected, attempt_reconnection,
}
use secure_chat.Client.Receive.{receive_messages}
use secure_chat.Client.Receive.Stall.{attempt_reconnection-stalled}
use secure_chat.Tests.{test_env, test_ssl, blank}
use secure_chat.Tests.Client.{session_of}

abbrev idle : Handles
idle = record {
  ssl = none;
  ssl_ctx = none;
  sock = none;
  uid = some (codes "1");
  live_ssl = 3 ∷ [];
  live_ctx = 2 ∷ [];
  open_sockets = 1 ∷ [];
  next = 4;
}

abbrev good : Attempt
good = record { socket = true; connects = true; ctx_new = true; ssl_new = true; handshake = true }

abbrev lost_link : Link
lost_link = record {
  handles = idle;
  state = record initial_state { is_connected = true };
  reconnect_flag = true;
}

abbrev renewed : Link
renewed = record {
  handles = record {
    ssl = some 6;
    ssl_ctx = some 5;
    sock = some 4;
    uid = none;
    live_ssl = 6 ∷ 3 ∷ [];
    live_ctx = 5 ∷ 2 ∷ [];
    open_sockets = 4 ∷ 1 ∷ [];
    next = 7;
  };
  state = record (reset_state initial_state) { is_connected = true };
  reconnect_flag = false;
}

-- What the old connection held is still allocated.
lost_link-renewed : attempt_reconnection false good lost_link ≡ ok renewed
unfolding attempt_reconnection connect_to_server secure init_ssl new_ssl after_init shake connected
    reset_state
lost_link-renewed = refl

abbrev reading : Session test_ssl
reading = record (session_of (codes "1") renewed.state blank) {
  cl = record { uid = none; username = codes "ann" };
  reconnect_flag = false;
}

attempt_reconnection-stalled_example :
    receive_messages test_env test_ssl (true ∷ true ∷ true ∷ []) reading ≡ ok (reading, returned)
attempt_reconnection-stalled_example =
    attempt_reconnection-stalled test_env test_ssl false good lost_link renewed
      (true ∷ true ∷ true ∷ []) reading refl lost_link-renewed refl refl
