-- ===== src/Tests/Heartbeat.antt =====
-- An example of the theorem on the PINGs of the client.
use secure_chat.Prelude.{◌<◌, ◌++◌, length, ◌≡◌, refl, true, false, codes, ok, arith}
use secure_chat.Protocol.{Message, buffer_size}
use secure_chat.Protocol.Wire.{format_message, delimiter}
use secure_chat.Protocol.Wire.RoundTrip.{IsAddressed, IsSendable}
use secure_chat.Client.{initial_state}
use secure_chat.Client.Handler.{Session, returned}
use secure_chat.Client.Receive.{handle_line}
use secure_chat.Client.Heartbeat.{ping_turn}
use secure_chat.Client.Heartbeat.Acknowledged.{beat, pinged, ping_turn-acknowledged}
use secure_chat.Server.{receive}
use secure_chat.Server.Receive.{back, replied}
use secure_chat.Server.Line.{IsLogged, received_line}
use secure_chat.Protocol.Number.{print_int, decimal, decimal_loop}
use secure_chat.Tests.{avoids?, avoids?-Avoids}
use secure_chat.Tests.{test_env, test_ssl, test_uid, test_hash, blank}
use secure_chat.Tests.Client.{session_of}
use secure_chat.Tests.Server.{server}
use secure_chat.Tests.Input.{replicate-Avoids}

abbrev alive : Session test_ssl
alive = record (session_of (codes "1") (record initial_state { is_authenticated = true }) blank) {
  reconnect_flag = false;
}

beat-IsAddressed : IsAddressed (beat test_uid (codes "1"))
beat-IsAddressed = record {
  uid = omega arith;
  sender = omega arith;
  recipient = omega arith;
  int = omega arith;
  declared = omega arith;
  uid_some = omega arith;
  sender_some = omega arith;
  recipient_some = omega arith;
  uid_clean = replicate-Avoids 128 b'1' delimiter refl;
  sender_clean = (refl, tt);
  recipient_clean = (refl, (refl, (refl, (refl, (refl, (refl, tt))))));
}

beat-IsSendable : IsSendable (beat test_uid (codes "1"))
beat-IsSendable = record {
  addressed = beat-IsAddressed;
  payload = omega arith;
  counted = refl;
  payload_some = omega arith;
  payload_clean = (refl, (refl, (refl, (refl, tt))));
}

back-IsAddressed : IsAddressed (back test_env test_ssl 1 test_uid)
back-IsAddressed = record {
  uid = omega arith;
  sender = omega arith;
  recipient = omega arith;
  int = omega arith;
  declared = omega arith;
  uid_some = omega arith;
  sender_some = omega arith;
  recipient_some = omega arith;
  uid_clean = replicate-Avoids 128 b'1' delimiter refl;
  sender_clean = (refl, (refl, (refl, (refl, (refl, (refl, tt))))));
  recipient_clean = (refl, (refl, (refl, (refl, (refl, (refl, tt))))));
}

back-IsSendable : IsSendable (back test_env test_ssl 1 test_uid)
back-IsSendable = record {
  addressed = back-IsAddressed;
  payload = omega arith;
  counted = refl;
  payload_some = omega arith;
  payload_clean = (refl, (refl, (refl, tt)));
}

beat_held : length (format_message (beat test_uid (codes "1")) ++ codes "lo") < buffer_size
unfolding format_message print_int decimal decimal_loop
beat_held = omega arith

beat-IsLogged : IsLogged (server.clients 1).id (beat test_uid (codes "1"))
unfolding print_int decimal decimal_loop avoids?
beat-IsLogged = record {
  short = omega arith;
  plain =
      avoids?-Avoids b'%' (received_line (server.clients 1).id (beat test_uid (codes "1"))) refl;
}

ping_turn-acknowledged_example :
    (ping_turn test_env test_ssl true blank alive
      ≡ ok (pinged test_env test_ssl alive (beat test_uid (codes "1"))))
    × ((answer : Message) × (receive test_env test_ssl true 1
            (format_message (beat test_uid (codes "1")) ++ codes "lo")
            blank
            server
          ≡ ok (replied test_env test_ssl 1 server test_uid 11, answer)))
    × (handle_line test_env test_ssl
          (length (format_message (back test_env test_ssl 1 test_uid)))
          (format_message (back test_env test_ssl 1 test_uid))
          alive
        ≡ ok (
          record alive { msg = back test_env test_ssl 1 test_uid; server_answer = true },
          returned,
        ))
ping_turn-acknowledged_example =
    ping_turn-acknowledged test_env test_ssl alive alive blank blank (codes "1") test_uid test_uid
      (codes "lo") 1 11 server refl refl refl (omega arith) (test_hash (codes "PING"))
      (test_hash (codes "ACK")) (omega arith) (omega arith) refl beat-IsSendable back-IsSendable
      refl beat_held beat-IsLogged
