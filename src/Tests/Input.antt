-- ===== src/Tests/Input.antt =====
-- Examples of the theorems on the keys of the window.
use secure_chat.Prelude.{
  length, ◌<◌, ◌++◌, leb, ℕ, zero, suc, ◌≡◌, ◌≤◌, refl, ◌==◌, true, false, Bool, none, some, length,
  codes, Avoids, replicate, ok, ◌>>=◌, arith,
}
use secure_chat.HashMap.{fields_of, find_chain}
use secure_chat.HashMap.Strtoul.{strtoul}
use secure_chat.HashMap.Table.{lookup}
use secure_chat.Protocol.Wire.{format_message, delimiter}
use secure_chat.Protocol.Wire.RoundTrip.{IsAddressed, IsSendable}
use secure_chat.Client.{initial_state}
use secure_chat.Client.Handler.{server_name}
use secure_chat.Client.Input.{Window, char, after_send, press_enter, press_char, ui_cycle}
use secure_chat.Client.Input.Keys.{ui_cycle-Fits}
use secure_chat.Client.Input.Undelivered.{written, press_enter-undelivered}
use secure_chat.Server.{receive, handle_queued}
use secure_chat.Protocol.{buffer_size}
use secure_chat.Server.Line.{IsLogged, received_line}
use secure_chat.Protocol.Number.{print_int, decimal, decimal_loop}
use secure_chat.Tests.{avoids?, avoids?-Avoids}
use secure_chat.Tests.{
  test_env, test_ssl, test_uid, test_hash, test_store, two_clients, two_clients-IsValid, blank,
}
use secure_chat.Tests.Client.{session_of}
use secure_chat.Tests.Server.{server}

abbrev window : Window test_ssl
window = record {
  session =
      session_of (codes "1") (record initial_state { just_joined = false; is_authenticated = true })
        blank;
  input = codes "hi";
}

abbrev longer : Window test_ssl
longer = record window { input = codes "hi!" }

typed : ui_cycle test_env test_ssl (char 33) window ≡ ok (longer, true)
unfolding ui_cycle press_char
typed = refl

ui_cycle-Fits_example : length longer.input ≤ 127
ui_cycle-Fits_example =
    ui_cycle-Fits test_env test_ssl (char 33) window (omega arith) (longer, true) typed

pub replicate-Avoids : (n c stop : ℕ) → (c == stop) ≡ false → Avoids stop (replicate n c)
replicate-Avoids zero c stop other = tt
replicate-Avoids (suc n) c stop other = (other, replicate-Avoids n c stop other)

hi-IsAddressed : IsAddressed (written test_uid (codes "1") (codes "hi"))
hi-IsAddressed = record {
  uid = omega arith;
  sender = omega arith;
  recipient = omega arith;
  int = omega arith;
  declared = omega arith;
  uid_some = omega arith;
  sender_some = omega arith;
  recipient_some = omega arith;
  uid_clean = replicate-Avoids 128 b'1' delimiter refl;
  sender_clean = (refl, tt);
  recipient_clean = (refl, (refl, (refl, (refl, (refl, (refl, tt))))));
}

hi-IsSendable : IsSendable (written test_uid (codes "1") (codes "hi"))
hi-IsSendable = record {
  addressed = hi-IsAddressed;
  payload = omega arith;
  counted = refl;
  payload_some = omega arith;
  payload_clean = (refl, (refl, tt));
}

no_server : lookup test_store two_clients server_name ≡ none
unfolding find_chain fields_of strtoul
no_server = refl

hi_held :
    length (format_message (written test_uid (codes "1") (codes "hi")) ++ codes "lo") < buffer_size
unfolding format_message print_int decimal decimal_loop
hi_held = omega arith

hi-IsLogged : IsLogged (server.clients 1).id (written test_uid (codes "1") (codes "hi"))
unfolding print_int decimal decimal_loop avoids?
hi-IsLogged = record {
  short = omega arith;
  plain =
      avoids?-Avoids b'%'
        (received_line (server.clients 1).id (written test_uid (codes "1") (codes "hi"))) refl;
}

press_enter-undelivered_example :
    ((sent : Bool) × (press_enter test_env test_ssl blank window
        ≡ after_send test_env test_ssl sent (record window {
          session = record window.session {
            connection = format_message (written test_uid (codes "1") (codes "hi"));
          };
        })))
    × ((receive test_env test_ssl true 1
            (format_message (written test_uid (codes "1") (codes "hi")) ++ codes "lo")
            blank
            server
          >>= λ t. handle_queued test_ssl (λ p. leb 8 p) true (some 9) t.0)
        ≡ ok server)
press_enter-undelivered_example =
    press_enter-undelivered test_env test_ssl blank blank window (codes "1") test_uid (codes "lo") 1
      9 (λ p. leb 8 p) server (refl, refl, refl, refl) refl (test_hash (codes "hi")) hi-IsSendable
      (omega arith) (omega arith) (omega arith) (omega arith) hi_held hi-IsLogged
      two_clients-IsValid no_server refl refl
