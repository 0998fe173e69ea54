-- ===== src/Tests/Client.antt =====
-- Examples of the theorems on the client.
use secure_chat.Prelude.{
  ◌≡◌, refl, [], some, Text, codes, replicate, ok, Returns, arith, true, false,
}
use secure_chat.Tests.{test_uid, test_hash}
use secure_chat.Client.Handler.Ping.{ack, answered, handle_message-ping}
use secure_chat.Protocol.Codes.{message_ping}
use secure_chat.Tests.{test_env, test_ssl, hello}
use secure_chat.Protocol.{Message}
use secure_chat.Protocol.Number.{print_int, decimal}
use secure_chat.Protocol.Codes.{message_signal, message_auth}
use secure_chat.Protocol.Names.{message_code_to_string}
use secure_chat.Client.{ClientState, initial_state}
use secure_chat.Client.Display.{Display}
use secure_chat.Client.Handler.{
  Session, returned, process_exit, handle_message, dispatch, is_misaddressed, auth_branch, is_code,
}
use secure_chat.Client.Handler.Trust.{
  Untouched, IsAdmission, handle_message-Untouched, handle_message-IsAdmission,
}
use secure_chat.Client.Handler.Signal.{handle_message-quit, handle_message-keeps}

abbrev display : Display
display = record { messages = replicate 10 []; message_count = 9 }

abbrev pub session_of : Text → ClientState → Message → Session test_ssl
session_of uid state msg = record {
  connection = [];
  msg = msg;
  cl = record { uid = some uid; username = codes "ann" };
  cl_state = state;
  reconnect_flag = true;
  quit_flag = false;
  server_answer = false;
  display = display;
}

abbrev logged_in : ClientState
logged_in = record initial_state { is_authenticated = true }

abbrev quit : Message
quit = record hello { type = message_signal; payload = codes "QUIT" }

abbrev quitting : Session test_ssl
quitting = session_of (codes "2") logged_in quit

abbrev stray : Session test_ssl
stray = session_of (codes "3") logged_in hello

abbrev ended : Session test_ssl
ended = record quitting { reconnect_flag = false; quit_flag = true }

handle_message-keeps_example : ended.cl ≡ quitting.cl
handle_message-keeps_example =
    handle_message-keeps test_env test_ssl quitting ended process_exit (codes "2") refl
      (λ e. ground arith)
      (handle_message-quit test_env test_ssl quitting (codes "2") refl refl refl refl refl)

handle_message-Untouched_example :
    Returns (handle_message test_env test_ssl stray) (λ r. Untouched test_ssl stray r.0)
handle_message-Untouched_example =
    handle_message-Untouched test_env test_ssl stray (codes "3") refl refl

abbrev admission : Message
admission = record hello {
  type = message_auth;
  sender_uid = codes "server";
  payload = codes "2361";
}

abbrev guest : Session test_ssl
guest = session_of (codes "client") initial_state admission

admitted :
    handle_message test_env test_ssl guest
    ≡ ok (
      record guest {
        cl_state = record initial_state { is_entering_password = false; is_authenticated = true };
      },
      returned,
    )
unfolding handle_message dispatch is_misaddressed auth_branch is_code message_code_to_string
    print_int decimal
admitted = refl

handle_message-IsAdmission_example : IsAdmission admission
handle_message-IsAdmission_example =
    handle_message-IsAdmission test_env test_ssl guest
      (record guest {
        cl_state = record initial_state { is_entering_password = false; is_authenticated = true };
      })
      returned admitted refl refl

abbrev ping : Message
ping = record hello { type = message_ping; sender_uid = codes "server" }

abbrev pinged : Session test_ssl
pinged = session_of (codes "2") logged_in ping

handle_message-ping_example :
    handle_message test_env test_ssl pinged
    ≡ ok (answered test_ssl pinged (ack test_uid (codes "2")))
handle_message-ping_example =
    handle_message-ping test_env test_ssl pinged (codes "2") test_uid refl (omega arith)
      (test_hash (codes "ACK")) (omega arith) refl refl
