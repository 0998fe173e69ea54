-- ===== src/Client/Input.antt =====
-- The keys of the client's window, in `ui_cycle` of client/src/client_gui.c.
pub mod Keys
pub mod Undelivered
use secure_chat.Prelude.{
  ℕ, ◌+◌, ◌-◌, ◌%◌, ◌==◌, ltb, not, ◌||◌, Bool, true, false, Option, none, some, List, [], ◌∷◌,
  ◌++◌, length, take, snprintf, if◌then◌else◌, Text, Run, ok, ◌>>=◌,
}
use secure_chat.Protocol.{Message}
use secure_chat.Protocol.Number.{ℤ}
use secure_chat.Protocol.Codes.{message_auth, message_choice, message_text}
use secure_chat.Protocol.Create.{Env, text, create_message}
use secure_chat.Protocol.Wire.{Ssl, send_message, message_send_success}
use secure_chat.Client.{ClientState}
use secure_chat.Client.Display.{add_message}
use secure_chat.Client.Handler.{Session, server_name, uid_arg}

abbrev pub max_input_length : ℕ
max_input_length = 128

-- What the threads share, and the text that is being written.
pub record Window (ssl : Ssl) : Type 0 where
  pub session : Session ssl
  pub input : Text

-- The key of a turn: Enter, with what the memory of the message held; Backspace, and whether its delay
-- is over; Escape; or a character, 0 for none.
pub data Key : Type 0 where
  enter : Message → Key
  backspace : Bool → Key
  escape : Key
  char : ℕ → Key

unfoldable pub input_type : ClientState → ℤ
input_type s =
    if s.is_entering_username || s.is_entering_password || s.is_confirming_password
    then message_auth
    else if s.is_choosing_register
    then message_choice
    else message_text

module _ (env : Env) (ssl : Ssl) where
  -- The username is cut to 15 bytes.
  unfoldable pub name_input : Window ssl → Window ssl
  name_input w =
      if w.session.cl_state.is_entering_username
      then record w {
        session = record w.session {
          cl = record w.session.cl { username = snprintf 16 (take 15 w.input) };
        };
      }
      else w

  -- Behind `send_message`
  unfoldable pub after_send : Bool → Window ssl → Run (Window ssl)
  after_send false w =
      ok (record w { session = record w.session { reconnect_flag = true }; input = [] })
  after_send true w =
      if w.session.cl_state.is_authenticated
      then (add_message w.session.display w.session.cl.username w.input >>= λ d.
          ok (record w { session = record w.session { display = d }; input = [] }))
      else ok (record w { input = [] })

  unfoldable pub press_enter : Message → Window ssl → Run (Window ssl)
  press_enter msg w = do
    let w1 = name_input w
    (made, code) ←
        create_message env (some msg) (input_type w1.session.cl_state) (uid_arg w1.session.cl.uid)
          (text server_name) (text w1.input)
    let (c, sent, result) = send_message ssl w1.session.connection made
    after_send (result == message_send_success)
        (record w1 { session = record w1.session { connection = c } })

  -- `input[len - 1] = '\0'`
  unfoldable pub press_backspace : Bool → Window ssl → Window ssl
  press_backspace over w =
      if over then record w { input = take (length w.input - 1) w.input } else w

  -- A character is stored as a byte.
  unfoldable pub press_char : ℕ → Window ssl → Window ssl
  press_char c w =
      if ltb (length w.input) (max_input_length - 1)
      then if c % 256 == 0 then w else record w { input = w.input ++ (c % 256 ∷ []) }
      else w

  -- A turn; `false` where the process ends.
  unfoldable pub ui_cycle : Key → Window ssl → Run (Window ssl × Bool)
  ui_cycle (enter msg) w = press_enter msg w >>= λ w1. ok (w1, true)
  ui_cycle (backspace over) w = ok (press_backspace over w, true)
  ui_cycle escape w = ok (w, false)
  ui_cycle (char c) w = ok (press_char c w, true)
