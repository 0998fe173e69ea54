-- ===== src/Client/Handler.antt =====
-- `handle_message` of client/src/client_msg_handler.c.
pub mod Uid
pub mod Trust
pub mod Signal
pub mod Ping
use secure_chat.Prelude.{
  ℕ, Bool, true, false, not, ◌&&◌, ◌||◌, Option, none, some, [], ◌∷◌, ◌==◌, if◌then◌else◌, Text,
  codes, text_eq, take, Run, ok, fault, null_pointer, ◌>>=◌,
}
use secure_chat.Protocol.{Message}
use secure_chat.Protocol.Number.{ℤ, pos, atoi}
use secure_chat.Protocol.Codes.{
  int_eq, message_choice, message_broadcast, message_ping, message_ack, message_signal,
  message_auth, message_auth_attemps, message_uid, message_user_join, message_user_leave,
  message_toast, message_code_enter_username, message_code_enter_password,
  message_code_enter_password_confirmation, message_code_user_register_info, message_code_try_again,
  message_code_user_register_choice, message_code_user_already_online,
  message_code_user_authenticated, message_code_user_created, message_code_user_does_not_exist,
}
use secure_chat.Protocol.Names.{message_code_to_string}
use secure_chat.Protocol.Create.{Arg, null, text, Env, create_message}
use secure_chat.Protocol.Wire.{Ssl, send_message, message_send_success}
use secure_chat.Client.{Client, ClientState, client_default_name, reset_state}
use secure_chat.Client.Display.{Display, add_message}
use Uid.{store_uid}

-- What the handler reads and writes, through its arguments and the globals of the window.
pub record Session (ssl : Ssl) : Type 0 where
  pub connection : ssl.State
  pub msg : Message
  pub cl : Client
  pub cl_state : ClientState
  pub reconnect_flag : Bool
  pub quit_flag : Bool
  pub server_answer : Bool
  pub display : Display

-- How a call ends: a return, `pthread_exit`, or `exit`.
pub data Ending : Type 0 where
  returned thread_exit process_exit : Ending

abbrev pub server_name : Text
server_name = codes "server"

-- `msg_from_srv`
abbrev pub from_server : Message → Bool
from_server m = text_eq m.sender_uid server_name

-- The pointer `cl->uid`
abbrev pub uid_arg : Option Text → Arg
uid_arg none = null
uid_arg (some u) = text u

-- `msg->type == type && !strcmp(msg->payload, message_code_to_string(code))`
unfoldable pub is_code : Message → ℤ → ℤ → Bool
is_code m type code = int_eq m.type type && text_eq m.payload (message_code_to_string code)

-- The branches on codes of the server; `none` where none of them is taken.
unfoldable pub auth_branch : Message → ClientState → Option ClientState
auth_branch m s =
    if is_code m message_auth message_code_enter_username
    then some (record s { just_joined = false; is_entering_username = true })
    else if is_code m message_auth message_code_enter_password
    then some (record s { is_entering_username = false; is_entering_password = true })
    else if is_code m message_auth message_code_enter_password_confirmation
    then some (record s { is_entering_password = false; is_confirming_password = true })
    else if is_code m message_auth message_code_user_register_info
    then some (record s { can_register = true })
    else if is_code m message_auth message_code_try_again
    then some (record s { can_register = false })
    else if is_code m message_choice message_code_user_register_choice
    then some (record s { is_entering_username = false; is_choosing_register = true })
    else if is_code m message_auth message_code_user_already_online
    then some (reset_state s)
    else if is_code m message_auth message_code_user_authenticated
    then some (record s { is_entering_password = false; is_authenticated = true })
    else if is_code m message_auth message_code_user_created
    then some (record s { is_confirming_password = false; is_authenticated = true })
    else if is_code m message_auth message_code_user_does_not_exist
    then some s
    else none

-- The `switch` on the attempts that are left.
unfoldable pub attempts_branch : ClientState → ℤ → ClientState
attempts_branch s n =
    if int_eq n (pos 3)
    then record s { auth_attempts = pos 3 }
    else if int_eq n (pos 2)
    then record s { auth_attempts = pos 2 }
    else if int_eq n (pos 1)
    then record s { auth_attempts = pos 1 }
    else s

module _ (env : Env) (ssl : Ssl) where
  abbrev Handled : Type 0
  Handled = Run (Session ssl × Ending)

  -- A PING of the server: the ACK is built in the same message and sent.
  unfoldable pub answer_ping : Session ssl → Handled
  answer_ping s = do
    (made, code) ←
        create_message env (some s.msg) message_ack (uid_arg s.cl.uid) (text server_name)
          (text (codes "ACK"))
    let (c, sent, result) = send_message ssl s.connection made
    let m : Message = elim sent [ none ↦ s.msg | some m' ↦ m' ]
    ok (
        if result == message_send_success
        then (record s { connection = c; msg = m }, returned)
        else (record s { connection = c; msg = m; reconnect_flag = true }, thread_exit))

  -- The branches behind the codes, from MESSAGE_UID on.
  unfoldable pub other_branch : Session ssl → Handled
  other_branch s =
      if int_eq s.msg.type message_uid && from_server s.msg
      then (do
        cl' ← store_uid env.uid_memory s.cl s.msg.payload
        ok (record s { cl = cl' }, returned))
      else if int_eq s.msg.type message_signal
      then if text_eq s.msg.payload (codes "QUIT") || text_eq s.msg.payload (codes "EXIT")
        then if from_server s.msg
          then ok (s, returned)
          else ok (record s { reconnect_flag = false; quit_flag = true }, process_exit)
        else ok (s, returned)
      else if int_eq s.msg.type message_auth_attemps && from_server s.msg
      then (do
        n ← atoi s.msg.payload
        ok (record s { cl_state = attempts_branch s.cl_state n }, returned))
      else if int_eq s.msg.type message_user_join && from_server s.msg
      then ok (s, returned)
      else if int_eq s.msg.type message_user_leave && from_server s.msg
      then ok (s, returned)
      else if int_eq s.msg.type message_broadcast && from_server s.msg
      then (do
        d ← add_message s.display (codes "Server") s.msg.payload
        ok (record s { display = d }, returned))
      else if int_eq s.msg.type message_toast && from_server s.msg
      then (do code ← atoi s.msg.payload; ok (s, returned))
      else if from_server s.msg
      then (do
        code ← atoi s.msg.payload
        d ← add_message s.display s.msg.sender_uid s.msg.payload
        ok (record s { display = d }, returned))
      else ok (s, returned)

  -- The chain behind the filter.
  unfoldable pub dispatch : Session ssl → Handled
  dispatch s = elim (if from_server s.msg then auth_branch s.msg s.cl_state else none) [
    | some next ↦ ok (record s { cl_state = next }, returned)
    | none ↦ other_branch s
  ]

  -- Messages that are addressed to somebody else are dropped.
  unfoldable pub is_misaddressed : Session ssl → Text → Bool
  is_misaddressed s uid =
      if s.cl_state.is_authenticated
      then not (text_eq (take 128 s.msg.recipient_uid) (take 128 uid))
        && not (int_eq s.msg.type message_uid)
      else not (text_eq uid client_default_name)

  unfoldable pub handle_message : Session ssl → Handled
  handle_message s =
      if int_eq s.msg.type message_ping
      then if from_server s.msg then answer_ping s else ok (s, returned)
      else if int_eq s.msg.type message_ack
      then ok (if from_server s.msg then record s { server_answer = true } else s, returned)
      else elim s.cl.uid [
        | none ↦ fault null_pointer
        | some uid ↦ if is_misaddressed s uid then ok (s, returned) else dispatch s
      ]
