-- ===== src/Client/Handler/Trust.antt =====
-- What `handle_message` of client/src/client_msg_handler.c takes from a sender that is not the
-- server.
use secure_chat.Prelude.{
  ◌≡◌, refl, if◌then◌else◌, Bool, true, false, some, ◌&&◌, ◌||◌, Text, text_eq, codes, ok, Returns,
  arith,
}
use secure_chat.Protocol.Codes.{
  message_signal, message_ping, message_ack, int_eq, message_auth, message_code_user_authenticated,
  message_code_user_created,
}
use secure_chat.Protocol.Wire.{Ssl}
use secure_chat.Protocol.{Message}
use secure_chat.Protocol.Create.{Env}
use secure_chat.Client.{ClientState, reset_state}
use secure_chat.Client.Handler.{
  Session, Ending, returned, process_exit, from_server, is_code, auth_branch, answer_ping,
  attempts_branch, other_branch, dispatch, is_misaddressed, handle_message,
}

-- Nothing but the two flags that end the program differs.
unfoldable pub Untouched : (ssl : Ssl) → Session ssl → Session ssl → Type 0
Untouched ssl s t =
    (t.connection ≡ s.connection)
    × (t.cl ≡ s.cl)
    × (t.cl_state ≡ s.cl_state)
    × (t.server_answer ≡ s.server_answer)
    × (t.display ≡ s.display)

-- The quit signal: `msg->type == MESSAGE_SIGNAL` and one of the two texts.
unfoldable pub is_quit : Message → Bool
is_quit m =
    int_eq m.type message_signal
    && (text_eq m.payload (codes "QUIT") || text_eq m.payload (codes "EXIT"))

-- What the chain behind the filter makes of a sender that is not the server.
unfoldable pub foreign_end : (ssl : Ssl) → Session ssl → Session ssl × Ending
foreign_end ssl s =
    if is_quit s.msg
    then (record s { reconnect_flag = false; quit_flag = true }, process_exit)
    else (s, returned)

module _ (env : Env) (ssl : Ssl) (s : Session ssl) where
  pub other_branch-foreign :
      from_server s.msg ≡ false → other_branch env ssl s ≡ ok (foreign_end ssl s)
  unfolding other_branch foreign_end is_quit
  other_branch-foreign foreign = ground arith

  dispatch-foreign : from_server s.msg ≡ false → dispatch env ssl s ≡ ok (foreign_end ssl s)
  unfolding dispatch
  dispatch-foreign foreign = rw (foreign, dispatch, other_branch-foreign foreign) refl

  foreign_end-Untouched : Untouched ssl s (foreign_end ssl s).0
  unfolding foreign_end Untouched
  foreign_end-Untouched = ground arith

  abbrev foreign_result : Text → Session ssl × Ending
  foreign_result u =
      if int_eq s.msg.type message_ping
        || int_eq s.msg.type message_ack
        || is_misaddressed env ssl s u
      then (s, returned)
      else foreign_end ssl s

  pub handle_message-foreign :
      (u : Text)
      → s.cl.uid ≡ some u
      → from_server s.msg ≡ false
      → handle_message env ssl s ≡ ok (foreign_result u)
  unfolding handle_message
  handle_message-foreign u e foreign = ground (arith, dispatch-foreign foreign)

  foreign_result-Untouched : (u : Text) → Untouched ssl s (foreign_result u).0
  unfolding Untouched
  foreign_result-Untouched u = ground (arith, foreign_end-Untouched)

  -- A message whose sender is not "server" makes the handler of a client with a UID return, or end
  -- the process, with the connection, the client, its state, the answer flag and the shown messages
  -- unchanged.
  pub handle_message-Untouched :
      (u : Text)
      → s.cl.uid ≡ some u
      → from_server s.msg ≡ false
      → Returns (handle_message env ssl s) (λ r. Untouched ssl s r.0)
  handle_message-Untouched u e foreign =
      (foreign_result u, handle_message-foreign u e foreign, foreign_result-Untouched u)

unfoldable pub IsAdmission : Message → Type 0
IsAdmission m =
    (from_server m ≡ true)
    × ((is_code m message_auth message_code_user_authenticated
          || is_code m message_auth message_code_user_created)
        ≡ true)

auth_branch-admits :
    (m : Message) (s t : ClientState)
    → s.is_authenticated ≡ false
    → auth_branch m s ≡ some t
    → t.is_authenticated ≡ true
    → (is_code m message_auth message_code_user_authenticated
        || is_code m message_auth message_code_user_created)
      ≡ true
unfolding auth_branch reset_state
auth_branch-admits m s t out e now = ground arith

module _ (env : Env) (ssl : Ssl) (s t : Session ssl) (how : Ending) where
  other_branch-same :
      other_branch env ssl s ≡ ok (t, how)
      → t.cl_state.is_authenticated ≡ s.cl_state.is_authenticated
  unfolding other_branch attempts_branch
  other_branch-same e = ground arith

  answer_ping-same : answer_ping env ssl s ≡ ok (t, how) → t.cl_state ≡ s.cl_state
  unfolding answer_ping
  answer_ping-same e = ground arith

  -- If the client was not authenticated before a message and is authenticated behind it, the message
  -- is an AUTH message of "server" whose payload is the code for an authenticated or a new user.
  pub handle_message-IsAdmission :
      handle_message env ssl s ≡ ok (t, how)
      → s.cl_state.is_authenticated ≡ false
      → t.cl_state.is_authenticated ≡ true
      → IsAdmission s.msg
  unfolding handle_message dispatch IsAdmission
  handle_message-IsAdmission e out now = ground (
    arith,
    other_branch-same,
    answer_ping-same,
    auth_branch-admits s.msg s.cl_state t.cl_state out,
  )
