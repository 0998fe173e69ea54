-- ===== src/Client/Receive.antt =====
-- The thread of the client that reads, `receive_messages` of client/src/client.c.
pub mod Stall
use secure_chat.Prelude.{
  ℕ, leb, Bool, true, false, not, Option, none, some, List, [], ◌∷◌, length, until_nul,
  if◌then◌else◌, Text, Run, ok, fault, out_of_bounds, ◌>>=◌,
}
use secure_chat.Protocol.{Message, buffer_size}
use secure_chat.Protocol.Create.{Env}
use secure_chat.Protocol.Wire.{Ssl, parse_message}
use secure_chat.Client.Handler.{
  Session, Ending, returned, thread_exit, process_exit, handle_message,
}

module _ (env : Env) (ssl : Ssl) where
  abbrev pub Handled : Type 0
  Handled = Run (Session ssl × Ending)

  -- Behind a read of `nbytes` bytes, of which `line` are those up to the first NUL: the NUL is written
  -- behind the last byte, then the line is parsed and handled.
  unfoldable pub handle_line : ℕ → Text → Session ssl → Handled
  handle_line nbytes line s =
      if leb buffer_size nbytes
      then fault out_of_bounds
      else (parse_message (record s.msg { payload = []; payload_length = 0 }) line >>= λ m.
          handle_message env ssl (record s { msg = m }))

  unfoldable pub read_line : Session ssl → Handled
  read_line s =
      let (got, c) = ssl.read s.connection in
      elim got [
        | none ↦ ok (record s { connection = c; reconnect_flag = true }, returned)
        | some bytes ↦ handle_line (length bytes) (until_nul bytes) (record s { connection = c })
      ]

  -- `has_ssl` tells whether `cl.ssl` is not NULL.
  unfoldable pub with_uid : Bool → Option Text → Session ssl → Handled
  with_uid has_ssl none s = ok (s, returned)
  with_uid has_ssl (some uid) s =
      if has_ssl then read_line s else ok (record s { reconnect_flag = true }, returned)

  -- A turn of the loop.
  unfoldable pub receive_turn : Bool → Session ssl → Handled
  receive_turn has_ssl s =
      if s.reconnect_flag
      then ok (s, returned)
      else if not s.cl_state.is_connected
      then ok (s, returned)
      else with_uid has_ssl s.cl.uid s

  unfoldable pub next_turn : (Session ssl → Handled) → Session ssl × Ending → Handled
  next_turn next (s, returned) = next s
  next_turn next (s, thread_exit) = ok (s, thread_exit)
  next_turn next (s, process_exit) = ok (s, process_exit)

  unfoldable pub receive_messages : List Bool → Session ssl → Handled
  receive_messages [] s = ok (s, returned)
  receive_messages (has_ssl ∷ turns) s =
      if s.quit_flag
      then ok (s, thread_exit)
      else (receive_turn has_ssl s >>= next_turn (λ s'. receive_messages turns s'))
