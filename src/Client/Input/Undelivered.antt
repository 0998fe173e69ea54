-- ===== src/Client/Input/Undelivered.antt =====
-- A text that is written in the window, from the client through the server.
use secure_chat.Prelude.{
  ◌≡◌, ◌≤◌, ◌<◌, refl, Bool, true, false, none, some, [], ◌∷◌, ◌++◌, length, Text, ok, ◌>>=◌, arith,
  Bool-cases, inl, inr,
}
use secure_chat.Connection.{Ptr}
use secure_chat.HashMap.Table.{IsValid, lookup}
use secure_chat.Protocol.{Message, buffer_size}
use secure_chat.Server.Line.{IsLogged}
use secure_chat.Protocol.Codes.{message_text}
use secure_chat.Protocol.Hash.{get_hash}
use secure_chat.Protocol.Create.{Env, uid_before_hash}
use secure_chat.Protocol.Create.Bounds.{built, built-IsSized, create_message-built}
use secure_chat.Protocol.Wire.{Ssl, is_positive, format_message}
use secure_chat.Protocol.Wire.Send.{send_message-whole}
use secure_chat.Protocol.Wire.RoundTrip.{IsSendable}
use secure_chat.Client.Handler.{server_name}
use secure_chat.Client.Handler.Ping.{error_code-fails}
use secure_chat.Client.Input.{Window, input_type, name_input, after_send, press_enter}
use secure_chat.Server.{Server, receive, handle_queued}
use secure_chat.Server.Receive.{receive-queued}
use secure_chat.Server.Route.{handle_queued-dropped}

-- The text from this client to "server".
abbrev pub written : Text → Text → Text → Message
written uid u input = built uid message_text u server_name input

-- The client is past the dialog, and not yet or no longer in the display's way.
abbrev pub IsWriting : {ssl : Ssl} → Window ssl → Type 0
IsWriting w =
    ((w.session.cl_state.is_entering_username) ≡ false)
    × (w.session.cl_state.is_entering_password ≡ false)
    × (w.session.cl_state.is_confirming_password ≡ false)
    × (w.session.cl_state.is_choosing_register ≡ false)

-- Enter writes the line of that message, whole, to the connection.
press_enter-line :
    (env : Env) (ssl : Ssl) (msg : Message) (w : Window ssl) (u uid : Text)
    → IsWriting w
    → w.session.cl.uid ≡ some u
    → length u ≤ 129
    → 0 < length w.input
    → length w.input < 2048
    → get_hash env.evp (uid_before_hash env w.input) ≡ some uid
    → length uid ≤ 128
    → (sent : Bool) × (press_enter env ssl msg w
        ≡ after_send env ssl sent (record w {
          session = record w.session {
            connection =
                (ssl.write w.session.connection (format_message (written uid u w.input))).1;
          };
        }))
unfolding press_enter name_input input_type
press_enter-line env ssl msg w u uid (a, b, c, d) has short some_text fits hash wide =
    let made =
      create_message-built env msg message_text u server_name w.input uid hash wide short
        (omega arith) some_text fits in
    let sized = built-IsSized uid message_text u server_name w.input wide fits in
    let whole =
      send_message-whole ssl w.session.connection (written uid u w.input) sized (omega arith) in
    let put = ssl.write w.session.connection (format_message (written uid u w.input)) in
    elim (Bool-cases (is_positive put.0)) [
      | inl taken ↦ (true, simp (a, b, c, d, has, made, whole, taken))
      | inr refused ↦ (
        false,
        simp (a, b, c, d, has, made, whole, refused, error_code-fails (ssl.get_error put.1 put.0)),
      )
    ]

-- A text that a client past the dialog writes and ends with Enter goes out as one whole line, whose message is
-- addressed to "server". Where such a line can be parsed and logged, which it cannot be with a percent sign in
-- it, and a NUL stands behind it in the buffer, a server whose table holds no such UID receives the line and drops the message: it is
-- written to no client, and nothing of the server changes.
pub press_enter-undelivered :
    (env : Env) (ssl : Ssl) (msg old : Message) (w : Window ssl) (u uid rest : Text)
    (cl fresh : Ptr) (heap : Ptr → Bool) (srv : Server ssl)
    → IsWriting w
    → w.session.cl.uid ≡ some u
    → get_hash env.evp (uid_before_hash env w.input) ≡ some uid
    → IsSendable (written uid u w.input)
    → length u ≤ 128
    → length uid ≤ 128
    → 0 < length w.input
    → length w.input < 2048
    → length (format_message (written uid u w.input) ++ rest) < buffer_size
    → IsLogged (srv.clients cl).id (written uid u w.input)
    → IsValid srv.clients srv.client_map
    → lookup srv.clients srv.client_map server_name ≡ none
    → srv.message_queue ≡ []
    → heap fresh ≡ true
    → ((sent : Bool) × (press_enter env ssl msg w
          ≡ after_send env ssl sent (record w {
            session = record w.session {
              connection =
                  (ssl.write w.session.connection (format_message (written uid u w.input))).1;
            };
          })))
      × ((receive env ssl true cl (format_message (written uid u w.input) ++ rest) old srv >>= λ t.
            handle_queued ssl heap true (some fresh) t.0)
          ≡ ok (record srv { message_queue = [] }))
press_enter-undelivered env ssl msg old w u uid rest cl fresh heap srv writing has hash is short
      wide some_text fits held logged valid absent empty own =
    let m : Message = written uid u w.input in
    let got = receive-queued env ssl cl m old rest srv is refl refl held logged in
    let queued : srv.message_queue ++ (m ∷ []) ≡ m ∷ [] = rw empty refl in
    let loaded : Server ssl = record srv { message_queue = srv.message_queue ++ (m ∷ []) } in
    (
      press_enter-line env ssl msg w u uid writing has (omega arith) some_text fits hash wide,
      rw got (handle_queued-dropped ssl heap fresh m [] loaded queued valid absent own),
    )
