-- ===== src/Handshake/Sent.antt =====
-- What the server writes where it lets a client in.
use secure_chat.Prelude.{
  ◌≤◌, ◌<◌, ◌≡◌, refl, Bool, true, false, some, ◌∷◌, Text, length, length-append, take_all, ok,
  Returns, Bool-cases, inl, inr, arith,
}
use secure_chat.Connection.{Ptr, ClientConnection, write_self}
use secure_chat.Protocol.Number.{ℤ, print_int, decimal}
use secure_chat.Protocol.Number.RoundTrip.{IsInt}
use secure_chat.Protocol.Codes.{message_auth, message_uid}
use secure_chat.Protocol.Create.{Env}
use secure_chat.Protocol.Create.Bounds.{built, built-IsSized, create_message-built}
use secure_chat.Protocol.Wire.{Ssl, delimiter, is_positive, format_message}
use secure_chat.Protocol.Wire.Send.{send_message-whole}
use secure_chat.Client.{client_default_name}
use secure_chat.Auth.Dialog.{
  Db, Wire, Account, success, server_name, say, say_code, uid_line, finalize, close_db, set_request,
}
use secure_chat.Auth.Login.{greet_user}
use secure_chat.Auth.Register.{welcome_user}
use secure_chat.Protocol.Wire.Sendable.{IsIdentifier}
use secure_chat.Handshake.{code_of, admission, uid_payload, naming, greets}

module _ (env : Env) (ssl : Ssl) where
  say-sent :
      (type : ℤ) (p id : Text) (w : Wire ssl)
      → IsInt type
      → IsIdentifier env p id
      → 0 < length p
      → length p < 2048
      → Returns (say env ssl type p w) (λ w'.
        w'.connection
        ≡ (ssl.write w.connection
            (format_message (built id type server_name client_default_name p))).1)
  unfolding say
  say-sent type p id w int is some_bytes short =
      let m = built id type server_name client_default_name p in
      let made =
        create_message-built env w.msg type server_name client_default_name p id is.hash is.wide
          (omega arith) (omega arith) some_bytes short in
      let sized = built-IsSized id type server_name client_default_name p is.wide short in
      let whole = send_message-whole ssl w.connection m sized int in
      elim (Bool-cases (is_positive (ssl.write w.connection (format_message m)).0)) [
        | inl taken ↦ simp (made, whole, taken) (_, refl, refl)
        | inr refused ↦ simp (made, whole, refused) (_, refl, refl)
      ]

  -- The connection behind the two lines.
  abbrev pub both_lines : ssl.State → Bool → Text → Text → Text → Text → ssl.State
  both_lines c fresh id1 id2 name uid =
      (ssl.write (ssl.write c (format_message (admission fresh id1))).1
        (format_message (naming id2 name uid))).1

  code_is_short :
      (fresh : Bool)
      → (0 < length (print_int (code_of fresh))) × (length (print_int (code_of fresh)) < 2048)
  unfolding print_int decimal
  code_is_short false = (omega arith, omega arith)
  code_is_short true = (omega arith, omega arith)

  uid_line-whole :
      (c : ClientConnection) (name uid : Text)
      → c.username ≡ name
      → c.uid ≡ some uid
      → length uid ≤ 128
      → uid_line c ≡ uid_payload name uid
  unfolding uid_line
  uid_line-whole c name uid e e' short =
      rw (e, e')
        (take_all _ (uid_payload name uid) (omega (arith, length-append name (delimiter ∷ uid))))

  says_both :
      (fresh : Bool) (w : Wire ssl) (name uid id1 id2 line : Text)
      → IsIdentifier env (print_int (code_of fresh)) id1
      → IsIdentifier env (uid_payload name uid) id2
      → length name ≤ 15
      → length uid ≤ 128
      → line ≡ uid_payload name uid
      → (w1 : Wire ssl) × (w2 : Wire ssl) × (say_code env ssl message_auth (code_of fresh) w
          ≡ ok w1)
        × (say env ssl message_uid line w1 ≡ ok w2)
        × (w2.connection ≡ both_lines w.connection fresh id1 id2 name uid)
  unfolding say_code
  says_both fresh w name uid id1 id2 line is1 is2 short_name short_uid e =
      let (some_bytes, short) = code_is_short fresh in
      let wide = length-append name (delimiter ∷ uid) in
      let (w1, first, c1) =
        say-sent message_auth (print_int (code_of fresh)) id1 w (omega arith) is1 some_bytes
          short in
      let (w2, second, c2) =
        say-sent message_uid (uid_payload name uid) id2 w1 (omega arith) is2 (omega (arith, wide))
          (omega (arith, wide)) in
      (w1, w2, first, rw e second, rw (c2, c1) refl)

  -- Where the connection takes the lines or not, a login or a registration that has come to its end
  -- writes two of them, the code and behind it the UID with the name, and succeeds.
  pub greets-sent :
      (db : Db) (malloc : Bool) (req : Ptr) (fresh : Bool) (w : Wire ssl) (a : Account db)
      (name uid id1 id2 : Text)
      → (a.clients a.cl).username ≡ name
      → (a.clients a.cl).uid ≡ some uid
      → IsIdentifier env (print_int (code_of fresh)) id1
      → IsIdentifier env (uid_payload name uid) id2
      → length name ≤ 15
      → length uid ≤ 128
      → Returns
          (greets env ssl db malloc req fresh w a)
          (λ r. (r.0.connection ≡ both_lines w.connection fresh id1 id2 name uid) × (r.2 ≡ success))
  unfolding greet_user welcome_user set_request close_db finalize
  greets-sent db malloc req false w a name uid id1 id2 named has is1 is2 short_name short_uid =
      let c : ClientConnection = record (a.clients a.cl) { req = some req } in
      let own = write_self a.clients a.cl c in
      let line = uid_line-whole c name uid named has short_uid in
      let (w1, w2, first, second, end) =
        says_both false w name uid id1 id2 (uid_line c) is1 is2 short_name short_uid line in
      simp (first, own, second) (_, refl, (end, refl))
  greets-sent db malloc req true w a name uid id1 id2 named has is1 is2 short_name short_uid =
      let c : ClientConnection = record (a.clients a.cl) { req = some req } in
      let own = write_self a.clients a.cl c in
      let line = uid_line-whole c name uid named has short_uid in
      let (w1, w2, first, second, end) =
        says_both true w name uid id1 id2 (uid_line c) is1 is2 short_name short_uid line in
      simp (first, own, second) (_, refl, (end, refl))
