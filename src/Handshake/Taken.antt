-- ===== src/Handshake/Taken.antt =====
-- What the client makes of the lines that let it in.
use secure_chat.Prelude.{
  ◌<◌, ◌≡◌, refl, Bool, true, false, some, [], ◌∷◌, Text, Avoids, leb, length, length-append,
  text_eq, text_eq_refl, ok, ◌>>=◌, arith,
}
use secure_chat.Protocol.{Message, buffer_size}
use secure_chat.Protocol.Number.{ℤ, print_int, decimal}
use secure_chat.Protocol.Names.{message_code_to_string}
use secure_chat.Protocol.Number.RoundTrip.{IsInt}
use secure_chat.Protocol.Codes.{message_auth, message_uid}
use secure_chat.Handshake.Words.{store_uid-payload, avoids_newline, Avoids-append}
use secure_chat.Protocol.Create.{Env}
use secure_chat.Protocol.Create.Bounds.{built}
use secure_chat.Protocol.Wire.{Ssl, delimiter, format_message}
use secure_chat.Protocol.Wire.RoundTrip.{IsSendable, parse_message-format_message}
use secure_chat.Client.{Client, ClientState, client_default_name}
use secure_chat.Client.Handler.{
  Session, returned, server_name, is_code, auth_branch, other_branch, dispatch, is_misaddressed,
  handle_message,
}
use secure_chat.Client.Handler.Uid.{assign_uid}
use secure_chat.Client.Receive.{handle_line}
use secure_chat.Handshake.{code_of, admission, uid_payload, naming, takes, IsAccount}
use secure_chat.Protocol.Wire.Sendable.{IsIdentifier, IsName, built-IsSendable, sendable_is_short}

pub server_name-IsName : IsName server_name
server_name-IsName = record {
  wide = omega arith;
  not_empty = omega arith;
  clean = (refl, (refl, (refl, (refl, (refl, (refl, tt))))));
}

default-IsName : IsName client_default_name
default-IsName = record {
  wide = omega arith;
  not_empty = omega arith;
  clean = (refl, (refl, (refl, (refl, (refl, (refl, tt))))));
}

-- Lines of the server to a client without a UID of its own.
pub greeting-IsSendable :
    (env : Env) (type : ℤ) (id p : Text)
    → IsIdentifier env p id
    → IsInt type
    → 0 < length p
    → length p < 2048
    → Avoids b'\n' p
    → IsSendable (built id type server_name client_default_name p)
greeting-IsSendable env type id p is int =
    built-IsSendable env type id server_name client_default_name p is int server_name-IsName
      default-IsName

assign_uid-default :
    (cl : Client) (name uid : Text)
    → cl.uid ≡ some client_default_name
    → cl.username ≡ name
    → assign_uid true cl name uid ≡ ok (record cl { uid = some uid })
unfolding assign_uid
assign_uid-default cl name uid has named =
    let same : text_eq cl.username name ≡ true = rw named (text_eq_refl name) in ground arith

-- The state of the client behind the first line.
abbrev pub let_in : Bool → ClientState → ClientState
let_in false s = record s { is_entering_password = false; is_authenticated = true }
let_in true s = record s { is_confirming_password = false; is_authenticated = true }

is_in : (fresh : Bool) (s : ClientState) → (let_in fresh s).is_authenticated ≡ true
is_in false s = refl
is_in true s = refl

module _ (env : Env) (ssl : Ssl) where
  pub handle_line-parsed :
      (m : Message) (s : Session ssl)
      → IsSendable m
      → length (format_message m) < buffer_size
      → handle_line env ssl (length (format_message m)) (format_message m) s
        ≡ handle_message env ssl (record s { msg = m })
  unfolding handle_line
  handle_line-parsed m s is short =
      let small : leb buffer_size (length (format_message m)) ≡ false = ground arith in
      let parsed =
        parse_message-format_message (record s.msg { payload = []; payload_length = 0 }) m is in
      rw (small, parsed) refl

  handle_message-admission :
      (fresh : Bool) (id : Text) (s : Session ssl)
      → s.cl.uid ≡ some client_default_name
      → s.cl_state.is_authenticated ≡ false
      → handle_message env ssl (record s { msg = admission fresh id })
        ≡ ok (record s { msg = admission fresh id; cl_state = let_in fresh s.cl_state }, returned)
  unfolding handle_message is_misaddressed dispatch auth_branch is_code message_code_to_string
      print_int decimal
  handle_message-admission false id s has out = simp (has, out) refl
  handle_message-admission true id s has out = simp (has, out) refl

  handle_message-naming :
      (id name uid : Text) (s : Session ssl)
      → s.cl.uid ≡ some client_default_name
      → s.cl_state.is_authenticated ≡ true
      → s.cl.username ≡ name
      → IsAccount name uid
      → env.uid_memory ≡ true
      → handle_message env ssl (record s { msg = naming id name uid })
        ≡ ok (record s { msg = naming id name uid; cl = record s.cl { uid = some uid } }, returned)
  unfolding handle_message is_misaddressed dispatch auth_branch is_code other_branch
  handle_message-naming id name uid s has inside named is memory =
      let stored =
        store_uid-payload true s.cl name uid is.name_clean is.name_some is.name_short is.uid_solid
          is.uid_some is.uid_short in
      simp (memory, has, inside, stored, assign_uid-default s.cl name uid has named) refl

  admission-IsSendable :
      (fresh : Bool) (id : Text)
      → IsIdentifier env (print_int (code_of fresh)) id
      → IsSendable (admission fresh id)
  unfolding print_int decimal
  admission-IsSendable false id is =
      greeting-IsSendable env message_auth id (print_int (code_of false)) is (omega arith)
        (omega arith) (omega arith) (refl, (refl, (refl, (refl, tt))))
  admission-IsSendable true id is =
      greeting-IsSendable env message_auth id (print_int (code_of true)) is (omega arith)
        (omega arith) (omega arith) (refl, (refl, (refl, (refl, tt))))

  naming-IsSendable :
      (id name uid : Text)
      → IsIdentifier env (uid_payload name uid) id
      → IsAccount name uid
      → IsSendable (naming id name uid)
  naming-IsSendable id name uid is account =
      let wide = length-append name (delimiter ∷ uid) in
      greeting-IsSendable env message_uid id (uid_payload name uid) is (omega arith)
        (omega (arith, wide, account.name_some))
        (omega (arith, wide, account.name_short, account.uid_short))
        (Avoids-append b'\n' name (delimiter ∷ uid) account.name_line
          (refl, avoids_newline uid account.uid_solid))

  -- A client that is not let in yet and has the default name for its UID takes the two lines of the server,
  -- for a login and for a registration: behind them it is authenticated, and its UID is that of the server,
  -- where the name is the one under which it came.
  pub handle_line-let_in :
      (fresh : Bool) (id1 id2 name uid : Text) (s : Session ssl)
      → IsIdentifier env (print_int (code_of fresh)) id1
      → IsIdentifier env (uid_payload name uid) id2
      → IsAccount name uid
      → s.cl.uid ≡ some client_default_name
      → s.cl_state.is_authenticated ≡ false
      → s.cl.username ≡ name
      → env.uid_memory ≡ true
      → (takes env ssl (admission fresh id1) s >>= λ r. takes env ssl (naming id2 name uid) r.0)
        ≡ ok (
          record s {
            msg = naming id2 name uid;
            cl = record s.cl { uid = some uid };
            cl_state = let_in fresh s.cl_state;
          },
          returned,
        )
  handle_line-let_in fresh id1 id2 name uid s is1 is2 account has out named memory =
      let m1 = admission fresh id1 in
      let m2 = naming id2 name uid in
      let s1 : Session ssl = record s { msg = m1; cl_state = let_in fresh s.cl_state } in
      let sent1 = admission-IsSendable fresh id1 is1 in
      let sent2 = naming-IsSendable id2 name uid is2 account in
      let first = handle_line-parsed m1 s sent1 (sendable_is_short m1 sent1) in
      let second = handle_line-parsed m2 s1 sent2 (sendable_is_short m2 sent2) in
      let inside : s1.cl_state.is_authenticated ≡ true = is_in fresh s.cl_state in
      rw (first, handle_message-admission fresh id1 s has out)
        (rw second (handle_message-naming id2 name uid s1 has inside named account memory))
