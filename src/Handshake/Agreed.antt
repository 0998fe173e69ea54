-- ===== src/Handshake/Agreed.antt =====
-- The two sides of the end of an authentication.
use secure_chat.Prelude.{◌≡◌, Bool, true, false, some, Text, ok, ◌>>=◌, Returns}
use secure_chat.Connection.{Ptr}
use secure_chat.Protocol.Number.{print_int}
use secure_chat.Protocol.Create.{Env}
use secure_chat.Protocol.Wire.{Ssl}
use secure_chat.Client.{client_default_name}
use secure_chat.Client.Handler.{Session, returned}
use secure_chat.Auth.Dialog.{Db, Wire, Account, success}
use secure_chat.Protocol.Wire.Sendable.{IsIdentifier}
use secure_chat.Handshake.{code_of, admission, uid_payload, naming, takes, greets, IsAccount}
use secure_chat.Handshake.Sent.{both_lines, greets-sent}
use secure_chat.Handshake.Taken.{let_in, handle_line-let_in}

-- For an account whose name has at most 15 bytes, no delimiter and no newline, and whose UID has at most
-- 128 bytes and no blank: a login or a registration that has come to its end writes two lines to the
-- connection and succeeds; and a client that came under that name, is not let in yet and has the default
-- name for its UID, is authenticated behind the two lines and holds the UID that the server holds.
pub greets-agreed :
    (env : Env) (ssl : Ssl) (db : Db) (malloc : Bool) (req : Ptr) (fresh : Bool) (w : Wire ssl)
    (a : Account db) (s : Session ssl) (name uid id1 id2 : Text)
    → (a.clients a.cl).username ≡ name
    → (a.clients a.cl).uid ≡ some uid
    → IsAccount name uid
    → IsIdentifier env (print_int (code_of fresh)) id1
    → IsIdentifier env (uid_payload name uid) id2
    → s.cl.uid ≡ some client_default_name
    → s.cl_state.is_authenticated ≡ false
    → s.cl.username ≡ name
    → env.uid_memory ≡ true
    → Returns (greets env ssl db malloc req fresh w a) (λ r.
      (r.0.connection ≡ both_lines env ssl w.connection fresh id1 id2 name uid) × (r.2 ≡ success))
      × ((takes env ssl (admission fresh id1) s >>= λ r. takes env ssl (naming id2 name uid) r.0)
          ≡ ok (
            record s {
              msg = naming id2 name uid;
              cl = record s.cl { uid = some uid };
              cl_state = let_in fresh s.cl_state;
            },
            returned,
          ))
greets-agreed env ssl db malloc req fresh w a s name uid id1 id2 called has account is1 is2 unnamed
      out same memory =
    (
      greets-sent env ssl db malloc req fresh w a name uid id1 id2 called has is1 is2
          account.name_short account.uid_short,
      handle_line-let_in env ssl fresh id1 id2 name uid s is1 is2 account unnamed out same memory,
    )
