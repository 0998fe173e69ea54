-- ===== src/Auth/Dialog.antt =====
-- What the dialog of server/src/server_auth.c works on: the connection of the request, the database,
-- and the structure of the client.
use secure_chat.Prelude.{
  ℕ, ◌+◌, Bool, true, false, Option, none, some, List, [], ◌∷◌, ◌++◌, if◌then◌else◌, Text, codes,
  take, snprintf, length, Run, ok, ◌>>=◌,
}
use secure_chat.Connection.{Ptr, Store, ClientConnection, write}
use secure_chat.Database.{Calls, closed}
use secure_chat.Protocol.{Message, hash_hex_output_length}
use secure_chat.Protocol.Number.{ℤ, print_int}
use secure_chat.Protocol.Create.{text, Env, create_message}
use secure_chat.Protocol.Wire.{Ssl, delimiter, send_message, parse_message}
use secure_chat.Client.{client_default_name}

-- The statements that the dialog prepares.
pub data Query : Type 0 where
  select_uid select_login insert_user update_login : Query

abbrev pub sql_of : Query → Text
sql_of select_uid = codes "SELECT uid FROM users WHERE username = ?;"
sql_of select_login = codes "SELECT uid FROM users WHERE username = ? AND password_hash = ?;"
sql_of insert_user =
    codes "INSERT INTO users (username, uid, password_hash, last_login) "
    ++ codes "VALUES (?, ?, ?, CURRENT_TIMESTAMP);"
sql_of update_login = codes "UPDATE users SET last_login = CURRENT_TIMESTAMP WHERE uid = ?;"

-- What `sqlite3_step` tells: SQLITE_ROW with the text of its first column, SQLITE_DONE, or an error.
pub data SqlStep : Type 0 where
  row : Text → SqlStep
  done failed : SqlStep

-- SQLite: whether a text can be prepared, whether its parameters can be bound, and a step of it.
pub record Db : Type 1 where
  pub State : Type 0
  pub prepare : State → Text → Bool
  pub bind : State → Text → List Text → Bool
  pub step : State → Text → List Text → SqlStep × State

-- A statement that was carried out, with its parameters and what `sqlite3_step` told.
abbrev pub Asked : Type 0
Asked = Query × List Text × SqlStep

-- How a turn of the loop ends: with the next attempt, at `cleanup`, or with a `return`.
pub data Turn : Type 0 where
  again cleanup success username_failure memory_failure : Turn

-- The connection and the message structure that every turn uses again.
pub record Wire (ssl : Ssl) : Type 0 where
  pub connection : ssl.State
  pub msg : Message

-- The database with the calls on it, `stmt` (whether it is not NULL), the structure behind `cl` in
-- the store, whether its UID was ever written, and the structures whose UID was freed.
pub record Account (db : Db) : Type 0 where
  pub handle : db.State
  pub calls : Calls
  pub queries : List Asked
  pub prepared : ℕ
  pub finalized : ℕ
  pub statement : Bool
  pub cl : Ptr
  pub clients : Store
  pub uid_written : Bool
  pub freed : List Ptr

abbrev pub server_name : Text
server_name = codes "server"

module _ (env : Env) (ssl : Ssl) where
  -- `create_message` to the default name, and `send_message`, whatever the two return.
  unfoldable pub say : ℤ → Text → Wire ssl → Run (Wire ssl)
  say type payload w = do
    (made, code) ←
        create_message env (some w.msg) type (text server_name) (text client_default_name)
          (text payload)
    let (c, sent, result) = send_message ssl w.connection made
    let m : Message = elim sent [ none ↦ w.msg | some m' ↦ m' ]
    ok (record { connection = c; msg = m })

  -- The payload is `sprintf(send_msg, "%d", code)`.
  unfoldable pub say_code : ℤ → ℤ → Wire ssl → Run (Wire ssl)
  say_code type code w = say type (print_int code) w

  -- `SSL_read` and `parse_message`; `false` where nothing was read.
  unfoldable pub read_line : Wire ssl → Run (Bool × Wire ssl)
  read_line w =
      let (got, c) = ssl.read w.connection in
      elim got [
        | none ↦ ok (false, record w { connection = c })
        | some line ↦
            parse_message w.msg line >>= λ m. ok (true, record { connection = c; msg = m })
      ]

-- `snprintf(buffer, 16, "%.*s", 15, msg.payload)`, for the username and the password.
abbrev pub truncated : Text → Text
truncated payload = snprintf 16 (take 15 payload)

-- `sqlite3_bind_text` of the 129 bytes of a hash, its NUL included.
abbrev pub bound_hash : Text → Text
bound_hash h = h ++ (0 ∷ [])

-- `username|uid`, in a buffer of HASH_MESSAGE_LENGTH and a few bytes more.
abbrev pub text_or_empty : Option Text → Text
text_or_empty none = []
text_or_empty (some u) = u

unfoldable pub uid_line : ClientConnection → Text
uid_line c =
    snprintf (hash_hex_output_length + 16 + 2 + length c.username + 1 + 1)
      (c.username ++ (delimiter ∷ text_or_empty c.uid))

module _ (db : Db) where
  -- The step of a statement that is prepared and bound.
  unfoldable pub stepped : Query → List Text → Account db → Option SqlStep × Account db
  stepped q params a =
      let (r, h) = db.step a.handle (sql_of q) params in
      (some r, record a { handle = h; queries = a.queries ++ ((q, params, r) ∷ []) })

  unfoldable pub bound : Query → List Text → Account db → Option SqlStep × Account db
  bound q params a = if db.bind a.handle (sql_of q) params then stepped q params a else (none, a)

  -- `sqlite3_prepare_v2`, the bindings and one `sqlite3_step`; `none` where the first two fail.
  unfoldable pub query : Query → List Text → Account db → Option SqlStep × Account db
  query q params a =
      if db.prepare a.handle (sql_of q)
      then bound q params (record a { prepared = a.prepared + 1; statement = true })
      else (none, record a { statement = false })

  -- `sqlite3_finalize(stmt)` and `stmt = NULL`
  unfoldable pub finalize : Account db → Account db
  finalize a = record a { finalized = a.finalized + 1; statement = false }

  unfoldable pub close_db : Account db → Account db
  close_db a = record a { calls = closed a.calls }

  -- Writes to the structure behind `cl`.
  unfoldable pub set_username : Text → Account db → Account db
  set_username name a = record a {
    clients = write a.clients a.cl (record (a.clients a.cl) { username = snprintf 17 name });
  }

  unfoldable pub set_uid : Option Text → Account db → Account db
  set_uid uid a = record a {
    clients = write a.clients a.cl (record (a.clients a.cl) { uid = uid });
    uid_written = true;
  }

  unfoldable pub set_request : Ptr → Account db → Account db
  set_request req a = record a {
    clients = write a.clients a.cl (record (a.clients a.cl) { req = some req });
  }
