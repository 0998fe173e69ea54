-- ===== src/Auth/Login.antt =====
-- The login of a username that the database holds.
use secure_chat.Prelude.{
  ℕ, ◌+◌, Bool, true, false, Option, none, some, [], ◌∷◌, ◌==◌, if◌then◌else◌, Text, Run, ok, ◌>>=◌,
}
use secure_chat.Connection.{Ptr}
use secure_chat.HashMap.{HashMap, nothing_held, hash_map_find}
use secure_chat.Protocol.Codes.{
  message_auth, message_error, message_uid, message_code_enter_password,
  message_code_invalid_password, message_code_try_again, message_code_user_already_online,
  message_code_user_authenticated, message_code_user_authentication_attempts_exceeded,
}
use secure_chat.Protocol.Hash.{get_hash}
use secure_chat.Protocol.Create.{Env}
use secure_chat.Protocol.Wire.{Ssl}
use secure_chat.Auth.Dialog.{
  Db, SqlStep, row, done, failed, select_login, update_login, Turn, again, cleanup, success,
  memory_failure, Wire, Account, say, say_code, read_line, truncated, bound_hash, uid_line, query,
  finalize, close_db, set_username, set_uid, set_request,
}

-- USER_LOGIN_ATTEMPTS
abbrev pub user_login_attempts : ℕ
user_login_attempts = 3

module _ (env : Env) (ssl : Ssl) (db : Db) (malloc : Bool) (req : Ptr) where
  abbrev pub Turned : Type 0
  Turned = Run (Wire ssl × Account db × Turn)

  unfoldable pub greet_user : Wire ssl → Account db → Turned
  greet_user w a = do
    let a1 = set_request db req (close_db db (finalize db a))
    w1 ← say_code env ssl message_auth message_code_user_authenticated w
    w2 ← say env ssl message_uid (uid_line (a1.clients a1.cl)) w1
    ok (w2, a1, success)

  unfoldable pub updated : Option SqlStep → Wire ssl → Account db → Turned
  updated none w a = ok (w, a, cleanup)
  updated (some done) w a = greet_user w a
  updated (some failed) w a = ok (w, a, cleanup)
  updated (some (row uid)) w a = ok (w, a, cleanup)

  -- Where the memory of the UID is not there, everything is released, and nothing freed.
  unfoldable pub accept : Text → Text → Wire ssl → Account db → Turned
  accept username uid w a =
      let a1 = set_username db username a in
      if malloc
      then (let (r, a2) =
            query db update_login (uid ∷ []) (finalize db (set_uid db (some uid) a1)) in
          updated r w a2)
      else ok (w, close_db db (finalize db (set_uid db none a1)), memory_failure)

  -- `attempts` counts the attempts before this one.
  unfoldable pub reject : ℕ → Wire ssl → Account db → Turned
  reject attempts w a =
      if attempts + 1 == user_login_attempts
      then (do
        w1 ← say_code env ssl message_auth message_code_invalid_password w
        w2 ← say_code env ssl message_error message_code_user_authentication_attempts_exceeded w1
        ok (w2, a, cleanup))
      else (do
        w1 ← say_code env ssl message_auth message_code_enter_password w
        w2 ← say_code env ssl message_auth message_code_try_again w1
        ok (w2, a, again))

  unfoldable pub compared : ℕ → Text → Option SqlStep → Wire ssl → Account db → Turned
  compared attempts username none w a = ok (w, a, cleanup)
  compared attempts username (some (row uid)) w a = accept username uid w a
  compared attempts username (some done) w a = reject attempts w a
  compared attempts username (some failed) w a = reject attempts w a

  unfoldable pub compare_hash : ℕ → Text → Option Text → Wire ssl → Account db → Turned
  compare_hash attempts username none w a = ok (w, a, cleanup)
  compare_hash attempts username (some hash) w a =
      let (r, a1) = query db select_login (username ∷ bound_hash hash ∷ []) (finalize db a) in
      compared attempts username r w a1

  unfoldable pub check_password : ℕ → Text → Bool × Wire ssl → Account db → Turned
  check_password attempts username (false, w) a = ok (w, a, cleanup)
  check_password attempts username (true, w) a =
      compare_hash attempts username (get_hash env.evp (truncated w.msg.payload)) w a

  -- `hash_map_find` has stored the structure of the client that is online in `cl`, and `cl` keeps it.
  unfoldable pub refuse_online : Ptr → Wire ssl → Account db → Turned
  refuse_online online w a = do
    w1 ← say_code env ssl message_auth message_code_user_already_online w
    ok (w1, finalize db (record a { cl = online; uid_written = true }), again)

  unfoldable pub ask_password : ℕ → Text → Wire ssl → Account db → Turned
  ask_password attempts username w a = do
    w1 ← say_code env ssl message_auth message_code_enter_password w
    r ← read_line env ssl w1
    check_password attempts username r a

  unfoldable pub found_online : ℕ → Text → Option Ptr → Wire ssl → Account db → Turned
  found_online attempts username none w a = ask_password attempts username w a
  found_online attempts username (some online) w a = refuse_online online w a

  unfoldable pub login : HashMap → ℕ → Text → Text → Wire ssl → Account db → Turned
  login user_map attempts username uid w a = do
    found ← hash_map_find a.clients nothing_held user_map uid
    found_online attempts username found w a
