-- ===== src/Auth/Turn.antt =====
-- The loop of `user_auth`: a turn of it, and how it is left.
use secure_chat.Prelude.{
  ℕ, zero, suc, ◌+◌, ◌-◌, Bool, true, false, Option, none, some, [], ◌∷◌, ◌==◌, if◌then◌else◌, Text,
  Run, ok, fault, uninitialised, ◌>>=◌,
}
use secure_chat.Connection.{Ptr, Store}
use secure_chat.HashMap.{HashMap}
use secure_chat.Database.{no_calls, connect_db, database_connection_success}
use secure_chat.Protocol.Number.{pos, print_int}
use secure_chat.Protocol.Codes.{
  message_auth, message_auth_attemps, message_error, message_toast, message_code_enter_username,
  message_code_try_again, message_code_user_authentication_attempts_exceeded,
  message_code_user_does_not_exist, message_code_user_register_info, message_code_welcome,
}
use secure_chat.Protocol.Create.{Env}
use secure_chat.Protocol.Wire.{Ssl}
use secure_chat.Auth.Dialog.{
  Db, SqlStep, row, done, failed, select_uid, Turn, again, cleanup, success, username_failure,
  memory_failure, Wire, Account, say, say_code, read_line, truncated, query, finalize, close_db,
}
use secure_chat.Auth.Register.{register}
use secure_chat.Auth.Login.{user_login_attempts, login}

abbrev pub user_authentication_success : ℕ
user_authentication_success = 1400

abbrev pub user_authentication_failure : ℕ
user_authentication_failure = 1401

abbrev pub user_authentication_database_connection_failure : ℕ
user_authentication_database_connection_failure = 1402

abbrev pub user_authentication_username_receive_failure : ℕ
user_authentication_username_receive_failure = 1403

abbrev pub user_authentication_memory_allocation_failure : ℕ
user_authentication_memory_allocation_failure = 1418

-- The fields that every dialog starts with, besides its structure and the store.
unfoldable pub start : (db : Db) → db.State → (ℕ → Bool) → Ptr → Store → Account db
start db handle open_ok cl clients = record {
  handle = handle;
  calls = (connect_db open_ok no_calls).0;
  queries = [];
  prepared = 0;
  finalized = 0;
  statement = false;
  cl = cl;
  clients = clients;
  uid_written = false;
  freed = [];
}

module _ (env : Env) (ssl : Ssl) (db : Db) (malloc : Bool) (req : Ptr) (user_map : HashMap) where
  abbrev pub Turned : Type 0
  Turned = Run (Wire ssl × Account db × Turn)

  abbrev pub Returned : Type 0
  Returned = Run (Wire ssl × Account db × ℕ)

  unfoldable pub first_greeting : Wire ssl → Run (Wire ssl)
  first_greeting w = do
    w1 ← say_code env ssl message_toast message_code_welcome w
    w2 ← say env ssl message_auth_attemps (print_int (pos user_login_attempts)) w1
    say_code env ssl message_auth message_code_user_register_info w2

  unfoldable pub greeting : ℕ → Wire ssl → Run (Wire ssl)
  greeting attempts w = do
    w1 ←
        (if attempts == 0
          then first_greeting w
          else say env ssl message_auth_attemps (print_int (pos (user_login_attempts - attempts)))
              w)
    say_code env ssl message_auth message_code_enter_username w1

  unfoldable pub refused : ℕ → Wire ssl → Account db → Turned
  refused attempts w a =
      if attempts + 1 == user_login_attempts
      then (do
        w1 ← say_code env ssl message_error message_code_user_authentication_attempts_exceeded w
        ok (w1, a, cleanup))
      else (do w1 ← say_code env ssl message_auth message_code_try_again w; ok (w1, a, again))

  -- An unknown username on a later attempt.
  unfoldable pub refuse_unknown : ℕ → Wire ssl → Account db → Turned
  refuse_unknown attempts w a = do
    w1 ← say_code env ssl message_auth message_code_user_does_not_exist w
    refused attempts w1 a

  unfoldable pub unknown : ℕ → Text → Wire ssl → Account db → Turned
  unknown attempts username w a =
      if attempts == 0
      then register env ssl db malloc req username w a
      else refuse_unknown attempts w a

  unfoldable pub looked_up : ℕ → Text → Option SqlStep → Wire ssl → Account db → Turned
  looked_up attempts username none w a = ok (w, a, cleanup)
  looked_up attempts username (some (row uid)) w a =
      login env ssl db malloc req user_map attempts username uid w a
  looked_up attempts username (some done) w a = unknown attempts username w a
  looked_up attempts username (some failed) w a = unknown attempts username w a

  unfoldable pub named : ℕ → Bool × Wire ssl → Account db → Turned
  named attempts (false, w) a = ok (w, a, username_failure)
  named attempts (true, w) a =
      let username = truncated w.msg.payload in
      let (r, a1) = query db select_uid (username ∷ []) a in looked_up attempts username r w a1

  unfoldable pub turn : ℕ → Wire ssl → Account db → Turned
  turn attempts w a = do w1 ← greeting attempts w; r ← read_line env ssl w1; named attempts r a

  unfoldable pub finalize_open : Account db → Account db
  finalize_open a = if a.statement then finalize db a else a

  -- `if (cl->uid) free(cl->uid)`
  unfoldable pub free_uid : Account db → Run (Account db)
  free_uid a =
      if a.uid_written
      then elim (a.clients a.cl).uid [
        | none ↦ ok a
        | some u ↦ ok (record a { freed = a.cl ∷ a.freed })
      ]
      else fault uninitialised

  -- The label `cleanup`. `db` is not NULL, whether it was closed or not.
  unfoldable pub clean : Wire ssl → Account db → Returned
  clean w a = do
    a1 ← free_uid (finalize_open a)
    ok (w, close_db db a1, user_authentication_failure)

  unfoldable pub leave :
      (Wire ssl → Account db → Returned) → Wire ssl × Account db × Turn → Returned
  leave next (w, a, again) = next w a
  leave next (w, a, cleanup) = clean w a
  leave next (w, a, success) = ok (w, a, user_authentication_success)
  leave next (w, a, username_failure) = ok (w, a, user_authentication_username_receive_failure)
  leave next (w, a, memory_failure) = ok (w, a, user_authentication_memory_allocation_failure)

  -- The loop, with the turns that are left. Behind its last turn the database is closed, and then
  -- comes `cleanup`.
  unfoldable pub auth_loop : ℕ → ℕ → Wire ssl → Account db → Returned
  auth_loop zero attempts w a = clean w (close_db db a)
  auth_loop (suc left) attempts w a =
      turn attempts w a >>= leave (λ w' a'. auth_loop left (suc attempts) w' a')

  unfoldable pub user_auth : (ℕ → Bool) → db.State → Ptr → Store → Wire ssl → Returned
  user_auth open_ok handle cl clients w =
      let a = start db handle open_ok cl clients in
      if (connect_db open_ok no_calls).1 == database_connection_success
      then auth_loop user_login_attempts 0 w a
      else ok (w, a, user_authentication_database_connection_failure)
