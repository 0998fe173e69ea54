-- ===== src/Auth/Register.antt =====
-- The registration of a username that the database does not hold, on the first attempt.
use secure_chat.Prelude.{
  Bool, true, false, ◌||◌, Option, none, some, [], ◌∷◌, if◌then◌else◌, Text, codes, text_eq, Run,
  ok, ◌>>=◌,
}
use secure_chat.Connection.{Ptr}
use secure_chat.Protocol.Codes.{
  message_auth, message_choice, message_uid, message_code_enter_password,
  message_code_enter_password_confirmation, message_code_passwords_do_not_match,
  message_code_try_again, message_code_user_created, message_code_user_does_not_exist,
  message_code_user_register_choice,
}
use secure_chat.Protocol.Hash.{get_hash}
use secure_chat.Protocol.Create.{Env}
use secure_chat.Protocol.Wire.{Ssl}
use secure_chat.Auth.Dialog.{
  Db, SqlStep, row, done, failed, insert_user, Turn, again, cleanup, success, Wire, Account, say,
  say_code, read_line, truncated, bound_hash, uid_line, query, finalize, close_db, set_username,
  set_uid, set_request,
}

-- `malloc` tells whether memory for the UID is there, `req` is the request.
module _ (env : Env) (ssl : Ssl) (db : Db) (malloc : Bool) (req : Ptr) where
  abbrev pub Turned : Type 0
  Turned = Run (Wire ssl × Account db × Turn)

  -- The handles are released and the two messages sent.
  unfoldable pub welcome_user : Wire ssl → Account db → Turned
  welcome_user w a = do
    let a1 = set_request db req (close_db db (finalize db a))
    w1 ← say_code env ssl message_auth message_code_user_created w
    w2 ← say env ssl message_uid (uid_line (a1.clients a1.cl)) w1
    ok (w2, a1, success)

  unfoldable pub inserted : Option SqlStep → Wire ssl → Account db → Turned
  inserted none w a = ok (w, a, cleanup)
  inserted (some done) w a = welcome_user w a
  inserted (some failed) w a = ok (w, a, cleanup)
  inserted (some (row uid)) w a = ok (w, a, cleanup)

  unfoldable pub insert : Text → Text → Option Text → Wire ssl → Account db → Turned
  insert username uid none w a = ok (w, a, cleanup)
  insert username uid (some hash) w a =
      let (r, a1) = query db insert_user (username ∷ uid ∷ bound_hash hash ∷ []) a in
      inserted r w a1

  -- Where the hash of the username fails, the memory of the UID holds no text yet.
  unfoldable pub save_uid : Text → Text → Option Text → Wire ssl → Account db → Turned
  save_uid username password none w a = ok (w, set_uid db (some []) a, cleanup)
  save_uid username password (some uid) w a =
      insert username uid (get_hash env.evp password) w (set_uid db (some uid) a)

  unfoldable pub save_user : Text → Text → Wire ssl → Account db → Turned
  save_user username password w a =
      let a1 = set_username db username a in
      if malloc
      then save_uid username password (get_hash env.evp username) w a1
      else ok (w, set_uid db none a1, cleanup)

  unfoldable pub confirm : Text → Text → Bool × Wire ssl → Account db → Turned
  confirm username password (false, w) a = ok (w, a, cleanup)
  confirm username password (true, w) a =
      if text_eq password (truncated w.msg.payload) then save_user username password w a else (do
        w1 ← say_code env ssl message_auth message_code_passwords_do_not_match w
        w2 ← say_code env ssl message_auth message_code_try_again w1
        ok (w2, a, again))

  unfoldable pub take_password : Text → Bool × Wire ssl → Account db → Turned
  take_password username (false, w) a = ok (w, a, cleanup)
  take_password username (true, w) a = do
    w1 ← say_code env ssl message_auth message_code_enter_password_confirmation w
    r ← read_line env ssl w1
    confirm username (truncated w.msg.payload) r a

  unfoldable pub choose : Text → Bool × Wire ssl → Account db → Turned
  choose username (false, w) a = ok (w, a, cleanup)
  choose username (true, w) a =
      if text_eq w.msg.payload (codes "y") || text_eq w.msg.payload (codes "Y")
      then (do
        w1 ← say_code env ssl message_auth message_code_enter_password w
        r ← read_line env ssl w1
        take_password username r a)
      else if text_eq w.msg.payload (codes "n") || text_eq w.msg.payload (codes "N")
      then ok (w, a, again)
      else ok (w, a, cleanup)

  unfoldable pub register : Text → Wire ssl → Account db → Turned
  register username w a = do
    w1 ← say_code env ssl message_auth message_code_user_does_not_exist w
    w2 ← say_code env ssl message_choice message_code_user_register_choice w1
    r ← read_line env ssl w2
    choose username r a
