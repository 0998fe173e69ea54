-- ===== src/Auth/Outcome/LoggedIn.antt =====
-- The outcome of a login.
use secure_chat.Prelude.{
  ℕ, ◌+◌, ◌≤◌, ◌≡◌, refl, sym, subst, ap, ◌∙◌, Bool, true, false, Option, none, some, [], ◌∷◌, ◌==◌,
  inl, inr, Bool-cases, Text, arith, length, take_all, snprintf, Always, Always-ok, Always-bind,
}
use secure_chat.Connection.{Ptr, ClientConnection, write_self}
use secure_chat.HashMap.{HashMap, nothing_held, hash_map_find}
use secure_chat.Protocol.Hash.{get_hash}
use secure_chat.Protocol.Create.{Env}
use secure_chat.Protocol.Wire.{Ssl}
use secure_chat.Protocol.Codes.{
  message_auth, message_error, message_uid, message_code_enter_password,
  message_code_invalid_password, message_code_try_again, message_code_user_already_online,
  message_code_user_authenticated, message_code_user_authentication_attempts_exceeded,
}
use secure_chat.Auth.Dialog.{
  Db, SqlStep, row, done, failed, select_login, update_login, Turn, Wire, Account, say, say_code,
  read_line, truncated, bound_hash, uid_line, query, finalize, close_db, set_username, set_uid,
  set_request,
}
use secure_chat.Auth.Outcome.{
  Confirmed, Confirmed-kept, IsProven, IsProven-same, Outcome, Outcome-cleanup, Outcome-again,
  Outcome-from, query-Queried,
}
use secure_chat.Auth.Login.{
  user_login_attempts, greet_user, updated, accept, reject, compared, compare_hash, check_password,
  refuse_online, ask_password, found_online, login,
}

module _ (env : Env) (ssl : Ssl) (db : Db) (req : Ptr) where
  abbrev Ends : Account db → Wire ssl × Account db × Turn → Type 0
  Ends a r = Outcome env.evp 0 a r

  abbrev Compares : Account db → Wire ssl × Account db × Turn → Type 0
  Compares a r = Outcome env.evp 1 a r

  greet_user-Outcome :
      (malloc : Bool) (w : Wire ssl) (a : Account db)
      → IsProven a.queries env.evp (a.clients a.cl)
      → Always (greet_user env ssl db malloc req w a) (Ends a)
  unfolding greet_user set_request close_db finalize
  greet_user-Outcome malloc w a p =
      let a1 : Account db = set_request db req (close_db db (finalize db a)) in
      let same = write_self a.clients a.cl (record (a.clients a.cl) { req = some req }) in
      Always-bind _ (say_code env ssl message_auth message_code_user_authenticated w) _ λ w1.
        Always-bind _ (say env ssl message_uid (uid_line (a1.clients a1.cl)) w1) _ λ w2.
          Always-ok _ _ (record {
            opened = refl;
            closed = omega arith;
            compared = omega arith;
            proven = subst (IsProven a.queries env.evp) (sym same) p;
          })

  updated-Outcome :
      (malloc : Bool) (r : Option SqlStep) (w : Wire ssl) (a : Account db)
      → IsProven a.queries env.evp (a.clients a.cl)
      → Always (updated env ssl db malloc req r w a) (Ends a)
  unfolding updated
  updated-Outcome malloc none w a p = Outcome-cleanup env.evp 0 w a
  updated-Outcome malloc (some done) w a p = greet_user-Outcome malloc w a p
  updated-Outcome malloc (some failed) w a p = Outcome-cleanup env.evp 0 w a
  updated-Outcome malloc (some (row uid)) w a p = Outcome-cleanup env.evp 0 w a

  accept-Outcome :
      (malloc : Bool) (username password hash uid : Text) (w : Wire ssl) (a : Account db)
      → length username ≤ 16
      → get_hash env.evp password ≡ some hash
      → Confirmed a.queries env.evp username uid hash
      → Always (accept env ssl db malloc req username uid w a) (Ends a)
  unfolding accept set_username set_uid finalize close_db
  accept-Outcome false username password hash uid w a short hashed found =
      Always-ok _ _
        (record { opened = refl; closed = omega arith; compared = omega arith; proven = tt })
  accept-Outcome true username password hash uid w a short hashed found =
      let a1 = finalize db (set_uid db (some uid) (set_username db username a)) in
      let q = query-Queried db update_login (uid ∷ []) a1 in
      let named =
        write_self a.clients a.cl (record (a.clients a.cl) { username = snprintf 17 username }) in
      let set =
        write_self (set_username db username a).clients a.cl
          (record ((set_username db username a).clients a.cl) { uid = some uid }) in
      let asked = query db update_login (uid ∷ []) a1 in
      let here : asked.1.clients asked.1.cl ≡ a1.clients a1.cl = rw (q.clients, q.cl) refl in
      Outcome-from env.evp 0 0 a asked.1 _ q.calls (omega (arith, q.counted)) (
        updated-Outcome true asked.0 w asked.1 (
          IsProven-same asked.1.queries env.evp
            (record (a.clients a.cl) { uid = some uid; username = username })
            (asked.1.clients asked.1.cl) (ap (λ (c : ClientConnection). c.uid) (here ∙ set))
            (ap (λ (c : ClientConnection). c.username) (here ∙ set)
              ∙ ap (λ (c : ClientConnection). c.username) named
              ∙ take_all 16 username short)
            (
              uid,
              password,
              hash,
              refl,
              hashed,
              Confirmed-kept a1.queries asked.1.queries env.evp username uid hash q.kept found,
            )))

  reject-Outcome :
      (malloc : Bool) (attempts : ℕ) (w : Wire ssl) (a : Account db)
      → Always (reject env ssl db malloc req attempts w a) (Ends a)
  unfolding reject
  reject-Outcome malloc attempts w a = elim (Bool-cases (attempts + 1 == user_login_attempts)) [
    | inl last ↦ rw last (
        Always-bind _ (say_code env ssl message_auth message_code_invalid_password w) _ λ w1.
          Always-bind _
            (say_code env ssl message_error message_code_user_authentication_attempts_exceeded w1) _
            λ w2. Outcome-cleanup env.evp 0 w2 a)
    | inr more ↦ rw more (
        Always-bind _ (say_code env ssl message_auth message_code_enter_password w) _ λ w1.
          Always-bind _ (say_code env ssl message_auth message_code_try_again w1) _
            λ w2. Outcome-again env.evp 0 w2 a)
  ]

  compared-Outcome :
      (malloc : Bool) (attempts : ℕ) (username password hash : Text) (r : Option SqlStep)
      (w : Wire ssl) (a : Account db)
      → length username ≤ 16
      → get_hash env.evp password ≡ some hash
      → ((uid : Text) → r ≡ some (row uid) → Confirmed a.queries env.evp username uid hash)
      → Always (compared env ssl db malloc req attempts username r w a) (Ends a)
  unfolding compared
  compared-Outcome malloc attempts username password hash none w a short hashed found =
      Outcome-cleanup env.evp 0 w a
  compared-Outcome malloc attempts username password hash (some (row uid)) w a short hashed found =
      accept-Outcome malloc username password hash uid w a short hashed (found uid refl)
  compared-Outcome malloc attempts username password hash (some done) w a short hashed found =
      reject-Outcome malloc attempts w a
  compared-Outcome malloc attempts username password hash (some failed) w a short hashed found =
      reject-Outcome malloc attempts w a

  compare_hash-Outcome :
      (malloc : Bool) (attempts : ℕ) (username password : Text) (h : Option Text) (w : Wire ssl)
      (a : Account db)
      → length username ≤ 16
      → get_hash env.evp password ≡ h
      → Always (compare_hash env ssl db malloc req attempts username h w a) (Compares a)
  unfolding compare_hash finalize
  compare_hash-Outcome malloc attempts username password none w a short hashed =
      Outcome-cleanup env.evp 1 w a
  compare_hash-Outcome malloc attempts username password (some hash) w a short hashed =
      let asked = query db select_login (username ∷ bound_hash hash ∷ []) (finalize db a) in
      let q = query-Queried db select_login (username ∷ bound_hash hash ∷ []) (finalize db a) in
      Outcome-from env.evp 0 1 a asked.1 _ q.calls (omega (arith, q.counted)) (
        compared-Outcome malloc attempts username password hash asked.0 w asked.1 short hashed
          λ uid e. inl (q.answered (row uid) e))

  check_password-Outcome :
      (malloc : Bool) (attempts : ℕ) (username : Text) (r : Bool × Wire ssl) (a : Account db)
      → length username ≤ 16
      → Always (check_password env ssl db malloc req attempts username r a) (Compares a)
  unfolding check_password
  check_password-Outcome malloc attempts username (false, w) a short = Outcome-cleanup env.evp 1 w a
  check_password-Outcome malloc attempts username (true, w) a short =
      compare_hash-Outcome malloc attempts username (truncated w.msg.payload)
        (get_hash env.evp (truncated w.msg.payload)) w a short refl

  found_online-Outcome :
      (malloc : Bool) (attempts : ℕ) (username : Text) (found : Option Ptr) (w : Wire ssl)
      (a : Account db)
      → length username ≤ 16
      → Always (found_online env ssl db malloc req attempts username found w a) (Compares a)
  unfolding found_online ask_password refuse_online finalize
  found_online-Outcome malloc attempts username none w a short =
      Always-bind _ (say_code env ssl message_auth message_code_enter_password w) _ λ w1.
        Always-bind _ (read_line env ssl w1) _
          λ r. check_password-Outcome malloc attempts username r a short
  found_online-Outcome malloc attempts username (some online) w a short =
      let a1 = finalize db (record a { cl = online; uid_written = true }) in
      Always-bind _ (say_code env ssl message_auth message_code_user_already_online w) _
        λ w1. Outcome-from env.evp 0 1 a a1 _ refl (omega arith) (Outcome-again env.evp 0 w1 a1)

  pub login-Outcome :
      (malloc : Bool) (user_map : HashMap) (attempts : ℕ) (username uid : Text) (w : Wire ssl)
      (a : Account db)
      → length username ≤ 16
      → Always (login env ssl db malloc req user_map attempts username uid w a) (Compares a)
  unfolding login
  login-Outcome malloc user_map attempts username uid w a short =
      Always-bind _ (hash_map_find a.clients nothing_held user_map uid) _
        λ found. found_online-Outcome malloc attempts username found w a short
