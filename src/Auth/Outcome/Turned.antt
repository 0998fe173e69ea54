-- ===== src/Auth/Outcome/Turned.antt =====
-- The outcome of a turn of `user_auth`.
use secure_chat.Prelude.{
  ℕ, ◌+◌, ◌≤◌, refl, Bool, true, false, Option, none, some, [], ◌∷◌, ◌==◌, inl, inr, Bool-cases,
  Text, arith, length, Always, Always-ok, Always-bind,
}
use secure_chat.Connection.{Ptr}
use secure_chat.HashMap.{HashMap}
use secure_chat.Protocol.Create.{Env}
use secure_chat.Protocol.Wire.{Ssl}
use secure_chat.Protocol.Codes.{
  message_auth, message_error, message_code_try_again,
  message_code_user_authentication_attempts_exceeded, message_code_user_does_not_exist,
}
use secure_chat.Auth.Dialog.{
  Db, SqlStep, row, done, failed, select_uid, Turn, Wire, Account, say_code, read_line, truncated,
  query,
}
use secure_chat.Auth.Outcome.{
  Outcome, Outcome-cleanup, Outcome-again, Outcome-from, query-Queried, length-truncated,
}
use secure_chat.Auth.Outcome.Registered.{register-Outcome}
use secure_chat.Auth.Outcome.LoggedIn.{login-Outcome}
use secure_chat.Auth.Login.{user_login_attempts}
use secure_chat.Auth.Turn.{greeting, refused, refuse_unknown, unknown, looked_up, named, turn}

module _ (env : Env) (ssl : Ssl) (db : Db) (malloc : Bool) (req : Ptr) (user_map : HashMap) where
  abbrev Compares : Account db → Wire ssl × Account db × Turn → Type 0
  Compares a r = Outcome env.evp 1 a r

  refused-Outcome :
      (attempts : ℕ) (w : Wire ssl) (a : Account db)
      → Always (refused env ssl db malloc req user_map attempts w a) (Compares a)
  unfolding refused
  refused-Outcome attempts w a = elim (Bool-cases (attempts + 1 == user_login_attempts)) [
    | inl last ↦ rw last (
        Always-bind _
          (say_code env ssl message_error message_code_user_authentication_attempts_exceeded w) _
          λ w1. Outcome-cleanup env.evp 1 w1 a)
    | inr more ↦ rw more (
        Always-bind _ (say_code env ssl message_auth message_code_try_again w) _
          λ w1. Outcome-again env.evp 1 w1 a)
  ]

  unknown-Outcome :
      (attempts : ℕ) (username : Text) (w : Wire ssl) (a : Account db)
      → length username ≤ 16
      → Always (unknown env ssl db malloc req user_map attempts username w a) (Compares a)
  unfolding unknown refuse_unknown
  unknown-Outcome attempts username w a short = elim (Bool-cases (attempts == 0)) [
    | inl first ↦ rw first (
        Outcome-from env.evp 0 1 a a _ refl (omega arith)
          (register-Outcome env ssl db req malloc username w a short))
    | inr later ↦ rw later (
        Always-bind _ (say_code env ssl message_auth message_code_user_does_not_exist w) _
          λ w1. refused-Outcome attempts w1 a)
  ]

  looked_up-Outcome :
      (attempts : ℕ) (username : Text) (r : Option SqlStep) (w : Wire ssl) (a : Account db)
      → length username ≤ 16
      → Always (looked_up env ssl db malloc req user_map attempts username r w a) (Compares a)
  unfolding looked_up
  looked_up-Outcome attempts username none w a short = Outcome-cleanup env.evp 1 w a
  looked_up-Outcome attempts username (some (row uid)) w a short =
      login-Outcome env ssl db req malloc user_map attempts username uid w a short
  looked_up-Outcome attempts username (some done) w a short =
      unknown-Outcome attempts username w a short
  looked_up-Outcome attempts username (some failed) w a short =
      unknown-Outcome attempts username w a short

  named-Outcome :
      (attempts : ℕ) (r : Bool × Wire ssl) (a : Account db)
      → Always (named env ssl db malloc req user_map attempts r a) (Compares a)
  unfolding named
  named-Outcome attempts (false, w) a =
      Always-ok _ _
        (record { opened = refl; closed = omega arith; compared = omega arith; proven = tt })
  named-Outcome attempts (true, w) a =
      let username = truncated w.msg.payload in
      let asked = query db select_uid (username ∷ []) a in
      let q = query-Queried db select_uid (username ∷ []) a in
      Outcome-from env.evp 1 1 a asked.1 _ q.calls (omega (arith, q.counted))
        (looked_up-Outcome attempts username asked.0 w asked.1 (length-truncated w.msg.payload))

  pub turn-Outcome :
      (attempts : ℕ) (w : Wire ssl) (a : Account db)
      → Always (turn env ssl db malloc req user_map attempts w a) (Compares a)
  unfolding turn
  turn-Outcome attempts w a =
      Always-bind _ (greeting env ssl db malloc req user_map attempts w) _
        λ w1. Always-bind _ (read_line env ssl w1) _ λ r. named-Outcome attempts r a
