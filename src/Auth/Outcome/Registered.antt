-- ===== src/Auth/Outcome/Registered.antt =====
-- The outcome of a registration.
use secure_chat.Prelude.{
  sym, subst, ap, ◌∙◌, ◌≤◌, ◌≡◌, refl, Bool, true, false, Option, none, some, [], ◌∷◌, inl, inr,
  Bool-cases, Text, arith, length, text_eq, codes, take_all, snprintf, Always, Always-ok,
  Always-bind, ◌||◌,
}
use secure_chat.Connection.{Ptr}
use secure_chat.Protocol.Hash.{get_hash}
use secure_chat.Protocol.Create.{Env}
use secure_chat.Protocol.Wire.{Ssl}
use secure_chat.Auth.Dialog.{
  Db, SqlStep, row, done, failed, insert_user, Turn, Wire, Account, say, say_code, read_line,
  truncated, bound_hash, query, finalize, close_db, set_username, set_uid, set_request,
}
use secure_chat.Connection.{ClientConnection, write_self}
use secure_chat.Auth.Dialog.{uid_line}
use secure_chat.Protocol.Codes.{
  message_auth, message_uid, message_code_user_created, message_code_passwords_do_not_match,
  message_code_try_again, message_choice, message_code_enter_password,
  message_code_enter_password_confirmation, message_code_user_does_not_exist,
  message_code_user_register_choice,
}
use secure_chat.Auth.Outcome.{
  logins, IsProven, Outcome, Outcome-cleanup, Outcome-again, Outcome-from, IsProven-same,
  query-Queried,
}
use secure_chat.Auth.Register.{
  welcome_user, inserted, insert, save_uid, save_user, confirm, take_password, choose, register,
}

module _ (env : Env) (ssl : Ssl) (db : Db) (req : Ptr) where
  abbrev Ends : Account db → Wire ssl × Account db × Turn → Type 0
  Ends a r = Outcome env.evp 0 a r

  welcome_user-Outcome :
      (malloc : Bool) (w : Wire ssl) (a : Account db)
      → IsProven a.queries env.evp (a.clients a.cl)
      → Always (welcome_user env ssl db malloc req w a) (Ends a)
  unfolding welcome_user set_request close_db finalize
  welcome_user-Outcome malloc w a p =
      let a1 : Account db = set_request db req (close_db db (finalize db a)) in
      let c1 : ClientConnection = record (a.clients a.cl) { req = some req } in
      let same = write_self a.clients a.cl c1 in
      Always-bind _ (say_code env ssl message_auth message_code_user_created w) _ λ w1.
        Always-bind _ (say env ssl message_uid (uid_line (a1.clients a1.cl)) w1) _ λ w2.
          Always-ok _ _ (record {
            opened = refl;
            closed = omega arith;
            compared = omega arith;
            proven = subst (IsProven a.queries env.evp) (sym same) p;
          })

  inserted-Outcome :
      (malloc : Bool) (r : Option SqlStep) (w : Wire ssl) (a b : Account db)
      → (b.calls ≡ a.calls) × (logins b.queries ≤ logins a.queries)
      → (r ≡ some done → IsProven b.queries env.evp (b.clients b.cl))
      → Always (inserted env ssl db malloc req r w b) (Ends a)
  unfolding inserted
  inserted-Outcome malloc none w a b same p =
      Outcome-from env.evp 0 0 a b _ same.0 (omega arith) (Outcome-cleanup env.evp 0 w b)
  inserted-Outcome malloc (some done) w a b same p =
      Outcome-from env.evp 0 0 a b _ same.0 (omega arith) (welcome_user-Outcome malloc w b (p refl))
  inserted-Outcome malloc (some failed) w a b same p =
      Outcome-from env.evp 0 0 a b _ same.0 (omega arith) (Outcome-cleanup env.evp 0 w b)
  inserted-Outcome malloc (some (row uid)) w a b same p =
      Outcome-from env.evp 0 0 a b _ same.0 (omega arith) (Outcome-cleanup env.evp 0 w b)

  insert-Outcome :
      (malloc : Bool) (username password uid : Text) (h : Option Text) (w : Wire ssl)
      (a : Account db)
      → get_hash env.evp password ≡ h
      → get_hash env.evp username ≡ some uid
      → (a.clients a.cl).username ≡ username
      → (a.clients a.cl).uid ≡ some uid
      → Always (insert env ssl db malloc req username uid h w a) (Ends a)
  unfolding insert
  insert-Outcome malloc username password uid none w a hashed named_by n u =
      Outcome-cleanup env.evp 0 w a
  insert-Outcome malloc username password uid (some hash) w a hashed named_by n u =
      let asked = query db insert_user (username ∷ uid ∷ bound_hash hash ∷ []) a in
      let q = query-Queried db insert_user (username ∷ uid ∷ bound_hash hash ∷ []) a in
      let here : asked.1.clients asked.1.cl ≡ a.clients a.cl = rw (q.clients, q.cl) refl in
      inserted-Outcome malloc asked.0 w a asked.1 (q.calls, omega (arith, q.counted))
        (λ e.
          IsProven-same asked.1.queries env.evp
            (record (a.clients a.cl) { uid = some uid; username = username })
            (asked.1.clients asked.1.cl) (ap (λ (c : ClientConnection). c.uid) here ∙ u)
            (ap (λ (c : ClientConnection). c.username) here ∙ n)
            (uid, password, hash, refl, hashed, inr (named_by, q.answered done e)))

  save_uid-Outcome :
      (malloc : Bool) (username password : Text) (h : Option Text) (w : Wire ssl) (a : Account db)
      → get_hash env.evp username ≡ h
      → (a.clients a.cl).username ≡ username
      → Always (save_uid env ssl db malloc req username password h w a) (Ends a)
  unfolding save_uid set_uid
  save_uid-Outcome malloc username password none w a hashed n =
      Outcome-from env.evp 0 0 a (set_uid db (some []) a) _ refl (omega arith)
        (Outcome-cleanup env.evp 0 w (set_uid db (some []) a))
  save_uid-Outcome malloc username password (some uid) w a hashed n =
      let c1 : ClientConnection = record (a.clients a.cl) { uid = some uid } in
      let same = write_self a.clients a.cl c1 in
      Outcome-from env.evp 0 0 a (set_uid db (some uid) a) _ refl (omega arith) (
        insert-Outcome malloc username password uid (get_hash env.evp password) w
          (set_uid db (some uid) a) refl hashed (ap (λ (c : ClientConnection). c.username) same ∙ n)
          (ap (λ (c : ClientConnection). c.uid) same))

  save_user-Outcome :
      (malloc : Bool) (username password : Text) (w : Wire ssl) (a : Account db)
      → length username ≤ 16
      → Always (save_user env ssl db malloc req username password w a) (Ends a)
  unfolding save_user set_username set_uid
  save_user-Outcome false username password w a short =
      let a1 = set_uid db none (set_username db username a) in
      Outcome-from env.evp 0 0 a a1 _ refl (omega arith) (Outcome-cleanup env.evp 0 w a1)
  save_user-Outcome true username password w a short =
      let c1 : ClientConnection = record (a.clients a.cl) { username = snprintf 17 username } in
      let same = write_self a.clients a.cl c1 in
      Outcome-from env.evp 0 0 a (set_username db username a) _ refl (omega arith) (
        save_uid-Outcome true username password (get_hash env.evp username) w
          (set_username db username a) refl
          (ap (λ (c : ClientConnection). c.username) same ∙ take_all 16 username short))

  confirm-Outcome :
      (malloc : Bool) (username password : Text) (r : Bool × Wire ssl) (a : Account db)
      → length username ≤ 16
      → Always (confirm env ssl db malloc req username password r a) (Ends a)
  unfolding confirm
  confirm-Outcome malloc username password (false, w) a short = Outcome-cleanup env.evp 0 w a
  confirm-Outcome malloc username password (true, w) a short =
      elim (Bool-cases (text_eq password (truncated w.msg.payload))) [
        | inl same ↦ rw same (save_user-Outcome malloc username password w a short)
        | inr other ↦ rw other (
            Always-bind _ (say_code env ssl message_auth message_code_passwords_do_not_match w) _
              λ w1.
                Always-bind _ (say_code env ssl message_auth message_code_try_again w1) _
                  λ w2. Outcome-again env.evp 0 w2 a)
      ]

  take_password-Outcome :
      (malloc : Bool) (username : Text) (r : Bool × Wire ssl) (a : Account db)
      → length username ≤ 16
      → Always (take_password env ssl db malloc req username r a) (Ends a)
  unfolding take_password
  take_password-Outcome malloc username (false, w) a short = Outcome-cleanup env.evp 0 w a
  take_password-Outcome malloc username (true, w) a short =
      Always-bind _ (say_code env ssl message_auth message_code_enter_password_confirmation w) _
        λ w1.
          Always-bind _ (read_line env ssl w1) _
            λ r. confirm-Outcome malloc username (truncated w.msg.payload) r a short

  choose-Outcome :
      (malloc : Bool) (username : Text) (r : Bool × Wire ssl) (a : Account db)
      → length username ≤ 16
      → Always (choose env ssl db malloc req username r a) (Ends a)
  unfolding choose
  choose-Outcome malloc username (false, w) a short = Outcome-cleanup env.evp 0 w a
  choose-Outcome malloc username (true, w) a short =
      elim (Bool-cases (text_eq w.msg.payload (codes "y") || text_eq w.msg.payload (codes "Y"))) [
        | inl agreed ↦ rw agreed (
            Always-bind _ (say_code env ssl message_auth message_code_enter_password w) _ λ w1.
              Always-bind _ (read_line env ssl w1) _
                λ r. take_password-Outcome malloc username r a short)
        | inr other ↦
            elim (Bool-cases
              (text_eq w.msg.payload (codes "n") || text_eq w.msg.payload (codes "N"))) [
                | inl declined ↦ rw other (rw declined (Outcome-again env.evp 0 w a))
                | inr neither ↦ rw other (rw neither (Outcome-cleanup env.evp 0 w a))
              ]
      ]

  pub register-Outcome :
      (malloc : Bool) (username : Text) (w : Wire ssl) (a : Account db)
      → length username ≤ 16
      → Always (register env ssl db malloc req username w a) (Ends a)
  unfolding register
  register-Outcome malloc username w a short =
      Always-bind _ (say_code env ssl message_auth message_code_user_does_not_exist w) _ λ w1.
        Always-bind _ (say_code env ssl message_choice message_code_user_register_choice w1) _
          λ w2. Always-bind _ (read_line env ssl w2) _ λ r. choose-Outcome malloc username r a short
