-- ===== src/Client/Input/Keys.antt =====
-- The text that is being written fits its array.
use secure_chat.Prelude.{
  ◌-◌, ◌%◌, ◌≤◌, ◌==◌, ltb, Bool, true, false, some, [], ◌∷◌, length, ltb→lt, length-append,
  length-take, inl, inr, Bool-cases, Always, Always-ok, Always-bind, Always-then, arith,
}
use secure_chat.Protocol.{Message}
use secure_chat.Protocol.Create.{Env, text, create_message}
use secure_chat.Protocol.Wire.{Ssl, send_message, message_send_success}
use secure_chat.Client.Display.{add_message}
use secure_chat.Client.Handler.{server_name, uid_arg}
use secure_chat.Client.Input.{
  max_input_length, Window, Key, enter, backspace, escape, char, input_type, name_input, after_send,
  press_enter, press_backspace, press_char, ui_cycle,
}

module _ (env : Env) (ssl : Ssl) where
  abbrev Fits : Window ssl → Type 0
  Fits w = length w.input ≤ 127

  after_send-Fits : (sent : Bool) (w : Window ssl) → Always (after_send env ssl sent w) Fits
  unfolding after_send
  after_send-Fits false w = Always-ok _ _ (omega arith)
  after_send-Fits true w = elim (Bool-cases w.session.cl_state.is_authenticated) [
    | inl inside ↦ simp inside (
        Always-bind _ (add_message w.session.display w.session.cl.username w.input) _
          λ d. Always-ok _ _ (omega arith))
    | inr outside ↦ simp outside (Always-ok _ _ (omega arith))
  ]

  press_enter-Fits : (msg : Message) (w : Window ssl) → Always (press_enter env ssl msg w) Fits
  unfolding press_enter
  press_enter-Fits msg w =
      let w1 = name_input env ssl w in
      Always-bind _
        (create_message env (some msg) (input_type w1.session.cl_state) (uid_arg w1.session.cl.uid)
          (text server_name) (text w1.input))
        _
        λ (made, code).
          let (c, sent, result) = send_message ssl w1.session.connection made in
          after_send-Fits (result == message_send_success)
            (record w1 { session = record w1.session { connection = c } })

  -- Whatever key is pressed, an input of at most 127 bytes stays one.
  pub ui_cycle-Fits :
      (k : Key) (w : Window ssl) → Fits w → Always (ui_cycle env ssl k w) (λ r. Fits r.0)
  unfolding ui_cycle press_backspace press_char
  ui_cycle-Fits (enter msg) w fits =
      Always-then _ _ (press_enter env ssl msg w) _ (press_enter-Fits msg w) λ w1 f. Always-ok _ _ f
  ui_cycle-Fits (backspace false) w fits = Always-ok _ _ fits
  ui_cycle-Fits (backspace true) w fits =
      Always-ok _ _ (omega (arith, length-take (length w.input - 1) w.input))
  ui_cycle-Fits escape w fits = Always-ok _ _ fits
  ui_cycle-Fits (char c) w fits = elim (Bool-cases (ltb (length w.input) (max_input_length - 1))) [
    | inl room ↦ elim (Bool-cases (c % 256 == 0)) [
      | inl no_char ↦ simp (room, no_char) (Always-ok _ _ fits)
      | inr some_char ↦
          simp (room, some_char)
            (Always-ok _ _ (
              omega
                (arith, length-append w.input (c % 256 ∷ []), ltb→lt (length w.input) 127 room)))
    ]
    | inr full ↦ simp full (Always-ok _ _ fits)
  ]
