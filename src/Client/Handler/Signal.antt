-- ===== src/Client/Handler/Signal.antt =====
-- The quit signal and the misaddressed messages of `handle_message` of
-- client/src/client_msg_handler.c.
use secure_chat.Prelude.{
  ◌≡◌, ◌≢◌, refl, Bool, true, false, ◌||◌, none, some, if◌then◌else◌, Text, text_eq, text_eq_refl,
  codes, ok, arith, take, Run-cases, length, inl, inr,
}
use secure_chat.Protocol.Codes.{int_eq, message_signal, message_ping, message_ack, message_uid}
use secure_chat.Protocol.{Message}
use secure_chat.Protocol.Wire.{Ssl, delimiter, scan_set}
use secure_chat.Protocol.Create.{Env}
use secure_chat.Client.{Client, ClientState, client_default_name}
use secure_chat.Client.Handler.{
  Session, Ending, returned, process_exit, from_server, is_code, auth_branch, other_branch,
  dispatch, is_misaddressed, handle_message, answer_ping,
}
use secure_chat.Client.Handler.Uid.{assign_uid-keeps, store_uid, scan_username}

if-ok {ℓ} : {A : Type ℓ} (b : Bool) (x y : A) → (if b then ok x else ok y) ≡ ok (if b then x else y)
if-ok true x y = refl
if-ok false x y = refl

auth_branch-signal :
    (m : Message) (c : ClientState) → m.type ≡ message_signal → auth_branch m c ≡ none
unfolding auth_branch is_code
auth_branch-signal m c e = ground arith

module _ (env : Env) (ssl : Ssl) (s : Session ssl) (u : Text) where
  addressed :
      s.cl_state.is_authenticated ≡ true
      → take 128 s.msg.recipient_uid ≡ take 128 u
      → is_misaddressed env ssl s u ≡ false
  unfolding is_misaddressed
  addressed auth to = rw (auth, to, text_eq_refl (take 128 u)) refl

  abbrev quit_end : Session ssl × Ending
  quit_end =
      if from_server s.msg
      then (s, returned)
      else (record s { reconnect_flag = false; quit_flag = true }, process_exit)

  other_branch-quit :
      s.msg.type ≡ message_signal
      → (text_eq s.msg.payload (codes "QUIT") || text_eq s.msg.payload (codes "EXIT")) ≡ true
      → other_branch env ssl s ≡ ok quit_end
  unfolding other_branch
  other_branch-quit kind quit = rw (kind, other_branch, quit) (if-ok (from_server s.msg) _ _)

  dispatch-quit :
      s.msg.type ≡ message_signal
      → (text_eq s.msg.payload (codes "QUIT") || text_eq s.msg.payload (codes "EXIT")) ≡ true
      → dispatch env ssl s ≡ ok quit_end
  unfolding dispatch
  dispatch-quit kind quit =
      ground (arith, auth_branch-signal s.msg s.cl_state kind, other_branch-quit kind quit)

  -- The handler of an authenticated client takes a quit signal that is addressed to it: it changes
  -- nothing and returns when the sender is "server", and it clears the reconnect flag, sets the quit
  -- flag and ends the process when the sender is anybody else.
  pub handle_message-quit :
      s.cl.uid ≡ some u
      → s.cl_state.is_authenticated ≡ true
      → take 128 s.msg.recipient_uid ≡ take 128 u
      → s.msg.type ≡ message_signal
      → (text_eq s.msg.payload (codes "QUIT") || text_eq s.msg.payload (codes "EXIT")) ≡ true
      → handle_message env ssl s
        ≡ ok (
            if from_server s.msg
            then (s, returned)
            else (record s { reconnect_flag = false; quit_flag = true }, process_exit))
  unfolding handle_message
  handle_message-quit e auth to kind quit =
      simp (kind, e, addressed auth to, dispatch-quit kind quit)

  -- An authenticated client drops every message, but PING, ACK and UID, whose recipient differs from
  -- its UID within the first 128 bytes.
  pub handle_message-misaddressed :
      s.cl.uid ≡ some u
      → s.cl_state.is_authenticated ≡ true
      → text_eq (take 128 s.msg.recipient_uid) (take 128 u) ≡ false
      → int_eq s.msg.type message_ping ≡ false
      → int_eq s.msg.type message_ack ≡ false
      → int_eq s.msg.type message_uid ≡ false
      → handle_message env ssl s ≡ ok (s, returned)
  unfolding handle_message is_misaddressed
  handle_message-misaddressed e auth to no_ping no_ack no_uid = ground arith

module _ (env : Env) (ssl : Ssl) (s t : Session ssl) (how : Ending) (u : Text) where
  store_uid-keeps :
      (payload : Text) (cl : Client)
      → s.cl.uid ≡ some u
      → u ≢ client_default_name
      → store_uid env.uid_memory s.cl payload ≡ ok cl
      → cl ≡ s.cl
  unfolding store_uid
  store_uid-keeps payload cl e ne run =
      elim (Run-cases (scan_username (scan_set delimiter (length payload) payload))) [
        | inl p ↦ assign_uid-keeps env.uid_memory s.cl cl u p.0.0 p.0.1 e ne (ground (arith, p.1))
        | inr p ↦ ground (arith, p.1)
      ]

  other_branch-keeps :
      s.cl.uid ≡ some u
      → u ≢ client_default_name
      → other_branch env ssl s ≡ ok (t, how)
      → t.cl ≡ s.cl
  unfolding other_branch
  other_branch-keeps e ne run = elim (Run-cases (store_uid env.uid_memory s.cl s.msg.payload)) [
    | inl p ↦ ground (arith, p.1, store_uid-keeps s.msg.payload p.0 e ne p.1)
    | inr p ↦ ground (arith, p.1)
  ]

  answer_ping-keeps : answer_ping env ssl s ≡ ok (t, how) → t.cl ≡ s.cl
  unfolding answer_ping
  answer_ping-keeps run = ground arith

  -- Once the client has a UID other than the default name, no message changes it or the username.
  pub handle_message-keeps :
      s.cl.uid ≡ some u
      → u ≢ client_default_name
      → handle_message env ssl s ≡ ok (t, how)
      → t.cl ≡ s.cl
  unfolding handle_message dispatch
  handle_message-keeps e ne run = ground (arith, other_branch-keeps e ne, answer_ping-keeps)
